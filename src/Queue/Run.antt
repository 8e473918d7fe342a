-- ===== src/Queue/Run.antt =====
-- The run queue with the count of its entries in memory (packages/ocap-kernel/src/store/methods/queue.ts).
use ocap_kernel.Prelude.{ℕ, ◌+◌, Option}
use ocap_kernel.Exec.{Exec, Result, ok, err, modify, ◌>>=◌, ◌>>◌}
use ocap_kernel.Store.Counts.{ℤ, pos, negsuc, minus_one}
use ocap_kernel.Queue.Stored.{Queue, enqueue, dequeue, get_queue_length}

-- `ctx.runQueue` and `ctx.runQueueLengthCache`: a negative count means that it is not known.
pub record RunQueue (A : Type 0) : Type 0 where
  pub queue : Queue A
  pub length_cache : ℤ

module _ {A : Type 0} where
  abbrev counted : Result ℕ → Exec (RunQueue A) ℕ
  counted (ok n) q = (ok n, record q { length_cache = pos n })
  counted (err e) q = (err e, q)

  abbrev length_by : ℤ → Exec (RunQueue A) ℕ
  length_by (pos n) q = (ok n, q)
  length_by (negsuc n) q = counted (get_queue_length q.queue) q

  -- `runQueueLength`
  unfoldable pub run_queue_length : Exec (RunQueue A) ℕ
  run_queue_length q = length_by q.length_cache q

  -- A call of a method of `ctx.runQueue`
  abbrev on_queue : {B : Type 0} → Exec (Queue A) B → Exec (RunQueue A) B
  on_queue m q = let (r, s) = m q.queue in (r, record q { queue = s })

  -- `enqueueRun`
  unfoldable pub enqueue_run : A → Exec (RunQueue A) (Unit {0})
  enqueue_run a = do
    n ← run_queue_length
    on_queue (enqueue a)
    modify (λ q. record q { length_cache = pos (n + 1) })

  -- `dequeueRun`
  unfoldable pub dequeue_run : Exec (RunQueue A) (Option A)
  dequeue_run = do
    n ← run_queue_length
    modify (λ q. record q { length_cache = minus_one n })
    on_queue dequeue
