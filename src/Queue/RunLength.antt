-- ===== src/Queue/RunLength.antt =====
-- The count in memory against the entries of the run queue, through every history of calls.
use ocap_kernel.Prelude.{
  ap, ℕ, ◌≡◌, refl, Option, none, some, List, [], ◌∷◌, ◌++◌, arith, length, length-append,
}
use ocap_kernel.Exec.{Result, ok}
use ocap_kernel.Store.Counts.{ℤ, pos, negsuc}
use ocap_kernel.Queue.Run.{RunQueue, run_queue_length, enqueue_run, dequeue_run}
use ocap_kernel.Queue.Contents.{
  Holds, enqueue-Holds, dequeue-Holds, dequeue-empty, get_queue_length-Holds,
}

module _ {A : Type 0} where
  -- The queue holds these entries, and the count is theirs where it is known.
  pub record Counts (q : RunQueue A) (xs : List A) : Type 0 where
    pub holds : Holds q.queue xs
    pub exact : (n : ℕ) → q.length_cache ≡ pos n → n ≡ length xs

  run_queue_length-measures :
      (q : RunQueue A) (xs : List A) (c : ℤ)
      → q.length_cache ≡ c
      → Counts q xs
      → run_queue_length q ≡ (ok (length xs), record q { length_cache = pos (length xs) })
  unfolding run_queue_length
  run_queue_length-measures q xs (pos n) h v = rw (h, run_queue_length) (rw (v.exact n h) refl)
  run_queue_length-measures q xs (negsuc n) h v =
      rw (h, run_queue_length) (rw (get_queue_length-Holds q.queue xs v.holds) refl)

  measured : RunQueue A → List A → RunQueue A
  measured q xs = record q { length_cache = pos (length xs) }

  run_queue_length-Counts :
      (q : RunQueue A) (xs : List A)
      → Counts q xs
      → run_queue_length q ≡ (ok (length xs), measured q xs)
  unfolding measured
  run_queue_length-Counts q xs v = run_queue_length-measures q xs q.length_cache refl v

  measured-Counts : (q : RunQueue A) (xs : List A) → Counts q xs → Counts (measured q xs) xs
  unfolding measured
  measured-Counts q xs v = record { holds = v.holds; exact = λ n h. ground (arith, h) }

  enqueue_run-Counts :
      (q : RunQueue A) (xs : List A) (a : A)
      → Counts q xs
      → ((enqueue_run a q).0 ≡ ok tt) × Counts (enqueue_run a q).1 (xs ++ a ∷ [])
  unfolding enqueue_run measured
  enqueue_run-Counts q xs a v =
      let (returns, holds) = enqueue-Holds q.queue xs a v.holds in
      rw (run_queue_length-Counts q xs v, enqueue_run)
        (rw (returns) (
          refl,
          record { holds = holds; exact = λ n h. ground (arith, h, length-append xs (a ∷ [])) },
        ))

  dequeue_run-Counts :
      (q : RunQueue A) (x : A) (xs : List A)
      → Counts q (x ∷ xs)
      → ((dequeue_run q).0 ≡ ok (some x)) × Counts (dequeue_run q).1 xs
  unfolding dequeue_run measured
  dequeue_run-Counts q x xs v =
      let (returns, holds) = dequeue-Holds q.queue x xs v.holds in
      rw (run_queue_length-Counts q (x ∷ xs) v, dequeue_run)
        (returns, record { holds = holds; exact = λ n h. ground (arith, h) })

  dequeue_run-empty :
      (q : RunQueue A) → Counts q [] → ((dequeue_run q).0 ≡ ok none) × Counts (dequeue_run q).1 []
  unfolding dequeue_run measured
  dequeue_run-empty q v =
      rw (run_queue_length-Counts q [] v, dequeue_run)
        (rw (dequeue-empty q.queue v.holds)
          (refl, record { holds = v.holds; exact = λ n h. ground (arith, h) }))

-- A client's calls on the run queue, and what they return.
pub data RunCall (A : Type 0) : Type 0 where
  enqueues : A → RunCall A
  dequeues : RunCall A
  measures : RunCall A

pub data Reply (A : Type 0) : Type 0 where
  added : Result (Unit {0}) → Reply A
  taken : Result (Option A) → Reply A
  count : Result ℕ → Reply A

unfoldable pub replies : {A : Type 0} → List (RunCall A) → RunQueue A → List (Reply A)
replies [] q = []
replies (enqueues a ∷ cs) q = added (enqueue_run a q).0 ∷ replies cs (enqueue_run a q).1
replies (dequeues ∷ cs) q = taken (dequeue_run q).0 ∷ replies cs (dequeue_run q).1
replies (measures ∷ cs) q = count (run_queue_length q).0 ∷ replies cs (run_queue_length q).1

abbrev pub list_replies : {A : Type 0} → List (RunCall A) → List A → List (Reply A)
list_replies [] xs = []
list_replies (enqueues a ∷ cs) xs = added (ok tt) ∷ list_replies cs (xs ++ a ∷ [])
list_replies (dequeues ∷ cs) [] = taken (ok none) ∷ list_replies cs []
list_replies (dequeues ∷ cs) (x ∷ xs) = taken (ok (some x)) ∷ list_replies cs xs
list_replies (measures ∷ cs) xs = count (ok (length xs)) ∷ list_replies cs xs

-- A run queue that holds a list, and whose count in memory is unknown or right, gives every history
-- of `enqueueRun`, `dequeueRun` and `runQueueLength` the replies that a first-in first-out list
-- gives: no call throws, and the length is right also after a dequeue of an empty queue, which takes
-- the count below zero.
pub replies-Counts :
    {A : Type 0} (cs : List (RunCall A)) (q : RunQueue A) (xs : List A)
    → Counts q xs
    → replies cs q ≡ list_replies cs xs
unfolding replies
replies-Counts [] q xs v = refl
replies-Counts (enqueues a ∷ cs) q xs v =
    let (e, w) = enqueue_run-Counts q xs a v in
    rw e (ap (◌∷◌ (added (ok tt))) (replies-Counts cs (enqueue_run a q).1 (xs ++ a ∷ []) w))
replies-Counts (dequeues ∷ cs) q [] v =
    let (e, w) = dequeue_run-empty q v in
    rw e (ap (◌∷◌ (taken (ok none))) (replies-Counts cs (dequeue_run q).1 [] w))
replies-Counts (dequeues ∷ cs) q (x ∷ xs) v =
    let (e, w) = dequeue_run-Counts q x xs v in
    rw e (ap (◌∷◌ (taken (ok (some x)))) (replies-Counts cs (dequeue_run q).1 xs w))
replies-Counts (measures ∷ cs) q xs v = rw (run_queue_length-Counts q xs v) (
    ap (◌∷◌ (count (ok (length xs))))
      (replies-Counts cs (measured q xs) xs (measured-Counts q xs v)))
