-- ===== src/Queue/Stored.antt =====
-- `provideStoredQueue`: rows `queue.${name}.head`, `queue.${name}.tail` and `queue.${name}.${n}` for n
-- from the tail up to the head.
use ocap_kernel.Prelude.{ℕ, zero, suc, ◌+◌, ◌-◌, Option, none, some, if◌then◌else◌, nat_beq, nat_eq}
use mathlib.Core.Option
use ocap_kernel.Dict.{Dict, get, put, delete}
use ocap_kernel.Exec.{Exec, Result, ok, err, unknown_queue, missing_row}

-- No head and no tail: a queue that was deleted. The code writes and deletes the two together.
pub record Queue (A : Type 0) : Type 0 where
  pub head : Option ℕ
  pub tail : Option ℕ
  pub entries : Dict ℕ A

abbrev pub or_one : Option ℕ → ℕ
or_one none = 1
or_one (some n) = n

-- `getQueueLength`: `Number(head) - Number(tail)`
abbrev length_between : Option ℕ → Option ℕ → Result ℕ
length_between (some h) (some t) = ok (h - t)
length_between none t = err unknown_queue
length_between (some h) none = err unknown_queue

module _ {A : Type 0} where
  -- The initial values, for a queue that is not there
  unfoldable pub provide_stored_queue : Queue A → Queue A
  provide_stored_queue q = record q { head = some (or_one q.head); tail = some (or_one q.tail) }

  abbrev enqueue_at : Option ℕ → A → Exec (Queue A) (Unit {0})
  enqueue_at none a q = (err unknown_queue, q)
  enqueue_at (some h) a q = (ok tt, record q { entries = put h a q.entries; head = some (h + 1) })

  -- `enqueue`
  unfoldable pub enqueue : A → Exec (Queue A) (Unit {0})
  enqueue a q = enqueue_at q.head a q

  abbrev take_entry : ℕ → Option A → Exec (Queue A) (Option A)
  take_entry t none q = (err missing_row, q)
  take_entry t (some a) q =
      (ok (some a), record q { tail = some (t + 1); entries = delete t q.entries })

  abbrev dequeue_at : Option ℕ → Option ℕ → Exec (Queue A) (Option A)
  dequeue_at none t q = (ok none, q)
  dequeue_at (some h) none q = (err missing_row, q)
  dequeue_at (some h) (some t) q =
      (if nat_beq t h then (λ q. (ok none, q)) else take_entry t (get t q.entries)) q

  -- `dequeue`
  unfoldable pub dequeue : Exec (Queue A) (Option A)
  dequeue q = dequeue_at q.head q.tail q

  -- The loop of `delete`, from the tail to the head
  unfoldable pub delete_entries : ℕ → ℕ → ℕ → Dict ℕ A → Option (Dict ℕ A)
  delete_entries zero t h m = none
  delete_entries (suc fuel) t h m =
      let rest = delete_entries fuel (t + 1) h (delete t m) in if nat_beq t h then some m else rest

  abbrev delete_between : Option ℕ → Option ℕ → Queue A → Option (Queue A)
  delete_between none t q = some q
  delete_between (some h) none q = some q
  delete_between (some h) (some t) q =
      Option.map (λ m. record { head = none; tail = none; entries = m })
        (delete_entries (suc (h - t)) t h q.entries)

  -- `delete`, whose loop takes a round for each entry
  unfoldable pub delete_queue : Queue A → Option (Queue A)
  unfolding delete_entries
  delete_queue q = delete_between q.head q.tail q

  unfoldable pub get_queue_length : Queue A → Result ℕ
  get_queue_length q = length_between q.head q.tail
