-- ===== src/Store/Audit/PinRows.antt =====
-- A change of the pins of one kref that its counts follow.
use ocap_kernel.Prelude.{List, suc, ◌≤◌, ℕ, ◌+◌, ◌≡◌, some, arith}
use ocap_kernel.Dict.{
  total, IsDict, Dict, get, put, delete, get-put, total-put, total-delete, put-IsDict,
  delete-IsDict,
}
use ocap_kernel.Store.Audit.Laws.{IsAudited}
use ocap_kernel.Store.Pinned.{get_pin_count, or_zero}
use ocap_kernel.Store.State.{Store, Counts}
use ocap_kernel.Refs.{kref_beq_iff, ko, kp, kref_eq, KRef}
use ocap_kernel.Store.Audit.Entries.{put_counts-retired}
use ocap_kernel.Store.Audit.Weights.{
  credit_pin, expected_reachable, expected_recognizable, IsBalanced,
}

-- The pin rows changed for one kref, with the sum that its credit moves by.
abbrev pub PinMove : Store → Dict KRef ℕ → KRef → ℕ → ℕ → Type 0
PinMove s m k up down =
    IsDict m
    × ((j : KRef)
        → total (credit_pin j) m + credit_pin j k down
          ≡ total (credit_pin j) s.pinned + credit_pin j k up)

module _ {hand : List KRef} (s : Store) (a : IsAudited hand s) (k : KRef) (m : Dict KRef ℕ)
    (up down : ℕ) (move : PinMove s m k up down) where
  pub object_pins-IsBalanced :
      (n : ℕ) (c d : Counts)
      → k ≡ ko n
      → get (ko n) s.object_counts ≡ some c
      → d.reachable + down ≡ c.reachable + up
      → d.recognizable + down ≡ c.recognizable + up
      → (j : KRef)
      → IsBalanced hand (record s { object_counts = put (ko n) d s.object_counts; pinned = m }) j
  unfolding expected_reachable expected_recognizable
  object_pins-IsBalanced n c d q hc p p' (kp j) = ground (arith, a.balanced (kp j), move.1 (kp j))
  object_pins-IsBalanced n c d q hc p p' (ko j) = ground (
    arith,
    a.balanced (ko j),
    move.1 (ko j),
    get-put (ko n) (ko j) d s.object_counts,
    kref_beq_iff (ko n) (ko j),
  )

  pub promise_pins-IsBalanced :
      (n : ℕ) (c d : ℕ)
      → k ≡ kp n
      → get (kp n) s.promise_counts ≡ some c
      → d + down ≡ c + up
      → (j : KRef)
      → IsBalanced hand (record s { promise_counts = put (kp n) d s.promise_counts; pinned = m }) j
  unfolding expected_reachable expected_recognizable
  promise_pins-IsBalanced n c d q hc p (ko j) = ground (arith, a.balanced (ko j), move.1 (ko j))
  promise_pins-IsBalanced n c d q hc p (kp j) = ground (
    arith,
    a.balanced (kp j),
    move.1 (kp j),
    get-put (kp n) (kp j) d s.promise_counts,
    kref_beq_iff (kp n) (kp j),
  )

  pub object_pins-IsAudited :
      (n : ℕ) (c d : Counts)
      → k ≡ ko n
      → get (ko n) s.object_counts ≡ some c
      → d.reachable + down ≡ c.reachable + up
      → d.recognizable + down ≡ c.recognizable + up
      → IsAudited hand (record s { object_counts = put (ko n) d s.object_counts; pinned = m })
  object_pins-IsAudited n c d q hc p p' = record {
    balanced = object_pins-IsBalanced n c d q hc p p';
    clist_rows = a.clist_rows;
    pin_rows = move.0;
    promise_rows = a.promise_rows;
    queue_rows = a.queue_rows;
    kinds = a.kinds;
    retired = put_counts-retired s a n c d hc;
  }

  pub promise_pins-IsAudited :
      (n : ℕ) (c d : ℕ)
      → k ≡ kp n
      → get (kp n) s.promise_counts ≡ some c
      → d + down ≡ c + up
      → IsAudited hand (record s { promise_counts = put (kp n) d s.promise_counts; pinned = m })
  promise_pins-IsAudited n c d q hc p = record {
    balanced = promise_pins-IsBalanced n c d q hc p;
    clist_rows = a.clist_rows;
    pin_rows = move.0;
    promise_rows = a.promise_rows;
    queue_rows = a.queue_rows;
    kinds = a.kinds;
    retired = a.retired;
  }

module _ {hand : List KRef} (s : Store) (a : IsAudited hand s) (k : KRef) where
  pub more_pins : PinMove s (put k (get_pin_count k s + 1) s.pinned) k 1 0
  unfolding get_pin_count
  more_pins = (
    put-IsDict k _ s.pinned a.pin_rows,
    λ j.
        ground
          (arith, total-put (credit_pin j) k (or_zero (get k s.pinned) + 1) s.pinned a.pin_rows),
  )

  -- The pins of a kref are part of what it is owed.
  pub pins-le : (j : KRef) → credit_pin j k (get_pin_count k s) ≤ total (credit_pin j) s.pinned
  unfolding get_pin_count
  pins-le j = ground (arith, total-delete (credit_pin j) k s.pinned a.pin_rows)

  pub fewer_pins :
      (n : ℕ) → get_pin_count k s ≡ suc (suc n) → PinMove s (put k (suc n) s.pinned) k 0 1
  unfolding get_pin_count
  fewer_pins n q = (
    put-IsDict k _ s.pinned a.pin_rows,
    λ j. ground (arith, total-put (credit_pin j) k (suc n) s.pinned a.pin_rows),
  )

  pub no_pins : get_pin_count k s ≡ 1 → PinMove s (delete k s.pinned) k 0 1
  unfolding get_pin_count
  no_pins q = (
    delete-IsDict k s.pinned a.pin_rows,
    λ j. ground (arith, total-delete (credit_pin j) k s.pinned a.pin_rows),
  )
