-- ===== src/Store/Audit/Pins.antt =====
-- Pins under the audit: one unit of each count for each pin.
use ocap_kernel.Store.Audit.PinRows.{
  PinMove, object_pins-IsAudited, promise_pins-IsAudited, more_pins, pins-le, fewer_pins, no_pins,
}
use ocap_kernel.Dict.{get-delete_self, get-put_self, Dict, get, put, delete}
use ocap_kernel.Store.Audit.Laws.{maybe_free-IsAudited, IsAudited, expected_reachable-le}
use ocap_kernel.Prelude.{
  ◌||◌, zero, if◌then◌else◌, ◌-◌, inr, inl, Option-cases, ◌<◌, suc, ◌≤◌, ℕ, ◌+◌, ◌≡◌, refl, Bool,
  true, false, some, arith, List,
}
use ocap_kernel.Store.Counts.{minus_one, is_zero}
use ocap_kernel.Store.Pinned.{write_unpinned, pin_object, unpin_object, get_pin_count, or_zero}
use ocap_kernel.Exec.{modify, ◌>>=◌, ok, Result}
use ocap_kernel.Store.State.{set_add, Store, Counts}
use ocap_kernel.Store.RefCount.{plain_ref, decrement_ref_count, kernel_ref_exists}
use ocap_kernel.Refs.{ko, kp, kref_eq, KRef}
use ocap_kernel.Store.Audit.Weights.{expected_reachable, expected_recognizable}

-- The call returns, leaves an audited store, and the kref now has `n` pins.
abbrev pub Pins : List KRef → KRef → ℕ → Result (Unit {0}) × Store → Type 0
Pins hand k n (r, s) = (r ≡ ok tt) × IsAudited hand s × (get_pin_count k s ≡ n)

-- Pinning takes one unit of each count of the kref: on an audited store `pinObject`, for a kref that exists, adds one to
-- its pins, does not throw, and keeps every count equal to the references held.
pub pin_object-Pins :
    {hand : List KRef} (s : Store) (k : KRef)
    → IsAudited hand s
    → kernel_ref_exists k s ≡ true
    → Pins hand k (get_pin_count k s + 1) (pin_object k s)
unfolding pin_object kernel_ref_exists
pin_object-Pins s (kp n) a h = elim (Option-cases (get (kp n) s.promise_counts)) [
  | inl q ↦ absurd (ground arith)
  | inr (c, q) ↦ ground (
    arith,
    promise_pins-IsAudited s a (kp n) _ 1 0 (more_pins s a (kp n)) n c (c + 1) refl q,
    get-put_self (kp n) (get_pin_count (kp n) s + 1) s.pinned,
  )
]
pin_object-Pins s (ko n) a h = elim (Option-cases (get (ko n) s.object_counts)) [
  | inl q ↦ absurd (ground arith)
  | inr (c, q) ↦ ground (
    arith,
    a.balanced (ko n),
    expected_reachable-le s n,
    object_pins-IsAudited s a (ko n) _ 1 0 (more_pins s a (ko n)) n c
        (record { reachable = c.reachable + 1; recognizable = c.recognizable + 1 }) refl q,
    get-put_self (ko n) (get_pin_count (ko n) s + 1) s.pinned,
  )
]

-- The rows of a kref that has a pin: both counts are positive.
pinned_counts :
    {hand : List KRef} (s : Store) (n : ℕ)
    → IsAudited hand s
    → 0 < get_pin_count (ko n) s
    → (c : Counts) × (get (ko n) s.object_counts ≡ some c)
      × (0 < c.reachable)
      × (c.reachable ≤ c.recognizable)
unfolding expected_reachable expected_recognizable
pinned_counts s n a h = elim (Option-cases (get (ko n) s.object_counts)) [
  | inl q ↦ absurd (ground (arith, a.balanced (ko n), pins-le s a (ko n) (ko n)))
  | inr (c, q) ↦ (
    c,
    q,
    ground (arith, a.balanced (ko n), pins-le s a (ko n) (ko n)),
    ground (arith, a.balanced (ko n), expected_reachable-le s n),
  )
]

pinned_count :
    {hand : List KRef} (s : Store) (n : ℕ)
    → IsAudited hand s
    → 0 < get_pin_count (kp n) s
    → (r : ℕ) × (get (kp n) s.promise_counts ≡ some (suc r))
unfolding expected_reachable expected_recognizable
pinned_count s n a h = elim (Option-cases (get (kp n) s.promise_counts)) [
  | inl q ↦ absurd (ground (arith, a.balanced (kp n), pins-le s a (kp n) (kp n)))
  | inr (c, q) ↦ (c - 1, ground (arith, a.balanced (kp n), pins-le s a (kp n) (kp n)))
]

pub decrement_object-pin :
    (s : Store) (n : ℕ) (c : Counts)
    → get (ko n) s.object_counts ≡ some c
    → 0 < c.reachable
    → c.reachable ≤ c.recognizable
    → (l : List KRef) × (decrement_ref_count (ko n) plain_ref s ≡ (
      ok false,
      record s {
        object_counts =
            put
              (ko n)
              (record { reachable = c.reachable - 1; recognizable = c.recognizable - 1 })
              s.object_counts;
        maybe_free = l;
      },
    ))
unfolding decrement_ref_count
decrement_object-pin s n c h p q = (
  if is_zero (minus_one c.reachable) || is_zero (minus_one c.recognizable)
      then set_add (ko n) s.maybe_free
      else s.maybe_free,
  ground arith,
)

pub decrement_promise-pin :
    (s : Store) (n r : ℕ)
    → get (kp n) s.promise_counts ≡ some (suc r)
    → (b : Bool) × (l : List KRef) × (decrement_ref_count (kp n) plain_ref s
        ≡ (ok b, record s { promise_counts = put (kp n) r s.promise_counts; maybe_free = l }))
unfolding decrement_ref_count
decrement_promise-pin s n zero h = (true, set_add (kp n) s.maybe_free, rw (h, decrement_ref_count))
decrement_promise-pin s n (suc r) h = (false, s.maybe_free, rw (h, decrement_ref_count))

unpin_object_pins :
    (n : ℕ) (k : KRef) (s : Store)
    → get_pin_count k s ≡ suc n
    → unpin_object k s
      ≡ (decrement_ref_count k plain_ref >>= λ _. modify (write_unpinned k (suc n))) s
unfolding unpin_object
unpin_object_pins n k s h = rw (h, unpin_object)

unpin_object-none : (k : KRef) (s : Store) → get_pin_count k s ≡ 0 → unpin_object k s ≡ (ok tt, s)
unfolding unpin_object
unpin_object-none k s h = rw (h, unpin_object)

-- What `unpinObject` writes, as a dictionary of pins.
unpinned : KRef → ℕ → Dict KRef ℕ → Dict KRef ℕ
unpinned k zero m = delete k m
unpinned k (suc n) m = put k (suc n) m

write_unpinned-pinned :
    (k : KRef) (n : ℕ) (s : Store)
    → write_unpinned k (suc n) s ≡ record s { pinned = unpinned k n s.pinned }
unfolding write_unpinned unpinned
write_unpinned-pinned k zero s = refl
write_unpinned-pinned k (suc n) s = refl

unpinned-PinMove :
    {hand : List KRef} (s : Store) (k : KRef) (n : ℕ)
    → IsAudited hand s
    → get_pin_count k s ≡ suc n
    → PinMove s (unpinned k n s.pinned) k 0 1
unfolding unpinned
unpinned-PinMove s k zero a h = no_pins s a k h
unpinned-PinMove s k (suc n) a h = fewer_pins s a k n h

get-unpinned : (k : KRef) (n : ℕ) (m : Dict KRef ℕ) → or_zero (get k (unpinned k n m)) ≡ n
unfolding unpinned
get-unpinned k zero m = ground (arith, get-delete_self k m)
get-unpinned k (suc n) m = ground (arith, get-put_self k (suc n) m)

unpin_some-Pins :
    {hand : List KRef} (s : Store) (k : KRef) (n : ℕ)
    → IsAudited hand s
    → get_pin_count k s ≡ suc n
    → Pins hand k n (unpin_object k s)
unfolding get_pin_count
unpin_some-Pins s (ko m) n a h =
    let (c, q, p, l) = pinned_counts s m a (rw h (omega arith)) in
    let (free, step) = decrement_object-pin s m c q p l in
    rw (unpin_object_pins n (ko m) s h) (
      rw (step) (
        rw (write_unpinned-pinned (ko m) n) (
          refl,
          maybe_free-IsAudited _ free (
              object_pins-IsAudited s a (ko m) (unpinned (ko m) n s.pinned) 0 1
                (unpinned-PinMove s (ko m) n a h) m c _ refl q (omega arith) (omega arith)),
          get-unpinned (ko m) n s.pinned,
        )))
unpin_some-Pins s (kp m) n a h =
    let (r, q) = pinned_count s m a (rw h (omega arith)) in
    let (b, free, step) = decrement_promise-pin s m r q in
    rw (unpin_object_pins n (kp m) s h) (
      rw (step) (
        rw (write_unpinned-pinned (kp m) n) (
          refl,
          maybe_free-IsAudited _ free (
              promise_pins-IsAudited s a (kp m) (unpinned (kp m) n s.pinned) 0 1
                (unpinned-PinMove s (kp m) n a h) m (suc r) r refl q (omega arith)),
          get-unpinned (kp m) n s.pinned,
        )))

-- Unpinning gives one unit of each count back: on an audited store `unpinObject` takes one from the pins of the kref, or
-- does nothing where it has none, does not throw, and keeps every count equal to the references
-- held.
pub unpin_object-Pins :
    {hand : List KRef} (s : Store) (k : KRef)
    → IsAudited hand s
    → Pins hand k (get_pin_count k s - 1) (unpin_object k s)
unpin_object-Pins {hand = hand} s k a = go (get_pin_count k s) refl
  where
    go : (n : ℕ) → get_pin_count k s ≡ n → Pins hand k (n - 1) (unpin_object k s)
    go zero h = rw (unpin_object-none k s h) (refl, a, h)
    go (suc n) h = let e : suc n - 1 ≡ n = omega arith in rw e (unpin_some-Pins s k n a h)
