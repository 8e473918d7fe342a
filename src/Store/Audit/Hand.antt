-- ===== src/Store/Audit/Hand.antt =====
-- References in hand: `incrementRefCount` takes one and `decrementRefCount` gives one back. What a method
-- that only counts leaves is the store with other counts and collection candidates.
use ocap_kernel.Prelude.{
  ℕ, suc, ◌+◌, ◌-◌, ◌<◌, ◌≤◌, ◌≡◌, refl, true, Option-cases, inl, inr, some, List, ◌∷◌, arith,
  pair_eq,
}
use ocap_kernel.Refs.{KRef, ko, kp, kref_eq, kref_beq_iff}
use ocap_kernel.Dict.{Dict, get, put, get-put}
use ocap_kernel.Exec.{Result, ok}
use ocap_kernel.Store.State.{Store, Counts}
use ocap_kernel.Store.RefCount.{kernel_ref_exists, increment_ref_count, plain_ref}
use ocap_kernel.Store.Promise.{decrement}
use ocap_kernel.Store.Audit.Laws.{IsAudited, expected_reachable-le, maybe_free-IsAudited}
use ocap_kernel.Store.Audit.Pins.{decrement_object-pin, decrement_promise-pin}
use ocap_kernel.Store.Audit.Shares.{object_counts-IsAudited, promise_counts-IsAudited}

-- The store with other counts and collection candidates.
abbrev pub recounted : Dict KRef Counts → Dict KRef ℕ → List KRef → Store → Store
recounted oc pc l s = record s { object_counts = oc; promise_counts = pc; maybe_free = l }

-- The call returns, has changed nothing but counts and collection candidates, makes no kref come or
-- go, and leaves these references in hand.
pub record Recounts (hand : List KRef) (s : Store) (p : Result (Unit {0}) × Store) : Type 0 where
  pub objects : Dict KRef Counts
  pub promises : Dict KRef ℕ
  pub candidates : List KRef
  pub outcome : p ≡ (ok tt, recounted objects promises candidates s)
  pub audited : IsAudited hand (recounted objects promises candidates s)
  pub exists :
      (j : KRef)
      → kernel_ref_exists j (recounted objects promises candidates s) ≡ kernel_ref_exists j s

module _ {hand : List KRef} (s : Store) where
  increment_object-Recounts :
      (n : ℕ) (c : Counts)
      → IsAudited hand s
      → get (ko n) s.object_counts ≡ some c
      → Recounts (ko n ∷ hand) s (increment_ref_count (ko n) plain_ref s)
  unfolding increment_ref_count kernel_ref_exists
  increment_object-Recounts n c a h =
      let d : Counts = record { reachable = c.reachable + 1; recognizable = c.recognizable + 1 } in
      record {
        objects = put (ko n) d s.object_counts;
        promises = s.promise_counts;
        candidates = s.maybe_free;
        outcome = ground (arith, a.balanced (ko n), expected_reachable-le s n);
        audited =
            object_counts-IsAudited s a n c d h (ground arith) (ground arith)
              (λ j q. ground (arith, kref_beq_iff (ko n) j));
        exists = elim [
          | ko j ↦
              ground (arith, get-put (ko n) (ko j) d s.object_counts, kref_beq_iff (ko n) (ko j))
          | kp j ↦ refl
        ];
      }

  increment_promise-Recounts :
      (n c : ℕ)
      → IsAudited hand s
      → get (kp n) s.promise_counts ≡ some c
      → Recounts (kp n ∷ hand) s (increment_ref_count (kp n) plain_ref s)
  unfolding increment_ref_count kernel_ref_exists
  increment_promise-Recounts n c a h = record {
    objects = s.object_counts;
    promises = put (kp n) (c + 1) s.promise_counts;
    candidates = s.maybe_free;
    outcome = ground arith;
    audited =
        promise_counts-IsAudited s a n c (c + 1) h (ground arith)
          (λ j q. ground (arith, kref_beq_iff (kp n) j));
    exists = elim [
      | ko j ↦ refl
      | kp j ↦
          ground (arith, get-put (kp n) (kp j) (c + 1) s.promise_counts, kref_beq_iff (kp n) (kp j))
    ];
  }

-- Taking one more reference to a kref that exists returns, and adds one to what is in hand.
pub increment_ref_count-Recounts :
    {hand : List KRef} (s : Store) (k : KRef)
    → IsAudited hand s
    → kernel_ref_exists k s ≡ true
    → Recounts (k ∷ hand) s (increment_ref_count k plain_ref s)
unfolding kernel_ref_exists
increment_ref_count-Recounts s (ko n) a h = elim (Option-cases (get (ko n) s.object_counts)) [
  | inl q ↦ absurd (ground arith)
  | inr (c, q) ↦ increment_object-Recounts s n c a q
]
increment_ref_count-Recounts s (kp n) a h = elim (Option-cases (get (kp n) s.promise_counts)) [
  | inl q ↦ absurd (ground arith)
  | inr (c, q) ↦ increment_promise-Recounts s n c a q
]

module _ {hand : List KRef} (s : Store) (n : ℕ) where
  -- What is in hand has rows, whose counts are positive.
  pub held_object :
      IsAudited (ko n ∷ hand) s
      → (c : Counts) × (get (ko n) s.object_counts ≡ some c)
        × (0 < c.reachable)
        × (c.reachable ≤ c.recognizable)
  held_object a = elim (Option-cases (get (ko n) s.object_counts)) [
    | inl q ↦ absurd (ground (arith, a.balanced (ko n), kref_beq_iff (ko n) (ko n)))
    | inr (c, q) ↦ (
      c,
      q,
      ground (arith, a.balanced (ko n), kref_beq_iff (ko n) (ko n)),
      ground (arith, a.balanced (ko n), expected_reachable-le s n),
    )
  ]

  pub held_promise :
      IsAudited (kp n ∷ hand) s → (r : ℕ) × (get (kp n) s.promise_counts ≡ some (suc r))
  held_promise a = elim (Option-cases (get (kp n) s.promise_counts)) [
    | inl q ↦ absurd (ground (arith, a.balanced (kp n), kref_beq_iff (kp n) (kp n)))
    | inr (c, q) ↦ (c - 1, ground (arith, a.balanced (kp n), kref_beq_iff (kp n) (kp n)))
  ]

  decrement_object-Recounts : IsAudited (ko n ∷ hand) s → Recounts hand s (decrement (ko n) s)
  unfolding kernel_ref_exists
  decrement_object-Recounts a =
      let (c, q, p, l) = held_object a in
      let (free, step) = decrement_object-pin s n c q p l in
      let d : Counts = record { reachable = c.reachable - 1; recognizable = c.recognizable - 1 } in
      record {
        objects = put (ko n) d s.object_counts;
        promises = s.promise_counts;
        candidates = free;
        outcome = rw (step) refl;
        audited = maybe_free-IsAudited _ free (
            object_counts-IsAudited s a n c d q (ground (arith, kref_beq_iff (ko n) (ko n)))
              (ground (arith, kref_beq_iff (ko n) (ko n)))
              (λ j r. ground (arith, kref_beq_iff (ko n) j)));
        exists = elim [
          | ko j ↦
              ground (arith, get-put (ko n) (ko j) d s.object_counts, kref_beq_iff (ko n) (ko j))
          | kp j ↦ refl
        ];
      }

  decrement_promise-Recounts : IsAudited (kp n ∷ hand) s → Recounts hand s (decrement (kp n) s)
  unfolding kernel_ref_exists
  decrement_promise-Recounts a =
      let (r, q) = held_promise a in
      let (b, free, step) = decrement_promise-pin s n r q in
      record {
        objects = s.object_counts;
        promises = put (kp n) r s.promise_counts;
        candidates = free;
        outcome = rw (step) refl;
        audited = maybe_free-IsAudited _ free (
            promise_counts-IsAudited s a n (suc r) r q (ground (arith, kref_beq_iff (kp n) (kp n)))
              (λ j t. ground (arith, kref_beq_iff (kp n) j)));
        exists = elim [
          | ko j ↦ refl
          | kp j ↦
              ground (arith, get-put (kp n) (kp j) r s.promise_counts, kref_beq_iff (kp n) (kp j))
        ];
      }

-- Giving a reference back returns, whatever the kref: no count underflows.
pub decrement-Recounts :
    {hand : List KRef} (s : Store) (k : KRef)
    → IsAudited (k ∷ hand) s
    → Recounts hand s (decrement k s)
decrement-Recounts s (ko n) a = decrement_object-Recounts s n a
decrement-Recounts s (kp n) a = decrement_promise-Recounts s n a

-- A reference in hand is one to a kref that exists.
pub held_exists :
    {hand : List KRef} (s : Store) (k : KRef)
    → IsAudited (k ∷ hand) s
    → kernel_ref_exists k s ≡ true
unfolding kernel_ref_exists
held_exists s (ko n) a = let (c, q, p, l) = held_object s n a in rw (q) refl
held_exists s (kp n) a = let (r, q) = held_promise s n a in rw (q) refl
