-- ===== src/Store/Audit/Shares.antt =====
-- Counts that change together with the references in hand.
use ocap_kernel.Prelude.{ℕ, ◌+◌, ◌≡◌, refl, false, some, List, [], ◌∷◌, ◌++◌, arith, pair_eq}
use ocap_kernel.Refs.{KRef, ko, kp, kref_eq, kref_beq, kref_beq_iff}
use ocap_kernel.Dict.{get, put, get-put}
use ocap_kernel.Store.State.{Store, Counts}
use ocap_kernel.Store.Audit.Weights.{occurrences, expected_reachable, expected_recognizable}
use ocap_kernel.Store.Audit.Laws.{IsAudited}
use ocap_kernel.Store.Audit.Entries.{put_counts-retired}

pub occurrences-append :
    (k : KRef) (js hand : List KRef)
    → occurrences k (js ++ hand) ≡ occurrences k js + occurrences k hand
occurrences-append k [] hand = omega arith
occurrences-append k (j ∷ js) hand = omega (arith, occurrences-append k js hand)

-- Only how often each kref is in hand matters.
pub same_hand-IsAudited :
    {hand next : List KRef} (s : Store)
    → ((k : KRef) → occurrences k hand ≡ occurrences k next)
    → IsAudited hand s
    → IsAudited next s
same_hand-IsAudited s same a = record {
  balanced = elim [
    | ko n ↦ ground (arith, a.balanced (ko n), same (ko n))
    | kp n ↦ ground (arith, a.balanced (kp n), same (kp n))
  ];
  clist_rows = a.clist_rows;
  pin_rows = a.pin_rows;
  promise_rows = a.promise_rows;
  queue_rows = a.queue_rows;
  kinds = a.kinds;
  retired = a.retired;
}

module _ {hand next : List KRef} (s : Store) (a : IsAudited hand s) (n : ℕ) where
  pub object_counts-IsAudited :
      (c d : Counts)
      → get (ko n) s.object_counts ≡ some c
      → d.reachable + occurrences (ko n) hand ≡ c.reachable + occurrences (ko n) next
      → d.recognizable + occurrences (ko n) hand ≡ c.recognizable + occurrences (ko n) next
      → ((j : KRef) → kref_beq (ko n) j ≡ false → occurrences j hand ≡ occurrences j next)
      → IsAudited next (record s { object_counts = put (ko n) d s.object_counts })
  unfolding expected_reachable expected_recognizable
  object_counts-IsAudited c d h p q other = record {
    balanced = elim [
      | ko j ↦ ground (
        arith,
        a.balanced (ko j),
        get-put (ko n) (ko j) d s.object_counts,
        kref_beq_iff (ko n) (ko j),
        other (ko j),
      )
      | kp j ↦ ground (arith, a.balanced (kp j), other (kp j) refl)
    ];
    clist_rows = a.clist_rows;
    pin_rows = a.pin_rows;
    promise_rows = a.promise_rows;
    queue_rows = a.queue_rows;
    kinds = a.kinds;
    retired = put_counts-retired s a n c d h;
  }

  pub promise_counts-IsAudited :
      (c d : ℕ)
      → get (kp n) s.promise_counts ≡ some c
      → d + occurrences (kp n) hand ≡ c + occurrences (kp n) next
      → ((j : KRef) → kref_beq (kp n) j ≡ false → occurrences j hand ≡ occurrences j next)
      → IsAudited next (record s { promise_counts = put (kp n) d s.promise_counts })
  unfolding expected_reachable expected_recognizable
  promise_counts-IsAudited c d h p other = record {
    balanced = elim [
      | ko j ↦ ground (arith, a.balanced (ko j), other (ko j) refl)
      | kp j ↦ ground (
        arith,
        a.balanced (kp j),
        get-put (kp n) (kp j) d s.promise_counts,
        kref_beq_iff (kp n) (kp j),
        other (kp j),
      )
    ];
    clist_rows = a.clist_rows;
    pin_rows = a.pin_rows;
    promise_rows = a.promise_rows;
    queue_rows = a.queue_rows;
    kinds = a.kinds;
    retired = a.retired;
  }
