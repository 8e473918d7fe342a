-- ===== src/Store/Audit/Laws.antt =====
-- The invariant that the audit checks, with what makes the rows of the store tables of unique keys.
use ocap_kernel.Prelude.{
  zero, suc, none, ℕ, ◌≤◌, ◌≡◌, refl, true, false, some, List, [], ◌∷◌, arith, pair_eq,
}
use ocap_kernel.Refs.{Owner, kp, KRef, ko, EndpointId, is_promise_ref, kref_eq, endpoint_eq}
use ocap_kernel.Store.State.{set_add, add_maybe_free, Store, Entry, GcAction}
use ocap_kernel.Dict.{Dict, get, total, IsDict}
use ocap_kernel.Store.Audit.Weights.{
  reaches, recognizes, is_retiring, expected_reachable, expected_recognizable, IsBalanced,
}

-- The audit passes once the references in hand are counted, and the tables are in order: no key has
-- two rows, an entry for a promise holds a promise's eref and one for an object an object's, and the
-- kernel has dropped every object that it has scheduled a `retireImport` for.
pub record IsAudited (hand : List KRef) (s : Store) : Type 0 where
  pub balanced : (k : KRef) → IsBalanced hand s k
  pub clist_rows : IsDict s.by_kref
  pub pin_rows : IsDict s.pinned
  pub promise_rows : IsDict s.promise_state
  pub queue_rows : IsDict s.promise_queue
  pub kinds :
      (e : EndpointId) (k : KRef) (x : Entry)
      → get (e, k) s.by_kref ≡ some x
      → x.vat_slot.is_promise ≡ is_promise_ref k
  pub retired :
      (e : EndpointId) (n : ℕ)
      → is_retiring s.gc_actions e (ko n) ≡ true
      → get (ko n) s.object_counts ≡ none

module _ (gcs : List GcAction) (k : KRef) where
  reaches-le-recognizes :
      (p : EndpointId × KRef) (x : Entry)
      → is_promise_ref k ≡ false
      → reaches gcs k p x ≤ recognizes gcs k p x
  unfolding reaches recognizes
  reaches-le-recognizes p x h = ground arith

  -- Nothing reaches an object that does not recognize it too.
  pub total-reaches-le :
      (m : Dict (EndpointId × KRef) Entry)
      → is_promise_ref k ≡ false
      → total (reaches gcs k) m ≤ total (recognizes gcs k) m
  total-reaches-le [] h = omega arith
  total-reaches-le ((p, x) ∷ m) h = omega (arith, reaches-le-recognizes p x h, total-reaches-le m h)

pub expected_reachable-le :
    (s : Store) (n : ℕ) → expected_reachable s (ko n) ≤ expected_recognizable s (ko n)
unfolding expected_reachable expected_recognizable
expected_reachable-le s n = omega (arith, total-reaches-le s.gc_actions (ko n) s.by_kref refl)

-- The collection candidates are not part of what is audited.
pub maybe_free-IsAudited :
    {hand : List KRef} (s : Store) (l : List KRef)
    → IsAudited hand s
    → IsAudited hand (record s { maybe_free = l })
unfolding expected_reachable expected_recognizable
maybe_free-IsAudited s l a = record {
  balanced = elim [ ko n ↦ a.balanced (ko n) | kp n ↦ a.balanced (kp n) ];
  clist_rows = a.clist_rows;
  pin_rows = a.pin_rows;
  promise_rows = a.promise_rows;
  queue_rows = a.queue_rows;
  kinds = a.kinds;
  retired = a.retired;
}

-- The collection candidates after a reachable count has come down to `r`.
abbrev pub freed_if_unreachable : KRef → ℕ → Store → Store
freed_if_unreachable k zero s = add_maybe_free k s
freed_if_unreachable k (suc r) s = s

pub freed-IsAudited :
    {hand : List KRef} (k : KRef) (r : ℕ) (s : Store)
    → IsAudited hand s
    → IsAudited hand (freed_if_unreachable k r s)
unfolding add_maybe_free
freed-IsAudited k zero s a = maybe_free-IsAudited s (set_add k s.maybe_free) a
freed-IsAudited k (suc r) s a = a

pub by_kref-freed :
    (k : KRef) (r : ℕ) (s : Store) → (freed_if_unreachable k r s).by_kref ≡ s.by_kref
unfolding add_maybe_free
by_kref-freed k zero s = refl
by_kref-freed k (suc r) s = refl

-- Nor are the owners.
pub owner-IsAudited :
    {hand : List KRef} (s : Store) (o : Dict KRef Owner) (l : List KRef)
    → IsAudited hand s
    → IsAudited hand (record s { owner = o; maybe_free = l })
unfolding expected_reachable expected_recognizable
owner-IsAudited s o l a = record {
  balanced = elim [ ko n ↦ a.balanced (ko n) | kp n ↦ a.balanced (kp n) ];
  clist_rows = a.clist_rows;
  pin_rows = a.pin_rows;
  promise_rows = a.promise_rows;
  queue_rows = a.queue_rows;
  kinds = a.kinds;
  retired = a.retired;
}

-- Nor are the counters of erefs.
pub counters-IsAudited :
    {hand : List KRef} (s : Store) (m w : Dict EndpointId ℕ)
    → IsAudited hand s
    → IsAudited hand (record s { next_object_eref = m; next_promise_eref = w })
unfolding expected_reachable expected_recognizable
counters-IsAudited s m w a = record {
  balanced = elim [ ko n ↦ a.balanced (ko n) | kp n ↦ a.balanced (kp n) ];
  clist_rows = a.clist_rows;
  pin_rows = a.pin_rows;
  promise_rows = a.promise_rows;
  queue_rows = a.queue_rows;
  kinds = a.kinds;
  retired = a.retired;
}
