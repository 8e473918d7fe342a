-- ===== src/Store/Audit/Removal.antt =====
-- Removing a c-list entry whose flag is clear: what it still credits is released.
use ocap_kernel.Prelude.{
  List, zero, ◌<◌, pair_eq, suc, ℕ, ◌+◌, ◌≡◌, refl, Option, none, some, arith,
}
use ocap_kernel.Store.Pinned.{or_zero}
use ocap_kernel.Store.Audit.Entries.{recognizes_other, put_counts-retired, reaches_other}
use ocap_kernel.Refs.{
  endpoint_eq, is_promise_ref, kref_beq_iff, kref_eq, ERef, KRef, ko, kp, EndpointId,
}
use ocap_kernel.Dict.{Dict, get, put, delete, get-put, get-delete, total-delete, delete-IsDict}
use ocap_kernel.Store.State.{Store, Entry, Counts}
use ocap_kernel.Store.Audit.Weights.{
  reaches, recognizes, expected_reachable, expected_recognizable, IsBalanced,
}
use ocap_kernel.Store.Audit.Laws.{IsAudited}

module _ {hand : List KRef} (s : Store) (a : IsAudited hand s) (e : EndpointId) (k : KRef)
    (x : Entry) (h : get (e, k) s.by_kref ≡ some x) (m : Dict (EndpointId × ERef) KRef) where
  old_entry-kinds :
      (e' : EndpointId) (k' : KRef) (z : Entry)
      → get (e', k') (delete (e, k) s.by_kref) ≡ some z
      → z.vat_slot.is_promise ≡ is_promise_ref k'
  old_entry-kinds e' k' z q = ground (arith, get-delete (e, k) (e', k') s.by_kref, a.kinds e' k' z)

  old_entry-IsBalanced :
      reaches s.gc_actions k (e, k) x ≡ 0
      → recognizes s.gc_actions k (e, k) x ≡ 0
      → (j : KRef) → IsBalanced hand (record s { by_kref = delete (e, k) s.by_kref; by_eref = m }) j
  unfolding expected_reachable expected_recognizable
  old_entry-IsBalanced p q (kp j) = ground (
    arith,
    h,
    a.balanced (kp j),
    total-delete (reaches s.gc_actions (kp j)) (e, k) s.by_kref a.clist_rows,
    kref_beq_iff k (kp j),
    reaches_other s.gc_actions (kp j) e k x,
  )
  old_entry-IsBalanced p q (ko j) = ground (
    arith,
    h,
    a.balanced (ko j),
    total-delete (reaches s.gc_actions (ko j)) (e, k) s.by_kref a.clist_rows,
    total-delete (recognizes s.gc_actions (ko j)) (e, k) s.by_kref a.clist_rows,
    kref_beq_iff k (ko j),
    reaches_other s.gc_actions (ko j) e k x,
    recognizes_other s.gc_actions (ko j) e k x,
  )

  pub old_entry-IsAudited :
      reaches s.gc_actions k (e, k) x ≡ 0
      → recognizes s.gc_actions k (e, k) x ≡ 0
      → IsAudited hand (record s { by_kref = delete (e, k) s.by_kref; by_eref = m })
  old_entry-IsAudited p q = record {
    balanced = old_entry-IsBalanced p q;
    clist_rows = delete-IsDict (e, k) s.by_kref a.clist_rows;
    pin_rows = a.pin_rows;
    promise_rows = a.promise_rows;
    queue_rows = a.queue_rows;
    kinds = old_entry-kinds;
    retired = a.retired;
  }

module _ {hand : List KRef} (s : Store) (a : IsAudited hand s) (e : EndpointId) (n : ℕ) (x : Entry)
    (h : get (e, ko n) s.by_kref ≡ some x) (m : Dict (EndpointId × ERef) KRef) (c d : Counts)
    (hc : get (ko n) s.object_counts ≡ some c) where
  abbrev released_counts : Store
  released_counts = record s {
    by_kref = delete (e, ko n) s.by_kref;
    by_eref = m;
    object_counts = put (ko n) d s.object_counts;
  }

  old_import-IsBalanced :
      c.reachable ≡ d.reachable + reaches s.gc_actions (ko n) (e, ko n) x
      → c.recognizable ≡ d.recognizable + recognizes s.gc_actions (ko n) (e, ko n) x
      → (j : KRef) → IsBalanced hand released_counts j
  unfolding expected_reachable expected_recognizable
  old_import-IsBalanced p q (kp j) = ground (
    arith,
    h,
    a.balanced (kp j),
    total-delete (reaches s.gc_actions (kp j)) (e, ko n) s.by_kref a.clist_rows,
    reaches_other s.gc_actions (kp j) e (ko n) x refl,
  )
  old_import-IsBalanced p q (ko j) = ground (
    arith,
    h,
    a.balanced (ko j),
    total-delete (reaches s.gc_actions (ko j)) (e, ko n) s.by_kref a.clist_rows,
    total-delete (recognizes s.gc_actions (ko j)) (e, ko n) s.by_kref a.clist_rows,
    get-put (ko n) (ko j) d s.object_counts,
    kref_beq_iff (ko n) (ko j),
    reaches_other s.gc_actions (ko j) e (ko n) x,
    recognizes_other s.gc_actions (ko j) e (ko n) x,
  )

  pub old_import-IsAudited :
      c.reachable ≡ d.reachable + reaches s.gc_actions (ko n) (e, ko n) x
      → c.recognizable ≡ d.recognizable + recognizes s.gc_actions (ko n) (e, ko n) x
      → IsAudited hand released_counts
  old_import-IsAudited p q = record {
    balanced = old_import-IsBalanced p q;
    clist_rows = delete-IsDict (e, ko n) s.by_kref a.clist_rows;
    pin_rows = a.pin_rows;
    promise_rows = a.promise_rows;
    queue_rows = a.queue_rows;
    kinds = old_entry-kinds s a e (ko n) x h m;
    retired = put_counts-retired s a n c d hc;
  }

module _ {hand : List KRef} (s : Store) (a : IsAudited hand s) (e : EndpointId) (n : ℕ) (x : Entry)
    (h : get (e, kp n) s.by_kref ≡ some x) (m : Dict (EndpointId × ERef) KRef) where
  -- The entry of a promise is one of the units of its count.
  pub promise_credit : (r : ℕ) × (get (kp n) s.promise_counts ≡ some (suc r))
  unfolding expected_reachable reaches
  promise_credit = go (get (kp n) s.promise_counts) refl
    where
      positive : 0 < or_zero (get (kp n) s.promise_counts)
      positive = ground (
        arith,
        h,
        a.balanced (kp n),
        total-delete (reaches s.gc_actions (kp n)) (e, kp n) s.by_kref a.clist_rows,
      )

      go : (o : Option ℕ) → get (kp n) s.promise_counts ≡ o → (r : ℕ) × (o ≡ some (suc r))
      go none q = absurd (let p = rw q at positive in omega arith)
      go (some zero) q = absurd (let p = rw q at positive in omega arith)
      go (some (suc r)) q = (r, refl)

  abbrev released_promise : ℕ → Store
  released_promise r = record s {
    by_kref = delete (e, kp n) s.by_kref;
    by_eref = m;
    promise_counts = put (kp n) r s.promise_counts;
  }

  old_promise-IsBalanced :
      (r : ℕ)
      → get (kp n) s.promise_counts ≡ some (suc r)
      → (j : KRef) → IsBalanced hand (released_promise r) j
  unfolding expected_reachable expected_recognizable reaches recognizes
  old_promise-IsBalanced r hc (ko j) = ground (
    arith,
    h,
    a.balanced (ko j),
    total-delete (reaches s.gc_actions (ko j)) (e, kp n) s.by_kref a.clist_rows,
    total-delete (recognizes s.gc_actions (ko j)) (e, kp n) s.by_kref a.clist_rows,
  )
  old_promise-IsBalanced r hc (kp j) = ground (
    arith,
    h,
    a.balanced (kp j),
    total-delete (reaches s.gc_actions (kp j)) (e, kp n) s.by_kref a.clist_rows,
    get-put (kp n) (kp j) r s.promise_counts,
    kref_beq_iff (kp n) (kp j),
  )

  pub old_promise-IsAudited :
      (r : ℕ) → get (kp n) s.promise_counts ≡ some (suc r) → IsAudited hand (released_promise r)
  old_promise-IsAudited r hc = record {
    balanced = old_promise-IsBalanced r hc;
    clist_rows = delete-IsDict (e, kp n) s.by_kref a.clist_rows;
    pin_rows = a.pin_rows;
    promise_rows = a.promise_rows;
    queue_rows = a.queue_rows;
    kinds = old_entry-kinds s a e (kp n) x h m;
    retired = a.retired;
  }
