-- ===== src/Store/Audit/Entries.antt =====
-- The reachable flag under the audit: `setReachableFlag` and `clearReachableFlag` carry the reachable
-- half of an import, and on an audited store neither throws.
use ocap_kernel.Prelude.{ℕ, ◌+◌, ◌≡◌, refl, true, false, none, some, arith, pair_eq, List}
use ocap_kernel.Refs.{
  KRef, ko, kp, EndpointId, is_promise_ref, kref_eq, endpoint_eq, kref_beq_iff, endpoint_beq_iff,
  kref_beq,
}
use ocap_kernel.Store.State.{GcAction, Store, Entry, Counts}
use ocap_kernel.Dict.{get, put, get-put, total-put, put-IsDict}
use ocap_kernel.Store.Audit.Weights.{
  reaches, recognizes, is_retiring, expected_reachable, expected_recognizable, IsBalanced,
}
use ocap_kernel.Store.Audit.Laws.{IsAudited}

module _ (gcs : List GcAction) (j : KRef) (e : EndpointId) (k : KRef) where
  -- An entry gives no credit to another kref.
  pub reaches_other : (x : Entry) → kref_beq k j ≡ false → reaches gcs j (e, k) x ≡ 0
  unfolding reaches
  reaches_other x h = ground arith

  pub recognizes_other : (x : Entry) → kref_beq k j ≡ false → recognizes gcs j (e, k) x ≡ 0
  unfolding recognizes
  recognizes_other x h = ground arith

module _ {hand : List KRef} (s : Store) (a : IsAudited hand s) (e : EndpointId) (n : ℕ)
    (x y : Entry) (h : get (e, ko n) s.by_kref ≡ some x) where
  -- Another entry for the same object, with the counts moved by what the two entries credit.
  pub replace_entry-IsBalanced :
      (c d : Counts)
      → get (ko n) s.object_counts ≡ some c
      → d.reachable + reaches s.gc_actions (ko n) (e, ko n) x
        ≡ c.reachable + reaches s.gc_actions (ko n) (e, ko n) y
      → d.recognizable + recognizes s.gc_actions (ko n) (e, ko n) x
        ≡ c.recognizable + recognizes s.gc_actions (ko n) (e, ko n) y
      → (j : KRef)
      → IsBalanced hand
          (record s {
            by_kref = put (e, ko n) y s.by_kref;
            object_counts = put (ko n) d s.object_counts;
          })
          j
  unfolding expected_reachable expected_recognizable
  replace_entry-IsBalanced c d hc p q (kp j) = ground (
    arith,
    h,
    a.balanced (kp j),
    total-put (reaches s.gc_actions (kp j)) (e, ko n) y s.by_kref a.clist_rows,
    reaches_other s.gc_actions (kp j) e (ko n) x refl,
    reaches_other s.gc_actions (kp j) e (ko n) y refl,
  )
  replace_entry-IsBalanced c d hc p q (ko j) = ground (
    arith,
    h,
    a.balanced (ko j),
    total-put (reaches s.gc_actions (ko j)) (e, ko n) y s.by_kref a.clist_rows,
    total-put (recognizes s.gc_actions (ko j)) (e, ko n) y s.by_kref a.clist_rows,
    get-put (ko n) (ko j) d s.object_counts,
    kref_beq_iff (ko n) (ko j),
    reaches_other s.gc_actions (ko j) e (ko n) x,
    reaches_other s.gc_actions (ko j) e (ko n) y,
    recognizes_other s.gc_actions (ko j) e (ko n) x,
    recognizes_other s.gc_actions (ko j) e (ko n) y,
  )

module _ {hand : List KRef} (s : Store) (a : IsAudited hand s) (e : EndpointId) (k : KRef)
    (x y : Entry) (h : get (e, k) s.by_kref ≡ some x) where
  -- Another entry that credits the same.
  pub rewrite_entry-IsBalanced :
      reaches s.gc_actions k (e, k) x ≡ reaches s.gc_actions k (e, k) y
      → recognizes s.gc_actions k (e, k) x ≡ recognizes s.gc_actions k (e, k) y
      → (j : KRef) → IsBalanced hand (record s { by_kref = put (e, k) y s.by_kref }) j
  unfolding expected_reachable expected_recognizable
  rewrite_entry-IsBalanced p q (kp j) = ground (
    arith,
    h,
    a.balanced (kp j),
    total-put (reaches s.gc_actions (kp j)) (e, k) y s.by_kref a.clist_rows,
    kref_beq_iff k (kp j),
    reaches_other s.gc_actions (kp j) e k x,
    reaches_other s.gc_actions (kp j) e k y,
  )
  rewrite_entry-IsBalanced p q (ko j) = ground (
    arith,
    h,
    a.balanced (ko j),
    total-put (reaches s.gc_actions (ko j)) (e, k) y s.by_kref a.clist_rows,
    total-put (recognizes s.gc_actions (ko j)) (e, k) y s.by_kref a.clist_rows,
    kref_beq_iff k (ko j),
    reaches_other s.gc_actions (ko j) e k x,
    reaches_other s.gc_actions (ko j) e k y,
    recognizes_other s.gc_actions (ko j) e k x,
    recognizes_other s.gc_actions (ko j) e k y,
  )

module _ {hand : List KRef} (s : Store) (a : IsAudited hand s) (e : EndpointId) (k : KRef)
    (x y : Entry) (h : get (e, k) s.by_kref ≡ some x) (same : y.vat_slot ≡ x.vat_slot) where
  rewrite_entry-kinds :
      (e' : EndpointId) (k' : KRef) (z : Entry)
      → get (e', k') (put (e, k) y s.by_kref) ≡ some z
      → z.vat_slot.is_promise ≡ is_promise_ref k'
  rewrite_entry-kinds e' k' z q = ground (
    arith,
    get-put (e, k) (e', k') y s.by_kref,
    a.kinds e k x h,
    a.kinds e' k' z,
    endpoint_beq_iff e e',
    kref_beq_iff k k',
  )

  pub rewrite_entry-IsAudited :
      reaches s.gc_actions k (e, k) x ≡ reaches s.gc_actions k (e, k) y
      → recognizes s.gc_actions k (e, k) x ≡ recognizes s.gc_actions k (e, k) y
      → IsAudited hand (record s { by_kref = put (e, k) y s.by_kref })
  rewrite_entry-IsAudited p q = record {
    balanced = rewrite_entry-IsBalanced s a e k x y h p q;
    clist_rows = put-IsDict (e, k) y s.by_kref a.clist_rows;
    pin_rows = a.pin_rows;
    promise_rows = a.promise_rows;
    queue_rows = a.queue_rows;
    kinds = rewrite_entry-kinds;
    retired = a.retired;
  }

module _ {hand : List KRef} (s : Store) (a : IsAudited hand s) (n : ℕ) (c d : Counts)
    (hc : get (ko n) s.object_counts ≡ some c) where
  -- Writing the counts of an object that has a row makes no object exist.
  pub put_counts-retired :
      (e : EndpointId) (m : ℕ)
      → is_retiring s.gc_actions e (ko m) ≡ true
      → get (ko m) (put (ko n) d s.object_counts) ≡ none
  put_counts-retired e m r =
      ground (
        arith,
        a.retired e m r,
        get-put (ko n) (ko m) d s.object_counts,
        kref_beq_iff (ko n) (ko m),
      )

module _ {hand : List KRef} (s : Store) (a : IsAudited hand s) (e : EndpointId) (n : ℕ)
    (x y : Entry) (h : get (e, ko n) s.by_kref ≡ some x) (same : y.vat_slot ≡ x.vat_slot) where
  pub replace_entry-IsAudited :
      (c d : Counts)
      → get (ko n) s.object_counts ≡ some c
      → d.reachable + reaches s.gc_actions (ko n) (e, ko n) x
        ≡ c.reachable + reaches s.gc_actions (ko n) (e, ko n) y
      → d.recognizable + recognizes s.gc_actions (ko n) (e, ko n) x
        ≡ c.recognizable + recognizes s.gc_actions (ko n) (e, ko n) y
      → IsAudited hand (record s {
        by_kref = put (e, ko n) y s.by_kref;
        object_counts = put (ko n) d s.object_counts;
      })
  replace_entry-IsAudited c d hc p q = record {
    balanced = replace_entry-IsBalanced s a e n x y h c d hc p q;
    clist_rows = put-IsDict (e, ko n) y s.by_kref a.clist_rows;
    pin_rows = a.pin_rows;
    promise_rows = a.promise_rows;
    queue_rows = a.queue_rows;
    kinds = rewrite_entry-kinds s a e (ko n) x y h same;
    retired = put_counts-retired s a n c d hc;
  }
