-- ===== src/Store/Audit/Rows.antt =====
-- C-list entries that come and go: the counts move by what the entry credits.
use ocap_kernel.Prelude.{List, pair_eq, ℕ, ◌+◌, ◌≡◌, refl, true, false, none, some, arith}
use ocap_kernel.Refs.{
  endpoint_beq_iff, endpoint_eq, is_promise_ref, kref_beq_iff, kref_eq, ERef, KRef, ko, kp,
  EndpointId,
}
use ocap_kernel.Store.Audit.Entries.{put_counts-retired, reaches_other, recognizes_other}
use ocap_kernel.Dict.{Dict, get, put, get-put, total-put, put-IsDict}
use ocap_kernel.Store.State.{Store, Entry, Counts}
use ocap_kernel.Store.Audit.Weights.{
  reaches, recognizes, expected_reachable, expected_recognizable, IsBalanced,
}
use ocap_kernel.Store.Audit.Laws.{IsAudited}

module _ {hand : List KRef} (s : Store) (a : IsAudited hand s) (e : EndpointId) (k : KRef)
    (y : Entry) (h : get (e, k) s.by_kref ≡ none) (m : Dict (EndpointId × ERef) KRef) where
  new_entry-kinds :
      y.vat_slot.is_promise ≡ is_promise_ref k
      → (e' : EndpointId) (k' : KRef) (z : Entry) → get (e', k') (put (e, k) y s.by_kref) ≡ some z
      → z.vat_slot.is_promise ≡ is_promise_ref k'
  new_entry-kinds p e' k' z q = ground (
    arith,
    get-put (e, k) (e', k') y s.by_kref,
    a.kinds e' k' z,
    endpoint_beq_iff e e',
    kref_beq_iff k k',
  )

  -- An entry that credits nothing: an object's export.
  new_entry-IsBalanced :
      reaches s.gc_actions k (e, k) y ≡ 0
      → recognizes s.gc_actions k (e, k) y ≡ 0
      → (j : KRef) → IsBalanced hand (record s { by_kref = put (e, k) y s.by_kref; by_eref = m }) j
  unfolding expected_reachable expected_recognizable
  new_entry-IsBalanced p q (kp j) = ground (
    arith,
    h,
    a.balanced (kp j),
    total-put (reaches s.gc_actions (kp j)) (e, k) y s.by_kref a.clist_rows,
    kref_beq_iff k (kp j),
    reaches_other s.gc_actions (kp j) e k y,
  )
  new_entry-IsBalanced p q (ko j) = ground (
    arith,
    h,
    a.balanced (ko j),
    total-put (reaches s.gc_actions (ko j)) (e, k) y s.by_kref a.clist_rows,
    total-put (recognizes s.gc_actions (ko j)) (e, k) y s.by_kref a.clist_rows,
    kref_beq_iff k (ko j),
    reaches_other s.gc_actions (ko j) e k y,
    recognizes_other s.gc_actions (ko j) e k y,
  )

  pub new_entry-IsAudited :
      y.vat_slot.is_promise ≡ is_promise_ref k
      → reaches s.gc_actions k (e, k) y ≡ 0
      → recognizes s.gc_actions k (e, k) y ≡ 0
      → IsAudited hand (record s { by_kref = put (e, k) y s.by_kref; by_eref = m })
  new_entry-IsAudited kind p q = record {
    balanced = new_entry-IsBalanced p q;
    clist_rows = put-IsDict (e, k) y s.by_kref a.clist_rows;
    pin_rows = a.pin_rows;
    promise_rows = a.promise_rows;
    queue_rows = a.queue_rows;
    kinds = new_entry-kinds kind;
    retired = a.retired;
  }

module _ {hand : List KRef} (s : Store) (a : IsAudited hand s) (e : EndpointId) (n : ℕ) (y : Entry)
    (h : get (e, ko n) s.by_kref ≡ none) (m : Dict (EndpointId × ERef) KRef) (c d : Counts)
    (hc : get (ko n) s.object_counts ≡ some c) where
  abbrev new_counts : Store
  new_counts = record s {
    by_kref = put (e, ko n) y s.by_kref;
    by_eref = m;
    object_counts = put (ko n) d s.object_counts;
  }

  new_import-IsBalanced :
      d.reachable ≡ c.reachable + reaches s.gc_actions (ko n) (e, ko n) y
      → d.recognizable ≡ c.recognizable + recognizes s.gc_actions (ko n) (e, ko n) y
      → (j : KRef) → IsBalanced hand new_counts j
  unfolding expected_reachable expected_recognizable
  new_import-IsBalanced p q (kp j) = ground (
    arith,
    h,
    a.balanced (kp j),
    total-put (reaches s.gc_actions (kp j)) (e, ko n) y s.by_kref a.clist_rows,
    reaches_other s.gc_actions (kp j) e (ko n) y refl,
  )
  new_import-IsBalanced p q (ko j) = ground (
    arith,
    h,
    a.balanced (ko j),
    total-put (reaches s.gc_actions (ko j)) (e, ko n) y s.by_kref a.clist_rows,
    total-put (recognizes s.gc_actions (ko j)) (e, ko n) y s.by_kref a.clist_rows,
    get-put (ko n) (ko j) d s.object_counts,
    kref_beq_iff (ko n) (ko j),
    reaches_other s.gc_actions (ko j) e (ko n) y,
    recognizes_other s.gc_actions (ko j) e (ko n) y,
  )

  pub new_import-IsAudited :
      y.vat_slot.is_promise ≡ false
      → d.reachable ≡ c.reachable + reaches s.gc_actions (ko n) (e, ko n) y
      → d.recognizable ≡ c.recognizable + recognizes s.gc_actions (ko n) (e, ko n) y
      → IsAudited hand new_counts
  new_import-IsAudited kind p q = record {
    balanced = new_import-IsBalanced p q;
    clist_rows = put-IsDict (e, ko n) y s.by_kref a.clist_rows;
    pin_rows = a.pin_rows;
    promise_rows = a.promise_rows;
    queue_rows = a.queue_rows;
    kinds = new_entry-kinds s a e (ko n) y h m kind;
    retired = put_counts-retired s a n c d hc;
  }

module _ {hand : List KRef} (s : Store) (a : IsAudited hand s) (e : EndpointId) (n : ℕ) (y : Entry)
    (h : get (e, kp n) s.by_kref ≡ none) (m : Dict (EndpointId × ERef) KRef) (c : ℕ)
    (hc : get (kp n) s.promise_counts ≡ some c) where
  abbrev new_promise_counts : Store
  new_promise_counts = record s {
    by_kref = put (e, kp n) y s.by_kref;
    by_eref = m;
    promise_counts = put (kp n) (c + 1) s.promise_counts;
  }

  new_promise-IsBalanced : (j : KRef) → IsBalanced hand new_promise_counts j
  unfolding expected_reachable expected_recognizable reaches recognizes
  new_promise-IsBalanced (ko j) = ground (
    arith,
    h,
    a.balanced (ko j),
    total-put (reaches s.gc_actions (ko j)) (e, kp n) y s.by_kref a.clist_rows,
    total-put (recognizes s.gc_actions (ko j)) (e, kp n) y s.by_kref a.clist_rows,
  )
  new_promise-IsBalanced (kp j) = ground (
    arith,
    h,
    a.balanced (kp j),
    total-put (reaches s.gc_actions (kp j)) (e, kp n) y s.by_kref a.clist_rows,
    get-put (kp n) (kp j) (c + 1) s.promise_counts,
    kref_beq_iff (kp n) (kp j),
  )

  pub new_promise-IsAudited : y.vat_slot.is_promise ≡ true → IsAudited hand new_promise_counts
  new_promise-IsAudited kind = record {
    balanced = new_promise-IsBalanced;
    clist_rows = put-IsDict (e, kp n) y s.by_kref a.clist_rows;
    pin_rows = a.pin_rows;
    promise_rows = a.promise_rows;
    queue_rows = a.queue_rows;
    kinds = new_entry-kinds s a e (kp n) y h m kind;
    retired = a.retired;
  }
