-- ===== src/Store/Audit/Imports.antt =====
-- What an import entry says of the counts of its object, and what the flag calls write.
use ocap_kernel.Prelude.{
  List, ◌&&◌, not, ℕ, suc, ◌+◌, ◌≤◌, ◌≡◌, refl, Bool, true, false, none, some, arith, pair_eq,
}
use ocap_kernel.Store.Audit.Laws.{
  freed_if_unreachable, total-reaches-le, IsAudited, expected_reachable-le,
}
use ocap_kernel.Dict.{delete, total-delete, get, put}
use ocap_kernel.Store.State.{Store, Entry, Counts}
use ocap_kernel.Exec.{ok}
use ocap_kernel.Refs.{is_import, KRef, ko, EndpointId, kref_eq, endpoint_eq}
use ocap_kernel.Store.RefCount.{kernel_ref_exists}
use ocap_kernel.Store.Reachable.{set_reachable_flag, clear_reachable_flag}
use ocap_kernel.Store.Audit.Weights.{
  reaches, recognizes, is_retiring, expected_reachable, expected_recognizable,
}

-- The entry with its flag written.
abbrev pub flagged : Bool → Entry → Entry
flagged f x = record { is_reachable = f; vat_slot = x.vat_slot }

module _ {hand : List KRef} (s : Store) (a : IsAudited hand s) (e : EndpointId) (n : ℕ) (x : Entry)
    (h : get (e, ko n) s.by_kref ≡ some x) where
  -- What an import entry says of the counts of its object.
  pub import_credits :
      (c : Counts)
      → get (ko n) s.object_counts ≡ some c
      → (reaches s.gc_actions (ko n) (e, ko n) x ≤ c.reachable)
        × (recognizes s.gc_actions (ko n) (e, ko n) x ≤ c.recognizable)
        × (c.reachable + recognizes s.gc_actions (ko n) (e, ko n) x
            ≤ c.recognizable + reaches s.gc_actions (ko n) (e, ko n) x)
  unfolding expected_reachable expected_recognizable
  import_credits c hc = ground (
    arith,
    h,
    a.balanced (ko n),
    expected_reachable-le s n,
    total-delete (reaches s.gc_actions (ko n)) (e, ko n) s.by_kref a.clist_rows,
    total-delete (recognizes s.gc_actions (ko n)) (e, ko n) s.by_kref a.clist_rows,
    total-reaches-le s.gc_actions (ko n) (delete (e, ko n) s.by_kref) refl,
  )

  pub counts_ordered :
      (c : Counts) → get (ko n) s.object_counts ≡ some c → c.reachable ≤ c.recognizable
  counts_ordered c hc = ground (arith, a.balanced (ko n), expected_reachable-le s n)

  pub not_retiring :
      (c : Counts) → get (ko n) s.object_counts ≡ some c → is_retiring s.gc_actions e (ko n) ≡ false
  not_retiring c hc = ground (arith, a.retired e n)

  -- An import that is not being retired names an object that exists.
  pub import_exists :
      get (ko n) s.object_counts ≡ none → recognizes s.gc_actions (ko n) (e, ko n) x ≡ 0
  unfolding expected_reachable expected_recognizable
  import_exists hc = ground (
    arith,
    h,
    a.balanced (ko n),
    total-delete (recognizes s.gc_actions (ko n)) (e, ko n) s.by_kref a.clist_rows,
  )

-- The entry with its flag written.
abbrev pub with_entry : EndpointId → KRef → Entry → Store → Store
with_entry e k y s = record s { by_kref = put (e, k) y s.by_kref }

-- The same, and new counts.
abbrev pub with_counts : EndpointId → KRef → Entry → Counts → Store → Store
with_counts e k y d s = record s {
  by_kref = put (e, k) y s.by_kref;
  object_counts = put k d s.object_counts;
}

-- Whether a change of this entry's flag moves the count of its object.
abbrev pub moves : Entry → KRef → Store → Bool
moves x k s = not x.vat_slot.is_promise && (is_import x.vat_slot && kernel_ref_exists k s)

module _ (s : Store) (e : EndpointId) (k : KRef) (x : Entry)
    (h : get (e, k) s.by_kref ≡ some x) where
  pub set_flag_again : x.is_reachable ≡ true → set_reachable_flag e k s ≡ (ok tt, s)
  unfolding set_reachable_flag
  set_flag_again f = rw (h, set_reachable_flag) (ground arith)

  pub set_flag_alone :
      x.is_reachable ≡ false
      → moves x k s ≡ false
      → kernel_ref_exists k (with_entry e k (flagged true x) s) ≡ kernel_ref_exists k s
      → set_reachable_flag e k s ≡ (ok tt, with_entry e k (flagged true x) s)
  unfolding set_reachable_flag
  set_flag_alone f m same = rw (h, set_reachable_flag) (ground arith)

  pub clear_flag_alone :
      (x.is_reachable && moves x k s) ≡ false
      → kernel_ref_exists k (with_entry e k (flagged false x) s) ≡ kernel_ref_exists k s
      → clear_reachable_flag e k s ≡ (ok tt, with_entry e k (flagged false x) s)
  unfolding clear_reachable_flag
  clear_flag_alone m same = rw (h, clear_reachable_flag) (ground arith)

module _ (s : Store) (e : EndpointId) (n : ℕ) (x : Entry) (h : get (e, ko n) s.by_kref ≡ some x)
    (c : Counts) (hc : get (ko n) s.object_counts ≡ some c) (l : c.reachable ≤ c.recognizable) where
  pub set_flag_counted :
      x.is_reachable ≡ false
      → moves x (ko n) s ≡ true
      → c.reachable + 1 ≤ c.recognizable
      → set_reachable_flag e (ko n) s ≡ (
        ok tt,
        with_counts e
            (ko n)
            (flagged true x)
            (record { reachable = c.reachable + 1; recognizable = c.recognizable })
            s,
      )
  unfolding set_reachable_flag
  set_flag_counted f m l' = rw (h, set_reachable_flag) (ground arith)

  pub clear_flag_counted :
      (x.is_reachable && moves x (ko n) s) ≡ true
      → (r : ℕ) → c.reachable ≡ suc r
      → clear_reachable_flag e (ko n) s ≡ (
        ok tt,
        freed_if_unreachable (ko n) r (
            with_counts e
              (ko n)
              (flagged false x)
              (record { reachable = r; recognizable = c.recognizable })
              s),
      )
  unfolding clear_reachable_flag
  clear_flag_counted m r q = rw (h, clear_reachable_flag) (ground arith)
