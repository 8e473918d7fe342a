-- ===== src/Store/Audit/Flags.antt =====
-- The reachable flag under the audit: `setReachableFlag` and `clearReachableFlag` carry the reachable
-- half of an import, and on an audited store neither throws.
use ocap_kernel.Prelude.{
  List, ◌-◌, ◌&&◌, ℕ, ◌≡◌, refl, Bool, true, false, Option, none, some, arith, pair_eq, inl, inr,
  Bool-cases,
}
use ocap_kernel.Store.Audit.Laws.{by_kref-freed, freed-IsAudited, IsAudited}
use ocap_kernel.Dict.{get-put_self, get}
use ocap_kernel.Store.State.{Store, Entry, Counts}
use ocap_kernel.Store.Audit.Entries.{replace_entry-IsAudited, rewrite_entry-IsAudited}
use ocap_kernel.Exec.{Result, ok}
use ocap_kernel.Refs.{is_import, KRef, ko, kp, EndpointId, kref_eq, endpoint_eq}
use ocap_kernel.Store.RefCount.{kernel_ref_exists}
use ocap_kernel.Store.Reachable.{set_reachable_flag, clear_reachable_flag}
use ocap_kernel.Store.Audit.Weights.{reaches, recognizes}
use ocap_kernel.Store.Audit.Imports.{
  flagged, import_credits, counts_ordered, not_retiring, import_exists, set_flag_again,
  set_flag_alone, clear_flag_alone, set_flag_counted, clear_flag_counted,
}

-- The call returns, leaves an audited store, and the entry is now `y`.
abbrev pub Flags : List KRef → EndpointId → KRef → Entry → Result (Unit {0}) × Store → Type 0
Flags hand e k y (r, s) = (r ≡ ok tt) × IsAudited hand s × (get (e, k) s.by_kref ≡ some y)

module _ {hand : List KRef} (s : Store) (a : IsAudited hand s) (e : EndpointId) (x : Entry) where
  set_promise_flag-Flags :
      (n : ℕ)
      → get (e, kp n) s.by_kref ≡ some x
      → x.is_reachable ≡ false
      → Flags hand e (kp n) (flagged true x) (set_reachable_flag e (kp n) s)
  unfolding kernel_ref_exists reaches recognizes
  set_promise_flag-Flags n h f =
      rw (set_flag_alone s e (kp n) x h f (ground (arith, a.kinds e (kp n) x h)) refl) (
        refl,
        rewrite_entry-IsAudited s a e (kp n) x (flagged true x) h refl (ground arith)
            (ground arith),
        get-put_self (e, kp n) _ s.by_kref,
      )

  set_object_flag-Flags :
      (n : ℕ)
      → get (e, ko n) s.by_kref ≡ some x
      → x.is_reachable ≡ false
      → (o : Option Counts) → get (ko n) s.object_counts ≡ o
      → (b : Bool) → is_import x.vat_slot ≡ b
      → Flags hand e (ko n) (flagged true x) (set_reachable_flag e (ko n) s)
  unfolding kernel_ref_exists reaches recognizes
  set_object_flag-Flags n h f none hc b i =
      rw (set_flag_alone s e (ko n) x h f (ground arith) refl) (
        refl,
        rewrite_entry-IsAudited s a e (ko n) x (flagged true x) h refl
            (ground (arith, import_exists s a e n x h hc)) (ground arith),
        get-put_self (e, ko n) _ s.by_kref,
      )
  set_object_flag-Flags n h f (some c) hc false i =
      rw (set_flag_alone s e (ko n) x h f (ground arith) refl) (
        refl,
        rewrite_entry-IsAudited s a e (ko n) x (flagged true x) h refl (ground arith)
            (ground arith),
        get-put_self (e, ko n) _ s.by_kref,
      )
  set_object_flag-Flags n h f (some c) hc true i =
      let l = counts_ordered s a e n x h c hc in
      let live = not_retiring s a e n x h c hc in
      let credits = import_credits s a e n x h c hc in
      rw (set_flag_counted s e n x h c hc l f (ground (arith, a.kinds e (ko n) x h)) (ground arith))
        (
          refl,
          replace_entry-IsAudited s a e n x (flagged true x) h refl c _ hc (ground arith)
              (ground arith),
          get-put_self (e, ko n) _ s.by_kref,
        )

  clear_promise_flag-Flags :
      (n : ℕ)
      → get (e, kp n) s.by_kref ≡ some x
      → Flags hand e (kp n) (flagged false x) (clear_reachable_flag e (kp n) s)
  unfolding kernel_ref_exists reaches recognizes
  clear_promise_flag-Flags n h =
      rw (clear_flag_alone s e (kp n) x h (ground (arith, a.kinds e (kp n) x h)) refl) (
        refl,
        rewrite_entry-IsAudited s a e (kp n) x (flagged false x) h refl (ground arith)
            (ground arith),
        get-put_self (e, kp n) _ s.by_kref,
      )

  clear_object_flag-Flags :
      (n : ℕ)
      → get (e, ko n) s.by_kref ≡ some x
      → (o : Option Counts) → get (ko n) s.object_counts ≡ o
      → (b : Bool) → (x.is_reachable && is_import x.vat_slot) ≡ b
      → Flags hand e (ko n) (flagged false x) (clear_reachable_flag e (ko n) s)
  unfolding kernel_ref_exists reaches recognizes
  clear_object_flag-Flags n h none hc b i =
      rw (clear_flag_alone s e (ko n) x h (ground arith) refl) (
        refl,
        rewrite_entry-IsAudited s a e (ko n) x (flagged false x) h refl
            (ground (arith, import_exists s a e n x h hc)) (ground arith),
        get-put_self (e, ko n) _ s.by_kref,
      )
  clear_object_flag-Flags n h (some c) hc false i =
      rw (clear_flag_alone s e (ko n) x h (ground arith) refl) (
        refl,
        rewrite_entry-IsAudited s a e (ko n) x (flagged false x) h refl (ground arith)
            (ground arith),
        get-put_self (e, ko n) _ s.by_kref,
      )
  clear_object_flag-Flags n h (some c) hc true i =
      let l = counts_ordered s a e n x h c hc in
      let live = not_retiring s a e n x h c hc in
      let credits = import_credits s a e n x h c hc in
      rw
        (clear_flag_counted s e n x h c hc l (ground (arith, a.kinds e (ko n) x h))
          (c.reachable - 1) (ground arith))
        (
          refl,
          freed-IsAudited (ko n) (c.reachable - 1) _ (
              replace_entry-IsAudited s a e n x (flagged false x) h refl c _ hc (ground arith)
                (ground arith)),
          rw (by_kref-freed (ko n) (c.reachable - 1)) (get-put_self (e, ko n) _ s.by_kref),
        )

set_flag_off :
    {hand : List KRef} (s : Store) (a : IsAudited hand s) (e : EndpointId) (x : Entry) (k : KRef)
    → get (e, k) s.by_kref ≡ some x
    → x.is_reachable ≡ false
    → Flags hand e k (flagged true x) (set_reachable_flag e k s)
set_flag_off s a e x (kp n) h f = set_promise_flag-Flags s a e x n h f
set_flag_off s a e x (ko n) h f =
    set_object_flag-Flags s a e x n h f (get (ko n) s.object_counts) refl (is_import x.vat_slot)
      refl

-- On an audited store, and for an entry that is in the c-list, `setReachableFlag` does not throw, sets
-- the flag of the entry and changes nothing else of it, and keeps every count equal to the references
-- held.
pub set_reachable_flag-Flags :
    {hand : List KRef} (s : Store) (e : EndpointId) (k : KRef) (x : Entry)
    → IsAudited hand s
    → get (e, k) s.by_kref ≡ some x
    → Flags hand e k (flagged true x) (set_reachable_flag e k s)
set_reachable_flag-Flags s e k x a h = elim (Bool-cases x.is_reachable) [
  | inl on ↦ rw (set_flag_again s e k x h on) (refl, a, ground (arith, h))
  | inr off ↦ set_flag_off s a e x k h off
]

-- On an audited store, and for an entry that is in the c-list, `clearReachableFlag` does not throw (no
-- count underflows), clears the flag of the entry and changes nothing else of it, and keeps every
-- count equal to the references held.
pub clear_reachable_flag-Flags :
    {hand : List KRef} (s : Store) (e : EndpointId) (k : KRef) (x : Entry)
    → IsAudited hand s
    → get (e, k) s.by_kref ≡ some x
    → Flags hand e k (flagged false x) (clear_reachable_flag e k s)
clear_reachable_flag-Flags s e (kp n) x a h = clear_promise_flag-Flags s a e x n h
clear_reachable_flag-Flags s e (ko n) x a h =
    clear_object_flag-Flags s a e x n h (get (ko n) s.object_counts) refl
      (x.is_reachable && is_import x.vat_slot) refl
