-- ===== src/Store/Audit/CList.antt =====
-- Adding, removing and allocating c-list entries under the audit.
use ocap_kernel.Prelude.{List}
use ocap_kernel.Exec.{resume, require, modify, ◌>>=◌, ok, Result}
use ocap_kernel.Store.CList.{has_clist_entry, delete_pair, add_clist_entry, delete_clist_entry}
use ocap_kernel.Store.Audit.Removal.{
  old_import-IsAudited, old_promise-IsAudited, old_entry-IsAudited, promise_credit,
}
use ocap_kernel.Store.Counts.{pos, is_zero}
use ocap_kernel.Prelude.{
  ◌-◌, if◌then◌else◌, ◌≤◌, zero, suc, Bool-cases, inr, inl, Option-cases, pair_eq, ◌||◌, ℕ, ◌+◌,
  ◌≡◌, refl, Bool, true, false, Option, none, some, arith,
}
use ocap_kernel.Store.Audit.Flags.{clear_reachable_flag-Flags}
use ocap_kernel.Store.Audit.Imports.{flagged, import_credits, not_retiring, import_exists}
use ocap_kernel.Store.Reachable.{clear_reachable_flag}
use ocap_kernel.Dict.{has, get-delete_self, get-put_self, get, put, delete}
use ocap_kernel.Store.State.{set_add, M, Store, Entry, Counts}
use ocap_kernel.Store.Audit.Laws.{maybe_free-IsAudited, IsAudited, expected_reachable-le}
use ocap_kernel.Store.RefCount.{decrement_ref_count, kernel_ref_exists}
use ocap_kernel.Store.Audit.Rows.{new_import-IsAudited, new_promise-IsAudited, new_entry-IsAudited}
use ocap_kernel.Refs.{
  endpoint_eq, eref_eq, is_import, is_export, is_promise_ref, ko, kp, kref_eq, ERef, EndpointId,
  KRef,
}
use ocap_kernel.Store.Audit.Weights.{reaches, recognizes}

-- The entry that `addCListEntry` writes.
abbrev pub born : ERef → Entry
born eref = record { is_reachable = is_export eref; vat_slot = eref }

-- The call returns, leaves an audited store, and both halves of the entry are there.
abbrev pub Mapped : List KRef → EndpointId → KRef → ERef → Result (Unit {0}) × Store → Type 0
Mapped hand e k eref (r, s) =
    (r ≡ ok tt)
    × IsAudited hand s
    × (get (e, k) s.by_kref ≡ some (born eref))
    × (get (e, eref) s.by_eref ≡ some k)

-- An object's export needs no row of counts.
abbrev pub needs_row : KRef → ERef → Bool
needs_row k eref = is_promise_ref k || is_import eref

module _ {hand : List KRef} (s : Store) (a : IsAudited hand s) (e : EndpointId) (eref : ERef) where
  add_export-Mapped :
      (n : ℕ)
      → get (e, ko n) s.by_kref ≡ none
      → eref.is_promise ≡ false
      → is_import eref ≡ false
      → Mapped hand e (ko n) eref (add_clist_entry e (ko n) eref s)
  unfolding add_clist_entry reaches recognizes
  add_export-Mapped n h p i = ground (
    arith,
    new_entry-IsAudited s a e (ko n) (born eref) h (put (e, eref) (ko n) s.by_eref),
    get-put_self (e, ko n) (born eref) s.by_kref,
    get-put_self (e, eref) (ko n) s.by_eref,
  )

  add_import-Mapped :
      (n : ℕ)
      → get (e, ko n) s.by_kref ≡ none
      → eref.is_promise ≡ false
      → is_import eref ≡ true
      → (c : Counts) → get (ko n) s.object_counts ≡ some c
      → Mapped hand e (ko n) eref (add_clist_entry e (ko n) eref s)
  unfolding add_clist_entry reaches recognizes
  add_import-Mapped n h p i c hc = ground (
    arith,
    a.balanced (ko n),
    expected_reachable-le s n,
    a.retired e n,
    new_import-IsAudited s a e n (born eref) h (put (e, eref) (ko n) s.by_eref) c
        (record { reachable = c.reachable; recognizable = c.recognizable + 1 }) hc,
    get-put_self (e, ko n) (born eref) s.by_kref,
    get-put_self (e, eref) (ko n) s.by_eref,
  )

  add_promise-Mapped :
      (n : ℕ)
      → get (e, kp n) s.by_kref ≡ none
      → eref.is_promise ≡ true
      → (c : ℕ) → get (kp n) s.promise_counts ≡ some c
      → Mapped hand e (kp n) eref (add_clist_entry e (kp n) eref s)
  unfolding add_clist_entry
  add_promise-Mapped n h p c hc = ground (
    arith,
    new_promise-IsAudited s a e n (born eref) h (put (e, eref) (kp n) s.by_eref) c hc p,
    get-put_self (e, kp n) (born eref) s.by_kref,
    get-put_self (e, eref) (kp n) s.by_eref,
  )

-- A new c-list entry takes the counts that it is owed: on an audited store `addCListEntry`, for a kref that has a row of
-- counts (an object's export needs none) and is not in the c-list yet, under an eref of the same
-- kind, writes both halves of the entry, born reachable if it is an export, does not throw, and
-- keeps every count equal to the references held.
pub add_clist_entry-Mapped :
    {hand : List KRef} (s : Store) (e : EndpointId) (k : KRef) (eref : ERef)
    → IsAudited hand s
    → get (e, k) s.by_kref ≡ none
    → eref.is_promise ≡ is_promise_ref k
    → (needs_row k eref ≡ true → kernel_ref_exists k s ≡ true)
    → Mapped hand e k eref (add_clist_entry e k eref s)
unfolding kernel_ref_exists
add_clist_entry-Mapped s e (kp n) eref a h p x = elim (Option-cases (get (kp n) s.promise_counts)) [
  | inl q ↦ absurd (ground (arith, x refl))
  | inr (c, q) ↦ add_promise-Mapped s a e eref n h p c q
]
add_clist_entry-Mapped s e (ko n) eref a h p x = elim (Bool-cases (is_import eref)) [
  | inl i ↦ elim (Option-cases (get (ko n) s.object_counts)) [
    | inl q ↦ absurd (ground (arith, x i))
    | inr (c, q) ↦ add_import-Mapped s a e eref n h p i c q
  ]
  | inr i ↦ add_export-Mapped s a e eref n h p i
]

-- The call returns, leaves an audited store, and neither half of the entry is there any more.
abbrev pub Unmapped : List KRef → EndpointId → KRef → ERef → Result (Unit {0}) × Store → Type 0
Unmapped hand e k eref (r, s) =
    (r ≡ ok tt)
    × IsAudited hand s
    × (get (e, k) s.by_kref ≡ none)
    × (get (e, eref) s.by_eref ≡ none)

-- What `deleteCListEntry` does once the flag is clear.
release : EndpointId → KRef → ERef → M (Unit {0})
release e k eref = do
  _ ← decrement_ref_count k (record { is_export = is_export eref; only_recognizable = true })
  modify (delete_pair e k eref)

release_import :
    (s : Store) (e : EndpointId) (n : ℕ) (eref : ERef) (c : Counts) (r : ℕ)
    → get (ko n) s.object_counts ≡ some c
    → is_import eref ≡ true
    → c.recognizable ≡ suc r
    → c.reachable ≤ r
    → release e (ko n) eref s ≡ (
      ok tt,
      record s {
        by_kref = delete (e, ko n) s.by_kref;
        by_eref = delete (e, eref) s.by_eref;
        object_counts =
            put (ko n) (record { reachable = c.reachable; recognizable = r }) s.object_counts;
        maybe_free =
            if is_zero (pos c.reachable) || is_zero (pos r)
            then set_add (ko n) s.maybe_free
            else s.maybe_free;
      },
    )
unfolding release decrement_ref_count delete_pair
release_import s e n eref c r hc i p l = ground arith

module _ {hand : List KRef} (s : Store) (a : IsAudited hand s) (e : EndpointId) (x : Entry)
    (off : x.is_reachable ≡ false) where
  release_promise-Unmapped :
      (n : ℕ)
      → get (e, kp n) s.by_kref ≡ some x
      → (r : ℕ) → get (kp n) s.promise_counts ≡ some (suc r)
      → Unmapped hand e (kp n) x.vat_slot (release e (kp n) x.vat_slot s)
  unfolding release decrement_ref_count delete_pair
  release_promise-Unmapped n h zero q =
      rw (q, decrement_ref_count)
        (
          refl,
          maybe_free-IsAudited _ (set_add (kp n) s.maybe_free)
              (old_promise-IsAudited s a e n x h _ 0 q),
          get-delete_self (e, kp n) s.by_kref,
          get-delete_self (e, x.vat_slot) s.by_eref,
        )
  release_promise-Unmapped n h (suc r) q =
      rw (q, decrement_ref_count)
        (
          refl,
          old_promise-IsAudited s a e n x h _ (suc r) q,
          get-delete_self (e, kp n) s.by_kref,
          get-delete_self (e, x.vat_slot) s.by_eref,
        )

  release_object-Unmapped :
      (n : ℕ)
      → get (e, ko n) s.by_kref ≡ some x
      → (o : Option Counts) → get (ko n) s.object_counts ≡ o
      → (b : Bool) → is_import x.vat_slot ≡ b
      → Unmapped hand e (ko n) x.vat_slot (release e (ko n) x.vat_slot s)
  unfolding release decrement_ref_count delete_pair reaches recognizes
  release_object-Unmapped n h none hc b i = ground (
    arith,
    old_entry-IsAudited s a e (ko n) x h (delete (e, x.vat_slot) s.by_eref),
    import_exists s a e n x h hc,
    get-delete_self (e, ko n) s.by_kref,
    get-delete_self (e, x.vat_slot) s.by_eref,
  )
  release_object-Unmapped n h (some c) hc false i = ground (
    arith,
    old_entry-IsAudited s a e (ko n) x h (delete (e, x.vat_slot) s.by_eref),
    get-delete_self (e, ko n) s.by_kref,
    get-delete_self (e, x.vat_slot) s.by_eref,
  )
  release_object-Unmapped n h (some c) hc true i =
      let live = not_retiring s a e n x h c hc in
      let credits = import_credits s a e n x h c hc in
      rw (release_import s e n x.vat_slot c (c.recognizable - 1) hc i (ground arith) (ground arith))
        (
          refl,
          maybe_free-IsAudited _ _ (
              old_import-IsAudited s a e n x h (delete (e, x.vat_slot) s.by_eref) c _ hc
                (ground arith) (ground arith)),
          get-delete_self (e, ko n) s.by_kref,
          get-delete_self (e, x.vat_slot) s.by_eref,
        )

  release-Unmapped :
      (k : KRef)
      → get (e, k) s.by_kref ≡ some x
      → Unmapped hand e k x.vat_slot (release e k x.vat_slot s)
  release-Unmapped (kp n) h =
      let (r, q) = promise_credit s a e n x h s.by_eref in release_promise-Unmapped n h r q
  release-Unmapped (ko n) h =
      release_object-Unmapped n h (get (ko n) s.object_counts) refl (is_import x.vat_slot) refl

delete_clist_entry-release :
    (s : Store) (e : EndpointId) (k : KRef) (eref : ERef)
    → has (e, k) s.by_kref ≡ true
    → (clear_reachable_flag e k s).0 ≡ ok tt
    → delete_clist_entry e k eref s ≡ release e k eref (clear_reachable_flag e k s).1
unfolding delete_clist_entry release has_clist_entry
delete_clist_entry-release s e k eref h c = rw (h, has_clist_entry, require) (rw (c, resume))

-- Removing a c-list entry gives back the counts that it was owed: on an audited store
-- `deleteCListEntry`, for an entry
-- that is there, removes both its halves, does not throw, and keeps every count equal to the
-- references held.
pub delete_clist_entry-Unmapped :
    {hand : List KRef} (s : Store) (e : EndpointId) (k : KRef) (x : Entry)
    → IsAudited hand s
    → get (e, k) s.by_kref ≡ some x
    → Unmapped hand e k x.vat_slot (delete_clist_entry e k x.vat_slot s)
delete_clist_entry-Unmapped s e k x a h =
    let (returns, audited, entry) = clear_reachable_flag-Flags s e k x a h in
    rw (delete_clist_entry-release s e k x.vat_slot (rw h) returns)
      (release-Unmapped (clear_reachable_flag e k s).1 audited e (flagged false x) refl k entry)
