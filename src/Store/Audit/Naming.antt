-- ===== src/Store/Audit/Naming.antt =====
-- Naming a kref to a vat: `translateRefKtoE` where it returns.
use ocap_kernel.Prelude.{List}
use ocap_kernel.Prelude.{pair_eq, ℕ, ◌≡◌, refl, Bool, true, false, none, some}
use ocap_kernel.Refs.{endpoint_eq, kref_eq, KRef, ko, kp, EndpointId, vat, ERef, is_promise_ref}
use ocap_kernel.Dict.{get}
use ocap_kernel.Exec.{Result, ok}
use ocap_kernel.Store.State.{Store, Entry}
use ocap_kernel.Store.RefCount.{kernel_ref_exists}
use ocap_kernel.Store.CList.{kref_to_eref, allocate_eref_for_kref, imported_eref, add_clist_entry}
use ocap_kernel.Store.Translate.{translate_ref_k_to_e, import_eref}
use ocap_kernel.Store.Audit.Laws.{IsAudited, counters-IsAudited}
use ocap_kernel.Store.Audit.CList.{add_clist_entry-Mapped, Mapped}
use ocap_kernel.Store.Audit.Flags.{set_reachable_flag-Flags}
use ocap_kernel.Store.Audit.Delivery.{next_row, counted, next_eref_index-row}

-- The call returns the eref, leaves an audited store, and the entry of the kref holds that eref and is
-- reachable.
abbrev pub Named : List KRef → EndpointId → KRef → ERef → Result ERef × Store → Type 0
Named hand e k eref (r, s) =
    (r ≡ ok eref)
    × IsAudited hand s
    × (get (e, k) s.by_kref ≡ some (record { is_reachable = true; vat_slot = eref }))

-- On an audited store, naming a kref that is in a vat's c-list returns its eref there, makes the
-- entry reachable, and keeps every count equal to the references held.
pub translate_ref_k_to_e-known :
    {hand : List KRef} (v : ℕ) (k : KRef) (b : Bool) (s : Store) (x : Entry)
    → IsAudited hand s
    → get (vat v, k) s.by_kref ≡ some x
    → Named hand (vat v) k x.vat_slot (translate_ref_k_to_e (vat v) k b s)
unfolding translate_ref_k_to_e import_eref kref_to_eref
translate_ref_k_to_e-known v k b s x a h =
    let (returns, audited, entry) = set_reachable_flag-Flags s (vat v) k x a h in
    rw (h, translate_ref_k_to_e) (rw (returns) (refl, audited, entry))

counted-Mapped :
    {hand : List KRef} (s : Store) (e : EndpointId) (k : KRef) (b : Bool) (n : ℕ)
    → IsAudited hand s
    → get (e, k) s.by_kref ≡ none
    → kernel_ref_exists k s ≡ true
    → Mapped hand e k
        (imported_eref e k n)
        (add_clist_entry e k (imported_eref e k n) (counted b e n s))
unfolding kernel_ref_exists counted
counted-Mapped s e (ko m) true n a h x =
    add_clist_entry-Mapped _ e (ko m) (imported_eref e (ko m) n)
      (counters-IsAudited s s.next_object_eref _ a) h refl (λ _. x)
counted-Mapped s e (ko m) false n a h x =
    add_clist_entry-Mapped _ e (ko m) (imported_eref e (ko m) n)
      (counters-IsAudited s _ s.next_promise_eref a) h refl (λ _. x)
counted-Mapped s e (kp m) true n a h x =
    add_clist_entry-Mapped _ e (kp m) (imported_eref e (kp m) n)
      (counters-IsAudited s s.next_object_eref _ a) h refl (λ _. x)
counted-Mapped s e (kp m) false n a h x =
    add_clist_entry-Mapped _ e (kp m) (imported_eref e (kp m) n)
      (counters-IsAudited s _ s.next_promise_eref a) h refl (λ _. x)

allocate-Mapped :
    {hand : List KRef} (s : Store) (e : EndpointId) (k : KRef) (n : ℕ)
    → IsAudited hand s
    → get (e, k) s.by_kref ≡ none
    → kernel_ref_exists k s ≡ true
    → next_row (is_promise_ref k) s e ≡ some n
    → (t : Store) × (allocate_eref_for_kref e k s ≡ (ok (imported_eref e k n), t))
      × Mapped hand e k (imported_eref e k n) (ok tt, t)
unfolding allocate_eref_for_kref
allocate-Mapped s e k n a h x q =
    let (returns, audited, entry, back) = counted-Mapped s e k (is_promise_ref k) n a h x in
    (
      (add_clist_entry e k (imported_eref e k n) (counted (is_promise_ref k) e n s)).1,
      rw (next_eref_index-row s e (is_promise_ref k) n q, allocate_eref_for_kref)
          (rw (returns) refl),
      (refl, audited, entry, back),
    )

-- On an audited store, naming a kref that exists and is not in a vat's c-list, where one may be made,
-- returns a new eref with the vat's next number, makes a reachable entry for it, and keeps every
-- count equal to the references held.
pub translate_ref_k_to_e-new :
    {hand : List KRef} (v : ℕ) (k : KRef) (s : Store) (n : ℕ)
    → IsAudited hand s
    → get (vat v, k) s.by_kref ≡ none
    → kernel_ref_exists k s ≡ true
    → next_row (is_promise_ref k) s (vat v) ≡ some n
    → Named hand (vat v) k (imported_eref (vat v) k n) (translate_ref_k_to_e (vat v) k true s)
unfolding translate_ref_k_to_e import_eref kref_to_eref
translate_ref_k_to_e-new v k s n a h x q =
    let (t, allocates, (same, audited, entry, back)) = allocate-Mapped s (vat v) k n a h x q in
    let (returns, audited', entry') = set_reachable_flag-Flags t (vat v) k _ audited entry in
    rw (h, translate_ref_k_to_e) (rw (x) (rw (allocates) (rw (returns) (refl, audited', entry'))))
