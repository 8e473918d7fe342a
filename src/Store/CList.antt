-- ===== src/Store/CList.antt =====
-- Capability lists (packages/ocap-kernel/src/store/methods/clist.ts).
use ocap_kernel.Prelude.{ℕ, ◌+◌, Bool, true, false, Option, none, some, List, pair_eq}
use ocap_kernel.Refs.{
  KRef, EndpointId, ERef, import_, plain, is_export, is_promise_ref, is_remote_id, kref_eq,
  endpoint_eq, eref_eq,
}
use ocap_kernel.Dict.{get, put, delete, has}
use ocap_kernel.Exec.{
  pure, done, gets, modify, required, require, missing_row, unmapped_kref, ◌>>=◌, ◌>>◌, map_each,
}
use ocap_kernel.Store.State.{Store, Entry, M}
use ocap_kernel.Store.RefCount.{increment_ref_count, decrement_ref_count}
use ocap_kernel.Store.Reachable.{write_entry, clear_reachable_flag}

-- `addCListEntry`
unfoldable pub add_clist_entry : EndpointId → KRef → ERef → M (Unit {0})
unfolding write_entry increment_ref_count
add_clist_entry e k eref = do
  modify (write_entry e k (is_export eref) eref)
  modify (λ s. record s { by_eref = put (e, eref) k s.by_eref })
  increment_ref_count k (record { is_export = is_export eref; only_recognizable = true })

-- `hasCListEntry` for a kref and for an eref
unfoldable pub has_clist_entry : EndpointId → KRef → Store → Bool
has_clist_entry e k s = has (e, k) s.by_kref

unfoldable pub has_clist_entry_for_eref : EndpointId → ERef → Store → Bool
has_clist_entry_for_eref e eref s = has (e, eref) s.by_eref

-- The two deletions that end `deleteCListEntry`
unfoldable pub delete_pair : EndpointId → KRef → ERef → Store → Store
delete_pair e k eref s = record s {
  by_kref = delete (e, k) s.by_kref;
  by_eref = delete (e, eref) s.by_eref;
}

-- `deleteCListEntry`
unfoldable pub delete_clist_entry : EndpointId → KRef → ERef → M (Unit {0})
unfolding has_clist_entry
delete_clist_entry e k eref = do
  require (← gets (has_clist_entry e k)) missing_row
  clear_reachable_flag e k
  _ ← decrement_ref_count k (record { is_export = is_export eref; only_recognizable = true })
  modify (delete_pair e k eref)

-- The counter `e.nextPromiseId.${endpointId}` or `e.nextObjectId.${endpointId}`. An endpoint has both
-- from `initEndpoint` on; without the row the code would make an eref out of `undefined`, which is
-- an error here.
unfoldable pub next_eref_index : EndpointId → Bool → M ℕ
next_eref_index e true = do
  n ← λ s. required (get e s.next_promise_eref) missing_row s
  modify (λ s. record s { next_promise_eref = put e (n + 1) s.next_promise_eref })
  pure n
next_eref_index e false = do
  n ← λ s. required (get e s.next_object_eref) missing_row s
  modify (λ s. record s { next_object_eref = put e (n + 1) s.next_object_eref })
  pure n

-- `${refTag}${refType}-${id}`
abbrev pub imported_eref : EndpointId → KRef → ℕ → ERef
imported_eref e k n = record {
  in_remote = is_remote_id e;
  is_promise = is_promise_ref k;
  direction = import_;
  index = plain n;
}

-- `allocateErefForKref`
unfoldable pub allocate_eref_for_kref : EndpointId → KRef → M ERef
allocate_eref_for_kref e k = do
  n ← next_eref_index e (is_promise_ref k)
  add_clist_entry e k (imported_eref e k n)
  pure (imported_eref e k n)

-- `erefToKref`
unfoldable pub eref_to_kref : EndpointId → ERef → Store → Option KRef
eref_to_kref e eref s = get (e, eref) s.by_eref

abbrev pub slot_of : Option Entry → Option ERef
slot_of none = none
slot_of (some x) = some x.vat_slot

-- `krefToEref`
unfoldable pub kref_to_eref : EndpointId → KRef → Store → Option ERef
kref_to_eref e k s = slot_of (get (e, k) s.by_kref)

-- `krefsToErefs`
unfoldable pub krefs_to_erefs : EndpointId → List KRef → M (List ERef)
unfolding kref_to_eref map_each
krefs_to_erefs e ks = map_each ks (λ k s. required (kref_to_eref e k s) unmapped_kref s)

-- `forgetEref`
unfoldable pub forget_eref : EndpointId → ERef → M (Unit {0})
unfolding eref_to_kref
forget_eref e eref s = elim (eref_to_kref e eref s) [
  | none ↦ done s
  | some k ↦ delete_clist_entry e k eref s
]

-- `forgetKref`
unfoldable pub forget_kref : EndpointId → KRef → M (Unit {0})
unfolding kref_to_eref
forget_kref e k s = elim (kref_to_eref e k s) [
  | none ↦ done s
  | some eref ↦ delete_clist_entry e k eref s
]
