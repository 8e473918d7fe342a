-- ===== src/Store/Vat.antt =====
-- Vats and exports (packages/ocap-kernel/src/store/methods/vat.ts).
use ocap_kernel.Exec.{not_export_ref, pure, modify, require, when, ◌>>=◌, ◌>>◌}
use ocap_kernel.Refs.{is_export, ERef, endpoint, endpoint_eq, kref_eq, EndpointId, KRef, is_import}
use ocap_kernel.Prelude.{
  pair_eq, ◌==◌, Bool, true, false, Option, none, some, List, [], ◌∷◌, ◌++◌, if◌then◌else◌, not,
  ◌&&◌,
}
use ocap_kernel.Dict.{get}
use ocap_kernel.Store.State.{Store, M, Entry, includes, set_add}
use ocap_kernel.Store.Object.{init_kernel_object}
use ocap_kernel.Store.Promise.{init_kernel_promise, set_promise_decider, add_promise_subscriber}
use ocap_kernel.Store.CList.{add_clist_entry}
use ocap_kernel.Text.Decimal.{endpoint_text}
use ocap_kernel.Text.Order.{sort}

abbrev pub entry_imports : Option Entry → Bool
entry_imports none = false
entry_imports (some x) = is_import x.vat_slot

-- `importsKernelSlot`
unfoldable pub imports_kernel_slot : KRef → Store → EndpointId → Bool
imports_kernel_slot k s e = entry_imports (get (e, k) s.by_kref)

-- `new Set([...xs])`, from the left
unfoldable pub to_set : List EndpointId → List EndpointId → List EndpointId
to_set [] seen = seen
to_set (e ∷ es) seen = to_set es (set_add e seen)

-- `xs.filter(p)`
unfoldable pub keep : (EndpointId → Bool) → List EndpointId → List EndpointId
keep p [] = []
keep p (e ∷ es) = let rest = keep p es in if p e then e ∷ rest else rest

-- `getImporters`
unfoldable pub get_importers : KRef → Store → List EndpointId
unfolding to_set keep imports_kernel_slot
get_importers k s =
    sort endpoint_text (
      keep (imports_kernel_slot k s) (to_set (s.vat_ids ++ (s.terminated_vats ++ s.remote_ids)) []))

-- `isVatActive`
unfoldable pub is_vat_active : EndpointId → Store → Bool
is_vat_active v s = includes v s.vat_ids

-- `isVatTerminated`
unfoldable pub is_vat_terminated : EndpointId → Store → Bool
is_vat_terminated v s = includes v s.terminated_vats

-- `markVatAsTerminated`
unfoldable pub mark_vat_as_terminated : EndpointId → Store → Store
mark_vat_as_terminated v s = record s { terminated_vats = set_add v s.terminated_vats }

-- `forgetTerminatedVat`
unfoldable pub forget_terminated_vat : EndpointId → Store → Store
unfolding keep
forget_terminated_vat v s = record s {
  terminated_vats = keep (λ e. not (e == v)) s.terminated_vats;
}

-- The object or promise that an exported eref gets
unfoldable pub new_kref : EndpointId → Bool → M KRef
new_kref e true = do k ← init_kernel_promise; modify (set_promise_decider k (endpoint e)); pure k
new_kref e false = init_kernel_object (endpoint e)

-- `exportFromEndpoint`
unfoldable pub export_from_endpoint : EndpointId → ERef → M KRef
unfolding new_kref
export_from_endpoint e eref = do
  require (is_export eref) not_export_ref
  k ← new_kref e eref.is_promise
  add_clist_entry e k eref
  when (eref.in_remote && eref.is_promise) (add_promise_subscriber e k)
  pure k
