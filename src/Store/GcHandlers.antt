-- ===== src/Store/GcHandlers.antt =====
-- The work of the garbage collection syscalls
-- (packages/ocap-kernel/src/garbage-collection/gc-handlers.ts).
use ocap_kernel.Exec.{
  not_exported, not_owner, still_reachable, promise_ref, gets, require, for_each, when, ◌>>=◌, ◌>>◌,
}
use ocap_kernel.Refs.{owner_eq, endpoint, Owner, is_export, is_promise_ref, ERef, EndpointId, KRef}
use ocap_kernel.Prelude.{◌==◌, Bool, true, false, not, Option, none, some, List}
use ocap_kernel.Store.State.{M}
use ocap_kernel.Store.Object.{get_owner}
use ocap_kernel.Store.Reachable.{clear_reachable_flag, get_reachable_flag}
use ocap_kernel.Store.CList.{kref_to_eref, forget_kref}
use ocap_kernel.Store.Gc.{orphan_kernel_object}

-- `performDropImports`
unfoldable pub perform_drop_imports : List KRef → EndpointId → M (Unit {0})
perform_drop_imports ks e = for_each ks (clear_reachable_flag e)

-- `performRetireImports`, for one kref
unfoldable pub retire_import_of : EndpointId → KRef → M (Unit {0})
retire_import_of e k = do
  require (not (is_promise_ref k)) promise_ref
  flag ← get_reachable_flag e k
  require (not flag) still_reachable
  forget_kref e k

unfoldable pub perform_retire_imports : List KRef → EndpointId → M (Unit {0})
unfolding retire_import_of
perform_retire_imports ks e = for_each ks (retire_import_of e)

-- `owner === undefined || owner === endpointId`
abbrev pub may_disown : EndpointId → Option Owner → Bool
may_disown e none = true
may_disown e (some o) = o == endpoint e

-- `eref !== undefined && parseRef(eref).direction === 'export'`
abbrev pub exports : Option ERef → Bool
exports none = false
exports (some eref) = is_export eref

-- `performExportCleanup`, for one kref
unfoldable pub clean_up_export : Bool → EndpointId → KRef → M (Unit {0})
clean_up_export check_reachable e k = do
  require (not (is_promise_ref k)) promise_ref
  o ← gets (get_owner k)
  require (may_disown e o) not_owner
  eref ← gets (kref_to_eref e k)
  require (exports eref) not_exported
  when check_reachable (do flag ← get_reachable_flag e k; require (not flag) still_reachable)
  forget_kref e k
  orphan_kernel_object k e

unfoldable pub perform_export_cleanup : List KRef → Bool → EndpointId → M (Unit {0})
unfolding clean_up_export
perform_export_cleanup ks check_reachable e = for_each ks (clean_up_export check_reachable e)
