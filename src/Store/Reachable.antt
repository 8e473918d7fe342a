-- ===== src/Store/Reachable.antt =====
-- The reachable flag of a c-list entry (packages/ocap-kernel/src/store/methods/reachable.ts).
use ocap_kernel.Prelude.{◌+◌, Bool, true, false, not, ◌&&◌}
use ocap_kernel.Refs.{KRef, EndpointId, ERef, is_import}
use ocap_kernel.Dict.{get, put}
use ocap_kernel.Refs.{kref_eq, endpoint_eq, eref_eq}
use ocap_kernel.Prelude.{pair_eq}
use ocap_kernel.Exec.{pure, gets, modify, required, when, missing_row, ◌>>=◌, ◌>>◌}
use ocap_kernel.Store.State.{Store, Entry, M, add_maybe_free}
use ocap_kernel.Store.Counts.{pos, minus_one, is_zero}
use ocap_kernel.Store.Object.{set_object_ref_count, get_object_ref_count}
use ocap_kernel.Store.RefCount.{kernel_ref_exists}

-- `getReachableAndVatSlot`
unfoldable pub get_reachable_and_vat_slot : EndpointId → KRef → M Entry
get_reachable_and_vat_slot e k s = required (get (e, k) s.by_kref) missing_row s

-- `getReachableFlag`
unfoldable pub get_reachable_flag : EndpointId → KRef → M Bool
unfolding get_reachable_and_vat_slot
get_reachable_flag e k = do x ← get_reachable_and_vat_slot e k; pure x.is_reachable

-- `kv.set(getSlotKey(endpointId, kref), buildReachableAndVatSlot(flag, vatSlot))`
unfoldable pub write_entry : EndpointId → KRef → Bool → ERef → Store → Store
write_entry e k flag eref s = record s {
  by_kref = put (e, k) (record { is_reachable = flag; vat_slot = eref }) s.by_kref;
}

-- `setReachableFlag`
unfoldable pub set_reachable_flag : EndpointId → KRef → M (Unit {0})
unfolding get_reachable_and_vat_slot write_entry get_object_ref_count set_object_ref_count
    kernel_ref_exists
set_reachable_flag e k = do
  x ← get_reachable_and_vat_slot e k
  when (not x.is_reachable) (do
    modify (write_entry e k true x.vat_slot)
    exists ← gets (kernel_ref_exists k)
    when (not x.vat_slot.is_promise && (is_import x.vat_slot && exists)) (do
      c ← get_object_ref_count k
      set_object_ref_count k (pos (c.reachable + 1)) (pos c.recognizable)))

-- `clearReachableFlag`
unfoldable pub clear_reachable_flag : EndpointId → KRef → M (Unit {0})
unfolding get_reachable_and_vat_slot write_entry get_object_ref_count set_object_ref_count
    kernel_ref_exists add_maybe_free
clear_reachable_flag e k = do
  x ← get_reachable_and_vat_slot e k
  modify (write_entry e k false x.vat_slot)
  exists ← gets (kernel_ref_exists k)
  when (x.is_reachable && (not x.vat_slot.is_promise && (is_import x.vat_slot && exists))) (do
    c ← get_object_ref_count k
    let r = minus_one c.reachable
    set_object_ref_count k r (pos c.recognizable)
    when (is_zero r) (modify (add_maybe_free k)))
