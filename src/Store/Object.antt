-- ===== src/Store/Object.antt =====
-- Kernel objects (packages/ocap-kernel/src/store/methods/object.ts).
use ocap_kernel.Prelude.{◌+◌, Bool, false, Option, none, some, leb, if◌then◌else◌, ◌==◌}
use ocap_kernel.Refs.{KRef, ko, EndpointId, ERef, Owner, export_, plain, kref_eq}
use ocap_kernel.Dict.{get, put, delete}
use ocap_kernel.Exec.{pure, raise, modify, underflow, ref_mismatch, ◌>>=◌, ◌>>◌, ok, err}
use ocap_kernel.Refs.{endpoint_eq, eref_eq}
use ocap_kernel.Prelude.{pair_eq}
use ocap_kernel.Store.State.{Store, Counts, M}
use ocap_kernel.Store.Counts.{ℤ, pos}

-- `setObjectRefCount`
unfoldable pub set_object_ref_count : KRef → ℤ → ℤ → M (Unit {0})
set_object_ref_count k (pos r) (pos c) =
    if leb r c
    then modify (λ s. record s {
      object_counts = put k (record { reachable = r; recognizable = c }) s.object_counts;
    })
    else raise ref_mismatch
set_object_ref_count k _ _ = raise underflow

-- The row of an object, a missing one read as `(0, 0)`.
abbrev pub counts_or_zero : Option Counts → Counts
counts_or_zero none = record { reachable = 0; recognizable = 0 }
counts_or_zero (some c) = c

-- `getObjectRefCount`
unfoldable pub get_object_ref_count : KRef → M Counts
get_object_ref_count k s =
    let c = counts_or_zero (get k s.object_counts) in
    if leb c.reachable c.recognizable then (ok c, s) else (err ref_mismatch, s)

-- `getNextObjectId`
unfoldable pub get_next_object_id : M KRef
get_next_object_id s =
    (ok (ko s.next_object_id), record s { next_object_id = s.next_object_id + 1 })

-- `initKernelObject`
unfoldable pub init_kernel_object : Owner → M KRef
unfolding get_next_object_id set_object_ref_count
init_kernel_object o = do
  k ← get_next_object_id
  modify (λ s. record s { owner = put k o s.owner })
  set_object_ref_count k (pos 0) (pos 0)
  pure k

-- `getOwner`
unfoldable pub get_owner : KRef → Store → Option Owner
get_owner k s = get k s.owner

-- `ROOT_OBJECT_VREF`
abbrev pub root_object_vref : ERef
root_object_vref = record {
  in_remote = false;
  is_promise = false;
  direction = export_;
  index = plain 0;
}

-- `getRootObject`
unfoldable pub get_root_object : EndpointId → Store → Option KRef
get_root_object v s = get (v, root_object_vref) s.by_eref

-- `isRootObject`
unfoldable pub is_root_object : KRef → EndpointId → Store → Bool
unfolding get_root_object
is_root_object k v s = elim (get_root_object v s) [ none ↦ false | some j ↦ j == k ]

-- `deleteKernelObject`
unfoldable pub delete_kernel_object : KRef → Store → Store
delete_kernel_object k s = record s {
  owner = delete k s.owner;
  object_counts = delete k s.object_counts;
  revoked = delete k s.revoked;
}
