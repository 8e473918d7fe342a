-- ===== src/Tests/Scheduling.antt =====
-- The choice of the next garbage collection work, at stores with one action.
use ocap_kernel.Prelude.{◌≡◌, refl, true, [], ◌∷◌}
use ocap_kernel.Refs.{ko, vat}
use ocap_kernel.Dict.{get}
use ocap_kernel.Store.State.{
  Store, GcAction, drop_export, retire_import, includes, empty_store, set_add,
}
use ocap_kernel.Store.Object.{root_object_vref}
use ocap_kernel.Store.Gc.{action_eq}
use ocap_kernel.Store.Scheduling.{Kept, process_gc_action_set-Kept, process_gc_action_set-due}
use ocap_kernel.Store.GcSchedule.{
  process_gc_action_set, should_process_action, try_groups, schedule, endpoints_of,
  krefs_to_process,
}
use ocap_kernel.Text.Order.{sort}
use ocap_kernel.Text.Decimal.{endpoint_text}

abbrev dropping : GcAction
dropping = record { endpoint_id = vat 1; type = drop_export; kref = ko 1 }

abbrev retiring : GcAction
retiring = record { endpoint_id = vat 2; type = retire_import; kref = ko 7 }

-- `v1` exports `ko1`, which nothing reaches; `v2` has no entry for `ko7`.
abbrev two_actions : Store
two_actions = record empty_store {
  by_kref = ((vat 1, ko 1), record { is_reachable = true; vat_slot = root_object_vref }) ∷ [];
  object_counts = (ko 1, record { reachable = 0; recognizable = 0 }) ∷ [];
  gc_actions = dropping ∷ retiring ∷ [];
}

process_gc_action_set-Kept_example :
    Kept dropping
      ((process_gc_action_set two_actions).0, (process_gc_action_set two_actions).1.gc_actions)
unfolding includes should_process_action get
process_gc_action_set-Kept_example = process_gc_action_set-Kept two_actions dropping refl refl

process_gc_action_set-due_example :
    (a : GcAction) × (a.endpoint_id ≡ vat 1)
    × (a.type ≡ drop_export)
    × (a.kref ≡ ko 1)
    × (includes a two_actions.gc_actions ≡ true)
    × (should_process_action two_actions a ≡ true)
unfolding includes process_gc_action_set try_groups schedule sort endpoints_of set_add endpoint_text
    krefs_to_process get
process_gc_action_set-due_example =
    process_gc_action_set-due two_actions drop_export (vat 1) (ko 1 ∷ []) (ko 1) refl refl

abbrev idle_actions : Store
idle_actions = record two_actions { gc_actions = retiring ∷ [] }
