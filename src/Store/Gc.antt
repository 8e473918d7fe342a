-- ===== src/Store/Gc.antt =====
-- Garbage collection in the store (packages/ocap-kernel/src/store/methods/gc.ts).
use ocap_kernel.Refs.{
  owner_eq, kref_eq, kref_beq_iff, endpoint_beq_iff, endpoint, endpoint_eq, kp, ko, kref_beq,
  EndpointId, KRef, endpoint_beq,
}
use ocap_kernel.Exec.{
  not_owner, err, not_object, map_each, pure, raise, modify, gets, ok, ◌>>=◌, ◌>>◌,
}
use ocap_kernel.Prelude.{
  arith, ◌==◌, ◌↔◌, Eq, ◌≡◌, ℕ, Bool, true, false, Option, none, some, List, [], ◌∷◌, ◌++◌,
  if◌then◌else◌, ◌&&◌,
}
use ocap_kernel.Store.State.{
  retire_export, bring_out_your_dead, drop_export, retire_import, GcActionType, RunQueueItem,
  add_maybe_free, Store, M, GcAction, set_add,
}
use ocap_kernel.Dict.{delete}
use ocap_kernel.Store.Object.{get_owner, delete_kernel_object}
use ocap_kernel.Store.Vat.{get_importers}
use ocap_kernel.Text.Decimal.{endpoint_text, kref_text, codes}
use ocap_kernel.Text.Order.{sort}

abbrev pub action_type_beq : GcActionType → GcActionType → Bool
action_type_beq drop_export drop_export = true
action_type_beq retire_export retire_export = true
action_type_beq retire_import retire_import = true
action_type_beq _ _ = false

abbrev pub action_beq : GcAction → GcAction → Bool
action_beq a b =
    endpoint_beq a.endpoint_id b.endpoint_id
    && (action_type_beq a.type b.type && kref_beq a.kref b.kref)

pub action_beq_iff : (a b : GcAction) → (action_beq a b ≡ true) ↔ (a ≡ b)
action_beq_iff a b =
    ground (arith, endpoint_beq_iff a.endpoint_id b.endpoint_id, kref_beq_iff a.kref b.kref)

instance abbrev pub action_eq : Eq GcAction
action_eq = record { beq = action_beq; beq_iff = action_beq_iff }

abbrev pub type_text : GcActionType → List ℕ
type_text drop_export = codes "dropExport"
type_text retire_export = codes "retireExport"
type_text retire_import = codes "retireImport"

-- The string of an action, as it is sorted.
unfoldable pub action_text : GcAction → List ℕ
action_text a = endpoint_text a.endpoint_id ++ (32 ∷ type_text a.type ++ (32 ∷ kref_text a.kref))

-- `makeGCAction`
unfoldable pub make_gc_action : EndpointId → GcActionType → KRef → M GcAction
make_gc_action e t (ko n) = pure (record { endpoint_id = e; type = t; kref = ko n })
make_gc_action e t (kp n) = raise not_object

-- `setGCActions`
unfoldable pub set_gc_actions : List GcAction → Store → Store
set_gc_actions actions s = record s { gc_actions = sort action_text actions }

-- `for (const action of newActions) actions.add(action)`
unfoldable pub union : List GcAction → List GcAction → List GcAction
union actions [] = actions
union actions (a ∷ rest) = union (set_add a actions) rest

-- `addGCActions`
unfoldable pub add_gc_actions : List GcAction → Store → Store
unfolding set_gc_actions union
add_gc_actions new s = set_gc_actions (union s.gc_actions new) s

-- `orphanKernelObject`
unfoldable pub orphan_kernel_object : KRef → EndpointId → M (Unit {0})
unfolding get_owner add_maybe_free
orphan_kernel_object k e s = elim (get_owner k s) [
  | none ↦ (ok tt, add_maybe_free k (record s { owner = delete k s.owner }))
  | some o ↦
      if o == endpoint e
      then (ok tt, add_maybe_free k (record s { owner = delete k s.owner }))
      else (err not_owner, s)
]

-- `scheduleReap`
unfoldable pub schedule_reap : EndpointId → Store → Store
schedule_reap e s = record s { reap_queue = set_add e s.reap_queue }

-- `nextReapAction`, by the reap queue
unfoldable pub take_reap : List EndpointId → Store → Option RunQueueItem × Store
take_reap [] s = (none, s)
take_reap (e ∷ es) s = (some (bring_out_your_dead e), record s { reap_queue = es })

unfoldable pub next_reap_action : Store → Option RunQueueItem × Store
unfolding take_reap
next_reap_action s = take_reap s.reap_queue s

-- The `retireImport` actions that `retireKernelObjects` makes for the importers of one object
unfoldable pub retire_import_actions : KRef → List EndpointId → M (List GcAction)
unfolding make_gc_action map_each
retire_import_actions k es = map_each es (λ e. make_gc_action e retire_import k)

-- `retireKernelObjects`
unfoldable pub retire_each : List KRef → M (List GcAction)
unfolding retire_import_actions
retire_each [] = pure []
retire_each (k ∷ ks) =
    let rest = retire_each ks in
    gets (get_importers k) >>= λ es. retire_import_actions k es >>= λ new.
    modify (delete_kernel_object k) >> (rest >>= λ more. pure (new ++ more))

unfoldable pub retire_kernel_objects : List KRef → M (Unit {0})
unfolding retire_each add_gc_actions
retire_kernel_objects ks = do new ← retire_each ks; modify (add_gc_actions new)
