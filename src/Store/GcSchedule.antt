-- ===== src/Store/GcSchedule.antt =====
-- The choice of the next garbage collection work
-- (packages/ocap-kernel/src/garbage-collection/garbage-collection.ts).
use ocap_kernel.Store.State.{
  retire_import, retire_export, drop_export, gc_work, set_add, Entry, GcActionType, Store, GcAction,
  RunQueueItem,
}
use ocap_kernel.Prelude.{
  pair_eq, ◌==◌, Bool, false, not, ◌&&◌, Option, none, some, List, [], ◌∷◌, ◌++◌, if◌then◌else◌,
  nat_beq,
}
use ocap_kernel.Refs.{endpoint_eq, kref_eq, EndpointId, KRef}
use ocap_kernel.Dict.{get}
use ocap_kernel.Store.RefCount.{kernel_ref_exists}
use ocap_kernel.Store.Object.{counts_or_zero}
use ocap_kernel.Store.CList.{has_clist_entry}
use ocap_kernel.Store.Gc.{set_gc_actions, action_type_beq, action_eq}
use ocap_kernel.Text.Decimal.{endpoint_text, kref_text}
use ocap_kernel.Text.Order.{sort}

-- `getReachableFlag` where there is an entry
abbrev pub flag_of : Option Entry → Bool
flag_of none = false
flag_of (some x) = x.is_reachable

-- `shouldProcessAction`. The counts are those of an object that exists; `getObjectRefCount` throws on
-- counts that are out of order, which an audited store does not have, and this reads them.
unfoldable pub should_process_action : Store → GcAction → Bool
unfolding kernel_ref_exists has_clist_entry
should_process_action s a =
    let has_clist = has_clist_entry a.endpoint_id a.kref s in
    let is_reachable = flag_of (get (a.endpoint_id, a.kref) s.by_kref) in
    let exists = kernel_ref_exists a.kref s in
    let c = counts_or_zero (get a.kref s.object_counts) in
    elim a.type [
      | drop_export ↦ exists && (nat_beq c.reachable 0 && (has_clist && is_reachable))
      | retire_export ↦ exists && (nat_beq c.reachable 0 && (nat_beq c.recognizable 0 && has_clist))
      | retire_import ↦ has_clist
    ]

-- The actions of one endpoint and type, in the order of the set
abbrev pub in_group : EndpointId → GcActionType → GcAction → Bool
in_group e t a = a.endpoint_id == e && action_type_beq a.type t

unfoldable pub filter : (GcAction → Bool) → List GcAction → List GcAction
filter p [] = []
filter p (a ∷ rest) = let kept = filter p rest in if p a then a ∷ kept else kept

unfoldable pub group : EndpointId → GcActionType → List GcAction → List GcAction
unfolding filter
group e t = filter (in_group e t)

-- `filterActionsForProcessing`: the krefs to process, sorted. The whole group leaves the set.
unfoldable pub krefs_of : List GcAction → List KRef
krefs_of [] = []
krefs_of (a ∷ rest) = a.kref ∷ krefs_of rest

unfoldable pub krefs_to_process : Store → EndpointId → GcActionType → List GcAction → List KRef
unfolding group krefs_of should_process_action
krefs_to_process s e t all =
    sort kref_text (krefs_of (filter (should_process_action s) (group e t all)))

unfoldable pub without_group : EndpointId → GcActionType → List GcAction → List GcAction
unfolding filter
without_group e t = filter (λ a. not (in_group e t a))

-- `actionTypePriorities`
abbrev pub action_type_priorities : List GcActionType
action_type_priorities = drop_export ∷ retire_export ∷ retire_import ∷ []

-- The endpoints that have actions, each once
unfoldable pub endpoints_of : List GcAction → List EndpointId
endpoints_of [] = []
endpoints_of (a ∷ rest) = set_add a.endpoint_id (endpoints_of rest)

-- The groups in the order in which they are tried
unfoldable pub pairs : EndpointId → List GcActionType → List (EndpointId × GcActionType)
pairs e [] = []
pairs e (t ∷ ts) = (e, t) ∷ pairs e ts

unfoldable pub schedule : List EndpointId → List (EndpointId × GcActionType)
unfolding pairs
schedule [] = []
schedule (e ∷ es) = pairs e action_type_priorities ++ schedule es

-- The loop: the first group with work to do is the next item, and every group tried leaves the set.
unfoldable pub try_groups :
    Store → List (EndpointId × GcActionType) → List GcAction → Option RunQueueItem × List GcAction
try_groups s [] all = (none, all)
try_groups s ((e, t) ∷ rest) all =
    let left = without_group e t all in
    let later = try_groups s rest left in
    elim (krefs_to_process s e t all) [ [] ↦ later | k ∷ ks ↦ (some (gc_work t e (k ∷ ks)), left) ]

-- `processGCActionSet`
unfoldable pub process_gc_action_set : Store → Option RunQueueItem × Store
unfolding set_gc_actions
process_gc_action_set s =
    let (item, left) =
      try_groups s (schedule (sort endpoint_text (endpoints_of s.gc_actions))) s.gc_actions in
    (item, set_gc_actions left s)
