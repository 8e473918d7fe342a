-- ===== src/Store/State.antt =====
-- The persistent rows of the kernel store and the parts of `StoreContext` that live in memory
-- (packages/ocap-kernel/src/store/types.ts, store/methods/base.ts). Each field but the last few is
-- one family of keys of the `kv` table, whose pattern stands above it.
use ocap_kernel.Prelude.{ℕ, Bool, false, Option, List, [], ◌∷◌, ◌++◌, Eq, ◌==◌, if◌then◌else◌, ◌||◌}
use Prim.Native.String.{String}
use ocap_kernel.Refs.{KRef, EndpointId, ERef, Owner, kref_eq}
use ocap_kernel.Dict.{Dict}
use ocap_kernel.Exec.{Exec}

-- The row `"reachable,recognizable"` of an object.
pub record Counts : Type 0 where
  pub reachable : ℕ
  pub recognizable : ℕ

-- The row `"R o+3"` or `"_ o+3"` of a c-list.
pub record Entry : Type 0 where
  pub is_reachable : Bool
  pub vat_slot : ERef

-- `CapData<KRef>`; the body is only passed on.
pub record CapData : Type 0 where
  pub body : String
  pub slots : List KRef

-- `KernelMessage`: a `null` and an absent `result` are both `none`.
pub record Message : Type 0 where
  pub methargs : CapData
  pub result : Option KRef

pub data PromiseState : Type 0 where
  unresolved fulfilled rejected : PromiseState

pub data GcActionType : Type 0 where
  drop_export retire_export retire_import : GcActionType

-- `"v1 dropExport ko5"`: the kref of an action is an object's.
pub record GcAction : Type 0 where
  pub endpoint_id : EndpointId
  pub type : GcActionType
  pub kref : KRef

-- `RunQueueItem`: `gc_work` is `dropExports`, `retireExports` or `retireImports`.
pub data RunQueueItem : Type 0 where
  send : KRef → Message → RunQueueItem
  notify : EndpointId → KRef → RunQueueItem
  gc_work : GcActionType → EndpointId → List KRef → RunQueueItem
  bring_out_your_dead : EndpointId → RunQueueItem
  restart_vat : EndpointId → RunQueueItem
  terminate_vat : EndpointId → Option CapData → RunQueueItem

-- `Subcluster`: its id and the vats in it, by name; its configuration is only passed on.
pub record Subcluster : Type 0 where
  pub id : ℕ
  pub vats : List (String × EndpointId)

pub record Store : Type 0 where
  -- `${kref}.owner`
  pub owner : Dict KRef Owner
  -- `${kref}.refCount` of an object
  pub object_counts : Dict KRef Counts
  -- `${kref}.refCount` of a promise
  pub promise_counts : Dict KRef ℕ
  -- `${kref}.revoked`
  pub revoked : Dict KRef (Unit {0})
  -- `${endpointId}.c.${kref}`
  pub by_kref : Dict (EndpointId × KRef) Entry
  -- `${endpointId}.c.${eref}`
  pub by_eref : Dict (EndpointId × ERef) KRef
  -- `e.nextObjectId.${endpointId}`
  pub next_object_eref : Dict EndpointId ℕ
  -- `e.nextPromiseId.${endpointId}`
  pub next_promise_eref : Dict EndpointId ℕ
  -- `pinned.${kref}`
  pub pinned : Dict KRef ℕ
  -- `${kpid}.state`, `${kpid}.decider`, `${kpid}.subscribers`, `${kpid}.value`
  pub promise_state : Dict KRef PromiseState
  pub decider : Dict KRef Owner
  pub subscribers : Dict KRef (List EndpointId)
  pub value : Dict KRef CapData
  -- `queue.${kpid}.${n}` from tail to head; a row while the queue exists
  pub promise_queue : Dict KRef (List Message)
  -- `queue.run.${n}` from tail to head
  pub run_queue : List RunQueueItem
  -- `vatConfig.${vatId}` and `remote.${remoteId}`: which endpoints have one
  pub vat_ids : List EndpointId
  pub remote_ids : List EndpointId
  -- `nextObjectId`, `nextPromiseId`
  pub next_object_id : ℕ
  pub next_promise_id : ℕ
  -- `subclusters`
  pub subclusters : List Subcluster
  -- `nextSubclusterId` and `vatToSubclusterMap`
  pub next_subcluster_id : ℕ
  pub vat_to_subcluster : Dict EndpointId ℕ
  -- `gcActions`, `reapQueue`, `vats.terminated`
  pub gc_actions : List GcAction
  pub reap_queue : List EndpointId
  pub terminated_vats : List EndpointId
  -- `ctx.maybeFreeKrefs`: a `Set` in memory
  pub maybe_free : List KRef
  -- `ctx.crankBuffer`, in memory
  pub crank_buffer : List RunQueueItem

abbrev pub M : Type 0 → Type 0
M A = Exec Store A

module _ {A : Type 0} ⦃e : Eq A⦄ where
  -- `xs.includes(a)`, `set.has(a)`
  unfoldable pub includes : A → List A → Bool
  includes a [] = false
  includes a (x ∷ xs) = (x == a) || includes a xs

  -- `set.add(a)`: a `Set` iterates in the order of insertion.
  unfoldable pub set_add : A → List A → List A
  unfolding includes
  set_add a xs = if includes a xs then xs else xs ++ a ∷ []

abbrev pub empty_store : Store
empty_store = record {
  owner = [];
  object_counts = [];
  promise_counts = [];
  revoked = [];
  by_kref = [];
  by_eref = [];
  next_object_eref = [];
  next_promise_eref = [];
  pinned = [];
  promise_state = [];
  decider = [];
  subscribers = [];
  value = [];
  promise_queue = [];
  run_queue = [];
  vat_ids = [];
  remote_ids = [];
  next_object_id = 1;
  next_promise_id = 1;
  subclusters = [];
  next_subcluster_id = 1;
  vat_to_subcluster = [];
  gc_actions = [];
  reap_queue = [];
  terminated_vats = [];
  maybe_free = [];
  crank_buffer = [];
}

-- `ctx.maybeFreeKrefs.add(kref)`
unfoldable pub add_maybe_free : KRef → Store → Store
unfolding set_add
add_maybe_free k s = record s { maybe_free = set_add k s.maybe_free }
