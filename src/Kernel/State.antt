-- ===== src/Kernel/State.antt =====
-- The state of `KernelQueue` (packages/ocap-kernel/src/KernelQueue.ts) that its work on the store goes
-- through. The callers of `subscriptions` are named by numbers, and the calls of their `resolve` and
-- `reject` are listed in the order in which they are made.
use ocap_kernel.Prelude.{none, List, Option, false, Bool, [], ℕ}
use ocap_kernel.Refs.{EndpointId, KRef}
use ocap_kernel.Store.State.{RunQueueItem, CapData, M, Store, empty_store}
use ocap_kernel.Dict.{Dict}
use ocap_kernel.Exec.{Exec}

-- `KernelOneResolution`
pub record KernelOneResolution : Type 0 where
  pub kpid : KRef
  pub rejected : Bool
  pub value : CapData

-- A call of `subscription.reject(data)` or `subscription.resolve(data)`: a pending promise has no value.
pub record Settlement : Type 0 where
  pub subscriber : ℕ
  pub rejected : Bool
  pub value : Option CapData

-- `PeerArrival`: peers, incarnations and the messages of peers are named by numbers. The number of
-- arrivals that `#takenAhead` has for a restart is kept with it; without an entry it is 0.
pub data PeerArrival : Type 0 where
  remote_inbound : EndpointId → ℕ → ℕ → ℕ → PeerArrival
  peer_incarnation : ℕ → ℕ → Bool → ℕ → PeerArrival

-- `ControlOperation`
pub data ControlOperation : Type 0 where
  clear_storage reset terminate_all_vats : ControlOperation

-- `RunLoopItem`
pub data RunLoopItem : Type 0 where
  queued_item : RunQueueItem → RunLoopItem
  arrival : PeerArrival → RunLoopItem
  control : ControlOperation → RunLoopItem

-- `RunLoopState`, without the error of a failed one
pub data RunLoopState : Type 0 where
  idle running stopped failed : RunLoopState

pub record KernelQueue : Type 0 where
  pub store : Store
  -- `subscriptions`
  pub subscriptions : Dict KRef ℕ
  -- `#resolvedWithKernelSubscription`
  pub resolved_with_kernel_subscription : List KernelOneResolution
  -- What the subscribers were told
  pub settlements : List Settlement
  -- `#wakeUpTheRunQueue !== null`
  pub is_asleep : Bool
  -- `#runLoopState`
  pub run_loop_state : RunLoopState
  -- `#controlRequests` and `#controlInFlight`
  pub control_requests : List ControlOperation
  pub control_in_flight : Option ControlOperation
  -- `#arrivedFromRemotes` and `#tookArrivalLast`
  pub arrived_from_remotes : List PeerArrival
  pub took_arrival_last : Bool

abbrev pub K : Type 0 → Type 0
K A = Exec KernelQueue A

-- A call of a method of `#kernelStore`
abbrev pub on_store : {A : Type 0} → M A → K A
on_store m q = let (r, s) = m q.store in (r, record q { store = s })

abbrev pub empty_queue : KernelQueue
empty_queue = record {
  store = empty_store;
  subscriptions = [];
  resolved_with_kernel_subscription = [];
  settlements = [];
  is_asleep = false;
  run_loop_state = idle;
  control_requests = [];
  control_in_flight = none;
  arrived_from_remotes = [];
  took_arrival_last = false;
}
