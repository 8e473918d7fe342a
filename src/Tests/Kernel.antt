-- ===== src/Tests/Kernel.antt =====
-- The theorems on the kernel queue and the router, at stores with one promise.
use ocap_kernel.Kernel.ArrivalBounds.{accept_remote_inbound-bounded}
use ocap_kernel.Text.Order.{sort}
use ocap_kernel.Kernel.Turns.{
  get_next_run_queue_item-none, IsIdle, get_next_run_queue_item-fair, take_turns-IsAudited,
  taken_refs,
}
use ocap_kernel.Store.Gc.{set_gc_actions, take_reap, next_reap_action}
use ocap_kernel.Store.GcSchedule.{endpoints_of, schedule, try_groups, process_gc_action_set}
use ocap_kernel.Store.Audit.Weights.{
  credit_item, credit_promise, credit_items, held, recognizes, IsBalanced, reaches,
  expected_recognizable, expected_reachable, is_retiring,
}
use ocap_kernel.Kernel.Groups.{resolve_promises-IsAudited, IsPermitted}
use ocap_kernel.Kernel.Resolution.{resolve_one-Settles, Settles}
use ocap_kernel.Exec.{ok}
use ocap_kernel.Kernel.Arrivals.{
  take_arrival, max_arrivals_per_remote, take_run, accept_remote_inbound, turn, next_item,
  get_next_run_queue_item, held_arrivals, take_turns,
}
use ocap_kernel.Prelude.{
  arith, true, ◌⊎◌, refl, false, ◌++◌, ◌∷◌, ◌≤◌, [], some, ◌≡◌, List, length, ℕ,
}
use ocap_kernel.Kernel.Enqueue.{resolve_one, flush_crank_buffer, resolve_promises}
use ocap_kernel.Kernel.Flush.{flush_crank_buffer-step, Tells}
use ocap_kernel.Kernel.State.{
  queued_item, arrival, empty_queue, remote_inbound, KernelOneResolution, KernelQueue,
}
use ocap_kernel.Store.State.{
  fulfilled, unresolved, RunQueueItem, empty_store, notify, CapData, Store,
}
use ocap_kernel.Refs.{KRef, endpoint, ko, vat, EndpointId, kp, remote}
use ocap_kernel.Store.RefCount.{kernel_ref_exists}
use ocap_kernel.Dict.{get}
use ocap_kernel.Store.Audit.Laws.{IsAudited}

abbrev pub no_slots : CapData
no_slots = record { body = "undefined"; slots = [] }

-- `kp1` is unresolved and `v1` decides it; `v2` listens. `ko1` is pinned.
abbrev pub promised : ℕ → ℕ → Store
promised a b = record empty_store {
  object_counts = (ko 1, record { reachable = a; recognizable = a }) ∷ [];
  pinned = (ko 1, 1) ∷ [];
  promise_counts = (kp 1, b) ∷ [];
  promise_state = (kp 1, unresolved) ∷ [];
  decider = (kp 1, endpoint (vat 1)) ∷ [];
  subscribers = (kp 1, vat 2 ∷ []) ∷ [];
}

pub idle_promise-IsBalanced : (k : KRef) → IsBalanced [] (promised 1 1) k
unfolding get expected_reachable expected_recognizable reaches recognizes is_retiring held
    credit_items credit_promise
idle_promise-IsBalanced (ko n) = ground arith
idle_promise-IsBalanced (kp n) = ground arith

pub sent_promise-IsBalanced : (k : KRef) → IsBalanced (ko 1 ∷ kp 1 ∷ []) (promised 2 2) k
unfolding get expected_reachable expected_recognizable reaches recognizes is_retiring held
    credit_items credit_promise
sent_promise-IsBalanced (ko n) = ground arith
sent_promise-IsBalanced (kp n) = ground arith

pub promised-IsAudited :
    (hand : List KRef) (a b : ℕ)
    → ((k : KRef) → IsBalanced hand (promised a b) k)
    → IsAudited hand (promised a b)
unfolding get is_retiring
promised-IsAudited hand a b h = record {
  balanced = h;
  clist_rows = tt;
  pin_rows = (refl, tt);
  promise_rows = (refl, tt);
  queue_rows = tt;
  kinds = λ e k x h. ground (arith, h);
  retired = λ e n h. ground (arith, h);
}

-- `kp1` is fulfilled, and a notification of it is queued or buffered.
abbrev pub fulfilled_with : List RunQueueItem → List RunQueueItem → Store
fulfilled_with rq cb = record empty_store {
  promise_counts = (kp 1, 1) ∷ [];
  promise_state = (kp 1, fulfilled) ∷ [];
  value = (kp 1, no_slots) ∷ [];
  run_queue = rq;
  crank_buffer = cb;
}

buffered-IsBalanced : (k : KRef) → IsBalanced [] (fulfilled_with [] (notify (vat 2) (kp 1) ∷ [])) k
unfolding get expected_reachable expected_recognizable reaches recognizes is_retiring held
    credit_items credit_item credit_promise
buffered-IsBalanced (ko n) = ground arith
buffered-IsBalanced (kp n) = ground arith

waiting-IsBalanced : (k : KRef) → IsBalanced [] (fulfilled_with (notify (vat 2) (kp 1) ∷ []) []) k
unfolding get expected_reachable expected_recognizable reaches recognizes is_retiring held
    credit_items credit_item credit_promise
waiting-IsBalanced (ko n) = ground arith
waiting-IsBalanced (kp n) = ground arith

pub fulfilled-IsAudited :
    (hand : List KRef) (rq cb : List RunQueueItem)
    → ((k : KRef) → IsBalanced hand (fulfilled_with rq cb) k)
    → IsAudited hand (fulfilled_with rq cb)
unfolding get is_retiring
fulfilled-IsAudited hand rq cb h = record {
  balanced = h;
  clist_rows = tt;
  pin_rows = tt;
  promise_rows = (refl, tt);
  queue_rows = tt;
  kinds = λ e k x h. ground (arith, h);
  retired = λ e n h. ground (arith, h);
}

abbrev pub over : Store → KernelQueue
over s = record empty_queue { store = s }

-- `v1` fulfils `kp1` with `ko1`.
abbrev fulfilment : KernelOneResolution
fulfilment = record {
  kpid = kp 1;
  rejected = false;
  value = record { body = "#ko1"; slots = ko 1 ∷ [] };
}

fulfilment-IsPermitted : IsPermitted (some (endpoint (vat 1))) fulfilment (promised 1 1)
unfolding get kernel_ref_exists
fulfilment-IsPermitted = record {
  promise = refl;
  unsettled = refl;
  listeners = vat 2 ∷ [];
  listening = refl;
  decided = refl;
  slots = (refl, tt);
}

resolve_promises-IsAudited_example :
    ((resolve_promises (some (endpoint (vat 1))) (fulfilment ∷ []) false (over (promised 1 1))).0
      ≡ ok tt)
    × IsAudited []
        (resolve_promises
          (some (endpoint (vat 1)))
          (fulfilment ∷ [])
          false
          (over (promised 1 1))).1.store
resolve_promises-IsAudited_example =
    resolve_promises-IsAudited (some (endpoint (vat 1))) (fulfilment ∷ []) false
      (over (promised 1 1)) (promised-IsAudited [] 1 1 idle_promise-IsBalanced)
      (fulfilment-IsPermitted, (tt, tt))

resolve_one-Settles_example :
    Settles [] fulfilment
      (over (promised 1 1))
      (resolve_one (some (endpoint (vat 1))) true fulfilment (over (promised 1 1)))
unfolding get kernel_ref_exists
resolve_one-Settles_example =
    resolve_one-Settles (some (endpoint (vat 1))) true fulfilment (over (promised 1 1)) (vat 2 ∷ [])
      (promised-IsAudited [] 1 1 idle_promise-IsBalanced) refl refl refl refl (refl, tt)

abbrev buffered : KernelQueue
buffered = over (fulfilled_with [] (notify (vat 2) (kp 1) ∷ []))

abbrev waiting : KernelQueue
waiting = over (fulfilled_with (notify (vat 2) (kp 1) ∷ []) [])

-- The kernel has subscribed to the promise too.
abbrev subscribed : KernelQueue
subscribed = record buffered { subscriptions = (kp 1, 4) ∷ []; is_asleep = true }

flush_crank_buffer-step_example :
    ((flush_crank_buffer subscribed).0 ≡ ok tt)
    × ((flush_crank_buffer subscribed).1.store ≡ fulfilled_with (notify (vat 2) (kp 1) ∷ []) [])
    × Tells subscribed (flush_crank_buffer subscribed).1
unfolding get
flush_crank_buffer-step_example =
    flush_crank_buffer-step subscribed ((refl, (false, (no_slots, (refl, refl)))), tt)

take_turns-IsAudited_example :
    IsAudited (taken_refs (take_turns waiting).0 ++ []) (take_turns waiting).1.store
take_turns-IsAudited_example =
    take_turns-IsAudited waiting
      (fulfilled-IsAudited [] (notify (vat 2) (kp 1) ∷ []) [] waiting-IsBalanced)

abbrev crowded : KernelQueue
crowded = record waiting { arrived_from_remotes = remote_inbound (remote 1) 1 5 0 ∷ [] }

-- The next state after the first choice, with another notification queued since
abbrev crowded_later : KernelQueue
unfolding get_next_run_queue_item next_item take_turns turn take_run take_arrival
    process_gc_action_set try_groups schedule endpoints_of next_reap_action take_reap set_gc_actions
    sort
crowded_later = record (get_next_run_queue_item crowded).1 {
  store = fulfilled_with (notify (vat 2) (kp 1) ∷ notify (vat 1) (kp 1) ∷ []) [];
}

get_next_run_queue_item-fair_example :
    (((get_next_run_queue_item crowded).0 ≡ some (arrival (remote_inbound (remote 1) 1 5 0)))
      × ((get_next_run_queue_item crowded_later).0 ≡ some (queued_item (notify (vat 2) (kp 1)))))
    ⊎ (((get_next_run_queue_item crowded).0 ≡ some (queued_item (notify (vat 2) (kp 1))))
        × ((get_next_run_queue_item crowded_later).0
            ≡ some (arrival (remote_inbound (remote 1) 1 5 0))))
unfolding get_next_run_queue_item next_item take_turns turn take_run take_arrival
    process_gc_action_set try_groups schedule endpoints_of next_reap_action take_reap set_gc_actions
    sort crowded_later
get_next_run_queue_item-fair_example =
    get_next_run_queue_item-fair crowded crowded_later (remote_inbound (remote 1) 1 5 0) []
      (notify (vat 2) (kp 1)) [] refl refl
      (record { no_control = refl; no_action = refl; no_reap = refl })
      (record {
        more_arrivals = [];
        more_items = notify (vat 1) (kp 1) ∷ [];
        arrived = refl;
        queued = refl;
        took = refl;
      })
      (record { no_control = refl; no_action = refl; no_reap = refl })

few_held :
    (s : EndpointId) (t : ℕ)
    → length (held_arrivals s t 3 crowded.arrived_from_remotes) ≤ max_arrivals_per_remote
unfolding held_arrivals
few_held s t = ground arith

accept_remote_inbound-bounded_example :
    length (
      held_arrivals
        (remote 1)
        1
        3
        (accept_remote_inbound (remote 1) 1 6 0 3 crowded).1.arrived_from_remotes)
    ≤ max_arrivals_per_remote
accept_remote_inbound-bounded_example =
    accept_remote_inbound-bounded crowded (remote 1) 1 6 0 (λ r p. 3) few_held (remote 1) 1

get_next_run_queue_item-none_example : IsIdle (get_next_run_queue_item empty_queue).1
unfolding get_next_run_queue_item next_item take_turns turn take_run take_arrival
    process_gc_action_set try_groups schedule endpoints_of next_reap_action take_reap set_gc_actions
    sort
get_next_run_queue_item-none_example = get_next_run_queue_item-none empty_queue refl
