-- ===== src/Kernel/Arrivals.antt =====
-- What arrives from remote peers, held in memory until a crank takes it, and the choice of the next item
-- of the run loop (KernelQueue.ts).
use ocap_kernel.Kernel.State.{
  stopped, failed, arrival, control, queued_item, peer_incarnation, ControlOperation, RunLoopItem,
  remote_inbound, K, KernelQueue, PeerArrival, RunLoopState,
}
use ocap_kernel.Prelude.{
  ◌+◌, length, ltb, [], leb, nat_eq, ◌&&◌, ◌++◌, if◌then◌else◌, some, true, ◌==◌, ◌||◌, false, none,
  ◌∷◌, Bool, List, Option, ℕ,
}
use ocap_kernel.Refs.{endpoint_eq, EndpointId}
use ocap_kernel.Store.Gc.{next_reap_action}
use ocap_kernel.Dict.{is_some}
use ocap_kernel.Exec.{done, run_loop_stopped, run_loop_dead, ◌>>=◌, ok, raise}
use ocap_kernel.Store.GcSchedule.{process_gc_action_set}
use ocap_kernel.Store.State.{Store, RunQueueItem}
use ocap_kernel.Kernel.Enqueue.{wake_run_loop}

abbrev pub max_arrivals_per_remote : ℕ
max_arrivals_per_remote = 200

abbrev pub alive : RunLoopState → K (Unit {0})
alive failed = raise run_loop_dead
alive stopped = raise run_loop_stopped
alive _ = done

-- `assertRunLoopAlive`
unfoldable pub assert_run_loop_alive : K (Unit {0})
assert_run_loop_alive q = alive q.run_loop_state q

-- The filter of `held`
abbrev pub is_held : EndpointId → ℕ → ℕ → PeerArrival → Bool
is_held r p highest (remote_inbound r' p' n m) = r' == r && (p' == p && ltb highest n)
is_held r p highest (peer_incarnation p' i b n) = false

unfoldable pub held_arrivals : EndpointId → ℕ → ℕ → List PeerArrival → List PeerArrival
held_arrivals r p highest [] = []
held_arrivals r p highest (a ∷ xs) =
    let rest = held_arrivals r p highest xs in if is_held r p highest a then a ∷ rest else rest

abbrev pub has_seq : ℕ → PeerArrival → Bool
has_seq n (remote_inbound r p n' m) = n' == n
has_seq n (peer_incarnation p i b a) = false

-- `held.some((item) => item.seq === seq)`
unfoldable pub some_seq : ℕ → List PeerArrival → Bool
some_seq n [] = false
some_seq n (a ∷ xs) = has_seq n a || some_seq n xs

abbrev pub is_restart_of : ℕ → PeerArrival → Bool
is_restart_of p (remote_inbound r p' n m) = false
is_restart_of p (peer_incarnation p' i b a) = p' == p && b

abbrev pub ahead_of : PeerArrival → ℕ
ahead_of (remote_inbound r p n m) = 0
ahead_of (peer_incarnation p i b a) = a

-- `#waitingRestart`
unfoldable pub waiting_restart : ℕ → List PeerArrival → Option PeerArrival
waiting_restart p [] = none
waiting_restart p (a ∷ xs) =
    let rest = waiting_restart p xs in if is_restart_of p a then some a else rest

abbrev pub with_ahead : ℕ → PeerArrival → PeerArrival
with_ahead n (remote_inbound r p m x) = remote_inbound r p m x
with_ahead n (peer_incarnation p i b a) = peer_incarnation p i b n

-- The arrival goes in before the waiting restart, which has one more taken ahead of it.
unfoldable pub insert_ahead : ℕ → ℕ → PeerArrival → List PeerArrival → List PeerArrival
insert_ahead p n x [] = []
insert_ahead p n x (a ∷ xs) =
    let rest = insert_ahead p n x xs in
    if is_restart_of p a then x ∷ with_ahead n a ∷ xs else a ∷ rest

unfoldable pub arrive : List PeerArrival → KernelQueue → KernelQueue
unfolding wake_run_loop
arrive xs q = wake_run_loop (record q { arrived_from_remotes = xs })

-- Behind everything, or before a restart that waits and has not had too many taken ahead
unfoldable pub place_arrival : ℕ → PeerArrival → Option PeerArrival → K Bool
unfolding arrive
place_arrival p x none q = (ok true, arrive (q.arrived_from_remotes ++ x ∷ []) q)
place_arrival p x (some w) q =
    if ltb max_arrivals_per_remote (ahead_of w + 1)
    then (ok false, q)
    else (ok true, arrive (insert_ahead p (ahead_of w + 1) x q.arrived_from_remotes) q)

-- `acceptRemoteInbound`
unfoldable pub accept_remote_inbound : EndpointId → ℕ → ℕ → ℕ → ℕ → K Bool
unfolding assert_run_loop_alive place_arrival
accept_remote_inbound r p n m highest = assert_run_loop_alive >>= λ u q.
    let waiting = held_arrivals r p highest q.arrived_from_remotes in
    if leb n highest || some_seq n waiting
    then (ok true, q)
    else if leb max_arrivals_per_remote (length waiting)
    then (ok false, q)
    else place_arrival p (remote_inbound r p n m) (waiting_restart p q.arrived_from_remotes) q

abbrev pub with_incarnation : ℕ → PeerArrival → PeerArrival
with_incarnation i (remote_inbound r p n m) = remote_inbound r p n m
with_incarnation i (peer_incarnation p j b a) = peer_incarnation p i b a

-- The waiting restart takes the later incarnation.
unfoldable pub replace_restart : ℕ → ℕ → List PeerArrival → List PeerArrival
replace_restart p i [] = []
replace_restart p i (a ∷ xs) =
    let rest = replace_restart p i xs in
    if is_restart_of p a then with_incarnation i a ∷ xs else a ∷ rest

-- `acceptPeerIncarnation`
unfoldable pub accept_peer_incarnation : ℕ → ℕ → Bool → K (Unit {0})
unfolding assert_run_loop_alive arrive
accept_peer_incarnation p i restart = assert_run_loop_alive >>= λ u q.
    let xs = q.arrived_from_remotes in
    (
      ok tt,
      arrive
          (if restart && is_some (waiting_restart p xs)
            then replace_restart p i xs
            else xs ++ peer_incarnation p i restart 0 ∷ [])
          q,
    )

abbrev pub take_first : List PeerArrival → KernelQueue → Option RunLoopItem × KernelQueue
take_first [] q = (none, record q { took_arrival_last = false })
take_first (a ∷ xs) q =
    (some (arrival a), record q { arrived_from_remotes = xs; took_arrival_last = true })

-- `#takeArrival`
unfoldable pub take_arrival : KernelQueue → Option RunLoopItem × KernelQueue
take_arrival q = take_first q.arrived_from_remotes q

-- `kernelStore.dequeueRun`, or else an arrival
unfoldable pub take_run : List RunQueueItem → KernelQueue → Option RunLoopItem × KernelQueue
unfolding take_arrival
take_run [] q = take_arrival q
take_run (i ∷ is) q = (some (queued_item i), record q { store = record q.store { run_queue = is } })

unfoldable pub turn : Bool → List PeerArrival → KernelQueue → Option RunLoopItem × KernelQueue
unfolding take_arrival take_run
turn false (a ∷ xs) q = take_arrival q
turn false [] q = take_run q.store.run_queue (record q { took_arrival_last = false })
turn true xs q = take_run q.store.run_queue (record q { took_arrival_last = false })

-- Arrivals and the run queue take turns.
unfoldable pub take_turns : KernelQueue → Option RunLoopItem × KernelQueue
unfolding turn
take_turns q = turn q.took_arrival_last q.arrived_from_remotes q

abbrev pub or_next :
    Option RunQueueItem × Store
    → KernelQueue
    → (KernelQueue → Option RunLoopItem × KernelQueue)
    → Option RunLoopItem × KernelQueue
or_next (none, s) q next = next (record q { store = s })
or_next (some i, s) q next = (some (queued_item i), record q { store = s })

unfoldable pub next_item : List ControlOperation → KernelQueue → Option RunLoopItem × KernelQueue
unfolding take_turns
next_item (c ∷ cs) q =
    (some (control c), record q { control_requests = cs; control_in_flight = some c })
next_item [] q =
    or_next (process_gc_action_set q.store) q (λ q. or_next (next_reap_action q.store) q take_turns)

-- `#getNextRunQueueItem`: a host call first, then a collection action, then a reap, then the rest
unfoldable pub get_next_run_queue_item : KernelQueue → Option RunLoopItem × KernelQueue
unfolding next_item
get_next_run_queue_item q = next_item q.control_requests q
