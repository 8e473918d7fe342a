-- ===== src/Kernel/ArrivalBounds.antt =====
-- How many arrivals of a remote peer may wait (KernelQueue.ts).
use ocap_kernel.Kernel.Arrivals.{
  alive, assert_run_loop_alive, accept_remote_inbound, ahead_of, some_seq, waiting_restart,
  max_arrivals_per_remote, with_ahead, arrive, insert_ahead, is_held, held_arrivals, place_arrival,
}
use ocap_kernel.Kernel.State.{
  failed, stopped, running, idle, RunLoopState, peer_incarnation, remote_inbound, K, PeerArrival,
  KernelQueue,
}
use ocap_kernel.Exec.{run_loop_dead, run_loop_stopped, err, Error, ok}
use ocap_kernel.Prelude.{
  inr, inl, ◌⊎◌, false, none, true, refl, some, [], arith, ◌||◌, Option, leb, ◌+◌, ◌∷◌,
  if◌then◌else◌, ◌++◌, ◌≤◌, Bool, List, length, ◌≡◌, ℕ,
}
use ocap_kernel.Refs.{endpoint_beq_iff, EndpointId}
use ocap_kernel.Kernel.Enqueue.{wake_run_loop}

module _ (r : EndpointId) (p h : ℕ) where
  held_arrivals-snoc :
      (xs : List PeerArrival) (x : PeerArrival)
      → length (held_arrivals r p h (xs ++ x ∷ []))
        ≡ length (held_arrivals r p h xs) + (if is_held r p h x then 1 else 0)
  unfolding held_arrivals
  held_arrivals-snoc [] x = ground arith
  held_arrivals-snoc (y ∷ ys) x = ground (arith, held_arrivals-snoc ys x)

  is_held-with_ahead : (n : ℕ) (a : PeerArrival) → is_held r p h (with_ahead n a) ≡ is_held r p h a
  is_held-with_ahead n (remote_inbound i j k m) = refl
  is_held-with_ahead n (peer_incarnation i j b a) = refl

  held_arrivals-insert :
      (s n : ℕ) (x : PeerArrival) (xs : List PeerArrival)
      → length (held_arrivals r p h (insert_ahead s n x xs))
        ≤ length (held_arrivals r p h xs) + (if is_held r p h x then 1 else 0)
  unfolding held_arrivals insert_ahead
  held_arrivals-insert s n x [] = omega arith
  held_arrivals-insert s n x (y ∷ ys) =
      ground (arith, held_arrivals-insert s n x ys, is_held-with_ahead n y)

-- What `acceptRemoteInbound` leaves waiting of another remote or peer is what it was, and of this one at
-- most one more where there was room.
module _ (q : KernelQueue) (r : EndpointId) (p n m h : ℕ) where
  placed :
      (s : EndpointId) (t k : ℕ) (w : Option PeerArrival)
      → length (
          held_arrivals s t k (place_arrival p (remote_inbound r p n m) w q).1.arrived_from_remotes)
        ≤ length (held_arrivals s t k q.arrived_from_remotes)
          + (if is_held s t k (remote_inbound r p n m) then 1 else 0)
  unfolding place_arrival arrive wake_run_loop
  placed s t k none =
      omega (arith, held_arrivals-snoc s t k q.arrived_from_remotes (remote_inbound r p n m))
  placed s t k (some w) = ground (
    arith,
    held_arrivals-insert s t k p (ahead_of w + 1) (remote_inbound r p n m) q.arrived_from_remotes,
  )

  abbrev pub accepted : K Bool
  accepted q =
      let waiting = held_arrivals r p h q.arrived_from_remotes in
      if leb n h || some_seq n waiting
      then (ok true, q)
      else if leb max_arrivals_per_remote (length waiting)
      then (ok false, q)
      else place_arrival p (remote_inbound r p n m) (waiting_restart p q.arrived_from_remotes) q

  accepted-bounded :
      (high : EndpointId → ℕ → ℕ)
      → high r p ≡ h
      → ((s : EndpointId) (t : ℕ)
          → length (held_arrivals s t (high s t) q.arrived_from_remotes) ≤ max_arrivals_per_remote)
      → (s : EndpointId) (t : ℕ)
      → length (held_arrivals s t (high s t) (accepted q).1.arrived_from_remotes)
        ≤ max_arrivals_per_remote
  accepted-bounded high e b s t = ground (
    arith,
    b s t,
    placed s t (high s t) (waiting_restart p q.arrived_from_remotes),
    endpoint_beq_iff r s,
  )

alive-cases :
    (s : RunLoopState) (q : KernelQueue)
    → (alive s q ≡ (ok tt, q)) ⊎ ((e : Error) × (alive s q ≡ (err e, q)))
alive-cases idle q = inl refl
alive-cases running q = inl refl
alive-cases stopped q = inr (run_loop_stopped, refl)
alive-cases failed q = inr (run_loop_dead, refl)

-- If no remote has more than 200 uncommitted arrivals of a peer waiting, by any record of the highest
-- number committed for each, none has after a call of `acceptRemoteInbound` with the number on record.
pub accept_remote_inbound-bounded :
    (q : KernelQueue) (r : EndpointId) (p n m : ℕ) (high : EndpointId → ℕ → ℕ)
    → ((s : EndpointId) (t : ℕ)
        → length (held_arrivals s t (high s t) q.arrived_from_remotes) ≤ max_arrivals_per_remote)
    → (s : EndpointId) (t : ℕ)
    → length (
        held_arrivals s t
          (high s t)
          (accept_remote_inbound r p n m (high r p) q).1.arrived_from_remotes)
      ≤ max_arrivals_per_remote
unfolding accept_remote_inbound assert_run_loop_alive
accept_remote_inbound-bounded q r p n m high b s t = elim (alive-cases q.run_loop_state q) [
  | inl h ↦ rw (h) (accepted-bounded q r p n m (high r p) high refl b s t)
  | inr (e, h) ↦ rw (h) (b s t)
]
