-- ===== src/Remotes/Handle/Kept.antt =====
-- The operations of a handle that leave what it has received as it is.
use ocap_kernel.Dict.{put, get}
use ocap_kernel.Exec.{◌>>=◌, err, ok, resume, Exec, Result}
use ocap_kernel.Prelude.{
  nat_eq, arith, if◌then◌else◌, ◌+◌, ◌≡◌, ◌≤◌, inl, inr, refl, suc, zero, false, true, Bool, Option,
  Option-cases, ℕ,
}
use ocap_kernel.Remotes.Handle.Acknowledged.{acked, finished, start_after}
use ocap_kernel.Remotes.Handle.Acks.{
  give_up, handle_ack, persist_acknowledged, reject_all_pending, reject_pending_redemptions,
}
use ocap_kernel.Remotes.Handle.Flushing.{flush_loop-cases, flush_transmit_queue-cases}
use ocap_kernel.Remotes.Handle.Numbered.{reject_all_pending-cases}
use ocap_kernel.Remotes.Handle.Receipts.{persist_acknowledged-receipt, write_command-receipt}
use ocap_kernel.Remotes.Handle.Runs.{abandon-give_up}
use ocap_kernel.Remotes.Handle.Sending.{persist_remote_command}
use ocap_kernel.Remotes.Handle.State.{
  clear_ack_timeout, send_window, start_ack_timeout, PersistedCommand, RemoteHandle, seq_window,
}
use ocap_kernel.Remotes.Handle.Transmit.{
  abandon, attach_transport, flush_fuel, flush_loop, flush_round, flush_transmit_queue,
  put_on_the_wire, transmit_remote_command,
}
use ocap_kernel.Remotes.Handle.Windows.{persist_in-cases}
use ocap_kernel.Store.Pinned.{or_zero}

module _ {B : Type 0} where
  -- The handle and its rows have taken a message with this number or a higher one.
  pub record HasTaken (n : ℕ) (h : RemoteHandle B) : Type 0 where
    pub memory : n ≤ h.highest_received_seq
    pub row : n ≤ or_zero h.rows.highest_received

  pub same-HasTaken :
      (n : ℕ) (h h' : RemoteHandle B)
      → h'.highest_received_seq ≡ h.highest_received_seq
      → h'.rows.highest_received ≡ h.rows.highest_received
      → HasTaken n h
      → HasTaken n h'
  same-HasTaken n h h' m r i = record { memory = rw (m) i.memory; row = rw (r) i.row }

  resumed-HasTaken :
      {A C : Type 0} (n : ℕ) (r : Result A) (f : A → Exec (RemoteHandle B) C) (t : RemoteHandle B)
      → ((a : A) → HasTaken n (f a t).1)
      → HasTaken n t
      → HasTaken n (resume r f t).1
  resumed-HasTaken n (ok a) f t k i = k a
  resumed-HasTaken n (err e) f t k i = i

  pub bind-HasTaken :
      {A C : Type 0} (n : ℕ) (m : Exec (RemoteHandle B) A) (f : A → Exec (RemoteHandle B) C)
      (h : RemoteHandle B)
      → ((a : A) (t : RemoteHandle B) → HasTaken n t → HasTaken n (f a t).1)
      → HasTaken n (m h).1
      → HasTaken n ((m >>= f) h).1
  bind-HasTaken n m f h k i = resumed-HasTaken n (m h).0 f (m h).1 (λ a. k a (m h).1 i) i

  pub if-HasTaken :
      {A : Type 0} (n : ℕ) (b : Bool) (x y : A × RemoteHandle B)
      → HasTaken n x.1
      → HasTaken n y.1
      → HasTaken n (if b then x else y).1
  if-HasTaken n true x y i j = i
  if-HasTaken n false x y i j = j

  pub persist_acknowledged-HasTaken :
      (n : ℕ) (h : RemoteHandle B) → HasTaken n h → HasTaken n (persist_acknowledged h)
  persist_acknowledged-HasTaken n h i =
      let (m, r) = persist_acknowledged-receipt h in same-HasTaken n h _ m r i

  pub handle_ack-HasTaken :
      (n ack : ℕ) (h : RemoteHandle B) → HasTaken n h → HasTaken n (handle_ack ack h).1
  handle_ack-HasTaken n ack h i = rw (finished ack h) (
      let t = acked (start_after ack (seq_window h)) h in
      let u = persist_acknowledged-HasTaken n t (same-HasTaken n h t refl refl i) in
      same-HasTaken n (persist_acknowledged t) (start_ack_timeout (persist_acknowledged t)) refl
        refl u)

  pub persist_remote_command-HasTaken :
      (n : ℕ) (base : B) (exempt : Bool) (ack : Option ℕ) (h : RemoteHandle B)
      → HasTaken n h
      → HasTaken n (persist_remote_command base exempt ack h).1
  unfolding persist_remote_command
  persist_remote_command-HasTaken n base exempt ack h i =
      let t = persist_acknowledged h in
      let u = persist_acknowledged-HasTaken n h i in
      elim (persist_in-cases (send_window t) base exempt ack t) [
        | inl (free, full, e) ↦ rw e u
        | inr (fits, e) ↦ rw e (let (m, r) = write_command-receipt _ t in same-HasTaken n t _ m r u)
      ]

  flush_round-receipts :
      (h : RemoteHandle B)
      → ((flush_round h).1.highest_received_seq ≡ h.highest_received_seq)
        × ((flush_round h).1.rows.highest_received ≡ h.rows.highest_received)
  unfolding flush_round put_on_the_wire
  flush_round-receipts h = ground (
    arith,
    Option-cases (get (h.last_transmitted_seq + 1) h.rows.pending),
    Option-cases (get (h.last_transmitted_seq + 1) h.awaiting_transmit),
  )

  flush_round-HasTaken : (n : ℕ) (h : RemoteHandle B) → HasTaken n h → HasTaken n (flush_round h).1
  flush_round-HasTaken n h i = let (m, r) = flush_round-receipts h in same-HasTaken n h _ m r i

  flush_loop-HasTaken :
      (n k : ℕ) (h : RemoteHandle B) → HasTaken n h → HasTaken n (flush_loop k h).1
  unfolding flush_loop
  flush_loop-HasTaken n zero h i = i
  flush_loop-HasTaken n (suc k) h i = elim (flush_loop-cases k h) [
    | inl (q, e) ↦ rw e (flush_loop-HasTaken n k (flush_round h).1 (flush_round-HasTaken n h i))
    | inr (q, e) ↦ rw e (flush_round-HasTaken n h i)
  ]

  flush-HasTaken :
      (n : ℕ) (h : RemoteHandle B) → HasTaken n h → HasTaken n (flush_transmit_queue h).1
  flush-HasTaken n h i = elim (flush_transmit_queue-cases h) [
    | inl e ↦ rw e (flush_loop-HasTaken n (flush_fuel h) h i)
    | inr e ↦ rw e i
  ]

  pub transmit-HasTaken :
      (n : ℕ) (p : PersistedCommand B) (h : RemoteHandle B)
      → HasTaken n h
      → HasTaken n (transmit_remote_command p h).1
  unfolding transmit_remote_command
  transmit-HasTaken n p h i =
      flush-HasTaken n (record h { awaiting_transmit = put p.seq p h.awaiting_transmit })
        (same-HasTaken n h _ refl refl i)

  pub attach-HasTaken :
      (n : ℕ) (h : RemoteHandle B) → HasTaken n h → HasTaken n (attach_transport h).1
  unfolding attach_transport
  attach-HasTaken n h i =
      flush-HasTaken n (start_ack_timeout (record h { has_transport = true }))
        (same-HasTaken n h _ refl refl i)

  rejected-HasTaken :
      (n : ℕ) (h : RemoteHandle B) → HasTaken n h → HasTaken n (reject_all_pending h)
  rejected-HasTaken n h i = elim (reject_all_pending-cases h) [
    | inl (empty, e) ↦ rw e (same-HasTaken n h _ refl refl i)
    | inr e ↦ rw e (same-HasTaken n h _ refl refl i)
  ]

  pub give_up-HasTaken : (n : ℕ) (h : RemoteHandle B) → HasTaken n h → HasTaken n (give_up h)
  unfolding give_up
  give_up-HasTaken n h i =
      let t = reject_all_pending (clear_ack_timeout h) in
      same-HasTaken n t (reject_pending_redemptions t) refl refl
        (rejected-HasTaken n (clear_ack_timeout h) (same-HasTaken n h _ refl refl i))

  pub abandon-HasTaken : (n : ℕ) (h : RemoteHandle B) → HasTaken n h → HasTaken n (abandon h)
  abandon-HasTaken n h i = rw (abandon-give_up h) (give_up-HasTaken n h i)
