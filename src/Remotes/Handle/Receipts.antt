-- ===== src/Remotes/Handle/Receipts.antt =====
-- What the sending side of a handle leaves of the receipts.
use ocap_kernel.Prelude.{
  Option, ap, ◌≢◌, none, sym, refl, zero, inr, nat_eq, ◌∙◌, inl, ◌+◌, Option-cases, some, suc,
  arith, ℕ, ◌≡◌, Bool,
}
use ocap_kernel.Remotes.Handle.Flushing.{
  flush_transmit_queue-cases, flush_loop-cases, flush_transmit_queue-Returns,
}
use ocap_kernel.Remotes.Handle.State.{
  send_window, stored_seq_window, make, PersistedCommand, RemoteCommand, RemoteHandle,
}
use ocap_kernel.Exec.{ok}
use ocap_kernel.Remotes.Handle.Rows.{RemoteSeqState, RemoteRows, get_remote_seq_state}
use ocap_kernel.Remotes.Handle.Windows.{persist_in-cases}
use ocap_kernel.Remotes.Handle.Sending.{persist_remote_command, write_command}
use ocap_kernel.Store.Pinned.{or_zero}
use ocap_kernel.Remotes.Handle.Acks.{raise_window, acked_count, persist_acknowledged}
use ocap_kernel.Dict.{put, get}
use ocap_kernel.Remotes.Handle.Recovery.{make-IsRestored}
use ocap_kernel.Remotes.Handle.Acknowledged.{delete_pending_messages-state}
use ocap_kernel.Remotes.Handle.Transmit.{
  put_on_the_wire, flush_loop, flush_round, transmit_remote_command,
}

none_ne_some : {A : Type 0} {a : A} → none ≢ some a
none_ne_some q = cc

module _ {B : Type 0} where
  abbrev SameReceipt : RemoteHandle B → RemoteHandle B → Type 0
  SameReceipt h h' =
      (h'.highest_received_seq ≡ h.highest_received_seq)
      × (h'.rows.highest_received ≡ h.rows.highest_received)

  pub persist_acknowledged-receipt : (h : RemoteHandle B) → SameReceipt h (persist_acknowledged h)
  unfolding persist_acknowledged
  persist_acknowledged-receipt h = ground (
    arith,
    delete_pending_messages-state (acked_count (stored_seq_window h) h.start_seq)
        (stored_seq_window h).start_seq (raise_window (stored_seq_window h) h),
  )

  pub write_command-receipt :
      (m : RemoteCommand B) (h : RemoteHandle B) → SameReceipt h (write_command m h)
  unfolding write_command
  write_command-receipt m h = ground arith

  flush_round-receipt :
      (h : RemoteHandle B) → (flush_round h).1.highest_received_seq ≡ h.highest_received_seq
  unfolding flush_round put_on_the_wire
  flush_round-receipt h =
      ground (arith, Option-cases (get (h.last_transmitted_seq + 1) h.rows.pending))

  flush_loop-receipt :
      (n : ℕ) (h : RemoteHandle B)
      → (flush_loop n h).1.highest_received_seq ≡ h.highest_received_seq
  unfolding flush_loop
  flush_loop-receipt zero h = refl
  flush_loop-receipt (suc n) h = elim (flush_loop-cases n h) [
    | inl (q, e) ↦ rw e (flush_loop-receipt n (flush_round h).1 ∙ flush_round-receipt h)
    | inr (q, e) ↦ rw e (flush_round-receipt h)
  ]

  -- A transmission comes to an end, and does not change what was received.
  pub transmit-receipt :
      (p : PersistedCommand B) (h : RemoteHandle B)
      → ((transmit_remote_command p h).0 ≡ ok tt)
        × ((transmit_remote_command p h).1.highest_received_seq ≡ h.highest_received_seq)
  unfolding transmit_remote_command
  transmit-receipt p h = (
    flush_transmit_queue-Returns (record h { awaiting_transmit = put p.seq p h.awaiting_transmit }),
    elim (flush_transmit_queue-cases
        (record h { awaiting_transmit = put p.seq p h.awaiting_transmit })) [
          | inl e ↦ rw e (
              flush_loop-receipt _
                (record h { awaiting_transmit = put p.seq p h.awaiting_transmit }))
          | inr e ↦ rw e refl
        ],
  )

  no_receipt :
      (r : RemoteRows (RemoteCommand B)) → get_remote_seq_state r ≡ none → r.highest_received ≡ none
  unfolding get_remote_seq_state
  no_receipt r q =
      ground
        (arith, q, Option-cases r.start, Option-cases r.next_send, Option-cases r.highest_received)

  seq_state-receipt :
      (r : RemoteRows (RemoteCommand B)) (s : RemoteSeqState)
      → get_remote_seq_state r ≡ some s
      → s.highest_received_seq ≡ or_zero r.highest_received
  unfolding get_remote_seq_state
  seq_state-receipt r s q = ground (arith, q)

  pub make-receipt :
      (t : Bool) (r : RemoteRows (RemoteCommand B)) (n : ℕ)
      → r.highest_received ≡ some n
      → (make t r).highest_received_seq ≡ n
  make-receipt t r n q = elim (Option-cases (get_remote_seq_state r)) [
    | inl e ↦ absurd (none_ne_some (sym (no_receipt r e) ∙ q))
    | inr (s, e) ↦ (make-IsRestored t r s e).receipt ∙ seq_state-receipt r s e ∙ ap or_zero q
  ]

  -- What writing the receipt and a reply leaves
  pub persist_remote_command-receipt :
      (base : B) (exempt : Bool) (ack : Option ℕ) (h : RemoteHandle B)
      → (persist_remote_command base exempt ack h).1.rows.highest_received ≡ h.rows.highest_received
  unfolding persist_remote_command
  persist_remote_command-receipt base exempt ack h =
      elim (persist_in-cases (send_window (persist_acknowledged h)) base exempt ack
        (persist_acknowledged h)) [
          | inl (free, full, e) ↦ rw e (persist_acknowledged-receipt h).1
          | inr (fits, e) ↦ rw e (
              (write_command-receipt _ (persist_acknowledged h)).1
              ∙ (persist_acknowledged-receipt h).1)
        ]
