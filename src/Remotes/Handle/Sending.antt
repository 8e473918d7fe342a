-- ===== src/Remotes/Handle/Sending.antt =====
-- Numbering an outgoing message and writing it down, inside the crank that makes it
-- (packages/ocap-kernel/src/remotes/kernel/RemoteHandle.ts).
use ocap_kernel.Exec.{queue_full, err, ◌>>=◌, ok, pure, Exec}
use ocap_kernel.Remotes.Handle.State.{
  count_pending, max_pending_messages, has_pending, get_ack_value, RemoteHandle, RemoteCommand,
  send_window, PersistedCommand, SeqWindow, stored_seq_window,
}
use ocap_kernel.Prelude.{false, leb, none, ◌&&◌, not, some, if◌then◌else◌, ◌+◌, Option, Bool, ℕ}
use ocap_kernel.Remotes.Handle.Rows.{
  set_remote_next_send_seq, set_remote_start_seq, set_pending_message,
}
use ocap_kernel.Remotes.Handle.Acks.{persist_acknowledged}

module _ {B : Type 0} where
  -- The message with its number, and the receipt it carries
  abbrev pub command_at : ℕ → Option ℕ → B → RemoteCommand B
  command_at seq ack base = record { seq = seq; ack = ack; base = base }

  -- `setPendingMessage`, the start of a queue that was empty, and `setRemoteNextSendSeq`
  unfoldable pub write_command : RemoteCommand B → RemoteHandle B → RemoteHandle B
  unfolding stored_seq_window
  write_command m h =
      let written : RemoteHandle B = record h { rows = set_pending_message m.seq m h.rows } in
      let started =
        if has_pending (stored_seq_window written)
        then written.rows
        else set_remote_start_seq m.seq written.rows in
      record h { rows = set_remote_next_send_seq m.seq started }

  -- `#persistRemoteCommand` once acknowledgements are written, with the window that numbers the message
  unfoldable pub persist_in :
      SeqWindow → B → Bool → Option ℕ → Exec (RemoteHandle B) (PersistedCommand B)
  unfolding write_command
  persist_in w base exempt ack h =
      let m = command_at (w.next_send_seq + 1) ack base in
      if not exempt && leb max_pending_messages (count_pending w) then (err queue_full, h) else (
        ok (record { seq = w.next_send_seq + 1; message = m; was_empty = not (has_pending w) }),
        write_command m h,
      )

  -- `#persistRemoteCommand`
  unfoldable pub persist_remote_command :
      B → Bool → Option ℕ → Exec (RemoteHandle B) (PersistedCommand B)
  unfolding persist_acknowledged send_window persist_in
  persist_remote_command base exempt ack h =
      let h' = persist_acknowledged h in persist_in (send_window h') base exempt ack h'

  -- `#deliverToPeer`: what it returns is what the crank's `afterCommit` transmits.
  unfoldable pub deliver_to_peer : B → Bool → Exec (RemoteHandle B) (PersistedCommand B)
  unfolding persist_remote_command
  deliver_to_peer base exempt h = persist_remote_command base exempt (get_ack_value h) h

  abbrev pub some_command : PersistedCommand B → Exec (RemoteHandle B) (Option (PersistedCommand B))
  some_command p = pure (some p)

  -- `deliverBringOutYourDead`, given the delivery it makes: nothing is made when the peer asked for the
  -- reap, or when the queue is full.
  unfoldable pub deliver_bring_out_your_dead :
      B → Exec (RemoteHandle B) (Option (PersistedCommand B))
  unfolding persist_acknowledged send_window deliver_to_peer
  deliver_bring_out_your_dead base h =
      let h' = persist_acknowledged h in
      if h.remote_gc_requested
      then (ok none, record h { remote_gc_requested = false })
      else if leb max_pending_messages (count_pending (send_window h'))
      then (ok none, h')
      else (deliver_to_peer base false >>= some_command) h'
