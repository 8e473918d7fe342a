-- ===== src/Tests/Sessions.antt =====
-- The theorems on the handle of a remote, at short sessions.
use ocap_kernel.Remotes.Handle.Sessions.{
  opened, numbered, committed, later, no_rows, Reach, Session,
}
use ocap_kernel.Prelude.{
  ◌<◌, arith, nat_eq, refl, [], none, some, true, ◌≤◌, false, ℕ, ◌≡◌, ◌∷◌, ◌⊎◌,
}
use ocap_kernel.Remotes.Handle.Delivered.{
  make-resends_committed, persist_remote_command_fresh, IsAmong, send_at,
}
use ocap_kernel.Remotes.Handle.Deliveries.{bring_out_your_dead_delivery, deliver, RemoteMessageBase}
use ocap_kernel.Dict.{put, delete, get}
use ocap_kernel.Remotes.Handle.Transmit.{
  goes_out, transmit_remote_command, put_on_the_wire, flush_round, attach_transport, flush_loop,
  flush_transmit_queue,
}
use ocap_kernel.Remotes.Handle.Sending.{write_command, persist_in, persist_remote_command}
use ocap_kernel.Remotes.Handle.State.{
  Send, restore_persisted_state, PersistedCommand, send_window, count_pending, has_pending, make,
  RemoteCommand, RemoteHandle, max_pending_messages, new_handle, stored_seq_window,
}
use ocap_kernel.Remotes.Handle.Acks.{persist_acknowledged, handle_ack}
use ocap_kernel.Remotes.Handle.Windows.{persist_remote_command-outcome, IsIssued}
use ocap_kernel.Exec.{queue_full, err, ok}
use ocap_kernel.Remotes.Handle.Flushing.{flush_transmit_queue-sends, flush_transmit_queue-Settles}
use ocap_kernel.Remotes.Handle.Acknowledged.{handle_ack-retires}
use ocap_kernel.Remotes.Handle.Recovery.{make-resends}
use ocap_kernel.Remotes.Handle.Rounds.{IsSettledAt}
use ocap_kernel.Remotes.Handle.Rows.{get_remote_seq_state, RemoteRows}

-- A handle that has sent the message 3 and not yet 4 and 5
abbrev message_at : ℕ → RemoteCommand ℕ
message_at n = record { seq = n; ack = none; base = 7 }

abbrev busy_rows : RemoteRows (RemoteCommand ℕ)
busy_rows = record {
  next_send = some 5;
  highest_received = none;
  start = some 3;
  pending = (3, message_at 3) ∷ (4, message_at 4) ∷ (5, message_at 5) ∷ [];
}

abbrev busy : RemoteHandle ℕ
unfolding new_handle
busy = record (new_handle true busy_rows) {
  start_seq = 3;
  next_send_seq = 5;
  last_transmitted_seq = 3;
}

flush_transmit_queue-Settles_example :
    ((flush_transmit_queue busy).0 ≡ ok tt) × IsSettledAt (flush_transmit_queue busy).1
unfolding busy
flush_transmit_queue-Settles_example = flush_transmit_queue-Settles busy refl

flush_transmit_queue-sends_example :
    (flush_transmit_queue busy).1.outbound_chain
    ≡ send_at 0 4 (message_at 4) ∷ send_at 0 5 (message_at 5) ∷ []
unfolding flush_transmit_queue flush_loop flush_round put_on_the_wire get delete new_handle busy
flush_transmit_queue-sends_example = flush_transmit_queue-sends busy refl

-- An acknowledgement of more than was sent
handle_ack-retires_example :
    ((handle_ack 9 busy).0 ≡ ok tt)
    × ((handle_ack 9 busy).1.start_seq ≡ 6)
    × (get 4 (handle_ack 9 busy).1.rows.pending ≡ none)
    × (has_pending (stored_seq_window (handle_ack 9 busy).1) ≡ true
        → 6 ≤ (stored_seq_window (handle_ack 9 busy).1).start_seq)
unfolding stored_seq_window get_remote_seq_state new_handle busy
handle_ack-retires_example = handle_ack-retires 9 busy 4

persist_remote_command-outcome_example :
    ((false ≡ false)
      × (max_pending_messages ≤ count_pending (send_window (persist_acknowledged busy)))
      × (persist_remote_command 8 false none busy ≡ (err queue_full, persist_acknowledged busy)))
    ⊎ ((p : PersistedCommand ℕ) × ((persist_remote_command 8 false none busy).0 ≡ ok p)
        × IsIssued 8 false none busy p (persist_remote_command 8 false none busy).1)
persist_remote_command-outcome_example = persist_remote_command-outcome 8 false none busy

make-resends_example :
    (attach_transport (make false busy_rows)).1.outbound_chain
    ≡ send_at 0 3 (message_at 3) ∷ send_at 0 4 (message_at 4) ∷ send_at 0 5 (message_at 5) ∷ []
unfolding get get_remote_seq_state
make-resends_example =
    make-resends busy_rows (record { next_send_seq = 5; highest_received_seq = 0; start_seq = 3 })
      resumed (omega arith)
  where
    resumed :
        get_remote_seq_state busy_rows
        ≡ some (record { next_send_seq = 5; highest_received_seq = 0; start_seq = 3 })
    resumed = refl

-- A new remote whose first message is numbered, committed and handed over
abbrev new_session : Session
new_session = record { handle = make false no_rows; committed = no_rows }

-- The first message
abbrev first_base : RemoteMessageBase
first_base = deliver bring_out_your_dead_delivery

abbrev first_rows : RemoteRows (RemoteCommand RemoteMessageBase)
first_rows = record {
  next_send = some 1;
  highest_received = none;
  start = some 1;
  pending = (1, record { seq = 1; ack = none; base = first_base }) ∷ [];
}

abbrev first_command : PersistedCommand RemoteMessageBase
first_command = record {
  seq = 1;
  message = record { seq = 1; ack = none; base = first_base };
  was_empty = true;
}

abbrev numbered_session : Session
numbered_session = record {
  handle = (persist_remote_command first_base false none (make false no_rows)).1;
  committed = no_rows;
}

abbrev committed_session : Session
committed_session = record numbered_session { committed = numbered_session.handle.rows }

numbered_session-Reach : Reach numbered_session
numbered_session-Reach = later (opened false) (numbered first_base false none)

committed_session-Reach : Reach committed_session
committed_session-Reach = later numbered_session-Reach committed

persist_remote_command_fresh_example :
    (new_session.handle.last_transmitted_seq < 1)
    × ((x : Send RemoteMessageBase)
        → IsAmong x new_session.handle.outbound_chain
        → goes_out x new_session.handle ≡ true
        → x.seq < 1)
unfolding persist_remote_command persist_acknowledged persist_in send_window stored_seq_window
    get_remote_seq_state make restore_persisted_state new_handle get
persist_remote_command_fresh_example =
    persist_remote_command_fresh new_session first_base false none first_command (opened false) refl

make-resends_committed_example :
    IsAmong
      (send_at 0 1 first_command.message)
      (attach_transport (make false committed_session.committed)).1.outbound_chain
unfolding persist_remote_command persist_acknowledged persist_in send_window stored_seq_window
    get_remote_seq_state make restore_persisted_state new_handle write_command get put delete
make-resends_committed_example =
    make-resends_committed committed_session 1 first_command.message committed_session-Reach refl
      (omega arith) (omega arith) (omega arith)

abbrev sent_session : Session
sent_session = record numbered_session {
  handle = (transmit_remote_command first_command (attach_transport numbered_session.handle).1).1;
}
