-- ===== src/Remotes/Handle/Acks.antt =====
-- Taking acknowledgements, giving messages up, and starting a session over
-- (packages/ocap-kernel/src/remotes/kernel/RemoteHandle.ts). The promises of the pending redemptions
-- are their keys; what is told to a caller when one is rejected is not kept.
use ocap_kernel.Remotes.Handle.State.{
  RemoteCommand, start_ack_timeout, has_pending, count_pending, seq_window, clear_ack_timeout,
  clear_delayed_ack, RemoteHandle, SeqWindow, send_window, stored_seq_window,
}
use ocap_kernel.Prelude.{
  ◌||◌, nat_eq, not, some, zero, ◌&&◌, ◌-◌, ◌==◌, leb, ltb, suc, true, [], false, if◌then◌else◌,
  none, ◌+◌, Option, ℕ,
}
use ocap_kernel.Exec.{ok, out_of_fuel, err, Exec}
use ocap_kernel.Remotes.Handle.Rows.{
  set_remote_next_send_seq, delete_pending_message, RemoteRows, clear_remote_seq_state,
  set_remote_start_seq,
}

-- `Math.min`
abbrev pub lesser : ℕ → ℕ → ℕ
lesser a b = if leb a b then a else b

-- `Math.max`
abbrev pub greater : ℕ → ℕ → ℕ
greater a b = if leb a b then b else a

-- The `while` loop of `#handleAck`: where the queue starts after it. The first number is fuel.
unfoldable pub acknowledge : ℕ → ℕ → SeqWindow → Option ℕ
acknowledge zero ack w = none
acknowledge (suc n) ack w =
    let rest = acknowledge n ack (record w { start_seq = w.start_seq + 1 }) in
    if leb w.start_seq ack && has_pending w then rest else some w.start_seq

-- A round for each number up to the next one, and the round that stops
abbrev pub ack_fuel : SeqWindow → ℕ
ack_fuel w = w.next_send_seq + 2

module _ {M : Type 0} where
  -- The `for` loop of `#persistAcknowledged`, of as many rounds, from a number on
  unfoldable pub delete_pending_messages : ℕ → ℕ → RemoteRows M → RemoteRows M
  delete_pending_messages zero seq r = r
  delete_pending_messages (suc n) seq r =
      delete_pending_messages n (seq + 1) (delete_pending_message seq r)

-- How many rounds the loop of `#persistAcknowledged` has, from the stored start on
abbrev pub acked_count : SeqWindow → ℕ → ℕ
acked_count stored start = lesser (start - 1) stored.next_send_seq + 1 - stored.start_seq

module _ {B : Type 0} where
  -- The writes of `#persistAcknowledged` ahead of its loop
  abbrev pub raise_window : SeqWindow → RemoteHandle B → RemoteRows (RemoteCommand B)
  raise_window stored h =
      let moved = set_remote_start_seq h.start_seq h.rows in
      if ltb stored.next_send_seq (h.start_seq - 1)
      then set_remote_next_send_seq (h.start_seq - 1) moved
      else moved

  -- `#persistAcknowledged`
  unfoldable pub persist_acknowledged : RemoteHandle B → RemoteHandle B
  unfolding stored_seq_window
  persist_acknowledged h =
      let stored = stored_seq_window h in
      if not (has_pending stored) || leb h.start_seq stored.start_seq then h else (record h {
        rows =
            delete_pending_messages (acked_count stored h.start_seq) stored.start_seq
              (raise_window stored h);
      })

  -- The rest of `#handleAck`, after its loop
  unfoldable pub finish_ack : Option ℕ → Exec (RemoteHandle B) (Unit {0})
  unfolding persist_acknowledged
  finish_ack none h = (err out_of_fuel, h)
  finish_ack (some start) h = (
    ok tt,
    start_ack_timeout (
        persist_acknowledged (record h {
          start_seq = start;
          retry_count = if start == h.start_seq then h.retry_count else 0;
        })),
  )

  -- `#handleAck`
  unfoldable pub handle_ack : ℕ → Exec (RemoteHandle B) (Unit {0})
  unfolding acknowledge finish_ack
  handle_ack ack h = finish_ack (acknowledge (ack_fuel (seq_window h)) ack (seq_window h)) h

  -- `#rejectAllPending`
  unfoldable pub reject_all_pending : RemoteHandle B → RemoteHandle B
  unfolding send_window
  reject_all_pending h =
      let retired : RemoteHandle B = record h { outbound_queue_id = h.outbound_queue_id + 1 } in
      let w = send_window h in
      if count_pending w == 0 then retired else (record retired {
        start_seq = w.next_send_seq + 1;
        next_send_seq = w.next_send_seq;
        rows =
            set_remote_start_seq (w.next_send_seq + 1)
              (set_remote_next_send_seq w.next_send_seq h.rows);
        retry_count = 0;
      })

  -- `rejectPendingRedemptions`
  abbrev pub reject_pending_redemptions : RemoteHandle B → RemoteHandle B
  reject_pending_redemptions h = record h { pending_redemptions = [] }

  -- `giveUp`
  unfoldable pub give_up : RemoteHandle B → RemoteHandle B
  unfolding reject_all_pending
  give_up h = reject_pending_redemptions (reject_all_pending (clear_ack_timeout h))

  -- `cleanup`
  unfoldable pub cleanup : RemoteHandle B → RemoteHandle B
  cleanup h = reject_pending_redemptions (clear_delayed_ack (clear_ack_timeout h))

  -- `#resetSendState`
  unfoldable pub reset_send_state : RemoteHandle B → RemoteHandle B
  reset_send_state h = record h {
    next_send_seq = 0;
    start_seq = 0;
    last_transmitted_seq = 0;
    awaiting_transmit = [];
  }

  -- `#endHold`
  unfoldable pub end_hold : RemoteHandle B → RemoteHandle B
  end_hold h = record h {
    ack_timeout = false;
    delayed_ack = false;
    retry_count = 0;
    outbound_queue_id = h.outbound_queue_id + 1;
    held_for_restart = false;
    remote_gc_requested = false;
  }

  -- What `persistPeerRestart` does to the handle and to its rows
  unfoldable pub persist_peer_restart : RemoteHandle B → RemoteHandle B
  unfolding reset_send_state
  persist_peer_restart h = reset_send_state (record h { rows = clear_remote_seq_state h.rows })

  -- `holdForRestart`
  unfoldable pub hold_for_restart : RemoteHandle B → RemoteHandle B
  hold_for_restart h =
      clear_ack_timeout
        (record h { held_for_restart = true; outbound_queue_id = h.outbound_queue_id + 1 })

  -- `releaseRestartHold`
  unfoldable pub release_restart_hold : RemoteHandle B → RemoteHandle B
  unfolding end_hold reset_send_state
  release_restart_hold h =
      if h.held_for_restart
      then end_hold (record (reset_send_state h) { highest_received_seq = 0 })
      else h

  -- `finalizePeerRestart`
  unfoldable pub finalize_peer_restart : RemoteHandle B → RemoteHandle B
  unfolding end_hold
  finalize_peer_restart h =
      end_hold (reject_pending_redemptions (record h { highest_received_seq = 0 }))
