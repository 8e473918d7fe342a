-- ===== src/Remotes/Handle/Transmit.antt =====
-- Handing messages to the transport in the order of their numbers, and again when they are not
-- acknowledged (packages/ocap-kernel/src/remotes/kernel/RemoteHandle.ts). What a send comes to is an
-- argument: the transport is not this component's.
use ocap_kernel.Remotes.Handle.Acks.{
  greater, reject_pending_redemptions, give_up, reject_all_pending,
}
use ocap_kernel.Remotes.Handle.State.{
  max_retries, seq_window, get_ack_value, has_pending, clear_ack_timeout, RemoteCommand,
  start_ack_timeout, PersistedCommand, RemoteHandle, Send,
}
use ocap_kernel.Prelude.{
  leb, zero, [], length, suc, ◌&&◌, ltb, nat_eq, not, some, true, ◌++◌, ◌-◌, ◌==◌, ◌||◌, ◌∷◌, Bool,
  false, if◌then◌else◌, none, ◌+◌, List, Option, ℕ,
}
use ocap_kernel.Remotes.Handle.Rows.{get_pending_message}
use ocap_kernel.Dict.{delete, get, is_some, put}
use ocap_kernel.Exec.{Result, ok, out_of_fuel, err, Exec}

-- What `sendRemoteMessage` comes to; the last is an error that is neither of the two before it.
pub data SendOutcome : Type 0 where
  sent peer_restarted terminal send_failed : SendOutcome

-- What `#handleAckTimeout` decides
pub data TimeoutOutcome : Type 0 where
  unneeded gave_up retransmits : TimeoutOutcome

module _ {B : Type 0} where
  -- `#sendInOrder`, up to the turn of the message
  abbrev pub send_in_order : ℕ → RemoteCommand B → RemoteHandle B → RemoteHandle B
  send_in_order seq m h = record h {
    outbound_chain =
        h.outbound_chain ++ (record { queue = h.outbound_queue_id; seq = seq; message = m } ∷ []);
  }

  -- The callback of `#sendInOrder`: whether a message whose turn it is goes to the transport
  abbrev pub goes_out : Send B → RemoteHandle B → Bool
  goes_out s h = (s.queue == h.outbound_queue_id) && not h.held_for_restart

  -- What follows a terminal verdict of the transport
  unfoldable pub abandon : RemoteHandle B → RemoteHandle B
  unfolding reject_all_pending
  abandon h = reject_pending_redemptions (reject_all_pending (clear_ack_timeout h))

  -- The `catch` of `#putOnTheWire`
  abbrev pub after_send : SendOutcome → RemoteHandle B → RemoteHandle B
  after_send terminal h = abandon h
  after_send _ h = h

  abbrev pub next_turn :
      List (Send B) → SendOutcome → RemoteHandle B → Option (Send B) × RemoteHandle B
  next_turn [] o h = (none, h)
  next_turn (s ∷ rest) o h =
      let h' : RemoteHandle B = record h { outbound_chain = rest } in
      if goes_out s h then (some s, after_send o h') else (none, h')

  -- The next turn in `#outboundChain`: the message handed to the transport, if one is.
  unfoldable pub take_turn : SendOutcome → RemoteHandle B → Option (Send B) × RemoteHandle B
  take_turn o h = next_turn h.outbound_chain o h

  -- The counters that `#putOnTheWire` moves
  abbrev pub count_sent : PersistedCommand B → RemoteHandle B → RemoteHandle B
  count_sent p h = record h {
    start_seq = if p.was_empty then p.seq else h.start_seq;
    next_send_seq = if ltb h.next_send_seq p.seq then p.seq else h.next_send_seq;
    needs_hinting = false;
    delayed_ack = false;
  }

  abbrev pub ensure_ack_timeout : RemoteHandle B → RemoteHandle B
  ensure_ack_timeout h = if h.ack_timeout then h else start_ack_timeout h

  -- `#putOnTheWire`
  unfoldable pub put_on_the_wire : PersistedCommand B → RemoteHandle B → RemoteHandle B
  put_on_the_wire p h = send_in_order p.seq p.message (ensure_ack_timeout (count_sent p h))

  -- `held?.wasEmpty ?? false`
  abbrev pub was_empty_of : Option (PersistedCommand B) → Bool
  was_empty_of none = false
  was_empty_of (some p) = p.was_empty

  -- The end of a round of `#flushTransmitQueue`, on the row of the message. `true` is `continue`.
  abbrev pub flush_row :
      ℕ
      → Option (PersistedCommand B)
      → Option (RemoteCommand B)
      → RemoteHandle B
      → Bool × RemoteHandle B
  flush_row next held none h =
      if is_some held then (false, h) else (true, record h { last_transmitted_seq = next })
  flush_row next held (some m) h = (
    true,
    put_on_the_wire (record { seq = next; message = m; was_empty = was_empty_of held })
        (record h { last_transmitted_seq = next }),
  )

  -- A round of `#flushTransmitQueue`
  unfoldable pub flush_round : RemoteHandle B → Bool × RemoteHandle B
  unfolding put_on_the_wire
  flush_round h =
      let next = h.last_transmitted_seq + 1 in
      let held = get next h.awaiting_transmit in
      let h' : RemoteHandle B = record h { awaiting_transmit = delete next h.awaiting_transmit } in
      if ltb next h.start_seq
      then (true, record h' { last_transmitted_seq = next })
      else if not (is_some held) && ltb h.next_send_seq next
      then (false, h)
      else flush_row next held (get_pending_message next h.rows) h'

  abbrev pub continue_with :
      Exec (RemoteHandle B) (Unit {0}) → Bool × RemoteHandle B → Result (Unit {0}) × RemoteHandle B
  continue_with rest (true, h) = rest h
  continue_with rest (false, h) = (ok tt, h)

  -- The `for` loop of `#flushTransmitQueue`, on fuel
  unfoldable pub flush_loop : ℕ → Exec (RemoteHandle B) (Unit {0})
  unfolding flush_round
  flush_loop zero h = (err out_of_fuel, h)
  flush_loop (suc n) h = let rest = flush_loop n in continue_with rest (flush_round h)

  -- The numbers up to the last one issued, the messages that wait, and the round that stops
  abbrev pub flush_fuel : RemoteHandle B → ℕ
  flush_fuel h =
      greater h.start_seq h.next_send_seq - h.last_transmitted_seq + length h.awaiting_transmit + 1

  -- `#flushTransmitQueue`
  unfoldable pub flush_transmit_queue : Exec (RemoteHandle B) (Unit {0})
  unfolding flush_loop
  flush_transmit_queue h =
      let flushed = flush_loop (flush_fuel h) h in if h.has_transport then flushed else (ok tt, h)

  -- `#transmitRemoteCommand`
  unfoldable pub transmit_remote_command : PersistedCommand B → Exec (RemoteHandle B) (Unit {0})
  unfolding flush_transmit_queue
  transmit_remote_command p h =
      flush_transmit_queue (record h { awaiting_transmit = put p.seq p h.awaiting_transmit })

  -- `attachTransport`
  unfoldable pub attach_transport : Exec (RemoteHandle B) (Unit {0})
  unfolding flush_transmit_queue
  attach_transport h = flush_transmit_queue (start_ack_timeout (record h { has_transport = true }))

  -- `#handleAckTimeout`, up to the retransmission it starts
  unfoldable pub handle_ack_timeout : RemoteHandle B → TimeoutOutcome × RemoteHandle B
  unfolding give_up
  handle_ack_timeout h =
      let h' : RemoteHandle B = record h { ack_timeout = false } in
      if not (has_pending (seq_window h)) || h.held_for_restart
      then (unneeded, h')
      else if leb max_retries h.retry_count
      then (gave_up, give_up h')
      else (retransmits, record h' { retry_count = h.retry_count + 1 })

  -- `#sendStandaloneAck`: the receipt it sends, if it sends one
  abbrev pub send_standalone_ack : RemoteHandle B → Option ℕ
  send_standalone_ack h =
      if h.held_for_restart || not h.has_transport then none else get_ack_value h
