-- ===== src/Remotes/Handle/Runs.antt =====
-- Every operation of a handle keeps its numbers in order.
use ocap_kernel.Remotes.Handle.Transmit.{
  send_failed, terminal, peer_restarted, sent, after_send, SendOutcome, abandon, attach_transport,
  transmit_remote_command, flush_fuel, flush_transmit_queue, put_on_the_wire, flush_loop,
  flush_round,
}
use ocap_kernel.Remotes.Handle.Acks.{reject_pending_redemptions, reject_all_pending, give_up}
use ocap_kernel.Remotes.Handle.Numbered.{
  reject_all_pending-IsNumbered, AreWaiting-append, moved-IsNumbered, AreWaiting-later, AreWaiting,
  IsWindow, IsNumbered,
}
use ocap_kernel.Dict.{put, get}
use ocap_kernel.Prelude.{
  true, refl, Bool, not, none, some, nat_eq, ◌+◌, Option-cases, arith, zero, inr, ◌++◌, ◌≡◌,
  Bool-cases, inl, ◌≤◌, List, suc, Option, ℕ,
}
use ocap_kernel.Remotes.Handle.State.{
  clear_ack_timeout, PersistedCommand, start_ack_timeout, Send, seq_window, RemoteCommand,
  RemoteHandle,
}
use mathlib.Core.List.{append-nil}
use ocap_kernel.Remotes.Handle.Rounds.{flush_round-IsStop, send_of, flush_round-IsRound}
use ocap_kernel.Remotes.Handle.Flushing.{flush_loop-cases, flush_transmit_queue-cases}

module _ {B : Type 0} where
  flush_round-IsWindow :
      (h : RemoteHandle B)
      → IsNumbered h
      → IsWindow (seq_window (flush_round h).1)
        × ((flush_round h).1.last_transmitted_seq ≤ (flush_round h).1.next_send_seq)
        × (h.next_send_seq ≤ (flush_round h).1.next_send_seq)
        × ((flush_round h).1.rows ≡ h.rows)
        × ((flush_round h).1.outbound_queue_id ≡ h.outbound_queue_id)
        × ((flush_round h).1.held_for_restart ≡ h.held_for_restart)
  unfolding flush_round put_on_the_wire
  flush_round-IsWindow h i = ground (
    arith,
    i.window,
    i.sent_below,
    Option-cases (get (h.last_transmitted_seq + 1) h.rows.pending),
    Option-cases (get (h.last_transmitted_seq + 1) h.awaiting_transmit),
  )

  AreWaiting-send_of :
      (live : Bool) (queue n seq : ℕ) (m : Option (RemoteCommand B)) (xs : List (Send B))
      → AreWaiting live queue n xs
      → seq ≤ n
      → AreWaiting live queue n (xs ++ send_of queue seq m)
  AreWaiting-send_of live queue n seq none xs w le = rw (append-nil xs) w
  AreWaiting-send_of live queue n seq (some m) xs w le =
      AreWaiting-append live queue n seq m xs w le

  flush_round-AreWaiting :
      (h : RemoteHandle B)
      → IsNumbered h
      → AreWaiting
          (not h.held_for_restart)
          h.outbound_queue_id
          (flush_round h).1.next_send_seq
          (flush_round h).1.outbound_chain
  flush_round-AreWaiting h i = elim (Bool-cases (flush_round h).0) [
    | inl q ↦ elim (flush_round-IsRound h q).owed [
      | inl (lt, same, e) ↦ rw e kept
      | inr (ge, ge', e) ↦ rw e (
          AreWaiting-send_of _ h.outbound_queue_id _ _ _ _ kept
            (omega (arith, (flush_round-IsWindow h i).1, (flush_round-IsRound h q).advanced)))
    ]
    | inr q ↦ rw (flush_round-IsStop h q).chain_kept kept
  ]
    where
      kept :
          AreWaiting
            (not h.held_for_restart)
            h.outbound_queue_id
            (flush_round h).1.next_send_seq
            h.outbound_chain
      kept = AreWaiting-later _ _ _ _ _ (flush_round-IsWindow h i).2 i.waiting

  flush_round-IsNumbered : (h : RemoteHandle B) → IsNumbered h → IsNumbered (flush_round h).1
  flush_round-IsNumbered h i =
      moved-IsNumbered h (flush_round h).1 (flush_round-IsWindow h i).3 (flush_round-IsWindow h i).0
        (flush_round-IsWindow h i).1
        (rw ((flush_round-IsWindow h i).4, (flush_round-IsWindow h i).5)
          (flush_round-AreWaiting h i))
        i

  flush_loop-IsNumbered :
      (n : ℕ) (h : RemoteHandle B) → IsNumbered h → IsNumbered (flush_loop n h).1
  unfolding flush_loop
  flush_loop-IsNumbered zero h i = i
  flush_loop-IsNumbered (suc n) h i = elim (flush_loop-cases n h) [
    | inl (q, e) ↦ rw e (flush_loop-IsNumbered n (flush_round h).1 (flush_round-IsNumbered h i))
    | inr (q, e) ↦ rw e (flush_round-IsNumbered h i)
  ]

  flush_transmit_queue-IsNumbered :
      (h : RemoteHandle B) → IsNumbered h → IsNumbered (flush_transmit_queue h).1
  flush_transmit_queue-IsNumbered h i = elim (flush_transmit_queue-cases h) [
    | inl e ↦ rw e (flush_loop-IsNumbered (flush_fuel h) h i)
    | inr e ↦ rw e i
  ]

  pub transmit_remote_command-IsNumbered :
      (p : PersistedCommand B) (h : RemoteHandle B)
      → IsNumbered h
      → IsNumbered (transmit_remote_command p h).1
  unfolding transmit_remote_command
  transmit_remote_command-IsNumbered p h i =
      flush_transmit_queue-IsNumbered
        (record h { awaiting_transmit = put p.seq p h.awaiting_transmit })
        (moved-IsNumbered h (record h { awaiting_transmit = put p.seq p h.awaiting_transmit }) refl
          i.window i.sent_below i.waiting i)

  pub attach_transport-IsNumbered :
      (h : RemoteHandle B) → IsNumbered h → IsNumbered (attach_transport h).1
  unfolding attach_transport
  attach_transport-IsNumbered h i =
      flush_transmit_queue-IsNumbered (start_ack_timeout (record h { has_transport = true })) (
        moved-IsNumbered h (start_ack_timeout (record h { has_transport = true })) refl i.window
          i.sent_below i.waiting i)

  pub give_up-IsNumbered : (h : RemoteHandle B) → IsNumbered h → IsNumbered (give_up h)
  unfolding give_up
  give_up-IsNumbered h i =
      moved-IsNumbered t (reject_pending_redemptions t) refl ti.window ti.sent_below ti.waiting ti
    where
      t : RemoteHandle B
      t = reject_all_pending (clear_ack_timeout h)

      ti : IsNumbered t
      ti =
          reject_all_pending-IsNumbered (clear_ack_timeout h)
            (moved-IsNumbered h (clear_ack_timeout h) refl i.window i.sent_below i.waiting i)

  pub abandon-give_up : (h : RemoteHandle B) → abandon h ≡ give_up h
  unfolding abandon give_up
  abandon-give_up h = refl

  pub abandon-IsNumbered : (h : RemoteHandle B) → IsNumbered h → IsNumbered (abandon h)
  abandon-IsNumbered h i = rw (abandon-give_up h) (give_up-IsNumbered h i)

  pub after_send-IsNumbered :
      (o : SendOutcome) (h : RemoteHandle B) → IsNumbered h → IsNumbered (after_send o h)
  after_send-IsNumbered sent h i = i
  after_send-IsNumbered peer_restarted h i = i
  after_send-IsNumbered terminal h i = abandon-IsNumbered h i
  after_send-IsNumbered send_failed h i = i
