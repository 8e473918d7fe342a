-- ===== src/Remotes/Handle/Steps.antt =====
-- The turns, the timer, retransmission and the holds of a restart keep the numbers in order.
use ocap_kernel.Remotes.Handle.Restarts.{stored-HoldWindow}
use ocap_kernel.Remotes.Handle.Runs.{after_send-IsNumbered, give_up-IsNumbered, abandon-IsNumbered}
use ocap_kernel.Remotes.Handle.Numbered.{
  AreWaiting-held, rows-IsNumbered, AreWaiting-retired, AreWaiting, moved-IsNumbered,
  timer-IsNumbered, IsNumbered,
}
use ocap_kernel.Prelude.{
  arith, none, sym, [], Bool-cases, ◌∷◌, refl, not, inr, some, inl, ◌+◌, ◌⊎◌, List, false, true,
  ◌≡◌, zero, Option, suc, ℕ,
}
use ocap_kernel.Remotes.Handle.Acks.{
  end_hold, reject_pending_redemptions, reset_send_state, finalize_peer_restart,
  persist_peer_restart, release_restart_hold, hold_for_restart, give_up,
}
use ocap_kernel.Remotes.Handle.Rows.{clear_remote_seq_state, get_pending_message}
use ocap_kernel.Remotes.Handle.Flushing.{if-false, if-true, if_twice-cases}
use ocap_kernel.Remotes.Handle.Transmit.{
  unneeded, goes_out, send_failed, terminal, next_turn, peer_restarted, retransmits, sent, gave_up,
  SendOutcome, handle_ack_timeout, take_turn,
}
use mathlib.Core.Path.{subst}
use ocap_kernel.Remotes.Handle.Retransmit.{
  after_resend, resend_row, Sent, retransmit_pending, retransmit_loop,
}
use ocap_kernel.Remotes.Handle.State.{Send, RemoteCommand, RemoteHandle}

module _ {B : Type 0} where
  next_turn-IsNumbered :
      (xs : List (Send B)) (o : SendOutcome) (h : RemoteHandle B)
      → AreWaiting (not h.held_for_restart) h.outbound_queue_id h.next_send_seq xs
      → IsNumbered h
      → IsNumbered (next_turn xs o h).1
  next_turn-IsNumbered [] o h w i = i
  next_turn-IsNumbered (s ∷ rest) o h w i = elim (Bool-cases (goes_out s h)) [
    | inl q ↦ rw q (after_send-IsNumbered o (record h { outbound_chain = rest }) shorter)
    | inr q ↦ rw q shorter
  ]
    where
      shorter : IsNumbered (record h { outbound_chain = rest })
      shorter =
          moved-IsNumbered h (record h { outbound_chain = rest }) refl i.window i.sent_below w.2 i

  pub take_turn-IsNumbered :
      (o : SendOutcome) (h : RemoteHandle B) → IsNumbered h → IsNumbered (take_turn o h).1
  unfolding take_turn
  take_turn-IsNumbered o h i = next_turn-IsNumbered h.outbound_chain o h i.waiting i

  after_resend-IsNumbered :
      (o : SendOutcome) (rest : RemoteHandle B → Sent B × RemoteHandle B) (h : RemoteHandle B)
      → IsNumbered (rest h).1
      → IsNumbered h
      → IsNumbered (after_resend o rest h).1
  after_resend-IsNumbered sent rest h r i = r
  after_resend-IsNumbered peer_restarted rest h r i = timer-IsNumbered h i
  after_resend-IsNumbered terminal rest h r i = abandon-IsNumbered h i
  after_resend-IsNumbered send_failed rest h r i = r

  resend_row-IsNumbered :
      (outcome : ℕ → SendOutcome) (seq : ℕ) (m : Option (RemoteCommand B))
      (rest : RemoteHandle B → Sent B × RemoteHandle B) (h : RemoteHandle B)
      → IsNumbered (rest h).1
      → IsNumbered h
      → IsNumbered (resend_row outcome seq m rest h).1
  resend_row-IsNumbered outcome seq none rest h r i = r
  resend_row-IsNumbered outcome seq (some m) rest h r i = elim (Bool-cases h.held_for_restart) [
    | inl q ↦ resend_row_held q
    | inr q ↦ resend_row_sent q
  ]
    where
      resend_row_held :
          h.held_for_restart ≡ true → IsNumbered (resend_row outcome seq (some m) rest h).1
      resend_row_held q =
          subst (λ (r : Sent B × RemoteHandle B). IsNumbered r.1)
            (sym (if-true _ _ h.held_for_restart q)) r

      resend_row_sent :
          h.held_for_restart ≡ false → IsNumbered (resend_row outcome seq (some m) rest h).1
      resend_row_sent q =
          subst (λ (r : Sent B × RemoteHandle B). IsNumbered r.1)
            (sym (if-false _ _ h.held_for_restart q))
            (after_resend-IsNumbered (outcome seq) rest h r i)

  retransmit_loop-IsNumbered :
      (outcome : ℕ → SendOutcome) (n seq : ℕ) (h : RemoteHandle B)
      → IsNumbered h
      → IsNumbered (retransmit_loop outcome n seq h).1
  unfolding retransmit_loop
  retransmit_loop-IsNumbered outcome zero seq h i = timer-IsNumbered h i
  retransmit_loop-IsNumbered outcome (suc n) seq h i =
      resend_row-IsNumbered outcome seq (get_pending_message seq h.rows) _ h
        (retransmit_loop-IsNumbered outcome n (seq + 1) h i) i

  pub handle_ack_timeout-cases :
      (h : RemoteHandle B)
      → (handle_ack_timeout h ≡ (unneeded, record h { ack_timeout = false }))
        ⊎ ((handle_ack_timeout h ≡ (gave_up, give_up (record h { ack_timeout = false })))
            ⊎ (handle_ack_timeout h
                ≡ (retransmits, record h { ack_timeout = false; retry_count = h.retry_count + 1 })))
  unfolding handle_ack_timeout
  handle_ack_timeout-cases h = if_twice-cases _ _ _ _ _

  pub handle_ack_timeout-IsNumbered :
      (h : RemoteHandle B) → IsNumbered h → IsNumbered (handle_ack_timeout h).1
  handle_ack_timeout-IsNumbered h i = elim (handle_ack_timeout-cases h) [
    | inl e ↦ rw e timed
    | inr (inl e) ↦ rw e (give_up-IsNumbered (record h { ack_timeout = false }) timed)
    | inr (inr e) ↦ rw e (
        moved-IsNumbered (record h { ack_timeout = false })
          (record h { ack_timeout = false; retry_count = h.retry_count + 1 }) refl i.window
          i.sent_below i.waiting timed)
  ]
    where
      timed : IsNumbered (record h { ack_timeout = false })
      timed =
          moved-IsNumbered h (record h { ack_timeout = false }) refl i.window i.sent_below i.waiting
            i

  pub retransmit_pending-IsNumbered :
      (outcome : ℕ → SendOutcome) (h : RemoteHandle B)
      → IsNumbered h
      → IsNumbered (retransmit_pending outcome h).1
  unfolding retransmit_pending
  retransmit_pending-IsNumbered outcome h i = retransmit_loop-IsNumbered outcome _ h.start_seq h i

  pub hold_for_restart-IsNumbered :
      (h : RemoteHandle B) → IsNumbered h → IsNumbered (hold_for_restart h)
  unfolding hold_for_restart
  hold_for_restart-IsNumbered h i =
      moved-IsNumbered h (hold_for_restart h) refl i.window i.sent_below
        (AreWaiting-retired _ _ h.outbound_queue_id _ _ _ i.waiting) i

  end_hold-IsNumbered : (h : RemoteHandle B) → IsNumbered h → IsNumbered (end_hold h)
  unfolding end_hold
  end_hold-IsNumbered h i =
      moved-IsNumbered h (end_hold h) refl i.window i.sent_below
        (AreWaiting-retired _ _ h.outbound_queue_id _ _ _ i.waiting) i

  pub finalize_peer_restart-IsNumbered :
      (h : RemoteHandle B) → IsNumbered h → IsNumbered (finalize_peer_restart h)
  unfolding finalize_peer_restart
  finalize_peer_restart-IsNumbered h i =
      end_hold-IsNumbered t (moved-IsNumbered h t refl i.window i.sent_below i.waiting i)
    where
      t : RemoteHandle B
      t = reject_pending_redemptions (record h { highest_received_seq = 0 })

  reset_send_state-IsNumbered :
      (h : RemoteHandle B)
      → h.held_for_restart ≡ true
      → IsNumbered h
      → IsNumbered (reset_send_state h)
  unfolding reset_send_state
  reset_send_state-IsNumbered h q i =
      moved-IsNumbered h (reset_send_state h) refl (omega arith) (omega arith)
        (rw q (AreWaiting-held _ h.outbound_queue_id _ _ _ i.waiting)) i

  release_restart_hold-cases :
      (h : RemoteHandle B)
      → ((h.held_for_restart ≡ true)
          × (release_restart_hold h
              ≡ end_hold (record (reset_send_state h) { highest_received_seq = 0 })))
        ⊎ (release_restart_hold h ≡ h)
  unfolding release_restart_hold
  release_restart_hold-cases h = elim (Bool-cases h.held_for_restart) [
    | inl q ↦ inl (q, if-true _ _ h.held_for_restart q)
    | inr q ↦ inr (if-false _ _ h.held_for_restart q)
  ]

  pub release_restart_hold-IsNumbered :
      (h : RemoteHandle B) → IsNumbered h → IsNumbered (release_restart_hold h)
  release_restart_hold-IsNumbered h i = elim (release_restart_hold-cases h) [
    | inl (q, e) ↦ rw e (
        end_hold-IsNumbered (reset q) (
          moved-IsNumbered (reset_send_state h) (reset q) refl (u q).window (u q).sent_below
            (u q).waiting (u q)))
    | inr e ↦ rw e i
  ]
    where
      reset : h.held_for_restart ≡ true → RemoteHandle B
      reset q = record (reset_send_state h) { highest_received_seq = 0 }

      u : h.held_for_restart ≡ true → IsNumbered (reset_send_state h)
      u q = reset_send_state-IsNumbered h q i

  pub persist_peer_restart-IsNumbered :
      (h : RemoteHandle B)
      → h.held_for_restart ≡ true
      → IsNumbered h
      → IsNumbered (persist_peer_restart h)
  unfolding persist_peer_restart
  persist_peer_restart-IsNumbered h q i =
      reset_send_state-IsNumbered (record h { rows = clear_remote_seq_state h.rows }) q
        (rows-IsNumbered h (clear_remote_seq_state h.rows)
          (stored-HoldWindow (record h { rows = clear_remote_seq_state h.rows }) (omega arith)) i)
