-- ===== src/Remotes/Handle/KeptTurns.antt =====
-- Turns, timers, reaps and redemptions leave what was received as it is.
use ocap_kernel.Remotes.Handle.Kept.{
  abandon-HasTaken, bind-HasTaken, give_up-HasTaken, handle_ack-HasTaken, if-HasTaken,
  persist_acknowledged-HasTaken, persist_remote_command-HasTaken, same-HasTaken, transmit-HasTaken,
  HasTaken,
}
use ocap_kernel.Exec.{◌>>◌, err, modify, ok, pure, Result}
use ocap_kernel.Prelude.{
  nat_eq, ◌+◌, ◌∷◌, [], inl, inr, none, refl, some, suc, zero, false, List, Option, ℕ,
}
use ocap_kernel.Remotes.Handle.Acks.{handle_ack, persist_acknowledged}
use ocap_kernel.Remotes.Handle.Deliveries.{redeem_url, RemoteMessageBase}
use ocap_kernel.Remotes.Handle.Inbound.{
  forget_failed, offer, receive_from_peer, redeem_ocap_url, remove,
}
use ocap_kernel.Remotes.Handle.Retransmit.{
  after_resend, resend_row, retransmit_loop, retransmit_pending, Sent,
}
use ocap_kernel.Remotes.Handle.Rows.{get_pending_message}
use ocap_kernel.Remotes.Handle.Sending.{
  deliver_bring_out_your_dead, deliver_to_peer, persist_remote_command, some_command,
}
use ocap_kernel.Remotes.Handle.State.{
  get_ack_value, start_delayed_ack, RemoteCommand, RemoteHandle, Send,
}
use ocap_kernel.Remotes.Handle.Steps.{handle_ack_timeout-cases}
use ocap_kernel.Remotes.Handle.Transmit.{
  after_send, goes_out, handle_ack_timeout, next_turn, peer_restarted, send_failed, sent, take_turn,
  terminal, transmit_remote_command, SendOutcome,
}
use Prim.Native.String.{String}

module _ {B : Type 0} where
  after_send-HasTaken :
      (n : ℕ) (o : SendOutcome) (h : RemoteHandle B) → HasTaken n h → HasTaken n (after_send o h)
  after_send-HasTaken n sent h i = i
  after_send-HasTaken n peer_restarted h i = i
  after_send-HasTaken n terminal h i = abandon-HasTaken n h i
  after_send-HasTaken n send_failed h i = i

  next_turn-HasTaken :
      (n : ℕ) (xs : List (Send B)) (o : SendOutcome) (h : RemoteHandle B)
      → HasTaken n h
      → HasTaken n (next_turn xs o h).1
  next_turn-HasTaken n [] o h i = i
  next_turn-HasTaken n (s ∷ rest) o h i =
      let t : RemoteHandle B = record h { outbound_chain = rest } in
      let u = same-HasTaken n h t refl refl i in
      if-HasTaken n (goes_out s h) _ _ (after_send-HasTaken n o t u) u

  pub take_turn-HasTaken :
      (n : ℕ) (o : SendOutcome) (h : RemoteHandle B) → HasTaken n h → HasTaken n (take_turn o h).1
  unfolding take_turn
  take_turn-HasTaken n o h i = next_turn-HasTaken n h.outbound_chain o h i

  pub timeout-HasTaken :
      (n : ℕ) (h : RemoteHandle B) → HasTaken n h → HasTaken n (handle_ack_timeout h).1
  timeout-HasTaken n h i = elim (handle_ack_timeout-cases h) [
    | inl e ↦ rw e (same-HasTaken n h _ refl refl i)
    | inr (inl e) ↦
        rw e
          (give_up-HasTaken n (record h { ack_timeout = false }) (same-HasTaken n h _ refl refl i))
    | inr (inr e) ↦ rw e (same-HasTaken n h _ refl refl i)
  ]

  resend-HasTaken :
      (n : ℕ) (o : SendOutcome) (rest : RemoteHandle B → Sent B × RemoteHandle B)
      (h : RemoteHandle B)
      → HasTaken n (rest h).1
      → HasTaken n h
      → HasTaken n (after_resend o rest h).1
  resend-HasTaken n sent rest h r i = r
  resend-HasTaken n peer_restarted rest h r i = same-HasTaken n h _ refl refl i
  resend-HasTaken n terminal rest h r i = abandon-HasTaken n h i
  resend-HasTaken n send_failed rest h r i = r

  row-HasTaken :
      (n : ℕ) (outcome : ℕ → SendOutcome) (seq : ℕ) (m : Option (RemoteCommand B))
      (rest : RemoteHandle B → Sent B × RemoteHandle B) (h : RemoteHandle B)
      → HasTaken n (rest h).1
      → HasTaken n h
      → HasTaken n (resend_row outcome seq m rest h).1
  row-HasTaken n outcome seq none rest h r i = r
  row-HasTaken n outcome seq (some m) rest h r i =
      if-HasTaken n h.held_for_restart _ _ r (resend-HasTaken n (outcome seq) rest h r i)

  loop-HasTaken :
      (n : ℕ) (outcome : ℕ → SendOutcome) (k seq : ℕ) (h : RemoteHandle B)
      → HasTaken n h
      → HasTaken n (retransmit_loop outcome k seq h).1
  unfolding retransmit_loop
  loop-HasTaken n outcome zero seq h i = same-HasTaken n h _ refl refl i
  loop-HasTaken n outcome (suc k) seq h i =
      row-HasTaken n outcome seq (get_pending_message seq h.rows) _ h
        (loop-HasTaken n outcome k (seq + 1) h i) i

  pub retransmit_pending-HasTaken :
      (n : ℕ) (outcome : ℕ → SendOutcome) (h : RemoteHandle B)
      → HasTaken n h
      → HasTaken n (retransmit_pending outcome h).1
  unfolding retransmit_pending
  retransmit_pending-HasTaken n outcome h i = loop-HasTaken n outcome _ h.start_seq h i

  pub reap-HasTaken :
      (n : ℕ) (base : B) (h : RemoteHandle B)
      → HasTaken n h
      → HasTaken n (deliver_bring_out_your_dead base h).1
  unfolding deliver_bring_out_your_dead deliver_to_peer
  reap-HasTaken n base h i =
      let t = persist_acknowledged h in
      let u = persist_acknowledged-HasTaken n h i in
      if-HasTaken n h.remote_gc_requested _ _ (same-HasTaken n h _ refl refl i) (
        if-HasTaken n _ _ _ u (
          bind-HasTaken n (deliver_to_peer base false) some_command t (λ p t j. j)
            (persist_remote_command-HasTaken n base false (get_ack_value t) t u)))

abbrev Peered : Type 0
Peered = RemoteHandle RemoteMessageBase

offer-HasTaken : (n seq : ℕ) (h : Peered) → HasTaken n h → HasTaken n (offer seq h).1
unfolding offer
offer-HasTaken n zero h i = i
offer-HasTaken n (suc seq) h i = i

pub delayed-HasTaken : (n : ℕ) (h : Peered) → HasTaken n h → HasTaken n (start_delayed_ack h)
delayed-HasTaken n h i = same-HasTaken n h _ refl refl i

pub receive-HasTaken :
    (n : ℕ) (ack seq : Option ℕ) (h : Peered)
    → HasTaken n h
    → HasTaken n (receive_from_peer ack seq h).1
unfolding receive_from_peer
receive-HasTaken n none seq h i = offer-HasTaken n _ _ (delayed-HasTaken n h i)
receive-HasTaken n (some ack) none h i =
    bind-HasTaken n (handle_ack ack) (λ u. pure none) h (λ u t j. j) (handle_ack-HasTaken n ack h i)
receive-HasTaken n (some ack) (some seq) h i =
    bind-HasTaken n (handle_ack ack >> modify start_delayed_ack) (λ u. offer seq) h
      (λ u. offer-HasTaken n seq)
      (bind-HasTaken n (handle_ack ack) (λ u. modify start_delayed_ack) h (λ u. delayed-HasTaken n)
        (handle_ack-HasTaken n ack h i))

forget-HasTaken :
    (n key : ℕ) (r : Result (Unit {0})) (h : Peered)
    → HasTaken n h
    → HasTaken n (forget_failed key (r, h)).1
forget-HasTaken n key (ok u) h i = i
forget-HasTaken n key (err e) h i = same-HasTaken n h _ refl refl i

pub redeem-HasTaken :
    (n : ℕ) (url : String) (h : Peered) → HasTaken n h → HasTaken n (redeem_ocap_url url h).1
unfolding redeem_ocap_url
redeem-HasTaken n url h i =
    let key = h.redemption_counter in
    let t : Peered = record h {
      redemption_counter = key + 1;
      pending_redemptions = key ∷ remove key h.pending_redemptions;
    } in
    if-HasTaken n h.held_for_restart _ _ i (
      forget-HasTaken n key _ _ (
        bind-HasTaken n (persist_remote_command (redeem_url url key) false (get_ack_value h))
          transmit_remote_command t (transmit-HasTaken n)
          (persist_remote_command-HasTaken n (redeem_url url key) false (get_ack_value h) t
            (same-HasTaken n h t refl refl i))))
