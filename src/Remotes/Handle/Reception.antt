-- ===== src/Remotes/Handle/Reception.antt =====
-- What a handle takes from its peer, redeems, reaps and cleans up keeps its numbers in order.
use ocap_kernel.Remotes.Handle.Restarts.{HoldWindow-stored, stored-HoldWindow}
use ocap_kernel.Remotes.Handle.Runs.{transmit_remote_command-IsNumbered}
use ocap_kernel.Remotes.Handle.Numbered.{
  handle_ack-IsNumbered, moved-IsNumbered, persist_acknowledged-IsNumbered,
  persist_remote_command-IsNumbered, rows-IsNumbered, IsNumbered,
}
use ocap_kernel.Prelude.{
  nat_eq, if◌then◌else◌, ◌+◌, ◌∷◌, none, refl, some, suc, sym, zero, false, true, leb, ◌≡◌, ◌⊎◌,
  Bool, Option, ℕ,
}
use ocap_kernel.Exec.{◌>>=◌, ◌>>◌, err, modify, ok, pure, resume, Exec, Result}
use ocap_kernel.Refs.{EndpointId, KRef}
use ocap_kernel.Remotes.Handle.Acks.{cleanup, handle_ack, persist_acknowledged}
use ocap_kernel.Remotes.Handle.Deliveries.{
  answers_request, completes_reply, nothing_deferred, redeem_url, redeem_url_reply,
  DeferredCompletion, RemoteMessageBase, RemoteSide,
}
use ocap_kernel.Remotes.Handle.Inbound.{
  after_commit, complete_redemption, deliver_inbound, finish_receipt, forget_failed, offer, remove,
  some_reply, persist_redeem_url_reply, receive_from_peer, receive_inbound, record_receipt,
  redeem_ocap_url, some_after, what_follows, write_receipt, AfterCommit,
}
use ocap_kernel.Remotes.Handle.Rows.{set_remote_highest_received_seq}
use ocap_kernel.Remotes.Handle.Sending.{
  deliver_bring_out_your_dead, deliver_to_peer, persist_remote_command, some_command,
}
use ocap_kernel.Remotes.Handle.State.{
  get_ack_value, start_delayed_ack, PersistedCommand, RemoteCommand, RemoteHandle,
}
use ocap_kernel.Remotes.Handle.Transmit.{transmit_remote_command}
use mathlib.Core.Path.{subst}
use Prim.Native.String.{String}

module _ {B : Type 0} where
  -- What a handle goes on with keeps the order, whether or not it is come to.
  resume-IsNumbered :
      {A C : Type 0} (r : Result A) (f : A → RemoteHandle B → Result C × RemoteHandle B)
      (h : RemoteHandle B)
      → ((a : A) → IsNumbered (f a h).1)
      → IsNumbered h
      → IsNumbered (resume r f h).1
  resume-IsNumbered (ok a) f h n i = n a
  resume-IsNumbered (err e) f h n i = i

  bind-IsNumbered :
      {A C : Type 0} (m : Exec (RemoteHandle B) A) (f : A → Exec (RemoteHandle B) C)
      (h : RemoteHandle B)
      → ((a : A) (t : RemoteHandle B) → IsNumbered t → IsNumbered (f a t).1)
      → IsNumbered (m h).1
      → IsNumbered ((m >>= f) h).1
  bind-IsNumbered m f h n i = resume-IsNumbered (m h).0 f (m h).1 (λ a. n a (m h).1 i) i

  if-IsNumbered :
      {A : Type 0} (b : Bool) (x y : Result A × RemoteHandle B)
      → IsNumbered x.1
      → IsNumbered y.1
      → IsNumbered (if b then x else y).1
  if-IsNumbered true x y i j = i
  if-IsNumbered false x y i j = j

  pub cleanup-IsNumbered : (h : RemoteHandle B) → IsNumbered h → IsNumbered (cleanup h)
  unfolding cleanup
  cleanup-IsNumbered h i = moved-IsNumbered h (cleanup h) refl i.window i.sent_below i.waiting i

  pub deliver_bring_out_your_dead-IsNumbered :
      (base : B) (h : RemoteHandle B)
      → IsNumbered h
      → IsNumbered (deliver_bring_out_your_dead base h).1
  unfolding deliver_bring_out_your_dead deliver_to_peer
  deliver_bring_out_your_dead-IsNumbered base h i =
      if-IsNumbered h.remote_gc_requested _ _
        (moved-IsNumbered h (record h { remote_gc_requested = false }) refl i.window i.sent_below
          i.waiting i)
        (if-IsNumbered _ _ _ (persist_acknowledged-IsNumbered h i) (
          bind-IsNumbered (deliver_to_peer base false) some_command (persist_acknowledged h)
            (λ p t j. j)
            (persist_remote_command-IsNumbered base false (get_ack_value (persist_acknowledged h))
              (persist_acknowledged h) (persist_acknowledged-IsNumbered h i))))

abbrev Peered : Type 0
Peered = RemoteHandle RemoteMessageBase

record_receipt-IsNumbered :
    (seq : ℕ) (h : Peered) → IsNumbered h → IsNumbered (record_receipt seq h)
unfolding record_receipt
record_receipt-IsNumbered seq h i =
    let r = set_remote_highest_received_seq seq h.rows in
    persist_acknowledged-IsNumbered (record h { rows = r })
      (rows-IsNumbered h r
        (stored-HoldWindow (record h { rows = r }) (HoldWindow-stored h i.stored)) i)

persist_redeem_url_reply-IsNumbered :
    (d : DeferredCompletion) (seq : ℕ) (h : Peered)
    → IsNumbered h
    → IsNumbered (persist_redeem_url_reply d seq h).1
unfolding persist_redeem_url_reply
persist_redeem_url_reply-IsNumbered nothing_deferred seq h i = i
persist_redeem_url_reply-IsNumbered (answers_request key success v) seq h i =
    bind-IsNumbered (persist_remote_command (redeem_url_reply success key v) true (some seq))
      some_reply h (λ p t j. j)
      (persist_remote_command-IsNumbered (redeem_url_reply success key v) true (some seq) h i)
persist_redeem_url_reply-IsNumbered (completes_reply key) seq h i = i

what_follows-handle :
    (c : RemoteCommand RemoteMessageBase) (d : DeferredCompletion)
    (r : Result (Option (PersistedCommand RemoteMessageBase))) (x : RemoteSide)
    → (resume r (what_follows c d) x).1.handle ≡ x.handle
what_follows-handle c d (ok reply) x = refl
what_follows-handle c d (err e) x = refl

write_receipt-IsNumbered :
    (c : RemoteCommand RemoteMessageBase) (d : DeferredCompletion) (x : RemoteSide)
    → IsNumbered x.handle
    → IsNumbered (write_receipt c d x).1.handle
unfolding write_receipt
write_receipt-IsNumbered c d x i = subst IsNumbered (sym (what_follows-handle c d _ _)) (
    persist_redeem_url_reply-IsNumbered d c.seq (record_receipt c.seq x.handle)
      (record_receipt-IsNumbered c.seq x.handle i))

after_process-IsNumbered :
    (c : RemoteCommand RemoteMessageBase) (r : Result DeferredCompletion) (x : RemoteSide)
    → IsNumbered x.handle
    → IsNumbered (resume r (write_receipt c) x).1.handle
after_process-IsNumbered c (ok d) x i = write_receipt-IsNumbered c d x i
after_process-IsNumbered c (err e) x i = i

receive_inbound-IsNumbered :
    (redeem : String → KRef ⊎ String) (e : EndpointId) (c : RemoteCommand RemoteMessageBase)
    (x : RemoteSide)
    → IsNumbered x.handle
    → IsNumbered (receive_inbound redeem e c x).1.handle
unfolding receive_inbound
receive_inbound-IsNumbered redeem e c x i = after_process-IsNumbered c _ _ i

some_after-handle :
    (r : Result AfterCommit) (x : RemoteSide) → (resume r some_after x).1.handle ≡ x.handle
some_after-handle (ok a) x = refl
some_after-handle (err e) x = refl

if-handle-IsNumbered :
    {A : Type 0} (b : Bool) (x y : Result A × RemoteSide)
    → IsNumbered x.1.handle
    → IsNumbered y.1.handle
    → IsNumbered (if b then x else y).1.handle
if-handle-IsNumbered true x y i j = i
if-handle-IsNumbered false x y i j = j

pub deliver_inbound-IsNumbered :
    (redeem : String → KRef ⊎ String) (e : EndpointId) (c : RemoteCommand RemoteMessageBase)
    (x : RemoteSide)
    → IsNumbered x.handle
    → IsNumbered (deliver_inbound redeem e c x).1.handle
unfolding deliver_inbound
deliver_inbound-IsNumbered redeem e c x i =
    if-handle-IsNumbered (leb c.seq x.handle.highest_received_seq) _ _
      (persist_acknowledged-IsNumbered x.handle i)
      (subst IsNumbered
        (sym (some_after-handle (receive_inbound redeem e c x).0 (receive_inbound redeem e c x).1))
        (receive_inbound-IsNumbered redeem e c x i))

complete_redemption-IsNumbered :
    (d : DeferredCompletion) (h : Peered) → IsNumbered h → IsNumbered (complete_redemption d h)
unfolding complete_redemption
complete_redemption-IsNumbered nothing_deferred h i = i
complete_redemption-IsNumbered (answers_request key success v) h i = i
complete_redemption-IsNumbered (completes_reply key) h i =
    moved-IsNumbered h (complete_redemption (completes_reply key) h) refl i.window i.sent_below
      i.waiting i

finish_receipt-IsNumbered :
    (reply : Option (PersistedCommand RemoteMessageBase)) (d : DeferredCompletion) (h : Peered)
    → IsNumbered h
    → IsNumbered (finish_receipt reply d h).1
finish_receipt-IsNumbered none d h i = complete_redemption-IsNumbered d h i
finish_receipt-IsNumbered (some p) d h i = transmit_remote_command-IsNumbered p h i

delayed-IsNumbered : (h : Peered) → IsNumbered h → IsNumbered (start_delayed_ack h)
delayed-IsNumbered h i =
    moved-IsNumbered h (start_delayed_ack h) refl i.window i.sent_below i.waiting i

pub after_commit-IsNumbered :
    (a : AfterCommit) (h : Peered) → IsNumbered h → IsNumbered (after_commit a h).1
unfolding after_commit
after_commit-IsNumbered a h i =
    let h' : Peered = record h {
      highest_received_seq = a.seq;
      remote_gc_requested = if a.asked_reap then true else h.remote_gc_requested;
    } in
    bind-IsNumbered (finish_receipt a.reply a.completion) (λ u. modify start_delayed_ack) h'
      (λ u. delayed-IsNumbered)
      (finish_receipt-IsNumbered a.reply a.completion h'
        (moved-IsNumbered h h' refl i.window i.sent_below i.waiting i))

offer-IsNumbered : (n : ℕ) (h : Peered) → IsNumbered h → IsNumbered (offer n h).1
unfolding offer
offer-IsNumbered zero h i = i
offer-IsNumbered (suc n) h i = i

pub receive_from_peer-IsNumbered :
    (ack seq : Option ℕ) (h : Peered) → IsNumbered h → IsNumbered (receive_from_peer ack seq h).1
unfolding receive_from_peer
receive_from_peer-IsNumbered none seq h i = offer-IsNumbered _ _ (delayed-IsNumbered h i)
receive_from_peer-IsNumbered (some ack) none h i =
    bind-IsNumbered (handle_ack ack) (λ u. pure none) h (λ u t j. j) (handle_ack-IsNumbered ack h i)
receive_from_peer-IsNumbered (some ack) (some seq) h i =
    bind-IsNumbered (handle_ack ack >> modify start_delayed_ack) (λ u. offer seq) h
      (λ u. offer-IsNumbered seq)
      (bind-IsNumbered (handle_ack ack) (λ u. modify start_delayed_ack) h (λ u. delayed-IsNumbered)
        (handle_ack-IsNumbered ack h i))

forget_failed-IsNumbered :
    (key : ℕ) (r : Result (Unit {0})) (h : Peered)
    → IsNumbered h
    → IsNumbered (forget_failed key (r, h)).1
forget_failed-IsNumbered key (ok u) h i = i
forget_failed-IsNumbered key (err e) h i =
    moved-IsNumbered h _ refl i.window i.sent_below i.waiting i

pub redeem_ocap_url-IsNumbered :
    (url : String) (h : Peered) → IsNumbered h → IsNumbered (redeem_ocap_url url h).1
unfolding redeem_ocap_url
redeem_ocap_url-IsNumbered url h i =
    let h' : Peered = record h {
      redemption_counter = h.redemption_counter + 1;
      pending_redemptions =
          h.redemption_counter ∷ remove h.redemption_counter h.pending_redemptions;
    } in
    let base = redeem_url url h.redemption_counter in
    if-IsNumbered h.held_for_restart _ _ i (
      forget_failed-IsNumbered h.redemption_counter _ _ (
        bind-IsNumbered (persist_remote_command base false (get_ack_value h))
          transmit_remote_command h' transmit_remote_command-IsNumbered
          (persist_remote_command-IsNumbered base false (get_ack_value h) h'
            (moved-IsNumbered h h' refl i.window i.sent_below i.waiting i))))
