-- ===== src/Remotes/Handle/Taken.antt =====
-- What taking a message of the peer writes down, and what follows its commit.
use ocap_kernel.Remotes.Handle.Receipts.{
  persist_remote_command-receipt, transmit-receipt, persist_acknowledged-receipt,
}
use ocap_kernel.Prelude.{
  arith, inr, leb, ap, refl, sym, ◌≤◌, inl, true, ◌≢◌, if◌then◌else◌, none, ◌∙◌, ◌≡◌, ◌⊎◌, Option,
  some, ℕ,
}
use ocap_kernel.Remotes.Handle.Delivered.{ok_injective, err_ne_ok}
use ocap_kernel.Remotes.Handle.Flushing.{if-true, if-cases}
use ocap_kernel.Remotes.Handle.State.{
  start_delayed_ack, PersistedCommand, RemoteHandle, RemoteCommand,
}
use ocap_kernel.Remotes.Handle.Deliveries.{
  nothing_deferred, redeem_url_reply, completes_reply, answers_request, DeferredCompletion,
  RemoteMessageBase, RemoteSide,
}
use ocap_kernel.Exec.{err, modify, resume, ok, Result}
use ocap_kernel.Kernel.State.{KernelQueue}
use ocap_kernel.Remotes.Handle.Acks.{persist_acknowledged}
use ocap_kernel.Remotes.Handle.Inbound.{
  some_after, what_follows, finish_receipt, AfterCommit, after_commit, complete_redemption,
  deliver_inbound, persist_redeem_url_reply, receive_inbound, record_receipt, write_receipt,
}
use ocap_kernel.Remotes.Handle.Rows.{set_remote_highest_received_seq}
use ocap_kernel.Refs.{EndpointId, KRef}
use Prim.Native.String.{String}

record_receipt-row :
    (seq : ℕ) (h : RemoteHandle RemoteMessageBase)
    → (record_receipt seq h).rows.highest_received ≡ some seq
unfolding record_receipt
record_receipt-row seq h =
    (persist_acknowledged-receipt
      (record h { rows = set_remote_highest_received_seq seq h.rows })).1

persist_redeem_url_reply-row :
    (d : DeferredCompletion) (seq : ℕ) (h : RemoteHandle RemoteMessageBase)
    → (persist_redeem_url_reply d seq h).1.rows.highest_received ≡ h.rows.highest_received
unfolding persist_redeem_url_reply
persist_redeem_url_reply-row nothing_deferred seq h = refl
persist_redeem_url_reply-row (answers_request key success v) seq h =
    persist_remote_command-receipt (redeem_url_reply success key v) true (some seq) h
persist_redeem_url_reply-row (completes_reply key) seq h = refl

-- The message was taken: its number is in the rows, and in what follows the commit.
record IsTaken (seq : ℕ) (r : Result AfterCommit) (h : RemoteHandle RemoteMessageBase)
    : Type 0 where
  row : (a : AfterCommit) → r ≡ ok a → h.rows.highest_received ≡ some seq
  number : (a : AfterCommit) → r ≡ ok a → a.seq ≡ seq

what_follows-IsTaken :
    (c : RemoteCommand RemoteMessageBase) (d : DeferredCompletion)
    (r : Result (Option (PersistedCommand RemoteMessageBase))) (x : RemoteSide)
    → x.handle.rows.highest_received ≡ some c.seq
    → IsTaken c.seq (resume r (what_follows c d) x).0 (resume r (what_follows c d) x).1.handle
what_follows-IsTaken c d (ok reply) x q = record {
  row = λ a e. q;
  number = λ a e. ap (λ b. b.seq) (sym (ok_injective e));
}
what_follows-IsTaken c d (err e) x q = record {
  row = λ a e'. q;
  number = λ a e'. absurd (err_ne_ok e');
}

write_receipt-IsTaken :
    (c : RemoteCommand RemoteMessageBase) (d : DeferredCompletion) (x : RemoteSide)
    → IsTaken c.seq (write_receipt c d x).0 (write_receipt c d x).1.handle
unfolding write_receipt
write_receipt-IsTaken c d x = what_follows-IsTaken c d _ _ (
    persist_redeem_url_reply-row d c.seq (record_receipt c.seq x.handle)
    ∙ record_receipt-row c.seq x.handle)

resume-IsTaken :
    (c : RemoteCommand RemoteMessageBase) (r : Result DeferredCompletion) (x : RemoteSide)
    → IsTaken c.seq (resume r (write_receipt c) x).0 (resume r (write_receipt c) x).1.handle
resume-IsTaken c (ok d) x = write_receipt-IsTaken c d x
resume-IsTaken c (err e) x = record {
  row = λ a e'. absurd (err_ne_ok e');
  number = λ a e'. absurd (err_ne_ok e');
}

receive_inbound-IsTaken :
    (redeem : String → KRef ⊎ String) (e : EndpointId) (c : RemoteCommand RemoteMessageBase)
    (x : RemoteSide)
    → IsTaken c.seq (receive_inbound redeem e c x).0 (receive_inbound redeem e c x).1.handle
unfolding receive_inbound
receive_inbound-IsTaken redeem e c x = resume-IsTaken c _ _

complete_redemption-receipt :
    (d : DeferredCompletion) (h : RemoteHandle RemoteMessageBase)
    → (complete_redemption d h).highest_received_seq ≡ h.highest_received_seq
unfolding complete_redemption
complete_redemption-receipt nothing_deferred h = refl
complete_redemption-receipt (answers_request key success v) h = refl
complete_redemption-receipt (completes_reply key) h = refl

finish_receipt-receipt :
    (reply : Option (PersistedCommand RemoteMessageBase)) (d : DeferredCompletion)
    (h : RemoteHandle RemoteMessageBase)
    → ((finish_receipt reply d h).0 ≡ ok tt)
      × ((finish_receipt reply d h).1.highest_received_seq ≡ h.highest_received_seq)
finish_receipt-receipt none d h = (refl, complete_redemption-receipt d h)
finish_receipt-receipt (some p) d h = transmit-receipt p h

armed-receipt :
    (r : Result (Unit {0})) (h : RemoteHandle RemoteMessageBase)
    → r ≡ ok tt
    → ((resume r (λ _. modify start_delayed_ack) h).0 ≡ ok tt)
      × ((resume r (λ _. modify start_delayed_ack) h).1.highest_received_seq
          ≡ h.highest_received_seq)
armed-receipt (ok u) h q = (refl, refl)
armed-receipt (err e) h q = absurd (err_ne_ok q)

-- The handle as it follows a commit, before anything is sent
abbrev received : AfterCommit → RemoteHandle RemoteMessageBase → RemoteHandle RemoteMessageBase
received a h = record h {
  highest_received_seq = a.seq;
  remote_gc_requested = if a.asked_reap then true else h.remote_gc_requested;
}

pub after_commit-receipt :
    (a : AfterCommit) (h : RemoteHandle RemoteMessageBase)
    → ((after_commit a h).0 ≡ ok tt) × ((after_commit a h).1.highest_received_seq ≡ a.seq)
unfolding after_commit
after_commit-receipt a h =
    let f = finish_receipt-receipt a.reply a.completion (received a h) in
    let g =
      armed-receipt (finish_receipt a.reply a.completion (received a h)).0
        (finish_receipt a.reply a.completion (received a h)).1 f.0 in
    (g.0, g.1 ∙ f.1)

pub deliver_inbound_again :
    (redeem : String → KRef ⊎ String) (e : EndpointId) (c : RemoteCommand RemoteMessageBase)
    (q : KernelQueue) (h : RemoteHandle RemoteMessageBase)
    → c.seq ≤ h.highest_received_seq
    → deliver_inbound redeem e c (record { queue = q; handle = h })
      ≡ (ok none, record { queue = q; handle = persist_acknowledged h })
unfolding deliver_inbound
deliver_inbound_again redeem e c q h le =
    if-true _ _ (leb c.seq h.highest_received_seq) (ground (arith, le))

pub deliver_inbound-cases :
    (redeem : String → KRef ⊎ String) (e : EndpointId) (c : RemoteCommand RemoteMessageBase)
    (x : RemoteSide)
    → (deliver_inbound redeem e c x
        ≡ (ok none, record x { handle = persist_acknowledged x.handle }))
      ⊎ (deliver_inbound redeem e c x
          ≡ resume (receive_inbound redeem e c x).0 some_after (receive_inbound redeem e c x).1)
unfolding deliver_inbound
deliver_inbound-cases redeem e c x = if-cases _ _ (leb c.seq x.handle.highest_received_seq)

pub none_not_taken : {a : AfterCommit} → ok none ≢ ok (some a)
none_not_taken q = cc

some_injective : {A : Type 0} {a b : A} → some a ≡ some b → a ≡ b
some_injective q = cc

some_after-IsTaken :
    (seq : ℕ) (r : Result AfterCommit) (x : RemoteSide) (a : AfterCommit)
    → IsTaken seq r x.handle
    → (resume r some_after x).0 ≡ ok (some a)
    → ((resume r some_after x).1.handle.rows.highest_received ≡ some seq) × (a.seq ≡ seq)
some_after-IsTaken seq (ok b) x a i q =
    (i.row b refl, ap (λ b. b.seq) (sym (some_injective (ok_injective q))) ∙ i.number b refl)
some_after-IsTaken seq (err e) x a i q = absurd (err_ne_ok q)

pub deliver_inbound-IsTaken :
    (redeem : String → KRef ⊎ String) (e : EndpointId) (c : RemoteCommand RemoteMessageBase)
    (x : RemoteSide) (a : AfterCommit)
    → (deliver_inbound redeem e c x).0 ≡ ok (some a)
    → ((deliver_inbound redeem e c x).1.handle.rows.highest_received ≡ some c.seq) × (a.seq ≡ c.seq)
deliver_inbound-IsTaken redeem e c x a q = elim (deliver_inbound-cases redeem e c x) [
  | inl e' ↦ absurd (none_not_taken (sym (ap (λ r. r.0) e') ∙ q))
  | inr e' ↦ rw e' (
      some_after-IsTaken c.seq (receive_inbound redeem e c x).0 (receive_inbound redeem e c x).1 a
        (receive_inbound-IsTaken redeem e c x) (sym (ap (λ r. r.0) e') ∙ q))
]
