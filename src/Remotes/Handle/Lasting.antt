-- ===== src/Remotes/Handle/Lasting.antt =====
-- What a session with the peer has taken lasts until the peer restarts.
use ocap_kernel.Dict.{is_some}
use ocap_kernel.Exec.{err, modify, ok, resume, Result}
use ocap_kernel.Kernel.State.{KernelQueue}
use ocap_kernel.Prelude.{
  arith, ap, inl, inr, leb, none, refl, some, sym, false, true, ◌∙◌, ◌≡◌, ◌≢◌, ◌≤◌, ◌<◌, ◌⊎◌, Bool,
  Bool-cases, Option, Option-cases, ℕ, if◌then◌else◌,
}
use ocap_kernel.Refs.{EndpointId, KRef}
use ocap_kernel.Remotes.Handle.Acks.{cleanup, hold_for_restart}
use ocap_kernel.Remotes.Handle.Deliveries.{
  answers_request, completes_reply, nothing_deferred, DeferredCompletion, RemoteMessageBase,
  RemoteSide,
}
use ocap_kernel.Remotes.Handle.Inbound.{
  after_commit, complete_redemption, deliver_inbound, finish_receipt, receive_inbound, some_after,
  AfterCommit,
}
use ocap_kernel.Remotes.Handle.Kept.{
  attach-HasTaken, bind-HasTaken, give_up-HasTaken, handle_ack-HasTaken,
  persist_acknowledged-HasTaken, persist_remote_command-HasTaken, same-HasTaken, transmit-HasTaken,
  HasTaken,
}
use ocap_kernel.Remotes.Handle.KeptTurns.{
  delayed-HasTaken, reap-HasTaken, receive-HasTaken, redeem-HasTaken, retransmit_pending-HasTaken,
  take_turn-HasTaken, timeout-HasTaken,
}
use ocap_kernel.Remotes.Handle.Receipts.{make-receipt}
use ocap_kernel.Remotes.Handle.Rows.{
  cleanup_orphan_messages, get_pending_message, get_remote_seq_state, RemoteRows,
}
use ocap_kernel.Remotes.Handle.Sessions.{
  acknowledged, acknowledged_alone, attached, cleaned_up, committed, followed, given_up, numbered,
  offered, peer_restart_finalized, peer_restart_persisted, put_on_hold, reaped, received, redeemed,
  redemption_forgotten, redemptions_rejected, released, restarted, retransmitted, rolled_back,
  timed_out, transmitted, turned, Session, Step,
}
use ocap_kernel.Remotes.Handle.State.{
  make, new_handle, recover_first, restore_persisted_state, restore_seq_state, start_delayed_ack,
  PersistedCommand, RemoteCommand, RemoteHandle,
}
use ocap_kernel.Remotes.Handle.Taken.{
  deliver_inbound-cases, deliver_inbound-IsTaken, deliver_inbound_again, none_not_taken,
}
use ocap_kernel.Store.Pinned.{or_zero}
use Prim.Native.String.{String}

-- No new session with the peer, and no delivery, which is in a run with all that follows it
abbrev stays : {s t : Session} → Step s t → Bool
stays (received redeem e c q) = false
stays (followed a) = false
stays released = false
stays (peer_restart_persisted h) = false
stays peer_restart_finalized = false
stays _ = true

abbrev pub facing : KernelQueue → Session → RemoteSide
facing q s = record { queue = q; handle = s.handle }

-- What a delivery comes to that was taken: its crank is committed, and what follows the commit is done.
abbrev pub taken_in : RemoteHandle RemoteMessageBase → AfterCommit → Session
taken_in h a = record { handle = (after_commit a h).1; committed = h.rows }

-- What a session comes to until the peer restarts: by deliveries, with all that follows them, and by the
-- other operations, commits, rollbacks and restarts of the kernel. A delivery that throws is undone by a
-- rollback.
pub data Run (s : Session) : Session → Type 0 where
  here : Run s s
  onward : {t u : Session} → Run s t → (x : Step t u) → stays x ≡ true → Run s u
  took :
      {t : Session} (a : AfterCommit) (redeem : String → KRef ⊎ String) (e : EndpointId)
      (c : RemoteCommand RemoteMessageBase) (q : KernelQueue)
      → Run s t
      → (deliver_inbound redeem e c (facing q t)).0 ≡ ok (some a)
      → Run s (taken_in (deliver_inbound redeem e c (facing q t)).1.handle a)
  repeated :
      {t : Session} (redeem : String → KRef ⊎ String) (e : EndpointId)
      (c : RemoteCommand RemoteMessageBase) (q : KernelQueue)
      → Run s t
      → (deliver_inbound redeem e c (facing q t)).0 ≡ ok none
      → Run s (record t { handle = (deliver_inbound redeem e c (facing q t)).1.handle })

make-row :
    (t : Bool) (r : RemoteRows (RemoteCommand RemoteMessageBase))
    → (make t r).rows.highest_received ≡ r.highest_received
unfolding make restore_persisted_state restore_seq_state new_handle cleanup_orphan_messages
make-row t r = elim (Option-cases (get_remote_seq_state r)) [
  | inl q ↦ rw q (recovered (is_some (get_pending_message 1 r)))
  | inr (s, q) ↦ rw q (ground arith)
]
  where
    recovered :
        (b : Bool) → (recover_first b (new_handle t r)).rows.highest_received ≡ r.highest_received
    recovered true = refl
    recovered false = refl

-- The session has taken a message with this number or a higher one, for good.
pub record Lasts (n : ℕ) (s : Session) : Type 0 where
  pub taken : HasTaken n s.handle
  kept : n ≤ or_zero s.committed.highest_received

make-HasTaken :
    (n : ℕ) (t : Bool) (r : RemoteRows (RemoteCommand RemoteMessageBase))
    → n ≤ or_zero r.highest_received
    → HasTaken n (make t r)
make-HasTaken n t r le = record {
  memory = elim (Option-cases r.highest_received) [
    | inl q ↦ ground (arith, le, q)
    | inr (m, q) ↦ rw (make-receipt t r m q) (ground (arith, le, q))
  ];
  row = rw (make-row t r) le;
}

Step-Lasts : {s t : Session} (n : ℕ) (x : Step s t) → stays x ≡ true → Lasts n s → Lasts n t
unfolding cleanup hold_for_restart
Step-Lasts {s} n (acknowledged ack) o l = record {
  taken = handle_ack-HasTaken n ack s.handle l.taken;
  kept = l.kept;
}
Step-Lasts {s} n (offered ack seq) o l = record {
  taken = receive-HasTaken n ack seq s.handle l.taken;
  kept = l.kept;
}
Step-Lasts {s} n (redeemed url) o l = record {
  taken = redeem-HasTaken n url s.handle l.taken;
  kept = l.kept;
}
Step-Lasts {s} n (redemption_forgotten key) o l = record {
  taken = same-HasTaken n s.handle _ refl refl l.taken;
  kept = l.kept;
}
Step-Lasts {s} n (numbered base exempt ack) o l = record {
  taken = persist_remote_command-HasTaken n base exempt ack s.handle l.taken;
  kept = l.kept;
}
Step-Lasts {s} n (reaped base) o l = record {
  taken = reap-HasTaken n base s.handle l.taken;
  kept = l.kept;
}
Step-Lasts {s} n (transmitted p) o l = record {
  taken = transmit-HasTaken n p s.handle l.taken;
  kept = l.kept;
}
Step-Lasts {s} n attached o l = record { taken = attach-HasTaken n s.handle l.taken; kept = l.kept }
Step-Lasts {s} n (turned p) o l = record {
  taken = take_turn-HasTaken n p s.handle l.taken;
  kept = l.kept;
}
Step-Lasts {s} n timed_out o l = record {
  taken = timeout-HasTaken n s.handle l.taken;
  kept = l.kept;
}
Step-Lasts {s} n acknowledged_alone o l = record {
  taken = same-HasTaken n s.handle _ refl refl l.taken;
  kept = l.kept;
}
Step-Lasts {s} n (retransmitted p) o l = record {
  taken = retransmit_pending-HasTaken n p s.handle l.taken;
  kept = l.kept;
}
Step-Lasts {s} n given_up o l = record {
  taken = give_up-HasTaken n s.handle l.taken;
  kept = l.kept;
}
Step-Lasts {s} n redemptions_rejected o l = record {
  taken = same-HasTaken n s.handle _ refl refl l.taken;
  kept = l.kept;
}
Step-Lasts {s} n cleaned_up o l = record {
  taken = same-HasTaken n s.handle _ refl refl l.taken;
  kept = l.kept;
}
Step-Lasts {s} n put_on_hold o l = record {
  taken = same-HasTaken n s.handle _ refl refl l.taken;
  kept = l.kept;
}
Step-Lasts {s} n committed o l = record { taken = l.taken; kept = l.taken.row }
Step-Lasts {s} n rolled_back o l = record {
  taken = record { memory = l.taken.memory; row = l.kept };
  kept = l.kept;
}
Step-Lasts {s} n (restarted t) o l = record {
  taken = make-HasTaken n t s.committed l.kept;
  kept = l.kept;
}
Step-Lasts {s} n (received redeem e c q) o l = cc
Step-Lasts {s} n (followed a) o l = cc
Step-Lasts {s} n released o l = cc
Step-Lasts {s} n (peer_restart_persisted h) o l = cc
Step-Lasts {s} n peer_restart_finalized o l = cc

complete-HasTaken :
    (n : ℕ) (d : DeferredCompletion) (h : RemoteHandle RemoteMessageBase)
    → HasTaken n h
    → HasTaken n (complete_redemption d h)
unfolding complete_redemption
complete-HasTaken n nothing_deferred h i = i
complete-HasTaken n (answers_request key success v) h i = i
complete-HasTaken n (completes_reply key) h i = same-HasTaken n h _ refl refl i

finish-HasTaken :
    (n : ℕ) (reply : Option (PersistedCommand RemoteMessageBase)) (d : DeferredCompletion)
    (h : RemoteHandle RemoteMessageBase)
    → HasTaken n h
    → HasTaken n (finish_receipt reply d h).1
finish-HasTaken n none d h i = complete-HasTaken n d h i
finish-HasTaken n (some p) d h i = transmit-HasTaken n p h i

after_commit-HasTaken :
    (n : ℕ) (a : AfterCommit) (h : RemoteHandle RemoteMessageBase)
    → n ≤ a.seq
    → n ≤ or_zero h.rows.highest_received
    → HasTaken n (after_commit a h).1
unfolding after_commit
after_commit-HasTaken n a h le row =
    let t : RemoteHandle RemoteMessageBase = record h {
      highest_received_seq = a.seq;
      remote_gc_requested = if a.asked_reap then true else h.remote_gc_requested;
    } in
    bind-HasTaken n (finish_receipt a.reply a.completion) (λ u. modify start_delayed_ack) t
      (λ u. delayed-HasTaken n)
      (finish-HasTaken n a.reply a.completion t (record { memory = le; row = row }))

module _ (redeem : String → KRef ⊎ String) (e : EndpointId) (c : RemoteCommand RemoteMessageBase)
    (q : KernelQueue) where
  -- What is taken is new.
  taken-new :
      (s : Session) (a : AfterCommit)
      → (deliver_inbound redeem e c (facing q s)).0 ≡ ok (some a)
      → s.handle.highest_received_seq < c.seq
  taken-new s a h = elim (Bool-cases (leb c.seq s.handle.highest_received_seq)) [
    | inl b ↦
        let d = deliver_inbound_again redeem e c q s.handle (ground (arith, b)) in
        absurd (none_not_taken (sym (ap (λ p. p.0) d) ∙ h))
    | inr b ↦ ground (arith, b)
  ]

  pub taken_in-Lasts :
      (n : ℕ) (s : Session) (a : AfterCommit)
      → (deliver_inbound redeem e c (facing q s)).0 ≡ ok (some a)
      → n ≤ c.seq
      → Lasts n (taken_in (deliver_inbound redeem e c (facing q s)).1.handle a)
  taken_in-Lasts n s a h le =
      let (row, seq) = deliver_inbound-IsTaken redeem e c (facing q s) a h in
      let r : n ≤ or_zero (deliver_inbound redeem e c (facing q s)).1.handle.rows.highest_received =
        rw (row) le in
      record {
        taken =
            after_commit-HasTaken n a (deliver_inbound redeem e c (facing q s)).1.handle
              (rw (seq) le) r;
        kept = r;
      }

  not_repeated : (r : Result AfterCommit) (x : RemoteSide) → (resume r some_after x).0 ≢ ok none
  not_repeated (ok a) x h = cc
  not_repeated (err m) x h = cc

  repeated-HasTaken :
      (n : ℕ) (s : Session)
      → (deliver_inbound redeem e c (facing q s)).0 ≡ ok none
      → HasTaken n s.handle
      → HasTaken n (deliver_inbound redeem e c (facing q s)).1.handle
  repeated-HasTaken n s h i = elim (deliver_inbound-cases redeem e c (facing q s)) [
    | inl d ↦ rw d (persist_acknowledged-HasTaken n s.handle i)
    | inr d ↦ absurd (
        not_repeated (receive_inbound redeem e c (facing q s)).0
          (receive_inbound redeem e c (facing q s)).1 (sym (ap (λ p. p.0) d) ∙ h))
  ]

pub Run-Lasts : {s t : Session} (n : ℕ) → Run s t → Lasts n s → Lasts n t
Run-Lasts n here l = l
Run-Lasts n (onward r x o) l = Step-Lasts n x o (Run-Lasts n r l)
Run-Lasts n (took {t} a redeem e c q r h) l =
    let k = Run-Lasts n r l in
    taken_in-Lasts redeem e c q n t a h
      (omega (arith, taken-new redeem e c q t a h, k.taken.memory))
Run-Lasts n (repeated {t} redeem e c q r h) l =
    let k = Run-Lasts n r l in
    record { taken = repeated-HasTaken redeem e c q n t h k.taken; kept = k.kept }
