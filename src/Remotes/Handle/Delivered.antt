-- ===== src/Remotes/Handle/Delivered.antt =====
-- What the numbers of a handle promise over the life of its kernel: none is handed out twice, no
-- committed message is lost, and nothing given up is sent.
use ocap_kernel.Prelude.{
  ◌∷◌, ◌∙◌, refl, none, zero, inr, Option-cases, [], ap, suc, inl, nat_eq, arith, false, ◌+◌, some,
  sym, true, ◌<◌, not, ◌≤◌, ◌≢◌, Option, Bool, List, ℕ, ◌≡◌, ◌++◌, ◌==◌, Bool-cases,
}
use ocap_kernel.Remotes.Handle.Windows.{persist_remote_command-outcome}
use ocap_kernel.Remotes.Handle.Acks.{greater}
use ocap_kernel.Remotes.Handle.Numbered.{AreWaiting, IsNumbered}
use ocap_kernel.Remotes.Handle.Restarts.{seq_state-rows}
use ocap_kernel.Remotes.Handle.State.{make, PersistedCommand, RemoteCommand, Send, RemoteHandle}
use ocap_kernel.Remotes.Handle.Recovery.{make-resends}
use ocap_kernel.Remotes.Handle.Rounds.{send_of, sends_from}
use ocap_kernel.Remotes.Handle.Rows.{or_zero, get_remote_seq_state, RemoteRows}
use ocap_kernel.Remotes.Handle.Deliveries.{RemoteMessageBase}
use ocap_kernel.Remotes.Handle.Sessions.{Reach-IsOrderly, Reach, Session}
use ocap_kernel.Remotes.Handle.Transmit.{attach_transport, goes_out}
use ocap_kernel.Remotes.Handle.Sending.{persist_remote_command}
use ocap_kernel.Dict.{get}
use ocap_kernel.Exec.{err, Error, ok}
use mathlib.Core.Path.{subst}
use mathlib.Core.List.{append_assoc}

-- The list has the element.
abbrev pub IsAmong : {A : Type 0} → A → List A → Type 0
IsAmong {A} x xs = (front : List A) × (back : List A) × (xs ≡ front ++ (x ∷ back))

IsAmong-append : {A : Type 0} (x : A) (ys xs : List A) → IsAmong x xs → IsAmong x (ys ++ xs)
IsAmong-append x ys xs (front, back, q) =
    (ys ++ front, back, rw q (sym (append_assoc ys front (x ∷ back))))

same_seq : (a b : ℕ) → (a == b) ≡ true → a ≡ b
same_seq a b q = ground (arith, q)

pub ok_injective : {A : Type 0} {a b : A} → ok a ≡ ok b → a ≡ b
ok_injective q = cc

pub err_ne_ok : {A : Type 0} {a : A} {e : Error} → err e ≢ ok a
err_ne_ok q = cc

module _ {B : Type 0} where
  abbrev pub send_at : ℕ → ℕ → RemoteCommand B → Send B
  send_at queue seq m = record { queue = queue; seq = seq; message = m }

  sends_from-IsAmong :
      (queue : ℕ) (r : RemoteRows (RemoteCommand B)) (n seq i : ℕ) (m : RemoteCommand B)
      → get i r.pending ≡ some m
      → seq ≤ i
      → i < seq + n
      → IsAmong (send_at queue i m) (sends_from queue r seq n)
  sends_from-IsAmong queue r zero seq i m q le lt = absurd (omega arith)
  sends_from-IsAmong queue r (suc n) seq i m q le lt = elim (Bool-cases (seq == i)) [
    | inl e ↦ ([], sends_from queue r (seq + 1) n, rw (same_seq seq i e, q) refl)
    | inr e ↦
        IsAmong-append _ (send_of queue seq (get seq r.pending)) _
          (sends_from-IsAmong queue r n (seq + 1) i m q (ground (arith, e, le)) (omega (arith, lt)))
  ]

  AreWaiting-at :
      (live : Bool) (queue n : ℕ) (x : Send B) (front back : List (Send B))
      → AreWaiting live queue n (front ++ (x ∷ back))
      → (x.queue ≤ queue) × (live ≡ true → x.queue ≡ queue → x.seq ≤ n)
  AreWaiting-at live queue n x [] back w = (w.0, w.1)
  AreWaiting-at live queue n x (y ∷ front) back w = AreWaiting-at live queue n x front back w.2

  IsNumbered-at :
      (h : RemoteHandle B) (x : Send B)
      → IsNumbered h
      → IsAmong x h.outbound_chain
      → (x.queue ≤ h.outbound_queue_id)
        × (not h.held_for_restart ≡ true → x.queue ≡ h.outbound_queue_id → x.seq ≤ h.next_send_seq)
  IsNumbered-at h x i (front, back, q) =
      AreWaiting-at (not h.held_for_restart) h.outbound_queue_id h.next_send_seq x front back (
        subst (AreWaiting (not h.held_for_restart) h.outbound_queue_id h.next_send_seq) q i.waiting)

  issued_of :
      (base : B) (exempt : Bool) (ack : Option ℕ) (h : RemoteHandle B) (p : PersistedCommand B)
      → (persist_remote_command base exempt ack h).0 ≡ ok p
      → h.next_send_seq < p.seq
  issued_of base exempt ack h p q = elim (persist_remote_command-outcome base exempt ack h) [
    | inl (free, full, e) ↦ absurd (err_ne_ok (sym (ap (λ r. r.0) e) ∙ q))
    | inr (p', q', i) ↦ rw (ok_injective (sym q ∙ q')) i.fresh
  ]

  no_seq_state :
      (r : RemoteRows (RemoteCommand B)) → get_remote_seq_state r ≡ none → or_zero r.next_send ≡ 0
  unfolding get_remote_seq_state
  no_seq_state r q =
      ground
        (arith, q, Option-cases r.start, Option-cases r.next_send, Option-cases r.highest_received)

-- In every session that a handle can come to, the number that it gives a message is above the last
-- one handed over, and above that of every waiting message that can still go out.
pub persist_remote_command_fresh :
    (s : Session) (base : RemoteMessageBase) (exempt : Bool) (ack : Option ℕ)
    (p : PersistedCommand RemoteMessageBase)
    → Reach s
    → (persist_remote_command base exempt ack s.handle).0 ≡ ok p
    → (s.handle.last_transmitted_seq < p.seq)
      × ((x : Send RemoteMessageBase)
          → IsAmong x s.handle.outbound_chain
          → goes_out x s.handle ≡ true
          → x.seq < p.seq)
persist_remote_command_fresh s base exempt ack p r q = (
  omega (arith, issued_of base exempt ack s.handle p q, (Reach-IsOrderly r).numbered.sent_below),
  λ x among out. ground (
    arith,
    issued_of base exempt ack s.handle p q,
    IsNumbered-at s.handle x (Reach-IsOrderly r).numbered among,
    out,
  ),
)

-- In every session that a handle can come to, a message that is committed with a number in the stored
-- queue is handed over again once a kernel that died is restarted and has its transport.
pub make-resends_committed :
    (s : Session) (i : ℕ) (m : RemoteCommand RemoteMessageBase)
    → Reach s
    → get i s.committed.pending ≡ some m
    → 0 < i
    → or_zero s.committed.start ≤ i
    → i ≤ or_zero s.committed.next_send
    → IsAmong (send_at 0 i m) (attach_transport (make false s.committed)).1.outbound_chain
make-resends_committed s i m r q pos ge le =
    elim (Option-cases (get_remote_seq_state s.committed)) [
      | inl none_stored ↦ absurd (omega (arith, no_seq_state s.committed none_stored))
      | inr (st, stored) ↦
          rw
            (make-resends s.committed st stored (
              omega (
                arith,
                (seq_state-rows s.committed st stored).0,
                (seq_state-rows s.committed st stored).1,
                (Reach-IsOrderly r).holds,
              )))
            (sends_from-IsAmong 0 s.committed _ (greater 1 st.start_seq) i m q
              (ground (arith, pos, ge, (seq_state-rows s.committed st stored).1))
              (ground (arith, le, (seq_state-rows s.committed st stored).0)))
    ]
