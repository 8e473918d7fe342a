-- ===== src/Remotes/Handle/Windows.antt =====
-- The numbers that outgoing messages are given, and how many can be pending.
use ocap_kernel.Remotes.Handle.Acknowledged.{
  persist_acknowledged-IsCaughtUp, IsCaughtUp, within, stored-next, stored-start, window-ext,
}
use ocap_kernel.Remotes.Handle.Acks.{persist_acknowledged}
use ocap_kernel.Prelude.{
  ap, ◌∙◌, true, inl, leb, Bool-cases, inr, not, ◌+◌, ◌<◌, ◌⊎◌, false, ℕ, Option, nat_eq, Bool,
  some, ◌≤◌, refl, arith, if◌then◌else◌, ◌≡◌,
}
use ocap_kernel.Remotes.Handle.Sending.{
  persist_remote_command, command_at, persist_in, write_command,
}
use ocap_kernel.Remotes.Handle.State.{
  seq_window, PersistedCommand, count_pending, max_pending_messages, SeqWindow, send_window,
  has_pending, RemoteHandle, RemoteCommand, stored_seq_window,
}
use ocap_kernel.Exec.{ok, queue_full, err}
use ocap_kernel.Dict.{get-put_self, get}
use ocap_kernel.Remotes.Handle.Rows.{get_remote_seq_state}

module _ {B : Type 0} where
  pub write_command-window :
      (m : RemoteCommand B) (h : RemoteHandle B)
      → stored_seq_window (write_command m h) ≡ record {
        start_seq =
            if has_pending (stored_seq_window h) then (stored_seq_window h).start_seq else m.seq;
        next_send_seq = m.seq;
      }
  unfolding write_command stored_seq_window get_remote_seq_state
  write_command-window m h = window-ext (ground (arith, stored-start h, stored-next h)) refl

  pub send_window-next :
      (h : RemoteHandle B)
      → (h.next_send_seq ≤ (send_window h).next_send_seq)
        × ((stored_seq_window h).next_send_seq ≤ (send_window h).next_send_seq)
  unfolding send_window
  send_window-next h = ground arith

  pub send_window-cases :
      (h : RemoteHandle B)
      → (((stored_seq_window h).next_send_seq < h.next_send_seq) × (send_window h ≡ seq_window h))
        ⊎ ((h.next_send_seq ≤ (stored_seq_window h).next_send_seq)
            × (send_window h ≡ stored_seq_window h))
  unfolding send_window
  send_window-cases h = ground arith

  pub send_window-stored :
      (h : RemoteHandle B)
      → h.next_send_seq ≤ (stored_seq_window h).next_send_seq
      → send_window h ≡ stored_seq_window h
  unfolding send_window
  send_window-stored h le = ground arith

  write_command-memory :
      (m : RemoteCommand B) (h : RemoteHandle B)
      → (write_command m h).next_send_seq ≡ h.next_send_seq
  unfolding write_command
  write_command-memory m h = refl

  get-write_command :
      (m : RemoteCommand B) (h : RemoteHandle B)
      → get m.seq (write_command m h).rows.pending ≡ some m
  unfolding write_command
  get-write_command m h = ground (arith, get-put_self m.seq m h.rows.pending)

  -- The two outcomes of numbering a message, in the window that numbers it
  pub persist_in-cases :
      (w : SeqWindow) (base : B) (exempt : Bool) (ack : Option ℕ) (h : RemoteHandle B)
      → ((exempt ≡ false)
          × (max_pending_messages ≤ count_pending w)
          × (persist_in w base exempt ack h ≡ (err queue_full, h)))
        ⊎ (((exempt ≡ false) → count_pending w < max_pending_messages)
            × (persist_in w base exempt ack h ≡ (
              ok (record {
                seq = w.next_send_seq + 1;
                message = command_at (w.next_send_seq + 1) ack base;
                was_empty = not (has_pending w);
              }),
              write_command (command_at (w.next_send_seq + 1) ack base) h,
            )))
  unfolding persist_in
  persist_in-cases w base true ack h = inr (λ q. absurd (ground (arith, q)), refl)
  persist_in-cases w base false ack h =
      elim (Bool-cases (leb max_pending_messages (count_pending w))) [
        | inl q ↦ inl (refl, ground (arith, q), rw q refl)
        | inr q ↦ inr (λ _. ground (arith, q), rw q refl)
      ]

  -- A message with a number that neither memory nor the store has issued, written down inside the
  -- stored queue, which has room unless the message is exempt from the limit
  pub record IsIssued (base : B) (exempt : Bool) (ack : Option ℕ) (h : RemoteHandle B)
      (p : PersistedCommand B) (h' : RemoteHandle B) : Type 0 where
    pub fresh : h.next_send_seq < p.seq
    pub unstored : (stored_seq_window h).next_send_seq < p.seq
    pub carries : p.message ≡ command_at p.seq ack base
    pub written : get p.seq h'.rows.pending ≡ some p.message
    pub queued : within (stored_seq_window h') p.seq ≡ true
    pub room : exempt ≡ false → count_pending (send_window h') ≤ max_pending_messages

  -- The stored queue is the one that the next message is numbered from.
  send_window-write_command :
      (m : RemoteCommand B) (h : RemoteHandle B)
      → h.next_send_seq < m.seq
      → send_window (write_command m h) ≡ record {
        start_seq =
            if has_pending (stored_seq_window h) then (stored_seq_window h).start_seq else m.seq;
        next_send_seq = m.seq;
      }
  send_window-write_command m h lt =
      send_window-stored (write_command m h) (
        omega
          (arith, write_command-memory m h, ap (λ w. w.next_send_seq) (write_command-window m h)))
      ∙ write_command-window m h

  persist_in-IsIssued :
      (base : B) (ack : Option ℕ) (exempt : Bool) (h : RemoteHandle B)
      → ((exempt ≡ false) → count_pending (send_window h) < max_pending_messages)
      → (has_pending (stored_seq_window h) ≡ true → h.start_seq ≤ (stored_seq_window h).start_seq)
      → IsIssued base exempt ack h
          (record {
            seq = (send_window h).next_send_seq + 1;
            message = command_at ((send_window h).next_send_seq + 1) ack base;
            was_empty = not (has_pending (send_window h));
          })
          (write_command (command_at ((send_window h).next_send_seq + 1) ack base) h)
  persist_in-IsIssued base ack exempt h fits behind = record {
    fresh = omega (arith, send_window-next h);
    unstored = omega (arith, send_window-next h);
    carries = refl;
    written = get-write_command (command_at ((send_window h).next_send_seq + 1) ack base) h;
    queued =
        rw (write_command-window (command_at ((send_window h).next_send_seq + 1) ack base) h)
          (ground (arith, send_window-next h));
    room = λ q.
        rw
          (send_window-write_command (command_at ((send_window h).next_send_seq + 1) ack base) h
            (omega (arith, send_window-next h)))
          (ground (arith, fits q, behind, send_window-cases h));
  }

  IsIssued-before :
      (base : B) (exempt : Bool) (ack : Option ℕ) (h h' t : RemoteHandle B) (p : PersistedCommand B)
      → IsCaughtUp h h'
      → IsIssued base exempt ack h' p t
      → IsIssued base exempt ack h p t
  IsIssued-before base exempt ack h h' t p up i = record {
    fresh = omega (arith, up.memory_next, i.fresh);
    unstored = omega (arith, up.issued, i.unstored);
    carries = i.carries;
    written = i.written;
    queued = i.queued;
    room = i.room;
  }

  persist_acknowledged-IsIssued :
      (base : B) (exempt : Bool) (ack : Option ℕ) (h : RemoteHandle B)
      → ((exempt ≡ false)
          → count_pending (send_window (persist_acknowledged h)) < max_pending_messages)
      → IsIssued base exempt ack h
          (record {
            seq = (send_window (persist_acknowledged h)).next_send_seq + 1;
            message =
                command_at ((send_window (persist_acknowledged h)).next_send_seq + 1) ack base;
            was_empty = not (has_pending (send_window (persist_acknowledged h)));
          })
          (write_command
            (command_at ((send_window (persist_acknowledged h)).next_send_seq + 1) ack base)
            (persist_acknowledged h))
  persist_acknowledged-IsIssued base exempt ack h fits =
      IsIssued-before base exempt ack h (persist_acknowledged h) _ _
        (persist_acknowledged-IsCaughtUp h)
        (persist_in-IsIssued base ack exempt (persist_acknowledged h) fits behind)
    where
      up : IsCaughtUp h (persist_acknowledged h)
      up = persist_acknowledged-IsCaughtUp h

      behind :
          has_pending (stored_seq_window (persist_acknowledged h)) ≡ true
          → (persist_acknowledged h).start_seq
            ≤ (stored_seq_window (persist_acknowledged h)).start_seq
      behind q = omega (arith, up.memory_start, up.not_behind q)

  -- A message is refused just when it is not exempt and the queue is full, and then only the
  -- acknowledgements are written; otherwise it is issued.
  pub persist_remote_command-outcome :
      (base : B) (exempt : Bool) (ack : Option ℕ) (h : RemoteHandle B)
      → ((exempt ≡ false)
          × (max_pending_messages ≤ count_pending (send_window (persist_acknowledged h)))
          × (persist_remote_command base exempt ack h ≡ (err queue_full, persist_acknowledged h)))
        ⊎ ((p : PersistedCommand B) × ((persist_remote_command base exempt ack h).0 ≡ ok p)
            × IsIssued base exempt ack h p (persist_remote_command base exempt ack h).1)
  unfolding persist_remote_command
  persist_remote_command-outcome base exempt ack h =
      elim (persist_in-cases (send_window (persist_acknowledged h)) base exempt ack
        (persist_acknowledged h)) [
          | inl (free, full, e) ↦ inl (free, full, e)
          | inr (fits, e) ↦
              inr (_, ap (λ r. r.0) e, rw e (persist_acknowledged-IsIssued base exempt ack h fits))
        ]
