-- ===== src/Remotes/Handle/Numbered.antt =====
-- What holds of the numbers of a handle between its operations.
use ocap_kernel.Prelude.{
  false, not, true, nat_eq, ◌==◌, Bool-cases, ◌⊎◌, refl, sym, inr, inl, Option, Bool, [], ◌++◌, ◌∷◌,
  arith, ◌+◌, List, ◌≡◌, ◌≤◌, ℕ,
}
use ocap_kernel.Remotes.Handle.Acknowledged.{
  stored-next, stored-rows, stored-start, start_after, acked, finished, caught_up,
}
use ocap_kernel.Remotes.Handle.Rows.{set_remote_next_send_seq, set_remote_start_seq, RemoteRows}
use ocap_kernel.Remotes.Handle.State.{
  count_pending, send_window, start_ack_timeout, Send, RemoteCommand, seq_window, stored_seq_window,
  RemoteHandle, SeqWindow,
}
use mathlib.Core.Path.{subst}
use ocap_kernel.Remotes.Handle.Sending.{
  command_at, persist_in, persist_remote_command, write_command,
}
use ocap_kernel.Remotes.Handle.Windows.{persist_in-cases, send_window-next, write_command-window}
use ocap_kernel.Remotes.Handle.Acks.{handle_ack, reject_all_pending, persist_acknowledged}

-- A window that starts no later than behind its end
abbrev pub IsWindow : SeqWindow → Type 0
IsWindow w = w.start_seq ≤ w.next_send_seq + 1

module _ {B : Type 0} where
  -- The waiting sends were made for a queue that is not a later one. Where sends are let out, those of
  -- the current queue have numbers up to the bound.
  abbrev pub AreWaiting : Bool → ℕ → ℕ → List (Send B) → Type 0
  AreWaiting live queue n [] = Unit
  AreWaiting live queue n (s ∷ rest) =
      (s.queue ≤ queue) × (live ≡ true → s.queue ≡ queue → s.seq ≤ n) × AreWaiting live queue n rest

  pub AreWaiting-append :
      (live : Bool) (queue n seq : ℕ) (m : RemoteCommand B) (xs : List (Send B))
      → AreWaiting live queue n xs
      → seq ≤ n
      → AreWaiting live queue n (xs ++ (record { queue = queue; seq = seq; message = m } ∷ []))
  AreWaiting-append live queue n seq m [] w le = (omega arith, λ _ _. le, tt)
  AreWaiting-append live queue n seq m (x ∷ xs) (a, b, w) le =
      (a, b, AreWaiting-append live queue n seq m xs w le)

  pub AreWaiting-later :
      (live : Bool) (queue n n' : ℕ) (xs : List (Send B))
      → n ≤ n'
      → AreWaiting live queue n xs
      → AreWaiting live queue n' xs
  AreWaiting-later live queue n n' [] le w = tt
  AreWaiting-later live queue n n' (x ∷ xs) le (a, b, w) =
      (a, λ l q. omega (arith, b l q), AreWaiting-later live queue n n' xs le w)

  -- The sends of a queue that was let go of are held to no bound.
  pub AreWaiting-retired :
      (live live' : Bool) (queue n n' : ℕ) (xs : List (Send B))
      → AreWaiting live queue n xs
      → AreWaiting live' (queue + 1) n' xs
  AreWaiting-retired live live' queue n n' [] w = tt
  AreWaiting-retired live live' queue n n' (x ∷ xs) (a, b, w) =
      (omega arith, λ _ q. absurd (omega arith), AreWaiting-retired live live' queue n n' xs w)

  -- Nor are any while nothing is let out.
  pub AreWaiting-held :
      (live : Bool) (queue n n' : ℕ) (xs : List (Send B))
      → AreWaiting live queue n xs
      → AreWaiting false queue n' xs
  AreWaiting-held live queue n n' [] w = tt
  AreWaiting-held live queue n n' (x ∷ xs) (a, b, w) =
      (a, λ l. absurd (ground (arith, l)), AreWaiting-held live queue n n' xs w)

  -- Memory's window is one, nothing is counted as sent or waits to be sent beyond its end, and the
  -- stored window is one.
  pub record IsNumbered (h : RemoteHandle B) : Type 0 where
    pub window : IsWindow (seq_window h)
    pub sent_below : h.last_transmitted_seq ≤ h.next_send_seq
    pub waiting :
        AreWaiting (not h.held_for_restart) h.outbound_queue_id h.next_send_seq h.outbound_chain
    pub stored : IsWindow (stored_seq_window h)

  -- The rows may change, as long as they hold a window.
  pub rows-IsNumbered :
      (h : RemoteHandle B) (r : RemoteRows (RemoteCommand B))
      → IsWindow (stored_seq_window (record h { rows = r }))
      → IsNumbered h
      → IsNumbered (record h { rows = r })
  rows-IsNumbered h r w i = record {
    window = i.window;
    sent_below = i.sent_below;
    waiting = i.waiting;
    stored = w;
  }

  persist_acknowledged-rows :
      (h : RemoteHandle B)
      → persist_acknowledged h ≡ record h { rows = (persist_acknowledged h).rows }
  unfolding persist_acknowledged
  persist_acknowledged-rows h = ground arith

  caught_up-IsWindow :
      (h : RemoteHandle B)
      → IsWindow (stored_seq_window h)
      → IsWindow (stored_seq_window (persist_acknowledged h))
  caught_up-IsWindow h w = rw (caught_up h) (ground (arith, w))

  replaced-IsNumbered :
      (h h' : RemoteHandle B)
      → h' ≡ record h { rows = h'.rows }
      → IsWindow (stored_seq_window h')
      → IsNumbered h
      → IsNumbered h'
  replaced-IsNumbered h h' q w i = subst IsNumbered (sym q) (
      rows-IsNumbered h h'.rows
        (subst IsWindow (sym (stored-rows h' (record h { rows = h'.rows }) refl)) w) i)

  -- Memory may change, as long as its numbers stay in order.
  pub moved-IsNumbered :
      (h h' : RemoteHandle B)
      → h'.rows ≡ h.rows
      → IsWindow (seq_window h')
      → h'.last_transmitted_seq ≤ h'.next_send_seq
      → AreWaiting (not h'.held_for_restart) h'.outbound_queue_id h'.next_send_seq h'.outbound_chain
      → IsNumbered h
      → IsNumbered h'
  moved-IsNumbered h h' q w le waits i = record {
    window = w;
    sent_below = le;
    waiting = waits;
    stored = subst IsWindow (sym (stored-rows h h' q)) i.stored;
  }

  pub persist_acknowledged-IsNumbered :
      (h : RemoteHandle B) → IsNumbered h → IsNumbered (persist_acknowledged h)
  persist_acknowledged-IsNumbered h i =
      replaced-IsNumbered h (persist_acknowledged h) (persist_acknowledged-rows h)
        (caught_up-IsWindow h i.stored) i

  write_command-rows :
      (m : RemoteCommand B) (h : RemoteHandle B)
      → write_command m h ≡ record h { rows = (write_command m h).rows }
  unfolding write_command
  write_command-rows m h = refl

  write_command-IsNumbered :
      (m : RemoteCommand B) (h : RemoteHandle B)
      → (stored_seq_window h).next_send_seq ≤ m.seq
      → IsNumbered h
      → IsNumbered (write_command m h)
  write_command-IsNumbered m h le i =
      replaced-IsNumbered h (write_command m h) (write_command-rows m h)
        (rw (write_command-window m h) (ground (arith, le, i.stored))) i

  persist_in-IsNumbered :
      (w : SeqWindow) (base : B) (exempt : Bool) (ack : Option ℕ) (h : RemoteHandle B)
      → (stored_seq_window h).next_send_seq ≤ w.next_send_seq
      → IsNumbered h
      → IsNumbered (persist_in w base exempt ack h).1
  persist_in-IsNumbered w base exempt ack h le i = elim (persist_in-cases w base exempt ack h) [
    | inl (free, full, e) ↦ rw e i
    | inr (fits, e) ↦ rw e (
        write_command-IsNumbered (command_at (w.next_send_seq + 1) ack base) h (omega (arith, le))
          i)
  ]

  pub persist_remote_command-IsNumbered :
      (base : B) (exempt : Bool) (ack : Option ℕ) (h : RemoteHandle B)
      → IsNumbered h
      → IsNumbered (persist_remote_command base exempt ack h).1
  unfolding persist_remote_command
  persist_remote_command-IsNumbered base exempt ack h i =
      persist_in-IsNumbered (send_window (persist_acknowledged h)) base exempt ack
        (persist_acknowledged h) (send_window-next (persist_acknowledged h)).1
        (persist_acknowledged-IsNumbered h i)

  pub acked-IsNumbered :
      (start : ℕ) (h : RemoteHandle B)
      → start ≤ h.next_send_seq + 1
      → IsNumbered h
      → IsNumbered (acked start h)
  acked-IsNumbered start h le i =
      moved-IsNumbered h (acked start h) refl le i.sent_below i.waiting i

  pub timer-IsNumbered : (h : RemoteHandle B) → IsNumbered h → IsNumbered (start_ack_timeout h)
  timer-IsNumbered h i =
      moved-IsNumbered h (start_ack_timeout h) refl i.window i.sent_below i.waiting i

  pub handle_ack-IsNumbered :
      (ack : ℕ) (h : RemoteHandle B) → IsNumbered h → IsNumbered (handle_ack ack h).1
  handle_ack-IsNumbered ack h i = rw (finished ack h) (
      timer-IsNumbered (persist_acknowledged (acked (start_after ack (seq_window h)) h)) (
        persist_acknowledged-IsNumbered (acked (start_after ack (seq_window h)) h)
          (acked-IsNumbered (start_after ack (seq_window h)) h (ground (arith, i.window)) i)))

  pub retired-IsNumbered :
      (h : RemoteHandle B)
      → IsNumbered h
      → IsNumbered (record h { outbound_queue_id = h.outbound_queue_id + 1 })
  retired-IsNumbered h i =
      moved-IsNumbered h (record h { outbound_queue_id = h.outbound_queue_id + 1 }) refl i.window
        i.sent_below (AreWaiting-retired _ _ h.outbound_queue_id _ _ _ i.waiting) i

  -- What `reject_all_pending` leaves where something was pending
  abbrev pub abandoned : SeqWindow → RemoteHandle B → RemoteHandle B
  abandoned w h = record h {
    outbound_queue_id = h.outbound_queue_id + 1;
    start_seq = w.next_send_seq + 1;
    next_send_seq = w.next_send_seq;
    rows =
        set_remote_start_seq (w.next_send_seq + 1)
          (set_remote_next_send_seq w.next_send_seq h.rows);
    retry_count = 0;
  }

  pub reject_all_pending-cases :
      (h : RemoteHandle B)
      → ((count_pending (send_window h) ≡ 0)
          × (reject_all_pending h ≡ record h { outbound_queue_id = h.outbound_queue_id + 1 }))
        ⊎ (reject_all_pending h ≡ abandoned (send_window h) h)
  unfolding reject_all_pending
  reject_all_pending-cases h = elim (Bool-cases (count_pending (send_window h) == 0)) [
    | inl q ↦ inl (ground (arith, q), rw q refl)
    | inr q ↦ inr (rw q refl)
  ]

  abandoned-IsNumbered :
      (w : SeqWindow) (h : RemoteHandle B)
      → h.next_send_seq ≤ w.next_send_seq
      → IsNumbered h
      → IsNumbered (abandoned w h)
  abandoned-IsNumbered w h le i = record {
    window = omega arith;
    sent_below = omega (arith, le, i.sent_below);
    waiting = AreWaiting-retired _ _ h.outbound_queue_id _ _ _ i.waiting;
    stored = omega (arith, stored-start (abandoned w h), stored-next (abandoned w h));
  }

  pub reject_all_pending-IsNumbered :
      (h : RemoteHandle B) → IsNumbered h → IsNumbered (reject_all_pending h)
  reject_all_pending-IsNumbered h i = elim (reject_all_pending-cases h) [
    | inl (none_pending, e) ↦ rw e (retired-IsNumbered h i)
    | inr e ↦ rw e (abandoned-IsNumbered (send_window h) h (send_window-next h).0 i)
  ]
