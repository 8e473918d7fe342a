-- ===== src/Remotes/Handle/Acknowledged.antt =====
-- What an acknowledgement retires, in memory and in the store.
use ocap_kernel.Prelude.{
  ◌==◌, ◌||◌, not, ◌∙◌, ap, Option-cases, ◌≤◌, true, nat_eq, refl, arith, none, zero, ltb, some,
  suc, ◌&&◌, ◌<◌, leb, ◌-◌, ◌≡◌, Bool, if◌then◌else◌, ◌+◌, ℕ,
}
use ocap_kernel.Remotes.Handle.State.{
  start_ack_timeout, window_of, seq_window, stored_seq_window, has_pending, RemoteHandle, SeqWindow,
}
use ocap_kernel.Exec.{ok}
use ocap_kernel.Remotes.Handle.Acks.{
  greater, ack_fuel, finish_ack, handle_ack, raise_window, acked_count, lesser, acknowledge,
  delete_pending_messages, persist_acknowledged,
}
use ocap_kernel.Remotes.Handle.Rows.{
  or_zero, get_remote_seq_state, delete_pending_message, RemoteRows,
}
use ocap_kernel.Dict.{get-delete, get}

-- The start of a queue once every message up to a number is acknowledged
abbrev pub start_after : ℕ → SeqWindow → ℕ
start_after ack w =
    if leb w.start_seq ack && has_pending w then lesser ack w.next_send_seq + 1 else w.start_seq

acknowledge-start_after :
    (n ack : ℕ) (w : SeqWindow)
    → w.next_send_seq + 1 - w.start_seq < n
    → acknowledge n ack w ≡ some (start_after ack w)
unfolding acknowledge
acknowledge-start_after zero ack w lt = absurd (omega arith)
acknowledge-start_after (suc n) ack w lt =
    ground (arith, acknowledge-start_after n ack (record w { start_seq = w.start_seq + 1 }))

-- Whether a window has a number
abbrev pub within : SeqWindow → ℕ → Bool
within w seq = has_pending w && (leb w.start_seq seq && leb seq w.next_send_seq)

module _ {M : Type 0} where
  get-delete_pending_messages :
      (n seq i : ℕ) (r : RemoteRows M)
      → get i (delete_pending_messages n seq r).pending
        ≡ (if leb seq i && ltb i (seq + n) then none else get i r.pending)
  unfolding delete_pending_messages
  get-delete_pending_messages zero seq i r = ground arith
  get-delete_pending_messages (suc n) seq i r = ground (
    arith,
    get-delete_pending_messages n (seq + 1) i (delete_pending_message seq r),
    get-delete seq i r.pending,
  )

  pub delete_pending_messages-state :
      (n seq : ℕ) (r : RemoteRows M)
      → ((delete_pending_messages n seq r).next_send ≡ r.next_send)
        × ((delete_pending_messages n seq r).start ≡ r.start)
        × ((delete_pending_messages n seq r).highest_received ≡ r.highest_received)
  unfolding delete_pending_messages
  delete_pending_messages-state zero seq r = (refl, refl, refl)
  delete_pending_messages-state (suc n) seq r =
      delete_pending_messages-state n (seq + 1) (delete_pending_message seq r)

pub window-ext :
    {v w : SeqWindow} → v.start_seq ≡ w.start_seq → v.next_send_seq ≡ w.next_send_seq → v ≡ w
window-ext p q i = record { start_seq = p i; next_send_seq = q i }

module _ {B : Type 0} where
  pub stored-start : (h : RemoteHandle B) → (stored_seq_window h).start_seq ≡ or_zero h.rows.start
  unfolding stored_seq_window get_remote_seq_state
  stored-start h = ground (
    arith,
    Option-cases h.rows.start,
    Option-cases h.rows.next_send,
    Option-cases h.rows.highest_received,
  )

  pub stored-next :
      (h : RemoteHandle B) → (stored_seq_window h).next_send_seq ≡ or_zero h.rows.next_send
  unfolding stored_seq_window get_remote_seq_state
  stored-next h = ground (
    arith,
    Option-cases h.rows.start,
    Option-cases h.rows.next_send,
    Option-cases h.rows.highest_received,
  )

  persist_acknowledged-get :
      (h : RemoteHandle B) (i : ℕ)
      → get i (persist_acknowledged h).rows.pending ≡ (
          if within (stored_seq_window h) i && ltb i h.start_seq
          then none
          else get i h.rows.pending)
  unfolding persist_acknowledged
  persist_acknowledged-get h i = ground (
    arith,
    get-delete_pending_messages (acked_count (stored_seq_window h) h.start_seq)
        (stored_seq_window h).start_seq i (raise_window (stored_seq_window h) h),
  )

  -- The stored start and end after the acknowledgements are written
  abbrev caught_up_start : RemoteHandle B → SeqWindow → ℕ
  caught_up_start h w =
      if not (has_pending w) || leb h.start_seq w.start_seq then w.start_seq else h.start_seq

  abbrev caught_up_next : RemoteHandle B → SeqWindow → ℕ
  caught_up_next h w =
      if not (has_pending w) || leb h.start_seq w.start_seq
      then w.next_send_seq
      else greater w.next_send_seq (h.start_seq - 1)

  persisted_start :
      (h : RemoteHandle B)
      → or_zero (persist_acknowledged h).rows.start ≡ caught_up_start h (stored_seq_window h)
  unfolding persist_acknowledged
  persisted_start h = ground (
    arith,
    stored-start h,
    delete_pending_messages-state (acked_count (stored_seq_window h) h.start_seq)
        (stored_seq_window h).start_seq (raise_window (stored_seq_window h) h),
  )

  persisted_next :
      (h : RemoteHandle B)
      → or_zero (persist_acknowledged h).rows.next_send ≡ caught_up_next h (stored_seq_window h)
  unfolding persist_acknowledged
  persisted_next h = ground (
    arith,
    stored-next h,
    delete_pending_messages-state (acked_count (stored_seq_window h) h.start_seq)
        (stored_seq_window h).start_seq (raise_window (stored_seq_window h) h),
  )

  pub caught_up :
      (h : RemoteHandle B)
      → stored_seq_window (persist_acknowledged h) ≡ record {
        start_seq = caught_up_start h (stored_seq_window h);
        next_send_seq = caught_up_next h (stored_seq_window h);
      }
  caught_up h =
      window-ext (stored-start (persist_acknowledged h) ∙ persisted_start h)
        (stored-next (persist_acknowledged h) ∙ persisted_next h)

  -- What the store's window is once the acknowledgements are written
  pub record IsCaughtUp (h h' : RemoteHandle B) : Type 0 where
    pub not_behind :
        has_pending (stored_seq_window h') ≡ true → h.start_seq ≤ (stored_seq_window h').start_seq
    pub forward : (stored_seq_window h).start_seq ≤ (stored_seq_window h').start_seq
    pub issued : (stored_seq_window h).next_send_seq ≤ (stored_seq_window h').next_send_seq
    pub memory_start : h'.start_seq ≡ h.start_seq
    pub memory_next : h'.next_send_seq ≡ h.next_send_seq

  pub persist_acknowledged-IsCaughtUp : (h : RemoteHandle B) → IsCaughtUp h (persist_acknowledged h)
  unfolding persist_acknowledged
  persist_acknowledged-IsCaughtUp h = record {
    not_behind = rw (caught_up h) (λ q. ground arith);
    forward = rw (caught_up h) (ground arith);
    issued = rw (caught_up h) (ground arith);
    memory_start = ground arith;
    memory_next = ground arith;
  }

  pub stored-rows :
      (h h' : RemoteHandle B) → h'.rows ≡ h.rows → stored_seq_window h' ≡ stored_seq_window h
  unfolding stored_seq_window
  stored-rows h h' q = ap (λ r. window_of (get_remote_seq_state r)) q

  abbrev pub acked : ℕ → RemoteHandle B → RemoteHandle B
  acked start h = record h {
    start_seq = start;
    retry_count = if start == h.start_seq then h.retry_count else 0;
  }

  pub finished :
      (ack : ℕ) (h : RemoteHandle B)
      → handle_ack ack h ≡ (
        ok tt,
        start_ack_timeout (persist_acknowledged (acked (start_after ack (seq_window h)) h)),
      )
  unfolding handle_ack finish_ack
  finished ack h =
      ap (λ o. finish_ack o h)
        (acknowledge-start_after (ack_fuel (seq_window h)) ack (seq_window h) (omega arith))

  acked-get :
      (start : ℕ) (h : RemoteHandle B) (seq : ℕ)
      → get seq (persist_acknowledged (acked start h)).rows.pending ≡ (
          if within (stored_seq_window h) seq && ltb seq start
          then none
          else get seq h.rows.pending)
  acked-get start h seq =
      persist_acknowledged-get (acked start h) seq
      ∙ ap (λ w. if within w seq && ltb seq start then none else get seq h.rows.pending)
          (stored-rows h (acked start h) refl)

  acked-start :
      (start : ℕ) (h : RemoteHandle B)
      → has_pending (stored_seq_window (start_ack_timeout (persist_acknowledged (acked start h))))
        ≡ true
      → start
        ≤ (stored_seq_window (start_ack_timeout (persist_acknowledged (acked start h)))).start_seq
  acked-start start h =
      rw
        (stored-rows (persist_acknowledged (acked start h))
          (start_ack_timeout (persist_acknowledged (acked start h))) refl)
        (persist_acknowledged-IsCaughtUp (acked start h)).not_behind

  -- For every number acknowledged, the loop ends; the queue in memory then starts behind the last
  -- message that the number covers. Of the rows in the stored window those below that start are gone
  -- and every other one is left, and what the store still has pending starts no earlier.
  pub handle_ack-retires :
      (ack : ℕ) (h : RemoteHandle B) (seq : ℕ)
      → ((handle_ack ack h).0 ≡ ok tt)
        × ((handle_ack ack h).1.start_seq ≡ start_after ack (seq_window h))
        × (get seq (handle_ack ack h).1.rows.pending ≡ (
            if within (stored_seq_window h) seq && ltb seq (start_after ack (seq_window h))
            then none
            else get seq h.rows.pending))
        × (has_pending (stored_seq_window (handle_ack ack h).1) ≡ true
            → start_after ack (seq_window h) ≤ (stored_seq_window (handle_ack ack h).1).start_seq)
  handle_ack-retires ack h seq = rw (finished ack h) (
    refl,
    (persist_acknowledged-IsCaughtUp (acked (start_after ack (seq_window h)) h)).memory_start,
    acked-get (start_after ack (seq_window h)) h seq,
    acked-start (start_after ack (seq_window h)) h,
  )
