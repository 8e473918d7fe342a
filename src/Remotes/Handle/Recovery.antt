-- ===== src/Remotes/Handle/Recovery.antt =====
-- A restart of the kernel loses no message that was committed.
use ocap_kernel.Remotes.Handle.Transmit.{
  flush_transmit_queue, flush_fuel, attach_transport, flush_loop, put_on_the_wire, flush_round,
}
use ocap_kernel.Remotes.Handle.Flushing.{
  flush_transmit_queue-sends, flush_transmit_queue_connected, flush_loop-cases,
}
use ocap_kernel.Remotes.Handle.Acks.{greater}
use ocap_kernel.Remotes.Handle.Rows.{
  get-from_start, from_start, get_pending_message, get_remote_seq_state, RemoteSeqState,
  cleanup_orphan_messages, RemoteRows,
}
use ocap_kernel.Remotes.Handle.Rounds.{
  first_owed, sends_from, flush_round-IsStop, flush_round-rounds_left, rounds_left,
}
use ocap_kernel.Remotes.Handle.State.{
  start_ack_timeout, RemoteHandle, RemoteCommand, new_handle, restore_persisted_state, make,
  restore_seq_state,
}
use ocap_kernel.Prelude.{
  zero, inr, ◌∙◌, inl, suc, none, refl, ◌<◌, nat_eq, Option-cases, false, true, ◌≤◌, ◌+◌, [], some,
  ◌-◌, if◌then◌else◌, ◌≡◌, arith, ℕ, Bool,
}
use ocap_kernel.Dict.{Dict, delete, get, is_some}

module _ {V : Type 0} where
  delete_of_empty : (k : ℕ) (m : Dict ℕ V) → m ≡ [] → delete k m ≡ []
  unfolding delete
  delete_of_empty k m q = rw q refl

  get_of_empty : (k : ℕ) (m : Dict ℕ V) → m ≡ [] → get k m ≡ none
  unfolding get
  get_of_empty k m q = rw q refl

module _ {B : Type 0} where
  -- The last number of the queue: the one recorded, or the one after it where a crash came between the
  -- two writes.
  abbrev pub last_issued : RemoteRows (RemoteCommand B) → RemoteSeqState → ℕ
  last_issued r s =
      if is_some (get_pending_message (s.next_send_seq + 1) r)
      then s.next_send_seq + 1
      else s.next_send_seq

  -- What the start-up leaves
  pub record IsRestored (r : RemoteRows (RemoteCommand B)) (s : RemoteSeqState) (h : RemoteHandle B)
      : Type 0 where
    pub starts : h.start_seq ≡ s.start_seq
    pub ends : h.next_send_seq ≡ last_issued r s
    pub receipt : h.highest_received_seq ≡ s.highest_received_seq
    pub unsent : h.last_transmitted_seq ≡ s.start_seq - 1
    pub none_waiting : h.awaiting_transmit ≡ []
    pub empty_chain : h.outbound_chain ≡ []
    pub first_queue : h.outbound_queue_id ≡ 0
    pub kept : h.rows.pending ≡ from_start s.start_seq r.pending

  pub restore_seq_state-IsRestored :
      (t : Bool) (r : RemoteRows (RemoteCommand B)) (s : RemoteSeqState)
      → IsRestored r s (restore_seq_state s (new_handle t r))
  unfolding restore_seq_state new_handle cleanup_orphan_messages
  restore_seq_state-IsRestored t r s = record {
    starts = ground arith;
    ends = ground arith;
    receipt = ground arith;
    unsent = ground arith;
    none_waiting = ground arith;
    empty_chain = ground arith;
    first_queue = ground arith;
    kept = ground arith;
  }

  pub make-IsRestored :
      (t : Bool) (r : RemoteRows (RemoteCommand B)) (s : RemoteSeqState)
      → get_remote_seq_state r ≡ some s
      → IsRestored r s (make t r)
  unfolding make restore_persisted_state new_handle
  make-IsRestored t r s q = rw q (restore_seq_state-IsRestored t r s)

  -- A queue whose every message is one that memory already counts
  record IsInherited (h : RemoteHandle B) : Type 0 where
    none_waiting : h.awaiting_transmit ≡ []
    unsent : h.last_transmitted_seq ≤ h.next_send_seq
    window : h.start_seq ≤ h.next_send_seq + 1

  flush_round-IsInherited :
      (h : RemoteHandle B)
      → IsInherited h
      → (flush_round h).0 ≡ true
      → IsInherited (flush_round h).1 × ((flush_round h).1.next_send_seq ≡ h.next_send_seq)
  unfolding flush_round put_on_the_wire
  flush_round-IsInherited h i q = ground (
    arith,
    i.none_waiting,
    i.unsent,
    i.window,
    delete_of_empty (h.last_transmitted_seq + 1) _ i.none_waiting,
    get_of_empty (h.last_transmitted_seq + 1) _ i.none_waiting,
    Option-cases (get (h.last_transmitted_seq + 1) h.rows.pending),
  )

  flush_round-end :
      (h : RemoteHandle B)
      → IsInherited h
      → (flush_round h).0 ≡ false
      → h.last_transmitted_seq ≡ h.next_send_seq
  unfolding flush_round put_on_the_wire
  flush_round-end h i q = ground (
    arith,
    i.unsent,
    i.window,
    get_of_empty (h.last_transmitted_seq + 1) _ i.none_waiting,
    Option-cases (get (h.last_transmitted_seq + 1) h.rows.pending),
  )

  flush_loop-end :
      (n : ℕ) (h : RemoteHandle B)
      → IsInherited h
      → rounds_left h < n
      → (flush_loop n h).1.last_transmitted_seq ≡ h.next_send_seq
  flush_loop-end zero h i lt = absurd (omega arith)
  flush_loop-end (suc n) h i lt = elim (flush_loop-cases n h) [
    | inl (q, e) ↦ rw e (
        flush_loop-end n (flush_round h).1 (flush_round-IsInherited h i q).0
          (omega (arith, flush_round-rounds_left h q))
        ∙ (flush_round-IsInherited h i q).1)
    | inr (q, e) ↦ rw (e, (flush_round-IsStop h q).last_kept) (flush_round-end h i q)
  ]

  sends_from_ext :
      (queue : ℕ) (r r' : RemoteRows (RemoteCommand B)) (n seq start : ℕ)
      → r'.pending ≡ from_start start r.pending
      → start ≤ seq
      → sends_from queue r' seq n ≡ sends_from queue r seq n
  sends_from_ext queue r r' zero seq start q le = refl
  sends_from_ext queue r r' (suc n) seq start q le =
      rw (q, same, sends_from_ext queue r r' n (seq + 1) start q (omega (arith, le))) refl
    where
      same : get seq (from_start start r.pending) ≡ get seq r.pending
      same = get-from_start start seq r.pending ∙ ground arith

  -- The handle as its transport is attached
  abbrev attached : RemoteRows (RemoteCommand B) → RemoteHandle B
  attached r = start_ack_timeout (record (make false r) { has_transport = true })

  attached-IsInherited :
      (r : RemoteRows (RemoteCommand B)) (s : RemoteSeqState)
      → get_remote_seq_state r ≡ some s
      → s.start_seq ≤ s.next_send_seq + 1
      → IsInherited (attached r)
  attached-IsInherited r s q le = record {
    none_waiting = i.none_waiting;
    unsent = ground (arith, i.unsent, i.ends, le);
    window = ground (arith, i.starts, i.ends, le);
  }
    where
      i : IsRestored r s (make false r)
      i = make-IsRestored false r s q

  restored_first :
      (r : RemoteRows (RemoteCommand B)) (s : RemoteSeqState)
      → get_remote_seq_state r ≡ some s
      → first_owed (attached r) ≡ greater 1 s.start_seq
  restored_first r s q = ground (arith, i.unsent, i.starts)
    where
      i : IsRestored r s (make false r)
      i = make-IsRestored false r s q

  attached_last :
      (r : RemoteRows (RemoteCommand B)) (s : RemoteSeqState)
      → get_remote_seq_state r ≡ some s
      → s.start_seq ≤ s.next_send_seq + 1
      → (flush_transmit_queue (attached r)).1.last_transmitted_seq ≡ last_issued r s
  attached_last r s q le = rw (flush_transmit_queue_connected (attached r) refl) (
      flush_loop-end (flush_fuel (attached r)) (attached r) (attached-IsInherited r s q le)
        (omega arith)
      ∙ (make-IsRestored false r s q).ends)

  attached-resends :
      (r : RemoteRows (RemoteCommand B)) (s : RemoteSeqState)
      → get_remote_seq_state r ≡ some s
      → s.start_seq ≤ s.next_send_seq + 1
      → (flush_transmit_queue (attached r)).1.outbound_chain
        ≡ sends_from 0 r (greater 1 s.start_seq) (last_issued r s + 1 - greater 1 s.start_seq)
  attached-resends r s q le =
      flush_transmit_queue-sends (attached r) refl
      ∙ rw (attached_last r s q le, restored_first r s q, i.empty_chain, i.first_queue)
          (sends_from_ext 0 r (make false r).rows _ (greater 1 s.start_seq) s.start_seq i.kept
            (ground arith))
    where
      i : IsRestored r s (make false r)
      i = make-IsRestored false r s q

  -- A handle that a restart makes from a store with sequence numbers, once it has its transport, hands
  -- over the written message of every number from the first one not acknowledged to the last one
  -- issued, in the order of the numbers, and nothing else.
  pub make-resends :
      (r : RemoteRows (RemoteCommand B)) (s : RemoteSeqState)
      → get_remote_seq_state r ≡ some s
      → s.start_seq ≤ s.next_send_seq + 1
      → (attach_transport (make false r)).1.outbound_chain
        ≡ sends_from 0 r (greater 1 s.start_seq) (last_issued r s + 1 - greater 1 s.start_seq)
  unfolding attach_transport
  make-resends r s q le = attached-resends r s q le
