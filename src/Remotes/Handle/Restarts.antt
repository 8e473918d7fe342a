-- ===== src/Remotes/Handle/Restarts.antt =====
-- A restart of the kernel, or of the peer, keeps the numbers in order.
use ocap_kernel.Prelude.{inr, inl, Option-cases, some, true, false, ◌+◌, arith, ◌≡◌, ◌≤◌, Bool}
use ocap_kernel.Remotes.Handle.Rows.{
  or_zero, get_pending_message, get_remote_seq_state, RemoteSeqState, cleanup_orphan_messages,
  RemoteRows,
}
use ocap_kernel.Dict.{is_some}
use ocap_kernel.Remotes.Handle.Recovery.{restore_seq_state-IsRestored, IsRestored}
use ocap_kernel.Remotes.Handle.State.{
  restore_persisted_state, make, recover_first, stored_seq_window, RemoteCommand, RemoteHandle,
  new_handle, restore_seq_state,
}
use ocap_kernel.Remotes.Handle.Acknowledged.{stored-next, stored-start}
use ocap_kernel.Remotes.Handle.Numbered.{IsNumbered, IsWindow}

module _ {B : Type 0} where
  -- The rows hold a window.
  abbrev pub HoldWindow : RemoteRows (RemoteCommand B) → Type 0
  HoldWindow r = or_zero r.start ≤ or_zero r.next_send + 1

  pub stored-HoldWindow : (h : RemoteHandle B) → HoldWindow h.rows → IsWindow (stored_seq_window h)
  stored-HoldWindow h w = omega (arith, stored-start h, stored-next h, w)

  pub HoldWindow-stored : (h : RemoteHandle B) → IsWindow (stored_seq_window h) → HoldWindow h.rows
  HoldWindow-stored h w = omega (arith, stored-start h, stored-next h, w)

  restore-HoldWindow :
      (t : Bool) (r : RemoteRows (RemoteCommand B)) (s : RemoteSeqState)
      → s.next_send_seq ≡ or_zero r.next_send
      → HoldWindow r
      → HoldWindow (restore_seq_state s (new_handle t r)).rows
  unfolding restore_seq_state new_handle cleanup_orphan_messages
  restore-HoldWindow t r s q w = ground (arith, q, w)

  restore-IsNumbered :
      (t : Bool) (r : RemoteRows (RemoteCommand B)) (s : RemoteSeqState)
      → s.next_send_seq ≡ or_zero r.next_send
      → s.start_seq ≡ or_zero r.start
      → HoldWindow r
      → IsNumbered (restore_seq_state s (new_handle t r))
  restore-IsNumbered t r s q q' w = record {
    window = ground (arith, i.starts, i.ends, q, q', w);
    sent_below = ground (arith, i.unsent, i.ends, q, q', w);
    waiting = rw i.empty_chain tt;
    stored =
        stored-HoldWindow (restore_seq_state s (new_handle t r)) (restore-HoldWindow t r s q w);
  }
    where
      i : IsRestored r s (restore_seq_state s (new_handle t r))
      i = restore_seq_state-IsRestored t r s

  recover-IsNumbered :
      (found t : Bool) (r : RemoteRows (RemoteCommand B))
      → HoldWindow r
      → IsNumbered (recover_first found (new_handle t r))
  unfolding new_handle
  recover-IsNumbered false t r w = record {
    window = omega arith;
    sent_below = omega arith;
    waiting = tt;
    stored = stored-HoldWindow (new_handle t r) w;
  }
  recover-IsNumbered true t r w = record {
    window = omega arith;
    sent_below = omega arith;
    waiting = tt;
    stored = stored-HoldWindow (recover_first true (new_handle t r)) (omega arith);
  }

  pub seq_state-rows :
      (r : RemoteRows (RemoteCommand B)) (s : RemoteSeqState)
      → get_remote_seq_state r ≡ some s
      → (s.next_send_seq ≡ or_zero r.next_send) × (s.start_seq ≡ or_zero r.start)
  unfolding get_remote_seq_state
  seq_state-rows r s q = ground (arith, q)

  pub make-IsNumbered :
      (t : Bool) (r : RemoteRows (RemoteCommand B)) → HoldWindow r → IsNumbered (make t r)
  unfolding make restore_persisted_state
  make-IsNumbered t r w = elim (Option-cases (get_remote_seq_state r)) [
    | inl q ↦ rw q (recover-IsNumbered (is_some (get_pending_message 1 r)) t r w)
    | inr (s, q) ↦
        rw q (restore-IsNumbered t r s (seq_state-rows r s q).0 (seq_state-rows r s q).1 w)
  ]
