-- ===== src/Remotes/Handle/State.antt =====
-- What a handle keeps in memory, its windows of sequence numbers, its timers and the start-up from the
-- store (packages/ocap-kernel/src/remotes/kernel/RemoteHandle.ts). A timer is whether it is armed. A
-- message that goes on the wire is kept as the command it is the JSON of.
use ocap_kernel.Prelude.{
  none, ◌+◌, List, leb, some, true, ◌-◌, [], if◌then◌else◌, ltb, ◌&&◌, Bool, Option, false, ℕ,
}
use ocap_kernel.Remotes.Handle.Rows.{
  get_pending_message, set_remote_start_seq, RemoteSeqState, set_remote_next_send_seq, RemoteRows,
  cleanup_orphan_messages, get_remote_seq_state,
}
use ocap_kernel.Dict.{Dict, is_some}

-- `RemoteCommand`, over what a message carries
pub record RemoteCommand (B : Type 0) : Type 0 where
  pub seq : ℕ
  pub ack : Option ℕ
  pub base : B

-- `PersistedCommand`
pub record PersistedCommand (B : Type 0) : Type 0 where
  pub seq : ℕ
  pub message : RemoteCommand B
  pub was_empty : Bool

-- A send that waits for its turn in `#outboundChain`, with the queue it was made for
pub record Send (B : Type 0) : Type 0 where
  pub queue : ℕ
  pub seq : ℕ
  pub message : RemoteCommand B

-- `SeqWindow`
pub record SeqWindow : Type 0 where
  pub start_seq : ℕ
  pub next_send_seq : ℕ

-- `hasPending`
abbrev pub has_pending : SeqWindow → Bool
has_pending w = ltb 0 w.next_send_seq && leb w.start_seq w.next_send_seq

-- `countPending`
abbrev pub count_pending : SeqWindow → ℕ
count_pending w = if has_pending w then w.next_send_seq - w.start_seq + 1 else 0

-- `RemoteHandle`, with the rows it writes
pub record RemoteHandle (B : Type 0) : Type 0 where
  pub rows : RemoteRows (RemoteCommand B)
  pub next_send_seq : ℕ
  pub highest_received_seq : ℕ
  pub start_seq : ℕ
  pub awaiting_transmit : Dict ℕ (PersistedCommand B)
  pub last_transmitted_seq : ℕ
  pub outbound_chain : List (Send B)
  pub outbound_queue_id : ℕ
  pub held_for_restart : Bool
  pub retry_count : ℕ
  pub ack_timeout : Bool
  pub delayed_ack : Bool
  pub has_transport : Bool
  pub needs_hinting : Bool
  pub remote_gc_requested : Bool
  pub pending_redemptions : List ℕ
  pub redemption_counter : ℕ

-- `MAX_PENDING_MESSAGES`
abbrev pub max_pending_messages : ℕ
max_pending_messages = 200

-- `MAX_RETRIES`
abbrev pub max_retries : ℕ
max_retries = 3

-- The fields' initial values, before anything is restored from the rows
unfoldable pub new_handle : {B : Type 0} → Bool → RemoteRows (RemoteCommand B) → RemoteHandle B
new_handle transport r = record {
  rows = r;
  next_send_seq = 0;
  highest_received_seq = 0;
  start_seq = 0;
  awaiting_transmit = [];
  last_transmitted_seq = 0;
  outbound_chain = [];
  outbound_queue_id = 0;
  held_for_restart = false;
  retry_count = 0;
  ack_timeout = false;
  delayed_ack = false;
  has_transport = transport;
  needs_hinting = true;
  remote_gc_requested = false;
  pending_redemptions = [];
  redemption_counter = 1;
}

-- `stored?.startSeq ?? 0`, with `stored?.nextSendSeq ?? 0`
abbrev pub window_of : Option RemoteSeqState → SeqWindow
window_of none = record { start_seq = 0; next_send_seq = 0 }
window_of (some s) = record { start_seq = s.start_seq; next_send_seq = s.next_send_seq }

module _ {B : Type 0} where
  -- `#seqWindow`
  abbrev pub seq_window : RemoteHandle B → SeqWindow
  seq_window h = record { start_seq = h.start_seq; next_send_seq = h.next_send_seq }

  -- `#storedSeqWindow`
  unfoldable pub stored_seq_window : RemoteHandle B → SeqWindow
  unfolding get_remote_seq_state
  stored_seq_window h = window_of (get_remote_seq_state h.rows)

  -- `#sendWindow`
  unfoldable pub send_window : RemoteHandle B → SeqWindow
  unfolding stored_seq_window
  send_window h =
      if ltb (stored_seq_window h).next_send_seq h.next_send_seq
      then seq_window h
      else stored_seq_window h

  -- `#getAckValue`
  abbrev pub get_ack_value : RemoteHandle B → Option ℕ
  get_ack_value h = if ltb 0 h.highest_received_seq then some h.highest_received_seq else none

  -- `#clearAckTimeout`
  abbrev pub clear_ack_timeout : RemoteHandle B → RemoteHandle B
  clear_ack_timeout h = record h { ack_timeout = false }

  -- `#startAckTimeout`
  abbrev pub start_ack_timeout : RemoteHandle B → RemoteHandle B
  start_ack_timeout h = record h { ack_timeout = has_pending (seq_window h) && h.has_transport }

  -- `#clearDelayedAck`
  abbrev pub clear_delayed_ack : RemoteHandle B → RemoteHandle B
  clear_delayed_ack h = record h { delayed_ack = false }

  -- `#startDelayedAck`
  abbrev pub start_delayed_ack : RemoteHandle B → RemoteHandle B
  start_delayed_ack h = record h { delayed_ack = is_some (get_ack_value h) }

  -- The rest of `#restorePersistedState` where there are sequence numbers to restore
  unfoldable pub restore_seq_state : RemoteSeqState → RemoteHandle B → RemoteHandle B
  unfolding cleanup_orphan_messages
  restore_seq_state s h =
      let found = is_some (get_pending_message (s.next_send_seq + 1) h.rows) in
      let next = if found then s.next_send_seq + 1 else s.next_send_seq in
      let rows = if found then set_remote_next_send_seq next h.rows else h.rows in
      let h' : RemoteHandle B = record h {
        highest_received_seq = s.highest_received_seq;
        start_seq = s.start_seq;
        next_send_seq = next;
        last_transmitted_seq = s.start_seq - 1;
        rows = (cleanup_orphan_messages s.start_seq rows).1;
      } in
      if has_pending (seq_window h') then start_ack_timeout h' else h'

  -- A message written down before any sequence number was
  abbrev pub recover_first : Bool → RemoteHandle B → RemoteHandle B
  recover_first false h = h
  recover_first true h = start_ack_timeout (record h {
    start_seq = 1;
    next_send_seq = 1;
    rows = set_remote_next_send_seq 1 (set_remote_start_seq 1 h.rows);
  })

  abbrev pub restore_from : Option RemoteSeqState → RemoteHandle B → RemoteHandle B
  unfolding restore_seq_state
  restore_from none h = recover_first (is_some (get_pending_message 1 h.rows)) h
  restore_from (some s) h = restore_seq_state s h

  -- `#restorePersistedState`
  unfoldable pub restore_persisted_state : RemoteHandle B → RemoteHandle B
  unfolding restore_seq_state get_remote_seq_state
  restore_persisted_state h = restore_from (get_remote_seq_state h.rows) h

  -- `make`
  unfoldable pub make : Bool → RemoteRows (RemoteCommand B) → RemoteHandle B
  unfolding restore_persisted_state new_handle
  make transport r = restore_persisted_state (new_handle transport r)
