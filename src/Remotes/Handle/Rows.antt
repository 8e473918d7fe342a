-- ===== src/Remotes/Handle/Rows.antt =====
-- The rows of one remote that keep its sequence numbers and the messages not yet acknowledged
-- (packages/ocap-kernel/src/store/methods/remote.ts). The keys of a family start with the remote's id
-- and a dot, so no remote reads the rows of another. A number is kept as a number, not in decimal.
use ocap_kernel.Prelude.{
  [], ◌∷◌, arith, ◌&&◌, ltb, nat_eq, not, ◌-◌, ◌≡◌, if◌then◌else◌, length, some, Option, none, ℕ,
}
use ocap_kernel.Dict.{is_some, Dict, delete, put, get}

pub record RemoteRows (M : Type 0) : Type 0 where
  -- `remoteSeq.${id}.nextSendSeq`
  pub next_send : Option ℕ
  -- `remoteSeq.${id}.highestReceivedSeq`
  pub highest_received : Option ℕ
  -- `remoteSeq.${id}.startSeq`
  pub start : Option ℕ
  -- `remotePending.${id}.${seq}`
  pub pending : Dict ℕ M

-- `RemoteSeqState`
pub record RemoteSeqState : Type 0 where
  pub next_send_seq : ℕ
  pub highest_received_seq : ℕ
  pub start_seq : ℕ

-- `x === undefined ? 0 : Number(x)`
abbrev pub or_zero : Option ℕ → ℕ
or_zero none = 0
or_zero (some n) = n

module _ {M : Type 0} where
  -- `getRemoteSeqState`
  unfoldable pub get_remote_seq_state : RemoteRows M → Option RemoteSeqState
  get_remote_seq_state r =
      if not (is_some r.next_send) && (not (is_some r.highest_received) && not (is_some r.start))
      then none
      else some (record {
        next_send_seq = or_zero r.next_send;
        highest_received_seq = or_zero r.highest_received;
        start_seq = or_zero r.start;
      })

  -- `setRemoteNextSendSeq`
  abbrev pub set_remote_next_send_seq : ℕ → RemoteRows M → RemoteRows M
  set_remote_next_send_seq n r = record r { next_send = some n }

  -- `setRemoteHighestReceivedSeq`
  abbrev pub set_remote_highest_received_seq : ℕ → RemoteRows M → RemoteRows M
  set_remote_highest_received_seq n r = record r { highest_received = some n }

  -- `setRemoteStartSeq`
  abbrev pub set_remote_start_seq : ℕ → RemoteRows M → RemoteRows M
  set_remote_start_seq n r = record r { start = some n }

  -- `getPendingMessage`
  abbrev pub get_pending_message : ℕ → RemoteRows M → Option M
  get_pending_message seq r = get seq r.pending

  -- `setPendingMessage`
  abbrev pub set_pending_message : ℕ → M → RemoteRows M → RemoteRows M
  set_pending_message seq m r = record r { pending = put seq m r.pending }

  -- `deletePendingMessage`
  abbrev pub delete_pending_message : ℕ → RemoteRows M → RemoteRows M
  delete_pending_message seq r = record r { pending = delete seq r.pending }

  -- `deleteRemotePendingState`
  abbrev pub delete_remote_pending_state : RemoteRows M → RemoteRows M
  delete_remote_pending_state r = record r {
    next_send = none;
    highest_received = none;
    start = none;
    pending = [];
  }

  -- `clearRemoteSeqState`
  abbrev pub clear_remote_seq_state : RemoteRows M → RemoteRows M
  clear_remote_seq_state r = record r {
    next_send = none;
    highest_received = none;
    start = none;
    pending = [];
  }

  -- The loop of `cleanupOrphanMessages`: what it leaves
  unfoldable pub from_start : ℕ → Dict ℕ M → Dict ℕ M
  from_start n [] = []
  from_start n ((seq, m) ∷ rest) =
      let kept = from_start n rest in if ltb seq n then kept else (seq, m) ∷ kept

  -- `cleanupOrphanMessages`: the number that it deleted comes first.
  unfoldable pub cleanup_orphan_messages : ℕ → RemoteRows M → ℕ × RemoteRows M
  unfolding from_start
  cleanup_orphan_messages n r = (
    length r.pending - length (from_start n r.pending),
    record r { pending = from_start n r.pending },
  )

  pub get-from_start :
      (n seq : ℕ) (d : Dict ℕ M)
      → get seq (from_start n d) ≡ (if ltb seq n then none else get seq d)
  unfolding get from_start
  get-from_start n seq [] = ground arith
  get-from_start n seq ((i, m) ∷ d) = ground (arith, get-from_start n seq d)
