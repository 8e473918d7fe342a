-- ===== src/Remotes/Handle/Retransmit.antt =====
-- Sending again everything that is not acknowledged
-- (packages/ocap-kernel/src/remotes/kernel/RemoteHandle.ts). The loop awaits each send; here nothing
-- else of the handle runs in between, and the sends ahead of it have gone.
use ocap_kernel.Prelude.{zero, none, suc, if◌then◌else◌, ◌-◌, [], some, ◌+◌, ◌∷◌, Option, List, ℕ}
use ocap_kernel.Remotes.Handle.Rows.{get_pending_message}
use ocap_kernel.Remotes.Handle.Transmit.{terminal, peer_restarted, SendOutcome, abandon}
use ocap_kernel.Remotes.Handle.State.{start_ack_timeout, RemoteHandle, RemoteCommand}

-- What the transport is handed, by number
abbrev pub Sent : Type 0 → Type 0
Sent B = List (ℕ × RemoteCommand B)

module _ {B : Type 0} where
  abbrev pub note_sent : ℕ × RemoteCommand B → Sent B × RemoteHandle B → Sent B × RemoteHandle B
  note_sent x (out, h) = (x ∷ out, h)

  -- A send of `#retransmitPending`, with what follows it
  abbrev pub after_resend :
      SendOutcome
      → (RemoteHandle B → Sent B × RemoteHandle B)
      → RemoteHandle B
      → Sent B × RemoteHandle B
  after_resend peer_restarted rest h = ([], start_ack_timeout h)
  after_resend terminal rest h = ([], abandon h)
  after_resend _ rest h = rest h

  abbrev pub resend_row :
      (ℕ → SendOutcome)
      → ℕ
      → Option (RemoteCommand B)
      → (RemoteHandle B → Sent B × RemoteHandle B)
      → RemoteHandle B
      → Sent B × RemoteHandle B
  resend_row outcome seq none rest h = rest h
  resend_row outcome seq (some m) rest h =
      if h.held_for_restart then rest h else note_sent (seq, m) (after_resend (outcome seq) rest h)

  -- The loop of `#retransmitPending`, of as many rounds, from a number on
  unfoldable pub retransmit_loop :
      (ℕ → SendOutcome) → ℕ → ℕ → RemoteHandle B → Sent B × RemoteHandle B
  retransmit_loop outcome zero seq h = ([], start_ack_timeout h)
  retransmit_loop outcome (suc n) seq h =
      let rest = retransmit_loop outcome n (seq + 1) in
      resend_row outcome seq (get_pending_message seq h.rows) rest h

  -- `#retransmitPending`
  unfoldable pub retransmit_pending : (ℕ → SendOutcome) → RemoteHandle B → Sent B × RemoteHandle B
  unfolding retransmit_loop
  retransmit_pending outcome h =
      retransmit_loop outcome (h.next_send_seq + 1 - h.start_seq) h.start_seq h
