-- ===== src/Remotes/Handle/Rounds.antt =====
-- One round of a flush of the transmit queue: what it sends, and that it comes nearer to the end.
use mathlib.Core.List.{append-nil}
use ocap_kernel.Prelude.{
  zero, nat_eq, ◌++◌, Option-cases, ◌∷◌, ◌⊎◌, arith, length, none, some, suc, ◌<◌, [], false, true,
  ◌+◌, ◌-◌, List, ◌≡◌, ◌≤◌, Option, ℕ,
}
use ocap_kernel.Dict.{get-delete_self, Dict, delete, get}
use ocap_kernel.Remotes.Handle.Rows.{get_pending_message, RemoteRows}
use ocap_kernel.Remotes.Handle.State.{Send, RemoteCommand, RemoteHandle}
use ocap_kernel.Remotes.Handle.Acks.{greater}
use ocap_kernel.Remotes.Handle.Transmit.{put_on_the_wire, flush_round}

abbrev pub first_owed : {B : Type 0} → RemoteHandle B → ℕ
first_owed h = greater (h.last_transmitted_seq + 1) h.start_seq

module _ {ℓ} {V : Type ℓ} where
  abbrev send_row : Option V → List V
  send_row none = []
  send_row (some v) = v ∷ []

  length-delete :
      (k : ℕ) (m : Dict ℕ V) → length (delete k m) + length (send_row (get k m)) ≤ length m
  unfolding get delete
  length-delete k [] = omega arith
  length-delete k ((j, v) ∷ m) = ground (arith, length-delete k m)

module _ {B : Type 0} where
  -- How many rounds a flush can still have
  abbrev pub rounds_left : RemoteHandle B → ℕ
  rounds_left h =
      greater h.start_seq h.next_send_seq - h.last_transmitted_seq + length h.awaiting_transmit

  -- The send of a row, if there is one
  abbrev pub send_of : ℕ → ℕ → Option (RemoteCommand B) → List (Send B)
  send_of queue seq none = []
  send_of queue seq (some m) = record { queue = queue; seq = seq; message = m } ∷ []

  -- The written messages of as many numbers from one on, in the order of their numbers
  abbrev pub sends_from : ℕ → RemoteRows (RemoteCommand B) → ℕ → ℕ → List (Send B)
  sends_from queue r seq zero = []
  sends_from queue r seq (suc n) =
      send_of queue seq (get_pending_message seq r) ++ sends_from queue r (seq + 1) n

  -- The next number is not one that was given up, and its message has no row or is not due yet.
  abbrev pub IsSettledAt : RemoteHandle B → Type 0
  IsSettledAt h =
      (h.start_seq ≤ h.last_transmitted_seq + 1)
      × (get (h.last_transmitted_seq + 1) h.awaiting_transmit ≡ none)
      × ((h.next_send_seq < h.last_transmitted_seq + 1)
          ⊎ (get_pending_message (h.last_transmitted_seq + 1) h.rows ≡ none))

  -- How a round leaves what the rounds after it read
  pub record IsRound (h h' : RemoteHandle B) : Type 0 where
    pub same_rows : h'.rows ≡ h.rows
    pub same_queue : h'.outbound_queue_id ≡ h.outbound_queue_id
    pub advanced : h'.last_transmitted_seq ≡ h.last_transmitted_seq + 1
    pub owed :
        ((h.last_transmitted_seq + 1 < h.start_seq)
          × (h'.start_seq ≡ h.start_seq)
          × (h'.outbound_chain ≡ h.outbound_chain))
        ⊎ ((h.start_seq ≤ h.last_transmitted_seq + 1)
            × (h'.start_seq ≤ h.last_transmitted_seq + 1)
            × (h'.outbound_chain
                ≡ h.outbound_chain
                  ++ send_of h.outbound_queue_id
                      (h.last_transmitted_seq + 1)
                      (get_pending_message (h.last_transmitted_seq + 1) h.rows)))

  pub flush_round-rounds_left :
      (h : RemoteHandle B)
      → (flush_round h).0 ≡ true
      → rounds_left (flush_round h).1 < rounds_left h
  unfolding flush_round put_on_the_wire
  flush_round-rounds_left h q = ground (
    arith,
    length-delete (h.last_transmitted_seq + 1) h.awaiting_transmit,
    Option-cases (get (h.last_transmitted_seq + 1) h.awaiting_transmit),
    Option-cases (get (h.last_transmitted_seq + 1) h.rows.pending),
  )

  -- A flush stops where the next number has not been issued, or its message has no row.
  pub record IsStop (h h' : RemoteHandle B) : Type 0 where
    pub chain_kept : h'.outbound_chain ≡ h.outbound_chain
    pub last_kept : h'.last_transmitted_seq ≡ h.last_transmitted_seq
    pub rows_kept : h'.rows ≡ h.rows
    pub nothing_due : IsSettledAt h'

  pub flush_round-IsStop :
      (h : RemoteHandle B) → (flush_round h).0 ≡ false → IsStop h (flush_round h).1
  unfolding flush_round put_on_the_wire
  flush_round-IsStop h q = record {
    chain_kept = ground (arith, Option-cases (get (h.last_transmitted_seq + 1) h.rows.pending));
    last_kept = ground (arith, Option-cases (get (h.last_transmitted_seq + 1) h.rows.pending));
    rows_kept = ground (arith, Option-cases (get (h.last_transmitted_seq + 1) h.rows.pending));
    nothing_due = ground (
      arith,
      get-delete_self (h.last_transmitted_seq + 1) h.awaiting_transmit,
      Option-cases (get (h.last_transmitted_seq + 1) h.rows.pending),
    );
  }

  pub flush_round-IsRound :
      (h : RemoteHandle B) → (flush_round h).0 ≡ true → IsRound h (flush_round h).1
  unfolding flush_round put_on_the_wire
  flush_round-IsRound h q = record {
    same_rows = ground (arith, Option-cases (get (h.last_transmitted_seq + 1) h.rows.pending));
    same_queue = ground (arith, Option-cases (get (h.last_transmitted_seq + 1) h.rows.pending));
    advanced = ground (arith, Option-cases (get (h.last_transmitted_seq + 1) h.rows.pending));
    owed = ground (
      arith,
      append-nil h.outbound_chain,
      Option-cases (get (h.last_transmitted_seq + 1) h.rows.pending),
    );
  }
