-- ===== src/Remotes/Handle/Flushing.antt =====
-- What a flush of the transmit queue sends, and that it comes to an end.
use mathlib.Core.List.{append-nil, append_assoc}
use ocap_kernel.Prelude.{
  zero, false, inr, refl, if◌then◌else◌, ◌∙◌, ◌⊎◌, arith, inl, true, ◌++◌, ◌-◌, ◌<◌, suc, ◌+◌, ◌≡◌,
  ◌≤◌, Bool, ℕ,
}
use ocap_kernel.Remotes.Handle.Rounds.{
  flush_round-IsStop, flush_round-rounds_left, IsSettledAt, flush_round-IsRound, sends_from,
  first_owed, IsRound, rounds_left,
}
use ocap_kernel.Exec.{ok, Exec}
use ocap_kernel.Remotes.Handle.Transmit.{
  continue_with, flush_fuel, flush_round, flush_loop, flush_transmit_queue,
}
use ocap_kernel.Remotes.Handle.State.{RemoteHandle}

pub if-cases :
    {A : Type 0} (x y : A) (b : Bool) → ((if b then x else y) ≡ x) ⊎ ((if b then x else y) ≡ y)
if-cases x y true = inl refl
if-cases x y false = inr refl

pub if-false : {A : Type 0} (x y : A) (b : Bool) → b ≡ false → (if b then x else y) ≡ y
if-false x y b q = rw q refl

pub if_twice-cases :
    {A : Type 0} (b c : Bool) (x y z : A)
    → ((if b then x else (if c then y else z)) ≡ x)
      ⊎ (((if b then x else (if c then y else z)) ≡ y)
          ⊎ ((if b then x else (if c then y else z)) ≡ z))
if_twice-cases true c x y z = inl refl
if_twice-cases false true x y z = inr (inl refl)
if_twice-cases false false x y z = inr (inr refl)

pub if-true : {A : Type 0} (x y : A) (b : Bool) → b ≡ true → (if b then x else y) ≡ x
if-true x y b q = rw q refl

module _ {B : Type 0} where
  not_yet_owed :
      (h h' : RemoteHandle B)
      → IsRound h h'
      → h.last_transmitted_seq + 1 < h.start_seq
      → h'.start_seq ≡ h.start_seq
      → first_owed h' ≡ first_owed h
  not_yet_owed h h' round lt q = ground (arith, round.advanced)

  later :
      (h h' : RemoteHandle B)
      → IsRound h h'
      → h'.start_seq ≤ h.last_transmitted_seq + 1
      → first_owed h' ≡ h.last_transmitted_seq + 1 + 1
  later h h' round le = ground (arith, round.advanced)

  here :
      (h : RemoteHandle B)
      → h.start_seq ≤ h.last_transmitted_seq + 1
      → first_owed h ≡ h.last_transmitted_seq + 1
  here h le = ground arith

  one_more :
      (h h' t : RemoteHandle B)
      → IsRound h h'
      → h'.last_transmitted_seq ≤ t.last_transmitted_seq
      → t.last_transmitted_seq + 1 - (h.last_transmitted_seq + 1)
        ≡ suc (t.last_transmitted_seq + 1 - (h.last_transmitted_seq + 1 + 1))
  one_more h h' t round le = omega (arith, round.advanced)

  abbrev IsExact : RemoteHandle B → RemoteHandle B → Type 0
  IsExact h t =
      t.outbound_chain
      ≡ h.outbound_chain
        ++ sends_from h.outbound_queue_id h.rows (first_owed h)
            (t.last_transmitted_seq + 1 - first_owed h)

  IsExact-stop : (h : RemoteHandle B) → IsExact h h
  IsExact-stop h = rw (no_sends, append-nil) refl
    where
      no_sends : h.last_transmitted_seq + 1 - first_owed h ≡ 0
      no_sends = ground arith

  IsExact-round :
      (h h' t : RemoteHandle B)
      → IsRound h h'
      → h'.last_transmitted_seq ≤ t.last_transmitted_seq
      → IsExact h' t
      → IsExact h t
  IsExact-round h h' t round le exact = elim round.owed [
    | inl (lt, same_start, same_chain) ↦
        exact
        ∙ rw (same_chain, round.same_queue, round.same_rows, not_yet_owed h h' round lt same_start)
            refl
    | inr (ge, ge', chain) ↦
        exact
        ∙ rw
            (
              chain,
              round.same_queue,
              round.same_rows,
              later h h' round ge',
              here h ge,
              one_more h h' t round le,
              append_assoc,
            )
            refl
  ]

  continue-cases :
      (rest : Exec (RemoteHandle B) (Unit {0})) (p : Bool × RemoteHandle B)
      → ((p.0 ≡ true) × (continue_with rest p ≡ rest p.1))
        ⊎ ((p.0 ≡ false) × (continue_with rest p ≡ (ok tt, p.1)))
  continue-cases rest (true, h) = inl (refl, refl)
  continue-cases rest (false, h) = inr (refl, refl)

  pub flush_loop-cases :
      (n : ℕ) (h : RemoteHandle B)
      → ((flush_round h).0 ≡ true) × (flush_loop (suc n) h ≡ flush_loop n (flush_round h).1)
        ⊎ ((flush_round h).0 ≡ false) × (flush_loop (suc n) h ≡ (ok tt, (flush_round h).1))
  unfolding flush_loop
  flush_loop-cases n h = continue-cases (flush_loop n) (flush_round h)

  flush_loop-last :
      (n : ℕ) (h : RemoteHandle B)
      → h.last_transmitted_seq ≤ (flush_loop n h).1.last_transmitted_seq
  unfolding flush_loop
  flush_loop-last zero h = omega arith
  flush_loop-last (suc n) h = elim (flush_loop-cases n h) [
    | inl (q, e) ↦
        rw e
          (omega (arith, (flush_round-IsRound h q).advanced, flush_loop-last n (flush_round h).1))
    | inr (q, e) ↦ rw (e, (flush_round-IsStop h q).last_kept) (omega arith)
  ]

  flush_loop-IsExact : (n : ℕ) (h : RemoteHandle B) → IsExact h (flush_loop n h).1
  unfolding flush_loop
  flush_loop-IsExact zero h = IsExact-stop h
  flush_loop-IsExact (suc n) h = elim (flush_loop-cases n h) [
    | inl (q, e) ↦ rw e (
        IsExact-round h (flush_round h).1 (flush_loop n (flush_round h).1).1
          (flush_round-IsRound h q) (flush_loop-last n (flush_round h).1)
          (flush_loop-IsExact n (flush_round h).1))
    | inr (q, e) ↦
        rw (e, (flush_round-IsStop h q).chain_kept, (flush_round-IsStop h q).last_kept)
          (IsExact-stop h)
  ]

  flush_loop-Settles :
      (n : ℕ) (h : RemoteHandle B)
      → rounds_left h < n
      → ((flush_loop n h).0 ≡ ok tt) × IsSettledAt (flush_loop n h).1
  flush_loop-Settles zero h lt = absurd (omega arith)
  flush_loop-Settles (suc n) h lt = elim (flush_loop-cases n h) [
    | inl (q, e) ↦
        rw e (flush_loop-Settles n (flush_round h).1 (omega (arith, flush_round-rounds_left h q)))
    | inr (q, e) ↦ rw e (refl, (flush_round-IsStop h q).nothing_due)
  ]

  pub flush_transmit_queue-cases :
      (h : RemoteHandle B)
      → (flush_transmit_queue h ≡ flush_loop (flush_fuel h) h)
        ⊎ (flush_transmit_queue h ≡ (ok tt, h))
  unfolding flush_transmit_queue
  flush_transmit_queue-cases h = if-cases _ _ h.has_transport

  pub flush_transmit_queue_connected :
      (h : RemoteHandle B)
      → h.has_transport ≡ true
      → flush_transmit_queue h ≡ flush_loop (flush_fuel h) h
  unfolding flush_transmit_queue
  flush_transmit_queue_connected h q = if-true _ _ h.has_transport q

  -- With a transport, a flush comes to an end, and then nothing is due.
  pub flush_transmit_queue-Settles :
      (h : RemoteHandle B)
      → h.has_transport ≡ true
      → ((flush_transmit_queue h).0 ≡ ok tt) × IsSettledAt (flush_transmit_queue h).1
  flush_transmit_queue-Settles h q =
      rw (flush_transmit_queue_connected h q) (flush_loop-Settles (flush_fuel h) h (omega arith))

  -- A flush sends.
  pub flush_transmit_queue-sends :
      (h : RemoteHandle B)
      → h.has_transport ≡ true
      → (flush_transmit_queue h).1.outbound_chain
        ≡ h.outbound_chain
          ++ sends_from h.outbound_queue_id h.rows
              (first_owed h)
              ((flush_transmit_queue h).1.last_transmitted_seq + 1 - first_owed h)
  flush_transmit_queue-sends h q =
      rw (flush_transmit_queue_connected h q) (flush_loop-IsExact (flush_fuel h) h)

  -- A flush comes to an end, whether there is a transport or not.
  pub flush_transmit_queue-Returns : (h : RemoteHandle B) → (flush_transmit_queue h).0 ≡ ok tt
  flush_transmit_queue-Returns h = elim (flush_transmit_queue-cases h) [
    | inl e ↦ rw e (flush_loop-Settles (flush_fuel h) h (omega arith)).0
    | inr e ↦ rw e refl
  ]
