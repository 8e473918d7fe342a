-- ===== src/Remotes/Streaks.antt =====
-- The flag of permanent failure is what counting alike errors says.
use ocap_kernel.Dict.{get-put, get}
use ocap_kernel.Prelude.{
  ◌∙◌, ◌==◌, Eq, inr, inl, Bool-cases, length-append, ltb, ◌↔◌, refl, true, zero, [], leb, ◌++◌,
  ◌-◌, arith, suc, ◌&&◌, ◌≡◌, ◌≤◌, if◌then◌else◌, length, ◌∷◌, List, ℕ,
}
use ocap_kernel.Exec.{ok}
use ocap_kernel.Remotes.Reconnection.{
  state_of, ReconnectionManager, make_manager, record_error, other_code, all_code, shows_failure,
  code_beq, drop, is_permanent, ReconnectionState, ErrorRecord, last_of, check_permanent_failure,
  ErrorCode, add_error,
}
use ocap_kernel.Remotes.Failures.{streak, has_failed, length-drop}

-- How many of the records, from the end back, have the code
abbrev pub tail_streak : ErrorCode → List ErrorRecord → ℕ
tail_streak c [] = 0
tail_streak c (x ∷ xs) =
    let rest = tail_streak c xs in if all_code c xs && code_beq x.code c then suc rest else rest

code_beq_iff : (a b : ErrorCode) → (code_beq a b ≡ true) ↔ (a ≡ b)
code_beq_iff (other_code a) (other_code b) = ground arith
code_beq_iff _ _ = ground arith

all_code-snoc :
    (c : ErrorCode) (xs : List ErrorRecord) (r : ErrorRecord)
    → all_code c (xs ++ r ∷ []) ≡ (all_code c xs && code_beq r.code c)
all_code-snoc c [] r = ground arith
all_code-snoc c (x ∷ xs) r = ground (arith, all_code-snoc c xs r)

-- All have the code exactly if the streak is as long as the list.
tail_streak-all :
    (c : ErrorCode) (xs : List ErrorRecord)
    → (tail_streak c xs ≤ length xs) × ((all_code c xs ≡ true) ↔ (tail_streak c xs ≡ length xs))
tail_streak-all c [] = ground arith
tail_streak-all c (x ∷ xs) = ground (arith, tail_streak-all c xs)

tail_streak-snoc :
    (c : ErrorCode) (xs : List ErrorRecord) (r : ErrorRecord)
    → tail_streak c (xs ++ r ∷ []) ≡ (if code_beq r.code c then suc (tail_streak c xs) else 0)
tail_streak-snoc c [] r = ground arith
tail_streak-snoc c (x ∷ xs) r = ground (arith, tail_streak-snoc c xs r, all_code-snoc c xs r)

abbrev min : ℕ → ℕ → ℕ
min a b = if leb a b then a else b

tail_streak-drop :
    (c : ErrorCode) (k : ℕ) (xs : List ErrorRecord)
    → tail_streak c (drop k xs) ≡ min (tail_streak c xs) (length xs - k)
tail_streak-drop c zero xs = ground (arith, tail_streak-all c xs)
tail_streak-drop c (suc k) [] = ground arith
tail_streak-drop c (suc k) (x ∷ xs) = ground (arith, tail_streak-drop c k xs, tail_streak-all c xs)

-- A list whose last record has the code `c` shows a failure only for `c`.
shows_failure-snoc :
    (xs : List ErrorRecord) (r : ErrorRecord)
    → shows_failure (xs ++ r ∷ []) ≡ (all_code r.code (xs ++ r ∷ []) && is_permanent r.code)
shows_failure-snoc [] r = ground arith
shows_failure-snoc (x ∷ xs) r = ground (
  arith,
  all_code-snoc x.code xs r,
  all_code-snoc r.code xs r,
  code_beq_iff x.code r.code,
  code_beq_iff r.code x.code,
  code_beq_iff r.code r.code,
  code_beq_iff x.code x.code,
)

drop-snoc :
    (k : ℕ) (xs : List ErrorRecord) (r : ErrorRecord)
    → k ≤ length xs
    → drop k (xs ++ r ∷ []) ≡ drop k xs ++ r ∷ []
drop-snoc zero xs r h = refl
drop-snoc (suc k) [] r h = absurd (omega arith)
drop-snoc (suc k) (x ∷ xs) r h = drop-snoc k xs r (omega arith)

-- The history that `recordError` keeps
abbrev capped : ℕ → List ErrorRecord → List ErrorRecord
capped n xs = if ltb n (length xs) then drop (length xs - n) xs else xs

capped-length : (n : ℕ) (xs : List ErrorRecord) → length (capped n xs) ≡ min n (length xs)
capped-length n xs = ground (arith, length-drop (length xs - n) xs)

capped-tail :
    (n : ℕ) (c : ErrorCode) (xs : List ErrorRecord)
    → min n (tail_streak c (capped n xs)) ≡ min n (tail_streak c xs)
capped-tail n c xs = ground (arith, tail_streak-drop c (length xs - n) xs)

capped-shows :
    (n : ℕ) (xs : List ErrorRecord) (r : ErrorRecord)
    → shows_failure (capped (suc n) (xs ++ r ∷ []))
      ≡ (all_code r.code (capped (suc n) (xs ++ r ∷ [])) && is_permanent r.code)
capped-shows n xs r = elim (Bool-cases (ltb (suc n) (length (xs ++ r ∷ [])))) [
  | inl h ↦
      let e =
        drop-snoc (length (xs ++ r ∷ []) - suc n) xs r (omega (arith, length-append xs (r ∷ []))) in
      rw (h, e) (shows_failure-snoc (drop (length (xs ++ r ∷ []) - suc n) xs) r)
  | inr h ↦ rw (h) (shows_failure-snoc xs r)
]

streak-le : (c : ErrorCode) (log : List ErrorCode) → streak c log ≤ length log
streak-le c [] = omega arith
streak-le c (x ∷ xs) = ground (arith, streak-le c xs)

checked-history :
    (n : ℕ) (s : ReconnectionState) → (check_permanent_failure n s).error_history ≡ s.error_history
unfolding check_permanent_failure
checked-history n s = ground arith

-- What the state of a peer keeps of the errors since it was fresh
record Remembers (n : ℕ) (log : List ErrorCode) (s : ReconnectionState) : Type 0 where
  kept : length s.error_history ≡ min n (length log)
  alike : (c : ErrorCode) → min n (tail_streak c s.error_history) ≡ min n (streak c log)
  flag : s.permanently_failed ≡ has_failed n log

module _ (n : ℕ) (c : ErrorCode) (now : ℕ) (log : List ErrorCode) (s : ReconnectionState)
    (m : Remembers (suc n) log s) where
  abbrev noted : ErrorRecord
  noted = record { code = c; timestamp = now }

  abbrev history : List ErrorRecord
  history = capped (suc n) (s.error_history ++ noted ∷ [])

  noted-kept : length history ≡ min (suc n) (length (c ∷ log))
  noted-kept = ground (
    arith,
    m.kept,
    capped-length (suc n) (s.error_history ++ noted ∷ []),
    length-append s.error_history (noted ∷ []),
  )

  noted-alike :
      (d : ErrorCode) → min (suc n) (tail_streak d history) ≡ min (suc n) (streak d (c ∷ log))
  noted-alike d = ground (
    arith,
    m.alike d,
    capped-tail (suc n) d (s.error_history ++ noted ∷ []),
    tail_streak-snoc d s.error_history noted,
  )

  noted-flag :
      (check_permanent_failure (suc n) (record s { error_history = history })).permanently_failed
      ≡ has_failed (suc n) (c ∷ log)
  unfolding check_permanent_failure last_of
  noted-flag = elim (Bool-cases (ltb (length history) (suc n))) [
    | inl h ↦ rw (h) (ground (arith, m.flag, noted-kept, streak-le c log))
    | inr h ↦
        let e : length history - suc n ≡ 0 = ground (arith, noted-kept) in
        rw (h, e, capped-shows n s.error_history noted)
          (ground
            (arith, m.flag, noted-kept, noted-alike c, tail_streak-all c history, code_beq_iff c c))
  ]

  add_error-Remembers : Remembers (suc n) (c ∷ log) (add_error (suc n) c now s)
  unfolding add_error
  add_error-Remembers =
      let e = checked-history (suc n) (record s { error_history = history }) in
      record { kept = rw (e) noted-kept; alike = λ d. rw (e) (noted-alike d); flag = noted-flag }

module _ {K : Type 0} ⦃e : Eq K⦄ where
  -- Calls of `recordError`, each with its peer, code and time
  unfoldable pub record_errors :
      List (K × (ErrorCode × ℕ)) → ReconnectionManager K → ReconnectionManager K
  record_errors [] m = m
  record_errors (x ∷ xs) m = record_errors xs (record_error x.0 x.1.0 x.1.1 m)

  -- The codes of the peer's errors, after those in `log`, the last one first
  unfoldable pub codes_of : K → List (K × (ErrorCode × ℕ)) → List ErrorCode → List ErrorCode
  codes_of k [] log = log
  codes_of k (x ∷ xs) log = codes_of k xs (if x.0 == k then x.1.0 ∷ log else log)

  recorded-Remembers :
      (n : ℕ) (k : K) (x : K × (ErrorCode × ℕ)) (m : ReconnectionManager K) (log : List ErrorCode)
      → m.threshold ≡ suc n
      → Remembers (suc n) log (state_of k m)
      → Remembers
          (suc n)
          (if x.0 == k then x.1.0 ∷ log else log)
          (state_of k (record_error x.0 x.1.0 x.1.1 m))
  unfolding record_error
  recorded-Remembers n k x m log t r = elim (Bool-cases (x.0 == k)) [
    | inl h ↦
        let j : x.0 ≡ k = (e.beq_iff x.0 k).0 h in
        rw (h, get-put x.0 k (add_error m.threshold x.1.0 x.1.1 (state_of x.0 m)) m.states, h, j, t)
          (add_error-Remembers n x.1.0 x.1.1 log (state_of k m) r)
    | inr h ↦
        rw (h, get-put x.0 k (add_error m.threshold x.1.0 x.1.1 (state_of x.0 m)) m.states, h) r
  ]

  threshold-record_error :
      (k : K) (c : ErrorCode) (now : ℕ) (m : ReconnectionManager K)
      → (record_error k c now m).threshold ≡ m.threshold
  unfolding record_error
  threshold-record_error k c now m = refl

  record_errors-flag :
      (n : ℕ) (k : K) (xs : List (K × (ErrorCode × ℕ))) (m : ReconnectionManager K)
      (log : List ErrorCode)
      → m.threshold ≡ suc n
      → Remembers (suc n) log (state_of k m)
      → (state_of k (record_errors xs m)).permanently_failed
        ≡ has_failed (suc n) (codes_of k xs log)
  unfolding record_errors codes_of
  record_errors-flag n k [] m log t r = r.flag
  record_errors-flag n k (x ∷ xs) m log t r =
      record_errors-flag n k xs (record_error x.0 x.1.0 x.1.1 m)
        (if x.0 == k then x.1.0 ∷ log else log) (threshold-record_error x.0 x.1.0 x.1.1 m ∙ t)
        (recorded-Remembers n k x m log t r)

  fresh-Remembers :
      (n : ℕ) (m : ReconnectionManager K) (k : K)
      → make_manager (suc n) ≡ ok m
      → (m.threshold ≡ suc n) × Remembers (suc n) [] (state_of k m)
  unfolding make_manager get
  fresh-Remembers n m k h = ground arith

  -- After `recordError` calls for any peers on a new manager with a positive threshold, a peer counts as
  -- permanently failed exactly if at some time its last errors, as many as the threshold, were alike and of
  -- a permanent code.
  pub record_errors-has_failed :
      (n : ℕ) (m : ReconnectionManager K) (xs : List (K × (ErrorCode × ℕ))) (k : K)
      → make_manager (suc n) ≡ ok m
      → (state_of k (record_errors xs m)).permanently_failed ≡ has_failed (suc n) (codes_of k xs [])
  record_errors-has_failed n m xs k h =
      let (t, r) = fresh-Remembers n m k h in record_errors-flag n k xs m [] t r
