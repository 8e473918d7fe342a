-- ===== src/Remotes/Failures.antt =====
-- When a peer counts as permanently failed.
use ocap_kernel.Remotes.Reconnection.{
  code_beq, drop, is_permanent, ReconnectionState, ErrorRecord, last_of, check_permanent_failure,
  ErrorCode, add_error,
}
use ocap_kernel.Prelude.{
  zero, ◌||◌, [], leb, ◌++◌, ◌-◌, arith, suc, ◌&&◌, ◌≡◌, ◌≤◌, false, if◌then◌else◌, length, Bool,
  ◌∷◌, List, ℕ,
}

-- How many of the errors, from the last one back, have the code
abbrev pub streak : ErrorCode → List ErrorCode → ℕ
streak c [] = 0
streak c (x ∷ xs) = let rest = streak c xs in if code_beq x c then suc rest else 0

-- What the flag says by counting: some error, when it came, was a permanent one and the last of as many
-- alike as the threshold. The errors are listed with the last one first.
abbrev pub has_failed : ℕ → List ErrorCode → Bool
has_failed n [] = false
has_failed n (c ∷ cs) = (is_permanent c && leb n (suc (streak c cs))) || has_failed n cs

pub length-drop : (n : ℕ) (xs : List ErrorRecord) → length (drop n xs) ≡ length xs - n
length-drop zero xs = omega arith
length-drop (suc n) [] = omega arith
length-drop (suc n) (x ∷ xs) = omega (arith, length-drop n xs)

-- The error history that `recordError` leaves is no longer than the threshold, whatever it was.
pub add_error-bounded :
    (n : ℕ) (c : ErrorCode) (now : ℕ) (s : ReconnectionState)
    → length (add_error n c now s).error_history ≤ n
unfolding add_error check_permanent_failure last_of
add_error-bounded n c now s = ground (
  arith,
  length-drop (length (s.error_history ++ record { code = c; timestamp = now } ∷ []) - n)
      (s.error_history ++ record { code = c; timestamp = now } ∷ []),
)
