-- ===== src/Remotes/Reconnection.antt =====
-- Reconnection to remote kernels (packages/ocap-kernel/src/remotes/platform/reconnection.ts). The clock is
-- an argument of the method that reads it.
use ocap_kernel.Exec.{ok, bad_threshold, err, Result}
use ocap_kernel.Prelude.{
  ltb, nat_beq, none, zero, ◌&&◌, [], if◌then◌else◌, length, some, suc, true, ◌++◌, ◌+◌, ◌-◌, ◌∷◌,
  Bool, Eq, List, Option, false, ℕ,
}
use ocap_kernel.Dict.{delete, get, put, Dict}

-- An error code: those of `PERMANENT_FAILURE_ERROR_CODES`, or another one, named by a number
pub data ErrorCode : Type 0 where
  econnrefused ehostunreach enotfound enetunreach : ErrorCode
  other_code : ℕ → ErrorCode

abbrev pub code_beq : ErrorCode → ErrorCode → Bool
code_beq econnrefused econnrefused = true
code_beq ehostunreach ehostunreach = true
code_beq enotfound enotfound = true
code_beq enetunreach enetunreach = true
code_beq (other_code a) (other_code b) = nat_beq a b
code_beq _ _ = false

-- `PERMANENT_FAILURE_ERROR_CODES.has(code)`
abbrev pub is_permanent : ErrorCode → Bool
is_permanent (other_code n) = false
is_permanent _ = true

pub record ErrorRecord : Type 0 where
  pub code : ErrorCode
  pub timestamp : ℕ

pub record ReconnectionState : Type 0 where
  pub is_reconnecting : Bool
  pub attempt_count : ℕ
  pub error_history : List ErrorRecord
  pub permanently_failed : Bool

abbrev pub fresh_state : ReconnectionState
fresh_state = record {
  is_reconnecting = false;
  attempt_count = 0;
  error_history = [];
  permanently_failed = false;
}

-- `xs.slice(-n)` for a positive `n`
abbrev pub drop : ℕ → List ErrorRecord → List ErrorRecord
drop zero xs = xs
drop (suc n) [] = []
drop (suc n) (x ∷ xs) = drop n xs

unfoldable pub last_of : ℕ → List ErrorRecord → List ErrorRecord
last_of n xs = drop (length xs - n) xs

-- `recentErrors.every((error) => error.code === firstCode)`
abbrev pub all_code : ErrorCode → List ErrorRecord → Bool
all_code c [] = true
all_code c (x ∷ xs) = code_beq x.code c && all_code c xs

-- All of them have the code of the first, which is a permanent one.
abbrev pub shows_failure : List ErrorRecord → Bool
shows_failure [] = false
shows_failure (x ∷ xs) = all_code x.code (x ∷ xs) && is_permanent x.code

-- `#checkPermanentFailure`
unfoldable pub check_permanent_failure : ℕ → ReconnectionState → ReconnectionState
unfolding last_of
check_permanent_failure threshold s =
    if ltb (length s.error_history) threshold
    then s
    else if shows_failure (last_of threshold s.error_history)
    then record s { permanently_failed = true }
    else s

-- `recordError`, on the state of the peer
unfoldable pub add_error : ℕ → ErrorCode → ℕ → ReconnectionState → ReconnectionState
unfolding last_of check_permanent_failure
add_error threshold c now s =
    let history = s.error_history ++ record { code = c; timestamp = now } ∷ [] in
    check_permanent_failure threshold (record s {
      error_history = if ltb threshold (length history) then last_of threshold history else history;
    })

-- `startReconnection`, on the state of the peer
unfoldable pub start : ReconnectionState → Bool × ReconnectionState
start s = if s.permanently_failed then (false, s) else (
  true,
  record (if s.is_reconnecting then s else record s { attempt_count = 0; error_history = [] }) {
    is_reconnecting = true;
  },
)

-- `resetAllBackoffs`, on one state
unfoldable pub reset_after_wake : ReconnectionState → ReconnectionState
reset_after_wake s = record s {
  permanently_failed = false;
  error_history = [];
  attempt_count = if s.is_reconnecting then 0 else s.attempt_count;
}

pub record ReconnectionManager (K : Type 0) : Type 0 where
  pub states : Dict K ReconnectionState
  pub threshold : ℕ

abbrev pub or_fresh : Option ReconnectionState → ReconnectionState
or_fresh none = fresh_state
or_fresh (some s) = s

module _ {K : Type 0} ⦃e : Eq K⦄ where
  -- The constructor: without a threshold it is `DEFAULT_CONSECUTIVE_ERROR_THRESHOLD`.
  unfoldable pub make_manager : ℕ → Result (ReconnectionManager K)
  make_manager zero = err bad_threshold
  make_manager (suc n) = ok (record { states = []; threshold = suc n })

  -- `#getState`
  abbrev pub state_of : K → ReconnectionManager K → ReconnectionState
  state_of k m = or_fresh (get k m.states)

  -- A change of the state that `#getState` finds or makes
  abbrev pub with_state :
      K → (ReconnectionState → ReconnectionState) → ReconnectionManager K → ReconnectionManager K
  with_state k f m = record m { states = put k (f (state_of k m)) m.states }

  unfoldable pub start_reconnection : K → ReconnectionManager K → Bool × ReconnectionManager K
  unfolding start
  start_reconnection k m = ((start (state_of k m)).0, with_state k (λ s. (start s).1) m)

  unfoldable pub stop_reconnection : K → ReconnectionManager K → ReconnectionManager K
  stop_reconnection k = with_state k (λ s. record s { is_reconnecting = false })

  unfoldable pub increment_attempt : K → ReconnectionManager K → ℕ × ReconnectionManager K
  increment_attempt k m = (
    (state_of k m).attempt_count + 1,
    with_state k (λ s. record s { attempt_count = s.attempt_count + 1 }) m,
  )

  -- Subtraction stops at 0, as the code's guard does.
  unfoldable pub decrement_attempt : K → ReconnectionManager K → ReconnectionManager K
  decrement_attempt k = with_state k (λ s. record s { attempt_count = s.attempt_count - 1 })

  unfoldable pub reset_backoff : K → ReconnectionManager K → ReconnectionManager K
  reset_backoff k = with_state k (λ s. record s { attempt_count = 0; error_history = [] })

  unfoldable pub should_retry : K → ℕ → ReconnectionManager K → Bool
  should_retry k zero m = true
  should_retry k (suc n) m = ltb (state_of k m).attempt_count (suc n)

  unfoldable pub reset_rows : Dict K ReconnectionState → Dict K ReconnectionState
  unfolding reset_after_wake
  reset_rows [] = []
  reset_rows ((k, s) ∷ m) = (k, reset_after_wake s) ∷ reset_rows m

  -- `resetAllBackoffs`
  unfoldable pub reset_all_backoffs : ReconnectionManager K → ReconnectionManager K
  unfolding reset_rows
  reset_all_backoffs m = record m { states = reset_rows m.states }

  unfoldable pub record_error : K → ErrorCode → ℕ → ReconnectionManager K → ReconnectionManager K
  unfolding add_error
  record_error k c now m = with_state k (add_error m.threshold c now) m

  unfoldable pub clear_permanent_failure : K → ReconnectionManager K → ReconnectionManager K
  clear_permanent_failure k =
      with_state k (λ s. record s { permanently_failed = false; error_history = [] })

  -- `clearPeer`
  unfoldable pub clear_peer : K → ReconnectionManager K → ReconnectionManager K
  clear_peer k m = record m { states = delete k m.states }
