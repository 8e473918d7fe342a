-- ===== src/Remotes/RateLimiter.antt =====
-- The sliding window rate limiter (packages/ocap-kernel/src/remotes/platform/rate-limiter.ts). The
-- clock is an argument of the methods that read it, and the limits are whole numbers. The code's
-- `ts > now - windowMs` is `now < ts + window_ms`, which does not go below zero.
use ocap_kernel.Prelude.{
  zero, suc, none, ◌++◌, ◌+◌, if◌then◌else◌, leb, ltb, some, ◌∷◌, Bool, List, [], length, Eq,
  Option, ℕ,
}
use ocap_kernel.Exec.{ok, bad_threshold, limit_reached, err, Exec, Result}
use ocap_kernel.Dict.{get, Dict, delete, put}

pub record RateLimiter (K : Type 0) : Type 0 where
  pub max_events : ℕ
  pub window_ms : ℕ
  pub timestamps : Dict K (List ℕ)

-- `ts > cutoff`
abbrev pub is_recent : ℕ → ℕ → ℕ → Bool
is_recent w now ts = ltb now (ts + w)

-- `timestamps.filter((ts) => ts > cutoff)`
unfoldable pub recent : ℕ → ℕ → List ℕ → List ℕ
recent w now [] = []
recent w now (ts ∷ rest) =
    let kept = recent w now rest in if is_recent w now ts then ts ∷ kept else kept

abbrev pub or_none : Option (List ℕ) → List ℕ
or_none none = []
or_none (some xs) = xs

module _ {K : Type 0} ⦃e : Eq K⦄ where
  -- The constructor
  unfoldable pub make_rate_limiter : ℕ → ℕ → Result (RateLimiter K)
  make_rate_limiter zero w = err bad_threshold
  make_rate_limiter (suc n) zero = err bad_threshold
  make_rate_limiter (suc n) (suc w) =
      ok (record { max_events = suc n; window_ms = suc w; timestamps = [] })

  -- `getCurrentCount`
  unfoldable pub get_current_count : K → ℕ → RateLimiter K → ℕ
  unfolding recent
  get_current_count k now l = length (recent l.window_ms now (or_none (get k l.timestamps)))

  -- `wouldExceedLimit`
  unfoldable pub would_exceed_limit : K → ℕ → RateLimiter K → Bool
  unfolding get_current_count
  would_exceed_limit k now l = leb l.max_events (get_current_count k now l)

  -- `recordEvent`
  unfoldable pub record_event : K → ℕ → RateLimiter K → RateLimiter K
  unfolding recent
  record_event k now l = record l {
    timestamps =
        put k (recent l.window_ms now (or_none (get k l.timestamps)) ++ now ∷ []) l.timestamps;
  }

  -- `checkAndRecord`
  unfoldable pub check_and_record : K → ℕ → Exec (RateLimiter K) (Unit {0})
  unfolding get_current_count record_event
  check_and_record k now l =
      if leb l.max_events (get_current_count k now l)
      then (err limit_reached, l)
      else (ok tt, record_event k now l)

  -- `clearKey`
  unfoldable pub clear_key : K → RateLimiter K → RateLimiter K
  clear_key k l = record l { timestamps = delete k l.timestamps }

  -- `clear`
  unfoldable pub clear : RateLimiter K → RateLimiter K
  clear l = record l { timestamps = [] }

  -- A key without recent events goes.
  abbrev pub prune_row : K → List ℕ → Dict K (List ℕ) → Dict K (List ℕ)
  prune_row k [] rest = rest
  prune_row k (x ∷ xs) rest = (k, x ∷ xs) ∷ rest

  -- The loop of `pruneStale`
  unfoldable pub prune_rows : ℕ → ℕ → Dict K (List ℕ) → Dict K (List ℕ)
  unfolding recent
  prune_rows w now [] = []
  prune_rows w now ((k, xs) ∷ m) =
      let rest = prune_rows w now m in prune_row k (recent w now xs) rest

  -- `pruneStale`
  unfoldable pub prune_stale : ℕ → RateLimiter K → RateLimiter K
  unfolding prune_rows
  prune_stale now l = record l { timestamps = prune_rows l.window_ms now l.timestamps }
