-- ===== src/Tests/Remotes.antt =====
-- The theorems on communication with remote kernels and on references as text.
use ocap_kernel.Text.Slots.{parse_ref-text, IsWhole, ref_text, remote_context, parse_ref}
use ocap_kernel.Prelude.{◌↔◌, false, refl, some, arith, nat_eq, true, ◌≡◌, ◌≤◌, [], ℕ, ◌∷◌, List}
use ocap_kernel.Refs.{import_}
use ocap_kernel.Dict.{delete, put, get}
use ocap_kernel.Exec.{ok}
use ocap_kernel.Remotes.Failures.{has_failed}
use ocap_kernel.Remotes.RateBounds.{attempts-bounded, in_window, attempts}
use ocap_kernel.Remotes.Streaks.{record_errors-has_failed, record_errors, codes_of}
use ocap_kernel.Remotes.RateLimiter.{
  recent, record_event, check_and_record, get_current_count, RateLimiter, make_rate_limiter,
}
use ocap_kernel.Remotes.Reconnection.{
  enotfound, ErrorCode, econnrefused, state_of, ReconnectionManager, make_manager,
}

abbrev limiter : RateLimiter ℕ
limiter = record { max_events = 1; window_ms = 10; timestamps = [] }

-- The second call is refused, the third one is not.
attempts-bounded_example :
    in_window 10 7 15 (attempts ((7, 0) ∷ (7, 5) ∷ (7, 12) ∷ []) limiter []).1 ≤ 1
unfolding make_rate_limiter
attempts-bounded_example =
    attempts-bounded 1 10 limiter ((7, 0) ∷ (7, 5) ∷ (7, 12) ∷ []) 7 15 refl
      (omega arith, (omega arith, (omega arith, tt)))

attempts_run : (attempts ((7, 0) ∷ (7, 5) ∷ (7, 12) ∷ []) limiter []).1 ≡ (7, 12) ∷ (7, 0) ∷ []
unfolding attempts check_and_record get_current_count record_event recent get put delete
attempts_run = refl

abbrev manager : ReconnectionManager ℕ
manager = record { states = []; threshold = 2 }

-- Two refusals in a row, with an error of another peer between them
abbrev refusals : List (ℕ × (ErrorCode × ℕ))
refusals = (7, (econnrefused, 1)) ∷ (8, (enotfound, 2)) ∷ (7, (econnrefused, 3)) ∷ []

record_errors-has_failed_example :
    (state_of 7 (record_errors refusals manager)).permanently_failed
    ≡ has_failed 2 (codes_of 7 refusals [])
unfolding make_manager
record_errors-has_failed_example = record_errors-has_failed 1 manager refusals 7 refl

refusals_fail : has_failed 2 (codes_of 7 refusals []) ≡ true
unfolding codes_of
refusals_fail = refl

-- `ro-7`
parse_ref-text_example :
    (parse_ref (b'r' ∷ b'o' ∷ b'-' ∷ b'7' ∷ [])
      ≡ ok (record {
        context = remote_context;
        direction = some import_;
        is_promise = false;
        index = b'7' ∷ [];
      }))
    ↔ ((ref_text (record {
      context = remote_context;
      direction = some import_;
      is_promise = false;
      index = b'7' ∷ [];
    })
          ≡ b'r' ∷ b'o' ∷ b'-' ∷ b'7' ∷ [])
        × IsWhole remote_context (some import_))
parse_ref-text_example = parse_ref-text (b'r' ∷ b'o' ∷ b'-' ∷ b'7' ∷ []) (record {
  context = remote_context;
  direction = some import_;
  is_promise = false;
  index = b'7' ∷ [];
})
