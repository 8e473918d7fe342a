-- ===== src/Remotes/RateBounds.antt =====
-- How many events the rate limiter lets through.
use ocap_kernel.Prelude.{
  none, ap, ◌∙◌, inr, zero, inl, suc, Bool-cases, ◌<◌, leb, ltb, ◌&&◌, refl, ◌+◌, ◌==◌, [],
  if◌then◌else◌, ◌∷◌, arith, ◌++◌, ◌≡◌, length, ◌≤◌, List, ℕ, Eq,
}
use ocap_kernel.Remotes.RateLimiter.{
  prune_row, prune_rows, make_rate_limiter, prune_stale, record_event, get_current_count, or_none,
  check_and_record, RateLimiter, recent,
}
use ocap_kernel.Dict.{Dict, IsDict, get-put, get}
use ocap_kernel.Exec.{err, ok, Result}

-- A later time has no more recent events, and does not see what an earlier time left out.
pub recent_later :
    (w now t : ℕ) (xs : List ℕ) → now ≤ t → length (recent w t xs) ≤ length (recent w now xs)
unfolding recent
recent_later w now t [] h = omega arith
recent_later w now t (x ∷ xs) h = ground (arith, recent_later w now t xs h)

pub recent-recent :
    (w now t : ℕ) (xs : List ℕ)
    → now ≤ t
    → length (recent w t (recent w now xs)) ≡ length (recent w t xs)
unfolding recent
recent-recent w now t [] h = refl
recent-recent w now t (x ∷ xs) h = ground (arith, recent-recent w now t xs h)

recent-snoc :
    (w t now : ℕ) (xs : List ℕ)
    → length (recent w t (xs ++ now ∷ []))
      ≡ length (recent w t xs) + (if ltb t (now + w) then 1 else 0)
unfolding recent
recent-snoc w t now [] = ground arith
recent-snoc w t now (x ∷ xs) = ground (arith, recent-snoc w t now xs)

module _ {K : Type 0} ⦃e : Eq K⦄ where
  -- A call that returns has let its event through.
  abbrev pub logged : Result (Unit {0}) → K × ℕ → List (K × ℕ) → List (K × ℕ)
  logged (ok u) x log = x ∷ log
  logged (err e) x log = log

  -- The limiter after calls of `checkAndRecord` at these times, and the events let through, the last
  -- one first
  unfoldable pub attempts :
      List (K × ℕ) → RateLimiter K → List (K × ℕ) → RateLimiter K × List (K × ℕ)
  attempts [] l log = (l, log)
  attempts (x ∷ rest) l log =
      let (r, l') = check_and_record x.0 x.1 l in attempts rest l' (logged r x log)

  -- The clock does not go back.
  abbrev pub IsOrdered : ℕ → List (K × ℕ) → Type 0
  IsOrdered c [] = Unit
  IsOrdered c (x ∷ rest) = (c ≤ x.1) × IsOrdered x.1 rest

  -- How many events of the key were let through in the window of `w` that ends with `t`
  unfoldable pub in_window : ℕ → K → ℕ → List (K × ℕ) → ℕ
  in_window w k t [] = 0
  in_window w k t ((j, a) ∷ log) =
      (if (j == k) && (leb a t && ltb t (a + w)) then 1 else 0) + in_window w k t log

  -- How many of them are recent at `t`
  unfoldable pub seen : ℕ → K → ℕ → List (K × ℕ) → ℕ
  seen w k t [] = 0
  seen w k t ((j, a) ∷ log) = (if (j == k) && ltb t (a + w) then 1 else 0) + seen w k t log

  in_window-le-seen :
      (w : ℕ) (k : K) (t : ℕ) (log : List (K × ℕ)) → in_window w k t log ≤ seen w k t log
  unfolding in_window seen
  in_window-le-seen w k t [] = omega arith
  in_window-le-seen w k t ((j, a) ∷ log) = ground (arith, in_window-le-seen w k t log)

  seen_later :
      (w : ℕ) (k : K) (now t : ℕ) (log : List (K × ℕ)) → now ≤ t → seen w k t log ≤ seen w k now log
  unfolding seen
  seen_later w k now t [] h = omega arith
  seen_later w k now t ((j, a) ∷ log) h = ground (arith, seen_later w k now t log h)

  -- From the time `c` on, the limiter counts what the log has, and no window has too many.
  record Tracks (c : ℕ) (l : RateLimiter K) (log : List (K × ℕ)) : Type 0 where
    counts :
        (k : K) (t : ℕ)
        → c ≤ t
        → length (recent l.window_ms t (or_none (get k l.timestamps))) ≡ seen l.window_ms k t log
    limited : (k : K) (t : ℕ) → in_window l.window_ms k t log ≤ l.max_events

  -- The event is let through.
  recorded-Tracks :
      (c : ℕ) (l : RateLimiter K) (log : List (K × ℕ)) (k : K) (now : ℕ)
      → c ≤ now
      → Tracks c l log
      → get_current_count k now l < l.max_events
      → Tracks now (record_event k now l) ((k, now) ∷ log)
  unfolding get_current_count record_event seen in_window
  recorded-Tracks c l log k now h v m = record {
    counts = λ j t n. ground (
      arith,
      v.counts j t,
      v.counts k t,
      get-put k j (recent l.window_ms now (or_none (get k l.timestamps)) ++ now ∷ []) l.timestamps,
      recent-snoc l.window_ms t now (recent l.window_ms now (or_none (get k l.timestamps))),
      recent-recent l.window_ms now t (or_none (get k l.timestamps)) n,
      e.beq_iff k j,
    );
    limited = λ j t. ground (
      arith,
      v.limited j t,
      v.counts k now h,
      in_window-le-seen l.window_ms k t log,
      seen_later l.window_ms k now t log,
      e.beq_iff k j,
    );
  }

  later-Tracks :
      (c now : ℕ) (l : RateLimiter K) (log : List (K × ℕ))
      → c ≤ now
      → Tracks c l log
      → Tracks now l log
  later-Tracks c now l log h v = record {
    counts = λ k t n. v.counts k t (omega arith);
    limited = v.limited;
  }

  check_and_record-Tracks :
      (c : ℕ) (l : RateLimiter K) (log : List (K × ℕ)) (x : K × ℕ)
      → c ≤ x.1
      → Tracks c l log
      → Tracks x.1 (check_and_record x.0 x.1 l).1 (logged (check_and_record x.0 x.1 l).0 x log)
  unfolding check_and_record
  check_and_record-Tracks c l log (k, now) h v =
      elim (Bool-cases (leb l.max_events (get_current_count k now l))) [
        | inl q ↦ rw (q) (later-Tracks c now l log h v)
        | inr q ↦ rw (q) (recorded-Tracks c l log k now h v (ground arith))
      ]

  limits-check :
      (k : K) (now : ℕ) (l : RateLimiter K)
      → ((check_and_record k now l).1.max_events ≡ l.max_events)
        × ((check_and_record k now l).1.window_ms ≡ l.window_ms)
  unfolding check_and_record record_event
  limits-check k now l = ground arith

  attempts-Tracks :
      (n w : ℕ) (calls : List (K × ℕ)) (c : ℕ) (l : RateLimiter K) (log : List (K × ℕ))
      → l.max_events ≡ n
      → l.window_ms ≡ w
      → IsOrdered c calls
      → Tracks c l log
      → (k : K) (t : ℕ) → in_window w k t (attempts calls l log).1 ≤ n
  unfolding attempts
  attempts-Tracks n w [] c l log m u h v k t = rw (← m, ← u) (v.limited k t)
  attempts-Tracks n w (x ∷ rest) c l log m u h v k t =
      let (m', u') = limits-check x.0 x.1 l in
      attempts-Tracks n w rest x.1 (check_and_record x.0 x.1 l).1
        (logged (check_and_record x.0 x.1 l).0 x log) (m' ∙ m) (u' ∙ u) h.1
        (check_and_record-Tracks c l log x h.0 v) k t

  new_limited :
      (n w : ℕ) (l : RateLimiter K)
      → make_rate_limiter n w ≡ ok l
      → (l.max_events ≡ n) × (l.window_ms ≡ w) × Tracks 0 l []
  unfolding make_rate_limiter recent get seen in_window
  new_limited zero w l h = cc
  new_limited (suc n) zero l h = cc
  new_limited (suc n) (suc w) l h = ground arith

  -- If the clock does not go back, `checkAndRecord` of a new limiter lets no more events of one key through
  -- than the limit in any window of its length, whatever the calls.
  pub attempts-bounded :
      (n w : ℕ) (l : RateLimiter K) (calls : List (K × ℕ)) (k : K) (t : ℕ)
      → make_rate_limiter n w ≡ ok l
      → IsOrdered 0 calls
      → in_window w k t (attempts calls l []).1 ≤ n
  attempts-bounded n w l calls k t h o =
      let (m, u, v) = new_limited n w l h in attempts-Tracks n w calls 0 l [] m u o v k t

  get-prune_row :
      (k j : K) (ys zs : List ℕ) (m r : Dict K (List ℕ)) (w now : ℕ)
      → ys ≡ zs
      → get j m ≡ none
      → or_none (get k r) ≡ recent w now (or_none (get k m))
      → or_none (get k (prune_row j ys r))
        ≡ (if j == k then zs else recent w now (or_none (get k m)))
  unfolding get recent
  get-prune_row k j [] zs m r w now q n h = ground (arith, e.beq_iff j k)
  get-prune_row k j (y ∷ ys) zs m r w now q n h = ground arith

  get-prune_rows :
      (w now : ℕ) (k : K) (m : Dict K (List ℕ))
      → IsDict m
      → or_none (get k (prune_rows w now m)) ≡ recent w now (or_none (get k m))
  unfolding prune_rows get
  get-prune_rows w now k [] d = refl
  get-prune_rows w now k ((j, xs) ∷ m) d =
      let h =
        get-prune_row k j (recent w now xs) (recent w now xs) m (prune_rows w now m) w now refl d.0
          (get-prune_rows w now k m d.1) in
      ground arith

  -- Pruning, on rows of different keys, changes no count at that time or a later one.
  pub prune_stale-count :
      (l : RateLimiter K) (now t : ℕ) (k : K)
      → IsDict l.timestamps
      → now ≤ t
      → get_current_count k t (prune_stale now l) ≡ get_current_count k t l
  unfolding get_current_count prune_stale
  prune_stale-count l now t k d h =
      ap (λ xs. length (recent l.window_ms t xs)) (get-prune_rows l.window_ms now k l.timestamps d)
      ∙ recent-recent l.window_ms now t (or_none (get k l.timestamps)) h
