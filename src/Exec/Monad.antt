-- ===== src/Exec/Monad.antt =====
-- State and exceptions, for `do` blocks.
use ocap_kernel.Prelude.{Bool, true, false, Option, none, some, List, [], ◌∷◌}

-- The causes of the exceptions that the modelled methods throw.
pub data Error : Type 0 where
  underflow : Error
  ref_mismatch : Error
  deleted_kref : Error
  unmapped_kref : Error
  missing_row : Error
  not_owner : Error
  not_exported : Error
  still_reachable : Error
  promise_ref : Error
  not_object : Error
  not_promise : Error
  not_export_ref : Error
  not_unresolved : Error
  unknown_promise : Error
  unknown_queue : Error
  bad_ref : Error
  no_result : Error
  still_unresolved : Error
  not_decider : Error
  run_loop_dead : Error
  run_loop_stopped : Error
  bad_threshold : Error
  limit_reached : Error
  queue_full : Error
  no_subcluster : Error
  in_other_subcluster : Error
  unknown_reply : Error
  in_restart : Error
  invalid_syscall : Error
  in_crank : Error
  outside_crank : Error
  no_savepoint : Error
  database : Error
  out_of_fuel : Error

pub data Result {ℓ} (A : Type ℓ) : Type ℓ where
  ok : A → Result A
  err : Error → Result A

abbrev pub Exec {ℓ} : Type ℓ → Type ℓ → Type ℓ
Exec S A = S → Result A × S

module _ {ℓ} {S A : Type ℓ} where
  abbrev pub pure : A → Exec S A
  pure a s = (ok a, s)

  abbrev pub raise : Error → Exec S A
  raise e s = (err e, s)

  abbrev pub gets : (S → A) → Exec S A
  gets f s = (ok (f s), s)

  -- `kv.getRequired`, and `x ?? Fail`.
  abbrev pub required : Option A → Error → Exec S A
  required none e s = (err e, s)
  required (some a) e s = (ok a, s)

abbrev pub modify : {S : Type 0} → (S → S) → Exec S (Unit {0})
modify f s = (ok tt, f s)

abbrev pub done : {S : Type 0} → Exec S (Unit {0})
done s = (ok tt, s)

abbrev pub resume {ℓ} : {S A B : Type ℓ} → Result A → (A → Exec S B) → Exec S B
resume (ok a) f s = f a s
resume (err e) f s = (err e, s)

infixl 5 ◌>>=◌ ◌>>◌
abbrev pub ◌>>=◌ {ℓ} : {S A B : Type ℓ} → Exec S A → (A → Exec S B) → Exec S B
◌>>=◌ m f s = let (r, s') = m s in resume r f s'

abbrev pub ◌>>◌ {ℓ} : {S A B : Type ℓ} → Exec S A → Exec S B → Exec S B
m >> k = m >>= λ _. k

-- `condition || Fail`.
abbrev pub require : {S : Type 0} → Bool → Error → Exec S (Unit {0})
require true e s = (ok tt, s)
require false e s = (err e, s)

abbrev pub when : {S : Type 0} → Bool → Exec S (Unit {0}) → Exec S (Unit {0})
when true m = m
when false m = done

-- `for (const x of xs) { … }`: a throw ends the loop.
unfoldable pub for_each : {S A : Type 0} → List A → (A → Exec S (Unit {0})) → Exec S (Unit {0})
for_each [] f = done
for_each (x ∷ xs) f = let rest = for_each xs f in f x >> rest

-- `xs.map(f)` where `f` may throw.
unfoldable pub map_each : {S A B : Type 0} → List A → (A → Exec S B) → Exec S (List B)
map_each [] f = pure []
map_each (x ∷ xs) f = let rest = map_each xs f in f x >>= λ y. rest >>= λ ys. pure (y ∷ ys)
