-- ===== src/Crank/Savepoints.antt =====
-- The methods of packages/ocap-kernel/src/store/methods/crank.ts, over a database with savepoints that
-- is a parameter: its code is another package's.
use ocap_kernel.Prelude.{
  ℕ, suc, zero, Eq, ◌==◌, Bool, true, false, not, Option, none, some, List, [], ◌∷◌, ◌++◌,
  if◌then◌else◌, length, ◌+◌,
}
use Prim.Native.String.{String}
use text.Mathlib.Text.{◌==◌ as same_text}
use text.Mathlib.TextEquality.{eq_iff}
use ocap_kernel.Refs.{KRef}
use ocap_kernel.Exec.{
  Exec, Result, ok, err, raise, modify, require, gets, in_crank, outside_crank, no_savepoint,
  database, ◌>>=◌, ◌>>◌,
}
use ocap_kernel.Store.State.{RunQueueItem}

instance abbrev pub name_eq : Eq String
name_eq = record { beq_iff = eq_iff; beq = same_text }

-- `KernelDatabase`, as far as cranks use it. A call returns whether it succeeded. `content` is what a
-- reader sees, and `can_read` whether reading succeeds. A savepoint `t${n}` is the number `n`.
pub record Database : Type 1 where
  pub Rows : Type 0
  pub Content : Type 0
  pub content : Rows → Content
  pub can_read : Rows → Bool
  pub create_savepoint : ℕ → Rows → Bool × Rows
  pub rollback_savepoint : ℕ → Rows → Bool × Rows
  pub release_savepoint : ℕ → Rows → Bool × Rows

pub record Savepoint : Type 0 where
  pub name : String
  pub maybe_free_krefs : List KRef

-- The savepoint of the name that was taken first, with its ordinal and those below it.
unfoldable pub find_savepoint : String → ℕ → List Savepoint → Option (ℕ × Savepoint)
find_savepoint name n [] = none
find_savepoint name n (p ∷ ps) =
    let later = find_savepoint name (n + 1) ps in if p.name == name then some (n, p) else later

-- `savepoints.length = n`
unfoldable pub keep_first : ℕ → List Savepoint → List Savepoint
keep_first zero ps = []
keep_first (suc n) [] = []
keep_first (suc n) (p ∷ ps) = p ∷ keep_first n ps

abbrev pub outermost : List Savepoint → Option Savepoint
outermost [] = none
outermost (p ∷ ps) = some p

-- The fields of `StoreContext` that cranks touch. `cached` is what the cached stored values and the
-- limits of the run queue hold; `length_cache` is the count, where it is known; `settled` is
-- whether the promise of the last crank has settled.
pub record Context (kdb : Database) : Type 0 where
  pub rows : kdb.Rows
  pub cached : kdb.Content
  pub length_cache : Option ℕ
  pub maybe_free : List KRef
  pub crank_buffer : List RunQueueItem
  pub savepoints : List Savepoint
  pub is_in_crank : Bool
  pub settled : Bool

module _ (kdb : Database) where
  -- `startCrank`
  unfoldable pub start_crank : Exec (Context kdb) (Unit {0})
  start_crank = do
    inside ← gets (λ c. c.is_in_crank)
    require (not inside) in_crank
    modify (λ c. record c { is_in_crank = true; settled = false })

  -- A call of the database, which throws if it fails
  unfoldable pub call : (kdb.Rows → Bool × kdb.Rows) → Exec (Context kdb) (Unit {0})
  call f c =
      let (succeeds, rows) = f c.rows in
      (if succeeds then ok tt else err database, record c { rows = rows })

  -- `createCrankSavepoint`
  unfoldable pub create_crank_savepoint : String → Exec (Context kdb) (Unit {0})
  unfolding call
  create_crank_savepoint name = do
    inside ← gets (λ c. c.is_in_crank)
    require inside outside_crank
    n ← gets (λ c. length c.savepoints)
    call (kdb.create_savepoint n)
    modify (λ c. record c {
      savepoints = c.savepoints ++ (record { name = name; maybe_free_krefs = c.maybe_free }) ∷ [];
    })

  -- `revertStateBeneathRollback`; the two refreshes read the database, and fail together.
  unfoldable pub revert_state : Savepoint → Exec (Context kdb) (Unit {0})
  revert_state p c =
      let reverted = record c { maybe_free = p.maybe_free_krefs } in
      if kdb.can_read c.rows
      then (ok tt, record reverted { cached = kdb.content c.rows; length_cache = none })
      else (err database, reverted)

  -- What follows a failed rollback or release: all savepoints are lost, and the error is thrown.
  unfoldable pub lose_savepoints : Savepoint → Exec (Context kdb) (Unit {0})
  unfolding revert_state
  lose_savepoints p = do modify (λ c. record c { savepoints = [] }); revert_state p; raise database

  abbrev or_else : Option Savepoint → Savepoint → Savepoint
  or_else none p = p
  or_else (some o) p = o

  -- `rollbackCrank`, once the savepoint is found
  unfoldable pub rollback_to : ℕ → Savepoint → Exec (Context kdb) (Unit {0})
  rollback_to n p c =
      let (succeeds, rows) = kdb.rollback_savepoint n c.rows in
      (if succeeds
          then modify (λ c. record c { savepoints = keep_first n c.savepoints }) >> revert_state p
          else lose_savepoints (or_else (outermost c.savepoints) p))
        (record c { rows = rows })

  abbrev rollback_found : Option (ℕ × Savepoint) → Exec (Context kdb) (Unit {0})
  rollback_found none = raise no_savepoint
  rollback_found (some (n, p)) = rollback_to n p

  -- `rollbackCrank`
  unfoldable pub rollback_crank : String → Exec (Context kdb) (Unit {0})
  rollback_crank name = do
    inside ← gets (λ c. c.is_in_crank)
    require inside outside_crank
    modify (λ c. record c { crank_buffer = [] })
    found ← gets (λ c. find_savepoint name 0 c.savepoints)
    rollback_found found

  abbrev release_from : Option Savepoint → Exec (Context kdb) (Unit {0})
  release_from none c = (ok tt, c)
  release_from (some p) c =
      let (succeeds, rows) = kdb.release_savepoint 0 c.rows in
      (if succeeds then modify (λ c. record c { savepoints = [] }) else lose_savepoints p)
        (record c { rows = rows })

  -- `releaseAllSavepoints`
  unfoldable pub release_all_savepoints : Exec (Context kdb) (Unit {0})
  release_all_savepoints c = release_from (outermost c.savepoints) c

  -- `endCrank`: what stands under `finally` is done whatever the release gives.
  unfoldable pub settle : Result (Unit {0}) × Context kdb → Result (Unit {0}) × Context kdb
  settle (r, c) = (r, record c { is_in_crank = false; settled = true })

  unfoldable pub end_crank : Exec (Context kdb) (Unit {0})
  unfolding settle
  end_crank = do
    inside ← gets (λ c. c.is_in_crank)
    require inside outside_crank
    λ c. settle (release_all_savepoints c)

  -- `bufferCrankOutput`, `flushCrankBuffer`
  unfoldable pub buffer_crank_output : RunQueueItem → Context kdb → Context kdb
  buffer_crank_output item c = record c { crank_buffer = c.crank_buffer ++ item ∷ [] }

  unfoldable pub flush_crank_buffer : Context kdb → List RunQueueItem × Context kdb
  flush_crank_buffer c = (c.crank_buffer, record c { crank_buffer = [] })
