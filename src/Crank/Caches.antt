-- ===== src/Crank/Caches.antt =====
-- The caches in memory and the database, through every history of cranks.
use ocap_kernel.Exec.{database, err, ok, Result}
use ocap_kernel.Prelude.{false, ◌⊎◌, ◌≡◌, true, List, [], ◌∷◌, ℕ}
use Prim.Native.String.{String}
use ocap_kernel.Store.State.{RunQueueItem}
use ocap_kernel.Crank.Savepoints.{
  Database, Context, start_crank, create_crank_savepoint, rollback_crank, end_crank,
  buffer_crank_output,
}

-- What happens to the context: a call of a method, and a write that goes through a cache, which puts down
-- the same value in the database and in memory.
pub data Step (kdb : Database) : Type 0 where
  starts : Step kdb
  creates : String → Step kdb
  rolls_back : String → Step kdb
  ends : Step kdb
  buffers : RunQueueItem → Step kdb
  writes : kdb.Rows → Step kdb

module _ (kdb : Database) where
  -- The context after a step, whether the call returns or throws.
  unfoldable pub after_step : Step kdb → Context kdb → Context kdb
  after_step starts c = (start_crank kdb c).1
  after_step (creates name) c = (create_crank_savepoint kdb name c).1
  after_step (rolls_back name) c = (rollback_crank kdb name c).1
  after_step ends c = (end_crank kdb c).1
  after_step (buffers item) c = buffer_crank_output kdb item c
  after_step (writes r) c = record c { rows = r; cached = kdb.content r }

  unfoldable pub after_steps : List (Step kdb) → Context kdb → Context kdb
  after_steps [] c = c
  after_steps (x ∷ xs) c = after_steps xs (after_step x c)

  -- The caches hold what the database holds.
  abbrev pub Agrees : Context kdb → Type 0
  Agrees c = c.cached ≡ kdb.content c.rows

-- What the database does for it: neither making a savepoint nor releasing one changes what a reader sees.
-- A rollback may do anything, and so may a release that fails. Reading may fail too.
pub record Savepoints (kdb : Database) : Type 0 where
  pub creating : (n : ℕ) (r : kdb.Rows) → kdb.content (kdb.create_savepoint n r).1 ≡ kdb.content r
  pub releasing :
      (n : ℕ) (r : kdb.Rows)
      → (kdb.release_savepoint n r).0 ≡ true
      → kdb.content (kdb.release_savepoint n r).1 ≡ kdb.content r

module _ (kdb : Database) where
  -- What a step gives its caller
  abbrev pub outcome : Step kdb → Context kdb → Result (Unit {0})
  outcome starts c = (start_crank kdb c).0
  outcome (creates name) c = (create_crank_savepoint kdb name c).0
  outcome (rolls_back name) c = (rollback_crank kdb name c).0
  outcome ends c = (end_crank kdb c).0
  outcome (buffers item) c = ok tt
  outcome (writes r) c = ok tt

  -- The call threw, and the database cannot be read.
  abbrev pub IsUnread : Result (Unit {0}) × Context kdb → Type 0
  IsUnread p = (kdb.can_read p.1.rows ≡ false) × (p.0 ≡ err database)

  -- Some step of the history did so.
  abbrev pub WasUnread : List (Step kdb) → Context kdb → Type 0
  WasUnread [] c = ⊥
  WasUnread (x ∷ xs) c =
      IsUnread (outcome x c, after_step kdb x c) ⊎ WasUnread xs (after_step kdb x c)

  abbrev Keeps : Result (Unit {0}) × Context kdb → Type 0
  Keeps p = Agrees kdb p.1 ⊎ IsUnread p
