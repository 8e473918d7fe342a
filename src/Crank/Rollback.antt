-- ===== src/Crank/Rollback.antt =====
-- What the end and the rollback of a crank leave in memory, whatever the database does.
use ocap_kernel.Prelude.{
  Bool-cases, inl, inr, ap, ◌∙◌, ℕ, ◌≡◌, refl, true, false, none, some, List, [], ◌∷◌, ◌++◌, length,
  ◌+◌, arith,
}
use Prim.Native.String.{String}
use ocap_kernel.Refs.{KRef}
use ocap_kernel.Exec.{ok}
use ocap_kernel.Crank.Savepoints.{
  Database, Savepoint, Context, name_eq, find_savepoint, keep_first, call, create_crank_savepoint,
  rollback_crank, rollback_to, revert_state, lose_savepoints, release_all_savepoints, end_crank,
}

find-append :
    (name : String) (n m : ℕ) (ps : List Savepoint) (k : List KRef)
    → n + length ps ≡ m
    → find_savepoint name n ps ≡ none
    → find_savepoint name n (ps ++ (record { name = name; maybe_free_krefs = k }) ∷ [])
      ≡ some (m, record { name = name; maybe_free_krefs = k })
unfolding find_savepoint
find-append name n m [] k q h = ground (arith, name_eq.beq_iff name name)
find-append name n m (p ∷ ps) k q h = ground (arith, find-append name (n + 1) m ps k)

keep-append : (ps : List Savepoint) (p : Savepoint) → keep_first (length ps) (ps ++ p ∷ []) ≡ ps
unfolding keep_first
keep-append [] p = refl
keep-append (x ∷ ps) p = ap (◌∷◌ x) (keep-append ps p)

module _ (kdb : Database) where
  lose_savepoints-savepoints :
      (p : Savepoint) (c : Context kdb) → (lose_savepoints kdb p c).1.savepoints ≡ []
  unfolding lose_savepoints revert_state
  lose_savepoints-savepoints p c = elim (Bool-cases (kdb.can_read c.rows)) [
    | inl h ↦ rw (h, lose_savepoints) refl
    | inr h ↦ rw (h, lose_savepoints) refl
  ]

  release-savepoints :
      (c : Context kdb) (ps : List Savepoint)
      → c.savepoints ≡ ps
      → (release_all_savepoints kdb c).1.savepoints ≡ []
  unfolding release_all_savepoints
  release-savepoints c [] h = rw (h, release_all_savepoints) refl
  release-savepoints c (p ∷ ps) h = elim (Bool-cases (kdb.release_savepoint 0 c.rows).0) [
    | inl q ↦ rw (h, release_all_savepoints) (rw (q) refl)
    | inr q ↦ rw (h, release_all_savepoints) (rw (q) (lose_savepoints-savepoints p _))
  ]

  -- Ending a crank never leaves it open: `endCrank`, in a crank, ends with no crank and no savepoint,
  -- and with the promise of the crank settled, whether it returns or the database makes it throw.
  pub end_crank-settled :
      (c : Context kdb)
      → c.is_in_crank ≡ true
      → ((end_crank kdb c).1.is_in_crank ≡ false)
        × ((end_crank kdb c).1.settled ≡ true)
        × ((end_crank kdb c).1.savepoints ≡ [])
  unfolding end_crank
  end_crank-settled c h = rw (h, end_crank) (refl, refl, release-savepoints _ c.savepoints refl)

  create-savepoints :
      (name : String) (c : Context kdb)
      → c.is_in_crank ≡ true
      → (kdb.create_savepoint (length c.savepoints) c.rows).0 ≡ true
      → (create_crank_savepoint kdb name c).1.savepoints
        ≡ c.savepoints ++ (record { name = name; maybe_free_krefs = c.maybe_free }) ∷ []
  unfolding create_crank_savepoint call
  create-savepoints name c h q = rw (h, create_crank_savepoint) (rw (q) refl)

  abbrev rolled_back : ℕ → Savepoint → Context kdb → Context kdb
  rolled_back n p c = record c {
    rows = (kdb.rollback_savepoint n c.rows).1;
    cached = kdb.content (kdb.rollback_savepoint n c.rows).1;
    length_cache = none;
    maybe_free = p.maybe_free_krefs;
    savepoints = keep_first n c.savepoints;
  }

  rollback_to-succeeds :
      (n : ℕ) (p : Savepoint) (c : Context kdb)
      → (kdb.rollback_savepoint n c.rows).0 ≡ true
      → kdb.can_read (kdb.rollback_savepoint n c.rows).1 ≡ true
      → rollback_to kdb n p c ≡ (ok tt, rolled_back n p c)
  unfolding rollback_to revert_state
  rollback_to-succeeds n p c h q = rw (h, rollback_to) (rw (q) refl)

  rollback_crank-found :
      (name : String) (n : ℕ) (p : Savepoint) (c : Context kdb)
      → c.is_in_crank ≡ true
      → find_savepoint name 0 c.savepoints ≡ some (n, p)
      → rollback_crank kdb name c ≡ rollback_to kdb n p (record c { crank_buffer = [] })
  unfolding rollback_crank
  rollback_crank-found name n p c h q = rw (h, rollback_crank) (rw (q) refl)

  -- Rolling back to a savepoint undoes in memory what the crank did since it was taken: where the
  -- savepoint of a new name was made and the savepoints are as it left them, and the database rolls
  -- back and can be read, `rollbackCrank` returns, the collection candidates and the savepoints are
  -- those from before it, the buffer is empty, and the cached values are those of the database.
  pub rollback_crank-create :
      (name : String) (before after : Context kdb)
      → before.is_in_crank ≡ true
      → find_savepoint name 0 before.savepoints ≡ none
      → (kdb.create_savepoint (length before.savepoints) before.rows).0 ≡ true
      → after.is_in_crank ≡ true
      → after.savepoints ≡ (create_crank_savepoint kdb name before).1.savepoints
      → (kdb.rollback_savepoint (length before.savepoints) after.rows).0 ≡ true
      → kdb.can_read (kdb.rollback_savepoint (length before.savepoints) after.rows).1 ≡ true
      → ((rollback_crank kdb name after).0 ≡ ok tt)
        × ((rollback_crank kdb name after).1.maybe_free ≡ before.maybe_free)
        × ((rollback_crank kdb name after).1.savepoints ≡ before.savepoints)
        × ((rollback_crank kdb name after).1.crank_buffer ≡ [])
        × ((rollback_crank kdb name after).1.cached
            ≡ kdb.content (kdb.rollback_savepoint (length before.savepoints) after.rows).1)
        × ((rollback_crank kdb name after).1.length_cache ≡ none)
  rollback_crank-create name before after inside fresh creates inside' same rolls reads =
      let p : Savepoint = record { name = name; maybe_free_krefs = before.maybe_free } in
      let n = length before.savepoints in
      let taken = same ∙ create-savepoints name before inside creates in
      let found =
        ap (find_savepoint name 0) taken
        ∙ find-append name 0 n before.savepoints before.maybe_free (omega arith) fresh in
      rw (rollback_crank-found name n p after inside' found) (
        rw (rollback_to-succeeds n p (record after { crank_buffer = [] }) rolls reads)
          (refl, refl, ap (keep_first n) taken ∙ keep-append before.savepoints p, refl, refl, refl))
