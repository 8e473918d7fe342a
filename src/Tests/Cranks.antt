-- ===== src/Tests/Cranks.antt =====
-- Cranks over a database that keeps one number and its savepoints, newest first.
use ocap_kernel.Crank.Caches.{ends, rolls_back, writes, creates, starts, Savepoints, Step}
use ocap_kernel.Crank.Savepoints.{
  Database, Context, find_savepoint, create_crank_savepoint, rollback_crank, end_crank, call,
}
use ocap_kernel.Prelude.{ℕ, ◌≡◌, refl, Bool, true, false, none, some, List, [], ◌∷◌}
use ocap_kernel.Refs.{ko}
use ocap_kernel.Exec.{ok}
use ocap_kernel.Crank.Rollback.{end_crank-settled, rollback_crank-create}

abbrev restore : ℕ × List ℕ → Bool × (ℕ × List ℕ)
restore (n, []) = (false, (n, []))
restore (n, m ∷ ms) = (true, (m, ms))

abbrev one_number : Database
one_number = record {
  Rows = ℕ × List ℕ;
  Content = ℕ;
  content = λ r. r.0;
  can_read = λ r. true;
  create_savepoint = λ n r. (true, (r.0, r.0 ∷ r.1));
  rollback_savepoint = λ n r. restore r;
  release_savepoint = λ n r. (true, (r.0, []));
}

abbrev quiet : Context one_number
quiet = record {
  rows = (5, []);
  cached = 5;
  length_cache = some 0;
  maybe_free = ko 1 ∷ [];
  crank_buffer = [];
  savepoints = [];
  is_in_crank = true;
  settled = false;
}

-- The crank has made the savepoint, written 6, and freed another object.
abbrev busy : Context one_number
busy = record (create_crank_savepoint one_number "start" quiet).1 {
  rows = (6, 5 ∷ []);
  cached = 6;
  maybe_free = ko 1 ∷ ko 2 ∷ [];
}

end_crank-settled_example :
    ((end_crank one_number busy).1.is_in_crank ≡ false)
    × ((end_crank one_number busy).1.settled ≡ true)
    × ((end_crank one_number busy).1.savepoints ≡ [])
unfolding create_crank_savepoint call
end_crank-settled_example = end_crank-settled one_number busy refl

rollback_crank-create_example :
    ((rollback_crank one_number "start" busy).0 ≡ ok tt)
    × ((rollback_crank one_number "start" busy).1.maybe_free ≡ ko 1 ∷ [])
    × ((rollback_crank one_number "start" busy).1.savepoints ≡ [])
    × ((rollback_crank one_number "start" busy).1.crank_buffer ≡ [])
    × ((rollback_crank one_number "start" busy).1.cached ≡ 5)
    × ((rollback_crank one_number "start" busy).1.length_cache ≡ none)
unfolding create_crank_savepoint call find_savepoint
rollback_crank-create_example =
    rollback_crank-create one_number "start" quiet busy refl refl refl refl refl refl refl

abbrev history : List (Step one_number)
history = starts ∷ creates "start" ∷ writes (6, 5 ∷ []) ∷ rolls_back "start" ∷ ends ∷ []

abbrev idle : Context one_number
idle = record quiet { is_in_crank = false; settled = true }
