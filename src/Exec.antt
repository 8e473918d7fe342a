-- ===== src/Exec.antt =====
-- Methods that change the store and may throw. What was written before a throw stays written until
-- the crank is rolled back, so the state comes back beside the error too.
mod Monad
unfoldable pub use Monad.*
