-- ===== src/Dict.antt =====
-- The rows of the key/value store that share one family of keys, as an association list from the
-- part of the key that varies. Only the last write of a key is kept, as in the `kv` table.
mod Laws
mod Total
unfoldable pub use Laws.*
pub use Total.*
