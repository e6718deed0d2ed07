-- ===== src/Map.antt =====
-- Go maps: association lists over a key type with a test for equality. `insert` overwrites the
-- entry of its key, and `delete` leaves no entry of it; a map of the program has one entry a key.
mod Laws
pub mod Keys
pub use Laws.*
unfoldable pub use Keys.{lookup, insert, delete}
pub use Keys.{Eq, nat_eq, str_eq_instance, Distinct}
