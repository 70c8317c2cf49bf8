-- ===== src/Prelude/HashMap.antt =====
-- `std::collections::HashMap`. Clients use the laws: a lookup after each operation. The order in
-- which a map is iterated is that of its entries, and no law speaks of it.
mod Defs
mod Laws
pub use Defs.{HashMap}
unfoldable pub use Defs.{
  new, keys, len, alter, get, insert, remove, retain, kept, IsDistinct, find, put, drop_key, keep,
  change, Distinct,
}
pub use Laws.*
