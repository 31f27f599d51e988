-- ===== src/Registry.antt =====
-- The application registry: src/session/app_registry.{hpp,cpp}. `Defs` has the code, the other
-- children what is proved of it.
mod Defs
pub mod Fields
pub mod Invariant
pub mod Marking
pub mod Lookup
pub mod Entries
unfoldable pub use Defs.*
