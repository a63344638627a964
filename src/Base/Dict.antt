-- ===== src/Base/Dict.antt =====
-- A Python dict in insertion order, as an association list: its operations, and their laws.
mod Defs
mod Laws
mod Length
unfoldable pub use Defs.*
pub use Laws.*
pub use Length.*
