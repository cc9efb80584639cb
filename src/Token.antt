-- ===== src/Token.antt =====
-- Token minting and the token grammar (crates/zlauder-engine/src/token.rs).
mod Grammar
pub mod Scan
mod Shape
pub mod Clean
pub use Shape.*
unfoldable pub use Grammar.*
