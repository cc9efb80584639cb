-- ===== src/Engine.antt =====
-- The engine (crates/zlauder-engine/src/lib.rs): masking a text by its detections, and unmasking.
pub mod Chars
pub mod Apply
pub mod Bypass
pub mod Unmask
pub mod Cache
pub mod Mask
