-- ===== src/Proxy.antt =====
-- The proxy (crates/zlauder-proxy): the relays that unmask a response as it arrives.
pub mod Split
pub mod Unmasked
pub mod Wire
pub mod Walk
pub mod Body
pub mod Sse
