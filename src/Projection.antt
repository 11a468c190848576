-- ===== src/Projection.antt =====
-- rpc-src/immutable-projection.ts, the addresses that runtime code embeds.
pub mod Code
pub mod Windows
pub mod Binding
pub mod Examples
