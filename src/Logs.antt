-- ===== src/Logs.antt =====
-- rpc-src/log-translation.ts, the translation of the addresses in event logs.
pub mod Translation
pub mod Words
pub mod RoundTrip
pub mod Examples
