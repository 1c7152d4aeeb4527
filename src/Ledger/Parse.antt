-- ===== src/Ledger/Parse.antt =====
-- The parsers of stored entries and of the stored runtime state (src/agent/agent-ledger-projection.ts).
pub mod Messages
pub mod Compactions
pub mod Entries
pub mod State
pub mod Stored
pub mod RoundTrip
pub mod Sound
