-- ===== src/Ledger.antt =====
-- The append-only agent ledger: src/agent/agent-ledger.types.ts, agent-context.types.ts and the
-- projection of src/agent/agent-ledger-projection.ts, over entries that have been parsed.
pub mod Types
pub mod Active
pub mod Order
pub mod Integrity
pub mod Runtime
pub mod Project
pub mod Growth
pub mod Json
pub mod Parse
