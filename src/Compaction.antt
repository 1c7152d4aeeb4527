-- ===== src/Compaction.antt =====
-- Where the history is cut when it is summarised (src/agent/compaction.ts).
pub mod Units
pub mod Boundary
pub mod Tokens
pub mod Prepare
pub mod Commit
