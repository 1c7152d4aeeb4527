-- ===== src/Schedules.antt =====
-- The schedules of the agent (src/agent/schedule-model.ts, schedule-store.ts,
-- schedule-occurrence-store.ts, schedule-runtime.ts).
pub mod Model
pub mod Occurrences
pub mod Runtime
