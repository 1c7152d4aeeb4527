-- ===== src/Tasks.antt =====
-- The tasks beside the loop: the registry of background tasks
-- (src/agent/background-task-registry.ts), the scheduler of lanes (src/agent/task-scheduler.ts) and
-- the retries of database operations (src/database/transient-retry.ts).
pub mod Registry
pub mod Retry
pub mod Scheduler
