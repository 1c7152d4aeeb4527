-- ===== src/Jobs.antt =====
-- The queue of jobs in memory (src/queue).
pub mod Queue
