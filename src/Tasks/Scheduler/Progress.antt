-- ===== src/Tasks/Scheduler/Progress.antt =====
-- No lane stands still with a job that could start.
use qq_bot_v.Prelude.{◌≡◌, ◌⊎◌, false, List, ltb, nat_eq, text_eq, is_empty, All}
use qq_bot_v.Tasks.Scheduler.{Job, Lane, Scheduler}
use qq_bot_v.Tasks.Scheduler.Laws.{total}

-- The job has a resource, and a running job of some lane has the same one.
abbrev pub Awaits : List Lane → Job → Type 0
Awaits lanes j = (is_empty j.resource_key ≡ false) × (total j.resource_key lanes ≡ 1)

-- The lane is full, or every job of its queue awaits a resource.
abbrev pub Occupied : List Lane → Lane → Type 0
Occupied lanes l = (ltb l.active l.concurrency ≡ false) ⊎ All (Awaits lanes) l.queue
