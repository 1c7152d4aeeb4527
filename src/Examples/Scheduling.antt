-- ===== src/Examples/Scheduling.antt =====
-- The theorems on the scheduler, with two jobs of one resource in lanes of two.
use qq_bot_v.Prelude.{ℕ, ◌≡◌, ◌≤◌, ◌⊎◌, refl, true, List, [], ◌∷◌, All, Text, text, is_empty}
use qq_bot_v.Tasks.Scheduler.{Job, Lane, Scheduler, create_task_scheduler}
use qq_bot_v.Tasks.Scheduler.Laws.{Fits, total}
use qq_bot_v.Tasks.Scheduler.Exclusion.{Operation, scheduled, finished, run, run-excludes}

abbrev lane : Text → Lane
lane name = record { name = name; concurrency = 2; active = 0; queue = []; running = [] }

abbrev two_lanes : Scheduler
two_lanes = record {
  lanes = lane (text "network") ∷ lane (text "media") ∷ [];
  active_resources = [];
  deduped = [];
  drain_waiters = [];
}

abbrev job : ℕ → Job
job id = record { id = id; resource_key = text "r"; dedupe_key = [] }

abbrev some_operations : List Operation
some_operations =
    scheduled (text "network") (job 1)
    ∷ scheduled (text "media") (job 2)
    ∷ finished (text "network") 1
    ∷ scheduled (text "network") (job 3)
    ∷ []

run-excludes_example :
    All Fits (run some_operations two_lanes).lanes
    × ((k : Text) → (is_empty k ≡ true) ⊎ (total k (run some_operations two_lanes).lanes ≤ 1))
unfolding create_task_scheduler
run-excludes_example =
    run-excludes ((text "network", 2) ∷ (text "media", 2) ∷ []) two_lanes some_operations refl
