-- ===== src/Examples/Tasks.antt =====
-- The theorems on the registry of background tasks, with a limit of one.
use qq_bot_v.Prelude.{
  ℕ, ◌+◌, ◌≡◌, ◌≤◌, refl, false, none, some, List, [], ◌∷◌, ◌==◌, if◌then◌else◌, lookup, text, Text,
  text_eq, ok, arith,
}
use qq_bot_v.Tasks.Registry.{
  BackgroundTask, running, interrupted, RegistryOptions, Registry, is_running, active_count,
  is_present, cleanup, new_task, register, create_persistent_task_registry,
}
use qq_bot_v.Tasks.Registry.Laws.{Operation, registered, completed_with, run}
use qq_bot_v.Tasks.Registry.Restart.{
  AfterRestart, Reports, create_persistent_task_registry-over, run-active_count,
}
use qq_bot_v.Tasks.Registry.Fresh.{register-found}
use qq_bot_v.Prelude.{Result, err, leb, if◌then◌else◌}
use qq_bot_v.Prelude.Values.{Value, object, string, field, end}
use qq_bot_v.Tasks.Retry.{with_transient_retry}
use qq_bot_v.Tasks.Retry.Laws.{Tries, with_transient_retry-Tries}

abbrev options : RegistryOptions
options = record { completed_ttl_ms = 100; recent_limit = 20; max_active_tasks = 1 }

abbrev stored : BackgroundTask
stored = new_task (text "a") (text "tool") (text "d") 5

abbrev stopped : BackgroundTask
stopped = record stored {
  updated_at = 9;
  completed_at = some 9;
  status = interrupted;
  error = some (text "process_restarted_before_completion");
}

abbrev restarted : Registry
restarted = record {
  options = options;
  tasks = (text "a", stopped) ∷ [];
  persisted = (text "a", stopped) ∷ [];
  ids_made = 0;
}

-- Ids of one character.
abbrev one_char : ℕ → Text
one_char n = (n + 98) ∷ []

one_char-injective : (m n : ℕ) → one_char m ≡ one_char n → m ≡ n
one_char-injective m n h = let e : m + 98 ≡ n + 98 = cc in omega arith

create_persistent_task_registry-over_example :
    (active_count restarted.tasks ≡ 0)
    × (restarted.options ≡ options)
    × Reports 9 (stored ∷ []) (stopped ∷ [])
    × ((u : BackgroundTask) × (lookup stored.id restarted.tasks ≡ some u) × AfterRestart 9 stored u)
unfolding create_persistent_task_registry qq_bot_v.Tasks.Registry.create_task_registry
    qq_bot_v.Tasks.Registry.persist_now
create_persistent_task_registry-over_example =
    create_persistent_task_registry-over options [] stored [] 9 restarted (stopped ∷ []) refl refl

abbrev later_operations : List Operation
later_operations =
    registered (text "tool") (text "d") 10
    ∷ registered (text "tool") (text "e") 11
    ∷ completed_with (text "b") (text "done") none 12
    ∷ []

run-active_count_example :
    active_count (run one_char later_operations restarted).tasks
    ≤ (run one_char later_operations restarted).options.max_active_tasks
unfolding create_persistent_task_registry qq_bot_v.Tasks.Registry.create_task_registry
    qq_bot_v.Tasks.Registry.persist_now
run-active_count_example =
    run-active_count one_char options (stored ∷ []) 9 restarted (stopped ∷ []) later_operations refl

register-found_example :
    (id : Text) × (r' : Registry) × (register one_char restarted (text "tool") (text "d") 10
      ≡ ok (new_task id (text "tool") (text "d") 10, r'))
    × (is_present (lookup id (cleanup restarted 10).tasks) ≡ false)
    × ((j : Text)
        → lookup j r'.tasks ≡ (
            if id == j
            then some (new_task id (text "tool") (text "d") 10)
            else lookup j (cleanup restarted 10).tasks))
    × (r'.persisted ≡ r'.tasks)
unfolding cleanup
register-found_example =
    register-found one_char one_char-injective restarted (text "tool") (text "d") 10 (omega arith)

-- An operation that fails twice with a reset connection.
abbrev resets : ℕ → Result Value ℕ
resets n =
    if leb n 2 then err (object (field (text "code") (string (text "ECONNRESET")) end)) else ok n

with_transient_retry-Tries_example :
    Tries resets 1 3 (with_transient_retry resets (λ attempt delay. delay) none none)
with_transient_retry-Tries_example =
    with_transient_retry-Tries resets (λ attempt delay. delay) none none
