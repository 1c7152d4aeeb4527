-- ===== src/Events/Dedup.antt =====
-- No message twice while the startup replay runs (src/agent/dedup-enqueue.ts: createDedupEnqueue).
pub mod Laws
use qq_bot_v.Prelude.{
  ℕ, Bool, true, false, ◌&&◌, Option, none, some, List, [], ◌∷◌, has, nat_eq, if◌then◌else◌,
}
use qq_bot_v.Events.Types.{BotEvent, message_event, message_row_id}
use qq_bot_v.Events.Queue.{EventQueue, enqueue}

pub record Dedup : Type 0 where
  pub seen_message_row_ids : List ℕ
  pub replay_active : Bool
  pub queue : EventQueue BotEvent

unfoldable pub create_dedup_enqueue : EventQueue BotEvent → Dedup
create_dedup_enqueue queue = record {
  seen_message_row_ids = [];
  replay_active = true;
  queue = queue;
}

-- The row id of an event of one of the three message types.
abbrev pub row_id_of : BotEvent → Option ℕ
row_id_of (message_event m) = some (message_row_id m)
row_id_of _ = none

-- `false` where the event is a duplicate, which leaves all as it is.
abbrev pub push : Dedup → BotEvent → Dedup
push d event = record d { queue = (enqueue d.queue event).1.1 }

abbrev enqueue_row : Dedup → BotEvent → Option ℕ → Bool × Dedup
enqueue_row d event none = (true, push d event)
enqueue_row d event (some row) =
    if has row d.seen_message_row_ids
    then (false, d)
    else (true, push (record d { seen_message_row_ids = row ∷ d.seen_message_row_ids }) event)

unfoldable pub dedup_enqueue : Dedup → BotEvent → Bool × Dedup
dedup_enqueue d event =
    if d.replay_active then enqueue_row d event (row_id_of event) else (true, push d event)

unfoldable pub finish_replay : Dedup → Dedup
finish_replay d = record d { replay_active = false; seen_message_row_ids = [] }
