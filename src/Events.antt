-- ===== src/Events.antt =====
-- The events that wake the agent: conversations (src/chat/conversation.ts), event types
-- (src/agent/event.ts), the queue (src/agent/event-queue.ts) and the removal of duplicates at
-- startup (src/agent/dedup-enqueue.ts).
pub mod Conversation
pub mod Types
pub mod Queue
pub mod Dedup
mod Tests
