-- ===== src/Mailbox.antt =====
-- The mailboxes of the agent: src/agent/mailbox.ts, mailbox-continuity.ts, mailbox-handled.ts and
-- inbox-read-cursors.ts.
pub mod Keys
pub mod Attention
pub mod Render
mod Tests
pub mod Continuity
pub mod Plan
pub mod InboxCursors
