-- ===== src/Lib.antt =====
-- The core of the bot's agent: the permanent ledger of its history, the compaction of that history,
-- the mailboxes of the conversations, the events that wake the agent, the decision of its loop and
-- the tasks beside it.
--
-- The agent's loop (src/agent/) appends messages to a ledger and projects it to the messages that
-- the model sees. When they grow too long, a compaction summarises the older part: a new ledger
-- entry holds the summary, the id of the first entry that is kept, and the marks of what was
-- disclosed and handled in each mailbox. Chat messages arrive as events in a queue; a plan turns
-- the waiting events into disclosures of mailboxes and moves the cursors of the mailboxes. After
-- each round the loop policy decides whether to continue or to wait. Schedules wake the agent by
-- an event at their time, and media are worked on by a queue of jobs with priorities and retries.
--
-- Files, and the code they are about:
--   Prelude      numbers, texts (UTF-16 units), dictionaries in insertion order, results of code
--                that throws, JavaScript values, and the part of JSON.stringify in use
--   Ledger       Types: src/agent/agent-context.types.ts, agent-ledger.types.ts. Active, Project:
--                agent-ledger-projection.ts (validateCompactionChain, selectActiveMessages,
--                projectAgentLedger). Json, Parse: its parsers (parseAgentLedgerEntry,
--                parseAgentRuntimeState). Integrity, Runtime: snapshot-integrity.ts. Order and
--                Growth hold the laws on ids and on appended messages
--   Compaction   Units, Boundary, Prepare, Commit: src/agent/compaction.ts (buildAtomicUnits,
--                selectAtomicBoundary, prepareCompaction, the candidate entry of
--                createCompactionCandidate). Tokens: compaction-token-estimator.ts
--   Mailbox      Keys, Plan: src/agent/mailbox.ts. Attention, Render: mailbox-handled.ts.
--                Continuity: mailbox-continuity.ts. InboxCursors: inbox-read-cursors.ts
--   Loop         Kernel: src/agent/react-kernel.ts, durable-agent-message.ts. Policy: loop-policy.ts
--   Events       Conversation: src/chat/conversation.ts. Types: src/agent/event.ts. Queue:
--                event-queue.ts. Dedup: dedup-enqueue.ts
--   Tasks        Registry: src/agent/background-task-registry.ts. Scheduler: task-scheduler.ts.
--                Retry: src/database/transient-retry.ts
--   Jobs         Queue: src/queue/memory-queue.ts
--   Schedules    Model: src/agent/schedule-model.ts and validateScheduleJobs of schedule-store.ts.
--                Occurrences: schedule-occurrence-store.ts. Runtime: schedule-runtime.ts, with
--                recordPending of schedule-delivery-store.ts
--   Examples     concrete inputs at which the theorems apply
--
-- A function of the source keeps its name in the spelling of this language. Code that mutates an
-- object returns the new state; code that throws returns a Result. A Date is its time in
-- milliseconds (also where the source has its ISO text), an entry id (bigint, or its decimal string
-- in a payload) is its number, and a number of the source that its checks bound by the largest safe
-- integer is a natural number.
-- JSON.parse (whether it accepts a text, or its value), JSON.stringify of messages and payloads,
-- the token estimate of an entry, the factory of task ids, the jitter of a delay, the model, the
-- tools and the store of images are parameters.
--
-- Loops are structural, or run on fuel: building atomic units and checking messages take the
-- number of messages, which each round lowers; starting the jobs of a lane takes the length of its
-- queue, and each round takes a job off it; the batches of tool calls take the number of calls, as
-- each takes a call at least; the search for a free task id takes one more than
-- there are tasks, which is enough where the factory's ids differ.
--
-- Code that waits is split into operations where others may come between: the handler of a job, a
-- retry, the load of the schedules, the wait of a stop for the mutations. A mutation of the
-- schedules is one operation, since the source runs them one after the other; which of its calls
-- fail, and whether a stop comes meanwhile, are inputs of it. The properties of an object are a list in the order of insertion, also those whose
-- keys are numerals.
--
-- Not modelled: the effects of the tools themselves, and with them the order of those that run
-- together; what an object inherits from a property `__proto__`; the summary and the hooks of a
-- compaction; the renderers of notifications; the regular expression and the calendar of ISO texts
-- (a parameter gives the time of a text); the host of the rounds, the working context of a request,
-- the memory stores, and all input and output with chat platforms, language models, files and the
-- database.
pub mod Prelude
pub mod Ledger
pub mod Compaction
pub mod Mailbox
pub mod Loop
pub mod Events
pub mod Tasks
pub mod Jobs
pub mod Schedules
pub mod Examples
