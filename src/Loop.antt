-- ===== src/Loop.antt =====
-- The agent's loop: its rounds (src/agent/react-kernel.ts) and the decisions after a round
-- (src/agent/loop-policy.ts).
pub mod Policy
pub mod Kernel
