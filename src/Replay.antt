-- ===== src/Replay.antt =====
-- packages/replay: the policy that guards each replayed call, the adapters, and the recorded results.
pub mod Policy
pub mod Engine
pub mod Recorded
pub mod Adapters
pub mod Correlation
