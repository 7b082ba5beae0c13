-- ===== src/Recorder.antt =====
-- packages/recorder: the run recorder.
pub mod Record
pub mod Commit
pub mod Lifecycle
pub mod Start
pub mod Identity
pub mod Outcome
pub mod CheckpointOutcome
pub mod Chain
pub mod Invariant
pub mod Reach
pub mod Manifest
pub mod Success
mod Tests
