-- ===== src/State.antt =====
-- packages/recorder/src/checkpoints.ts: the state of a run, rebuilt from its events and checkpoints.
pub mod Pointer
pub mod Container
pub mod Change
pub mod Rebuild
pub mod Results
pub mod SafeValues
pub mod SafeContainers
pub mod Safety
pub mod SafeStates
pub mod Access
pub mod PointerText
pub mod Replaying
pub mod Resume
pub mod Choice
pub mod Stream
mod Tests
