-- ===== src/Redaction.antt =====
-- packages/recorder/src/redaction.ts: what is kept out of events, checkpoints and artifacts.
pub mod Input
pub mod Value
pub mod Text
pub mod Rules
pub mod Walk
pub mod Content
pub mod Protocol
pub mod Addresses
pub mod StateChange
pub mod Pipeline
pub mod Steps
pub mod Memory
pub mod Recall
pub mod References
pub mod Controls
pub mod StateControls
pub mod Masking
mod Tests
