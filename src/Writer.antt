-- ===== src/Writer.antt =====
-- packages/recorder/src/writer.ts: the event writer and the manifest's commit.
pub mod State
pub mod Order
pub mod Durable
pub mod File
mod Tests
