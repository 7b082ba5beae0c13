-- ===== src/Trace.antt =====
-- packages/trace/src/index.ts: the loading of a snapshot, its indexes, diagnostics and queries.
pub mod Index
pub mod Diagnostic
pub mod Structure
pub mod Termination
pub mod Waiting
pub mod Sorting
pub mod Sorted
pub mod Facts
pub mod Start
pub mod Cycles
pub mod Query
pub mod Lines
pub mod Chunks
pub mod Lookups
pub mod Artifacts
pub mod Reading
mod Tests
