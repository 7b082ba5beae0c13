-- ===== src/Schema.antt =====
-- packages/schema: JSON values, the event envelope, the evidence gate and version compatibility.
pub mod Json
pub mod Envelope
pub mod Observation
pub mod Migration
