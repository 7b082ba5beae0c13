-- ===== src/Export.antt =====
-- packages/otel-export: sending telemetry to a collector.
pub mod HttpClient
pub mod Queue
