-- ===== src/Trace/Diagnostic.antt =====
-- The diagnostics of a loaded snapshot (packages/trace/src/index.ts).
use agent_loop_snapshot.Prelude.{ℕ, String, Option, List}

pub data Severity : Type 0 where
  error warning : Severity

pub data Code : Type 0 where
  broken_parent_reference event_cycle missing_root_event orphan_root_event : Code
  invalid_jsonl_line partial_jsonl_tail events_read_failed event_file_too_large : Code
  untrusted_events_file missing_events_file : Code
  untrusted_artifact_directory untrusted_artifact_entry artifact_too_large : Code
  missing_artifact artifact_size_mismatch : Code

-- One step of a path into a document.
pub data Step : Type 0 where
  key : String → Step
  index : ℕ → Step

-- The path of a diagnostic, by its parts.
pub data Place : Type 0 where
  event_place : ℕ → Place
  parent_place : (event parent : ℕ) → Place
  root_place events_place artifacts_place : Place
  artifact_place : (digest : String) → Place
  reference_place : (path : List Step) → Place

-- `TraceDiagnostic`, without its message; `subject` is what the message names.
pub record TraceDiagnostic : Type 0 where
  pub severity : Severity
  pub code : Code
  pub place : Place
  pub subject : String
  pub line : Option ℕ
