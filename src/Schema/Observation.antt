-- ===== src/Schema/Observation.antt =====
-- packages/schema/src/observation.ts: what a recording may claim, and whether it may be executed.
pub mod Gate
mod Tests
use Prim.Native.String
use agent_loop_snapshot.Prelude.{
  String, ◌≡◌, Bool, true, false, ◌&&◌, ◌||◌, Option, none, some, List, [], ◌∷◌, ◌++◌, map, ◌==◌,
  if◌then◌else◌, is_some, find,
}
use agent_loop_snapshot.Schema.Json.{Json, str, obj, arr, get, as_string, as_record, items}

pub data SnapshotSource : Type 0 where
  native sdk otel_import : SnapshotSource

pub data SnapshotCompleteness : Type 0 where
  unknown partial complete : SnapshotCompleteness

pub data LimitationCode : Type 0 where
  recording_failed drain_timed_out unpaired_call payload_omitted payload_truncated : LimitationCode
  stream_not_consumed stream_ended_early missing_root missing_parent : LimitationCode
  sampled_or_dropped unsupported_semantics invalid_source_data : LimitationCode
  unknown_side_effect final_state_unavailable : LimitationCode

abbrev pub code_name : LimitationCode → String
code_name recording_failed = "recording_failed"
code_name drain_timed_out = "drain_timed_out"
code_name unpaired_call = "unpaired_call"
code_name payload_omitted = "payload_omitted"
code_name payload_truncated = "payload_truncated"
code_name stream_not_consumed = "stream_not_consumed"
code_name stream_ended_early = "stream_ended_early"
code_name missing_root = "missing_root"
code_name missing_parent = "missing_parent"
code_name sampled_or_dropped = "sampled_or_dropped"
code_name unsupported_semantics = "unsupported_semantics"
code_name invalid_source_data = "invalid_source_data"
code_name unknown_side_effect = "unknown_side_effect"
code_name final_state_unavailable = "final_state_unavailable"

pub record SnapshotLimitation : Type 0 where
  pub code : LimitationCode
  pub message : String

pub record ObservationMetadata : Type 0 where
  pub source : SnapshotSource
  pub completeness : SnapshotCompleteness
  pub limitations : List SnapshotLimitation

pub data Eligibility : Type 0 where
  eligible_for_validation observation_only : Eligibility

pub record ExecutionAssessment : Type 0 where
  pub eligibility : Eligibility
  pub reason : String

-- The set `executionBlockingLimitations`.
unfoldable pub execution_blocking : List LimitationCode
execution_blocking =
    recording_failed ∷ drain_timed_out ∷ unpaired_call ∷ payload_omitted ∷ payload_truncated
    ∷ stream_not_consumed ∷ stream_ended_early ∷ missing_root ∷ missing_parent ∷ sampled_or_dropped
    ∷ unsupported_semantics ∷ invalid_source_data ∷ unknown_side_effect ∷ final_state_unavailable
    ∷ []

-- `executionBlockingLimitations.has(name)`, with the code that has the name.
unfoldable pub blocking_code : String → Option LimitationCode
unfolding execution_blocking
blocking_code name = find (λ c. code_name c == name) execution_blocking

abbrev limitation : Option LimitationCode → Option String → Option SnapshotLimitation
limitation (some code) (some message) = some (record { code = code; message = message })
limitation _ _ = none

-- `isLimitation`, with the limitation.
unfoldable pub read_limitation : Json → Option SnapshotLimitation
read_limitation (obj fs) = elim (as_string (get "code" fs)) [
  | none ↦ none
  | some name ↦ limitation (blocking_code name) (as_string (get "message" fs))
]
read_limitation _ = none

abbrev keep_some : List (Option SnapshotLimitation) → List SnapshotLimitation
keep_some [] = []
keep_some (none ∷ os) = keep_some os
keep_some (some l ∷ os) = l ∷ keep_some os

unfoldable pub read_limitations : Option Json → List SnapshotLimitation
read_limitations (some (arr vs)) = keep_some (map read_limitation (items vs))
read_limitations _ = []

unfoldable pub read_source : Option Json → Option SnapshotSource
read_source (some (str s)) =
    if s == "native"
    then some native
    else if s == "sdk"
    then some sdk
    else if s == "otel-import"
    then some otel_import
    else none
read_source _ = none

unfoldable pub read_completeness : Option Json → Option SnapshotCompleteness
read_completeness (some (str s)) =
    if s == "unknown"
    then some unknown
    else if s == "partial"
    then some partial
    else if s == "complete"
    then some complete
    else none
read_completeness _ = none

abbrev invalid_data : String → SnapshotLimitation
invalid_data message = record { code = invalid_source_data; message = message }

abbrev untrusted : List SnapshotLimitation → ObservationMetadata
untrusted ls = record { source = otel_import; completeness = unknown; limitations = ls }

abbrev assemble :
    Option SnapshotSource
    → Option SnapshotCompleteness
    → List SnapshotLimitation
    → ObservationMetadata
assemble (some s) (some c) ls = record { source = s; completeness = c; limitations = ls }
assemble _ _ ls = untrusted (ls ++ invalid_data "Snapshot observation metadata is invalid." ∷ [])

abbrev is_legacy : Option Json → Bool
is_legacy (some (str s)) = s == "0.1.0"
is_legacy _ = false

-- `readSnapshotObservationMetadata`
unfoldable pub read_metadata : Json → ObservationMetadata
read_metadata manifest = elim (as_record manifest) [
  | none ↦ untrusted (invalid_data "Snapshot manifest is not an object." ∷ [])
  | some fs ↦
      if is_legacy (get "schema_version" fs)
      then record { source = native; completeness = complete; limitations = [] }
      else assemble (read_source (get "source" fs)) (read_completeness (get "completeness" fs))
          (read_limitations (get "limitations" fs))
]

abbrev completeness_name : SnapshotCompleteness → String
completeness_name unknown = "unknown"
completeness_name partial = "partial"
completeness_name complete = "complete"

abbrev join : String → String → String → String
join a b c = String.◌++◌ a (String.◌++◌ b c)

abbrev only_observe : String → ExecutionAssessment
only_observe why = record { eligibility = observation_only; reason = why }

abbrev assess_limitations : List SnapshotLimitation → ExecutionAssessment
assess_limitations ls = elim (find (λ l. is_some (blocking_code (code_name l.code))) ls) [
  | some l ↦
      only_observe (join "Snapshot has execution-blocking limitation: " (code_name l.code) ".")
  | none ↦ record {
    eligibility = eligible_for_validation;
    reason = "Snapshot has complete native or SDK recording evidence.";
  }
]

abbrev assess_completeness : SnapshotCompleteness → List SnapshotLimitation → ExecutionAssessment
assess_completeness complete ls = assess_limitations ls
assess_completeness c ls =
    only_observe (join "Snapshot completeness is " (completeness_name c) ", not complete.")

abbrev assess_parts :
    SnapshotSource → SnapshotCompleteness → List SnapshotLimitation → ExecutionAssessment
assess_parts otel_import c ls = only_observe "OTel-imported snapshots are observation-only."
assess_parts _ c ls = assess_completeness c ls

-- `assessSnapshotExecution`
unfoldable pub assess : ObservationMetadata → ExecutionAssessment
assess m = assess_parts m.source m.completeness m.limitations

-- `assessTraceExecution` of packages/replay/src/execution-gate.ts, on a manifest.
unfoldable pub assess_trace : Json → ExecutionAssessment
unfolding assess read_metadata
assess_trace manifest = assess (read_metadata manifest)
