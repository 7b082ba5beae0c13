-- ===== src/Schema/Observation/Tests.antt =====
-- The evidence gate at concrete manifests.
use agent_loop_snapshot.Prelude.{◌≡◌, refl, ◌↔◌, [], ◌∷◌}
use agent_loop_snapshot.Schema.Json.{Json, Fields, obj, str, field, end}
use agent_loop_snapshot.Schema.Observation.{
  native, complete, ObservationMetadata, recording_failed, eligible_for_validation,
  observation_only, assess_trace, read_source, read_completeness,
}
use agent_loop_snapshot.Schema.Observation.Gate.{Claims, assess_trace_iff}

abbrev failed_recording : ObservationMetadata
failed_recording = record {
  source = native;
  completeness = complete;
  limitations = record { code = recording_failed; message = "disk full" } ∷ [];
}

abbrev imported : Json
imported = obj (field "source" (str "otel-import") (field "completeness" (str "complete") end))

imported_is_observed : (assess_trace imported).eligibility ≡ observation_only
unfolding assess_trace read_source read_completeness
imported_is_observed = refl

assess_trace_iff_example :
    ((assess_trace imported).eligibility ≡ eligible_for_validation)
    ↔ ((fs : Fields) × (imported ≡ obj fs) × Claims fs)
assess_trace_iff_example = assess_trace_iff imported
