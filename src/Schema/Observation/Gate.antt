-- ===== src/Schema/Observation/Gate.antt =====
-- When recorded evidence lets a snapshot through to validation
-- (packages/schema/src/observation.ts, packages/replay/src/execution-gate.ts).
use agent_loop_snapshot.Prelude.{
  ◌≡◌, refl, ◌≢◌, ◌↔◌, ◌⊎◌, true, none, some, List, [], ◌∷◌, arith, eq_iff, is_some, Option, sym,
  String, inl, inr,
}
use mathlib.Core.Path.{subst}
use agent_loop_snapshot.Schema.Json.{Json, Fields, str, arr, obj, get, field, end, cons, nil}
use agent_loop_snapshot.Schema.Observation.{
  SnapshotSource, native, sdk, otel_import, SnapshotCompleteness, complete, LimitationCode,
  recording_failed, code_name, SnapshotLimitation, ObservationMetadata, eligible_for_validation,
  blocking_code, read_limitation, read_limitations, read_source, read_completeness, assess,
  assess_parts, assemble, is_legacy, assess_trace,
}

-- Every code of the vocabulary is execution-blocking.
blocking-code_name : (c : LimitationCode) → is_some (blocking_code (code_name c)) ≡ true
unfolding blocking_code
blocking-code_name recording_failed = refl
blocking-code_name _ = refl

assess_parts_iff :
    (s : SnapshotSource) (c : SnapshotCompleteness) (ls : List SnapshotLimitation)
    → ((assess_parts s c ls).eligibility ≡ eligible_for_validation)
      ↔ ((s ≢ otel_import) × (c ≡ complete) × (ls ≡ []))
assess_parts_iff otel_import c ls = ground arith
assess_parts_iff native complete (l ∷ ls) = ground (arith, blocking-code_name l.code)
assess_parts_iff sdk complete (l ∷ ls) = ground (arith, blocking-code_name l.code)
assess_parts_iff _ complete [] = ground arith
assess_parts_iff _ _ ls = ground arith

-- A recording is eligible exactly when it is not an OTLP import, claims to be complete and lists no
-- limitation at all.
pub assess_iff :
    (m : ObservationMetadata)
    → ((assess m).eligibility ≡ eligible_for_validation)
      ↔ ((m.source ≢ otel_import) × (m.completeness ≡ complete) × (m.limitations ≡ []))
unfolding assess
assess_iff m = assess_parts_iff m.source m.completeness m.limitations

is_legacy_iff : (v : Option Json) → (is_legacy v ≡ true) ↔ (v ≡ some (str "0.1.0"))
is_legacy_iff none = ground arith
is_legacy_iff (some (str s)) = ground (arith, eq_iff s "0.1.0")
is_legacy_iff (some _) = ground arith

abbrev pub IsRecorded : Option Json → Type 0
IsRecorded v = (v ≡ some (str "native")) ⊎ (v ≡ some (str "sdk"))

read_source_iff :
    (v : Option Json) → ((read_source v ≡ some native) ⊎ (read_source v ≡ some sdk)) ↔ IsRecorded v
unfolding read_source
read_source_iff none = ground arith
read_source_iff (some (str s)) =
    ground (arith, eq_iff s "native", eq_iff s "sdk", eq_iff s "otel-import")
read_source_iff (some _) = ground arith

read_completeness_iff :
    (v : Option Json) → (read_completeness v ≡ some complete) ↔ (v ≡ some (str "complete"))
unfolding read_completeness
read_completeness_iff none = ground arith
read_completeness_iff (some (str s)) = ground (
  arith,
  eq_iff s "unknown",
  eq_iff s "partial",
  eq_iff s "complete",
  eq_iff "partial" "complete",
  eq_iff "unknown" "complete",
)
read_completeness_iff (some _) = ground arith

-- A manifest that the gate lets through: a v0.1.0 manifest, or a native or SDK recording that claims
-- to be complete and lists no limitation with a known code.
abbrev pub Claims : Fields → Type 0
Claims fs =
    (get "schema_version" fs ≡ some (str "0.1.0"))
    ⊎ (IsRecorded (get "source" fs)
        × (get "completeness" fs ≡ some (str "complete"))
        × (read_limitations (get "limitations" fs) ≡ []))

assemble_iff :
    (s : Option SnapshotSource) (c : Option SnapshotCompleteness) (ls : List SnapshotLimitation)
    → ((assess (assemble s c ls)).eligibility ≡ eligible_for_validation)
      ↔ (((s ≡ some native) ⊎ (s ≡ some sdk)) × (c ≡ some complete) × (ls ≡ []))
unfolding assess
assemble_iff none c ls = ground arith
assemble_iff (some s) none ls = ground arith
assemble_iff (some otel_import) (some c) ls = ground arith
assemble_iff (some native) (some c) ls = ground (arith, assess_parts_iff native c ls)
assemble_iff (some sdk) (some c) ls = ground (arith, assess_parts_iff sdk c ls)

fields_iff :
    (fs : Fields) → ((assess_trace (obj fs)).eligibility ≡ eligible_for_validation) ↔ Claims fs
unfolding assess_trace
fields_iff fs = ground (
  arith,
  is_legacy_iff (get "schema_version" fs),
  read_source_iff (get "source" fs),
  read_completeness_iff (get "completeness" fs),
  assemble_iff (read_source (get "source" fs)) (read_completeness (get "completeness" fs))
      (read_limitations (get "limitations" fs)),
)

-- A trace is eligible for validation exactly when its manifest is an object that declares schema
-- version 0.1.0, or that names native or sdk as its source and complete as its completeness and lists
-- no limitation with a known code and a message.
pub assess_trace_iff :
    (manifest : Json)
    → ((assess_trace manifest).eligibility ≡ eligible_for_validation)
      ↔ ((fs : Fields) × (manifest ≡ obj fs) × Claims fs)
unfolding assess_trace
assess_trace_iff (obj fs) = (
  λ e. (fs, refl, (fields_iff fs).0 e),
  λ (fs', e, c).
      subst (λ v. (assess_trace v).eligibility ≡ eligible_for_validation) (sym e)
        ((fields_iff fs').1 c),
)
assess_trace_iff _ = ground arith

abbrev pub claiming : String → String → Fields
claiming code message = field "source" (str "native") (
    field "completeness" (str "complete") (
      field "limitations"
        (arr (cons (obj (field "code" (str code) (field "message" (str message) end))) nil)) end))

-- A limitation whose code is outside the vocabulary is dropped, so that a manifest which declares
-- one, and otherwise claims a complete native recording, is still eligible.
pub unknown_limitation_ignored :
    (code message : String)
    → blocking_code code ≡ none
    → (assess_trace (obj (claiming code message))).eligibility ≡ eligible_for_validation
unfolding read_limitations read_limitation
unknown_limitation_ignored code message h =
    (fields_iff (claiming code message)).1 (inr (inl refl, refl, rw (h, read_limitation)))
