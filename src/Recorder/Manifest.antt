-- ===== src/Recorder/Manifest.antt =====
-- What the manifest of a recorded run says (packages/recorder/src/index.ts), and what the evidence
-- gate makes of it (packages/schema/src/observation.ts).
use agent_loop_snapshot.Prelude.{
  ℕ, suc, ◌+◌, String, ◌≡◌, ◌≢◌, ◌↔◌, false, some, List, [], ◌∷◌, arith, length, inl, inr, last?,
  last?-eq-none, Option-cases,
}
use agent_loop_snapshot.Schema.Observation.{
  otel_import, complete, ObservationMetadata, eligible_for_validation, assess,
}
use agent_loop_snapshot.Schema.Observation.Gate.{assess_iff}
use agent_loop_snapshot.Schema.Envelope.{Event, Manifest}
use agent_loop_snapshot.Recorder.Record.{RunRecord, is_running}
use agent_loop_snapshot.Recorder.Start.{get_manifest, field_of_last}
use agent_loop_snapshot.Recorder.Chain.{Chain}
use agent_loop_snapshot.Recorder.Reach.{Recorded, Recorded-IsTrace}

last_sequence_lem :
    (es : List Event) (n : ℕ) (seen : List String)
    → Chain seen n es
    → (e : Event) → last? es ≡ some e
    → e.sequence + 1 ≡ n + length es
last_sequence_lem [] n seen c e h = cc
last_sequence_lem (x ∷ []) n seen c e h = ground arith
last_sequence_lem (x ∷ y ∷ es) n seen c e h =
    omega (arith, last_sequence_lem (y ∷ es) (suc n) (x.event_id ∷ seen) c.3 e h)

counts : (es : List Event) → Chain [] 1 es → field_of_last (λ e. e.sequence) 0 es ≡ length es
counts es c = elim (Option-cases (last? es)) [
  | inl missing ↦ rw (last?-eq-none es missing, field_of_last)
  | inr (e, found) ↦ rw (found, field_of_last) (omega (arith, last_sequence_lem es 1 [] c e found))
]

-- The manifest of a recorded run counts as many events as its last sequence number says.
pub manifest_counts :
    {r : RunRecord} → Recorded r → (get_manifest r).last_sequence ≡ (get_manifest r).event_count
unfolding get_manifest
manifest_counts {r} rec = counts r.events (Recorded-IsTrace rec).chain

abbrev pub observed_by : Manifest → ObservationMetadata
observed_by m = record {
  source = m.source;
  completeness = m.completeness;
  limitations = m.limitations;
}

-- The manifest that the recorder writes is eligible for validation exactly when the run has ended,
-- was not imported, and its record claims completeness and has no limitation.
pub manifest_eligible_iff :
    (r : RunRecord)
    → ((assess (observed_by (get_manifest r))).eligibility ≡ eligible_for_validation) ↔ (
        (is_running r.status ≡ false)
        × (r.source ≢ otel_import)
        × (r.completeness ≡ complete)
        × (r.limitations ≡ []))
unfolding get_manifest
manifest_eligible_iff r = ground (arith, assess_iff (observed_by (get_manifest r)))
