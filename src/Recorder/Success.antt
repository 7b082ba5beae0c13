-- ===== src/Recorder/Success.antt =====
-- packages/recorder/src/index.ts: when an append succeeds.
use agent_loop_snapshot.Prelude.{◌≡◌, refl, ◌-◌, false, [], arith, eq_iff, Bool-cases, inl, inr}
use agent_loop_snapshot.Schema.Envelope.{Event, snapshot_schema_version}
use agent_loop_snapshot.Recorder.Record.{
  RunRecord, ok, EventContext, AppendInput, has_id, is_reserved, assert_running, assert_context,
  is_empty, or_else, default_security,
}
use agent_loop_snapshot.Recorder.Commit.{
  Call, build_event, prepare, commit_event, intercept, notify,
}
use agent_loop_snapshot.Recorder.Lifecycle.{append_event}
use agent_loop_snapshot.Recorder.Outcome.{FitsRun, appended}

fits_running : (r : RunRecord) (ctx : EventContext) → FitsRun r ctx → assert_running r ≡ ok tt
unfolding assert_running
fits_running r ctx fits = rw fits.is_on

fits_context : (r : RunRecord) (ctx : EventContext) → FitsRun r ctx → assert_context r ctx ≡ ok tt
unfolding assert_context
fits_context r ctx fits =
    rw (fits.some_parent, fits.known_parents) (ground (arith, fits, eq_iff ctx.run_id r.run_id))

-- The event that `buildEvent` makes.
abbrev built : Call → EventContext → AppendInput → RunRecord → Event
built call ctx input r = record {
  schema_version = snapshot_schema_version;
  run_id = r.run_id;
  event_id = call.event_id;
  parent_ids = ctx.parent_ids;
  sequence = r.next_sequence;
  event_type = input.event_type;
  timestamp = call.now;
  monotonic_offset_ms = call.monotonic_now - r.started_monotonic;
  actor = or_else input.actor ctx.actor;
  payload = input.payload;
  security = default_security input.security;
}

-- Without interceptors, an append to a running run succeeds whenever its context fits the run, its
-- type is not reserved and the generated identity is unused; the event it adds has the given
-- payload.
pub append_succeeds :
    (call : Call) (ctx : EventContext) (input : AppendInput) (r : RunRecord)
    → FitsRun r ctx
    → is_reserved input.event_type ≡ false
    → has_id r.events call.event_id ≡ false
    → call.interceptors ≡ []
    → (e : Event) × (append_event call ctx input r ≡ (ok e, appended r e))
      × (e.payload ≡ input.payload)
unfolding append_event build_event commit_event prepare intercept notify
append_succeeds call ctx input r fits free fresh none_at_all =
    let runs = fits_running r ctx fits in
    let known = fits_context r ctx fits in
    elim (Bool-cases (is_empty r.events)) [
      | inl e ↦ (
        built call ctx input r,
        rw (runs, known, free, free, e, fresh, none_at_all, none_at_all),
        refl,
      )
      | inr e ↦ (
        built call ctx input r,
        rw (runs, known, free, free, e, known, fresh, none_at_all, none_at_all),
        refl,
      )
    ]
