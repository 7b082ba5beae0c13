-- ===== src/Recorder/Lifecycle.antt =====
-- packages/recorder/src/index.ts: the operations on a run. Each is one step of its queue.
use agent_loop_snapshot.Prelude.{
  String, Bool, true, false, ◌&&◌, not, Option, none, some, [], ◌∷◌, ◌++◌, ◌==◌, if◌then◌else◌, any,
  last?,
}
use agent_loop_snapshot.Schema.Json.{Json}
use agent_loop_snapshot.Schema.Observation.{partial, SnapshotLimitation, code_name}
use agent_loop_snapshot.Schema.Envelope.{
  Event, Checkpoint, EventSecurity, ErrorInfo, ObservedOutcome, Payload, run_completed, run_failed,
  run_observed, checkpoint_created, snapshot_schema_version,
}
use agent_loop_snapshot.Recorder.Record.{
  RunStatus, running, completed, failed, observed, RunRecord, Result, ok, err, Exec, ◌>>=◌, ◌>>◌,
  lift, pure, guard, invalid_lifecycle_transition, checkpoint_without_event, reserved_event_type,
  interceptor_failed_after_checkpoint, EventContext, AppendInput, is_reserved, is_running,
  assert_running, assert_context, context, or_else,
}
use agent_loop_snapshot.Recorder.Commit.{
  Call, intercept, notify, same_checkpoint_identity, build_event, commit_event,
}

abbrev pub on_record : {A : Type 0} → (RunRecord → Result A) → Exec A
on_record f r = (f r, r)

-- `appendEvent`
unfoldable pub append_event : Call → EventContext → AppendInput → Exec Event
append_event call ctx input = do
  on_record assert_running
  on_record (λ r. assert_context r ctx)
  lift (guard (not (is_reserved input.event_type)) reserved_event_type)
  event ← on_record (build_event call ctx input false)
  commit_event call (λ r. r) event

pub record LifecycleOptions : Type 0 where
  pub actor : Option String
  pub security : Option EventSecurity
  pub context : Option EventContext

abbrev pub with_options : String → Payload → LifecycleOptions → AppendInput
with_options event_type payload o = record {
  event_type = event_type;
  payload = payload;
  actor = o.actor;
  security = o.security;
}

abbrev pub the_context : Option EventContext → RunRecord → EventContext
the_context given r = or_else given (context r none none)

abbrev pub status_name : RunStatus → String
status_name running = "run.started"
status_name completed = "run.completed"
status_name failed = "run.failed"
status_name observed = "run.observed"

-- What `completeRun`, `failRun` and `observeRun` have in common.
unfoldable pub finish_run : Call → RunStatus → Payload → LifecycleOptions → Exec Event
unfolding context
finish_run call status payload o = do
  on_record assert_running
  ctx ← on_record (λ r. ok (the_context o.context r))
  on_record (λ r. assert_context r ctx)
  event ← on_record (build_event call ctx (with_options (status_name status) payload o) true)
  commit_event call (λ r. record r { status = status }) event

unfoldable pub complete_run : Call → String → Option Json → LifecycleOptions → Exec Event
unfolding finish_run
complete_run call hash output o = finish_run call completed (run_completed hash output) o

unfoldable pub fail_run : Call → ErrorInfo → LifecycleOptions → Exec Event
unfolding finish_run
fail_run call error o = finish_run call failed (run_failed error) o

unfoldable pub observe_run : Call → ObservedOutcome → Option String → LifecycleOptions → Exec Event
unfolding finish_run
observe_run call outcome summary o = finish_run call observed (run_observed outcome summary) o

pub record CheckpointInput : Type 0 where
  pub state : Json
  pub state_hash : String
  pub options : LifecycleOptions

abbrev pub last_event : RunRecord → Result Event
last_event r = elim (last? r.events) [ none ↦ err checkpoint_without_event | some e ↦ ok e ]

abbrev pub created_payload : Call → Event → String → Payload
created_payload call last hash = checkpoint_created (record {
  checkpoint_id = call.checkpoint_id;
  last_event_id = last.event_id;
  sequence = last.sequence;
  state_hash = hash;
})

abbrev pub new_checkpoint : Call → Event → Event → CheckpointInput → RunRecord → Checkpoint
new_checkpoint call last event input r = record {
  schema_version = snapshot_schema_version;
  checkpoint_id = call.checkpoint_id;
  run_id = r.run_id;
  created_at = event.timestamp;
  last_event_id = last.event_id;
  sequence = last.sequence;
  state_hash = input.state_hash;
  state = input.state;
}

-- `checkpoint`; the event's payload names the state hash that the interceptors left.
unfoldable pub checkpoint : Call → CheckpointInput → Exec Checkpoint
unfolding context intercept notify
checkpoint call input = do
  on_record assert_running
  ctx ← on_record (λ r. ok (the_context input.options.context r))
  on_record (λ r. assert_context r ctx)
  last ← on_record last_event
  event ← on_record (
      build_event call ctx
        (with_options "checkpoint.created" (created_payload call last input.state_hash)
          input.options)
        true)
  first ← on_record (λ r. ok (new_checkpoint call last event input r))
  made ←
      lift (intercept same_checkpoint_identity (λ i. i.before_checkpoint) call.interceptors first)
  _ ←
      commit_event call (λ r. record r { checkpoints = r.checkpoints ++ made ∷ [] })
        (record event { payload = created_payload call last made.state_hash })
  lift (
      guard (notify (λ i. i.after_checkpoint) call.interceptors made)
        interceptor_failed_after_checkpoint)
  pure made

abbrev same_limitation : SnapshotLimitation → SnapshotLimitation → Bool
same_limitation a b = code_name a.code == code_name b.code && a.message == b.message

abbrev pub with_limitation : SnapshotLimitation → RunRecord → RunRecord
with_limitation l r =
    if any (λ x. same_limitation x l) r.limitations
    then r
    else record r { limitations = r.limitations ++ l ∷ [] }

-- `addLimitation` and `markIncomplete` do not wait for the queue.
unfoldable pub add_limitation : SnapshotLimitation → Exec (Unit {0})
add_limitation l r =
    if is_running r.status
    then (ok tt, with_limitation l r)
    else (err invalid_lifecycle_transition, r)

unfoldable pub mark_incomplete : Option SnapshotLimitation → Exec (Unit {0})
mark_incomplete none r =
    if is_running r.status
    then (ok tt, record r { completeness = partial })
    else (err invalid_lifecycle_transition, r)
mark_incomplete (some l) r =
    if is_running r.status
    then (ok tt, with_limitation l (record r { completeness = partial }))
    else (err invalid_lifecycle_transition, r)
