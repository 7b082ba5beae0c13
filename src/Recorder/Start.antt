-- ===== src/Recorder/Start.antt =====
-- packages/recorder/src/index.ts: starting a run, and the manifest of a run.
use agent_loop_snapshot.Prelude.{
  ℕ, String, true, Option, none, some, List, [], ◌∷◌, ◌++◌, if◌then◌else◌, last?, length,
}
use agent_loop_snapshot.Schema.Json.{Json}
use agent_loop_snapshot.Schema.Observation.{
  SnapshotSource, native, SnapshotCompleteness, partial, complete, SnapshotLimitation,
  recording_failed,
}
use agent_loop_snapshot.Schema.Envelope.{
  Event, EventSecurity, RuntimeDescriptor, run_started, Manifest, RunState, TerminalStatus,
  snapshot_schema_version,
}
use agent_loop_snapshot.Recorder.Record.{
  RunStatus, running, completed, failed, observed, RunRecord, Result, ok, err, Exec, ◌>>=◌,
  is_running, context, or_else,
}
use agent_loop_snapshot.Recorder.Commit.{Call, build_event, commit_event}
use agent_loop_snapshot.Recorder.Lifecycle.{on_record}

pub record StartOptions : Type 0 where
  pub runtime : RuntimeDescriptor
  pub input : Option Json
  pub actor : Option String
  pub security : Option EventSecurity
  pub source : Option SnapshotSource
  pub completeness : Option SnapshotCompleteness
  pub limitations : List SnapshotLimitation

abbrev pub new_record : String → ℕ → String → String → StartOptions → RunRecord
new_record created_at started run_id default_actor o = record {
  run_id = run_id;
  actor = or_else o.actor default_actor;
  runtime = o.runtime;
  source = or_else o.source native;
  completeness = or_else o.completeness complete;
  limitations = o.limitations;
  created_at = created_at;
  started_monotonic = started;
  events = [];
  checkpoints = [];
  next_sequence = 1;
  status = running;
}

abbrev pub commit_start : Call → StartOptions → Exec Event
commit_start call o = do
  event ← on_record (λ r.
      build_event call (context r (some []) none)
        (record {
          event_type = "run.started";
          payload = run_started o.runtime o.input;
          actor = some r.actor;
          security = o.security;
        })
        true r)
  commit_event call (λ r. r) event

abbrev pub started_record : Result Event × RunRecord → Result RunRecord
started_record (ok _, r) = ok r
started_record (err e, _) = err e

-- `startRun` below its test for a used run ID: the record of the new run. Where the first event is
-- not committed the record is dropped.
unfoldable pub start_run : String → ℕ → Call → String → String → StartOptions → Result RunRecord
unfolding context
start_run created_at started call run_id default_actor o =
    started_record (commit_start call o (new_record created_at started run_id default_actor o))

abbrev terminal_status : RunStatus → Option TerminalStatus
terminal_status running = none
terminal_status completed = some TerminalStatus.completed
terminal_status failed = some TerminalStatus.failed
terminal_status observed = some TerminalStatus.unknown

abbrev not_terminal : SnapshotLimitation
not_terminal = record { code = recording_failed; message = "Run has not reached a terminal state." }

abbrev pub field_of_last {ℓ} : {A : Type ℓ} → (Event → A) → A → List Event → A
field_of_last f d es = elim (last? es) [ none ↦ d | some e ↦ f e ]

-- `getManifest`; `root_event_id` is that of the started event, the first.
unfoldable pub get_manifest : RunRecord → Manifest
get_manifest r =
    let on_going = is_running r.status in
    let updated_at = field_of_last (λ e. e.timestamp) r.created_at r.events in
    record {
      schema_version = snapshot_schema_version;
      run_id = r.run_id;
      created_at = r.created_at;
      updated_at = updated_at;
      run_state = if on_going then RunState.running else RunState.finished;
      terminal_status = terminal_status r.status;
      runtime = r.runtime;
      source = r.source;
      completeness = if on_going then partial else r.completeness;
      limitations = if on_going then r.limitations ++ not_terminal ∷ [] else r.limitations;
      last_sequence = field_of_last (λ e. e.sequence) 0 r.events;
      event_count = length r.events;
      root_event_id = elim r.events [ [] ↦ none | e ∷ _ ↦ some e.event_id ];
      completed_at = if on_going then none else some updated_at;
    }
