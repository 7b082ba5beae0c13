-- ===== src/Recorder/Tests.antt =====
-- A recorder at concrete runs.
use agent_loop_snapshot.Prelude.{String, ◌≡◌, refl, true, false, none, [], ◌∷◌}
use mathlib.Core.List.{Memᴰ}
use agent_loop_snapshot.Schema.Json.{Json}
use agent_loop_snapshot.Schema.Observation.{complete}
use agent_loop_snapshot.Schema.Envelope.{Event, read_only, run_completed, supplied}
use agent_loop_snapshot.Recorder.Record.{
  RunRecord, completed, is_running, EventContext, AppendInput, Result, ok, err, context,
  is_reserved, has_id, assert_running, assert_context,
}
use agent_loop_snapshot.Recorder.Commit.{
  Call, Interceptor, replaced, intercept, notify, same_identity, build_event, prepare, commit_event,
}
use agent_loop_snapshot.Recorder.Lifecycle.{
  append_event, complete_run, finish_run, checkpoint, CheckpointInput, LifecycleOptions,
  the_context,
}
use agent_loop_snapshot.Recorder.Start.{start_run, StartOptions, new_record}
use agent_loop_snapshot.Recorder.Outcome.{
  Outcome, append_outcome, finish_outcome, FitsRun, appended,
}
use agent_loop_snapshot.Recorder.CheckpointOutcome.{CheckpointOutcome, checkpoint_outcome}
use agent_loop_snapshot.Recorder.Invariant.{IsTrace}
use agent_loop_snapshot.Recorder.Reach.{
  append, complete, Recorded, started, step, Recorded-IsTrace, Step-finished,
}
use agent_loop_snapshot.Recorder.Success.{append_succeeds}

abbrev with_id : String → Call
with_id id = record {
  now = "noon";
  monotonic_now = 7;
  event_id = id;
  checkpoint_id = "c";
  interceptors = [];
}

-- An interceptor that replaces every payload.
abbrev hush : Interceptor
hush = record {
  before_append = λ e. replaced (record e { payload = supplied (Json.str "***") });
  after_append = λ _. true;
  before_checkpoint = λ c. replaced c;
  after_checkpoint = λ _. true;
}

abbrev options : StartOptions
options = record {
  runtime = record { name = "node"; version = "22"; adapter = none };
  input = none;
  actor = none;
  security = none;
  source = none;
  completeness = none;
  limitations = [];
}

abbrev no_options : LifecycleOptions
no_options = record { actor = none; security = none; context = none }

-- The record inside a successful start.
abbrev record_of : Result RunRecord → RunRecord
record_of (ok r) = r
record_of (err _) = new_record "d" 5 "run" "agent" options

abbrev just_started : RunRecord
just_started = record_of (start_run "d" 5 (with_id "a") "run" "agent" options)

starts : start_run "d" 5 (with_id "a") "run" "agent" options ≡ ok just_started
unfolding start_run build_event commit_event prepare intercept notify context
starts = refl

abbrev from_a : EventContext
from_a = record { run_id = "run"; parent_ids = "a" ∷ []; actor = "agent" }

abbrev note : AppendInput
note = record { event_type = "note"; payload = supplied Json.null; actor = none; security = none }

abbrev noted : RunRecord
noted = (append_event (with_id "b") from_a note just_started).1

abbrev finished : RunRecord
finished = (complete_run (with_id "z") "hash" none no_options noted).1

Recorded-start : Recorded just_started
Recorded-start = started "d" 5 (with_id "a") "run" "agent" options starts

Recorded-note : Recorded noted
Recorded-note = step Recorded-start (append (with_id "b") from_a note just_started)

Recorded-end : Recorded finished
Recorded-end = step Recorded-note (complete (with_id "z") "hash" none no_options noted)

has_ended : is_running finished.status ≡ false
unfolding start_run append_event complete_run finish_run build_event commit_event prepare intercept
    notify context assert_running assert_context is_reserved
has_ended = refl

Recorded-IsTrace_example : IsTrace finished
Recorded-IsTrace_example = Recorded-IsTrace Recorded-end

abbrev note_event : Event
note_event = record {
  schema_version = "0.2.0";
  run_id = "run";
  event_id = "b";
  parent_ids = "a" ∷ [];
  sequence = 2;
  event_type = "note";
  timestamp = "noon";
  monotonic_offset_ms = 2;
  actor = "agent";
  payload = supplied Json.null;
  security = record { side_effect = read_only; redactions = [] };
}

note_recorded : Memᴰ note_event noted.events
unfolding start_run append_event build_event commit_event prepare intercept notify context
    assert_running assert_context is_reserved
note_recorded = Memᴰ.tail (Memᴰ.head refl)

Step-finished_example : (append_event (with_id "late") from_a note finished).1 ≡ finished
Step-finished_example = Step-finished (append (with_id "late") from_a note finished) has_ended

append_outcome_example :
    Outcome
      (λ s. s)
      (with_id "b")
      from_a
      "note"
      none
      just_started
      (append_event (with_id "b") from_a note just_started)
append_outcome_example = append_outcome (with_id "b") from_a note just_started

finish_outcome_example :
    Outcome
      (λ s. record s { status = completed })
      (with_id "z")
      (the_context none noted)
      "run.completed"
      none
      noted
      (finish_run (with_id "z") completed (run_completed "hash" none) no_options noted)
finish_outcome_example =
    finish_outcome (with_id "z") completed (run_completed "hash" none) no_options noted

abbrev empty_state : CheckpointInput
empty_state = record { state = Json.null; state_hash = "hash"; options = no_options }

checkpoint_outcome_example :
    CheckpointOutcome noted
      (with_id "c")
      (the_context none noted)
      none
      (checkpoint (with_id "c") empty_state noted)
checkpoint_outcome_example = checkpoint_outcome (with_id "c") empty_state noted

abbrev hushed : Event
hushed = record note_event { payload = supplied (Json.str "***") }

is_hushed : intercept same_identity (λ i. i.before_append) (hush ∷ hush ∷ []) note_event ≡ ok hushed
unfolding intercept same_identity
is_hushed = refl

fits_start : FitsRun just_started from_a
unfolding start_run build_event commit_event prepare intercept notify context
fits_start = record { is_on = refl; run_id = refl; some_parent = refl; known_parents = refl }

is_free : is_reserved "note" ≡ false
unfolding is_reserved
is_free = refl

is_fresh : has_id just_started.events "b" ≡ false
unfolding start_run build_event commit_event prepare intercept notify context
is_fresh = refl

append_succeeds_example :
    (e : Event) × (append_event (with_id "b") from_a note just_started
      ≡ (ok e, appended just_started e))
    × (e.payload ≡ note.payload)
append_succeeds_example =
    append_succeeds (with_id "b") from_a note just_started fits_start is_free is_fresh refl
