-- ===== src/Replay/Recorded/Reading.antt =====
-- packages/replay/src/recorded.ts: the requests and the outcomes that events carry.
use agent_loop_snapshot.Prelude.{
  ℕ, String, Bool, true, false, ◌||◌, Option, none, some, List, ◌==◌, if◌then◌else◌,
}
use agent_loop_snapshot.Schema.Json.{Json, Fields, get, as_string, as_record, is_json_value}

pub data CallKind : Type 0 where
  model tool : CallKind

-- What this part reads of an event.
pub record TraceEvent : Type 0 where
  pub event_id : String
  pub parent_ids : List String
  pub sequence : ℕ
  pub event_type : String
  pub payload : Json

pub record RecordedRequest : Type 0 where
  pub kind : CallKind
  pub target : String
  pub correlation_key : String
  pub attempt : ℕ
  pub event_id : String

-- `ReplayOutcome`; the error is kept as it was read.
pub data ReplayOutcome : Type 0 where
  completed failed : Json → ReplayOutcome

pub record RecordedOutcome : Type 0 where
  pub kind : CallKind
  pub correlation_key : String
  pub outcome : ReplayOutcome

pub data RecordedDiagnosticCode : Type 0 where
  invalid_recorded_request invalid_recorded_outcome missing_recorded_request :
      RecordedDiagnosticCode
  correlation_key_mismatch missing_recorded_outcome : RecordedDiagnosticCode

pub record RecordedDiagnostic : Type 0 where
  pub code : RecordedDiagnosticCode
  pub event_id : String
  pub adapter_kind : CallKind

abbrev pub is_error_fields : Option Json → Option Json → Option Json → Bool
is_error_fields (some (Json.str _)) (some (Json.str _)) (some (Json.bool _)) = true
is_error_fields _ _ _ = false

-- `isErrorInfo`
unfoldable pub is_error_info : Json → Bool
is_error_info (Json.obj fs) =
    is_error_fields (get "code" fs) (get "message" fs) (get "retryable" fs)
is_error_info _ = false

abbrev pub request_of : CallKind → String → Option String → Option String → Option RecordedRequest
request_of kind id (some key) (some target) =
    some
      (record { kind = kind; target = target; correlation_key = key; attempt = 0; event_id = id })
request_of _ _ _ _ = none

-- `requestFromEvent`
unfoldable pub request_from_event : TraceEvent → Option RecordedRequest
request_from_event e = elim (as_record e.payload) [
  | none ↦ none
  | some fs ↦
      if e.event_type == "model.requested"
      then request_of model e.event_id (as_string (get "correlation_key" fs))
          (as_string (get "model" fs))
      else if e.event_type == "tool.requested"
      then request_of tool e.event_id (as_string (get "correlation_key" fs))
          (as_string (get "tool" fs))
      else none
]

abbrev pub completed_of : CallKind → String → Option Json → Option RecordedOutcome
completed_of kind key (some v) =
    if is_json_value v
    then some (record { kind = kind; correlation_key = key; outcome = completed v })
    else none
completed_of kind key none = none

abbrev pub failed_of : CallKind → String → Option Json → Option RecordedOutcome
failed_of kind key (some v) =
    if is_error_info v
    then some (record { kind = kind; correlation_key = key; outcome = failed v })
    else none
failed_of kind key none = none

abbrev pub outcome_of : TraceEvent → Fields → Option String → Option RecordedOutcome
outcome_of e fs none = none
outcome_of e fs (some key) =
    if e.event_type == "model.completed" || e.event_type == "tool.completed"
    then completed_of (if e.event_type == "model.completed" then model else tool) key
        (get "output" fs)
    else if e.event_type == "model.failed" || e.event_type == "tool.failed"
    then failed_of (if e.event_type == "model.failed" then model else tool) key (get "error" fs)
    else none

-- `outcomeFromEvent`
unfoldable pub outcome_from_event : TraceEvent → Option RecordedOutcome
unfolding is_error_info is_json_value
outcome_from_event e = elim (as_record e.payload) [
  | none ↦ none
  | some fs ↦ outcome_of e fs (as_string (get "correlation_key" fs))
]
