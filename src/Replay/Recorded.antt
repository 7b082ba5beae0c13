-- ===== src/Replay/Recorded.antt =====
-- packages/replay/src/recorded.ts: the recorded results of a trace, and their lookup.
pub mod Reading
pub mod Source
pub mod Complete
pub mod Attempts
mod Tests
use agent_loop_snapshot.Prelude.{
  map_get, map_set, ℕ, zero, suc, ◌+◌, String, ◌≡◌, Bool, true, false, ◌&&◌, ◌||◌, not, Option,
  none, some, List, [], ◌∷◌, ◌++◌, ◌==◌, ◌===◌, leb, if◌then◌else◌, is_some, find, any, includes,
}
use agent_loop_snapshot.Schema.Json.{Json, Fields, get, as_string, as_record, is_json_value}
use agent_loop_snapshot.Replay.Recorded.Reading.{
  CallKind, TraceEvent, RecordedRequest, ReplayOutcome, RecordedOutcome, RecordedDiagnostic,
  RecordedDiagnosticCode, model, tool, completed, failed, invalid_recorded_request,
  invalid_recorded_outcome, missing_recorded_request, correlation_key_mismatch,
  missing_recorded_outcome, request_from_event, outcome_from_event,
}

abbrev pub same_kind : CallKind → CallKind → Bool
same_kind model model = true
same_kind tool tool = true
same_kind _ _ = false

-- The text of `callKey` determines its three parts, since a kind and a number have no NUL in them.
pub record CallKey : Type 0 where
  pub kind : CallKind
  pub correlation_key : String
  pub attempt : ℕ

abbrev pub same_key : CallKey → CallKey → Bool
same_key a b =
    same_kind a.kind b.kind && a.correlation_key == b.correlation_key && a.attempt === b.attempt

abbrev pub key_of : RecordedRequest → CallKey
key_of r = record { kind = r.kind; correlation_key = r.correlation_key; attempt = r.attempt }

-- The variables of `createRecordedReplayAdapterSet`.
pub record Index : Type 0 where
  pub diagnostics : List RecordedDiagnostic
  pub requests : List (String × RecordedRequest)
  pub attempts : List (CallKey × ℕ)
  pub outcomes : List (CallKey × ReplayOutcome)
  pub tool_names : List String

abbrev complain : RecordedDiagnosticCode → TraceEvent → CallKind → Index → Index
complain code e kind i = record i {
  diagnostics =
      i.diagnostics ++ (record { code = code; event_id = e.event_id; adapter_kind = kind }) ∷ [];
}

abbrev pub is_request_type : String → Bool
is_request_type t = t == "model.requested" || t == "tool.requested"

abbrev pub is_result_type : String → Bool
is_result_type =
    includes ("model.completed" ∷ "model.failed" ∷ "tool.completed" ∷ "tool.failed" ∷ [])

abbrev pub logical_key : RecordedRequest → CallKey
logical_key r = record { kind = r.kind; correlation_key = r.correlation_key; attempt = 0 }

abbrev pub numbered : RecordedRequest → Index → RecordedRequest
numbered r i = record r {
  attempt = elim (map_get same_key (logical_key r) i.attempts) [ none ↦ 1 | some n ↦ n + 1 ];
}

abbrev add_tool : RecordedRequest → List String → List String
add_tool r names = elim r.kind [
  | model ↦ names
  | tool ↦ if includes names r.target then names else names ++ r.target ∷ []
]

-- The loop's body for a valid request.
abbrev pub add_request : TraceEvent → RecordedRequest → Index → Index
add_request e r i =
    let n = numbered r i in
    record i {
      requests = map_set (λ a b. a == b) e.event_id n i.requests;
      attempts = map_set same_key (logical_key r) n.attempt i.attempts;
      tool_names = add_tool r i.tool_names;
    }

-- The first of the parents' requests that is there.
abbrev pub parent_request : List String → List (String × RecordedRequest) → Option RecordedRequest
parent_request [] m = none
parent_request (p ∷ ps) m = elim (map_get (λ a b. a == b) p m) [
  | some r ↦ some r
  | none ↦ parent_request ps m
]

-- The loop's body for a valid outcome.
abbrev pub add_outcome : TraceEvent → RecordedOutcome → Option RecordedRequest → Index → Index
add_outcome e o none i = complain missing_recorded_request e o.kind i
add_outcome e o (some r) i =
    if same_kind r.kind o.kind && r.correlation_key == o.correlation_key
    then record i { outcomes = map_set same_key (key_of r) o.outcome i.outcomes }
    else complain correlation_key_mismatch e o.kind i

-- The kind that a complaint about an unreadable event names, by its type.
abbrev kind_by : Bool → CallKind
kind_by true = model
kind_by false = tool

-- The loop's body.
unfoldable pub on_event : TraceEvent → Index → Index
unfolding request_from_event outcome_from_event
on_event e i =
    if is_request_type e.event_type
    then elim (request_from_event e) [
      | none ↦ complain invalid_recorded_request e (kind_by (e.event_type == "model.requested")) i
      | some r ↦ add_request e r i
    ]
    else if not (is_result_type e.event_type)
    then i
    else elim (outcome_from_event e) [
      | none ↦
          complain invalid_recorded_outcome e
            (kind_by (e.event_type == "model.completed" || e.event_type == "model.failed")) i
      | some o ↦ add_outcome e o (parent_request e.parent_ids i.requests) i
    ]

abbrev pub insert_by_sequence : TraceEvent → List TraceEvent → List TraceEvent
insert_by_sequence e [] = e ∷ []
insert_by_sequence e (x ∷ xs) =
    if leb e.sequence x.sequence then e ∷ x ∷ xs else x ∷ insert_by_sequence e xs

-- The stable sort by sequence number.
abbrev pub sort_by_sequence : List TraceEvent → List TraceEvent
sort_by_sequence [] = []
sort_by_sequence (e ∷ es) = insert_by_sequence e (sort_by_sequence es)

abbrev pub index_events : List TraceEvent → Index → Index
index_events [] i = i
index_events (e ∷ es) i = index_events es (on_event e i)

-- The second loop.
unfoldable pub missing_outcomes :
    List (String × RecordedRequest) → List (CallKey × ReplayOutcome) → List RecordedDiagnostic
missing_outcomes [] m = []
missing_outcomes ((_, r) ∷ rs) m =
    let others = missing_outcomes rs m in
    if is_some (map_get same_key (key_of r) m)
    then others
    else (record { code = missing_recorded_outcome; event_id = r.event_id; adapter_kind = r.kind })
      ∷ others

abbrev pub empty_index : Index
empty_index = record {
  diagnostics = [];
  requests = [];
  attempts = [];
  outcomes = [];
  tool_names = [];
}

-- `createRecordedReplayAdapterSet`; its adapters are `lookup` on the index.
unfoldable pub create_recorded : List TraceEvent → Index
unfolding on_event missing_outcomes
create_recorded events =
    let i = index_events (sort_by_sequence events) empty_index in
    record i { diagnostics = i.diagnostics ++ missing_outcomes i.requests i.outcomes }

-- `lookup`; `none` is the failure RECORDED_RESULT_NOT_FOUND.
unfoldable pub lookup : Index → CallKey → Option ReplayOutcome
lookup i k = map_get same_key k i.outcomes
