-- ===== src/Redaction/Protocol.antt =====
-- packages/recorder/src/redaction.ts: the events whose payload has fields of the protocol.
use Prim.Native.String
use agent_loop_snapshot.Prelude.{
  String, Bool, true, ◌&&◌, ◌||◌, Option, none, some, List, [], ◌∷◌, ◌++◌, ◌==◌, ltb, if◌then◌else◌,
  any, length, get_text,
}
use agent_loop_snapshot.Schema.Json.{Json, obj, Fields, end, get, as_record}
use agent_loop_snapshot.Schema.Envelope.{RedactionEntry}
use agent_loop_snapshot.State.Container.{clone, clone_fields, define, remove}
use agent_loop_snapshot.State.PointerText.{pointer_of}
use agent_loop_snapshot.Redaction.Rules.{
  Step, give, fail, ◌>>=◌, ◌>>◌, refuse_if, protocol_redaction_unrepresentable, type_error, Runtime,
  Source, FieldRule, CustomRule, Pipeline, path_segments,
}
use agent_loop_snapshot.Redaction.Walk.{ExecutionOptions, is_inherited}
use agent_loop_snapshot.Redaction.Content.{apply_regex, redact_json_value}

-- Two segments that can address one member.
abbrev pub can_meet : String → String → Bool
can_meet s t = s == "*" || t == "*" || s == t

-- `pathsCanOverlap`
unfoldable pub paths_can_overlap : List String → List String → Bool
paths_can_overlap [] ts = true
paths_can_overlap (s ∷ ss) [] = true
paths_can_overlap (s ∷ ss) (t ∷ ts) = can_meet s t && paths_can_overlap ss ts

abbrev error_controls : List (List String)
error_controls =
    ("error" ∷ "code" ∷ []) ∷ ("error" ∷ "retryable" ∷ []) ∷ ("error" ∷ "kind" ∷ []) ∷ []

abbrev failure_controls : List (List String)
failure_controls = ("correlation_key" ∷ []) ∷ ("attempt" ∷ []) ∷ error_controls

-- `protocolControlPaths`
abbrev pub protocol_control_paths : List (String × List (List String))
protocol_control_paths =
    ("run.started", ("runtime" ∷ []) ∷ [])
    ∷ ("run.completed", ("final_state_hash" ∷ []) ∷ [])
    ∷ ("run.failed", error_controls)
    ∷ ("model.requested", ("correlation_key" ∷ []) ∷ ("model" ∷ []) ∷ [])
    ∷ ("model.completed", ("correlation_key" ∷ []) ∷ [])
    ∷ ("model.failed", failure_controls)
    ∷ ("tool.requested", ("correlation_key" ∷ []) ∷ ("tool" ∷ []) ∷ [])
    ∷ ("tool.completed", ("correlation_key" ∷ []) ∷ [])
    ∷ ("tool.failed", failure_controls)
    ∷ (
      "checkpoint.created",
      ("checkpoint_id" ∷ [])
          ∷ ("last_event_id" ∷ [])
          ∷ ("sequence" ∷ [])
          ∷ ("state_hash" ∷ [])
          ∷ [],
    )
    ∷ ("verification.completed", ("verifier" ∷ []) ∷ ("result" ∷ []) ∷ [])
    ∷ []

abbrev pub fields_of : Option Json → Option Fields
fields_of none = none
fields_of (some v) = as_record v

-- `valueAtObjectPath`
unfoldable pub value_at_object_path : List String → Json → Option Json
value_at_object_path [] v = some v
value_at_object_path (s ∷ ss) v = elim (as_record v) [
  | none ↦ none
  | some fs ↦ elim (get s fs) [ none ↦ none | some w ↦ value_at_object_path ss w ]
]

-- `deleteObjectPath`
unfoldable pub delete_object_path : List String → Fields → Fields
delete_object_path [] fs = fs
delete_object_path (s ∷ []) fs = remove s fs
delete_object_path (s ∷ t ∷ ss) fs = elim (fields_of (get s fs)) [
  | none ↦ fs
  | some below ↦ define s (obj (delete_object_path (t ∷ ss) below)) fs
]

abbrev pub or_empty : Option Fields → Fields
or_empty none = end
or_empty (some fs) = fs

-- `setObjectPath`, of a path that is not empty.
unfoldable pub set_object_path : List String → Json → Fields → Fields
set_object_path [] v fs = fs
set_object_path (s ∷ []) v fs = define s v fs
set_object_path (s ∷ t ∷ ss) v fs =
    define s (obj (set_object_path (t ∷ ss) v (or_empty (fields_of (get s fs))))) fs

-- `ruleWouldReplaceProtocolContainer`: the overlap looks at no more than the rule's length.
unfoldable pub would_replace_container : List String → List String → Bool
unfolding paths_can_overlap
would_replace_container rule control =
    ltb (length rule) (length control) && paths_can_overlap rule control

abbrev pub preserves : List (List String) → Option String → Step (Unit {0})
preserves controls none = give tt
preserves controls (some path) = do
  segments ← path_segments path
  refuse_if (any (would_replace_container segments) controls) protocol_redaction_unrepresentable

abbrev pub preserve_all : List (List String) → List (Option String) → Step (Unit {0})
preserve_all controls [] = give tt
preserve_all controls (path ∷ paths) = do preserves controls path; preserve_all controls paths

abbrev pub field_paths : List FieldRule → List (Option String)
field_paths [] = []
field_paths (f ∷ fs) = some f.path ∷ field_paths fs

abbrev pub custom_paths : List CustomRule → List (Option String)
custom_paths [] = []
custom_paths (c ∷ cs) = c.path ∷ custom_paths cs

-- `assertProtocolContainersArePreserved`
unfoldable pub assert_containers_preserved : List (List String) → Pipeline → Step (Unit {0})
unfolding would_replace_container path_segments
assert_containers_preserved controls p =
    preserve_all controls (field_paths p.field_rules ++ custom_paths p.custom_redactors)

-- The controls that the payload has, with their values.
abbrev pub control_values : List (List String) → Json → List (List String × Json)
control_values [] v = []
control_values (c ∷ cs) v = elim (value_at_object_path c v) [
  | none ↦ control_values cs v
  | some w ↦ (c, w) ∷ control_values cs v
]

abbrev pub delete_all : List (List String × Json) → Fields → Fields
delete_all [] fs = fs
delete_all ((c, _) ∷ cs) fs = delete_all cs (delete_object_path c fs)

abbrev pub set_all : List (List String × Json) → Fields → Fields
set_all [] fs = fs
set_all ((c, w) ∷ cs) fs = set_all cs (set_object_path c w fs)

module _ (r : Runtime) (p : Pipeline) where
  abbrev pub payload_options : String → ExecutionOptions
  payload_options event_type = record {
    path_prefix = "/payload";
    source = Source.event;
    event_type = some event_type;
  }

  -- No rule for texts changes a control.
  abbrev pub check_controls : List (List String × Json) → Step (Unit {0})
  check_controls [] = give tt
  check_controls ((c, w) ∷ cs) = do
    a ← apply_regex r p.regex_rules (clone w) (String.◌++◌ "/payload" (pointer_of c))
    refuse_if a.changed protocol_redaction_unrepresentable
    check_controls cs

  abbrev pub restored :
      List (List String × Json) → Json × List RedactionEntry → Step (Json × List RedactionEntry)
  restored values redacted = elim (as_record redacted.0) [
    | none ↦ fail protocol_redaction_unrepresentable
    | some fs ↦ give (obj (set_all values fs), redacted.1)
  ]

  unfoldable pub redact_with_controls :
      String → List (List String) → Fields → Step (Json × List RedactionEntry)
  unfolding assert_containers_preserved value_at_object_path apply_regex clone clone_fields
      delete_object_path redact_json_value set_object_path
  redact_with_controls event_type controls fs = do
    assert_containers_preserved controls p
    let values = control_values controls (obj fs)
    check_controls values
    redacted ←
        redact_json_value r (payload_options event_type) p
          (obj (delete_all values (clone_fields fs)))
    restored values redacted

  abbrev pub redact_if_controlled :
      String → Option (List (List String)) → Fields → Step (Option (Json × List RedactionEntry))
  redact_if_controlled event_type none fs =
      if is_inherited event_type then fail type_error else give none
  redact_if_controlled event_type (some controls) fs = do
    result ← redact_with_controls event_type controls fs
    give (some result)

  -- `redactProtocolEventPayload`, of a payload in its JSON form; `none` is `undefined`.
  unfoldable pub redact_protocol_event : String → Json → Step (Option (Json × List RedactionEntry))
  unfolding redact_with_controls
  redact_protocol_event event_type payload = elim (as_record payload) [
    | none ↦ give none
    | some fs ↦ redact_if_controlled event_type (get_text event_type protocol_control_paths) fs
  ]
