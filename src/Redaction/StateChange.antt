-- ===== src/Redaction/StateChange.antt =====
-- packages/recorder/src/redaction.ts: the redaction of a `state.changed` event.
use Prim.Native.Char.{code}
use Prim.Native.String
use agent_loop_snapshot.Prelude.{
  String, Bool, true, false, not, ◌&&◌, ◌||◌, Option, none, some, List, [], ◌∷◌, ◌++◌, ◌==◌, ◌===◌,
  if◌then◌else◌, any, is_some, length, take, get_elem?, last?, includes, map,
}
use agent_loop_snapshot.Schema.Json.{
  Json, str, arr, obj, nil, cons, Fields, end, field, get, as_record, items,
}
use agent_loop_snapshot.Schema.Envelope.{RedactionEntry}
use agent_loop_snapshot.State.Container.{item_at, spread, define}
use agent_loop_snapshot.State.Pointer.{slash}
use agent_loop_snapshot.State.PointerText.{pointer_of}
use agent_loop_snapshot.Redaction.Input.{Input, Properties}
use agent_loop_snapshot.Redaction.Value.{normalize, is_artifact_reference, properties}
use agent_loop_snapshot.Redaction.Rules.{
  Outcome, failed, done, Step, give, fail, ◌>>=◌, ◌>>◌, refuse_if, state_redaction_context_required,
  state_redaction_unrepresentable, Runtime, Source, FieldRule, CustomRule, Pipeline, path_segments,
  add_entries,
}
use agent_loop_snapshot.Redaction.Walk.{ExecutionOptions, array_index}
use agent_loop_snapshot.Redaction.Content.{apply_regex, redact_json_value}
use agent_loop_snapshot.Redaction.Protocol.{paths_can_overlap}
use agent_loop_snapshot.Redaction.Addresses.{
  Operation, set, merge, delete, append, StateChange, operation_text, state_change_payload,
  rule_segments, is_set, assert_addresses_stable, assert_state_context, assert_delete_safe,
}

-- `StateChangeProjection`
pub record Projection : Type 0 where
  pub root : Json
  pub target : List String
  pub appended : Bool

-- `unsafeStatePathSegments`
abbrev is_unsafe : String → Bool
is_unsafe = includes ("__proto__" ∷ "constructor" ∷ "prototype" ∷ [])

abbrev ends_with_dash : List String → Bool
ends_with_dash segments = elim (last? segments) [ none ↦ false | some s ↦ s == "-" ]

-- `slice(0, -1)`
abbrev without_last : List String → List String
without_last [] = []
without_last (s ∷ []) = []
without_last (s ∷ t ∷ ss) = s ∷ without_last (t ∷ ss)

-- Objects with one property each, around a value; `virtualStateContainer` makes each of them.
abbrev pub around : List String → Json → Json
around [] v = v
around (s ∷ ss) v = obj (field s (around ss v) end)

abbrev one_item : Json → Json
one_item v = arr (cons v nil)

unfoldable pub project : Operation → List String → Json → Projection
project append segments v = record {
  root = around segments (one_item v);
  target = segments;
  appended = true;
}
project set segments v =
    if ends_with_dash segments
    then record {
      root = around (without_last segments) (one_item v);
      target = without_last segments;
      appended = true;
    }
    else record { root = around segments v; target = segments; appended = false }
project op segments v = record { root = around segments v; target = segments; appended = false }

abbrev projection_at : StateChange → Outcome (List String) → Option Projection
projection_at change (failed _) = none
projection_at change (done []) = none
projection_at change (done (s ∷ ss)) =
    if any is_unsafe (s ∷ ss)
    then none
    else some (project change.operation (s ∷ ss) (normalize change.value))

-- `stateChangeProjection`
unfoldable pub state_change_projection : StateChange → Option Projection
unfolding path_segments project normalize
state_change_projection change = projection_at change ((path_segments change.path []).0)

abbrev pub member_at : String → Json → Option Json
member_at segment (arr vs) = elim (array_index segment) [ none ↦ none | some i ↦ item_at i vs ]
member_at segment (obj fs) = get segment fs
member_at segment _ = none

-- `valueAtStatePath`
unfoldable pub value_at_state_path : List String → Json → Option Json
unfolding array_index
value_at_state_path [] v = some v
value_at_state_path (s ∷ ss) v = elim (member_at s v) [
  | none ↦ none
  | some w ↦ value_at_state_path ss w
]

-- What follows a prefix of a text.
abbrev after_text : String → String → Option String
after_text String.[] s = some s
after_text (String.◌∷◌ c p) String.[] = none
after_text (String.◌∷◌ c p) (String.◌∷◌ d s) = if code c === code d then after_text p s else none

abbrev starts_member : String → Bool
starts_member String.[] = true
starts_member (String.◌∷◌ c _) = code c === slash

abbrev moved : String → RedactionEntry → Option String → RedactionEntry
moved to e none = e
moved to e (some rest) = if starts_member rest then record e { path = String.◌++◌ to rest } else e

-- `stateRedactionEntries`
unfoldable pub state_redaction_entries : List RedactionEntry → Projection → List RedactionEntry
state_redaction_entries entries p =
    if p.appended
    then map
        (λ (e : RedactionEntry).
          moved (pointer_of (p.target ++ "-" ∷ [])) e
            (after_text (pointer_of (p.target ++ "0" ∷ [])) e.path))
        entries
    else entries

-- `overlaps` of the next function.
abbrev overlaps : List String → List String → Bool
overlaps [] target = true
overlaps (s ∷ ss) [] = true
overlaps (s ∷ ss) (t ∷ ts) = (s == "*" || s == t) && overlaps ss ts

abbrev has_index : Option String → Bool
has_index none = false
has_index (some s) = is_some (array_index s)

abbrev sees_index : List String → CustomRule → Bool
sees_index target rule = elim (rule.path) [
  | none ↦ true
  | some path ↦ overlaps (rule_segments path) target
]

abbrev is_indexed_at : List String → FieldRule → Bool
is_indexed_at target rule =
    let segments = rule_segments rule.path in
    overlaps segments target && has_index (get_elem? segments (length target))

-- `assertAppendRulesArePositionIndependent`
unfoldable pub assert_position_independent : Projection → Pipeline → Step (Unit {0})
unfolding rule_segments array_index
assert_position_independent p pipeline =
    refuse_if
      (p.appended
        && (any (is_indexed_at p.target) pipeline.field_rules
            || any (sees_index p.target) pipeline.custom_redactors))
      state_redaction_context_required

-- The value that the redacted projection has at the target.
abbrev pub target_value : Bool → Option Json → Option Json
target_value true (some (arr vs)) = last? (items vs)
target_value true _ = none
target_value false v = v

abbrev pub keeps_keys : Fields → Fields → Bool
keeps_keys end made = true
keeps_keys (field k _ fs) made = is_some (get k made) && keeps_keys fs made

-- A merge stays one that writes every key of the patch.
abbrev pub is_same_merge : Json → Json → Bool
is_same_merge original (obj made) = elim (as_record original) [
  | none ↦ true
  | some fs ↦ keeps_keys fs made
]
is_same_merge original _ = false

abbrev pub stays_merge : Operation → Json → Json → Bool
stays_merge merge original v = is_same_merge original v
stays_merge op original v = true

abbrev pub checked_target : StateChange → Option Json → Step Json
checked_target change none = fail state_redaction_unrepresentable
checked_target change (some v) =
    if stays_merge change.operation (normalize change.value) v
    then give v
    else fail state_redaction_unrepresentable

abbrev pub is_delete : Operation → Bool
is_delete delete = true
is_delete _ = false

-- `projected`
unfoldable pub has_value : StateChange → Bool
unfolding is_artifact_reference
has_value change = not (is_delete change.operation) && not (is_artifact_reference change.value)

module _ (r : Runtime) (p : Pipeline) where
  abbrev pub state_options : String → ExecutionOptions
  state_options prefix = record {
    path_prefix = prefix;
    source = Source.event;
    event_type = some "state.changed";
  }

  abbrev pub redact_projection : StateChange → Option Projection → Step (Json × List RedactionEntry)
  redact_projection change none = fail state_redaction_unrepresentable
  redact_projection change (some projection) = do
    assert_position_independent projection p
    result ← redact_json_value r (state_options "") p projection.root
    v ←
        checked_target change
          (target_value projection.appended (value_at_state_path projection.target result.0))
    give (v, state_redaction_entries result.1 projection)

  -- `redactStateChangeValue`, of a change that has a value to redact; its `undefined` is refused by
  -- the caller, here at once.
  unfoldable pub redact_state_value : StateChange → Step (Json × List RedactionEntry)
  unfolding assert_state_context state_change_projection assert_position_independent
      redact_json_value value_at_state_path state_redaction_entries normalize
  redact_state_value change = do
    assert_state_context change p
    redact_projection change (state_change_projection change)

  -- A rule for a member `-` of what is set at a trailing dash.
  abbrev is_ambiguous : List String → FieldRule → Bool
  is_ambiguous target rule =
      let segments = rule_segments rule.path in
      let depth = length (without_last target) in
      elim (get_elem? segments depth) [ none ↦ false | some s ↦ s == "-" ]
      && paths_can_overlap (take depth segments) (without_last target)

  abbrev pub controls_of : StateChange → Fields
  controls_of change =
      field "operation" (str (operation_text change.operation)) (field "path" (str change.path) end)

  abbrev without : String → Properties → Properties
  without k Properties.end = Properties.end
  without k (Properties.field j v fs) =
      let rest = without k fs in if j == k then rest else Properties.field j v rest

  abbrev pub metadata_of : Bool → Properties → Properties
  metadata_of projected fs =
      let rest = without "path" (without "operation" fs) in
      if projected then without "value" rest else rest

  abbrev pub with_value : Option (Json × List RedactionEntry) → Fields → Fields
  with_value none fs = fs
  with_value (some (v, _)) fs = define "value" v fs

  abbrev pub with_entries :
      Option (Json × List RedactionEntry) → List RedactionEntry → List RedactionEntry
  with_entries none entries = entries
  with_entries (some (_, es)) entries = add_entries entries es

  abbrev pub assembled :
      StateChange
      → Option (Json × List RedactionEntry)
      → Json × List RedactionEntry
      → Step (Json × List RedactionEntry)
  assembled change value metadata = elim (as_record metadata.0) [
    | none ↦ fail state_redaction_unrepresentable
    | some fs ↦
        give
          (obj (with_value value (spread fs (controls_of change))), with_entries value metadata.1)
  ]

  abbrev pub check_delete : StateChange → Step (Unit {0})
  check_delete change =
      if is_delete change.operation then assert_delete_safe change.path p else give tt

  abbrev pub check_dash : StateChange → Step (Unit {0})
  check_dash change = do
    target ← path_segments change.path
    refuse_if
        (is_set change.operation
          && ends_with_dash target
          && any (is_ambiguous target) p.field_rules)
        state_redaction_context_required

  abbrev pub check_controls : StateChange → Step (Unit {0})
  check_controls change = do
    a ← apply_regex r p.regex_rules (obj (controls_of change)) "/payload"
    refuse_if a.changed state_redaction_unrepresentable

  abbrev pub redact_value_if : Bool → StateChange → Step (Option (Json × List RedactionEntry))
  redact_value_if false change = give none
  redact_value_if true change = do v ← redact_state_value change; give (some v)

  unfoldable pub redact_change : StateChange → Properties → Step (Json × List RedactionEntry)
  unfolding assert_delete_safe assert_addresses_stable path_segments rule_segments paths_can_overlap
      apply_regex has_value redact_state_value normalize redact_json_value
  redact_change change fs = do
    check_delete change
    assert_addresses_stable change p
    check_dash change
    check_controls change
    value ← redact_value_if (has_value change) change
    metadata ←
        redact_json_value r (state_options "/payload") p
          (normalize (Input.object (metadata_of (has_value change) fs)))
    assembled change value metadata

  abbrev redact_if_change :
      Option StateChange → Option Properties → Step (Option (Json × List RedactionEntry))
  redact_if_change (some change) (some fs) = do result ← redact_change change fs; give (some result)
  redact_if_change _ _ = give none

  -- `redactStateChangePayload`; `none` is `undefined`.
  unfoldable pub redact_state_change_payload : Input → Step (Option (Json × List RedactionEntry))
  unfolding state_change_payload redact_change
  redact_state_change_payload payload =
      redact_if_change (state_change_payload payload) (properties payload)
