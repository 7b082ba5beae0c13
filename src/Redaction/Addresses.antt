-- ===== src/Redaction/Addresses.antt =====
-- packages/recorder/src/redaction.ts: which rules a `state.changed` event can be redacted by without
-- the state that it changes.
use agent_loop_snapshot.Prelude.{
  ◌+◌, String, Bool, true, false, ◌&&◌, ◌||◌, Option, none, some, List, [], ◌∷◌, ◌++◌, ◌==◌, ◌===◌,
  ltb, leb, if◌then◌else◌, any, is_some, length, take, get_elem?,
}
use agent_loop_snapshot.Redaction.Input.{Input, Properties}
use agent_loop_snapshot.Redaction.Value.{own, properties}
use agent_loop_snapshot.Redaction.Rules.{
  failed, done, Step, give, ◌>>=◌, ◌>>◌, refuse_if, state_redaction_context_required,
  state_redaction_unrepresentable, FieldStrategy, FieldRule, CustomRule, Pipeline, path_segments,
}
use agent_loop_snapshot.Redaction.Walk.{array_index}
use agent_loop_snapshot.Redaction.Protocol.{paths_can_overlap}

pub data Operation : Type 0 where
  set merge delete append : Operation

-- `StateChangePayloadForRedaction`
pub record StateChange : Type 0 where
  pub operation : Operation
  pub path : String
  pub value : Input

abbrev operation_of : Option Input → Option Operation
operation_of (some (Input.str s)) =
    if s == "set"
    then some set
    else if s == "merge"
    then some merge
    else if s == "delete"
    then some delete
    else if s == "append"
    then some append
    else none
operation_of _ = none

abbrev pub operation_text : Operation → String
operation_text set = "set"
operation_text merge = "merge"
operation_text delete = "delete"
operation_text append = "append"

abbrev value_or_undefined : Option Input → Input
value_or_undefined none = Input.undefined
value_or_undefined (some v) = v

abbrev state_change : Operation → String → Option Input → Option StateChange
state_change delete path v =
    some (record { operation = delete; path = path; value = value_or_undefined v })
state_change op path none = none
state_change op path (some v) = some (record { operation = op; path = path; value = v })

abbrev change_of : Option Input → Option Operation → Option Input → Option StateChange
change_of (some (Input.str path)) (some op) v = state_change op path v
change_of _ _ _ = none

abbrev change_in : Option Properties → Option StateChange
change_in none = none
change_in (some fs) = change_of (own "path" fs) (operation_of (own "operation" fs)) (own "value" fs)

-- `stateChangePayloadForRedaction`
unfoldable pub state_change_payload : Input → Option StateChange
state_change_payload payload = change_in (properties payload)

-- `pathSegments` of a rule's path: the constructor of the pipeline has refused all others.
unfoldable pub rule_segments : String → List String
unfolding path_segments
rule_segments path = elim ((path_segments path []).0) [ failed _ ↦ [] | done segments ↦ segments ]

abbrev fits : String → String → Bool
fits s t = s == "*" || s == t

-- `ruleMatchesPrefix`
unfoldable pub rule_matches_prefix : List String → List String → Bool
rule_matches_prefix [] path = true
rule_matches_prefix (s ∷ ss) [] = false
rule_matches_prefix (s ∷ ss) (t ∷ ts) = fits s t && rule_matches_prefix ss ts

abbrev pub is_element : Option String → Bool
is_element none = false
is_element (some s) = s == "*" || is_some (array_index s)

abbrev pub is_removal : FieldStrategy → Bool
is_removal FieldStrategy.remove = true
is_removal _ = false

-- `affectsAddress`, for the element that comes after `parent`.
unfoldable pub affects_address : List String → List String → Bool → Bool
unfolding rule_matches_prefix array_index
affects_address parent rule can_remove =
    if leb (length rule) (length parent)
    then rule_matches_prefix rule parent
    else can_remove
      && length rule === length parent + 1
      && rule_matches_prefix (take (length parent) rule) parent
      && is_element (get_elem? rule (length parent))

abbrev affected_by_custom : List String → CustomRule → Bool
affected_by_custom parent rule = elim (rule.path) [
  | none ↦ true
  | some path ↦ affects_address parent (rule_segments path) true
]

abbrev is_affected : Pipeline → List String → Bool
is_affected p parent =
    any (λ (f : FieldRule). affects_address parent (rule_segments f.path) (is_removal f.strategy))
      p.field_rules
    || any (affected_by_custom parent) p.custom_redactors

abbrev unstable_after : Pipeline → List String → List String → Bool
unstable_after p parent [] = false
unstable_after p parent (s ∷ ss) =
    (is_some (array_index s) && is_affected p parent) || unstable_after p (parent ++ s ∷ []) ss

-- `assertStateArrayAddressesAreStable`
unfoldable pub assert_addresses_stable : StateChange → Pipeline → Step (Unit {0})
unfolding path_segments rule_segments affects_address array_index
assert_addresses_stable change p = do
  target ← path_segments change.path
  refuse_if (unstable_after p [] target) state_redaction_context_required

abbrev is_delete : Operation → Bool
is_delete delete = true
is_delete _ = false

abbrev is_merge : Operation → Bool
is_merge merge = true
is_merge _ = false

abbrev pub is_set : Operation → Bool
is_set set = true
is_set _ = false

abbrev needs_state : Operation → List String → CustomRule → Bool
needs_state op target rule = elim (rule.path) [
  | none ↦ true
  | some path ↦
      let segments = rule_segments path in
      let above = leb (length segments) (length target) && paths_can_overlap segments target in
      (is_merge op && above) || (is_set op && ltb (length segments) (length target) && above)
]

-- `assertCustomRulesHaveStateContext`, where there are custom rules.
unfoldable pub assert_state_context : StateChange → Pipeline → Step (Unit {0})
unfolding path_segments rule_segments paths_can_overlap
assert_state_context change p = elim (p.custom_redactors) [
  | [] ↦ give tt
  | rule ∷ rules ↦ if is_delete change.operation then give tt else (do
    target ← path_segments change.path
    refuse_if (any (needs_state change.operation target) (rule ∷ rules))
        state_redaction_context_required)
]

-- A numeric segment of the target, with what comes before it and whether it is the last.
pub record ArrayParent : Type 0 where
  pub path : List String
  pub is_last : Bool

abbrev is_empty : List String → Bool
is_empty [] = true
is_empty (_ ∷ _) = false

abbrev pub array_parents : List String → List String → List ArrayParent
array_parents before [] = []
array_parents before (s ∷ ss) =
    let rest = array_parents (before ++ s ∷ []) ss in
    if is_some (array_index s)
    then (record { path = before; is_last = is_empty ss }) ∷ rest
    else rest

abbrev removes_target : List String → FieldRule → Bool
removes_target target rule =
    let segments = rule_segments rule.path in
    rule_matches_prefix segments target
    && (is_removal rule.strategy || ltb (length segments) (length target))

abbrev is_indexed : Option String → Bool
is_indexed none = false
is_indexed (some s) = is_some (array_index s)

abbrev shifts : FieldRule → ArrayParent → Bool
shifts rule parent =
    let segments = rule_segments rule.path in
    let index = length parent.path in
    ltb index (length segments)
    && rule_matches_prefix (take index segments) parent.path
    && is_element (get_elem? segments index)
    && ((is_removal rule.strategy && length segments === index + 1)
        || (parent.is_last && is_indexed (get_elem? segments index)))

abbrev custom_at_delete : List String → List ArrayParent → CustomRule → Bool
custom_at_delete target parents rule = elim (rule.path) [
  | none ↦ true
  | some path ↦
      let segments = rule_segments path in
      rule_matches_prefix (take (length target) segments) target
      || any
          (λ (parent : ArrayParent).
            rule_matches_prefix (take (length parent.path) segments) parent.path)
          parents
]

-- `assertDeleteRulesAreSafe`
unfoldable pub assert_delete_safe : String → Pipeline → Step (Unit {0})
unfolding path_segments rule_segments rule_matches_prefix array_index
assert_delete_safe path p = do
  target ← path_segments path
  refuse_if (any (removes_target target) p.field_rules) state_redaction_unrepresentable
  let parents = array_parents [] target
  refuse_if
      (any (λ (f : FieldRule). any (shifts f) parents) p.field_rules
        || any (custom_at_delete target parents) p.custom_redactors)
      state_redaction_context_required
