-- ===== src/State/Change.antt =====
-- One `state.changed` event (packages/recorder/src/checkpoints.ts).
use agent_loop_snapshot.Prelude.{
  String, true, false, Option, none, some, List, [], ◌∷◌, ◌==◌, if◌then◌else◌,
}
use agent_loop_snapshot.Schema.Json.{Json, obj, Fields, end, get, as_record}
use agent_loop_snapshot.State.Pointer.{
  Result, ok, err, ◌>>=◌, ◌>>◌, state_event_invalid, state_value_invalid, pointer_segments,
  assert_safe_path, is_dangerous,
}
use agent_loop_snapshot.State.Container.{
  Container, array, object, to_json, clone, clone_fields, is_safe, push_item, spread,
  get_container_value, set_container_value, delete_container_value, container_at_path,
  parent_at_path, initial, final, write_back,
}

-- `StateChangedPayload`; `fields` is the whole object, which may have a `value`.
pub record StateChanged : Type 0 where
  pub path : String
  pub operation : String
  pub fields : Fields

-- `requireValue`
unfoldable pub require_value : StateChanged → Result Json
unfolding is_safe
require_value payload = elim (get "value" payload.fields) [
  | none ↦ err state_value_invalid
  | some v ↦ if is_safe v then ok v else err state_value_invalid
]

-- The fields of the merge target; a missing one counts as `{}`.
abbrev pub merge_target : Option Json → Result Fields
merge_target none = ok end
merge_target (some v) = elim (as_record v) [ none ↦ err state_value_invalid | some fs ↦ ok fs ]

abbrev pub merge_value : Json → Result Fields
merge_value v = elim (as_record v) [ none ↦ err state_value_invalid | some fs ↦ ok fs ]

abbrev pub append_target : Container → Json → Result Container
append_target (array vs) v = ok (array (push_item vs v))
append_target (object fs) v = err state_value_invalid

-- What the `switch` of `applyStateChanged` does at the path's parent, whose new contents it gives.
unfoldable pub change_parent : StateChanged → Container → String → Result Container
unfolding require_value clone clone_fields get_container_value set_container_value
    delete_container_value
change_parent payload parent leaf =
    if payload.operation == "set"
    then (do v ← require_value payload; set_container_value parent leaf (clone v))
    else if payload.operation == "merge"
    then (do
      v ← require_value payload
      value ← merge_value v
      existing ← merge_target (get_container_value parent leaf)
      set_container_value parent leaf (obj (spread existing (clone_fields value))))
    else if payload.operation == "delete"
    then delete_container_value parent leaf
    else ok parent

-- The case `append` of the `switch`.
unfoldable pub append_at : StateChanged → Container → String → List String → Result Container
unfolding require_value container_at_path clone write_back
append_at payload state s ss = do
  v ← require_value payload
  target ← container_at_path (to_json state) (s ∷ ss)
  changed ← append_target target (clone v)
  ok (write_back state (s ∷ ss) changed)

-- The other cases.
unfoldable pub change_at :
    StateChanged → Container → Container → String → List String → Result Container
unfolding change_parent write_back
change_at payload state parent s ss = do
  changed ← change_parent payload parent (final s ss)
  ok (write_back state (initial s ss) changed)

unfoldable pub apply_at : Container → StateChanged → List String → Result Container
unfolding assert_safe_path parent_at_path append_at change_at
apply_at state payload [] = err state_event_invalid
apply_at state payload (s ∷ ss) = do
  assert_safe_path (s ∷ ss)
  parent ← parent_at_path state (s ∷ ss)
  elim (payload.operation == "append") [
    | true ↦ append_at payload state s ss
    | false ↦ change_at payload state parent s ss
  ]

-- `applyStateChanged`; an operation of another name changes nothing.
unfoldable pub apply_state_changed : Container → StateChanged → Result Container
unfolding pointer_segments apply_at is_dangerous
apply_state_changed state payload = do
  segments ← pointer_segments payload.path
  apply_at state payload segments
