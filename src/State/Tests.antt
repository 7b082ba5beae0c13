-- ===== src/State/Tests.antt =====
-- Runs of the reconstruction of a state.
use agent_loop_snapshot.Prelude.{
  ℕ, String, ◌≡◌, ◌≢◌, ◌↔◌, refl, sym, ◌∙◌, List, Option, none, eq_iff, [], ◌∷◌, true, false, some,
}
use agent_loop_snapshot.Schema.Json.{str, obj, arr, nil, cons, null, end, field}
use agent_loop_snapshot.State.Pointer.{
  ok, err, pointer_segments, state_event_invalid, is_array_index, is_dangerous,
}
use mathlib.Core.Path.{subst}
use agent_loop_snapshot.State.Container.{Container, object, clone, safe_fields}
use agent_loop_snapshot.State.Change.{StateChanged, apply_state_changed, require_value}
use agent_loop_snapshot.State.Rebuild.{
  StreamEvent, StoredCheckpoint, ReconstructionOptions, Reconstruction, checkpoint_state,
  validate_event_stream, replay_events, reconstruct_state,
}
use agent_loop_snapshot.State.Resume.{
  Faithful, checkpoint_state-base, reconstruct_state-without_checkpoints, state_of,
  without_checkpoints,
}
use agent_loop_snapshot.State.Stream.{StreamOf, validate_event_stream_iff}
use agent_loop_snapshot.State.Choice.{Ends, RebuiltFrom, reconstruct_state-Ends}
use agent_loop_snapshot.State.SafeStates.{IsSound, HoldsSound, reconstruct_state-IsSound}
use agent_loop_snapshot.State.Access.{value_at, value_at-apply_state_changed}
use agent_loop_snapshot.State.PointerText.{pointer_of, pointer_segments-pointer_of}
use agent_loop_snapshot.State.Results.{ok_injective}

segments_test : pointer_segments "/a~1b/m~01n~/" ≡ ok ("a/b" ∷ "m~1n~" ∷ "" ∷ [])
unfolding pointer_segments
segments_test = refl

index_test : is_array_index "010" ≡ false
unfolding is_array_index
index_test = refl

change_test :
    apply_state_changed
      (object (field "x" (arr (cons null (cons null nil))) end))
      (record { path = "/x/1"; operation = "set"; fields = field "value" (str "v") end })
    ≡ ok (object (field "x" (arr (cons null (cons (str "v") nil))) end))
unfolding apply_state_changed
change_test = refl

append_test :
    apply_state_changed
      (object (field "x" (obj (field "y" (arr nil) end)) end))
      (record { path = "/x/y"; operation = "append"; fields = field "value" (str "v") end })
    ≡ ok (object (field "x" (obj (field "y" (arr (cons (str "v") nil)) end)) end))
unfolding apply_state_changed
append_test = refl

dangerous_test :
    apply_state_changed
      (object end)
      (record { path = "/__proto__"; operation = "set"; fields = field "value" (str "v") end })
    ≡ err state_event_invalid
unfolding apply_state_changed
dangerous_test = refl

abbrev set_event : (run id : String) (n : ℕ) (path value : String) → StreamEvent
set_event run id n path value = record {
  run_id = run;
  event_id = id;
  sequence = n;
  event_type = "state.changed";
  payload =
      obj (field "path" (str path) (field "operation" (str "set") (field "value" (str value) end)));
}

abbrev events : List StreamEvent
events = set_event "r" "e1" 1 "/a" "x" ∷ set_event "r" "e2" 2 "/b" "y" ∷ []

abbrev saved : StoredCheckpoint
saved = record {
  checkpoint_id = "c1";
  run_id = "r";
  last_event_id = "e1";
  sequence = 1;
  state_hash = "h";
  state = field "a" (str "x") end;
}

abbrev one_hash : Container → String
one_hash _ = "h"

abbrev options : ReconstructionOptions
options = record { checkpoints = saved ∷ []; loaded = none; resolve_artifact = none }

abbrev after_first : Container
after_first = object (field "a" (str "x") end)

abbrev after_both : Container
after_both = object (field "a" (str "x") (field "b" (str "y") end))

abbrev rebuilt : Reconstruction
rebuilt = record {
  state = after_both;
  state_hash = "h";
  last_event_id = some "e2";
  sequence = 2;
  checkpoint_id = some "c1";
  used_checkpoint = true;
  diagnostics = [];
}

reconstruct_test : reconstruct_state one_hash options events ≡ ok rebuilt
unfolding reconstruct_state
reconstruct_test = refl

saved_state : checkpoint_state none saved ≡ ok after_first
unfolding checkpoint_state
saved_state = refl

first_replay :
    replay_events none 0 (object end) (set_event "r" "e1" 1 "/a" "x" ∷ []) ≡ ok after_first
unfolding replay_events
first_replay = refl

saved-Faithful : Faithful one_hash options events saved
saved-Faithful run s h =
    first_replay ∙ sym saved_state ∙ checkpoint_state-base one_hash none run events saved s h

reconstruct_state-without_checkpoints_example :
    state_of (reconstruct_state one_hash options events)
    ≡ state_of (reconstruct_state one_hash (without_checkpoints options) events)
reconstruct_state-without_checkpoints_example =
    reconstruct_state-without_checkpoints one_hash options events (saved-Faithful, tt)

validate_event_stream_iff_example :
    (validate_event_stream events ≡ ok (some "r")) ↔ ((events ≢ []) × StreamOf "r" 0 events)
validate_event_stream_iff_example = validate_event_stream_iff "r" events

valid_events : validate_event_stream events ≡ ok (some "r")
unfolding validate_event_stream
valid_events = refl

reconstruct_state-Ends_example :
    (chosen : Option (Container × StoredCheckpoint)) × Ends one_hash options "r" events
      (saved ∷ [])
      chosen
    × RebuiltFrom one_hash options "r" events rebuilt chosen
reconstruct_state-Ends_example =
    reconstruct_state-Ends one_hash options events "r" rebuilt valid_events reconstruct_test

after_first-IsSound : IsSound after_first
unfolding safe_fields is_dangerous
after_first-IsSound = (refl, tt)

saved-HoldsSound : HoldsSound one_hash options events saved
saved-HoldsSound run s h =
    subst IsSound
      (ok_injective after_first s
        (sym saved_state ∙ checkpoint_state-base one_hash none run events saved s h))
      after_first-IsSound

reconstruct_state-IsSound_example : IsSound after_both
reconstruct_state-IsSound_example =
    reconstruct_state-IsSound one_hash options events rebuilt (saved-HoldsSound, tt)
      reconstruct_test

abbrev set_nested : StateChanged
set_nested = record { path = "/x/y"; operation = "set"; fields = field "value" (str "v") end }

nested_value : require_value set_nested ≡ ok (str "v")
unfolding require_value
nested_value = refl

nested_path : pointer_segments "/x/y" ≡ ok ("x" ∷ "y" ∷ [])
unfolding pointer_segments
nested_path = refl

abbrev nested : Container
nested = object (field "x" (obj (field "y" (str "v") end)) end)

nested_set : apply_state_changed (object (field "x" (obj end) end)) set_nested ≡ ok nested
unfolding apply_state_changed
nested_set = refl

y_other : ◌≢◌ {A = String} "y" "-"
y_other e = let bad : false ≡ true = (eq_iff "y" "-").1 e in cc

value_at-apply_state_changed_example : value_at nested "x" ("y" ∷ []) ≡ some (clone (str "v"))
value_at-apply_state_changed_example =
    value_at-apply_state_changed set_nested (object (field "x" (obj end) end)) nested "x" ("y" ∷ [])
      (str "v") refl nested_value nested_path y_other nested_set

pointer_segments-pointer_of_example :
    pointer_segments (pointer_of ("a/b" ∷ "~1" ∷ [])) ≡ ok ("a/b" ∷ "~1" ∷ [])
pointer_segments-pointer_of_example = pointer_segments-pointer_of ("a/b" ∷ "~1" ∷ [])
