-- ===== src/State/SafeStates.antt =====
-- A state that is rebuilt is an object without dangerous keys
-- (packages/recorder/src/checkpoints.ts).
use agent_loop_snapshot.Prelude.{
  ℕ, String, ◌≡◌, refl, ap, inl, inr, not, ◌||◌, Option, none, some, List, [], ◌∷◌, ◌==◌, leb, All,
  is_some, if_elim, bool_elim, option_elim,
}
use mathlib.Core.Path.{subst}
use agent_loop_snapshot.Schema.Json.{Json, get}
use agent_loop_snapshot.State.Pointer.{Result, ok, err, ◌>>=◌, pointer_segments, assert_safe_path}
use agent_loop_snapshot.State.Results.{
  Holds, bind-Holds, Holds-ok, bind_ok, anything, itself, ok_injective,
}
use agent_loop_snapshot.State.Container.{
  Container, array, object, to_json, clone, safe_fields, get_container_value, set_container_value,
  delete_container_value, child, container_at_path, descend, initial, final, put, write_back,
}
use agent_loop_snapshot.State.Change.{
  StateChanged, require_value, merge_target, merge_value, append_target, change_parent, change_at,
  apply_at, apply_state_changed,
}
use agent_loop_snapshot.State.SafeContainers.{IsSafe}
use agent_loop_snapshot.State.Safety.{apply_state_changed-IsSafe}
use agent_loop_snapshot.State.Rebuild.{
  Resolver, StreamEvent, StoredCheckpoint, ReconstructionOptions, Reconstruction, base,
  state_changed_payload, replay_event, replay_events, validate_event_stream, valid_checkpoint_base,
  choose_checkpoint, choose_base, sort_candidates, given_checkpoints, start_state,
  reconstruct_state,
}
use agent_loop_snapshot.State.Resume.{sort_candidates-All, Base-cases}

abbrev pub IsObject : Container → Type 0
IsObject (object fs) = Unit
IsObject (array vs) = ⊥

set_container_value-IsObject :
    (c : Container) (s : String) (v : Json)
    → IsObject c
    → Holds IsObject (set_container_value c s v)
unfolding set_container_value
set_container_value-IsObject (object fs) s v h = tt
set_container_value-IsObject (array vs) s v h = absurd h

delete_container_value-IsObject :
    (c : Container) (s : String) → IsObject c → Holds IsObject (delete_container_value c s)
unfolding delete_container_value
delete_container_value-IsObject (object fs) s h =
    if_elim (Holds IsObject) (not (is_some (get s fs))) (λ _. tt) (λ _. tt)
delete_container_value-IsObject (array vs) s h = absurd h

-- A chain ends as its last part does.
then_IsObject :
    {A : Type 0} (m : Result A) (f : A → Result Container)
    → ((a : A) → Holds IsObject (f a))
    → Holds IsObject (m >>= f)
then_IsObject m f h = bind-Holds (λ _. Unit {0}) IsObject m f (anything m) (λ a _. h a)

change_parent-IsObject :
    (p : StateChanged) (c : Container) (s : String)
    → IsObject c
    → Holds IsObject (change_parent p c s)
unfolding change_parent
change_parent-IsObject p c s h =
    if_elim (Holds IsObject) (p.operation == "set")
      (λ _. then_IsObject (require_value p) _ (λ v. set_container_value-IsObject c s (clone v) h))
      (λ _.
        if_elim (Holds IsObject) (p.operation == "merge")
          (λ _. then_IsObject (require_value p) _ (λ v. then_IsObject (merge_value v) _ (λ value.
            then_IsObject (merge_target (get_container_value c s)) _
              (λ old. set_container_value-IsObject c s _ h))))
          (λ _.
            if_elim (Holds IsObject) (p.operation == "delete")
              (λ _. delete_container_value-IsObject c s h) (λ _. h)))

put-IsObject : (c : Container) (s : String) (v : Json) → IsObject c → IsObject (put c s v)
put-IsObject (object fs) s v h = tt
put-IsObject (array vs) s v h = absurd h

write_back-IsObject :
    (c : Container) (s : String) (ss : List String) (d : Container)
    → IsObject c
    → IsObject (write_back c (s ∷ ss) d)
unfolding write_back
write_back-IsObject c s ss d h =
    option_elim IsObject (child c s) (λ _. h) (λ e _. put-IsObject c s _ h)

change_at-IsObject :
    (p : StateChanged) (c parent : Container) (s : String) (ss : List String)
    → IsObject c
    → descend c (initial s ss) ≡ ok parent
    → Holds IsObject (change_at p c parent s ss)
unfolding change_at descend
change_at-IsObject p c parent s [] h e =
    bind-Holds IsObject IsObject (change_parent p parent s) _
      (change_parent-IsObject p parent s (subst IsObject (ok_injective c parent e) h)) (λ d g. g)
change_at-IsObject p c parent s (t ∷ ss) h e =
    then_IsObject (change_parent p parent (final t ss)) _
      (λ d. write_back-IsObject c s (initial t ss) d h)

apply_at-IsObject :
    (c : Container) (p : StateChanged) (ss : List String)
    → IsObject c
    → Holds IsObject (apply_at c p ss)
unfolding apply_at
apply_at-IsObject c p [] h = tt
apply_at-IsObject c p (s ∷ ss) h = then_IsObject (assert_safe_path (s ∷ ss)) _ (λ _.
    bind-Holds (λ d. descend c (initial s ss) ≡ ok d) IsObject (descend c (initial s ss)) _
      (itself (descend c (initial s ss)))
      (λ parent e.
        bool_elim (Holds IsObject) (p.operation == "append")
          (λ _. then_IsObject (require_value p) _ (λ v.
            then_IsObject (container_at_path (to_json c) (s ∷ ss)) _ (λ d.
              then_IsObject (append_target d (clone v)) _ (λ w. write_back-IsObject c s ss w h))))
          (λ _. change_at-IsObject p c parent s ss h e)))

-- The state is an object, and no object in it has a dangerous key.
abbrev pub IsSound : Container → Type 0
IsSound c = IsSafe c × IsObject c

both : (m : Result Container) → Holds IsSafe m → Holds IsObject m → Holds IsSound m
both (ok c) h g = (h, g)
both (err e) h g = tt

apply_state_changed-IsSound :
    (c : Container) (p : StateChanged) → IsSound c → Holds IsSound (apply_state_changed c p)
unfolding apply_state_changed
apply_state_changed-IsSound c p h =
    both (apply_state_changed c p) (apply_state_changed-IsSafe c p h.0)
      (then_IsObject (pointer_segments p.path) _ (λ ss. apply_at-IsObject c p ss h.1))

module _ (resolve : Option Resolver) (b : ℕ) where
  replay_event-IsSound :
      (c : Container) (e : StreamEvent) → IsSound c → Holds IsSound (replay_event resolve b c e)
  unfolding replay_event
  replay_event-IsSound c e h =
      bool_elim (Holds IsSound) (leb e.sequence b || not (e.event_type == "state.changed")) (λ _. h)
        (λ _.
          bind-Holds (λ _. Unit {0}) IsSound (state_changed_payload resolve e.payload) _
            (anything (state_changed_payload resolve e.payload))
            (λ p _. apply_state_changed-IsSound c p h))

  replay_events-IsSound :
      (c : Container) (es : List StreamEvent)
      → IsSound c
      → Holds IsSound (replay_events resolve b c es)
  unfolding replay_events
  replay_events-IsSound c [] h = h
  replay_events-IsSound c (e ∷ es) h =
      bind-Holds IsSound IsSound (replay_event resolve b c e) _ (replay_event-IsSound c e h)
        (λ d g. replay_events-IsSound d es g)

module _ (hash_state : Container → String) (o : ReconstructionOptions) (es : List StreamEvent) where
  -- The checkpoint, where it is accepted, holds a sound state.
  abbrev pub HoldsSound : StoredCheckpoint → Type 0
  HoldsSound c =
      (run : String) (s : Container)
      → valid_checkpoint_base hash_state o.resolve_artifact run es c ≡ base s
      → IsSound s

  choose-IsSound :
      (run : String) (cs : List StoredCheckpoint)
      → All HoldsSound cs
      → IsSound (start_state (choose_checkpoint hash_state o.resolve_artifact run es cs))
  unfolding choose_checkpoint safe_fields
  choose-IsSound run [] h = (refl, tt)
  choose-IsSound run (c ∷ cs) h =
      elim (Base-cases (valid_checkpoint_base hash_state o.resolve_artifact run es c)) [
        | inl (s, e) ↦ rw (choose_checkpoint, e) (h.0 run s e)
        | inr (x, e) ↦ rw (choose_checkpoint, e) (choose-IsSound run cs h.1)
      ]

  choose_base-IsSound :
      (run : Option String)
      → All HoldsSound (given_checkpoints o)
      → IsSound (start_state (choose_base hash_state o run es))
  unfolding choose_base safe_fields
  choose_base-IsSound none h = (refl, tt)
  choose_base-IsSound (some run) h =
      choose-IsSound run (sort_candidates (given_checkpoints o))
        (sort_candidates-All HoldsSound (given_checkpoints o) h)

  -- Where each checkpoint that is accepted holds an object without dangerous keys, the state that
  -- is rebuilt is such an object, too, whatever the events say.
  pub reconstruct_state-IsSound :
      (x : Reconstruction)
      → All HoldsSound (given_checkpoints o)
      → reconstruct_state hash_state o es ≡ ok x
      → IsSound x.state
  unfolding reconstruct_state
  reconstruct_state-IsSound x h e =
      let (run, _, made) = bind_ok (validate_event_stream es) _ x e in
      let (s, replayed, same) = bind_ok (replay_events o.resolve_artifact _ _ es) _ x made in
      subst IsSound (ap (λ (y : Reconstruction). y.state) (ok_injective _ x same)) (
        Holds-ok IsSound _ s replayed
          (replay_events-IsSound o.resolve_artifact _ _ es (choose_base-IsSound run h)))
