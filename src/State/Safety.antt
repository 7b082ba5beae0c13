-- ===== src/State/Safety.antt =====
-- No dangerous key comes into a state (packages/recorder/src/checkpoints.ts).
use agent_loop_snapshot.Prelude.{
  String, ◌≡◌, refl, true, false, Option, none, some, List, [], ◌∷◌, ◌==◌, arith, All, bool_elim,
  if_elim, option_elim, any,
}
use agent_loop_snapshot.Schema.Json.{Json, arr, obj, null, bool, num, str, Fields, get}
use agent_loop_snapshot.State.Pointer.{is_dangerous, assert_safe_path, pointer_segments}
use agent_loop_snapshot.State.Results.{Holds, bind-Holds, anything}
use agent_loop_snapshot.State.SafeValues.{clone-safe, clone_fields-safe, push-safe, spread-safe}
use agent_loop_snapshot.State.Container.{
  Container, array, object, to_json, clone, clone_fields, is_safe, safe_fields, get_container_value,
  container_at_path, descend, initial, final, spread,
}
use agent_loop_snapshot.State.Change.{
  StateChanged, require_value, merge_target, merge_value, append_target, change_parent, append_at,
  change_at, apply_at, apply_state_changed,
}
use agent_loop_snapshot.State.SafeContainers.{
  to_json-safe, get_container_value-safe, set_container_value-IsSafe, delete_container_value-IsSafe,
  descend-IsSafe, container_at_path-IsSafe, write_back-IsSafe, IsSafe, IsSafeValue, IsSafeKey,
  Found,
}

require_value-safe : (p : StateChanged) → Holds IsSafeValue (require_value p)
unfolding require_value
require_value-safe p =
    option_elim (Holds IsSafeValue) (get "value" p.fields) (λ _. tt)
      (λ v _. if_elim (Holds IsSafeValue) (is_safe v) (λ e. e) (λ _. tt))

abbrev SafeFields : Fields → Type 0
SafeFields fs = safe_fields fs ≡ true

merge_value-safe : (v : Json) → IsSafeValue v → Holds SafeFields (merge_value v)
unfolding is_safe
merge_value-safe (obj fs) h = h
merge_value-safe (arr _) h = tt
merge_value-safe null h = tt
merge_value-safe (bool _) h = tt
merge_value-safe (num _) h = tt
merge_value-safe (str _) h = tt

merge_target-safe : (v : Option Json) → Found v → Holds SafeFields (merge_target v)
unfolding is_safe
merge_target-safe none h = refl
merge_target-safe (some v) h = merge_value-safe v h

each_value : (o : Option Json) → ((v : Json) → o ≡ some v → IsSafeValue v) → Found o
each_value none h = tt
each_value (some v) h = h v refl

obj-safe : (fs : Fields) → SafeFields fs → IsSafeValue (obj fs)
unfolding is_safe
obj-safe fs h = h

append_target-IsSafe :
    (c : Container) (v : Json) → IsSafe c → IsSafeValue v → Holds IsSafe (append_target c v)
append_target-IsSafe (array vs) v h w = push-safe v w vs h
append_target-IsSafe (object fs) v h w = tt

change_parent-IsSafe :
    (p : StateChanged) (c : Container) (s : String)
    → IsSafe c
    → IsSafeKey s
    → Holds IsSafe (change_parent p c s)
unfolding change_parent
change_parent-IsSafe p c s h k =
    if_elim (Holds IsSafe) (p.operation == "set")
      (λ _.
        bind-Holds IsSafeValue IsSafe (require_value p) _ (require_value-safe p)
          (λ v w. set_container_value-IsSafe c s (clone v) h k (clone-safe v w)))
      (λ _.
        if_elim (Holds IsSafe) (p.operation == "merge")
          (λ _. bind-Holds IsSafeValue IsSafe (require_value p) _ (require_value-safe p) (λ v w.
            bind-Holds SafeFields IsSafe (merge_value v) _ (merge_value-safe v w) (λ value vs.
              bind-Holds SafeFields IsSafe (merge_target (get_container_value c s)) _
                (merge_target-safe (get_container_value c s)
                  (each_value (get_container_value c s) (λ x. get_container_value-safe c s x h)))
                (λ old os. set_container_value-IsSafe c s _ h k (
                  obj-safe (spread old (clone_fields value))
                    (spread-safe old (clone_fields value) os (clone_fields-safe value vs)))))))
          (λ _.
            if_elim (Holds IsSafe) (p.operation == "delete")
              (λ _. delete_container_value-IsSafe c s h) (λ _. h)))

initial-All :
    (P : String → Type 0) (s : String) (ss : List String) → All P (s ∷ ss) → All P (initial s ss)
initial-All P s [] h = tt
initial-All P s (t ∷ ss) h = (h.0, initial-All P t ss h.1)

final-All : (P : String → Type 0) (s : String) (ss : List String) → All P (s ∷ ss) → P (final s ss)
final-All P s [] h = h.0
final-All P s (t ∷ ss) h = final-All P t ss h.1

not_any : (ss : List String) → any is_dangerous ss ≡ false → All IsSafeKey ss
not_any [] h = tt
not_any (s ∷ ss) h = (ground (arith, h), not_any ss (ground (arith, h)))

assert_safe_path-lem : (ss : List String) → Holds (λ _. All IsSafeKey ss) (assert_safe_path ss)
unfolding assert_safe_path
assert_safe_path-lem ss =
    if_elim (Holds (λ _. All IsSafeKey ss)) (any is_dangerous ss) (λ _. tt) (not_any ss)

append_at-IsSafe :
    (p : StateChanged) (c : Container) (s : String) (ss : List String)
    → IsSafe c
    → All IsSafeKey (s ∷ ss)
    → Holds IsSafe (append_at p c s ss)
unfolding append_at
append_at-IsSafe p c s ss h ks =
    bind-Holds IsSafeValue IsSafe (require_value p) _ (require_value-safe p) (λ v w.
      bind-Holds IsSafe IsSafe (container_at_path (to_json c) (s ∷ ss)) _
        (container_at_path-IsSafe (to_json c) (s ∷ ss) (to_json-safe c h))
        (λ d g.
          bind-Holds IsSafe IsSafe (append_target d (clone v)) _
            (append_target-IsSafe d (clone v) g (clone-safe v w))
            (λ e k. write_back-IsSafe c (s ∷ ss) e h ks k)))

change_at-IsSafe :
    (p : StateChanged) (c parent : Container) (s : String) (ss : List String)
    → IsSafe c
    → IsSafe parent
    → All IsSafeKey (s ∷ ss)
    → Holds IsSafe (change_at p c parent s ss)
unfolding change_at
change_at-IsSafe p c parent s ss h g ks =
    bind-Holds IsSafe IsSafe (change_parent p parent (final s ss)) _
      (change_parent-IsSafe p parent (final s ss) g (final-All IsSafeKey s ss ks))
      (λ d k. write_back-IsSafe c (initial s ss) d h (initial-All IsSafeKey s ss ks) k)

apply_at-IsSafe :
    (c : Container) (p : StateChanged) (ss : List String)
    → IsSafe c
    → Holds IsSafe (apply_at c p ss)
unfolding apply_at
apply_at-IsSafe c p [] h = tt
apply_at-IsSafe c p (s ∷ ss) h =
    bind-Holds (λ _. All IsSafeKey (s ∷ ss)) IsSafe (assert_safe_path (s ∷ ss)) _
      (assert_safe_path-lem (s ∷ ss))
      (λ _ ks.
        bind-Holds IsSafe IsSafe (descend c (initial s ss)) _ (descend-IsSafe c (initial s ss) h)
          (λ parent g.
            bool_elim (Holds IsSafe) (p.operation == "append") (λ _. append_at-IsSafe p c s ss h ks)
              (λ _. change_at-IsSafe p c parent s ss h g ks)))

pub apply_state_changed-IsSafe :
    (c : Container) (p : StateChanged) → IsSafe c → Holds IsSafe (apply_state_changed c p)
unfolding apply_state_changed
apply_state_changed-IsSafe c p h =
    bind-Holds (λ _. Unit {0}) IsSafe (pointer_segments p.path) _
      (anything (pointer_segments p.path)) (λ ss _. apply_at-IsSafe c p ss h)
