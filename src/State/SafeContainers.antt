-- ===== src/State/SafeContainers.antt =====
-- What is done to the containers of a state keeps them free of dangerous keys
-- (packages/recorder/src/checkpoints.ts).
use agent_loop_snapshot.Prelude.{
  String, ◌≡◌, true, false, not, Option, none, some, List, [], ◌∷◌, ◌==◌, leb, All, Bool-cases,
  Option-cases, inl, inr, is_some, if_elim, option_elim,
}
use agent_loop_snapshot.Schema.Json.{Json, arr, obj, null, bool, num, str, get}
use agent_loop_snapshot.State.Pointer.{is_array_index, index_of, is_dangerous}
use agent_loop_snapshot.State.Results.{Holds}
use agent_loop_snapshot.State.SafeValues.{
  get-safe, item_at-safe, push-safe, put_item-safe, define-safe, remove_item-safe, remove-safe,
}
use agent_loop_snapshot.State.Container.{
  Container, array, object, to_json, as_container, is_safe, safe_items, safe_fields, count,
  get_container_value, set_container_value, delete_container_value, child, container_at_path,
  descend, put, write_back,
}

abbrev pub IsSafe : Container → Type 0
IsSafe (array vs) = safe_items vs ≡ true
IsSafe (object fs) = safe_fields fs ≡ true

abbrev pub IsSafeValue : Json → Type 0
IsSafeValue v = is_safe v ≡ true

abbrev pub IsSafeKey : String → Type 0
IsSafeKey s = is_dangerous s ≡ false

-- A value of a container, where it has one.
abbrev pub Found : Option Json → Type 0
Found none = Unit
Found (some v) = IsSafeValue v

pub to_json-safe : (c : Container) → IsSafe c → IsSafeValue (to_json c)
unfolding is_safe
to_json-safe (array vs) h = h
to_json-safe (object fs) h = h

pub as_container-IsSafe :
    (v : Json) (c : Container) → IsSafeValue v → as_container v ≡ some c → IsSafe c
unfolding is_safe
as_container-IsSafe (arr vs) (array ws) h e = cc (h, e)
as_container-IsSafe (arr vs) (object ws) h e = cc
as_container-IsSafe (obj fs) (object gs) h e = cc (h, e)
as_container-IsSafe (obj fs) (array gs) h e = cc
as_container-IsSafe null c h e = cc
as_container-IsSafe (bool _) c h e = cc
as_container-IsSafe (num _) c h e = cc
as_container-IsSafe (str _) c h e = cc

pub get_container_value-safe :
    (c : Container) (s : String) (v : Json)
    → IsSafe c
    → get_container_value c s ≡ some v
    → IsSafeValue v
unfolding get_container_value
get_container_value-safe (array vs) s v h g = elim (Bool-cases (is_array_index s)) [
  | inl e ↦ item_at-safe (index_of s) vs v h (rw (get_container_value, e) at g)
  | inr e ↦ let no : none ≡ some v = rw (get_container_value, e) at g in cc
]
get_container_value-safe (object fs) s v h g = get-safe s fs v h g

pub set_container_value-IsSafe :
    (c : Container) (s : String) (v : Json)
    → IsSafe c
    → IsSafeKey s
    → IsSafeValue v
    → Holds IsSafe (set_container_value c s v)
unfolding set_container_value
set_container_value-IsSafe (array vs) s v h k w =
    if_elim (Holds IsSafe) (s == "-") (λ _. push-safe v w vs h)
      (λ _.
        if_elim (Holds IsSafe) (not (is_array_index s)) (λ _. tt)
          (λ _.
            if_elim (Holds IsSafe) (not (leb (index_of s) (count vs))) (λ _. tt)
              (λ _. put_item-safe v w (index_of s) vs h)))
set_container_value-IsSafe (object fs) s v h k w = define-safe v w s fs k h

pub delete_container_value-IsSafe :
    (c : Container) (s : String) → IsSafe c → Holds IsSafe (delete_container_value c s)
unfolding delete_container_value
delete_container_value-IsSafe (array vs) s h =
    if_elim (Holds IsSafe) (not (is_array_index s)) (λ _. tt)
      (λ _.
        if_elim (Holds IsSafe) (leb (count vs) (index_of s)) (λ _. tt)
          (λ _. remove_item-safe (index_of s) vs h))
delete_container_value-IsSafe (object fs) s h =
    if_elim (Holds IsSafe) (not (is_some (get s fs))) (λ _. tt) (λ _. remove-safe s fs h)

pub put-IsSafe :
    (c : Container) (s : String) (v : Json)
    → IsSafe c
    → IsSafeKey s
    → IsSafeValue v
    → IsSafe (put c s v)
put-IsSafe (array vs) s v h k w = put_item-safe v w (index_of s) vs h
put-IsSafe (object fs) s v h k w = define-safe v w s fs k h

pub child-IsSafe : (c d : Container) (s : String) → IsSafe c → child c s ≡ some d → IsSafe d
unfolding child
child-IsSafe c d s h e = elim (Option-cases (get_container_value c s)) [
  | inl k ↦ let no : none ≡ some d = rw (child, k) at e in cc
  | inr (v, k) ↦ as_container-IsSafe v d (get_container_value-safe c s v h k) (rw (child, k) at e)
]

pub descend-IsSafe : (c : Container) (ss : List String) → IsSafe c → Holds IsSafe (descend c ss)
unfolding descend
descend-IsSafe c [] h = h
descend-IsSafe c (s ∷ ss) h =
    option_elim (Holds IsSafe) (child c s) (λ _. tt)
      (λ d e. descend-IsSafe d ss (child-IsSafe c d s h e))

pub container_at_path-IsSafe :
    (v : Json) (ss : List String) → IsSafeValue v → Holds IsSafe (container_at_path v ss)
unfolding container_at_path
container_at_path-IsSafe v [] h =
    option_elim (Holds IsSafe) (as_container v) (λ _. tt) (λ c e. as_container-IsSafe v c h e)
container_at_path-IsSafe v (s ∷ ss) h =
    option_elim (Holds IsSafe) (as_container v) (λ _. tt)
      (λ c e.
        option_elim (Holds IsSafe) (get_container_value c s) (λ _. tt)
          (λ w k.
            container_at_path-IsSafe w ss
              (get_container_value-safe c s w (as_container-IsSafe v c h e) k)))

pub write_back-IsSafe :
    (c : Container) (ss : List String) (d : Container)
    → IsSafe c
    → All IsSafeKey ss
    → IsSafe d
    → IsSafe (write_back c ss d)
unfolding write_back
write_back-IsSafe c [] d h ks g = g
write_back-IsSafe c (s ∷ ss) d h ks g =
    option_elim IsSafe (child c s) (λ _. h)
      (λ e k. put-IsSafe c s _ h ks.0 (
        to_json-safe (write_back e ss d)
          (write_back-IsSafe e ss d (child-IsSafe c e s h k) ks.1 g)))
