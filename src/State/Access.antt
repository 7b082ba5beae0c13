-- ===== src/State/Access.antt =====
-- What a state change sets can be read back (packages/recorder/src/checkpoints.ts).
use agent_loop_snapshot.Prelude.{
  ℕ, zero, suc, ◌≤◌, String, ◌≡◌, ◌≢◌, refl, sym, inl, inr, Option, none, some, List, [], ◌∷◌, ◌==◌,
  leb, leb→le, arith, eq_iff, eq_refl, Bool-cases, Option-cases,
}
use agent_loop_snapshot.Schema.Json.{Json, Items, nil, cons, Fields, end, field, get}
use agent_loop_snapshot.State.Pointer.{
  ok, err, is_array_index, index_of, pointer_segments, assert_safe_path, state_event_invalid,
}
use agent_loop_snapshot.State.Results.{bind_ok, ok_injective}
use agent_loop_snapshot.State.Container.{
  Container, array, object, to_json, as_container, clone, item_at, count, put_item, define,
  get_container_value, set_container_value, child, descend, initial, final, put, write_back,
}
use agent_loop_snapshot.State.Change.{
  StateChanged, require_value, change_parent, change_at, apply_at, apply_state_changed,
}

item_at-put_item :
    (i : ℕ) (w : Json) (vs : Items) → i ≤ count vs → item_at i (put_item i w vs) ≡ some w
item_at-put_item zero w nil h = refl
item_at-put_item (suc i) w nil h = absurd (omega (arith, h))
item_at-put_item zero w (cons v vs) h = refl
item_at-put_item (suc i) w (cons v vs) h = item_at-put_item i w vs (omega (arith, h))

item_at-count : (i : ℕ) (v : Json) (vs : Items) → item_at i vs ≡ some v → i ≤ count vs
item_at-count i v nil h = cc
item_at-count zero v (cons w vs) h = omega arith
item_at-count (suc i) v (cons w vs) h = omega (arith, item_at-count i v vs h)

get-define : (k : String) (w : Json) (fs : Fields) → get k (define k w fs) ≡ some w
get-define k w end = rw (eq_refl k) refl
get-define k w (field j v fs) = ground (arith, get-define k w fs)

get_container_value-put :
    (c : Container) (s : String) (v w : Json)
    → get_container_value c s ≡ some v
    → get_container_value (put c s w) s ≡ some w
unfolding get_container_value
get_container_value-put (array vs) s v w h = elim (Bool-cases (is_array_index s)) [
  | inl e ↦
      let at : item_at (index_of s) vs ≡ some v = rw (get_container_value, e) at h in
      rw (get_container_value, e)
        (item_at-put_item (index_of s) w vs (item_at-count (index_of s) v vs at))
  | inr e ↦ let no : none ≡ some v = rw (get_container_value, e) at h in cc
]
get_container_value-put (object fs) s v w h = get-define s w fs

get_container_value-set_container_value :
    (c d : Container) (s : String) (w : Json)
    → s ≢ "-"
    → set_container_value c s w ≡ ok d
    → get_container_value d s ≡ some w
unfolding get_container_value set_container_value
get_container_value-set_container_value (object fs) d s w n h =
    rw (sym (ok_injective _ d h)) (get-define s w fs)
get_container_value-set_container_value (array vs) d s w n h = elim (Bool-cases (s == "-")) [
  | inl e ↦ absurd (n ((eq_iff s "-").0 e))
  | inr e ↦ elim (Bool-cases (is_array_index s)) [
    | inr a ↦ let no : err state_event_invalid ≡ ok d = rw (set_container_value, e, a) at h in cc
    | inl a ↦ elim (Bool-cases (leb (index_of s) (count vs))) [
      | inr b ↦
          let no : err state_event_invalid ≡ ok d = rw (set_container_value, e, a, b) at h in cc
      | inl b ↦
          let made : ok (array (put_item (index_of s) w vs)) ≡ ok d =
            rw (set_container_value, e, a, b) at h in
          rw (sym (ok_injective _ d made), get_container_value, a)
            (item_at-put_item (index_of s) w vs (leb→le (index_of s) (count vs) b))
    ]
  ]
]

as_container-to_json : (c : Container) → as_container (to_json c) ≡ some c
as_container-to_json (array vs) = refl
as_container-to_json (object fs) = refl

child-put :
    (c d e : Container) (s : String) → child c s ≡ some d → child (put c s (to_json e)) s ≡ some e
unfolding child
child-put c d e s h = elim (Option-cases (get_container_value c s)) [
  | inl k ↦ let no : none ≡ some d = rw (child, k) at h in cc
  | inr (v, k) ↦ rw (child, get_container_value-put c s v (to_json e) k) (as_container-to_json e)
]

descend-write_back :
    (c d e : Container) (ss : List String)
    → descend c ss ≡ ok d
    → descend (write_back c ss e) ss ≡ ok e
unfolding descend write_back
descend-write_back c d e [] h = refl
descend-write_back c d e (s ∷ ss) h = elim (Option-cases (child c s)) [
  | inl k ↦ let no : err state_event_invalid ≡ ok d = rw (descend, k) at h in cc
  | inr (b, k) ↦
      rw (write_back, k, descend, child-put c b (write_back b ss e) s k)
        (descend-write_back b d e ss (rw (descend, k) at h))
]

-- The value at a path, if there is one.
abbrev pub value_at : Container → String → List String → Option Json
value_at c s ss = elim (descend c (initial s ss)) [
  | ok parent ↦ get_container_value parent (final s ss)
  | err _ ↦ none
]

value_at-write_back :
    (c parent changed d : Container) (s : String) (ss : List String) (w : Json)
    → descend c (initial s ss) ≡ ok parent
    → get_container_value changed (final s ss) ≡ some w
    → ok (write_back c (initial s ss) changed) ≡ ok d
    → value_at d s ss ≡ some w
value_at-write_back c parent changed d s ss w at there made =
    rw (sym (ok_injective _ d made))
      (rw (value_at, descend-write_back c parent changed (initial s ss) at) there)

set_at :
    (p : StateChanged) (c d parent : Container) (s : String) (ss : List String) (v : Json)
    → p.operation ≡ "set"
    → require_value p ≡ ok v
    → final s ss ≢ "-"
    → descend c (initial s ss) ≡ ok parent
    → change_at p c parent s ss ≡ ok d
    → value_at d s ss ≡ some (clone v)
unfolding change_at change_parent
set_at p c d parent s ss v is_set has n at h =
    let (changed, set, made) = bind_ok (change_parent p parent (final s ss)) _ d h in
    value_at-write_back c parent changed d s ss (clone v) at
      (get_container_value-set_container_value parent changed (final s ss) (clone v) n
        (rw (change_parent, is_set, has) at set))
      made

-- Where a state change with the operation `set` succeeds, and its path does not end in `-`, which
-- appends to an array, the new state has a copy of the value at that path.
pub value_at-apply_state_changed :
    (p : StateChanged) (c d : Container) (s : String) (ss : List String) (v : Json)
    → p.operation ≡ "set"
    → require_value p ≡ ok v
    → pointer_segments p.path ≡ ok (s ∷ ss)
    → final s ss ≢ "-"
    → apply_state_changed c p ≡ ok d
    → value_at d s ss ≡ some (clone v)
unfolding apply_state_changed
value_at-apply_state_changed p c d s ss v is_set has path n h =
    let applied : apply_at c p (s ∷ ss) ≡ ok d = rw (apply_state_changed, path) at h in
    let (_, _, safe) = bind_ok (assert_safe_path (s ∷ ss)) _ d applied in
    let (parent, at, changed) = bind_ok (descend c (initial s ss)) _ d safe in
    set_at p c d parent s ss v is_set has n at (rw is_set at changed)
