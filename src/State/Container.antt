-- ===== src/State/Container.antt =====
-- The objects and arrays of a state, and what changes them (packages/recorder/src/checkpoints.ts).
use agent_loop_snapshot.Prelude.{
  ℕ, zero, suc, String, Bool, true, ◌&&◌, not, Option, none, some, List, [], ◌∷◌, ◌==◌, leb, ltb,
  if◌then◌else◌, is_some,
}
use agent_loop_snapshot.Schema.Json.{
  Number, finite, infinite, Json, null, bool, num, str, arr, obj, Items, nil, cons, Fields, end,
  field, get,
}
use agent_loop_snapshot.State.Pointer.{
  Result, ok, err, state_event_invalid, is_array_index, index_of, is_dangerous,
}

-- `MutableJsonContainer`
pub data Container : Type 0 where
  array : Items → Container
  object : Fields → Container

abbrev pub to_json : Container → Json
to_json (array vs) = arr vs
to_json (object fs) = obj fs

-- `isRecord(value) || Array.isArray(value)`, with the container.
abbrev pub as_container : Json → Option Container
as_container (arr vs) = some (array vs)
as_container (obj fs) = some (object fs)
as_container _ = none

abbrev number_clone : Number → Json
number_clone (finite negative m k) = num (finite (negative && ltb 0 m) m k)
number_clone (infinite _) = null

-- `cloneJson`: the text of a number that is not finite is `null`, and that of -0 is `0`.
unfoldable mutual
  pub clone : Json → Json
  clone null = null
  clone (bool b) = bool b
  clone (num n) = number_clone n
  clone (str s) = str s
  clone (arr vs) = arr (clone_items vs)
  clone (obj fs) = obj (clone_fields fs)

  pub clone_items : Items → Items
  clone_items nil = nil
  clone_items (cons v vs) = cons (clone v) (clone_items vs)

  pub clone_fields : Fields → Fields
  clone_fields end = end
  clone_fields (field k v fs) = field k (clone v) (clone_fields fs)

-- `assertSafeStateValue` does not throw.
unfoldable mutual
  pub is_safe : Json → Bool
  is_safe null = true
  is_safe (bool _) = true
  is_safe (num _) = true
  is_safe (str _) = true
  is_safe (arr vs) = safe_items vs
  is_safe (obj fs) = safe_fields fs

  pub safe_items : Items → Bool
  safe_items nil = true
  safe_items (cons v vs) = is_safe v && safe_items vs

  pub safe_fields : Fields → Bool
  safe_fields end = true
  safe_fields (field k v fs) = not (is_dangerous k) && (is_safe v && safe_fields fs)

abbrev pub item_at : ℕ → Items → Option Json
item_at i nil = none
item_at zero (cons v vs) = some v
item_at (suc i) (cons v vs) = item_at i vs

abbrev pub count : Items → ℕ
count nil = 0
count (cons _ vs) = suc (count vs)

abbrev pub push_item : Items → Json → Items
push_item nil w = cons w nil
push_item (cons v vs) w = cons v (push_item vs w)

-- Writes the item at an index up to the length.
abbrev pub put_item : ℕ → Json → Items → Items
put_item i w nil = cons w nil
put_item zero w (cons v vs) = cons w vs
put_item (suc i) w (cons v vs) = cons v (put_item i w vs)

-- `splice(index, 1)`
abbrev pub remove_item : ℕ → Items → Items
remove_item i nil = nil
remove_item zero (cons v vs) = vs
remove_item (suc i) (cons v vs) = cons v (remove_item i vs)

-- `Object.defineProperty` with a value; a new key comes last.
abbrev pub define : String → Json → Fields → Fields
define k w end = field k w end
define k w (field j v fs) = if j == k then field j w fs else field j v (define k w fs)

-- `delete`
abbrev pub remove : String → Fields → Fields
remove k end = end
remove k (field j v fs) = if j == k then fs else field j v (remove k fs)

-- `{ ...existing, ...value }`
abbrev pub spread : Fields → Fields → Fields
spread existing end = existing
spread existing (field k v fs) = spread (define k v existing) fs

-- `getContainerValue`; an array has no gaps, so that it owns each index below its length.
unfoldable pub get_container_value : Container → String → Option Json
unfolding is_array_index
get_container_value (array vs) segment =
    if is_array_index segment then item_at (index_of segment) vs else none
get_container_value (object fs) segment = get segment fs

-- `setContainerValue`
unfoldable pub set_container_value : Container → String → Json → Result Container
unfolding is_array_index
set_container_value (array vs) segment v =
    if segment == "-"
    then ok (array (push_item vs v))
    else if not (is_array_index segment)
    then err state_event_invalid
    else if not (leb (index_of segment) (count vs))
    then err state_event_invalid
    else ok (array (put_item (index_of segment) v vs))
set_container_value (object fs) segment v = ok (object (define segment v fs))

-- `deleteContainerValue`
unfoldable pub delete_container_value : Container → String → Result Container
unfolding is_array_index
delete_container_value (array vs) segment =
    if not (is_array_index segment)
    then err state_event_invalid
    else if leb (count vs) (index_of segment)
    then err state_event_invalid
    else ok (array (remove_item (index_of segment) vs))
delete_container_value (object fs) segment =
    if not (is_some (get segment fs))
    then err state_event_invalid
    else ok (object (remove segment fs))

unfoldable pub child : Container → String → Option Container
unfolding get_container_value
child c segment = elim (get_container_value c segment) [ none ↦ none | some v ↦ as_container v ]

-- `containerAtPath`
unfoldable pub container_at_path : Json → List String → Result Container
unfolding get_container_value
container_at_path v [] = elim (as_container v) [ none ↦ err state_event_invalid | some c ↦ ok c ]
container_at_path v (segment ∷ segments) = elim (as_container v) [
  | none ↦ err state_event_invalid
  | some c ↦ elim (get_container_value c segment) [
    | none ↦ err state_event_invalid
    | some w ↦ container_at_path w segments
  ]
]

-- The loop of `parentAtPath`.
unfoldable pub descend : Container → List String → Result Container
unfolding child
descend c [] = ok c
descend c (segment ∷ segments) = elim (child c segment) [
  | none ↦ err state_event_invalid
  | some d ↦ descend d segments
]

-- `slice(0, -1)` of a list with a head and a tail.
abbrev pub initial : String → List String → List String
initial s [] = []
initial s (t ∷ ss) = s ∷ initial t ss

-- `at(-1)`
abbrev pub final : String → List String → String
final s [] = s
final s (t ∷ ss) = final t ss

-- `parentAtPath`
unfoldable pub parent_at_path : Container → List String → Result Container
unfolding descend
parent_at_path c [] = err state_event_invalid
parent_at_path c (s ∷ ss) = descend c (initial s ss)

abbrev pub put : Container → String → Json → Container
put (array vs) segment w = array (put_item (index_of segment) w vs)
put (object fs) segment w = object (define segment w fs)

-- The state after the container that a path leads to was mutated: what holds a reference to it
-- sees its new contents, and no container stands in the state twice.
unfoldable pub write_back : Container → List String → Container → Container
unfolding child
write_back c [] d = d
write_back c (segment ∷ segments) d = elim (child c segment) [
  | none ↦ c
  | some e ↦ put c segment (to_json (write_back e segments d))
]
