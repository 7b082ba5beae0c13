-- ===== src/Schema/Json.antt =====
-- JSON values as `JSON.parse` gives them, and the tests that the packages make on an `unknown`
-- (packages/schema/src/observation.ts, packages/replay/src/recorded.ts).
use agent_loop_snapshot.Prelude.{
  ℕ, String, Bool, true, false, ◌&&◌, Option, none, some, List, [], ◌∷◌, ◌==◌, if◌then◌else◌,
}

-- A finite double: a sign, a whole number, and the power of two that divides it. A literal such as
-- `1e999` is read as an infinity.
pub data Number : Type 0 where
  finite : (negative : Bool) (mantissa shift : ℕ) → Number
  infinite : (negative : Bool) → Number

mutual
  pub data Json : Type 0 where
    null : Json
    bool : Bool → Json
    num : Number → Json
    str : String → Json
    arr : Items → Json
    obj : Fields → Json

  pub data Items : Type 0 where
    nil : Items
    cons : Json → Items → Items

  pub data Fields : Type 0 where
    end : Fields
    field : String → Json → Fields → Fields

abbrev pub items : Items → List Json
items nil = []
items (cons v vs) = v ∷ items vs

-- Property access on an object; `none` is `undefined`. The keys of an object are distinct.
abbrev pub get : String → Fields → Option Json
get k end = none
get k (field j v fs) = if j == k then some v else get k fs

abbrev pub is_number_finite : Number → Bool
is_number_finite (finite _ _ _) = true
is_number_finite (infinite _) = false

-- `isJsonValue`
unfoldable mutual
  pub is_json_value : Json → Bool
  is_json_value null = true
  is_json_value (bool _) = true
  is_json_value (num n) = is_number_finite n
  is_json_value (str _) = true
  is_json_value (arr vs) = all_items vs
  is_json_value (obj fs) = all_fields fs

  pub all_items : Items → Bool
  all_items nil = true
  all_items (cons v vs) = is_json_value v && all_items vs

  pub all_fields : Fields → Bool
  all_fields end = true
  all_fields (field k v fs) = is_json_value v && all_fields fs

-- `typeof value === 'string'`, with the string.
abbrev pub as_string : Option Json → Option String
as_string (some (str s)) = some s
as_string _ = none

-- `isRecord(value)`, with the fields.
abbrev pub as_record : Json → Option Fields
as_record (obj fs) = some fs
as_record _ = none
