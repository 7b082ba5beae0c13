-- ===== src/Redaction/Value.antt =====
-- packages/recorder/src/redaction.ts: the JSON form of what a caller supplies.
use agent_loop_snapshot.Prelude.{
  String, Bool, true, false, ◌&&◌, Option, none, some, [], ◌∷◌, ◌==◌, if◌then◌else◌, includes,
}
use agent_loop_snapshot.Schema.Json.{
  Number, infinite, Json, null, bool, num, str, arr, obj, Items, nil, cons, Fields, end, field,
}
use agent_loop_snapshot.State.Container.{define}
use agent_loop_snapshot.Redaction.Input.{Input, Elements, Properties}

abbrev pub own : String → Properties → Option Input
own k Properties.end = none
own k (Properties.field j v fs) = if j == k then some v else own k fs

-- Assignment to a property. One to `__proto__` makes no property of its own.
abbrev pub assign : String → Json → Fields → Fields
assign k v fs = if k == "__proto__" then fs else define k v fs

abbrev number_value : Number → Json
number_value (infinite true) = str "-Infinity"
number_value (infinite false) = str "Infinity"
number_value n = num n

abbrev with_stack : Option String → Fields
with_stack none = end
with_stack (some s) = field "stack" (str s) end

abbrev pub error_fields : (name message : String) → Option String → Fields
error_fields name message stack =
    field "name" (str name) (field "message" (str message) (with_stack stack))

-- `normalizeValue(value).value`, of a value that does not hold itself.
unfoldable mutual
  pub normalize : Input → Json
  normalize Input.undefined = null
  normalize Input.not_a_number = str "NaN"
  normalize Input.other = null
  normalize Input.null = null
  normalize (Input.bool b) = bool b
  normalize (Input.num n) = number_value n
  normalize (Input.str s) = str s
  normalize (Input.date s) = str s
  normalize (Input.failure name message stack fs) =
      obj (assign_all fs (error_fields name message stack))
  normalize (Input.array vs) = arr (normalize_elements vs)
  normalize (Input.object fs) = obj (assign_all fs end)

  pub normalize_elements : Elements → Items
  normalize_elements Elements.nil = nil
  normalize_elements (Elements.cons v vs) = cons (normalize v) (normalize_elements vs)

  -- The loop over the entries: `normalized[key] = child.value`.
  pub assign_all : Properties → Fields → Fields
  assign_all Properties.end made = made
  assign_all (Properties.field k v fs) made = assign_all fs (assign k (normalize v) made)

-- A JSON value as one that is supplied.
unfoldable mutual
  pub input_of : Json → Input
  input_of null = Input.null
  input_of (bool b) = Input.bool b
  input_of (num n) = Input.num n
  input_of (str s) = Input.str s
  input_of (arr vs) = Input.array (elements_of vs)
  input_of (obj fs) = Input.object (properties_of fs)

  pub elements_of : Items → Elements
  elements_of nil = Elements.nil
  elements_of (cons v vs) = Elements.cons (input_of v) (elements_of vs)

  pub properties_of : Fields → Properties
  properties_of end = Properties.end
  properties_of (field k v fs) = Properties.field k (input_of v) (properties_of fs)

abbrev is_text : Option Input → Bool
is_text (some (Input.str _)) = true
is_text _ = false

abbrev is_numeric : Option Input → Bool
is_numeric (some (Input.num _)) = true
is_numeric (some Input.not_a_number) = true
is_numeric _ = false

abbrev is_version : Option Input → Bool
is_version (some (Input.str s)) = includes ("0.1.0" ∷ "0.2.0" ∷ []) s
is_version _ = false

-- `isRecord`, with the own properties that are enumerable.
abbrev pub properties : Input → Option Properties
properties (Input.object fs) = some fs
properties (Input.failure _ _ _ fs) = some fs
properties (Input.date _) = some Properties.end
properties _ = none

abbrev is_reference_record : Properties → Bool
is_reference_record fs =
    is_version (own "schema_version" fs)
    && is_text (own "digest" fs)
    && is_text (own "media_type" fs)
    && is_numeric (own "byte_length" fs)

-- `isArtifactReference`
unfoldable pub is_artifact_reference : Input → Bool
is_artifact_reference v = elim (properties v) [ none ↦ false | some fs ↦ is_reference_record fs ]
