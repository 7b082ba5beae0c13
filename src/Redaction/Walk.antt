-- ===== src/Redaction/Walk.antt =====
-- packages/recorder/src/redaction.ts: a rule at a path, and what it does to a value.
use Prim.Native.String
use agent_loop_snapshot.Prelude.{
  ℕ, suc, String, Bool, false, ◌||◌, Option, none, some, List, [], ◌∷◌, ◌++◌, ◌==◌, if◌then◌else◌,
  includes,
}
use agent_loop_snapshot.Schema.Json.{
  Json, null, arr, obj, Items, nil, cons, Fields, end, field, get,
}
use agent_loop_snapshot.Schema.Envelope.{RedactionEntry, RedactionStrategy}
use agent_loop_snapshot.State.Container.{item_at, put_item, remove_item, define, remove}
use agent_loop_snapshot.State.Pointer.{is_array_index, index_of}
use agent_loop_snapshot.State.PointerText.{escape_onto}
use agent_loop_snapshot.Redaction.Rules.{
  Step, give, fail, ◌>>=◌, redactor_failed, Runtime, Applied, FieldRule, CustomRule, Context,
  Source, keep, Answer, threw, nothing, decided, strategy_of, decision_for_strategy, apply_decision,
}

-- `RedactionExecutionOptions`
pub record ExecutionOptions : Type 0 where
  pub path_prefix : String
  pub source : Source
  pub event_type : Option String

-- `arrayIndex`
unfoldable pub array_index : String → Option ℕ
unfolding is_array_index
array_index segment = if is_array_index segment then some (index_of segment) else none

-- The keys that an object has from `Object.prototype`.
abbrev pub is_inherited : String → Bool
is_inherited = includes (
    "constructor" ∷ "toString" ∷ "toLocaleString" ∷ "valueOf" ∷ "hasOwnProperty" ∷ "isPrototypeOf"
    ∷ "propertyIsEnumerable" ∷ "__proto__" ∷ "__defineGetter__" ∷ "__defineSetter__"
    ∷ "__lookupGetter__" ∷ "__lookupSetter__" ∷ [])

-- `value[key]` where `key in value`. What is inherited is no text, no array and no record of data:
-- `null` stands for it. A rule that goes on below `__proto__` is not modelled.
abbrev pub member : String → Fields → Option Json
member k fs = elim (get k fs) [
  | some v ↦ some v
  | none ↦ if is_inherited k then some null else none
]

-- Assignment to a property. One to `__proto__` makes no property.
abbrev pub assign_member : String → Json → Fields → Fields
assign_member k v fs = elim (get k fs) [
  | some _ ↦ define k v fs
  | none ↦ if k == "__proto__" then fs else define k v fs
]

-- The contents of a container after a rule was at work inside it.
pub record Walked (C : Type 0) : Type 0 where
  pub contents : C
  pub changed : Bool
  pub entries : List RedactionEntry

abbrev pub untouched : {C : Type 0} → C → Walked C
untouched c = record { contents = c; changed = false; entries = [] }

abbrev pub whole : {C : Type 0} → (C → Json) → Walked C → Applied
whole make w = record {
  value = make w.contents;
  removed = false;
  changed = w.changed;
  entries = w.entries;
}

-- The value that stays in a member's place.
abbrev pub settled : Json → Applied → Json
settled v child = if child.changed then child.value else v

-- A member before the others.
abbrev pub item_before : Json → Applied → Walked Items → List RedactionEntry → Walked Items
item_before v child rest entries = record {
  contents = if child.removed then rest.contents else cons (settled v child) rest.contents;
  changed = child.removed || child.changed || rest.changed;
  entries = entries;
}

abbrev pub field_before : String → Json → Applied → Walked Fields → Walked Fields
field_before k v child rest = record {
  contents = if child.removed then rest.contents else field k (settled v child) rest.contents;
  changed = child.removed || child.changed || rest.changed;
  entries = child.entries ++ rest.entries;
}

abbrev pub at_index : Items → ℕ → Json → Applied → Walked Items
at_index vs i v child = record {
  contents =
      if child.removed
      then remove_item i vs
      else if child.changed
      then put_item i child.value vs
      else vs;
  changed = child.removed || child.changed;
  entries = child.entries;
}

abbrev pub at_key : Fields → String → Applied → Walked Fields
at_key fs k child = record {
  contents =
      if child.removed
      then remove k fs
      else if child.changed
      then assign_member k child.value fs
      else fs;
  changed = child.removed || child.changed;
  entries = child.entries;
}

abbrev pub key_path : String → String → String
key_path path k = String.◌++◌ path (String.◌∷◌ "/" (escape_onto k ""))

module _ (r : Runtime) where
  abbrev pub index_path : String → ℕ → String
  index_path path i = String.◌++◌ path (String.◌∷◌ "/" (r.decimal i))

  -- The loops of `applyPathRule`; `visit` is its call on a member. With `*` an array is walked from
  -- its end, so that `splice` moves only what was looked at.
  module _ (visit : Json → String → Step Applied) (path : String) where
    abbrev pub each_item : ℕ → Items → Step (Walked Items)
    each_item i nil = give (untouched nil)
    each_item i (cons v vs) = do
      rest ← each_item (suc i) vs
      child ← visit v (index_path path i)
      give (item_before v child rest (rest.entries ++ child.entries))

    abbrev pub each_field : Fields → Step (Walked Fields)
    each_field end = give (untouched end)
    each_field (field k v fs) = do
      child ← visit v (key_path path k)
      rest ← each_field fs
      give (field_before k v child rest)

    abbrev pub item_if_there : Items → ℕ → Option Json → Step (Walked Items)
    item_if_there vs i none = give (untouched vs)
    item_if_there vs i (some v) = do
      child ← visit v (index_path path i)
      give (at_index vs i v child)

    abbrev pub one_item : Items → Option ℕ → Step (Walked Items)
    one_item vs none = give (untouched vs)
    one_item vs (some i) = item_if_there vs i (item_at i vs)

    abbrev pub one_field : Fields → String → Option Json → Step (Walked Fields)
    one_field fs k none = give (untouched fs)
    one_field fs k (some v) = do child ← visit v (key_path path k); give (at_key fs k child)

    unfoldable pub visit_items : String → Items → Step (Walked Items)
    unfolding array_index
    visit_items segment vs =
        if segment == "*" then each_item 0 vs else one_item vs (array_index segment)

    unfoldable pub visit_fields : String → Fields → Step (Walked Fields)
    visit_fields segment fs =
        if segment == "*" then each_field fs else one_field fs segment (member segment fs)

  -- `applyPathRule`; `at` is what the rule does where its path ends.
  module _ (at : Json → String → Step Applied) where
    unfoldable pub apply_path : List String → Json → String → Step Applied
    unfolding visit_items visit_fields
    apply_path [] v path = at v path
    apply_path (s ∷ ss) (arr vs) path = do
      w ← visit_items (λ v p. apply_path ss v p) path s vs
      give (whole arr w)
    apply_path (s ∷ ss) (obj fs) path = do
      w ← visit_fields (λ v p. apply_path ss v p) path s fs
      give (whole obj w)
    apply_path (s ∷ ss) v path = give (whole (λ w. w) (untouched v))

  -- The end of the path of a field rule.
  unfoldable pub apply_field_rule : FieldRule → Json → String → Step Applied
  unfolding decision_for_strategy apply_decision
  apply_field_rule rule v path = do
    decision ← decision_for_strategy r v rule.strategy rule.category
    give (apply_decision r v decision rule.category (strategy_of rule.strategy) path)

  abbrev pub context_of : ExecutionOptions → CustomRule → String → Context
  context_of options rule path = record {
    path = path;
    category = rule.category;
    source = options.source;
    event_type = options.event_type;
  }

  abbrev pub answered : CustomRule → Json → String → Answer → Step Applied
  answered rule v path threw = fail redactor_failed
  answered rule v path nothing =
      give (apply_decision r v keep rule.category RedactionStrategy.custom path)
  answered rule v path (decided d) =
      give (apply_decision r v d rule.category RedactionStrategy.custom path)

  -- The end of the path of a custom rule.
  unfoldable pub apply_custom_rule : ExecutionOptions → CustomRule → Json → String → Step Applied
  unfolding apply_decision
  apply_custom_rule options rule v path =
      answered rule v path (rule.redact v (context_of options rule path))
