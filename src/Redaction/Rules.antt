-- ===== src/Redaction/Rules.antt =====
-- packages/recorder/src/redaction.ts: the rules, the placeholders and the decisions.
use Prim.Native.Char.{code}
use Prim.Native.String
use agent_loop_snapshot.Prelude.{
  ℕ, zero, suc, String, Bool, true, false, not, ◌&&◌, ◌||◌, Option, none, some, List, [], ◌∷◌, ◌++◌,
  ◌==◌, ◌===◌, leb, if◌then◌else◌, codes, is_digit, length, any, map, get_text,
}
use agent_loop_snapshot.Schema.Json.{Number, Json, null, str}
use agent_loop_snapshot.Schema.Envelope.{RedactionEntry, RedactionStrategy}
use agent_loop_snapshot.State.Container.{clone}
use agent_loop_snapshot.State.Pointer.{unescape, split, slash}
use agent_loop_snapshot.Redaction.Text.{stringify, canonical_json}

-- The codes of `RedactionError`, and `type_error`.
pub data ErrorCode : Type 0 where
  invalid_path redactor_failed unsupported_value : ErrorCode
  protocol_redaction_unrepresentable state_redaction_unrepresentable : ErrorCode
  state_redaction_context_required : ErrorCode
  -- What the language throws where a member that is no array is used as one.
  type_error : ErrorCode

pub data Outcome (A : Type 0) : Type 0 where
  failed : ErrorCode → Outcome A
  done : A → Outcome A

-- `referencePlaceholders`: the placeholder of a canonical text.
abbrev pub Memory : Type 0
Memory = List (String × String)

-- What runs against the memory of a pipeline; an exception leaves it as it is by then.
abbrev pub Step : Type 0 → Type 0
Step A = Memory → Outcome A × Memory

abbrev pub give : {A : Type 0} → A → Step A
give a m = (done a, m)

abbrev pub fail : {A : Type 0} → ErrorCode → Step A
fail e m = (failed e, m)

abbrev pub continue : {A B : Type 0} → (A → Step B) → Outcome A × Memory → Outcome B × Memory
continue next (failed e, m) = (failed e, m)
continue next (done a, m) = next a m

infixl 5 ◌>>=◌ ◌>>◌
abbrev pub ◌>>=◌ : {A B : Type 0} → Step A → (A → Step B) → Step B
◌>>=◌ step next m = continue next (step m)

abbrev pub ◌>>◌ : {B : Type 0} → Step (Unit {0}) → Step B → Step B
check >> rest = check >>= λ _. rest

abbrev pub refuse_if : Bool → ErrorCode → Step (Unit {0})
refuse_if true e = fail e
refuse_if false e = give tt

-- `Exclude<RedactionStrategy, 'custom'>`
pub data FieldStrategy : Type 0 where
  mask reference remove : FieldStrategy

abbrev pub strategy_of : FieldStrategy → RedactionStrategy
strategy_of mask = RedactionStrategy.mask
strategy_of reference = RedactionStrategy.reference
strategy_of remove = RedactionStrategy.remove

pub record FieldRule : Type 0 where
  pub path : String
  pub category : String
  pub strategy : FieldStrategy

-- What a regular expression cuts a text into.
pub data Piece : Type 0 where
  kept matched : String → Piece

-- `pattern` cuts a text as `replace` does, which is first match only without the flag `g`.
pub record RegexRule : Type 0 where
  pub pattern : String → List Piece
  pub category : String
  pub strategy : FieldStrategy

pub data Source : Type 0 where
  event artifact checkpoint : Source

pub record Context : Type 0 where
  pub path : String
  pub category : String
  pub source : Source
  pub event_type : Option String

pub data Decision : Type 0 where
  keep remove_value : Decision
  replace : Json → Decision

-- What a custom redactor does: it throws, returns nothing, or decides.
pub data Answer : Type 0 where
  threw nothing : Answer
  decided : Decision → Answer

pub record CustomRule : Type 0 where
  pub category : String
  pub path : Option String
  pub redact : Json → Context → Answer

-- `RedactionPipeline`, without its memory.
pub record Pipeline : Type 0 where
  pub field_rules : List FieldRule
  pub regex_rules : List RegexRule
  pub custom_redactors : List CustomRule

-- What the language gives: `JSON.stringify` of a number and of a text, the order of `sort` on
-- texts, the decimal text of an index, and the result of the n-th call of `randomUUID`.
pub record Runtime : Type 0 where
  pub number_text : Number → String
  pub quoted : String → String
  pub before : String → String → Bool
  pub decimal : ℕ → String
  pub random_uuid : ℕ → String

-- `pathSegments`
unfoldable pub path_segments : String → Step (List String)
path_segments String.[] = give []
path_segments (String.◌∷◌ c s) =
    if code c === slash then give (map unescape (split s)) else fail invalid_path

abbrev pub is_name_code : ℕ → Bool
is_name_code c =
    is_digit c
    || (leb 65 c && leb c 90)
    || (leb 97 c && leb c 122)
    || c === 95
    || c === 46
    || c === 45

-- `replace(/[^A-Za-z0-9_.-]/g, '_')`; a character above 0xFFFF is two units.
abbrev pub name_text : String → String
name_text String.[] = String.[]
name_text (String.◌∷◌ c s) =
    let rest = name_text s in
    if is_name_code (code c)
    then String.◌∷◌ c rest
    else if leb 65536 (code c)
    then String.◌∷◌ "_" (String.◌∷◌ "_" rest)
    else String.◌∷◌ "_" rest

-- `safeCategory`
unfoldable pub safe_category : String → String
safe_category category = let t = name_text category in if t == "" then "secret" else t

-- `placeholder`, of the strategy `reference` with its identifier.
unfoldable pub placeholder : String → Option String → String
unfolding safe_category
placeholder category none = String.◌++◌ "[REDACTED:" (String.◌++◌ (safe_category category) "]")
placeholder category (some id) =
    String.◌++◌ "[REDACTED:"
      (String.◌++◌ (safe_category category) (String.◌++◌ ":ref_" (String.◌++◌ id "]")))

abbrev pub after_prefix : List ℕ → List ℕ → Option (List ℕ)
after_prefix [] cs = some cs
after_prefix (p ∷ ps) [] = none
after_prefix (p ∷ ps) (c ∷ cs) = if p === c then after_prefix ps cs else none

abbrev pub drop_name : List ℕ → List ℕ
drop_name [] = []
drop_name (c ∷ cs) = if is_name_code c then drop_name cs else c ∷ cs

abbrev pub is_id_code : ℕ → Bool
is_id_code c = is_digit c || (leb 97 c && leb c 102) || c === 45

-- `[0-9a-f-]{n}\]$`
abbrev pub is_id_end : ℕ → List ℕ → Bool
is_id_end zero (c ∷ []) = c === 93
is_id_end zero [] = false
is_id_end zero (c ∷ d ∷ cs) = false
is_id_end (suc n) [] = false
is_id_end (suc n) (c ∷ cs) = is_id_code c && is_id_end n cs

abbrev pub is_placeholder_end : List ℕ → Bool
is_placeholder_end cs =
    is_id_end 0 cs
    || elim (after_prefix (codes ":ref_") cs) [ none ↦ false | some ds ↦ is_id_end 36 ds ]

abbrev pub is_name_end : List ℕ → Bool
is_name_end [] = false
is_name_end (c ∷ cs) = is_name_code c && is_placeholder_end (drop_name cs)

-- The pattern of `isRedactionPlaceholder`: the name ends at the first character outside its class.
unfoldable pub is_placeholder_text : List ℕ → Bool
is_placeholder_text cs = elim (after_prefix (codes "[REDACTED:") cs) [
  | none ↦ false
  | some ds ↦ is_name_end ds
]

-- `isRedactionPlaceholder`
unfoldable pub is_redaction_placeholder : Json → Bool
unfolding is_placeholder_text
is_redaction_placeholder (str s) = is_placeholder_text (codes s)
is_redaction_placeholder _ = false

abbrev pub same_strategy : RedactionStrategy → RedactionStrategy → Bool
same_strategy RedactionStrategy.mask RedactionStrategy.mask = true
same_strategy RedactionStrategy.reference RedactionStrategy.reference = true
same_strategy RedactionStrategy.remove RedactionStrategy.remove = true
same_strategy RedactionStrategy.custom RedactionStrategy.custom = true
same_strategy _ _ = false

abbrev pub same_entry : RedactionEntry → RedactionEntry → Bool
same_entry e f = e.category == f.category && e.path == f.path && same_strategy e.strategy f.strategy

-- `addEntry`
unfoldable pub add_entry : List RedactionEntry → RedactionEntry → List RedactionEntry
add_entry entries e = if any (λ f. same_entry f e) entries then entries else entries ++ e ∷ []

abbrev pub add_entries : List RedactionEntry → List RedactionEntry → List RedactionEntry
add_entries entries [] = entries
add_entries entries (e ∷ es) = add_entries (add_entry entries e) es

-- `ApplyResult`
pub record Applied : Type 0 where
  pub value : Json
  pub removed : Bool
  pub changed : Bool
  pub entries : List RedactionEntry

module _ (r : Runtime) where
  abbrev pub text_of : Json → String
  text_of v = stringify r.number_text r.quoted v

  abbrev pub identity_of : Json → String
  identity_of v = canonical_json r.number_text r.quoted r.before v

  abbrev pub new_reference : String → Memory → String
  new_reference category m = placeholder category (some (r.random_uuid (length m)))

  abbrev pub remembered : Option String → Json → String → Memory → Outcome String × Memory
  remembered (some t) v category m = (done t, m)
  remembered none v category m =
      (done (new_reference category m), m ++ (identity_of v, new_reference category m) ∷ [])

  -- `placeholderFor`, of the strategy `reference`. The n-th identifier is drawn for the n-th value.
  unfoldable pub reference_for : Json → String → Step String
  unfolding placeholder
  reference_for v category m = remembered (get_text (identity_of v) m) v category m

  -- `placeholderFor`; the strategy `remove` is none of its own.
  unfoldable pub placeholder_for : Json → String → FieldStrategy → Step String
  unfolding placeholder reference_for
  placeholder_for v category reference = reference_for v category
  placeholder_for v category _ = give (placeholder category none)

  abbrev pub replace_by : String → Step Decision
  replace_by t = give (replace (str t))

  -- `decisionForStrategy`
  unfoldable pub decision_for_strategy : Json → FieldStrategy → String → Step Decision
  unfolding placeholder_for is_redaction_placeholder
  decision_for_strategy v remove category = give remove_value
  decision_for_strategy v strategy category =
      if is_redaction_placeholder v
      then give keep
      else (do t ← placeholder_for v category strategy; replace_by t)

  abbrev pub entry_of : String → RedactionStrategy → String → RedactionEntry
  entry_of category strategy path = record { category = category; path = path; strategy = strategy }

  -- `applyDecision`
  unfoldable pub apply_decision : Json → Decision → String → RedactionStrategy → String → Applied
  unfolding clone
  apply_decision v keep category strategy path = record {
    value = v;
    removed = false;
    changed = false;
    entries = [];
  }
  apply_decision v remove_value category strategy path = record {
    value = null;
    removed = true;
    changed = true;
    entries = entry_of category strategy path ∷ [];
  }
  apply_decision v (replace w) category strategy path = record {
    value = clone w;
    removed = false;
    changed = not (text_of (clone w) == text_of v);
    entries = entry_of category strategy path ∷ [];
  }
