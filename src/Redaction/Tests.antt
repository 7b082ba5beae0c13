-- ===== src/Redaction/Tests.antt =====
-- Redaction at concrete events.
use Prim.Native.String
use agent_loop_snapshot.Prelude.{
  ℕ, String, ◌≡◌, refl, sym, ap, ◌∙◌, Bool, true, none, some, List, [], ◌∷◌, ◌==◌, eq_iff, codes,
  arith,
}
use mathlib.Core.List.{Memᴰ}
use agent_loop_snapshot.Schema.Json.{
  Json, null, bool, num, str, arr, obj, cons, nil, Fields, field, end,
}
use agent_loop_snapshot.Schema.Envelope.{RedactionEntry, RedactionStrategy}
use agent_loop_snapshot.Redaction.Input.{Input, Properties}
use agent_loop_snapshot.Redaction.Text.{
  stringify, stringify_items, stringify_fields, canonical_json,
}
use agent_loop_snapshot.Redaction.Rules.{
  Runtime, Pipeline, FieldRule, mask, done, Source, Applied, Memory, reference_for,
}
use agent_loop_snapshot.Redaction.Walk.{ExecutionOptions, apply_path, apply_field_rule}
use agent_loop_snapshot.Redaction.Content.{redact_json_value}
use agent_loop_snapshot.Redaction.Protocol.{redact_protocol_event, value_at_object_path}
use agent_loop_snapshot.Redaction.Addresses.{StateChange, merge}
use agent_loop_snapshot.Redaction.StateChange.{redact_change, value_at_state_path}
use agent_loop_snapshot.Redaction.Pipeline.{default_field_rules, redact_event}
use agent_loop_snapshot.Redaction.References.{here, next, reference_for-Redacted}
use agent_loop_snapshot.Redaction.Controls.{redact_protocol_event-KeepsControls}
use agent_loop_snapshot.Redaction.StateControls.{SameChange, redact_change-SameChange}
use agent_loop_snapshot.Redaction.Masking.Texts.{IsUuid, codes-append}
use agent_loop_snapshot.Redaction.Masking.Rule.{
  TellsTexts, AbsentOrPlaceholder, apply_path-IsMasked,
}

abbrev plain : Runtime
plain = record {
  number_text = λ _. "0";
  quoted = λ s. String.◌∷◌ "\"" s;
  before = λ _ _. true;
  decimal = λ _. "0";
  random_uuid = λ _. "01234567-89ab-cdef-0123-456789abcdef";
}

abbrev defaults : Pipeline
defaults = record { field_rules = default_field_rules; regex_rules = []; custom_redactors = [] }

abbrev request : Input
request = Input.object (
    Properties.field "tool" (Input.str "mail") (
      Properties.field "token" (Input.str "t-1")
        (Properties.field "password" (Input.str "t-1") Properties.end)))

-- The values of two fields are the same, and so are their placeholders.
one_placeholder :
    (redact_event plain defaults "note" request [] []).1
    ≡ ("\"t-1", "[REDACTED:password:ref_01234567-89ab-cdef-0123-456789abcdef]") ∷ []
unfolding redact_event stringify canonical_json
one_placeholder = refl

plain-IsUuid : (n : ℕ) → IsUuid (plain.random_uuid n)
plain-IsUuid n = record { size = refl; digits = refl }

abbrev first : List ℕ → ℕ
first [] = 0
first (c ∷ _) = c

abbrev tail_of : String → String
tail_of String.[] = String.[]
tail_of (String.◌∷◌ c s) = s

starts_otherwise :
    (t u : String) (n : ℕ) → (String.◌∷◌ "\"" t == u) ≡ true → first (codes u) ≡ n → 34 ≡ n
starts_otherwise t u n h e = ap (λ s. first (codes s)) ((eq_iff _ u).0 h) ∙ e

plain-TellsTexts : TellsTexts plain
unfolding stringify
plain-TellsTexts t null h = absurd (omega (arith, starts_otherwise t "null" 110 h refl))
plain-TellsTexts t (bool true) h = absurd (omega (arith, starts_otherwise t "true" 116 h refl))
plain-TellsTexts t (bool Bool.false) h =
    absurd (omega (arith, starts_otherwise t "false" 102 h refl))
plain-TellsTexts t (num _) h = absurd (omega (arith, starts_otherwise t "0" 48 h refl))
plain-TellsTexts t (str u) h = ap str (sym (ap tail_of ((eq_iff _ _).0 h)))
plain-TellsTexts t (arr vs) h =
    let inside = String.◌++◌ (stringify_items plain.number_text plain.quoted vs) "]" in
    absurd (omega (arith, starts_otherwise t _ 91 h (ap first (codes-append "[" inside))))
plain-TellsTexts t (obj fs) h =
    let inside = String.◌++◌ (stringify_fields plain.number_text plain.quoted fs) "}" in
    absurd (omega (arith, starts_otherwise t _ 123 h (ap first (codes-append "{" inside))))

abbrev mask_tokens : FieldRule
mask_tokens = record { path = "/*/token"; category = "token"; strategy = mask }

abbrev two_users : Json
two_users =
    arr
      (cons (obj (field "token" (str "t-1") end)) (cons (obj (field "token" (str "t-2") end)) nil))

abbrev artifact_walk : ExecutionOptions
artifact_walk = record { path_prefix = "/artifact"; source = Source.artifact; event_type = none }

abbrev after_login : Memory
after_login =
    (redact_json_value plain artifact_walk defaults (obj (field "token" (str "t-1") end)) []).1

apply_path-IsMasked_example :
    (a : Applied) × (n : Memory) × (apply_path plain
        (apply_field_rule plain mask_tokens)
        ("*" ∷ "token" ∷ [])
        two_users
        "/artifact"
        after_login
      ≡ (done a, n))
    × (a.removed ≡ Bool.false)
    × AbsentOrPlaceholder (value_at_state_path ("1" ∷ "token" ∷ []) a.value)
apply_path-IsMasked_example =
    apply_path-IsMasked plain plain-IsUuid plain-TellsTexts mask_tokens ("*" ∷ "token" ∷ [])
      ("1" ∷ "token" ∷ []) two_users "/artifact" after_login refl
      (next artifact_walk defaults (obj (field "token" (str "t-1") end)) here) refl

-- Both tokens are masked.
masked_tokens :
    (apply_path plain (apply_field_rule plain mask_tokens) ("*" ∷ "token" ∷ []) two_users "" []).0
    ≡ done (record {
      value = arr (
          cons
            (obj (field "token" (str "[REDACTED:token]") end))
            (cons (obj (field "token" (str "[REDACTED:token]") end)) nil));
      removed = Bool.false;
      changed = true;
      entries =
          (record { category = "token"; path = "/0/token"; strategy = RedactionStrategy.mask })
          ∷ (record { category = "token"; path = "/0/token"; strategy = RedactionStrategy.mask })
          ∷ [];
    })
unfolding apply_path apply_field_rule stringify
masked_tokens = refl

abbrev token_place : String
token_place = "[REDACTED:token:ref_01234567-89ab-cdef-0123-456789abcdef]"

abbrev token_memory : Memory
token_memory = ("\"t-1", token_place) ∷ []

first_reference : reference_for plain (str "t-1") "token" [] ≡ (done token_place, token_memory)
unfolding reference_for canonical_json
first_reference = refl

reference_for-Redacted_example :
    reference_for plain
      (str "t-1")
      "password"
      (redact_json_value plain artifact_walk defaults two_users token_memory).1
    ≡ (done token_place, (redact_json_value plain artifact_walk defaults two_users token_memory).1)
reference_for-Redacted_example =
    reference_for-Redacted plain (str "t-1") (str "t-1") "token" "password" token_place []
      token_memory _ refl first_reference (next artifact_walk defaults two_users here)

abbrev tool_call : Fields
tool_call =
    field "correlation_key" (str "k-1") (field "tool" (str "mail") (field "token" (str "t-1") end))

abbrev redacted_call : Json
redacted_call = obj (
    field "token" (str token_place)
      (field "correlation_key" (str "k-1") (field "tool" (str "mail") end)))

abbrev call_entries : List RedactionEntry
call_entries =
    (record { category = "token"; path = "/payload/token"; strategy = RedactionStrategy.reference })
    ∷ []

redacted_tool_call :
    redact_protocol_event plain defaults "tool.requested" (obj tool_call) []
    ≡ (done (some (redacted_call, call_entries)), token_memory)
unfolding redact_protocol_event stringify canonical_json
redacted_tool_call = refl

mail_there : value_at_object_path ("tool" ∷ []) (obj tool_call) ≡ some (str "mail")
unfolding value_at_object_path
mail_there = refl

redact_protocol_event-KeepsControls_example :
    value_at_object_path ("tool" ∷ []) redacted_call ≡ some (str "mail")
redact_protocol_event-KeepsControls_example =
    redact_protocol_event-KeepsControls plain defaults "tool.requested"
      (("correlation_key" ∷ []) ∷ ("tool" ∷ []) ∷ []) ("tool" ∷ []) tool_call (str "mail")
      redacted_call call_entries [] token_memory refl (Memᴰ.tail (Memᴰ.head refl)) mail_there
      redacted_tool_call

abbrev login : StateChange
login = record {
  operation = merge;
  path = "/user";
  value = Input.object (Properties.field "name" (Input.str "ann") Properties.end);
}

abbrev login_payload : Json
login_payload = obj (
    field "operation" (str "merge")
      (field "path" (str "/user") (field "value" (obj (field "name" (str "ann") end)) end)))

redacted_login :
    redact_change plain defaults login Properties.end [] ≡ (done (login_payload, []), [])
unfolding redact_change stringify canonical_json
redacted_login = refl

redact_change-SameChange_example : SameChange login login_payload
redact_change-SameChange_example =
    redact_change-SameChange plain defaults login Properties.end login_payload [] [] []
      redacted_login
