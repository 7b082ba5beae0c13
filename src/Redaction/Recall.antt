-- ===== src/Redaction/Recall.antt =====
-- What a whole redaction leaves true of the memory (packages/recorder/src/redaction.ts).

use agent_loop_snapshot.Prelude.{
  ℕ, suc, String, Bool, true, false, not, ◌||◌, Option, none, some, List, [], ◌∷◌, if◌then◌else◌,
}
use agent_loop_snapshot.Schema.Json.{
  Json, null, bool, num, str, arr, obj, Items, nil, cons, Fields, end, field,
}
use agent_loop_snapshot.Schema.Envelope.{RedactionEntry}
use agent_loop_snapshot.Redaction.Rules.{
  Memory, Step, give, Runtime, Applied, FieldStrategy, mask, reference, FieldRule, RegexRule, Piece,
  kept, matched, CustomRule, Pipeline, reference_for,
}
use agent_loop_snapshot.Redaction.Walk.{ExecutionOptions, apply_field_rule, apply_custom_rule}
use agent_loop_snapshot.Redaction.Content.{
  is_empty, apply_global, global_items, global_fields, regex_decision, replace_pieces,
  redact_string, apply_regex, regex_items, regex_fields, apply_field_rules, apply_custom,
  apply_custom_rules, redact_json_value,
}
use agent_loop_snapshot.Redaction.Steps.{Keeps, bind-Keeps, give-Keeps}
use agent_loop_snapshot.Redaction.Memory.{
  placeholder_for-Keeps, path_segments-Keeps, apply_path-Keeps, apply_field_rule-Keeps,
  apply_custom_rule-Keeps,
}

module _ (r : Runtime) (Inv : Memory → Type 0)
    (reference-Keeps : (v : Json) (category : String)
      → Keeps Inv (reference_for r v category)) where
  module _ (options : ExecutionOptions) (rule : CustomRule) where
    descend-Keeps :
        (applied : Applied) (b : Bool) (inside : Step Applied)
        → Keeps Inv inside
        → Keeps Inv (elim b [ true ↦ give applied | false ↦ inside ])
    descend-Keeps applied true inside h = give-Keeps Inv applied
    descend-Keeps applied false inside h = h

    mutual
      unfolding apply_global

      apply_global-Keeps :
          (copied : Bool) (v : Json) (path : String)
          → Keeps Inv (apply_global r options rule copied v path)
      apply_global-Keeps copied (arr vs) path =
          bind-Keeps Inv _ _ (apply_custom_rule-Keeps r Inv reference-Keeps options rule _ path)
            (λ applied. descend-Keeps applied (applied.changed || applied.removed) _ (
              bind-Keeps Inv _ _
                (global_items-Keeps (copied || not (is_empty applied.entries)) 0 vs path)
                (λ w m i. (i, tt))))
      apply_global-Keeps copied (obj fs) path =
          bind-Keeps Inv _ _ (apply_custom_rule-Keeps r Inv reference-Keeps options rule _ path)
            (λ applied. descend-Keeps applied (applied.changed || applied.removed) _ (
              bind-Keeps Inv _ _
                (global_fields-Keeps (copied || not (is_empty applied.entries)) fs path)
                (λ w m i. (i, tt))))
      apply_global-Keeps copied null path =
          apply_custom_rule-Keeps r Inv reference-Keeps options rule _ path
      apply_global-Keeps copied (bool _) path =
          apply_custom_rule-Keeps r Inv reference-Keeps options rule _ path
      apply_global-Keeps copied (num _) path =
          apply_custom_rule-Keeps r Inv reference-Keeps options rule _ path
      apply_global-Keeps copied (str _) path =
          apply_custom_rule-Keeps r Inv reference-Keeps options rule _ path

      global_items-Keeps :
          (copied : Bool) (n : ℕ) (vs : Items) (path : String)
          → Keeps Inv (global_items r options rule copied n vs path)
      global_items-Keeps copied n nil path = λ m i. (i, tt)
      global_items-Keeps copied n (cons v vs) path =
          bind-Keeps Inv _ _ (apply_global-Keeps copied v _) (λ child.
            bind-Keeps Inv _ _
              (global_items-Keeps copied (if child.removed then n else suc n) vs path)
              (λ rest m i. (i, tt)))

      global_fields-Keeps :
          (copied : Bool) (fs : Fields) (path : String)
          → Keeps Inv (global_fields r options rule copied fs path)
      global_fields-Keeps copied end path = λ m i. (i, tt)
      global_fields-Keeps copied (field k v fs) path =
          bind-Keeps Inv _ _ (apply_global-Keeps copied v _)
            (λ child. bind-Keeps Inv _ _ (global_fields-Keeps copied fs path) (λ rest m i. (i, tt)))

  regex_decision-Keeps :
      (s : FieldStrategy) (category t : String) → Keeps Inv (regex_decision r s category t)
  regex_decision-Keeps mask category t = placeholder_for-Keeps r Inv reference-Keeps _ category mask
  regex_decision-Keeps reference category t =
      placeholder_for-Keeps r Inv reference-Keeps _ category reference
  regex_decision-Keeps FieldStrategy.remove category t = λ m i. (i, tt)

  replace_pieces-Keeps : (rule : RegexRule) (ps : List Piece) → Keeps Inv (replace_pieces r rule ps)
  replace_pieces-Keeps rule [] = λ m i. (i, tt)
  replace_pieces-Keeps rule (kept t ∷ ps) =
      bind-Keeps Inv _ _ (replace_pieces-Keeps rule ps) (λ rest m i. (i, tt))
  replace_pieces-Keeps rule (matched t ∷ ps) =
      bind-Keeps Inv _ _ (regex_decision-Keeps rule.strategy rule.category t)
        (λ by. bind-Keeps Inv _ _ (replace_pieces-Keeps rule ps) (λ rest m i. (i, tt)))

  redact_string-Keeps :
      (rules : List RegexRule) (path current : String) (entries : List RedactionEntry)
      → Keeps Inv (redact_string r rules path current entries)
  unfolding redact_string
  redact_string-Keeps [] path current entries = λ m i. (i, tt)
  redact_string-Keeps (rule ∷ rules) path current entries =
      bind-Keeps Inv _ _ (replace_pieces-Keeps rule (rule.pattern current))
        (λ replaced. redact_string-Keeps rules path replaced.0 _)

  module _ (rules : List RegexRule) where
    mutual
      unfolding apply_regex

      pub apply_regex-Keeps : (v : Json) (path : String) → Keeps Inv (apply_regex r rules v path)
      apply_regex-Keeps (str t) path =
          bind-Keeps Inv _ _ (redact_string-Keeps rules path t []) (λ result m i. (i, tt))
      apply_regex-Keeps (arr vs) path =
          bind-Keeps Inv _ _ (regex_items-Keeps 0 vs path) (λ w m i. (i, tt))
      apply_regex-Keeps (obj fs) path =
          bind-Keeps Inv _ _ (regex_fields-Keeps fs path) (λ w m i. (i, tt))
      apply_regex-Keeps null path = λ m i. (i, tt)
      apply_regex-Keeps (bool _) path = λ m i. (i, tt)
      apply_regex-Keeps (num _) path = λ m i. (i, tt)

      regex_items-Keeps :
          (n : ℕ) (vs : Items) (path : String) → Keeps Inv (regex_items r rules n vs path)
      regex_items-Keeps n nil path = λ m i. (i, tt)
      regex_items-Keeps n (cons v vs) path =
          bind-Keeps Inv _ _ (apply_regex-Keeps v _)
            (λ child. bind-Keeps Inv _ _ (regex_items-Keeps (suc n) vs path) (λ rest m i. (i, tt)))

      regex_fields-Keeps : (fs : Fields) (path : String) → Keeps Inv (regex_fields r rules fs path)
      regex_fields-Keeps end path = λ m i. (i, tt)
      regex_fields-Keeps (field k v fs) path =
          bind-Keeps Inv _ _ (apply_regex-Keeps v _)
            (λ child. bind-Keeps Inv _ _ (regex_fields-Keeps fs path) (λ rest m i. (i, tt)))

  module _ (options : ExecutionOptions) where
    apply_field_rules-Keeps :
        (rules : List FieldRule) (v : Json) (entries : List RedactionEntry)
        → Keeps Inv (apply_field_rules r options rules v entries)
    unfolding apply_field_rules
    apply_field_rules-Keeps [] v entries = λ m i. (i, tt)
    apply_field_rules-Keeps (rule ∷ rules) v entries =
        bind-Keeps Inv _ _ (path_segments-Keeps r Inv reference-Keeps rule.path) (λ segments.
          bind-Keeps Inv _ _
            (apply_path-Keeps r Inv reference-Keeps (apply_field_rule r rule)
              (apply_field_rule-Keeps r Inv reference-Keeps rule) segments v _)
            (λ a. apply_field_rules-Keeps rules _ _))

    apply_custom-Keeps :
        (rule : CustomRule) (path : Option String) (v : Json)
        → Keeps Inv (apply_custom r options rule path v)
    apply_custom-Keeps rule none v = apply_global-Keeps options rule false v _
    apply_custom-Keeps rule (some path) v =
        bind-Keeps Inv _ _ (path_segments-Keeps r Inv reference-Keeps path) (λ segments.
          apply_path-Keeps r Inv reference-Keeps (apply_custom_rule r options rule)
            (apply_custom_rule-Keeps r Inv reference-Keeps options rule) segments v _)

    apply_custom_rules-Keeps :
        (rules : List CustomRule) (v : Json) (entries : List RedactionEntry)
        → Keeps Inv (apply_custom_rules r options rules v entries)
    unfolding apply_custom_rules
    apply_custom_rules-Keeps [] v entries = λ m i. (i, tt)
    apply_custom_rules-Keeps (rule ∷ rules) v entries =
        bind-Keeps Inv _ _ (apply_custom-Keeps rule rule.path v)
          (λ a. apply_custom_rules-Keeps rules _ _)

    pub redact_json_value-Keeps :
        (p : Pipeline) (v : Json) → Keeps Inv (redact_json_value r options p v)
    unfolding redact_json_value
    redact_json_value-Keeps p v =
        bind-Keeps Inv _ _ (apply_field_rules-Keeps p.field_rules v []) (λ fields.
          bind-Keeps Inv _ _ (apply_custom_rules-Keeps p.custom_redactors fields.0 fields.1)
            (λ custom.
              bind-Keeps Inv _ _ (apply_regex-Keeps p.regex_rules custom.0 _) (λ a m i. (i, tt))))
