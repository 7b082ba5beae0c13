-- ===== src/Redaction/Content.antt =====
-- packages/recorder/src/redaction.ts: the rules that have no path, and the redaction of a value.
use Prim.Native.String
use agent_loop_snapshot.Prelude.{
  ℕ, suc, String, Bool, true, false, not, ◌||◌, Option, none, some, List, [], ◌∷◌, ◌++◌, ◌==◌,
  if◌then◌else◌,
}
use agent_loop_snapshot.Schema.Json.{
  Json, null, str, arr, obj, Items, nil, cons, Fields, end, field,
}
use agent_loop_snapshot.Schema.Envelope.{RedactionEntry}
use agent_loop_snapshot.State.Container.{clone}
use agent_loop_snapshot.Redaction.Rules.{
  Step, give, ◌>>=◌, Runtime, Applied, FieldStrategy, mask, reference, FieldRule, RegexRule, Piece,
  kept, matched, CustomRule, Pipeline, path_segments, placeholder_for, add_entry, add_entries,
  entry_of, strategy_of,
}
use agent_loop_snapshot.Redaction.Walk.{
  ExecutionOptions, Walked, untouched, whole, item_before, field_before, key_path, index_path,
  apply_path, apply_field_rule, apply_custom_rule,
}

abbrev pub is_empty : {A : Type 0} → List A → Bool
is_empty [] = true
is_empty (_ ∷ _) = false

-- A value, or the copy of it that a replacement with the same text is.
abbrev pub value_or_clone : Bool → Json → Json
value_or_clone copied v = if copied then clone v else v

abbrev pub below : Applied → {C : Type 0} → (C → Json) → Walked C → Applied
below applied make w = record {
  value = make w.contents;
  removed = applied.removed;
  changed = applied.changed || w.changed;
  entries = applied.entries ++ w.entries;
}

module _ (r : Runtime) where
  module _ (options : ExecutionOptions) (rule : CustomRule) where
    -- `applyGlobalCustomRule`. A replacement that has the text of the value is a copy of it, and
    -- the walk goes on in the copy. An array is walked from its start, and a member that follows a
    -- removed one gets its index.
    unfoldable mutual
      unfolding apply_custom_rule clone

      pub apply_global : Bool → Json → String → Step Applied
      apply_global copied (arr vs) path = do
        applied ← apply_custom_rule r options rule (value_or_clone copied (arr vs)) path
        let inside = copied || not (is_empty applied.entries)
        elim (applied.changed || applied.removed) [
          | true ↦ give applied
          | false ↦ (do w ← global_items inside 0 vs path; give (below applied arr w))
        ]
      apply_global copied (obj fs) path = do
        applied ← apply_custom_rule r options rule (value_or_clone copied (obj fs)) path
        let inside = copied || not (is_empty applied.entries)
        elim (applied.changed || applied.removed) [
          | true ↦ give applied
          | false ↦ (do w ← global_fields inside fs path; give (below applied obj w))
        ]
      apply_global copied v path = apply_custom_rule r options rule (value_or_clone copied v) path

      pub global_items : Bool → ℕ → Items → String → Step (Walked Items)
      global_items copied i nil path = give (untouched nil)
      global_items copied i (cons v vs) path = do
        child ← apply_global copied v (index_path r path i)
        rest ← global_items copied (if child.removed then i else suc i) vs path
        give (item_before (value_or_clone copied v) child rest (child.entries ++ rest.entries))

      pub global_fields : Bool → Fields → String → Step (Walked Fields)
      global_fields copied end path = give (untouched end)
      global_fields copied (field k v fs) path = do
        child ← apply_global copied v (key_path path k)
        rest ← global_fields copied fs path
        give (field_before k (value_or_clone copied v) child rest)

  -- `regexDecision`
  abbrev pub regex_decision : FieldStrategy → String → String → Step String
  regex_decision mask category t = placeholder_for r (str t) category mask
  regex_decision reference category t = placeholder_for r (str t) category reference
  regex_decision FieldStrategy.remove category t = give ""

  -- `replace`, with what it makes of the matches, and whether there was one.
  abbrev pub replace_pieces : RegexRule → List Piece → Step (String × Bool)
  replace_pieces rule [] = give ("", false)
  replace_pieces rule (kept t ∷ ps) = do
    rest ← replace_pieces rule ps
    give (String.◌++◌ t rest.0, rest.1)
  replace_pieces rule (matched t ∷ ps) = do
    by ← regex_decision rule.strategy rule.category t
    rest ← replace_pieces rule ps
    give (String.◌++◌ by rest.0, true)

  -- `redactString`, from the entries so far.
  unfoldable pub redact_string :
      List RegexRule → String → String → List RedactionEntry → Step (String × List RedactionEntry)
  unfolding placeholder_for add_entry
  redact_string [] path current entries = give (current, entries)
  redact_string (rule ∷ rules) path current entries = do
    replaced ← replace_pieces rule (rule.pattern current)
    redact_string rules path replaced.0 (
        if replaced.1
        then add_entry entries (entry_of r rule.category (strategy_of rule.strategy) path)
        else entries)

  abbrev pub redacted_text : String → String × List RedactionEntry → Applied
  redacted_text t result = record {
    value = str result.0;
    removed = false;
    changed = not (result.0 == t);
    entries = result.1;
  }

  module _ (rules : List RegexRule) where
    -- `applyRegexRules`
    unfoldable mutual
      unfolding redact_string

      pub apply_regex : Json → String → Step Applied
      apply_regex (str t) path = do
        result ← redact_string rules path t []
        give (redacted_text t result)
      apply_regex (arr vs) path = do w ← regex_items 0 vs path; give (whole arr w)
      apply_regex (obj fs) path = do w ← regex_fields fs path; give (whole obj w)
      apply_regex v path = give (whole (λ w. w) (untouched v))

      pub regex_items : ℕ → Items → String → Step (Walked Items)
      regex_items i nil path = give (untouched nil)
      regex_items i (cons v vs) path = do
        child ← apply_regex v (index_path r path i)
        rest ← regex_items (suc i) vs path
        give (item_before v child rest (child.entries ++ rest.entries))

      pub regex_fields : Fields → String → Step (Walked Fields)
      regex_fields end path = give (untouched end)
      regex_fields (field k v fs) path = do
        child ← apply_regex v (key_path path k)
        rest ← regex_fields fs path
        give (field_before k v child rest)

  abbrev pub value_of : Applied → Json
  value_of a = if a.removed then null else a.value

  module _ (options : ExecutionOptions) where
    -- The loop over the field rules.
    unfoldable pub apply_field_rules :
        List FieldRule → Json → List RedactionEntry → Step (Json × List RedactionEntry)
    unfolding path_segments apply_path apply_field_rule
    apply_field_rules [] v entries = give (v, entries)
    apply_field_rules (rule ∷ rules) v entries = do
      segments ← path_segments rule.path
      a ← apply_path r (apply_field_rule r rule) segments v options.path_prefix
      apply_field_rules rules (value_of a) (add_entries entries a.entries)

    abbrev pub apply_custom : CustomRule → Option String → Json → Step Applied
    apply_custom rule none v = apply_global options rule false v options.path_prefix
    apply_custom rule (some path) v = do
      segments ← path_segments path
      apply_path r (apply_custom_rule r options rule) segments v options.path_prefix

    -- The loop over the custom redactors.
    unfoldable pub apply_custom_rules :
        List CustomRule → Json → List RedactionEntry → Step (Json × List RedactionEntry)
    unfolding apply_global apply_path path_segments
    apply_custom_rules [] v entries = give (v, entries)
    apply_custom_rules (rule ∷ rules) v entries = do
      a ← apply_custom rule rule.path v
      apply_custom_rules rules (value_of a) (add_entries entries a.entries)

    -- `redactJsonValue`, of a value in its JSON form.
    unfoldable pub redact_json_value : Pipeline → Json → Step (Json × List RedactionEntry)
    unfolding apply_field_rules apply_custom_rules apply_regex
    redact_json_value p v = do
      fields ← apply_field_rules p.field_rules v []
      custom ← apply_custom_rules p.custom_redactors fields.0 fields.1
      a ← apply_regex p.regex_rules custom.0 options.path_prefix
      give (a.value, add_entries custom.1 a.entries)
