-- ===== src/Redaction/Memory.antt =====
-- What every redaction leaves true of the memory of its pipeline (packages/recorder/src/redaction.ts).
use Prim.Native.Char.{code}
use agent_loop_snapshot.Prelude.{
  ℕ, suc, String, Option, none, some, List, [], ◌∷◌, ◌==◌, ◌===◌, map,
}
use agent_loop_snapshot.Schema.Json.{
  Json, null, bool, num, str, arr, obj, Items, nil, cons, Fields, end, field,
}
use agent_loop_snapshot.State.Container.{item_at}
use agent_loop_snapshot.State.Pointer.{slash, unescape, split}
use agent_loop_snapshot.Redaction.Rules.{
  fail, invalid_path, keep, Memory, Step, give, Runtime, Applied, FieldStrategy, mask, reference,
  FieldRule, CustomRule, Answer, threw, nothing, decided, path_segments, reference_for,
  placeholder_for, decision_for_strategy, is_redaction_placeholder, replace_by,
}
use agent_loop_snapshot.Redaction.Walk.{
  ExecutionOptions, member, array_index, each_item, each_field, item_if_there, one_item, one_field,
  visit_items, visit_fields, apply_path, apply_field_rule, answered, apply_custom_rule, context_of,
}
use agent_loop_snapshot.Redaction.Steps.{Keeps, bind-Keeps, if-Keeps}

module _ (r : Runtime) (Inv : Memory → Type 0)
    (reference-Keeps : (v : Json) (category : String)
      → Keeps Inv (reference_for r v category)) where
  pub placeholder_for-Keeps :
      (v : Json) (category : String) (s : FieldStrategy)
      → Keeps Inv (placeholder_for r v category s)
  unfolding placeholder_for
  placeholder_for-Keeps v category reference = reference-Keeps v category
  placeholder_for-Keeps v category mask = λ m i. (i, tt)
  placeholder_for-Keeps v category FieldStrategy.remove = λ m i. (i, tt)

  pub path_segments-Keeps : (path : String) → Keeps Inv (path_segments path)
  unfolding path_segments
  path_segments-Keeps String.[] = λ m i. (i, tt)
  path_segments-Keeps (String.◌∷◌ c s) =
      if-Keeps Inv (code c === slash) (give (map unescape (split s))) (fail invalid_path)
        (λ m i. (i, tt)) (λ m i. i)

  decision-Keeps :
      (v : Json) (s : FieldStrategy) (category : String)
      → Keeps Inv (decision_for_strategy r v s category)
  unfolding decision_for_strategy
  decision-Keeps v FieldStrategy.remove category = λ m i. (i, tt)
  decision-Keeps v mask category =
      if-Keeps Inv (is_redaction_placeholder v) (give keep) _ (λ m i. (i, tt))
        (bind-Keeps Inv (placeholder_for r v category mask) (replace_by r)
          (placeholder_for-Keeps v category mask) (λ t m i. (i, tt)))
  decision-Keeps v reference category =
      if-Keeps Inv (is_redaction_placeholder v) (give keep) _ (λ m i. (i, tt))
        (bind-Keeps Inv (placeholder_for r v category reference) (replace_by r)
          (placeholder_for-Keeps v category reference) (λ t m i. (i, tt)))

  module _ (visit : Json → String → Step Applied)
      (visit-Keeps : (v : Json) (path : String) → Keeps Inv (visit v path)) (path : String) where
    each_item-Keeps : (n : ℕ) (vs : Items) → Keeps Inv (each_item r visit path n vs)
    each_item-Keeps n nil = λ m i. (i, tt)
    each_item-Keeps n (cons v vs) =
        bind-Keeps Inv _ _ (each_item-Keeps (suc n) vs)
          (λ rest. bind-Keeps Inv _ _ (visit-Keeps v _) (λ child m i. (i, tt)))

    each_field-Keeps : (fs : Fields) → Keeps Inv (each_field r visit path fs)
    each_field-Keeps end = λ m i. (i, tt)
    each_field-Keeps (field k v fs) =
        bind-Keeps Inv _ _ (visit-Keeps v _)
          (λ child. bind-Keeps Inv _ _ (each_field-Keeps fs) (λ rest m i. (i, tt)))

    item_if_there-Keeps :
        (vs : Items) (n : ℕ) (v : Option Json) → Keeps Inv (item_if_there r visit path vs n v)
    item_if_there-Keeps vs n none = λ m i. (i, tt)
    item_if_there-Keeps vs n (some v) = bind-Keeps Inv _ _ (visit-Keeps v _) (λ child m i. (i, tt))

    one_item-Keeps : (vs : Items) (n : Option ℕ) → Keeps Inv (one_item r visit path vs n)
    one_item-Keeps vs none = λ m i. (i, tt)
    one_item-Keeps vs (some n) = item_if_there-Keeps vs n (item_at n vs)

    one_field-Keeps :
        (fs : Fields) (k : String) (v : Option Json) → Keeps Inv (one_field r visit path fs k v)
    one_field-Keeps fs k none = λ m i. (i, tt)
    one_field-Keeps fs k (some v) = bind-Keeps Inv _ _ (visit-Keeps v _) (λ child m i. (i, tt))

    visit_items-Keeps : (s : String) (vs : Items) → Keeps Inv (visit_items r visit path s vs)
    unfolding visit_items
    visit_items-Keeps s vs =
        if-Keeps Inv (s == "*") (each_item r visit path 0 vs)
          (one_item r visit path vs (array_index s)) (each_item-Keeps 0 vs)
          (one_item-Keeps vs (array_index s))

    visit_fields-Keeps : (s : String) (fs : Fields) → Keeps Inv (visit_fields r visit path s fs)
    unfolding visit_fields
    visit_fields-Keeps s fs =
        if-Keeps Inv (s == "*") (each_field r visit path fs)
          (one_field r visit path fs s (member s fs)) (each_field-Keeps fs)
          (one_field-Keeps fs s (member s fs))

  module _ (at : Json → String → Step Applied)
      (at-Keeps : (v : Json) (path : String) → Keeps Inv (at v path)) where
    pub apply_path-Keeps :
        (ss : List String) (v : Json) (path : String) → Keeps Inv (apply_path r at ss v path)
    unfolding apply_path
    apply_path-Keeps [] v path = at-Keeps v path
    apply_path-Keeps (s ∷ ss) (arr vs) path =
        bind-Keeps Inv _ _
          (visit_items-Keeps (λ v p. apply_path r at ss v p) (λ v p. apply_path-Keeps ss v p) path s
            vs)
          (λ w m i. (i, tt))
    apply_path-Keeps (s ∷ ss) (obj fs) path =
        bind-Keeps Inv _ _
          (visit_fields-Keeps (λ v p. apply_path r at ss v p) (λ v p. apply_path-Keeps ss v p) path
            s fs)
          (λ w m i. (i, tt))
    apply_path-Keeps (s ∷ ss) null path = λ m i. (i, tt)
    apply_path-Keeps (s ∷ ss) (bool _) path = λ m i. (i, tt)
    apply_path-Keeps (s ∷ ss) (num _) path = λ m i. (i, tt)
    apply_path-Keeps (s ∷ ss) (str _) path = λ m i. (i, tt)

  pub apply_field_rule-Keeps :
      (rule : FieldRule) (v : Json) (path : String) → Keeps Inv (apply_field_rule r rule v path)
  unfolding apply_field_rule
  apply_field_rule-Keeps rule v path =
      bind-Keeps Inv _ _ (decision-Keeps v rule.strategy rule.category) (λ d m i. (i, tt))

  answered-Keeps :
      (rule : CustomRule) (v : Json) (path : String) (a : Answer)
      → Keeps Inv (answered r rule v path a)
  answered-Keeps rule v path threw = λ m i. i
  answered-Keeps rule v path nothing = λ m i. (i, tt)
  answered-Keeps rule v path (decided d) = λ m i. (i, tt)

  pub apply_custom_rule-Keeps :
      (options : ExecutionOptions) (rule : CustomRule) (v : Json) (path : String)
      → Keeps Inv (apply_custom_rule r options rule v path)
  unfolding apply_custom_rule
  apply_custom_rule-Keeps options rule v path =
      answered-Keeps rule v path (rule.redact v (context_of r options rule path))
