-- ===== src/Redaction/Masking/Rule.antt =====
-- Field rules that mask, and those that put references (packages/recorder/src/redaction.ts).
use agent_loop_snapshot.Prelude.{
  ℕ, String, ◌≡◌, refl, Bool, true, false, not, ◌⊎◌, Option, none, some, List, [], ◌∷◌, ◌++◌, ◌==◌,
  if◌then◌else◌, arith, inl, inr, get_text,
}
use mathlib.Core.Path.{subst}
use agent_loop_snapshot.Schema.Json.{Json, str}
use agent_loop_snapshot.Redaction.Rules.{
  Memory, Step, Outcome, continue, give, done, Runtime, Applied, FieldStrategy, mask, reference,
  FieldRule, Decision, keep, replace, is_redaction_placeholder, placeholder, placeholder_for,
  reference_for, remembered, identity_of, new_reference, text_of, replace_by, decision_for_strategy,
  apply_decision, strategy_of,
}
use agent_loop_snapshot.Redaction.Walk.{apply_path, apply_field_rule}
use agent_loop_snapshot.Redaction.Addresses.{is_removal}
use agent_loop_snapshot.Redaction.StateChange.{value_at_state_path}
use agent_loop_snapshot.Redaction.Steps.{
  Never, Ensures, continue-Ensures, Ensures-total, Ensures-memory, Ensures-forget, Keeps,
}
use agent_loop_snapshot.Redaction.Recall.{redact_json_value-Keeps}
use agent_loop_snapshot.Redaction.References.{Redacted, here, next}
use agent_loop_snapshot.Redaction.Masking.Texts.{
  IsUuid, placeholder-IsPlaceholder, reference-IsPlaceholder,
}
use agent_loop_snapshot.Redaction.Masking.Leaves.{covers, Leaves, Leaves-nil, Fine}
use agent_loop_snapshot.Redaction.Masking.Path.{apply_path-Fine}

abbrev pub IsPlaceholder : Json → Type 0
IsPlaceholder v = is_redaction_placeholder v ≡ true

-- Every reference that the memory holds is a placeholder.
abbrev HoldsPlaceholders : Memory → Type 0
HoldsPlaceholders m = (k t : String) → get_text k m ≡ some t → IsPlaceholder (str t)

-- The text of a text is the text of nothing else.
abbrev pub TellsTexts : Runtime → Type 0
TellsTexts r = (t : String) (v : Json) → (text_of r (str t) == text_of r v) ≡ true → v ≡ str t

get_text-snoc :
    (k l t u : String) (m : Memory)
    → get_text k (m ++ (l, u) ∷ []) ≡ some t
    → (get_text k m ≡ some t) ⊎ (u ≡ t)
get_text-snoc k l t u [] h = ground (arith, h)
get_text-snoc k l t u ((j, w) ∷ m) h = ground (arith, h, get_text-snoc k l t u m)

module _ (r : Runtime) (uuids : (n : ℕ) → IsUuid (r.random_uuid n)) where
  grown-HoldsPlaceholders :
      (v : Json) (category : String) (m : Memory)
      → HoldsPlaceholders m
      → HoldsPlaceholders (m ++ (identity_of r v, new_reference r category m) ∷ [])
  grown-HoldsPlaceholders v category m h k t e =
      elim (get_text-snoc k (identity_of r v) t (new_reference r category m) m e) [
        | inl old ↦ h k t old
        | inr new ↦
            subst (λ u. IsPlaceholder (str u)) new (reference-IsPlaceholder category _ (uuids _))
      ]

  remembered-Ensures :
      (v : Json) (category : String) (o : Option String) (m : Memory)
      → HoldsPlaceholders m
      → get_text (identity_of r v) m ≡ o
      → Ensures Never HoldsPlaceholders (λ t. IsPlaceholder (str t)) (remembered r o v category m)
  remembered-Ensures v category (some t) m h e = (h, h (identity_of r v) t e)
  remembered-Ensures v category none m h e =
      (grown-HoldsPlaceholders v category m h, reference-IsPlaceholder category _ (uuids _))

  reference_for-Ensures :
      (v : Json) (category : String) (m : Memory)
      → HoldsPlaceholders m
      → Ensures Never HoldsPlaceholders (λ t. IsPlaceholder (str t)) (reference_for r v category m)
  unfolding reference_for
  reference_for-Ensures v category m h = remembered-Ensures v category _ m h refl

  reference_for-Keeps :
      (v : Json) (category : String) → Keeps HoldsPlaceholders (reference_for r v category)
  reference_for-Keeps v category m h =
      Ensures-forget HoldsPlaceholders (λ t. IsPlaceholder (str t)) (reference_for r v category m)
        (reference_for-Ensures v category m h)

  Redacted-HoldsPlaceholders :
      {m n : Memory} → Redacted r m n → HoldsPlaceholders m → HoldsPlaceholders n
  Redacted-HoldsPlaceholders here h = h
  Redacted-HoldsPlaceholders (next options p v before) h =
      Ensures-memory HoldsPlaceholders (λ _. Unit {0}) _
        (redact_json_value-Keeps r HoldsPlaceholders reference_for-Keeps options p v _
          (Redacted-HoldsPlaceholders before h))

  module _ (tells : TellsTexts r) where
    replaced-Fine :
        (v : Json) (t category path : String) (s : FieldStrategy)
        → IsPlaceholder (str t)
        → Fine IsPlaceholder [] v
            (apply_decision r v (replace (str t)) category (strategy_of s) path)
    unfolding apply_decision
    replaced-Fine v t category path s h =
        (refl, stays (text_of r (str t) == text_of r v) refl, Leaves-nil IsPlaceholder (str t) h)
      where
        stays :
            (b : Bool)
            → (text_of r (str t) == text_of r v) ≡ b
            → (if not b then str t else v) ≡ str t
        stays true e = tells t v e
        stays false e = refl

    kept-Fine :
        (v : Json) (category path : String) (s : FieldStrategy)
        → IsPlaceholder v
        → Fine IsPlaceholder [] v (apply_decision r v keep category (strategy_of s) path)
    unfolding apply_decision
    kept-Fine v category path s h = (refl, refl, Leaves-nil IsPlaceholder v h)

    -- What a decision makes of a value, whatever the rule says besides.
    abbrev DecidesFine : Json → Decision → Type 0
    DecidesFine v d =
        (category path : String) (s : FieldStrategy)
        → Fine IsPlaceholder [] v (apply_decision r v d category (strategy_of s) path)

    placed-Ensures :
        (v : Json) (x : Outcome String × Memory)
        → Ensures Never HoldsPlaceholders (λ t. IsPlaceholder (str t)) x
        → Ensures Never HoldsPlaceholders (DecidesFine v) (continue (replace_by r) x)
    placed-Ensures v x h =
        continue-Ensures Never HoldsPlaceholders (λ t. IsPlaceholder (str t)) (DecidesFine v)
          (replace_by r) x h
          (λ t n i p. (i, λ category path s. replaced-Fine v t category path s p))

    either-Ensures :
        (v : Json) (b : Bool) (m : Memory) (step : Step Decision)
        → is_redaction_placeholder v ≡ b
        → HoldsPlaceholders m
        → Ensures Never HoldsPlaceholders (DecidesFine v) (step m)
        → Ensures Never HoldsPlaceholders (DecidesFine v) ((if b then give keep else step) m)
    either-Ensures v true m step e h k = (h, λ category path s. kept-Fine v category path s e)
    either-Ensures v false m step e h k = k

    decision-Ensures :
        (v : Json) (s : FieldStrategy) (category : String) (m : Memory)
        → is_removal s ≡ false
        → HoldsPlaceholders m
        → Ensures Never HoldsPlaceholders (DecidesFine v) (decision_for_strategy r v s category m)
    unfolding decision_for_strategy placeholder_for
    decision-Ensures v FieldStrategy.remove category m n h = cc
    decision-Ensures v mask category m n h =
        either-Ensures v (is_redaction_placeholder v) m _ refl h (
          placed-Ensures v (done (placeholder category none), m)
            (h, placeholder-IsPlaceholder category))
    decision-Ensures v reference category m n h =
        either-Ensures v (is_redaction_placeholder v) m _ refl h
          (placed-Ensures v (reference_for r v category m) (reference_for-Ensures v category m h))

    apply_field_rule-Fine :
        (rule : FieldRule) (v : Json) (path : String) (m : Memory)
        → is_removal rule.strategy ≡ false
        → HoldsPlaceholders m
        → Ensures Never HoldsPlaceholders
            (Fine IsPlaceholder [] v)
            (apply_field_rule r rule v path m)
    unfolding apply_field_rule
    apply_field_rule-Fine rule v path m n h =
        continue-Ensures Never HoldsPlaceholders (DecidesFine v) (Fine IsPlaceholder [] v) _
          (decision_for_strategy r v rule.strategy rule.category m)
          (decision-Ensures v rule.strategy rule.category m n h)
          (λ d k i f. (i, f rule.category path rule.strategy))

abbrev pub AbsentOrPlaceholder : Option Json → Type 0
AbsentOrPlaceholder none = Unit
AbsentOrPlaceholder (some w) = IsPlaceholder w

absent_or :
    (segments address : List String) (v : Json) (o : Option Json)
    → Leaves IsPlaceholder segments v
    → covers segments address ≡ true
    → value_at_state_path address v ≡ o
    → AbsentOrPlaceholder o
absent_or segments address v none h c e = tt
absent_or segments address v (some w) h c e = h address w c e

-- A field rule with the strategy `mask` or `reference` never fails, never removes the value, and at
-- every address that its path covers, with any `*` in it, leaves nothing or a placeholder. The
-- identifiers have the form of UUIDs, and the JSON text of a text is that of nothing else; the
-- memory is one that any number of redactions have left.
pub apply_path-IsMasked :
    (r : Runtime) (uuids : (n : ℕ) → IsUuid (r.random_uuid n)) (tells : TellsTexts r)
    (rule : FieldRule) (segments address : List String) (v : Json) (path : String) (m : Memory)
    → is_removal rule.strategy ≡ false
    → Redacted r [] m
    → covers segments address ≡ true
    → (a : Applied) × (n : Memory) × (apply_path r (apply_field_rule r rule) segments v path m
        ≡ (done a, n))
      × (a.removed ≡ false)
      × AbsentOrPlaceholder (value_at_state_path address a.value)
apply_path-IsMasked r uuids tells rule segments address v path m n before covered =
    let holds = Redacted-HoldsPlaceholders r uuids before (λ k t e. cc) in
    let (a, k, e, f) = Ensures-total HoldsPlaceholders (Fine IsPlaceholder segments v) _ (
      apply_path-Fine IsPlaceholder HoldsPlaceholders r (apply_field_rule r rule)
        (λ v p m h. apply_field_rule-Fine r uuids tells rule v p m n h) segments v path m holds) in
    (a, k, e, f.0, absent_or segments address a.value _ f.2 covered refl)
