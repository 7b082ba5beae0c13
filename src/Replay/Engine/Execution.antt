-- ===== src/Replay/Engine/Execution.antt =====
-- The guarded execution runs an operation only on current authority, and after the audit
-- (packages/replay/src/policy.ts).
use agent_loop_snapshot.Prelude.{
  ◌≡◌, refl, ◌⊎◌, inl, inr, Bool, true, false, Option, none, some, List, [], ◌∷◌, any, Bool-cases,
  ◌++◌,
}
use agent_loop_snapshot.Replay.Policy.{DecisionKind, allow, Action, Rule}
use agent_loop_snapshot.Replay.Engine.Authority.{Permitted, evaluate_allow_iff}
use agent_loop_snapshot.Replay.Engine.{
  EvaluationOptions, Decision, Effect, audited, operated, evaluate, execute, execute_allowed,
}

abbrev is_operated : Effect → Bool
is_operated operated = true
is_operated (audited d) = false

-- The operation was called.
abbrev pub Ran : List Effect → Type 0
Ran log = any is_operated log ≡ true

module _ {ℓ} {T : Type ℓ} where
  allowed_effects :
      (k : DecisionKind) (d : Decision) (operation : Option T) (log : List Effect)
      → ((execute_allowed k d operation log).0 ≡ log)
        ⊎ (((execute_allowed k d operation log).0 ≡ log ++ operated ∷ []) × (k ≡ allow))
  allowed_effects allow d none log = inr (refl, refl)
  allowed_effects allow d (some v) log = inr (refl, refl)
  allowed_effects _ d operation log = inl refl

  -- With an audit sink, every execution records the decision first, and calls the operation after
  -- that, once, and only if the decision is to allow and the sink did not fail.
  pub execute_audited :
      (rules : List Rule) (sink : Decision → Bool) (action : Action) (o : EvaluationOptions)
      (operation : Option T)
      → ((execute rules (some sink) action o operation).0 ≡ audited (evaluate rules action o) ∷ [])
        ⊎ (((execute rules (some sink) action o operation).0
              ≡ audited (evaluate rules action o) ∷ operated ∷ [])
            × ((evaluate rules action o).decision ≡ allow)
            × (sink (evaluate rules action o) ≡ true))
  unfolding execute
  execute_audited rules sink action o operation =
      let d = evaluate rules action o in
      elim (Bool-cases (sink d)) [
        | inl e ↦ elim (allowed_effects d.decision d operation (audited d ∷ [])) [
          | inl f ↦ inl (rw e f)
          | inr (f, a) ↦ inr (rw e f, a, e)
        ]
        | inr e ↦ inl (rw e)
      ]

  execute-Ran :
      (rules : List Rule) (sink : Option (Decision → Bool)) (action : Action)
      (o : EvaluationOptions) (operation : Option T)
      → Ran (execute rules sink action o operation).0
      → (evaluate rules action o).decision ≡ allow
  execute-Ran rules none action o operation r =
      let d = evaluate rules action o in
      elim (allowed_effects d.decision d operation []) [
        | inl f ↦ unfold execute in cc
        | inr (f, a) ↦ a
      ]
  execute-Ran rules (some sink) action o operation r =
      elim (execute_audited rules sink action o operation) [ inl f ↦ cc | inr (f, a, _) ↦ a ]

-- The operation is called only for an action that is permitted now, with any audit sink or none.
pub execute_safe {ℓ} :
    {T : Type ℓ} (rules : List Rule) (sink : Option (Decision → Bool)) (action : Action)
    (o : EvaluationOptions) (operation : Option T)
    → Ran (execute rules sink action o operation).0
    → Permitted rules action o
execute_safe rules sink action o operation r =
    (evaluate_allow_iff rules action o).0 (execute-Ran rules sink action o operation r)
