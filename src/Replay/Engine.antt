-- ===== src/Replay/Engine.antt =====
-- packages/replay/src/policy.ts: the rule engine and the guarded execution.
pub mod Selection
pub mod Authority
pub mod Execution
mod Tests
use agent_loop_snapshot.Prelude.{
  ℕ, zero, suc, String, Bool, true, false, ◌&&◌, Option, none, some, List, [], ◌∷◌, ◌++◌, ◌==◌,
  ◌===◌, if◌then◌else◌,
}
use agent_loop_snapshot.Replay.Policy.{
  AdapterMode, live, recorded, SideEffectLevel, read_only, DecisionKind, allow, deny, dry_run,
  require_approval, mode_name, kind_name, level_name, Action, Rule, Approval,
}

-- The messages, one constructor for each template.
pub data Reason : Type 0 where
  rule_selected : ℕ → DecisionKind → Reason
  recorded_permitted live_read_only : Reason
  live_denied : SideEffectLevel → Reason
  -- `none` where the source prints the index -1
  rule_approved : Option ℕ → Reason
  workflow_approved : Reason
  approval_missing : Reason → Reason
  workflow_approval_missing : Reason

pub record Decision : Type 0 where
  pub action : Action
  pub decision : DecisionKind
  pub reason : Reason
  pub rule_index : Option ℕ
  pub approval : Option Approval

pub record EvaluationOptions : Type 0 where
  pub approval : Option Approval
  pub requires_approval : Bool

-- `expected === undefined || expected === actual`, on the names.
abbrev pub name_matches : Option String → String → Bool
name_matches none actual = true
name_matches (some expected) actual = expected == actual

abbrev name_of {ℓ} : {A : Type ℓ} → (A → String) → Option A → Option String
name_of f none = none
name_of f (some a) = some (f a)

-- `matches`
unfoldable pub matches : Rule → Action → Bool
matches rule action =
    name_matches (name_of mode_name rule.mode) (mode_name action.mode)
    && name_matches (name_of kind_name rule.adapter_kind) (kind_name action.adapter_kind)
    && name_matches rule.target action.target
    && name_matches (name_of level_name rule.side_effect) (level_name action.side_effect)

abbrev is_read_only : SideEffectLevel → Bool
is_read_only read_only = true
is_read_only _ = false

abbrev default_by : AdapterMode → SideEffectLevel → DecisionKind
default_by recorded e = allow
default_by live e = if is_read_only e then allow else deny

unfoldable pub default_decision : Action → DecisionKind
default_decision action = default_by action.mode action.side_effect

abbrev default_reason : AdapterMode → DecisionKind → SideEffectLevel → Reason
default_reason recorded d e = recorded_permitted
default_reason live allow e = live_read_only
default_reason live d e = live_denied e

-- `this.rules.findIndex(...)` and the rule that it finds.
unfoldable pub find_rule : ℕ → List Rule → Action → Option (ℕ × Rule)
find_rule i [] action = none
find_rule i (rule ∷ rules) action =
    if matches rule action then some (i, rule) else find_rule (suc i) rules action

same_id : List ℕ → List ℕ → Bool
same_id [] [] = true
same_id (c ∷ cs) (d ∷ ds) = c === d && same_id cs ds
same_id _ _ = false

-- The fresh approval, if it is one for this action.
unfoldable pub matching : Option Approval → Action → Option Approval
unfolding same_id
matching none action = none
matching (some a) action = if same_id a.action_id action.id then some a else none

abbrev decide : Action → DecisionKind → Reason → Option ℕ → Option Approval → Decision
decide a d r i p = record { action = a; decision = d; reason = r; rule_index = i; approval = p }

abbrev on_approval : Action → Option Approval → Reason → Reason → Option ℕ → Decision
on_approval action (some a) granted missing i = decide action allow granted i (some a)
on_approval action none granted missing i = decide action require_approval missing i none

-- The part of `evaluate` below the choice of the rule.
abbrev pub evaluate_as : DecisionKind → Reason → Option ℕ → Action → EvaluationOptions → Decision
evaluate_as deny reason i action o = decide action deny reason i none
evaluate_as dry_run reason i action o = decide action dry_run reason i none
evaluate_as allow reason i action o =
    if o.requires_approval
    then on_approval action (matching o.approval action) workflow_approved workflow_approval_missing
        i
    else decide action allow reason i none
evaluate_as require_approval reason i action o =
    on_approval action (matching o.approval action) (rule_approved i) (approval_missing reason) i

abbrev evaluate_found : Option (ℕ × Rule) → Action → EvaluationOptions → Decision
evaluate_found none action o =
    let d = default_decision action in
    evaluate_as d (default_reason action.mode d action.side_effect) none action o
evaluate_found (some (i, rule)) action o =
    evaluate_as rule.decision (rule_selected i rule.decision) (some i) action o

-- `ReplayPolicyEngine.evaluate`
unfoldable pub evaluate : List Rule → Action → EvaluationOptions → Decision
unfolding find_rule default_decision
evaluate rules action o = evaluate_found (find_rule 0 rules action) action o

-- What a call of `execute` does to the world, in order. The audit sink and the operation are the
-- caller's: each returns or throws.
pub data Effect : Type 0 where
  audited : Decision → Effect
  operated : Effect

pub data Outcome {ℓ} (T : Type ℓ) : Type ℓ where
  returned : (decision : Decision) (executed : Bool) (value : Option T) → Outcome T
  threw : Outcome T

module _ {ℓ} {T : Type ℓ} where
  abbrev run_operation : Decision → Option T → List Effect → List Effect × Outcome T
  run_operation d none log = (log ++ operated ∷ [], threw)
  run_operation d (some v) log = (log ++ operated ∷ [], returned d true (some v))

  abbrev execute_allowed :
      DecisionKind → Decision → Option T → List Effect → List Effect × Outcome T
  execute_allowed allow d operation log = run_operation d operation log
  execute_allowed _ d operation log = (log, returned d false none)

  -- `authorize` and `execute`. The sink, where one is configured, answers whether it recorded the
  -- decision; `operation` is what the caller's operation would return, `none` if it would throw.
  unfoldable pub execute :
      List Rule
      → Option (Decision → Bool)
      → Action
      → EvaluationOptions
      → Option T
      → List Effect × Outcome T
  execute rules none action o operation =
      let d = evaluate rules action o in execute_allowed d.decision d operation []
  execute rules (some sink) action o operation =
      let d = evaluate rules action o in
      if sink d
      then execute_allowed d.decision d operation (audited d ∷ [])
      else (audited d ∷ [], threw)
