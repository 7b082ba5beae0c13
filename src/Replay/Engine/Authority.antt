-- ===== src/Replay/Engine/Authority.antt =====
-- What the policy engine grants, and on whose word (packages/replay/src/policy.ts).
use agent_loop_snapshot.Prelude.{
  ℕ, ◌≡◌, refl, ◌≢◌, ◌↔◌, ◌⊎◌, inl, inr, true, false, Option, none, some, List, [], ◌∷◌, arith,
  Option-cases, is_some,
}
use agent_loop_snapshot.Replay.Policy.{
  AdapterMode, live, recorded, SideEffectLevel, read_only, DecisionKind, allow, deny, dry_run,
  require_approval, Action, Rule, Approval,
}
use agent_loop_snapshot.Replay.Engine.Selection.{
  Settles, Settles-iff, NoneFits, chosen, find_rule_of_NoneFits,
}
use agent_loop_snapshot.Replay.Engine.{
  EvaluationOptions, Reason, workflow_approved, workflow_approval_missing, rule_approved,
  approval_missing, on_approval, default_by, default_reason, find_rule, same_id, matching, evaluate,
  evaluate_as, evaluate_found,
}

-- A fresh approval that names this action.
abbrev pub Approved : EvaluationOptions → Action → Type 0
Approved o action = (a : Approval) × (o.approval ≡ some a) × (a.action_id ≡ action.id)

same_id_iff : (a b : List ℕ) → (same_id a b ≡ true) ↔ (a ≡ b)
unfolding same_id
same_id_iff [] [] = ground arith
same_id_iff [] (d ∷ b) = ground arith
same_id_iff (c ∷ a) [] = ground arith
same_id_iff (c ∷ a) (d ∷ b) = ground (arith, same_id_iff a b)

matching_iff :
    (p : Option Approval) (action : Action) (a : Approval)
    → (matching p action ≡ some a) ↔ ((p ≡ some a) × (a.action_id ≡ action.id))
unfolding matching
matching_iff none action a = ground arith
matching_iff (some q) action a = ground (arith, same_id_iff q.action_id action.id)

Approved-iff :
    (o : EvaluationOptions) (action : Action)
    → (is_some (matching o.approval action) ≡ true) ↔ Approved o action
Approved-iff o action = (
  λ e. elim (Option-cases (matching o.approval action)) [
    | inl missing ↦ cc
    | inr (a, found) ↦
        let (given, same) = (matching_iff o.approval action a).0 found in (a, given, same)
  ],
  λ (a, given, same). rw ((matching_iff o.approval action a).1 (given, same)),
)

on_approval-allow :
    (action : Action) (p : Option Approval) (r r' : Reason) (i : Option ℕ)
    → ((on_approval action p r r' i).decision ≡ allow) ↔ (is_some p ≡ true)
on_approval-allow action none r r' i = ground arith
on_approval-allow action (some a) r r' i = ground arith

evaluate_as_iff :
    (d : DecisionKind) (r : Reason) (i : Option ℕ) (action : Action) (o : EvaluationOptions)
    → ((evaluate_as d r i action o).decision ≡ allow) ↔ (
        ((d ≡ allow) × (o.requires_approval ≡ false))
        ⊎ (((d ≡ allow) ⊎ (d ≡ require_approval)) × (is_some (matching o.approval action) ≡ true)))
evaluate_as_iff deny r i action o = ground arith
evaluate_as_iff dry_run r i action o = ground arith
evaluate_as_iff allow r i action o = ground (
  arith,
  on_approval-allow action (matching o.approval action) workflow_approved workflow_approval_missing
      i,
)
evaluate_as_iff require_approval r i action o = ground (
  arith,
  on_approval-allow action (matching o.approval action) (rule_approved i) (approval_missing r) i,
)

evaluate_chosen :
    (found : Option (ℕ × Rule)) (action : Action) (o : EvaluationOptions)
    → (r : Reason) × (i : Option ℕ) × (evaluate_found found action o
        ≡ evaluate_as (chosen found action) r i action o)
evaluate_chosen none action o = (_, _, refl)
evaluate_chosen (some (i, rule)) action o = (_, _, refl)

-- The four facts of the next theorem put together.
combine :
    {A B C D E F G H : Type 0}
    → (A ↔ ((B × C) ⊎ ((B ⊎ D) × E)))
    → (F ↔ B)
    → (G ↔ D)
    → (E ↔ H)
    → A ↔ ((F × C) ⊎ ((F ⊎ G) × H))
combine a b d h = (
  λ x. elim (a.0 x) [
    | inl (p, c) ↦ inl (b.1 p, c)
    | inr (inl p, e) ↦ inr (inl (b.1 p), h.0 e)
    | inr (inr q, e) ↦ inr (inr (d.1 q), h.0 e)
  ],
  λ y. a.1 (elim y [
    | inl (p, c) ↦ inl (b.0 p, c)
    | inr (inl p, e) ↦ inr (inl (b.0 p), h.1 e)
    | inr (inr q, e) ↦ inr (inr (d.0 q), h.1 e)
  ]),
)

-- What permits an action: the settled decision alone, or with a fresh approval.
abbrev pub Permitted : List Rule → Action → EvaluationOptions → Type 0
Permitted rules action o =
    (Settles rules action allow × (o.requires_approval ≡ false))
    ⊎ ((Settles rules action allow ⊎ Settles rules action require_approval) × Approved o action)

-- An action is allowed exactly when the first rule that fits, or the default where none fits,
-- allows it and the workflow asks for no approval, or when that settles on allowing it or on asking
-- for approval, and a fresh approval names this very action.
pub evaluate_allow_iff :
    (rules : List Rule) (action : Action) (o : EvaluationOptions)
    → ((evaluate rules action o).decision ≡ allow) ↔ Permitted rules action o
unfolding evaluate
evaluate_allow_iff rules action o =
    let (r, i, e) = evaluate_chosen (find_rule 0 rules action) action o in
    rw e (
      combine (evaluate_as_iff _ r i action o) (Settles-iff rules action allow)
        (Settles-iff rules action require_approval) (Approved-iff o action))

-- Where no rule fits, a live action that is more than read-only is denied, whatever approval is
-- supplied.
pub evaluate_default_deny :
    (rules : List Rule) (action : Action) (o : EvaluationOptions)
    → NoneFits action rules
    → action.mode ≡ live
    → action.side_effect ≢ read_only
    → (evaluate rules action o).decision ≡ deny
unfolding evaluate
evaluate_default_deny rules action o n m s =
    rw (find_rule_of_NoneFits 0 rules action n) (denied action.mode action.side_effect m s)
  where
    denied :
        (a : AdapterMode) (e : SideEffectLevel)
        → a ≡ live
        → e ≢ read_only
        → (evaluate_as
            (default_by a e)
            (default_reason a (default_by a e) e)
            none
            action
            o).decision
          ≡ deny
    denied recorded e m' s' = cc
    denied live read_only m' s' = absurd (s' refl)
    denied live _ m' s' = refl
