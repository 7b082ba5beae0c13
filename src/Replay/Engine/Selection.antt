-- ===== src/Replay/Engine/Selection.antt =====
-- The rule that the policy engine selects: the first that fits (packages/replay/src/policy.ts).
use agent_loop_snapshot.Prelude.{
  ℕ, zero, suc, ◌+◌, String, ◌≡◌, refl, ◌↔◌, ◌⊎◌, inl, inr, true, false, Option, none, some, List,
  [], ◌∷◌, arith, eq_iff, Bool-cases, Option-cases, All, ap,
}
use mathlib.Core.Path.{subst}
use agent_loop_snapshot.Replay.Policy.{DecisionKind, Action, Rule, mode_name, kind_name, level_name}
use agent_loop_snapshot.Replay.Policy.Identity.{
  mode_name_injective, kind_name_injective, level_name_injective,
}
use agent_loop_snapshot.Replay.Engine.{name_matches, name_of, matches, default_decision, find_rule}

-- An entry of a rule is left open or names the action's value.
abbrev pub OpenOr {ℓ} : {A : Type ℓ} → Option A → A → Type ℓ
OpenOr o a = (o ≡ none) ⊎ (o ≡ some a)

pub record Fits (rule : Rule) (action : Action) : Type 0 where
  pub mode : OpenOr rule.mode action.mode
  pub adapter_kind : OpenOr rule.adapter_kind action.adapter_kind
  pub target : OpenOr rule.target action.target
  pub side_effect : OpenOr rule.side_effect action.side_effect

name_matches_iff {ℓ} :
    {A : Type ℓ} (name : A → String)
    → ((a b : A) → name a ≡ name b → a ≡ b)
    → (o : Option A) (a : A) → (name_matches (name_of name o) (name a) ≡ true) ↔ OpenOr o a
name_matches_iff name inj none a = (λ _. inl refl, λ _. refl)
name_matches_iff name inj (some b) a =
    (λ e. inr (ap some (inj b a ((eq_iff _ _).0 e))), λ h. (eq_iff _ _).1 (ap name (some_of h)))
  where
    some_of : OpenOr (some b) a → b ≡ a
    some_of (inl e) = cc
    some_of (inr e) = cc

target_matches_iff : (o : Option String) (t : String) → (name_matches o t ≡ true) ↔ OpenOr o t
target_matches_iff none t = ground arith
target_matches_iff (some s) t = ground (arith, eq_iff s t)

matches_iff : (rule : Rule) (action : Action) → (matches rule action ≡ true) ↔ Fits rule action
unfolding matches
matches_iff rule action = ground (
  arith,
  name_matches_iff mode_name mode_name_injective rule.mode action.mode,
  name_matches_iff kind_name kind_name_injective rule.adapter_kind action.adapter_kind,
  target_matches_iff rule.target action.target,
  name_matches_iff level_name level_name_injective rule.side_effect action.side_effect,
)

-- The first rule that fits, with its position.
pub data FirstFit (action : Action) : List Rule → ℕ → Rule → Type 0 where
  here :
      {rule : Rule} {rules : List Rule}
      → Fits rule action
      → FirstFit action (rule ∷ rules) zero rule
  later :
      {rule found : Rule} {rules : List Rule} {i : ℕ}
      → ¬ Fits rule action
      → FirstFit action rules i found
      → FirstFit action (rule ∷ rules) (suc i) found

not-Fits : (rule : Rule) (action : Action) → matches rule action ≡ false → ¬ Fits rule action
not-Fits rule action e f = cc (e, (matches_iff rule action).1 f)

matches_of_not-Fits :
    (rule : Rule) (action : Action) → ¬ Fits rule action → matches rule action ≡ false
matches_of_not-Fits rule action n = elim (Bool-cases (matches rule action)) [
  | inl e ↦ absurd (n ((matches_iff rule action).0 e))
  | inr e ↦ e
]

abbrev pub NoneFits : Action → List Rule → Type 0
NoneFits action = All (λ rule. ¬ Fits rule action)

find_rule-none :
    (k : ℕ) (rules : List Rule) (action : Action)
    → find_rule k rules action ≡ none
    → NoneFits action rules
unfolding find_rule
find_rule-none k [] action e = tt
find_rule-none k (rule ∷ rules) action e = elim (Bool-cases (matches rule action)) [
  | inl m ↦ ground arith
  | inr m ↦ (not-Fits rule action m, find_rule-none (suc k) rules action (ground arith))
]

find_rule-some :
    (k : ℕ) (rules : List Rule) (action : Action) (i : ℕ) (rule : Rule)
    → find_rule k rules action ≡ some (i, rule)
    → (j : ℕ) × (i ≡ k + j) × FirstFit action rules j rule
unfolding find_rule
find_rule-some k [] action i rule e = cc
find_rule-some k (r ∷ rules) action i rule e = elim (Bool-cases (matches r action)) [
  | inl m ↦
      let same : r ≡ rule = ground arith in
      (
        zero,
        ground arith,
        subst (λ x. FirstFit action (r ∷ rules) zero x) same (here ((matches_iff r action).0 m)),
      )
  | inr m ↦
      let (j, e', f) = find_rule-some (suc k) rules action i rule (ground arith) in
      (suc j, omega arith, later (not-Fits r action m) f)
]

find_rule_of_FirstFit :
    {action : Action} (k : ℕ) {rules : List Rule} {j : ℕ} {rule : Rule}
    → FirstFit action rules j rule
    → find_rule k rules action ≡ some (k + j, rule)
unfolding find_rule
find_rule_of_FirstFit {action} k (here {rule} f) = ground (arith, matches_iff rule action)
find_rule_of_FirstFit {action} k (later {rule} {found} {i} n f) =
    ground (arith, matches_of_not-Fits rule action n, find_rule_of_FirstFit (suc k) f)

pub find_rule_of_NoneFits :
    (k : ℕ) (rules : List Rule) (action : Action)
    → NoneFits action rules
    → find_rule k rules action ≡ none
unfolding find_rule
find_rule_of_NoneFits k [] action h = refl
find_rule_of_NoneFits k (rule ∷ rules) action h =
    ground
      (arith, matches_of_not-Fits rule action h.0, find_rule_of_NoneFits (suc k) rules action h.1)

-- What the rules and the default settle for an action, before approvals are looked at.
abbrev pub Settles : List Rule → Action → DecisionKind → Type 0
Settles rules action d =
    ((i : ℕ) × (rule : Rule) × FirstFit action rules i rule × (rule.decision ≡ d))
    ⊎ (NoneFits action rules × (default_decision action ≡ d))

-- The decision of the rule that was found, and the default where none was.
abbrev pub chosen : Option (ℕ × Rule) → Action → DecisionKind
chosen none action = default_decision action
chosen (some (i, rule)) action = rule.decision

pub Settles-iff :
    (rules : List Rule) (action : Action) (d : DecisionKind)
    → Settles rules action d ↔ (chosen (find_rule 0 rules action) action ≡ d)
Settles-iff rules action d = (to, from)
  where
    to : Settles rules action d → chosen (find_rule 0 rules action) action ≡ d
    to (inl (i, rule, f, e)) = rw (find_rule_of_FirstFit 0 f) e
    to (inr (n, e)) = rw (find_rule_of_NoneFits 0 rules action n) e

    from : chosen (find_rule 0 rules action) action ≡ d → Settles rules action d
    from e = elim (Option-cases (find_rule 0 rules action)) [
      | inl missed ↦ inr (find_rule-none 0 rules action missed, ground arith)
      | inr ((i, rule), found) ↦
          let (j, _, f) = find_rule-some 0 rules action i rule found in
          inl (j, rule, f, ground arith)
    ]
