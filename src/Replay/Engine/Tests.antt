-- ===== src/Replay/Engine/Tests.antt =====
-- The policy engine at concrete rules.
use agent_loop_snapshot.Prelude.{
  ℕ, ◌≡◌, refl, ◌↔◌, ◌⊎◌, Bool, true, false, Option, none, some, List, [], ◌∷◌,
}
use agent_loop_snapshot.Replay.Policy.{
  live, tool, external_write, allow, require_approval, Action, Rule,
}
use agent_loop_snapshot.Replay.Engine.{
  EvaluationOptions, Decision, evaluate, execute, matches, matching, audited, operated,
}
use agent_loop_snapshot.Replay.Engine.Authority.{Permitted, evaluate_allow_iff}
use agent_loop_snapshot.Replay.Engine.Execution.{execute_safe, execute_audited, Ran}

abbrev send_mail : Action
send_mail = record {
  input = record {
    mode = live;
    adapter_kind = tool;
    target = "mail";
    side_effect = external_write;
    correlation_key = "k";
    attempt = 1;
  };
  id = 1 ∷ 2 ∷ [];
}

abbrev ask_for_tools : Rule
ask_for_tools = record {
  decision = require_approval;
  mode = none;
  adapter_kind = some tool;
  target = none;
  side_effect = none;
}

abbrev approved : List ℕ → EvaluationOptions
approved id = record {
  approval = some (record { action_id = id; approved_by = "ann"; approved_at = "now" });
  requires_approval = false;
}

abbrev record_all : Option (Decision → Bool)
record_all = some (λ _. true)

abbrev five : Option ℕ
five = some 5

runs_when_approved :
    Ran (execute (ask_for_tools ∷ []) record_all send_mail (approved (1 ∷ 2 ∷ [])) five).0
unfolding execute evaluate matches matching
runs_when_approved = refl

other_approval :
    (evaluate (ask_for_tools ∷ []) send_mail (approved (1 ∷ 3 ∷ []))).decision ≡ require_approval
unfolding evaluate matches matching
other_approval = refl

evaluate_allow_iff_example :
    ((evaluate (ask_for_tools ∷ []) send_mail (approved (1 ∷ 2 ∷ []))).decision ≡ allow)
    ↔ Permitted (ask_for_tools ∷ []) send_mail (approved (1 ∷ 2 ∷ []))
evaluate_allow_iff_example =
    evaluate_allow_iff (ask_for_tools ∷ []) send_mail (approved (1 ∷ 2 ∷ []))

execute_safe_example : Permitted (ask_for_tools ∷ []) send_mail (approved (1 ∷ 2 ∷ []))
execute_safe_example =
    execute_safe (ask_for_tools ∷ []) record_all send_mail (approved (1 ∷ 2 ∷ [])) five
      runs_when_approved

execute_audited_example :
    ((execute (ask_for_tools ∷ []) (some (λ _. true)) send_mail (approved (1 ∷ 2 ∷ [])) five).0
      ≡ audited (evaluate (ask_for_tools ∷ []) send_mail (approved (1 ∷ 2 ∷ []))) ∷ [])
    ⊎ (((execute (ask_for_tools ∷ []) (some (λ _. true)) send_mail (approved (1 ∷ 2 ∷ [])) five).0
          ≡ audited (evaluate (ask_for_tools ∷ []) send_mail (approved (1 ∷ 2 ∷ [])))
            ∷ operated
            ∷ [])
        × ((evaluate (ask_for_tools ∷ []) send_mail (approved (1 ∷ 2 ∷ []))).decision ≡ allow)
        × (◌≡◌ {A = Bool} true true))
execute_audited_example =
    execute_audited (ask_for_tools ∷ []) (λ _. true) send_mail (approved (1 ∷ 2 ∷ [])) five
