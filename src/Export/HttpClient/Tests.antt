-- ===== src/Export/HttpClient/Tests.antt =====
-- The sender at concrete answers.
use agent_loop_snapshot.Prelude.{
  ℕ, zero, suc, ◌≤◌, max, String, ◌≡◌, refl, true, false, Option, none, some, [], ◌∷◌, ◌==◌,
  if◌then◌else◌,
}
use agent_loop_snapshot.Export.HttpClient.{
  Attempt, HttpConfig, Fetched, response, threw, blank, accepted, send, send_loop, request, report,
  parse_success, retryable_status,
}
use agent_loop_snapshot.Export.HttpClient.Target.{
  Url, TargetConfig, ResolvedTarget, resolve_target, IsSafe, resolve_target-IsSafe,
}
use agent_loop_snapshot.Export.HttpClient.Delivery.{RepeatedBefore, Truthful, send-Truthful}

abbrev answering : Fetched → Attempt
answering f = record {
  aborted_before = false;
  resolved = true;
  fetched = f;
  aborted = false;
  timed_out = false;
  elapsed = 10;
  jittered = λ ms. ms;
  slept = true;
}

-- The collector is busy, then the connection breaks, then it accepts.
abbrev world : ℕ → Attempt
world zero = answering (response 503 blank (some 20))
world (suc zero) = answering threw
world _ = answering (response 200 blank none)

abbrev three_attempts : HttpConfig
three_attempts = record { target_alias = "t"; max_attempts = 3; retry_budget_ms = 1000 }

abbrev no_number : String → ℕ
no_number _ = 0

third_time : send no_number three_attempts 5 world ≡ record {
  state = accepted;
  target_alias = "t";
  attempted = true;
  accepted_span_count = 5;
  rejected_span_count = 0;
  attempts = 3;
  retry_after_ms = none;
}
unfolding send send_loop request report parse_success retryable_status
third_time = refl

send-Truthful_example :
    let r = send no_number three_attempts 5 world in
    (r.attempts ≤ max 1 3)
    × RepeatedBefore no_number three_attempts 5 world 0 r.attempts
    × Truthful no_number three_attempts 5 world r
send-Truthful_example = send-Truthful no_number three_attempts 5 world

abbrev environment : String → Option String
environment v = if v == "TOKEN" then some "secret" else none

abbrev parse_url : String → Option Url
parse_url v = some (record { username = ""; password = ""; protocol = "https:"; hostname = v })

abbrev collector : TargetConfig
collector = record {
  endpoint = some "collector";
  endpoint_env = none;
  headers_env = ("Authorization", "TOKEN") ∷ [];
}

abbrev the_target : ResolvedTarget
the_target = record {
  endpoint = record { username = ""; password = ""; protocol = "https:"; hostname = "collector" };
  headers =
      ("Accept", "application/json")
      ∷ ("Content-Type", "application/json")
      ∷ ("User-Agent", "agent-loop-snapshot-otel-export/1.0")
      ∷ ("Authorization", "secret")
      ∷ [];
}

is_resolved : resolve_target environment parse_url (λ _ _. true) collector ≡ some the_target
unfolding resolve_target
is_resolved = refl

resolve_target-IsSafe_example : IsSafe the_target.endpoint
resolve_target-IsSafe_example =
    resolve_target-IsSafe environment parse_url (λ _ _. true) collector the_target is_resolved
