-- ===== src/Replay/Recorded/Tests.antt =====
-- Recorded results at a concrete trace.
use agent_loop_snapshot.Prelude.{String, ◌≡◌, refl, true, some, List, [], ◌∷◌, is_some, All}
use mathlib.Core.List.{Memᴰ}
use agent_loop_snapshot.Schema.Json.{Json, field, end}
use agent_loop_snapshot.Replay.Recorded.Reading.{model, TraceEvent, RecordedRequest, completed}
use agent_loop_snapshot.Replay.Recorded.{CallKey, key_of, create_recorded, lookup}
use agent_loop_snapshot.Replay.Recorded.Source.{OutcomeOf, lookup_source}
use agent_loop_snapshot.Replay.Recorded.Attempts.{IsNumbered, create_recorded-IsNumbered}
use agent_loop_snapshot.Replay.Recorded.Complete.{lookup_complete}

abbrev asks : TraceEvent
asks = record {
  event_id = "q";
  parent_ids = [];
  sequence = 1;
  event_type = "model.requested";
  payload = Json.obj (field "correlation_key" (Json.str "k") (field "model" (Json.str "m") end));
}

abbrev answers : TraceEvent
answers = record {
  event_id = "a";
  parent_ids = "q" ∷ [];
  sequence = 2;
  event_type = "model.completed";
  payload = Json.obj (field "correlation_key" (Json.str "k") (field "output" (Json.bool true) end));
}

abbrev trace : List TraceEvent
trace = answers ∷ asks ∷ []

abbrev first_call : CallKey
first_call = record { kind = model; correlation_key = "k"; attempt = 1 }

finds : lookup (create_recorded trace) first_call ≡ some (completed (Json.bool true))
unfolding lookup create_recorded
finds = refl

no_complaint : (create_recorded trace).diagnostics ≡ []
unfolding create_recorded
no_complaint = refl

lookup_source_example : OutcomeOf (λ e. Memᴰ e trace) first_call (completed (Json.bool true))
lookup_source_example = lookup_source trace first_call (completed (Json.bool true)) finds

lookup_complete_example :
    All
      (λ (e : String × RecordedRequest).
        is_some (lookup (create_recorded trace) (key_of e.1)) ≡ true)
      (create_recorded trace).requests
lookup_complete_example = lookup_complete trace no_complaint

create_recorded-IsNumbered_example : IsNumbered (create_recorded trace)
create_recorded-IsNumbered_example = create_recorded-IsNumbered trace
