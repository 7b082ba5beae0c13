-- ===== src/Trace/Tests.antt =====
-- Runs of the trace loader.
use agent_loop_snapshot.Prelude.{
  ℕ, ◌+◌, String, ◌≡◌, ◌≢◌, ◌↔◌, refl, false, Option, some, none, true, List, [], ◌∷◌, eq_iff,
  codes, keep, ◌==◌, ◌===◌, if◌then◌else◌,
}
use mathlib.Core.List.{Memᴰ}
use agent_loop_snapshot.Schema.Json.{finite, num, str, obj, Fields, end, field}
use agent_loop_snapshot.Trace.Diagnostic.{key}
use agent_loop_snapshot.Trace.Artifacts.{
  References, ArtifactMetadata, collect, collect_items, collect_fields, read_artifact, bytes,
}
use agent_loop_snapshot.Trace.Reading.{IsTrusted, read_artifact-IsTrusted}
use agent_loop_snapshot.Trace.Index.{LoadedEvent, build_indexes}
use agent_loop_snapshot.Trace.Structure.{
  Indegrees, in_cycle, sort_out, positives, enough, count_parents, first_ready,
}
use agent_loop_snapshot.Trace.Query.{EventQuery, find_events}
use agent_loop_snapshot.Trace.Lines.{Text, trusted, read_jsonl_file}
use agent_loop_snapshot.Trace.Waiting.{Distinct}
use agent_loop_snapshot.Trace.Sorting.{Grounded}
use agent_loop_snapshot.Trace.Cycles.{in_cycle_iff, sort_out_total}
use agent_loop_snapshot.Trace.Lookups.{matches_query, find_events_lem}
use agent_loop_snapshot.Trace.Chunks.{read_jsonl_file-joined}

abbrev event : String → List String → LoadedEvent
event id parents = record {
  event_id = id;
  parent_ids = parents;
  sequence = 1;
  event_type = "state.changed";
  timestamp = "2024-01-01T00:00:00.000Z";
  actor = "agent";
}

abbrev looped : LoadedEvent
looped = event "b" ("a" ∷ "c" ∷ [])

-- `b` and `c` are each other's parents, and `d` descends from them.
abbrev trace : List LoadedEvent
trace = event "a" [] ∷ looped ∷ event "c" ("b" ∷ []) ∷ event "d" ("c" ∷ "missing" ∷ []) ∷ []

cycle_test :
    in_cycle (build_indexes trace) trace
    ≡ looped ∷ event "c" ("b" ∷ []) ∷ event "d" ("c" ∷ "missing" ∷ []) ∷ []
unfolding in_cycle build_indexes
cycle_test = refl

differ_by : (a b : String) → (a == b) ≡ false → a ≢ b
differ_by a b h e = let same = (eq_iff a b).1 e in cc (h, same)

trace-Distinct : Distinct trace
trace-Distinct = (
  (differ_by "b" "a" refl, (differ_by "c" "a" refl, (differ_by "d" "a" refl, tt))),
  (
    (differ_by "c" "b" refl, (differ_by "d" "b" refl, tt)),
    ((differ_by "d" "c" refl, tt), (tt, tt)),
  ),
)

in_cycle_iff_example :
    Memᴰ looped (in_cycle (build_indexes trace) trace) ↔ (¬ Grounded trace looped)
in_cycle_iff_example = in_cycle_iff trace looped trace-Distinct (Memᴰ.tail (Memᴰ.head refl))

sort_out_total_example :
    (r : Indegrees × ℕ) × (sort_out (build_indexes trace) trace ≡ some r)
    × (r.1 + positives (build_indexes trace) r.0
        ≡ enough (build_indexes trace) (count_parents (build_indexes trace) trace []) (
            first_ready (build_indexes trace) trace (count_parents (build_indexes trace) trace [])))
sort_out_total_example = sort_out_total (build_indexes trace) trace

abbrev by_agent : EventQuery
by_agent = record {
  actor = some "agent";
  event_type = none;
  min_sequence = some 1;
  max_sequence = none;
  after = some "2023";
  before = none;
}

query_test : find_events trace (build_indexes trace) none by_agent ≡ trace
unfolding find_events build_indexes
query_test = refl

find_events_lem_example :
    find_events trace (build_indexes trace) none by_agent ≡ keep (matches_query by_agent) trace
find_events_lem_example = find_events_lem trace none by_agent

-- Takes every line that does not begin with `x` as a value.
abbrev parse : Text → Option Text
parse [] = none
parse (c ∷ cs) = if c === 120 then none else some (c ∷ cs)

read_jsonl_file-joined_example :
    read_jsonl_file parse (trusted 9) 64 (codes "ab\nx" ∷ codes "\ncd" ∷ []) false
    ≡ read_jsonl_file parse (trusted 9) 64 (codes "ab\nx\ncd" ∷ []) false
read_jsonl_file-joined_example =
    read_jsonl_file-joined parse (trusted 9) 64 (codes "ab\nx" ∷ codes "\ncd" ∷ [])
      (codes "ab\nx\ncd" ∷ []) false refl

abbrev digits : String
digits = "0123456789abcdef0123456789abcdef0123456789abcdef0123456789abcdef"

abbrev one_reference : Fields
one_reference = field "schema_version" (str "0.2.0") (
    field "digest" (str digits)
      (field "media_type" (str "text/plain") (field "byte_length" (num (finite false 2 0)) end)))

abbrev references : References
references =
    (
      digits,
      record {
        path = key "payload" ∷ [];
        reference = record {
          digest = digits;
          media_type = "text/plain";
          byte_length = finite false 2 0;
          preview = none;
        };
      }
          ∷ [],
    )
    ∷ []

collect_test : collect (obj (field "payload" (obj one_reference) end)) [] [] ≡ references
unfolding collect collect_items collect_fields
collect_test = refl

abbrev metadata : ArtifactMetadata
metadata = record {
  digest = digits;
  exists = true;
  actual_byte_length = some 2;
  media_types = "text/plain" ∷ [];
  previews = [];
}

abbrev hash : List ℕ → String
hash _ = digits

read_test :
    read_artifact hash 16
      ((digits, metadata) ∷ [])
      references
      (trusted 2)
      (some (7 ∷ 8 ∷ []))
      digits
    ≡ bytes (7 ∷ 8 ∷ [])
unfolding read_artifact
read_test = refl

read_artifact-IsTrusted_example :
    IsTrusted hash 16 ((digits, metadata) ∷ []) references (trusted 2) digits (7 ∷ 8 ∷ [])
read_artifact-IsTrusted_example =
    read_artifact-IsTrusted hash 16 ((digits, metadata) ∷ []) references digits (7 ∷ 8 ∷ [])
      (trusted 2) (some (7 ∷ 8 ∷ [])) read_test
