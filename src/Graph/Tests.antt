-- ===== src/Graph/Tests.antt =====
-- Grouping and projections at concrete events.
use Prim.Native.Nat.{Ordering}
use Prim.Native.String.{compare}
use agent_loop_snapshot.Prelude.{String, ◌≡◌, refl, ℕ, true, Option, none, some, List, [], ◌∷◌, All}
use agent_loop_snapshot.Schema.Json.{Json}
use agent_loop_snapshot.Schema.Envelope.{Event, read_only, supplied}
use agent_loop_snapshot.Graph.Grouping.{
  completed, status_for_type, model_stream, group_events, create_node,
}
use agent_loop_snapshot.Graph.Partition.{flatten, IsFolded, group_events_lem}
use agent_loop_snapshot.Graph.Filter.{GraphOptions, ids_of, matches_filter, project_base}
use agent_loop_snapshot.Graph.Projection.{
  causal_dag, causal, GraphEdge, GraphProjection, causal_edges, project_graph,
}
use agent_loop_snapshot.Graph.Edges.{Joins}
use agent_loop_snapshot.Graph.Shown.{Passes, project_graph-Joins}

abbrev typed : String → String → Event
typed id t = record {
  schema_version = "0.2.0";
  run_id = "run";
  event_id = id;
  parent_ids = [];
  sequence = 1;
  event_type = t;
  timestamp = "noon";
  monotonic_offset_ms = 0;
  actor = "agent";
  payload = supplied Json.null;
  security = record { side_effect = read_only; redactions = [] };
}

abbrev stream : List Event
stream = typed "a" "model.delta" ∷ typed "b" "model.chunk" ∷ typed "c" "tool.requested" ∷ []

two_groups :
    group_events stream true
    ≡ (record {
      events = typed "a" "model.delta" ∷ typed "b" "model.chunk" ∷ [];
      fold_kind = some model_stream;
    })
      ∷ (record { events = typed "c" "tool.requested" ∷ []; fold_kind = none })
      ∷ []
unfolding group_events
two_groups = refl

counts_as_completed : status_for_type "verification.completed" ≡ completed
unfolding status_for_type
counts_as_completed = refl

group_events_lem_example :
    (flatten (group_events stream true) ≡ stream) × All IsFolded (group_events stream true)
group_events_lem_example = group_events_lem stream true

abbrev by_code : String → String → Ordering
by_code a b = compare a b

abbrev decimal : ℕ → String
decimal _ = "2"

abbrev child : Event
child = record (typed "c" "tool.requested") { parent_ids = "a" ∷ "b" ∷ [] }

abbrev everything : GraphOptions
everything = record { filter = none; fold_noise = none }

abbrev folded_trace : List Event
folded_trace = typed "a" "model.delta" ∷ typed "b" "model.chunk" ∷ child ∷ []

abbrev edges_of : Option GraphProjection → List GraphEdge
edges_of none = []
edges_of (some p) = p.edges

-- Two parents in one folded node give one edge.
one_edge :
    edges_of (project_graph by_code decimal folded_trace causal_dag everything)
    ≡ (record { from = "group:a"; to = "c"; kind = causal }) ∷ []
unfolding project_graph project_base group_events create_node causal_edges matches_filter
one_edge = refl

project_graph-Joins_example :
    (p : GraphProjection) × (project_graph by_code decimal folded_trace causal_dag everything
      ≡ some p)
    × All (Passes none) p.nodes
    × All (Joins (ids_of p.nodes)) p.edges
project_graph-Joins_example = project_graph-Joins by_code decimal folded_trace causal_dag everything
