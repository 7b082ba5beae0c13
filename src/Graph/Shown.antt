-- ===== src/Graph/Shown.antt =====
-- What a projection shows (packages/graph/src/index.ts).
use Prim.Native.Nat.{Ordering}
use agent_loop_snapshot.Prelude.{
  ℕ, String, ◌≡◌, refl, true, Option, some, List, [], ◌∷◌, is_some, All, keep-true, sort-All,
  Option-cases, inl, inr, keep,
}
use agent_loop_snapshot.Schema.Envelope.{Event}
use agent_loop_snapshot.Graph.Grouping.{EventGroup, GraphNode, group_events, create_node}
use agent_loop_snapshot.Graph.Partition.{create_node_total}
use agent_loop_snapshot.Graph.Filter.{
  GraphFilter, GraphOptions, ids_of, all_nodes, second, base_of, or_true, project_base,
  matches_filter,
}
use agent_loop_snapshot.Graph.Projection.{
  ProjectionKind, causal_dag, call_tree, timeline, GraphProjection, project_from, project_graph,
}
use agent_loop_snapshot.Graph.Edges.{Joins, project_from-Joins}

all_nodes_total :
    (decimal : ℕ → String) (gs : List EventGroup)
    → All (λ g. is_some (create_node decimal g) ≡ true) gs
    → (ns : List (EventGroup × GraphNode)) × (all_nodes decimal gs ≡ some ns)
all_nodes_total decimal [] h = ([], refl)
all_nodes_total decimal (g ∷ gs) h =
    let (ns, rest) = all_nodes_total decimal gs h.1 in
    elim (Option-cases (create_node decimal g)) [
      | inl q ↦ cc h.0
      | inr (n, q) ↦ ((g, n) ∷ ns, rw (all_nodes, q, rest) refl)
    ]

abbrev pub Passes : Option GraphFilter → GraphNode → Type 0
Passes filter n = matches_filter n filter ≡ true

module _ (locale_compare : String → String → Ordering) where
  project_from-Passes :
      (groups : List EventGroup) (filter : Option GraphFilter) (ns : List (EventGroup × GraphNode))
      (kind : ProjectionKind)
      → All (Passes filter) (project_from locale_compare (base_of groups filter ns) kind).nodes
  project_from-Passes groups filter ns causal_dag = keep-true _ (second ns)
  project_from-Passes groups filter ns call_tree = keep-true _ (second ns)
  project_from-Passes groups filter ns timeline =
      sort-All (Passes filter) _ (keep (λ n. matches_filter n filter) (second ns))
        (keep-true _ (second ns))

-- A projection never fails: it returns nodes that all pass the filter, and edges that each join
-- two nodes of the projection, a causal edge two with different ids.
pub project_graph-Joins :
    (locale_compare : String → String → Ordering) (decimal : ℕ → String) (events : List Event)
    (kind : ProjectionKind) (options : GraphOptions)
    → (p : GraphProjection) × (project_graph locale_compare decimal events kind options ≡ some p)
      × All (Passes options.filter) p.nodes
      × All (Joins (ids_of p.nodes)) p.edges
unfolding project_graph project_base
project_graph-Joins locale_compare decimal events kind options =
    let groups = group_events events (or_true options.fold_noise) in
    let (ns, total) =
      all_nodes_total decimal groups
        (create_node_total decimal events (or_true options.fold_noise)) in
    (
      project_from locale_compare (base_of groups options.filter ns) kind,
      rw (project_graph, project_base, total) refl,
      project_from-Passes locale_compare groups options.filter ns kind,
      project_from-Joins locale_compare groups options.filter ns kind,
    )
