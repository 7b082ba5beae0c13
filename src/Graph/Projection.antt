-- ===== src/Graph/Projection.antt =====
-- packages/graph/src/index.ts: the edges and the projections.
use Prim.Native.String
use Prim.Native.Nat.{Ordering, compare}
use agent_loop_snapshot.Prelude.{
  ℕ, String, Bool, true, false, Option, none, some, List, [], ◌∷◌, ◌==◌, if◌then◌else◌, get_text,
  set_text, sort,
}
use agent_loop_snapshot.Schema.Envelope.{Event}
use agent_loop_snapshot.Graph.Grouping.{GraphNode, unique_strings}
use agent_loop_snapshot.Graph.Filter.{GraphOptions, ProjectedGraph, project_base, second}

pub data ProjectionKind : Type 0 where
  causal_dag call_tree timeline : ProjectionKind

pub data EdgeKind : Type 0 where
  causal in_time : EdgeKind

pub record GraphEdge : Type 0 where
  pub from : String
  pub to : String
  pub kind : EdgeKind

pub record GraphProjection : Type 0 where
  pub kind : ProjectionKind
  pub nodes : List GraphNode
  pub edges : List GraphEdge

abbrev kind_text : EdgeKind → String
kind_text causal = "causal"
kind_text in_time = "timeline"

abbrev pub edge_key : GraphEdge → String
edge_key e =
    String.◌++◌ (kind_text e.kind) (String.◌++◌ ":" (String.◌++◌ e.from (String.◌++◌ "\0" e.to)))

-- `addEdge`, of two nodes that are there.
unfoldable pub add_edge :
    List (String × GraphEdge) → GraphNode → GraphNode → EdgeKind → List (String × GraphEdge)
add_edge edges from to kind =
    if from.id == to.id
    then edges
    else let e : GraphEdge = record { from = from.id; to = to.id; kind = kind } in
      set_text (edge_key e) e edges

-- `parents.slice(0, 1)`
abbrev pub first_only : List GraphNode → List GraphNode
first_only [] = []
first_only (n ∷ ns) = n ∷ []

abbrev or_else : Ordering → Ordering → Ordering
or_else Ordering.eq o = o
or_else o _ = o

abbrev not_after : Ordering → Bool
not_after Ordering.gt = false
not_after _ = true

abbrev pub nodes_at : List (String × GraphNode) → List String → List GraphNode
nodes_at m [] = []
nodes_at m (id ∷ ids) = elim (get_text id m) [ none ↦ nodes_at m ids | some n ↦ n ∷ nodes_at m ids ]

abbrev pub add_edges :
    List GraphNode → GraphNode → List (String × GraphEdge) → List (String × GraphEdge)
add_edges [] n edges = edges
add_edges (p ∷ ps) n edges = add_edges ps n (add_edge edges p n causal)

abbrev pub neighbours : List GraphNode → List GraphEdge
neighbours [] = []
neighbours (n ∷ []) = []
neighbours (n ∷ o ∷ ns) = (record { from = n.id; to = o.id; kind = in_time }) ∷ neighbours (o ∷ ns)

-- `String.prototype.localeCompare`
module _ (locale_compare : String → String → Ordering) where
  -- `compareNodes`
  abbrev pub compare_nodes : GraphNode → GraphNode → Ordering
  compare_nodes left right =
      or_else (locale_compare left.timestamp right.timestamp)
        (or_else (compare left.sequence right.sequence) (locale_compare left.id right.id))

  abbrev pub sort_nodes : List GraphNode → List GraphNode
  sort_nodes = sort (λ a b. not_after (compare_nodes a b))

  abbrev compare_edges : GraphEdge → GraphEdge → Ordering
  compare_edges left right =
      or_else (locale_compare left.from right.from) (locale_compare left.to right.to)

  abbrev pub selected_parents : Bool → List (String × GraphNode) → GraphNode → List GraphNode
  selected_parents as_tree m n =
      let parents = sort_nodes (nodes_at m (unique_strings n.parent_event_ids)) in
      if as_tree then first_only parents else parents

  abbrev pub edges_from :
      Bool
      → List (String × GraphNode)
      → List GraphNode
      → List (String × GraphEdge)
      → List (String × GraphEdge)
  edges_from as_tree m [] edges = edges
  edges_from as_tree m (n ∷ ns) edges =
      edges_from as_tree m ns (add_edges (selected_parents as_tree m n) n edges)

  -- `causalEdges`; its mode as a Boolean.
  unfoldable pub causal_edges : ProjectedGraph → Bool → List GraphEdge
  unfolding add_edge unique_strings
  causal_edges base as_tree =
      sort (λ a b. not_after (compare_edges a b))
        (second (edges_from as_tree base.by_event_id base.nodes []))

  -- `timelineEdges`
  unfoldable pub timeline_edges : List GraphNode → List GraphEdge
  timeline_edges ns = neighbours (sort_nodes ns)

  abbrev pub project_from : ProjectedGraph → ProjectionKind → GraphProjection
  project_from base causal_dag = record {
    kind = causal_dag;
    nodes = base.nodes;
    edges = causal_edges base false;
  }
  project_from base call_tree = record {
    kind = call_tree;
    nodes = base.nodes;
    edges = causal_edges base true;
  }
  project_from base timeline =
      let nodes = sort_nodes base.nodes in
      record { kind = timeline; nodes = nodes; edges = timeline_edges nodes }

  -- `project`, behind `projectGraph` and its three special cases.
  unfoldable pub project_graph :
      (ℕ → String) → List Event → ProjectionKind → GraphOptions → Option GraphProjection
  unfolding project_base
  project_graph decimal events kind options = elim (project_base decimal events options) [
    | none ↦ none
    | some base ↦ some (project_from base kind)
  ]
