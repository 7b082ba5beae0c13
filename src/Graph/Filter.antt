-- ===== src/Graph/Filter.antt =====
-- packages/graph/src/index.ts: the filter, and the nodes that a projection shows.
use agent_loop_snapshot.Prelude.{
  ℕ, String, Bool, true, false, ◌&&◌, Option, none, some, List, [], ◌∷◌, map, ◌==◌, leb,
  if◌then◌else◌, includes, any, keep, set_text,
}
use agent_loop_snapshot.Schema.Envelope.{Event}
use agent_loop_snapshot.Graph.Grouping.{
  NodeStatus, started, completed, failed, changed, recorded, checkpointed, verified, unknown,
  EventGroup, GraphNode, group_events, create_node,
}

-- A value or a list of values.
pub data Expected (A : Type 0) : Type 0 where
  only : A → Expected A
  one_of : List A → Expected A

pub record GraphFilter : Type 0 where
  pub actor : Option (Expected String)
  pub event_type : Option (Expected String)
  pub status : Option (Expected NodeStatus)
  pub min_sequence : Option ℕ
  pub max_sequence : Option ℕ

pub record GraphOptions : Type 0 where
  pub filter : Option GraphFilter
  pub fold_noise : Option Bool

abbrev same_status : NodeStatus → NodeStatus → Bool
same_status started started = true
same_status completed completed = true
same_status failed failed = true
same_status changed changed = true
same_status recorded recorded = true
same_status checkpointed checkpointed = true
same_status verified verified = true
same_status unknown unknown = true
same_status _ _ = false

-- `valuesMatch`
abbrev values_match : {A : Type 0} → (A → A → Bool) → A → Option (Expected A) → Bool
values_match same a none = true
values_match same a (some (only b)) = same a b
values_match same a (some (one_of bs)) = any (same a) bs

abbrev at_least : ℕ → Option ℕ → Bool
at_least n none = true
at_least n (some low) = leb low n

abbrev at_most : ℕ → Option ℕ → Bool
at_most n none = true
at_most n (some high) = leb n high

abbrev types_match : List String → Option (Expected String) → Bool
types_match types none = true
types_match types (some e) = any (λ t. values_match (λ a b. a == b) t (some e)) types

-- `matchesFilter`
unfoldable pub matches_filter : GraphNode → Option GraphFilter → Bool
matches_filter n none = true
matches_filter n (some f) =
    values_match (λ a b. a == b) n.actor f.actor
    && types_match n.types f.event_type
    && values_match same_status n.status f.status
    && at_least n.sequence_end f.min_sequence
    && at_most n.sequence f.max_sequence

abbrev pub ids_of : List GraphNode → List String
ids_of ns = map (λ (n : GraphNode). n.id) ns

-- The nodes of all groups, or the exception of `createNode`.
abbrev pub all_nodes : (ℕ → String) → List EventGroup → Option (List (EventGroup × GraphNode))
all_nodes decimal [] = some []
all_nodes decimal (g ∷ gs) = elim (create_node decimal g) [
  | none ↦ none
  | some n ↦ elim (all_nodes decimal gs) [ none ↦ none | some ns ↦ some ((g, n) ∷ ns) ]
]

abbrev pub set_events :
    List Event → GraphNode → List (String × GraphNode) → List (String × GraphNode)
set_events [] n m = m
set_events (e ∷ es) n m = set_events es n (set_text e.event_id n m)

-- `nodeByEventId`: the node of an event, of the groups whose node is visible.
abbrev pub node_by_event_id :
    List String
    → List (EventGroup × GraphNode)
    → List (String × GraphNode)
    → List (String × GraphNode)
node_by_event_id visible [] m = m
node_by_event_id visible ((g, n) ∷ ns) m =
    node_by_event_id visible ns (if includes visible n.id then set_events g.events n m else m)

pub record ProjectedGraph : Type 0 where
  pub groups : List EventGroup
  pub nodes : List GraphNode
  pub by_event_id : List (String × GraphNode)

abbrev pub second : {A B : Type 0} → List (A × B) → List B
second [] = []
second ((a, b) ∷ ps) = b ∷ second ps

abbrev pub base_of :
    List EventGroup → Option GraphFilter → List (EventGroup × GraphNode) → ProjectedGraph
base_of groups filter ns =
    let nodes = keep (λ n. matches_filter n filter) (second ns) in
    record { groups = groups; nodes = nodes; by_event_id = node_by_event_id (ids_of nodes) ns [] }

abbrev pub or_true : Option Bool → Bool
or_true none = true
or_true (some b) = b

-- `projectBase`; `none` is the exception of `createNode`.
unfoldable pub project_base : (ℕ → String) → List Event → GraphOptions → Option ProjectedGraph
unfolding group_events
project_base decimal events options =
    let groups = group_events events (or_true options.fold_noise) in
    elim (all_nodes decimal groups) [
      | none ↦ none
      | some ns ↦ some (base_of groups options.filter ns)
    ]
