-- ===== src/Graph/Edges.antt =====
-- What the edges of a projection join (packages/graph/src/index.ts).
use Prim.Native.Nat.{Ordering}
use mathlib.Core.Path.{subst}
use text.Mathlib.TextEquality.{eq_iff}
use agent_loop_snapshot.Prelude.{
  String, ◌≡◌, refl, Bool, true, false, ◌&&◌, Option, some, List, [], ◌∷◌, ◌==◌, if◌then◌else◌,
  includes, get_text, set_text, get_text-here, get_text-there, Option-cases, Bool-cases, inl, inr,
  sym, ◌∙◌, All, All-map, if_elim, arith, sort-All,
}
use agent_loop_snapshot.Schema.Envelope.{Event}
use agent_loop_snapshot.Graph.Grouping.{EventGroup, GraphNode, unique_strings}
use agent_loop_snapshot.Graph.Filter.{
  GraphFilter, ids_of, set_events, node_by_event_id, second, base_of,
}
use agent_loop_snapshot.Graph.Projection.{
  ProjectionKind, causal_dag, call_tree, timeline, EdgeKind, causal, in_time, GraphEdge,
  GraphProjection, edge_key, add_edge, first_only, sort_nodes, nodes_at, add_edges,
  selected_parents, edges_from, causal_edges, neighbours, timeline_edges, project_from,
}

abbrev pub is_causal : EdgeKind → Bool
is_causal causal = true
is_causal in_time = false

abbrev pub Shown : List String → String → Type 0
Shown ids id = includes ids id ≡ true

-- Both ends are shown, and a causal edge joins two different nodes.
abbrev pub Joins : List String → GraphEdge → Type 0
Joins ids e = Shown ids e.from × Shown ids e.to × ((is_causal e.kind && e.from == e.to) ≡ false)

module _ {V : Type 0} (P : V → Type 0) where
  abbrev Values : List (String × V) → Type 0
  Values m = All P (second m)

  set_text-Values :
      (k : String) (v : V) (m : List (String × V)) → P v → Values m → Values (set_text k v m)
  set_text-Values k v [] p h = (p, tt)
  set_text-Values k v ((l, w) ∷ m) p h =
      if_elim Values (l == k) (λ _. (p, h.1)) (λ _. (h.0, set_text-Values k v m p h.1))

  get_text-Values :
      (k : String) (m : List (String × V)) (v : V) → Values m → get_text k m ≡ some v → P v
  get_text-Values k [] v h q = cc
  get_text-Values k ((l, w) ∷ m) v h q = elim (Bool-cases (l == k)) [
    | inl e ↦ let first = get_text-here k l w m e in let same : w ≡ v = cc in subst P same h.0
    | inr e ↦ get_text-Values k m v h.1 (sym (get_text-there k l w m e) ∙ q)
  ]

ids_of-Shown : (ns : List GraphNode) → All (λ n. Shown (ids_of ns) n.id) ns
ids_of-Shown [] = tt
ids_of-Shown (n ∷ ns) = (
  ground (arith, eq_iff n.id n.id),
  All-map (λ m. Shown (ids_of ns) m.id) (λ m. Shown (ids_of (n ∷ ns)) m.id)
      (λ m h. ground (arith, h)) ns (ids_of-Shown ns),
)

module _ (ids : List String) where
  abbrev ShownNode : GraphNode → Type 0
  ShownNode n = Shown ids n.id

  set_events-Shown :
      (es : List Event) (n : GraphNode) (m : List (String × GraphNode))
      → ShownNode n
      → Values ShownNode m
      → Values ShownNode (set_events es n m)
  set_events-Shown [] n m p h = h
  set_events-Shown (e ∷ es) n m p h =
      set_events-Shown es n (set_text e.event_id n m) p
        (set_text-Values ShownNode e.event_id n m p h)

  node_by_event_id-Shown :
      (ns : List (EventGroup × GraphNode)) (m : List (String × GraphNode))
      → Values ShownNode m
      → Values ShownNode (node_by_event_id ids ns m)
  node_by_event_id-Shown [] m h = h
  node_by_event_id-Shown ((g, n) ∷ ns) m h =
      node_by_event_id-Shown ns (if includes ids n.id then set_events g.events n m else m) (
        if_elim (Values ShownNode) (includes ids n.id) (λ p. set_events-Shown g.events n m p h)
          (λ _. h))

  neighbours-Joins : (ns : List GraphNode) → All ShownNode ns → All (Joins ids) (neighbours ns)
  neighbours-Joins [] h = tt
  neighbours-Joins (n ∷ []) h = tt
  neighbours-Joins (n ∷ o ∷ ns) h = ((h.0, h.1.0, refl), neighbours-Joins (o ∷ ns) h.1)

  add_edge-Joins :
      (m : List (String × GraphEdge)) (p n : GraphNode)
      → ShownNode p
      → ShownNode n
      → Values (Joins ids) m
      → Values (Joins ids) (add_edge m p n causal)
  unfolding add_edge
  add_edge-Joins m p n hp hn h =
      if_elim (Values (Joins ids)) (p.id == n.id) (λ _. h)
        (λ differ.
          let e : GraphEdge = record { from = p.id; to = n.id; kind = causal } in
          set_text-Values (Joins ids) (edge_key e) e m (hp, hn, differ) h)

  nodes_at-Shown :
      (m : List (String × GraphNode)) (es : List String)
      → Values ShownNode m
      → All ShownNode (nodes_at m es)
  nodes_at-Shown m [] h = tt
  nodes_at-Shown m (e ∷ es) h =
      let rest = nodes_at-Shown m es h in
      elim (Option-cases (get_text e m)) [
        | inl q ↦ rw (nodes_at, q) rest
        | inr (n, q) ↦ rw (nodes_at, q) (get_text-Values ShownNode e m n h q, rest)
      ]

  add_edges-Joins :
      (ps : List GraphNode) (n : GraphNode) (m : List (String × GraphEdge))
      → All ShownNode ps
      → ShownNode n
      → Values (Joins ids) m
      → Values (Joins ids) (add_edges ps n m)
  add_edges-Joins [] n m hp hn h = h
  add_edges-Joins (p ∷ ps) n m hp hn h =
      add_edges-Joins ps n (add_edge m p n causal) hp.1 hn (add_edge-Joins m p n hp.0 hn h)

  first_only-Shown : (ns : List GraphNode) → All ShownNode ns → All ShownNode (first_only ns)
  first_only-Shown [] h = tt
  first_only-Shown (n ∷ ns) h = (h.0, tt)

module _ (locale_compare : String → String → Ordering) where
  module _ (ids : List String) (as_tree : Bool) (m : List (String × GraphNode)) where
    selected_parents-Shown :
        (n : GraphNode)
        → Values (ShownNode ids) m
        → All (ShownNode ids) (selected_parents locale_compare as_tree m n)
    selected_parents-Shown n h =
        let all = nodes_at m (unique_strings n.parent_event_ids) in
        let shown : All (ShownNode ids) (sort_nodes locale_compare all) =
          sort-All (ShownNode ids) _ all (nodes_at-Shown ids m _ h) in
        if_elim (All (ShownNode ids)) as_tree
          (λ _. first_only-Shown ids (sort_nodes locale_compare all) shown) (λ _. shown)

    edges_from-Joins :
        (ns : List GraphNode) (edges : List (String × GraphEdge))
        → Values (ShownNode ids) m
        → All (ShownNode ids) ns
        → Values (Joins ids) edges
        → Values (Joins ids) (edges_from locale_compare as_tree m ns edges)
    edges_from-Joins [] edges hm hn h = h
    edges_from-Joins (n ∷ ns) edges hm hn h =
        let parents = selected_parents locale_compare as_tree m n in
        edges_from-Joins ns (add_edges parents n edges) hm hn.1
          (add_edges-Joins ids parents n edges (selected_parents-Shown n hm) hn.0 h)

  module _ (groups : List EventGroup) (filter : Option GraphFilter)
      (ns : List (EventGroup × GraphNode)) where
    abbrev shown_nodes : List GraphNode
    shown_nodes = (base_of groups filter ns).nodes

    causal_edges-Joins :
        (as_tree : Bool)
        → All
            (Joins (ids_of shown_nodes))
            (causal_edges locale_compare (base_of groups filter ns) as_tree)
    unfolding causal_edges
    causal_edges-Joins as_tree =
        let ids = ids_of shown_nodes in
        sort-All (Joins ids) _ _ (
          edges_from-Joins ids as_tree (node_by_event_id ids ns []) shown_nodes []
            (node_by_event_id-Shown ids ns [] tt) (ids_of-Shown shown_nodes) tt)

    timeline_edges-Joins :
        (os : List GraphNode) → All (Joins (ids_of os)) (timeline_edges locale_compare os)
    unfolding timeline_edges
    timeline_edges-Joins os =
        neighbours-Joins (ids_of os) (sort_nodes locale_compare os)
          (sort-All (ShownNode (ids_of os)) _ os (ids_of-Shown os))

    pub project_from-Joins :
        (kind : ProjectionKind)
        → let p : GraphProjection = project_from locale_compare (base_of groups filter ns) kind in
          All (Joins (ids_of p.nodes)) p.edges
    project_from-Joins causal_dag = causal_edges-Joins false
    project_from-Joins call_tree = causal_edges-Joins true
    project_from-Joins timeline = timeline_edges-Joins (sort_nodes locale_compare shown_nodes)
