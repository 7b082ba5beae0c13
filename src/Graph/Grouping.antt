-- ===== src/Graph/Grouping.antt =====
-- packages/graph/src/index.ts: the status of an event type, the grouping of events, and the node
-- of a group.
use Prim.Native.String
use agent_loop_snapshot.Prelude.{
  ℕ, String, Bool, true, false, ◌&&◌, ◌||◌, Option, none, some, List, [], ◌∷◌, ◌++◌, map, ◌==◌,
  ◌===◌, if◌then◌else◌, codes, includes, any, last?, length,
}
use agent_loop_snapshot.Schema.Envelope.{Event}

pub data NodeStatus : Type 0 where
  started completed failed changed recorded checkpointed verified unknown : NodeStatus

pub data FoldKind : Type 0 where
  model_stream low_level : FoldKind

pub record EventGroup : Type 0 where
  pub events : List Event
  pub fold_kind : Option FoldKind

pub record GraphNode : Type 0 where
  pub id : String
  pub event_id : String
  pub event_ids : List String
  pub sequence : ℕ
  pub sequence_end : ℕ
  pub timestamp : String
  pub timestamp_end : String
  pub actor : String
  pub actors : List String
  pub event_type : String
  pub types : List String
  pub status : NodeStatus
  pub label : String
  pub parent_event_ids : List String
  pub folded : Bool

abbrev pub starts_with : List ℕ → List ℕ → Bool
starts_with cs [] = true
starts_with [] (d ∷ ds) = false
starts_with (c ∷ cs) (d ∷ ds) = c === d && starts_with cs ds

abbrev pub same_codes : List ℕ → List ℕ → Bool
same_codes [] [] = true
same_codes (c ∷ cs) (d ∷ ds) = c === d && same_codes cs ds
same_codes _ _ = false

-- `String.prototype.endsWith`
abbrev pub ends_with : List ℕ → List ℕ → Bool
ends_with [] ds = same_codes [] ds
ends_with (c ∷ cs) ds = same_codes (c ∷ cs) ds || ends_with cs ds

abbrev pub contains : List ℕ → List ℕ → Bool
contains [] ds = starts_with [] ds
contains (c ∷ cs) ds = starts_with (c ∷ cs) ds || contains cs ds

-- `statusForType`
unfoldable pub status_for_type : String → NodeStatus
status_for_type t =
    if ends_with (codes t) (codes ".failed") || t == "run.failed"
    then failed
    else if ends_with (codes t) (codes ".completed") || t == "run.completed"
    then completed
    else if t == "state.changed"
    then changed
    else if t == "decision.recorded"
    then recorded
    else if t == "checkpoint.created"
    then checkpointed
    else if t == "verification.completed"
    then verified
    else if ends_with (codes t) (codes ".requested") || t == "run.started"
    then started
    else unknown

abbrev is_failed : NodeStatus → Bool
is_failed failed = true
is_failed _ = false

abbrev is_completed : NodeStatus → Bool
is_completed completed = true
is_completed _ = false

abbrev first_status : List NodeStatus → NodeStatus
first_status [] = unknown
first_status (s ∷ _) = s

-- `aggregateStatus`
unfoldable pub aggregate_status : List Event → NodeStatus
unfolding status_for_type
aggregate_status es =
    let statuses = map (λ (e : Event). status_for_type e.event_type) es in
    if any is_failed statuses
    then failed
    else if any is_completed statuses
    then completed
    else first_status statuses

-- `foldKind`, its two regular expressions written out.
unfoldable pub fold_kind_of : String → Option FoldKind
fold_kind_of t =
    if starts_with (codes t) (codes "model.")
      && any (λ w. contains (codes t) (codes w))
          ("delta" ∷ "stream" ∷ "chunk" ∷ "token" ∷ "partial" ∷ "segment" ∷ [])
    then some model_stream
    else if any (λ w. starts_with (codes t) (codes w))
        ("span." ∷ "telemetry." ∷ "trace." ∷ "log." ∷ "debug." ∷ "internal." ∷ "stream." ∷ [])
    then some low_level
    else none

abbrev pub same_fold : Option FoldKind → Option FoldKind → Bool
same_fold (some model_stream) (some model_stream) = true
same_fold (some low_level) (some low_level) = true
same_fold _ _ = false

abbrev pub new_group : Event → Option FoldKind → EventGroup
new_group e kind = record { events = e ∷ []; fold_kind = kind }

-- One event of the loop of `groupEvents`: the last group takes it if both have the same fold kind.
abbrev pub add_to_groups : List EventGroup → Event → Option FoldKind → List EventGroup
add_to_groups [] e kind = new_group e kind ∷ []
add_to_groups (g ∷ []) e kind =
    if same_fold kind g.fold_kind
    then (record g { events = g.events ++ e ∷ [] }) ∷ []
    else g ∷ new_group e kind ∷ []
add_to_groups (g ∷ h ∷ gs) e kind = g ∷ add_to_groups (h ∷ gs) e kind

abbrev pub group_from : Bool → List EventGroup → List Event → List EventGroup
group_from fold groups [] = groups
group_from fold groups (e ∷ es) =
    group_from fold (add_to_groups groups e (if fold then fold_kind_of e.event_type else none)) es

-- `groupEvents`
unfoldable pub group_events : List Event → Bool → List EventGroup
unfolding fold_kind_of
group_events events should_fold = group_from should_fold [] events

abbrev add_unique : List String → List String → List String
add_unique seen [] = seen
add_unique seen (v ∷ vs) = add_unique (if includes seen v then seen else seen ++ v ∷ []) vs

-- `uniqueStrings`
unfoldable pub unique_strings : List String → List String
unique_strings = add_unique []

abbrev all_parents : List Event → List String
all_parents [] = []
all_parents (e ∷ es) = e.parent_ids ++ all_parents es

abbrev one_or_multiple : List String → String
one_or_multiple (v ∷ []) = v
one_or_multiple _ = "multiple"

abbrev is_longer_than_one : List Event → Bool
is_longer_than_one (_ ∷ _ ∷ _) = true
is_longer_than_one _ = false

abbrev fold_label : Option FoldKind → String
fold_label (some model_stream) = "model stream"
fold_label _ = "low-level events"

abbrev group_id : String → String
group_id id = String.◌++◌ "group:" id

-- `String` of a number.
module _ (decimal : ℕ → String) where
  abbrev group_label : Option FoldKind → ℕ → String
  group_label kind n =
      String.◌++◌ (fold_label kind) (String.◌++◌ " (" (String.◌++◌ (decimal n) ")"))

  abbrev node_of : EventGroup → Event → Event → GraphNode
  node_of g first last =
      let folded = is_longer_than_one g.events in
      let types = unique_strings (map (λ (e : Event). e.event_type) g.events) in
      let actors = unique_strings (map (λ (e : Event). e.actor) g.events) in
      record {
        id = if folded then group_id first.event_id else first.event_id;
        event_id = first.event_id;
        event_ids = map (λ (e : Event). e.event_id) g.events;
        sequence = first.sequence;
        sequence_end = last.sequence;
        timestamp = first.timestamp;
        timestamp_end = last.timestamp;
        actor = one_or_multiple actors;
        actors = actors;
        event_type = one_or_multiple types;
        types = types;
        status = aggregate_status g.events;
        label = if folded then group_label g.fold_kind (length g.events) else first.event_type;
        parent_event_ids = unique_strings (all_parents g.events);
        folded = folded;
      }

  abbrev node_between : EventGroup → Option Event → Option Event → Option GraphNode
  node_between g (some first) (some last) = some (node_of g first last)
  node_between g _ _ = none

  abbrev first_of : List Event → Option Event
  first_of [] = none
  first_of (e ∷ _) = some e

  -- `createNode`; `none` is its exception.
  unfoldable pub create_node : EventGroup → Option GraphNode
  unfolding aggregate_status unique_strings
  create_node g = node_between g (first_of g.events) (last? g.events)
