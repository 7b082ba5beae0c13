-- ===== src/Trace/Index.antt =====
-- The indexes of a loaded snapshot (packages/trace/src/index.ts).
use agent_loop_snapshot.Prelude.{
  ℕ, ◌+◌, String, none, some, List, [], ◌∷◌, ◌++◌, if◌then◌else◌, is_some, get_text, set_text,
}

-- What the indexes and queries read of an event envelope.
pub record LoadedEvent : Type 0 where
  pub event_id : String
  pub parent_ids : List String
  pub sequence : ℕ
  pub event_type : String
  pub timestamp : String
  pub actor : String

-- `TraceIndexes`
pub record Indexes : Type 0 where
  pub event_by_id : List (String × LoadedEvent)
  pub children_by_id : List (String × List LoadedEvent)
  pub events_by_actor : List (String × List LoadedEvent)
  pub events_by_type : List (String × List LoadedEvent)
  pub event_line_by_id : List (String × ℕ)

-- `map.get(key) ?? []`
abbrev pub get_list : String → List (String × List LoadedEvent) → List LoadedEvent
get_list k m = elim (get_text k m) [ none ↦ [] | some es ↦ es ]

abbrev pub add_to :
    String → LoadedEvent → List (String × List LoadedEvent) → List (String × List LoadedEvent)
add_to k e m = set_text k (get_list k m ++ e ∷ []) m

abbrev pub add_child :
    LoadedEvent → List String → List (String × List LoadedEvent) → List (String × List LoadedEvent)
add_child e [] m = m
add_child e (p ∷ ps) m = add_child e ps (add_to p e m)

-- The first event of an identity stays.
abbrev pub set_first : {V : Type 0} → String → V → List (String × V) → List (String × V)
set_first k v m = if is_some (get_text k m) then m else set_text k v m

-- The loop's body; `n` is the event's index.
unfoldable pub add_event : ℕ → LoadedEvent → Indexes → Indexes
add_event n e i = record {
  event_by_id = set_first e.event_id e i.event_by_id;
  children_by_id = add_child e e.parent_ids i.children_by_id;
  events_by_actor = add_to e.actor e i.events_by_actor;
  events_by_type = add_to e.event_type e i.events_by_type;
  event_line_by_id =
      if is_some (get_text e.event_id i.event_by_id)
      then i.event_line_by_id
      else set_text e.event_id (n + 1) i.event_line_by_id;
}

unfoldable pub add_events : ℕ → List LoadedEvent → Indexes → Indexes
unfolding add_event
add_events n [] i = i
add_events n (e ∷ es) i = add_events (n + 1) es (add_event n e i)

abbrev pub no_indexes : Indexes
no_indexes = record {
  event_by_id = [];
  children_by_id = [];
  events_by_actor = [];
  events_by_type = [];
  event_line_by_id = [];
}

-- `buildIndexes`
unfoldable pub build_indexes : List LoadedEvent → Indexes
unfolding add_events
build_indexes es = add_events 0 es no_indexes
