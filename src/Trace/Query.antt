-- ===== src/Trace/Query.antt =====
-- The queries on a loaded snapshot (packages/trace/src/index.ts).
use Prim.Native.Nat.{Ordering}
use Prim.Native.String.{compare}
use agent_loop_snapshot.Prelude.{
  ℕ, String, Bool, true, false, ◌&&◌, Option, none, some, List, [], ◌∷◌, ◌==◌, leb, keep, get_text,
}
use agent_loop_snapshot.Trace.Index.{LoadedEvent, Indexes, get_list}

-- `EventQuery`
pub record EventQuery : Type 0 where
  pub actor : Option String
  pub event_type : Option String
  pub min_sequence : Option ℕ
  pub max_sequence : Option ℕ
  pub after : Option String
  pub before : Option String

-- `left < right`, by code points: the times are ASCII texts.
abbrev pub text_less : String → String → Bool
text_less left right = elim (compare left right) [ Ordering.lt ↦ true | _ ↦ false ]

abbrev pub holds_for {ℓ} : {A : Type ℓ} → (A → Bool) → Option A → Bool
holds_for p none = true
holds_for p (some a) = p a

-- The filter of `findEvents`.
unfoldable pub in_range : EventQuery → LoadedEvent → Bool
in_range q e =
    holds_for (λ n. leb n e.sequence) q.min_sequence
    && holds_for (λ n. leb e.sequence n) q.max_sequence
    && holds_for (λ t. text_less t e.timestamp) q.after
    && holds_for (λ t. text_less e.timestamp t) q.before

abbrev present : {A : Type 0} → List (Option A) → List A
present [] = []
present (none ∷ os) = present os
present (some a ∷ os) = a ∷ present os

abbrev pub get_all : List String → List (String × LoadedEvent) → List LoadedEvent
get_all [] m = []
get_all (p ∷ ps) m = elim (get_text p m) [ none ↦ get_all ps m | some e ↦ e ∷ get_all ps m ]

-- `createQueryModel`: `root` is the manifest's `root_event_id`.
module _ (es : List LoadedEvent) (x : Indexes) (root : Option String) where
  abbrev pub get_event : String → Option LoadedEvent
  get_event id = get_text id x.event_by_id

  unfoldable pub get_parents : String → List LoadedEvent
  get_parents id = elim (get_event id) [ none ↦ [] | some e ↦ get_all e.parent_ids x.event_by_id ]

  abbrev pub get_children : String → List LoadedEvent
  get_children id = get_list id x.children_by_id

  abbrev pub get_events_by_actor : String → List LoadedEvent
  get_events_by_actor actor = get_list actor x.events_by_actor

  abbrev pub get_events_by_type : String → List LoadedEvent
  get_events_by_type event_type = get_list event_type x.events_by_type

  abbrev pub candidates : Option String → Option String → List LoadedEvent
  candidates none none = es
  candidates none (some t) = get_events_by_type t
  candidates (some a) none = get_events_by_actor a
  candidates (some a) (some t) = keep (λ e. e.event_type == t) (get_events_by_actor a)

  unfoldable pub find_events : EventQuery → List LoadedEvent
  unfolding in_range
  find_events q = keep (in_range q) (candidates q.actor q.event_type)

  abbrev root_events : List LoadedEvent
  root_events = keep (λ e. elim e.parent_ids [ [] ↦ true | _ ∷ _ ↦ false ]) es

  unfoldable pub get_root_events : List LoadedEvent
  get_root_events = elim root [
    | none ↦ root_events
    | some id ↦ elim (get_event id) [ none ↦ root_events | some e ↦ e ∷ [] ]
  ]
