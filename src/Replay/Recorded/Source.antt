-- ===== src/Replay/Recorded/Source.antt =====
-- Every recorded result stands in the trace (packages/replay/src/recorded.ts).
use agent_loop_snapshot.Prelude.{
  map_get, map_get-map_set, same_text-eq, String, ◌≡◌, refl, ap, ◌∙◌, eq_refl, inl, inr, true, ◌&&◌,
  not, Option, none, some, List, [], ◌∷◌, ◌==◌, arith, eq_iff, leb, if_elim, option_elim, ||_right,
  includes, All, Option-cases, members,
}
use mathlib.Core.List.{Memᴰ}
use agent_loop_snapshot.Replay.Recorded.Reading.{
  TraceEvent, RecordedRequest, ReplayOutcome, RecordedOutcome, request_from_event,
  outcome_from_event,
}
use agent_loop_snapshot.Replay.Recorded.{
  same_kind, CallKey, same_key, key_of, Index, add_request, parent_request, add_outcome, on_event,
  is_request_type, is_result_type, insert_by_sequence, sort_by_sequence, index_events, empty_index,
  create_recorded, lookup,
}

pub same_key-eq : (a b : CallKey) → same_key a b ≡ true → a ≡ b
same_key-eq a b h = ground (arith, h, eq_iff a.correlation_key b.correlation_key)

same_call :
    (r : RecordedRequest) (o : RecordedOutcome)
    → (same_kind r.kind o.kind && r.correlation_key == o.correlation_key) ≡ true
    → (o.kind ≡ r.kind) × (o.correlation_key ≡ r.correlation_key)
same_call r o h = ground (arith, h, eq_iff r.correlation_key o.correlation_key)

module _ (P : TraceEvent → Type 0) where
  -- The request `r` stands in an event with the identity.
  pub record RequestOf (id : String) (r : RecordedRequest) : Type 0 where
    pub event : TraceEvent
    pub in_trace : P event
    pub event_id : event.event_id ≡ id
    pub read : RecordedRequest
    pub reads : request_from_event event ≡ some read
    pub kind : read.kind ≡ r.kind
    pub correlation_key : read.correlation_key ≡ r.correlation_key

  -- The outcome `o` stands in an event whose parent is a request of the call.
  pub record OutcomeOf (k : CallKey) (o : ReplayOutcome) : Type 0 where
    pub event : TraceEvent
    pub in_trace : P event
    pub read : RecordedOutcome
    pub reads : outcome_from_event event ≡ some read
    pub outcome : read.outcome ≡ o
    pub kind : read.kind ≡ k.kind
    pub correlation_key : read.correlation_key ≡ k.correlation_key
    pub parent : String
    pub is_parent : includes event.parent_ids parent ≡ true
    pub request : RecordedRequest
    pub requested : RequestOf parent request
    pub is_key : key_of request ≡ k

  pub record Sound (i : Index) : Type 0 where
    pub requests :
        (id : String) (r : RecordedRequest)
        → map_get (λ a b. a == b) id i.requests ≡ some r
        → RequestOf id r
    pub outcomes :
        (k : CallKey) (o : ReplayOutcome) → map_get same_key k i.outcomes ≡ some o → OutcomeOf k o

  add_request-Sound :
      (e : TraceEvent) (r : RecordedRequest) (i : Index)
      → P e
      → request_from_event e ≡ some r
      → Sound i
      → Sound (add_request e r i)
  add_request-Sound e r i p reads s = record {
    requests = λ id x h.
        elim (map_get-map_set (λ a b. a == b) same_text-eq e.event_id id _ x i.requests h) [
          | inl (same, made) ↦ record {
            event = e;
            in_trace = p;
            event_id = same;
            read = r;
            reads = reads;
            kind = ap (λ y. y.kind) made;
            correlation_key = ap (λ y. y.correlation_key) made;
          }
          | inr old ↦ s.requests id x old
        ];
    outcomes = s.outcomes;
  }

  parent_request-lem :
      (ps : List String) (m : List (String × RecordedRequest)) (r : RecordedRequest)
      → parent_request ps m ≡ some r
      → (p : String) × (includes ps p ≡ true) × (map_get (λ a b. a == b) p m ≡ some r)
  parent_request-lem [] m r h = cc
  parent_request-lem (p ∷ ps) m r h = elim (Option-cases (map_get (λ a b. a == b) p m)) [
    | inr (x, e) ↦
        let found : some x ≡ some r = rw (e, parent_request) at h in
        (p, rw (eq_refl p) refl, e ∙ found)
    | inl e ↦
        let others : parent_request ps m ≡ some r = rw (e, parent_request) at h in
        let (q, i, g) = parent_request-lem ps m r others in
        (q, ||_right (p == q) (includes ps q) i, g)
  ]

  add_outcome-Sound :
      (e : TraceEvent) (o : RecordedOutcome) (q : Option RecordedRequest) (i : Index)
      → P e
      → outcome_from_event e ≡ some o
      → ((r : RecordedRequest)
          → q ≡ some r
          → (p : String) × (includes e.parent_ids p ≡ true)
            × (map_get (λ a b. a == b) p i.requests ≡ some r))
      → Sound i
      → Sound (add_outcome e o q i)
  add_outcome-Sound e o none i p reads found s = record {
    requests = s.requests;
    outcomes = s.outcomes;
  }
  add_outcome-Sound e o (some r) i p reads found s =
      if_elim Sound (same_kind r.kind o.kind && r.correlation_key == o.correlation_key)
        (λ fits. record {
          requests = s.requests;
          outcomes = λ k x h.
              elim (map_get-map_set same_key same_key-eq (key_of r) k o.outcome x i.outcomes h) [
                | inl (same, made) ↦
                    let (parent, is_parent, there) = found r refl in
                    record {
                      event = e;
                      in_trace = p;
                      read = o;
                      reads = reads;
                      outcome = made;
                      kind = (same_call r o fits).0 ∙ ap (λ y. y.kind) same;
                      correlation_key = (same_call r o fits).1 ∙ ap (λ y. y.correlation_key) same;
                      parent = parent;
                      is_parent = is_parent;
                      request = r;
                      requested = s.requests parent r there;
                      is_key = same;
                    }
                | inr old ↦ s.outcomes k x old
              ];
        })
        (λ _. record { requests = s.requests; outcomes = s.outcomes })

  on_event-Sound : (e : TraceEvent) (i : Index) → P e → Sound i → Sound (on_event e i)
  unfolding on_event
  on_event-Sound e i p s =
      if_elim Sound (is_request_type e.event_type)
        (λ _.
          option_elim Sound (request_from_event e)
            (λ _. record { requests = s.requests; outcomes = s.outcomes })
            (λ r reads. add_request-Sound e r i p reads s))
        (λ _.
          if_elim Sound (not (is_result_type e.event_type)) (λ _. s)
            (λ _.
              option_elim Sound (outcome_from_event e)
                (λ _. record { requests = s.requests; outcomes = s.outcomes })
                (λ o reads.
                  add_outcome-Sound e o (parent_request e.parent_ids i.requests) i p reads
                    (parent_request-lem e.parent_ids i.requests) s)))

  index-Sound : (es : List TraceEvent) (i : Index) → All P es → Sound i → Sound (index_events es i)
  index-Sound [] i ps s = s
  index-Sound (e ∷ es) i ps s = index-Sound es (on_event e i) ps.1 (on_event-Sound e i ps.0 s)

  insert-All :
      (e : TraceEvent) (es : List TraceEvent) → P e → All P es → All P (insert_by_sequence e es)
  insert-All e [] p ps = (p, tt)
  insert-All e (x ∷ xs) p ps =
      if_elim (All P) (leb e.sequence x.sequence) (λ _. (p, ps))
        (λ _. (ps.0, insert-All e xs p ps.1))

  sort-All : (es : List TraceEvent) → All P es → All P (sort_by_sequence es)
  sort-All [] ps = tt
  sort-All (e ∷ es) ps = insert-All e (sort_by_sequence es) ps.0 (sort-All es ps.1)

  create_recorded-Sound : (es : List TraceEvent) → All P es → Sound (create_recorded es)
  unfolding create_recorded
  create_recorded-Sound es ps =
      let s =
        index-Sound (sort_by_sequence es) empty_index (sort-All es ps)
          (record { requests = λ id r h. cc; outcomes = λ k o h. cc }) in
      record { requests = s.requests; outcomes = s.outcomes }

-- Every result that a lookup finds stands in an event of the trace of the call's kind and
-- correlation key, and one of that event's parents is the identity of an event of the trace that
-- requests this call.
pub lookup_source :
    (es : List TraceEvent) (k : CallKey) (o : ReplayOutcome)
    → lookup (create_recorded es) k ≡ some o
    → OutcomeOf (λ e. Memᴰ e es) k o
unfolding lookup
lookup_source es k o h = (create_recorded-Sound (λ e. Memᴰ e es) es (members es)).outcomes k o h
