-- ===== src/Replay/Recorded/Attempts.antt =====
-- How packages/replay/src/recorded.ts numbers the attempts of a call.
use agent_loop_snapshot.Prelude.{
  map_get, map_set, map_get-map_set, map_get-same, map_get-other, same_text-eq, ℕ, ◌+◌, ◌≤◌, ◌<◌,
  String, ◌≡◌, refl, sym, ap, ◌∙◌, ◌≢◌, ◌⊎◌, inl, inr, true, false, ◌&&◌, not, Option, none, some,
  List, [], ◌∷◌, ◌==◌, arith, eq_refl, if_elim, option_elim, Bool-cases, Option-cases,
}
use mathlib.Core.Path.{subst}
use agent_loop_snapshot.Replay.Recorded.Reading.{
  TraceEvent, RecordedRequest, RecordedOutcome, request_from_event, outcome_from_event,
}
use agent_loop_snapshot.Replay.Recorded.{
  same_kind, CallKey, same_key, key_of, logical_key, numbered, Index, add_request, add_outcome,
  on_event, is_request_type, is_result_type, parent_request, sort_by_sequence, index_events,
  empty_index, create_recorded,
}
use agent_loop_snapshot.Replay.Recorded.Source.{same_key-eq}

same_key_refl : (k : CallKey) → same_key k k ≡ true
same_key_refl k = ground (arith, eq_refl k.correlation_key)

-- The request's logical call has been counted at least as far as its attempt.
pub record Counted (attempts : List (CallKey × ℕ)) (r : RecordedRequest) : Type 0 where
  pub count : ℕ
  pub counts : map_get same_key (logical_key r) attempts ≡ some count
  pub at_least : 1 ≤ r.attempt
  pub at_most : r.attempt ≤ count

abbrev pub Holds : List (String × RecordedRequest) → String → RecordedRequest → Type 0
Holds m id r = map_get (λ a b. a == b) id m ≡ some r

pub record IsNumbered (i : Index) : Type 0 where
  pub counted : (id : String) (r : RecordedRequest) → Holds i.requests id r → Counted i.attempts r
  pub distinct :
      (id id' : String) (r r' : RecordedRequest)
      → Holds i.requests id r
      → Holds i.requests id' r'
      → key_of r ≡ key_of r'
      → id ≡ id'

differ : (k l : CallKey) → same_key k l ≡ false → k ≢ l
differ k l e h =
    let yes_same : same_key k l ≡ true = subst (λ x. same_key k x ≡ true) h (same_key_refl k) in
    cc (e, yes_same)

same_call-cases :
    (r r' : RecordedRequest) → (logical_key r ≡ logical_key r') ⊎ (logical_key r ≢ logical_key r')
same_call-cases r r' = elim (Bool-cases (same_key (logical_key r) (logical_key r'))) [
  | inl e ↦ inl (same_key-eq (logical_key r) (logical_key r') e)
  | inr e ↦ inr (λ h. differ (logical_key r) (logical_key r') e h)
]

-- An earlier request stays counted, and has a smaller attempt where it is of the same call.
still-Counted :
    (r : RecordedRequest) (i : Index) (old : RecordedRequest)
    → Counted i.attempts old
    → Counted (map_set same_key (logical_key r) (numbered r i).attempt i.attempts) old
      × (logical_key r ≡ logical_key old → old.attempt < (numbered r i).attempt)
still-Counted r i old c = elim (same_call-cases r old) [
  | inl e ↦
      let before : map_get same_key (logical_key r) i.attempts ≡ some c.count =
        subst (λ k. map_get same_key k i.attempts ≡ some c.count) (sym e) c.counts in
      let next : (numbered r i).attempt ≡ c.count + 1 = rw (before, numbered) refl in
      (
        record {
          count = (numbered r i).attempt;
          counts =
              subst
                (λ k.
                  map_get same_key k
                    (map_set same_key (logical_key r) (numbered r i).attempt i.attempts)
                  ≡ some (numbered r i).attempt)
                e
                (map_get-same same_key (logical_key r) (numbered r i).attempt i.attempts
                  (same_key_refl (logical_key r)));
          at_least = c.at_least;
          at_most = omega (arith, c.at_most, next);
        },
        λ _. omega (arith, c.at_most, next),
      )
  | inr d ↦ (
    record {
      count = c.count;
      counts =
          map_get-other same_key same_key-eq (logical_key r) (logical_key old)
            (numbered r i).attempt i.attempts d
          ∙ c.counts;
      at_least = c.at_least;
      at_most = c.at_most;
    },
    λ e. absurd (d e),
  )
]

new-Counted :
    (r : RecordedRequest) (i : Index)
    → Counted (map_set same_key (logical_key r) (numbered r i).attempt i.attempts) (numbered r i)
new-Counted r i = record {
  count = (numbered r i).attempt;
  counts =
      map_get-same same_key (logical_key r) (numbered r i).attempt i.attempts
        (same_key_refl (logical_key r));
  at_least = elim (Option-cases (map_get same_key (logical_key r) i.attempts)) [
    | inl e ↦ rw (e, numbered) (omega arith)
    | inr (n, e) ↦ rw (e, numbered) (omega arith)
  ];
  at_most = omega arith;
}

-- A request of an index with one more is the new one or an old one.
added-cases :
    (e : TraceEvent) (r : RecordedRequest) (i : Index) (id : String) (x : RecordedRequest)
    → Holds (add_request e r i).requests id x
    → ((e.event_id ≡ id) × (numbered r i ≡ x)) ⊎ Holds i.requests id x
added-cases e r i id x h =
    map_get-map_set (λ a b. a == b) same_text-eq e.event_id id (numbered r i) x i.requests h

-- The new request has another key than each old one.
new_key :
    (r : RecordedRequest) (i : Index) (old : RecordedRequest)
    → Counted i.attempts old
    → key_of (numbered r i) ≢ key_of old
new_key r i old c same =
    let call : logical_key r ≡ logical_key old =
      ap (λ k. let l : CallKey = record k { attempt = 0 } in l) same in
    let smaller = (still-Counted r i old c).1 call in
    let equal : (numbered r i).attempt ≡ old.attempt = ap (λ k. k.attempt) same in
    omega (arith, smaller, equal)

add_request-IsNumbered :
    (e : TraceEvent) (r : RecordedRequest) (i : Index)
    → IsNumbered i
    → IsNumbered (add_request e r i)
add_request-IsNumbered e r i s = record {
  counted = λ id x h. elim (added-cases e r i id x h) [
    | inl (_, made) ↦ subst (Counted (add_request e r i).attempts) made (new-Counted r i)
    | inr old ↦ (still-Counted r i x (s.counted id x old)).0
  ];
  distinct = λ id id' x x' h h' k. elim (added-cases e r i id x h) [
    | inl (here, made) ↦ elim (added-cases e r i id' x' h') [
      | inl (here', _) ↦ sym here ∙ here'
      | inr old' ↦ absurd (new_key r i x' (s.counted id' x' old') (ap key_of made ∙ k))
    ]
    | inr old ↦ elim (added-cases e r i id' x' h') [
      | inl (_, made') ↦ absurd (new_key r i x (s.counted id x old) (ap key_of made' ∙ sym k))
      | inr old' ↦ s.distinct id id' x x' old old' k
    ]
  ];
}

add_outcome-IsNumbered :
    (e : TraceEvent) (o : RecordedOutcome) (q : Option RecordedRequest) (i : Index)
    → IsNumbered i
    → IsNumbered (add_outcome e o q i)
add_outcome-IsNumbered e o none i s = record { counted = s.counted; distinct = s.distinct }
add_outcome-IsNumbered e o (some r) i s =
    if_elim IsNumbered (same_kind r.kind o.kind && r.correlation_key == o.correlation_key)
      (λ _. record { counted = s.counted; distinct = s.distinct })
      (λ _. record { counted = s.counted; distinct = s.distinct })

on_event-IsNumbered : (e : TraceEvent) (i : Index) → IsNumbered i → IsNumbered (on_event e i)
unfolding on_event
on_event-IsNumbered e i s =
    if_elim IsNumbered (is_request_type e.event_type)
      (λ _.
        option_elim IsNumbered (request_from_event e)
          (λ _. record { counted = s.counted; distinct = s.distinct })
          (λ r _. add_request-IsNumbered e r i s))
      (λ _.
        if_elim IsNumbered (not (is_result_type e.event_type)) (λ _. s)
          (λ _.
            option_elim IsNumbered (outcome_from_event e)
              (λ _. record { counted = s.counted; distinct = s.distinct })
              (λ o _. add_outcome-IsNumbered e o (parent_request e.parent_ids i.requests) i s)))

index-IsNumbered :
    (es : List TraceEvent) (i : Index) → IsNumbered i → IsNumbered (index_events es i)
index-IsNumbered [] i s = s
index-IsNumbered (e ∷ es) i s = index-IsNumbered es (on_event e i) (on_event-IsNumbered e i s)

-- Every request of a trace's index has an attempt from one up to the count of its logical call, and
-- no two requests of the index, under different event identities, have the same kind, correlation
-- key and attempt.
pub create_recorded-IsNumbered : (es : List TraceEvent) → IsNumbered (create_recorded es)
unfolding create_recorded
create_recorded-IsNumbered es =
    let s =
      index-IsNumbered (sort_by_sequence es) empty_index
        (record { counted = λ id r h. cc; distinct = λ id id' r r' h h' k. cc }) in
    record { counted = s.counted; distinct = s.distinct }
