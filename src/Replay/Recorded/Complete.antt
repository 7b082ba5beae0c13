-- ===== src/Replay/Recorded/Complete.antt =====
-- A trace without complaints answers all its requests (packages/replay/src/recorded.ts).
use agent_loop_snapshot.Prelude.{
  map_get, String, ◌≡◌, true, List, [], ◌∷◌, ◌++◌, is_some, All, Bool-cases, inl, inr,
}
use agent_loop_snapshot.Replay.Recorded.Reading.{TraceEvent, RecordedRequest, ReplayOutcome}
use agent_loop_snapshot.Replay.Recorded.{
  CallKey, same_key, key_of, create_recorded, missing_outcomes, lookup, index_events,
  sort_by_sequence, empty_index,
}

append-nil_right : {A : Type 0} (xs ys : List A) → xs ++ ys ≡ [] → ys ≡ []
append-nil_right [] ys h = h
append-nil_right (x ∷ xs) ys h = cc

none_missing :
    (rs : List (String × RecordedRequest)) (m : List (CallKey × ReplayOutcome))
    → missing_outcomes rs m ≡ []
    → All (λ (e : String × RecordedRequest). is_some (map_get same_key (key_of e.1) m) ≡ true) rs
unfolding missing_outcomes
none_missing [] m h = tt
none_missing ((id, r) ∷ rs) m h = elim (Bool-cases (is_some (map_get same_key (key_of r) m))) [
  | inl e ↦ (e, none_missing rs m (rw e at h))
  | inr e ↦ let bad : _ ∷ _ ≡ [] = rw e at h in cc bad
]

-- If there is no diagnostic, the lookup of each request of the index, by its kind, correlation key
-- and attempt, finds a result.
pub lookup_complete :
    (es : List TraceEvent)
    → (create_recorded es).diagnostics ≡ []
    → All
        (λ (e : String × RecordedRequest).
          is_some (lookup (create_recorded es) (key_of e.1)) ≡ true)
        (create_recorded es).requests
unfolding create_recorded lookup
lookup_complete es h =
    let i = index_events (sort_by_sequence es) empty_index in
    none_missing i.requests i.outcomes
      (append-nil_right i.diagnostics (missing_outcomes i.requests i.outcomes) h)
