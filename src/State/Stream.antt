-- ===== src/State/Stream.antt =====
-- Which event streams may be reconstructed (packages/recorder/src/checkpoints.ts).
use agent_loop_snapshot.Prelude.{
  ℕ, ◌+◌, ◌≤◌, String, ◌≡◌, refl, sym, ◌∙◌, ◌≢◌, ◌↔◌, inl, inr, some, List, [], ◌∷◌, ◌==◌, ◌===◌,
  ◌&&◌, leb, arith, eq_iff, eq_refl, true, Bool-cases,
}
use mathlib.Core.Path.{subst}
use agent_loop_snapshot.State.Pointer.{ok, err, event_run_id_mismatch, event_sequence_invalid}
use agent_loop_snapshot.State.Rebuild.{StreamEvent, validate_from, validate_event_stream}
use agent_loop_snapshot.Replay.Policy.{max_safe_integer}

-- The events of one run, numbered on from `n` without a gap.
abbrev pub StreamOf : String → ℕ → List StreamEvent → Type 0
StreamOf run n [] = Unit
StreamOf run n (e ∷ es) =
    (e.run_id ≡ run)
    × ((e.sequence ≡ n + 1) × (e.sequence ≤ max_safe_integer))
    × StreamOf run e.sequence es

is_next_iff :
    (e : StreamEvent) (n : ℕ)
    → ((leb e.sequence max_safe_integer && e.sequence === n + 1) ≡ true)
      ↔ ((e.sequence ≡ n + 1) × (e.sequence ≤ max_safe_integer))
is_next_iff e n = (λ h. ground arith, λ h. ground (arith, h.0, h.1))

validate_from→StreamOf :
    (r run : String) (n : ℕ) (es : List StreamEvent)
    → validate_from (some r) n es ≡ ok (some run)
    → (r ≡ run) × StreamOf r n es
unfolding validate_from
validate_from→StreamOf r run n [] h = (cc, tt)
validate_from→StreamOf r run n (e ∷ es) h = elim (Bool-cases (e.run_id == r)) [
  | inl a ↦ elim (Bool-cases (leb e.sequence max_safe_integer && e.sequence === n + 1)) [
    | inl b ↦
        let same = (eq_iff e.run_id r).0 a in
        let rest =
          validate_from→StreamOf e.run_id run e.sequence es (rw (validate_from, a, b) at h) in
        (
          sym same ∙ rest.0,
          (same, (is_next_iff e n).0 b, subst (λ x. StreamOf x e.sequence es) same rest.1),
        )
    | inr b ↦
        let no : err event_sequence_invalid ≡ ok (some run) = rw (validate_from, a, b) at h in cc
  ]
  | inr a ↦ let no : err event_run_id_mismatch ≡ ok (some run) = rw (validate_from, a) at h in cc
]

StreamOf→validate_from :
    (r : String) (n : ℕ) (es : List StreamEvent)
    → StreamOf r n es
    → validate_from (some r) n es ≡ ok (some r)
unfolding validate_from
StreamOf→validate_from r n [] h = refl
StreamOf→validate_from r n (e ∷ es) h =
    let (same, step, rest) = h in
    rw (validate_from, same, eq_refl r, (is_next_iff e n).1 step, same)
      (StreamOf→validate_from r e.sequence es rest)

-- A stream passes as one of a run exactly when it has an event, each event is of that run, and the
-- sequence numbers are 1, 2 and so on, up to 2 ^ 53 - 1 at most.
pub validate_event_stream_iff :
    (run : String) (es : List StreamEvent)
    → (validate_event_stream es ≡ ok (some run)) ↔ ((es ≢ []) × StreamOf run 0 es)
unfolding validate_event_stream
validate_event_stream_iff run [] = (λ h. cc, λ h. absurd (h.0 refl))
validate_event_stream_iff run (e ∷ es) = (to, from)
  where
    to : validate_event_stream (e ∷ es) ≡ ok (some run) → (e ∷ es ≢ []) × StreamOf run 0 (e ∷ es)
    to h = elim (Bool-cases (leb e.sequence max_safe_integer && e.sequence === 0 + 1)) [
      | inl b ↦
          let (same, rest) =
            validate_from→StreamOf e.run_id run e.sequence es
              (rw (validate_event_stream, validate_from, b) at h) in
          (λ x. cc, (same, (is_next_iff e 0).0 b, subst (λ x. StreamOf x e.sequence es) same rest))
      | inr b ↦
          let no : err event_sequence_invalid ≡ ok (some run) =
            rw (validate_event_stream, validate_from, b) at h in
          cc
    ]

    from : (e ∷ es ≢ []) × StreamOf run 0 (e ∷ es) → validate_event_stream (e ∷ es) ≡ ok (some run)
    from h =
        let (same, step, rest) = h.1 in
        rw (validate_event_stream, validate_from, (is_next_iff e 0).1 step, same)
          (StreamOf→validate_from run e.sequence es rest)
