-- ===== src/State/Replaying.antt =====
-- The replay of some events, and then of the others (packages/recorder/src/checkpoints.ts).
use agent_loop_snapshot.Prelude.{
  ℕ, ◌+◌, ◌≤◌, String, ◌≡◌, refl, sym, ◌∙◌, inl, inr, true, false, ◌&&◌, Option, some, List, [],
  ◌∷◌, ◌===◌, leb, arith, keep, All, Bool-cases,
}
use agent_loop_snapshot.State.Pointer.{
  ok, err, ◌>>=◌, event_run_id_mismatch, event_sequence_invalid,
}
use agent_loop_snapshot.State.Container.{Container}
use agent_loop_snapshot.State.Rebuild.{
  StreamEvent, Resolver, is_run, validate_from, replay_event, replay_events,
}
use agent_loop_snapshot.State.Results.{bind_ext, bind_assoc}
use agent_loop_snapshot.Replay.Policy.{max_safe_integer}

-- Sequence numbers count on from a number.
abbrev pub Consecutive : ℕ → List StreamEvent → Type 0
Consecutive n [] = Unit
Consecutive n (e ∷ es) = (e.sequence ≡ n + 1) × Consecutive e.sequence es

is_next :
    (e : StreamEvent) (n : ℕ)
    → (leb e.sequence max_safe_integer && e.sequence === n + 1) ≡ true
    → e.sequence ≡ n + 1
is_next e n h = ground arith

pub validate-Consecutive :
    (run : Option String) (n : ℕ) (es : List StreamEvent) (r : Option String)
    → validate_from run n es ≡ ok r
    → Consecutive n es
unfolding validate_from
validate-Consecutive run n [] r h = tt
validate-Consecutive run n (e ∷ es) r h = elim (Bool-cases (is_run run e)) [
  | inl a ↦ elim (Bool-cases (leb e.sequence max_safe_integer && e.sequence === n + 1)) [
    | inl b ↦ (
      is_next e n b,
      validate-Consecutive (some e.run_id) e.sequence es r (rw (validate_from, a, b) at h),
    )
    | inr b ↦ let no : err event_sequence_invalid ≡ ok r = rw (validate_from, a, b) at h in cc
  ]
  | inr a ↦ let no : err event_run_id_mismatch ≡ ok r = rw (validate_from, a) at h in cc
]

-- No event of the list is at most the number.
abbrev After : ℕ → List StreamEvent → Type 0
After b = All (λ e. leb e.sequence b ≡ false)

After-Consecutive : (b n : ℕ) (es : List StreamEvent) → b ≤ n → Consecutive n es → After b es
After-Consecutive b n [] h c = tt
After-Consecutive b n (e ∷ es) h c =
    (ground (arith, c.0), After-Consecutive b e.sequence es (omega (arith, c.0)) c.1)

abbrev pub until : ℕ → List StreamEvent → List StreamEvent
until b = keep (λ e. leb e.sequence b)

until-After : (b : ℕ) (es : List StreamEvent) → After b es → until b es ≡ []
until-After b [] h = refl
until-After b (e ∷ es) h = rw h.0 (until-After b es h.1)

module _ (resolve : Option Resolver) where
  replay_event-skips :
      (b : ℕ) (s : Container) (e : StreamEvent)
      → leb e.sequence b ≡ true
      → replay_event resolve b s e ≡ ok s
  unfolding replay_event
  replay_event-skips b s e h = rw (replay_event, h) refl

  replay_event-later :
      (b b' : ℕ) (s : Container) (e : StreamEvent)
      → leb e.sequence b ≡ false
      → leb e.sequence b' ≡ false
      → replay_event resolve b s e ≡ replay_event resolve b' s e
  unfolding replay_event
  replay_event-later b b' s e h h' = rw (replay_event, h, h') refl

  replay_events-cons :
      (b : ℕ) (s : Container) (e : StreamEvent) (es : List StreamEvent)
      → replay_events resolve b s (e ∷ es)
        ≡ (replay_event resolve b s e >>= λ t. replay_events resolve b t es)
  unfolding replay_events
  replay_events-cons b s e es = refl

  replay_events-nil : (b : ℕ) (s : Container) → replay_events resolve b s [] ≡ ok s
  unfolding replay_events
  replay_events-nil b s = refl

  replay_events-After :
      (b b' : ℕ) (s : Container) (es : List StreamEvent)
      → After b es
      → After b' es
      → replay_events resolve b s es ≡ replay_events resolve b' s es
  replay_events-After b b' s [] h h' = rw (replay_events-nil b s, replay_events-nil b' s) refl
  replay_events-After b b' s (e ∷ es) h h' =
      rw
        (
          replay_events-cons b s e es,
          replay_events-cons b' s e es,
          replay_event-later b b' s e h.0 h'.0,
        )
        (bind_ext (replay_event resolve b' s e) (λ t. replay_events-After b b' t es h.1 h'.1))

  skip :
      (b : ℕ) (s : Container) (e : StreamEvent) (es : List StreamEvent)
      → leb e.sequence b ≡ true
      → replay_events resolve b s (e ∷ es) ≡ replay_events resolve b s es
  skip b s e es h = rw (replay_events-cons b s e es, replay_event-skips b s e h) refl

  -- The events up to a number, then those after it, give what all give.
  pub replay_events-until :
      (b n : ℕ) (s : Container) (es : List StreamEvent)
      → Consecutive n es
      → replay_events resolve 0 s es
        ≡ (replay_events resolve 0 s (until b es) >>= λ t. replay_events resolve b t es)
  replay_events-until b n s [] c = rw (replay_events-nil 0 s, replay_events-nil b s) refl
  replay_events-until b n s (e ∷ es) c = elim (Bool-cases (leb e.sequence b)) [
    | inl h ↦
        rw (h, replay_events-cons 0 s e es, replay_events-cons 0 s e (until b es))
          (bind_ext (replay_event resolve 0 s e) (λ t. replay_events-until b e.sequence t es c.1)
            ∙ (sym (
                  bind_assoc (replay_event resolve 0 s e)
                    (λ t. replay_events resolve 0 t (until b es))
                    (λ t. replay_events resolve b t es))
                ∙ bind_ext
                    (replay_event resolve 0 s e >>= λ t. replay_events resolve 0 t (until b es))
                    (λ t. sym (skip b t e es h))))
    | inr h ↦
        let later = After-Consecutive b e.sequence es (ground arith) c.1 in
        rw (h, until-After b es later, replay_events-nil 0 s)
          (replay_events-After 0 b s (e ∷ es)
            (ground (arith, c.0), After-Consecutive 0 e.sequence es (omega arith) c.1) (h, later))
  ]
