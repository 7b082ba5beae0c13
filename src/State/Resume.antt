-- ===== src/State/Resume.antt =====
-- A state that is rebuilt from a checkpoint is the state that all events give
-- (packages/recorder/src/checkpoints.ts).
use agent_loop_snapshot.Prelude.{
  String, ◌≡◌, refl, sym, ap, ◌∙◌, ◌⊎◌, inl, inr, not, Option, none, some, List, [], ◌∷◌, ◌==◌, leb,
  arith, All, if◌then◌else◌, if_elim,
}
use agent_loop_snapshot.Schema.Json.{end}
use agent_loop_snapshot.State.Pointer.{Result, ok, err, ◌>>=◌}
use agent_loop_snapshot.State.Container.{Container, object}
use agent_loop_snapshot.State.Rebuild.{
  CheckpointDiagnosticCode, StreamEvent, StoredCheckpoint, ReconstructionOptions, Resolver,
  Reconstruction, Base, base, rejected, Choice, validate_event_stream, replay_events,
  valid_checkpoint_base, choose_checkpoint, choose_base, sort_candidates, insert_candidate,
  given_checkpoints, reconstruct_state, start_state, start_sequence, checkpoint_state, refers_to,
  event_at_sequence, checkpoint_state_unavailable, checkpoint_state_hash_mismatch,
}
use agent_loop_snapshot.State.Results.{bind_same, Result-cases}
use agent_loop_snapshot.State.Replaying.{
  Consecutive, validate-Consecutive, until, replay_events-until,
}

-- The checkpoint, where it is accepted, holds what the events up to its sequence number give.
abbrev pub Faithful :
    (Container → String) → ReconstructionOptions → List StreamEvent → StoredCheckpoint → Type 0
Faithful hash_state o es c =
    (run : String) (s : Container)
    → valid_checkpoint_base hash_state o.resolve_artifact run es c ≡ base s
    → replay_events o.resolve_artifact 0 (object end) (until c.sequence es) ≡ ok s

-- A checkpoint that is accepted holds the state that it is accepted with.
pub checkpoint_state-base :
    (hash_state : Container → String) (resolve : Option Resolver) (run : String)
    (es : List StreamEvent) (c : StoredCheckpoint) (s : Container)
    → valid_checkpoint_base hash_state resolve run es c ≡ base s
    → checkpoint_state resolve c ≡ ok s
unfolding valid_checkpoint_base
checkpoint_state-base hash_state resolve run es c s =
    if_elim (λ b. b ≡ base s → checkpoint_state resolve c ≡ ok s) (not (c.run_id == run))
      (λ _ h. cc)
      (λ _.
        if_elim (λ b. b ≡ base s → checkpoint_state resolve c ≡ ok s)
          (not (refers_to c (event_at_sequence es c.sequence))) (λ _ h. cc)
          (λ _. accepted (checkpoint_state resolve c)))
  where
    accepted :
        (m : Result Container)
        → elim m [
          | err _ ↦ rejected checkpoint_state_unavailable
          | ok t ↦
              if hash_state t == c.state_hash
              then base t
              else rejected checkpoint_state_hash_mismatch
        ]
          ≡ base s
        → m ≡ ok s
    accepted (err x) h = cc
    accepted (ok t) h = ground (arith, h)

module _ {ℓ} (P : StoredCheckpoint → Type ℓ) where
  pub insert_candidate-All :
      (c : StoredCheckpoint) (cs : List StoredCheckpoint)
      → P c
      → All P cs
      → All P (insert_candidate c cs)
  unfolding insert_candidate
  insert_candidate-All c [] p ps = (p, tt)
  insert_candidate-All c (d ∷ ds) p ps =
      if_elim (All P) (leb d.sequence c.sequence) (λ _. (p, ps))
        (λ _. (ps.0, insert_candidate-All c ds p ps.1))

  pub sort_candidates-All : (cs : List StoredCheckpoint) → All P cs → All P (sort_candidates cs)
  unfolding sort_candidates
  sort_candidates-All [] ps = tt
  sort_candidates-All (c ∷ cs) ps =
      insert_candidate-All c (sort_candidates cs) ps.0 (sort_candidates-All cs ps.1)

pub Base-cases :
    (b : Base)
    → ((s : Container) × (b ≡ base s)) ⊎ ((d : CheckpointDiagnosticCode) × (b ≡ rejected d))
Base-cases (base s) = inl (s, refl)
Base-cases (rejected d) = inr (d, refl)

-- Starting from the choice and starting from nothing give the same state.
abbrev Same : ReconstructionOptions → List StreamEvent → Choice → Type 0
Same o es c =
    replay_events o.resolve_artifact (start_sequence c) (start_state c) es
    ≡ replay_events o.resolve_artifact 0 (object end) es

module _ (hash_state : Container → String) (o : ReconstructionOptions) (es : List StreamEvent) where
  from_checkpoint :
      (run : String) (c : StoredCheckpoint) (s : Container)
      → Consecutive 0 es
      → Faithful hash_state o es c
      → valid_checkpoint_base hash_state o.resolve_artifact run es c ≡ base s
      → replay_events o.resolve_artifact c.sequence s es
        ≡ replay_events o.resolve_artifact 0 (object end) es
  from_checkpoint run c s h f e = sym (
      replay_events-until o.resolve_artifact c.sequence 0 (object end) es h
      ∙ ap (λ m. m >>= λ t. replay_events o.resolve_artifact c.sequence t es) (f run s e))

  choose-Same :
      (run : String) (cs : List StoredCheckpoint)
      → Consecutive 0 es
      → All (Faithful hash_state o es) cs
      → Same o es (choose_checkpoint hash_state o.resolve_artifact run es cs)
  unfolding choose_checkpoint
  choose-Same run [] h fs = refl
  choose-Same run (c ∷ cs) h fs =
      elim (Base-cases (valid_checkpoint_base hash_state o.resolve_artifact run es c)) [
        | inl (s, e) ↦ rw (choose_checkpoint, e) (from_checkpoint run c s h fs.0 e)
        | inr (d, e) ↦ rw (choose_checkpoint, e) (choose-Same run cs h fs.1)
      ]

  choose_base-Same :
      (run : Option String)
      → Consecutive 0 es
      → All (Faithful hash_state o es) (given_checkpoints o)
      → Same o es (choose_base hash_state o run es)
  unfolding choose_base
  choose_base-Same none h fs = refl
  choose_base-Same (some run) h fs =
      choose-Same run (sort_candidates (given_checkpoints o)) h
        (sort_candidates-All (Faithful hash_state o es) (given_checkpoints o) fs)

abbrev pub state_of : Result Reconstruction → Result Container
state_of r = r >>= λ x. ok x.state

abbrev pub without_checkpoints : ReconstructionOptions → ReconstructionOptions
without_checkpoints o = record {
  checkpoints = [];
  loaded = none;
  resolve_artifact = o.resolve_artifact;
}

state_of-reconstruct_state :
    (hash_state : Container → String) (o : ReconstructionOptions) (es : List StreamEvent)
    (run : Option String)
    → validate_event_stream es ≡ ok run
    → state_of (reconstruct_state hash_state o es)
      ≡ replay_events o.resolve_artifact
          (start_sequence (choose_base hash_state o run es))
          (start_state (choose_base hash_state o run es))
          es
unfolding reconstruct_state
state_of-reconstruct_state hash_state o es run e =
    let c = choose_base hash_state o run es in
    rw (reconstruct_state, e)
      (bind_same (replay_events o.resolve_artifact (start_sequence c) (start_state c) es) _
        (λ (x : Reconstruction). x.state) (λ s. refl))

-- Where each checkpoint that is accepted holds the state that the events up to it give, the state
-- that is rebuilt with the checkpoints, or the error, is the one that all events give without any.
pub reconstruct_state-without_checkpoints :
    (hash_state : Container → String) (o : ReconstructionOptions) (es : List StreamEvent)
    → All (Faithful hash_state o es) (given_checkpoints o)
    → state_of (reconstruct_state hash_state o es)
      ≡ state_of (reconstruct_state hash_state (without_checkpoints o) es)
unfolding reconstruct_state validate_event_stream
reconstruct_state-without_checkpoints hash_state o es fs =
    elim (Result-cases (validate_event_stream es)) [
      | inl (run, e) ↦
          let h = validate-Consecutive none 0 es run e in
          let p = without_checkpoints o in
          state_of-reconstruct_state hash_state o es run e
          ∙ (choose_base-Same hash_state o es run h fs
              ∙ sym (
                  state_of-reconstruct_state hash_state p es run e
                  ∙ choose_base-Same hash_state p es run h tt))
      | inr (x, e) ↦ rw (reconstruct_state, e) refl
    ]
