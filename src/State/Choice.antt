-- ===== src/State/Choice.antt =====
-- Which checkpoint the reconstruction starts from (packages/recorder/src/checkpoints.ts).
use agent_loop_snapshot.Prelude.{
  ◌≤◌, String, ◌≡◌, refl, ap, sym, ◌∙◌, is_some, inl, inr, Option, none, some, List, [], ◌∷◌, leb,
  leb→le, arith, All, All-map, All-Mem, members, if_elim, Bool-cases, Option-cases, true, false,
}
use mathlib.Core.List.{Memᴰ}
use agent_loop_snapshot.Schema.Json.{end}
use agent_loop_snapshot.State.Pointer.{ok}
use agent_loop_snapshot.State.Container.{Container, object}
use agent_loop_snapshot.State.Rebuild.{
  StreamEvent, StoredCheckpoint, ReconstructionOptions, Reconstruction, CheckpointDiagnosticCode,
  base, rejected, validate_event_stream, valid_checkpoint_base, choose_checkpoint, choose_base,
  sort_candidates, insert_candidate, given_checkpoints, reconstruct_state, Choice, chosen_id,
  start_state, start_sequence, replay_events,
}
use agent_loop_snapshot.State.Resume.{insert_candidate-All, sort_candidates-All, Base-cases}
use agent_loop_snapshot.State.Results.{bind_ok, ok_injective}

abbrev NoLater : StoredCheckpoint → StoredCheckpoint → Type 0
NoLater c d = d.sequence ≤ c.sequence

-- Each is followed by none with a larger sequence number.
abbrev LatestFirst : List StoredCheckpoint → Type 0
LatestFirst [] = Unit
LatestFirst (c ∷ cs) = All (NoLater c) cs × LatestFirst cs

module _ {ℓ} (P : StoredCheckpoint → Type ℓ) where
  insert_candidate-All→ :
      (c : StoredCheckpoint) (cs : List StoredCheckpoint)
      → All P (insert_candidate c cs)
      → P c × All P cs
  unfolding insert_candidate
  insert_candidate-All→ c [] h = h
  insert_candidate-All→ c (d ∷ ds) h = elim (Bool-cases (leb d.sequence c.sequence)) [
    | inl e ↦ let p : P c × All P (d ∷ ds) = rw (insert_candidate, e) at h in p
    | inr e ↦
        let p : All P (d ∷ insert_candidate c ds) = rw (insert_candidate, e) at h in
        let q = insert_candidate-All→ c ds p.1 in (q.0, (p.0, q.1))
  ]

  sort_candidates-All→ : (cs : List StoredCheckpoint) → All P (sort_candidates cs) → All P cs
  unfolding sort_candidates
  sort_candidates-All→ [] h = tt
  sort_candidates-All→ (c ∷ cs) h =
      let p = insert_candidate-All→ c (sort_candidates cs) h in (p.0, sort_candidates-All→ cs p.1)

insert_candidate-LatestFirst :
    (c : StoredCheckpoint) (cs : List StoredCheckpoint)
    → LatestFirst cs
    → LatestFirst (insert_candidate c cs)
unfolding insert_candidate
insert_candidate-LatestFirst c [] s = (tt, tt)
insert_candidate-LatestFirst c (d ∷ ds) s =
    if_elim LatestFirst (leb d.sequence c.sequence)
      (λ h.
        let le = leb→le d.sequence c.sequence h in
        ((le, All-map (NoLater d) (NoLater c) (λ x k. omega (arith, k, le)) ds s.0), s))
      (λ h. (
        insert_candidate-All (NoLater d) c ds (ground arith) s.0,
        insert_candidate-LatestFirst c ds s.1,
      ))

sort_candidates-LatestFirst : (cs : List StoredCheckpoint) → LatestFirst (sort_candidates cs)
unfolding sort_candidates
sort_candidates-LatestFirst [] = tt
sort_candidates-LatestFirst (c ∷ cs) =
    insert_candidate-LatestFirst c (sort_candidates cs) (sort_candidates-LatestFirst cs)

module _ (hash_state : Container → String) (o : ReconstructionOptions) (run : String)
    (es : List StreamEvent) where
  abbrev pub IsAccepted : StoredCheckpoint → Type 0
  IsAccepted c =
      (s : Container) × (valid_checkpoint_base hash_state o.resolve_artifact run es c ≡ base s)

  -- The checkpoint `c` is accepted with the state `s`, and no accepted one is later.
  pub record IsLatest (cs : List StoredCheckpoint) (s : Container) (c : StoredCheckpoint)
      : Type 0 where
    pub is_given : Memᴰ c cs
    pub accepted : valid_checkpoint_base hash_state o.resolve_artifact run es c ≡ base s
    pub latest : All (λ d. IsAccepted d → d.sequence ≤ c.sequence) cs

  -- What the search through the candidates `cs` ends with.
  abbrev pub Ends : List StoredCheckpoint → Option (Container × StoredCheckpoint) → Type 0
  Ends cs none = All (λ d. ¬ IsAccepted d) cs
  Ends cs (some (s, c)) = IsLatest cs s c

  -- The state is what the events later than the start make of the state there, and the checkpoint is
  -- named.
  abbrev pub RebuiltFrom : Reconstruction → Option (Container × StoredCheckpoint) → Type 0
  RebuiltFrom x none =
      (x.checkpoint_id ≡ none)
      × (x.used_checkpoint ≡ false)
      × (replay_events o.resolve_artifact 0 (object end) es ≡ ok x.state)
  RebuiltFrom x (some (s, c)) =
      (x.checkpoint_id ≡ some c.checkpoint_id)
      × (x.used_checkpoint ≡ true)
      × (replay_events o.resolve_artifact c.sequence s es ≡ ok x.state)

  refused :
      (c : StoredCheckpoint) (x : CheckpointDiagnosticCode)
      → valid_checkpoint_base hash_state o.resolve_artifact run es c ≡ rejected x
      → ¬ IsAccepted c
  refused c x e (s, a) = cc (e, a)

  one_more :
      (c : StoredCheckpoint) (cs : List StoredCheckpoint)
      (chosen : Option (Container × StoredCheckpoint))
      → ¬ IsAccepted c
      → Ends cs chosen
      → Ends (c ∷ cs) chosen
  one_more c cs none r h = (r, h)
  one_more c cs (some (s, d)) r h = record {
    is_given = Memᴰ.tail h.is_given;
    accepted = h.accepted;
    latest = (λ a. absurd (r a), h.latest);
  }

  choose-Ends :
      (cs : List StoredCheckpoint)
      → LatestFirst cs
      → Ends cs (choose_checkpoint hash_state o.resolve_artifact run es cs).chosen
  unfolding choose_checkpoint
  choose-Ends [] s = tt
  choose-Ends (c ∷ cs) s =
      elim (Base-cases (valid_checkpoint_base hash_state o.resolve_artifact run es c)) [
        | inl (t, e) ↦
            rw (choose_checkpoint, e)
              (record {
                is_given = Memᴰ.head refl;
                accepted = e;
                latest = (λ _. omega arith, All-map (NoLater c) _ (λ d h _. h) cs s.0);
              })
        | inr (x, e) ↦
            rw (choose_checkpoint, e) (one_more c cs _ (refused c x e) (choose-Ends cs s.1))
      ]

  unsorted :
      (cs : List StoredCheckpoint) (chosen : Option (Container × StoredCheckpoint))
      → Ends (sort_candidates cs) chosen
      → Ends cs chosen
  unsorted cs none h = sort_candidates-All→ (λ d. ¬ IsAccepted d) cs h
  unsorted cs (some (s, c)) h = record {
    is_given =
        All-Mem (λ d. Memᴰ d cs) (sort_candidates cs)
          (sort_candidates-All (λ d. Memᴰ d cs) cs (members cs)) h.is_given;
    accepted = h.accepted;
    latest = sort_candidates-All→ _ cs h.latest;
  }

module _ (hash_state : Container → String) (o : ReconstructionOptions) (run : String)
    (es : List StreamEvent) where
  choose_base-Ends :
      Ends hash_state o run es (given_checkpoints o) (choose_base hash_state o (some run) es).chosen
  unfolding choose_base
  choose_base-Ends = unsorted hash_state o run es (given_checkpoints o) _ (
      choose-Ends hash_state o run es (sort_candidates (given_checkpoints o))
        (sort_candidates-LatestFirst (given_checkpoints o)))

  -- The part of the reconstruction below the choice.
  rebuilt-RebuiltFrom :
      (choice : Choice) (x : Reconstruction)
      → x.checkpoint_id ≡ chosen_id choice
      → x.used_checkpoint ≡ is_some (chosen_id choice)
      → replay_events o.resolve_artifact (start_sequence choice) (start_state choice) es
        ≡ ok x.state
      → RebuiltFrom hash_state o run es x choice.chosen
  rebuilt-RebuiltFrom choice x id used replayed = elim (Option-cases choice.chosen) [
    | inl e ↦ rw e (
      id ∙ ap (λ ch. chosen_id (record choice { chosen = ch })) e,
      used ∙ ap (λ ch. is_some (chosen_id (record choice { chosen = ch }))) e,
      rw e at replayed,
    )
    | inr (sc, e) ↦ rw e (
      id ∙ ap (λ ch. chosen_id (record choice { chosen = ch })) e,
      used ∙ ap (λ ch. is_some (chosen_id (record choice { chosen = ch }))) e,
      rw e at replayed,
    )
  ]

reconstruct_state-parts :
    (hash_state : Container → String) (o : ReconstructionOptions) (es : List StreamEvent)
    (run : Option String) (x : Reconstruction)
    → validate_event_stream es ≡ ok run
    → reconstruct_state hash_state o es ≡ ok x
    → let choice = choose_base hash_state o run es in
      (x.checkpoint_id ≡ chosen_id choice)
      × (x.used_checkpoint ≡ is_some (chosen_id choice))
      × (replay_events o.resolve_artifact (start_sequence choice) (start_state choice) es
          ≡ ok x.state)
unfolding reconstruct_state
reconstruct_state-parts hash_state o es run x e h =
    let made = bind_ok (validate_event_stream es) _ x h in
    let rest = bind_ok (replay_events o.resolve_artifact _ _ es) _ x made.2 in
    let same = ok_injective run made.0 (sym e ∙ made.1) in
    let q = ok_injective _ x rest.2 in
    (
      sym (ap (λ (y : Reconstruction). y.checkpoint_id) q)
          ∙ ap (λ r. chosen_id (choose_base hash_state o r es)) (sym same),
      sym (ap (λ (y : Reconstruction). y.used_checkpoint) q)
          ∙ ap (λ r. is_some (chosen_id (choose_base hash_state o r es))) (sym same),
      ap
            (λ r.
              replay_events o.resolve_artifact (start_sequence (choose_base hash_state o r es))
                (start_state (choose_base hash_state o r es)) es)
            same
          ∙ rest.1
          ∙ ap ok (ap (λ (y : Reconstruction). y.state) q),
    )

-- A reconstruction of a run starts from the state of a checkpoint that is accepted and has the
-- largest sequence number among the accepted ones, names it, and gives what the replay of the events
-- after it makes of that state; it starts from the empty state and names none exactly where none is
-- accepted.
pub reconstruct_state-Ends :
    (hash_state : Container → String) (o : ReconstructionOptions) (es : List StreamEvent)
    (run : String) (x : Reconstruction)
    → validate_event_stream es ≡ ok (some run)
    → reconstruct_state hash_state o es ≡ ok x
    → (chosen : Option (Container × StoredCheckpoint)) × Ends hash_state o run es
        (given_checkpoints o)
        chosen
      × RebuiltFrom hash_state o run es x chosen
reconstruct_state-Ends hash_state o es run x e h =
    let (id, used, replayed) = reconstruct_state-parts hash_state o es (some run) x e h in
    (
      (choose_base hash_state o (some run) es).chosen,
      choose_base-Ends hash_state o run es,
      rebuilt-RebuiltFrom hash_state o run es (choose_base hash_state o (some run) es) x id used
          replayed,
    )
