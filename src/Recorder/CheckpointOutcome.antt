-- ===== src/Recorder/CheckpointOutcome.antt =====
-- What a checkpoint writes: nothing, or one event and one checkpoint of the last event before it.
use agent_loop_snapshot.Prelude.{
  String, ◌≡◌, refl, sym, ◌⊎◌, inl, inr, Bool, true, false, Option, some, [], ◌∷◌, ◌++◌, arith,
  last?,
}
use agent_loop_snapshot.Schema.Envelope.{Event, Checkpoint, Payload}
use agent_loop_snapshot.Recorder.Record.{
  RunRecord, Result, ok, err, RecorderError, Exec, EventContext, AppendInput, assert_context,
  assert_running, continue,
}
use agent_loop_snapshot.Recorder.Commit.{Call, intercept, notify, build_event, commit_event}
use agent_loop_snapshot.Recorder.Lifecycle.{the_context, with_options}
use agent_loop_snapshot.Recorder.Identity.{SameIdentity, Result-cases}
use agent_loop_snapshot.Recorder.Outcome.{
  FitsRun, FitsRun-of, Admitted, build_event-Admitted, appended, commit_outcome,
}
use agent_loop_snapshot.Recorder.Lifecycle.{
  CheckpointInput, checkpoint, created_payload, new_checkpoint, last_event,
}
use agent_loop_snapshot.Recorder.Identity.{SameCheckpoint, intercept-SameCheckpoint}
use agent_loop_snapshot.Recorder.Commit.{same_checkpoint_identity}
use agent_loop_snapshot.Recorder.Record.{guard, interceptor_failed_after_checkpoint}

-- The event `e` and the checkpoint `c` that a checkpoint operation leaves behind.
pub record Checkpointed (r : RunRecord) (call : Call) (ctx : EventContext) (given : Option String)
    (e : Event) (c : Checkpoint) (r' : RunRecord) : Type 0 where
  pub written : r' ≡ record (appended r e) { checkpoints = r.checkpoints ++ c ∷ [] }
  pub admitted : Admitted r call ctx "checkpoint.created" given e
  pub fits : FitsRun r ctx
  pub last : Event
  pub is_last : last? r.events ≡ some last
  pub last_event_id : c.last_event_id ≡ last.event_id
  pub sequence : c.sequence ≡ last.sequence

abbrev pub CheckpointOutcome :
    RunRecord → Call → EventContext → Option String → Result Checkpoint × RunRecord → Type 0
CheckpointOutcome r call ctx given out =
    ((x : RecorderError) × (out ≡ (err x, r)))
    ⊎ ((e : Event) × (c : Checkpoint) × Checkpointed r call ctx given e c out.1)

last_event-last : (r : RunRecord) (e : Event) → last_event r ≡ ok e → last? r.events ≡ some e
last_event-last r e h = ground arith

with_payload :
    (event e : Event) (p : Payload)
    → SameIdentity (record event { payload = p }) e
    → SameIdentity event e
with_payload event e p h = ground arith

guard_state :
    (b : Bool) (made : Checkpoint) (t : RunRecord)
    → (continue
        (guard b interceptor_failed_after_checkpoint)
        (λ (_ : Unit {0}) (u : RunRecord).
          let out : Result Checkpoint × RunRecord = (ok made, u) in out)
        t).1
      ≡ t
guard_state true made t = refl
guard_state false made t = refl

module _ (call : Call) (input : CheckpointInput) (r : RunRecord) where
  abbrev pub ctx : EventContext
  ctx = the_context input.options.context r

  abbrev made_input : Event → AppendInput
  made_input last =
      with_options "checkpoint.created" (created_payload call last input.state_hash) input.options

  -- The part of the operation below the event and the interceptors.
  finish : Event → Event → Checkpoint → Exec Checkpoint
  finish last event made s =
      continue
        (commit_event call (λ t. record t { checkpoints = t.checkpoints ++ made ∷ [] })
          (record event { payload = created_payload call last made.state_hash }) s).0
        (λ _ t.
          (continue
            (guard (notify (λ i. i.after_checkpoint) call.interceptors made)
              interceptor_failed_after_checkpoint)
            (λ _ u. (ok made, u)) t))
        (commit_event call (λ t. record t { checkpoints = t.checkpoints ++ made ∷ [] })
          (record event { payload = created_payload call last made.state_hash }) s).1

  commit-CheckpointOutcome :
      (last event : Event) (made : Checkpoint)
      → last? r.events ≡ some last
      → build_event call ctx (made_input last) true r ≡ ok event
      → SameCheckpoint (new_checkpoint call last event input r) made
      → FitsRun r ctx
      → CheckpointOutcome r call ctx input.options.actor (finish last event made r)
  unfolding finish
  commit-CheckpointOutcome last event made l b same fits =
      elim (commit_outcome call (λ t. record t { checkpoints = t.checkpoints ++ made ∷ [] })
        (record event { payload = created_payload call last made.state_hash }) r) [
          | inl (x, h) ↦ inl (x, rw h)
          | inr (e, h, i, fresh) ↦ inr (
            e,
            made,
            record {
              written = rw h (
                  guard_state _ made
                    (record (appended r e) { checkpoints = r.checkpoints ++ made ∷ [] }));
              admitted =
                  build_event-Admitted call ctx (made_input last) true r event e b
                    (with_payload event e (created_payload call last made.state_hash) i) fresh;
              fits = fits;
              last = last;
              is_last = l;
              last_event_id = sym same.last_event_id;
              sequence = sym same.sequence;
            },
          )
        ]

  -- Taking a checkpoint either throws and leaves the record as it was, or adds one
  -- `checkpoint.created` event that the run may take next, and one checkpoint that names the
  -- identity and number of the last event before it.
  pub checkpoint_outcome :
      CheckpointOutcome r call ctx input.options.actor (checkpoint call input r)
  unfolding checkpoint finish
  checkpoint_outcome = elim (Result-cases (assert_running r)) [
    | inr (x, h) ↦ inl (x, rw h)
    | inl (_, h) ↦ elim (Result-cases (assert_context r ctx)) [
      | inr (x, k) ↦ inl (x, rw (h, k))
      | inl (_, k) ↦ elim (Result-cases (last_event r)) [
        | inr (x, l) ↦ inl (x, rw (h, k, l))
        | inl (last, l) ↦ elim (Result-cases (build_event call ctx (made_input last) true r)) [
          | inr (x, b) ↦ inl (x, rw (h, k, l, b))
          | inl (event, b) ↦
              elim (Result-cases (
                intercept same_checkpoint_identity (λ i. i.before_checkpoint) call.interceptors
                  (new_checkpoint call last event input r))) [
                    | inr (x, m) ↦ inl (x, rw (h, k, l, b, m))
                    | inl (made, m) ↦
                        rw (h, k, l, b, m)
                          (commit-CheckpointOutcome last event made (last_event-last r last l) b
                            (intercept-SameCheckpoint call.interceptors _ made m)
                            (FitsRun-of r ctx h k))
                  ]
        ]
      ]
    ]
  ]
