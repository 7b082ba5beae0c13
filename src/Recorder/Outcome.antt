-- ===== src/Recorder/Outcome.antt =====
-- What an operation on a run writes: nothing, or one event that the run may take next.
use agent_loop_snapshot.Prelude.{
  ◌+◌, String, ◌≡◌, sym, ◌∙◌, ◌⊎◌, inl, inr, Bool, true, false, Option, none, some, [], ◌∷◌, ◌++◌,
  arith, eq_iff, all, Bool-cases,
}
use mathlib.Core.Path.{subst}
use agent_loop_snapshot.Schema.Envelope.{Event, Payload}
use agent_loop_snapshot.Recorder.Record.{
  RunRecord, RunStatus, Result, ok, err, RecorderError, Exec, has_id, EventContext, AppendInput,
  assert_context, is_empty, reserved_event_type, is_reserved, is_running, assert_running, continue,
}
use agent_loop_snapshot.Recorder.Commit.{Call, build_event, prepare, commit_event}
use agent_loop_snapshot.Recorder.Lifecycle.{
  append_event, finish_run, LifecycleOptions, the_context, with_options, status_name,
}
use agent_loop_snapshot.Recorder.Identity.{SameIdentity, Result-cases, prepare-SameIdentity}

-- The run is running, and the context of an operation fits it.
pub record FitsRun (r : RunRecord) (ctx : EventContext) : Type 0 where
  pub is_on : is_running r.status ≡ true
  pub run_id : ctx.run_id ≡ r.run_id
  pub some_parent : is_empty ctx.parent_ids ≡ false
  pub known_parents : all (has_id r.events) ctx.parent_ids ≡ true

pub FitsRun-of :
    (r : RunRecord) (ctx : EventContext) {u v : Unit {0}}
    → assert_running r ≡ ok u
    → assert_context r ctx ≡ ok v
    → FitsRun r ctx
unfolding assert_running assert_context
FitsRun-of r ctx k h = ground (arith, eq_iff ctx.run_id r.run_id)

-- The actor that the input names, or that of the context.
abbrev pub IsActor : Option String → EventContext → String → Type 0
IsActor (some given) ctx actor = actor ≡ given
IsActor none ctx actor = actor ≡ ctx.actor

-- The event `e`, of type `t` and with the actor that is asked for, is one that the run may take next,
-- at the time of the call.
pub record Admitted (r : RunRecord) (call : Call) (ctx : EventContext) (t : String)
    (given : Option String) (e : Event) : Type 0 where
  pub sequence : e.sequence ≡ r.next_sequence
  pub run_id : e.run_id ≡ r.run_id
  pub event_id : e.event_id ≡ call.event_id
  pub fresh : has_id r.events e.event_id ≡ false
  pub parent_ids : e.parent_ids ≡ ctx.parent_ids
  pub event_type : e.event_type ≡ t
  pub actor : IsActor given ctx e.actor
  pub timestamp : e.timestamp ≡ call.now

build_event_fields :
    (call : Call) (ctx : EventContext) (input : AppendInput) (b : Bool) (r : RunRecord)
    (event : Event)
    → build_event call ctx input b r ≡ ok event
    → (event.sequence ≡ r.next_sequence)
      × (event.run_id ≡ r.run_id)
      × (event.event_id ≡ call.event_id)
      × (event.parent_ids ≡ ctx.parent_ids)
      × (event.event_type ≡ input.event_type)
      × IsActor input.actor ctx event.actor
      × (event.timestamp ≡ call.now)
unfolding build_event
build_event_fields call ctx input b r event h = ground arith

pub build_event-Admitted :
    (call : Call) (ctx : EventContext) (input : AppendInput) (b : Bool) (r : RunRecord)
    (event e : Event)
    → build_event call ctx input b r ≡ ok event
    → SameIdentity event e
    → has_id r.events event.event_id ≡ false
    → Admitted r call ctx input.event_type input.actor e
build_event-Admitted call ctx input b r event e h same fresh =
    let (s, i, d, p, t, a, m) = build_event_fields call ctx input b r event h in
    record {
      sequence = sym same.sequence ∙ s;
      run_id = sym same.run_id ∙ i;
      event_id = sym same.event_id ∙ d;
      fresh = subst (λ k. has_id r.events k ≡ false) same.event_id fresh;
      parent_ids = sym same.parent_ids ∙ p;
      event_type = sym same.event_type ∙ t;
      actor = subst (IsActor input.actor ctx) same.actor a;
      timestamp = sym same.timestamp ∙ m;
    }

abbrev pub appended : RunRecord → Event → RunRecord
appended r e = record r { events = r.events ++ e ∷ []; next_sequence = r.next_sequence + 1 }

pub commit_outcome :
    (call : Call) (f : RunRecord → RunRecord) (event : Event) (r : RunRecord)
    → ((x : RecorderError) × (commit_event call f event r ≡ (err x, r)))
      ⊎ ((e : Event) × (commit_event call f event r ≡ (ok e, f (appended r e)))
          × SameIdentity event e
          × (has_id r.events event.event_id ≡ false))
unfolding commit_event
commit_outcome call f event r = elim (Result-cases (prepare call r event)) [
  | inl (e, h) ↦
      let (same, fresh) = prepare-SameIdentity call r event e h in inr (e, rw h, same, fresh)
  | inr (x, h) ↦ inl (x, rw h)
]

-- An operation that writes nothing and throws, or writes the event that it was to write.
abbrev pub Outcome :
    (RunRecord → RunRecord)
    → Call
    → EventContext
    → String
    → Option String
    → RunRecord
    → Result Event × RunRecord
    → Type 0
Outcome f call ctx t given r out =
    ((x : RecorderError) × (out ≡ (err x, r)))
    ⊎ ((e : Event) × (out ≡ (ok e, f (appended r e)))
        × Admitted r call ctx t given e
        × FitsRun r ctx)

-- The last two steps of every operation that writes an event.
build_and_commit : Call → (RunRecord → RunRecord) → EventContext → AppendInput → Bool → Exec Event
build_and_commit call f ctx input b r =
    continue (build_event call ctx input b r) (commit_event call f) r

build_and_commit_outcome :
    (call : Call) (f : RunRecord → RunRecord) (ctx : EventContext) (input : AppendInput) (b : Bool)
    (r : RunRecord)
    → FitsRun r ctx
    → Outcome f call ctx input.event_type input.actor r (build_and_commit call f ctx input b r)
unfolding build_and_commit
build_and_commit_outcome call f ctx input b r fits =
    elim (Result-cases (build_event call ctx input b r)) [
      | inl (event, h) ↦ elim (commit_outcome call f event r) [
        | inl (x, c) ↦ inl (x, rw h c)
        | inr (e, c, same, fresh) ↦
            inr (e, rw h c, build_event-Admitted call ctx input b r event e h same fresh, fits)
      ]
      | inr (x, h) ↦ inl (x, rw h)
    ]

-- `appendEvent` either throws and leaves the record as it was, or adds to it exactly the event it
-- returns: one of the asked type, by the input's actor or else the context's, with the context's
-- parents, the run's next number, the call's time and an unused identity; and then the run was
-- running, the context was of the run and its parents were events of it.
pub append_outcome :
    (call : Call) (ctx : EventContext) (input : AppendInput) (r : RunRecord)
    → Outcome (λ s. s) call ctx input.event_type input.actor r (append_event call ctx input r)
unfolding append_event build_and_commit
append_outcome call ctx input r = elim (Result-cases (assert_running r)) [
  | inr (x, h) ↦ inl (x, rw h)
  | inl (_, h) ↦ elim (Result-cases (assert_context r ctx)) [
    | inr (x, k) ↦ inl (x, rw (h, k))
    | inl (_, k) ↦ elim (Bool-cases (is_reserved input.event_type)) [
      | inl res ↦ inl (reserved_event_type, rw (h, k, res))
      | inr free ↦
          rw (h, k, free)
            (build_and_commit_outcome call (λ s. s) ctx input false r (FitsRun-of r ctx h k))
    ]
  ]
]

-- A reserved type is refused.
pub append_reserved :
    (call : Call) (ctx : EventContext) (input : AppendInput) (r : RunRecord)
    → is_reserved input.event_type ≡ true
    → (append_event call ctx input r).1 ≡ r
unfolding append_event
append_reserved call ctx input r res = elim (Result-cases (assert_running r)) [
  | inr (x, h) ↦ rw h
  | inl (_, h) ↦ elim (Result-cases (assert_context r ctx)) [
    | inr (x, k) ↦ rw (h, k)
    | inl (_, k) ↦ rw (h, k, res)
  ]
]

-- Completing, failing or observing a run either throws and leaves the record as it was, or adds
-- exactly one event of the type that fits the status, and sets the status.
pub finish_outcome :
    (call : Call) (status : RunStatus) (payload : Payload) (o : LifecycleOptions) (r : RunRecord)
    → Outcome
        (λ s. record s { status = status })
        call
        (the_context o.context r)
        (status_name status)
        o.actor
        r
        (finish_run call status payload o r)
unfolding finish_run build_and_commit
finish_outcome call status payload o r = elim (Result-cases (assert_running r)) [
  | inr (x, h) ↦ inl (x, rw h)
  | inl (_, h) ↦ elim (Result-cases (assert_context r (the_context o.context r))) [
    | inr (x, k) ↦ inl (x, rw (h, k))
    | inl (_, k) ↦
        rw (h, k)
          (build_and_commit_outcome call (λ s. record s { status = status })
            (the_context o.context r) (with_options (status_name status) payload o) true r
            (FitsRun-of r (the_context o.context r) h k))
  ]
]
