-- ===== src/Recorder/Invariant/Steps.antt =====
-- Every operation of the recorder keeps a run a trace, and a started run is one.
use agent_loop_snapshot.Prelude.{
  suc, String, ◌≡◌, refl, sym, inl, inr, true, false, Option, none, some, List, [], ◌∷◌, ◌++◌,
  arith, eq_iff, length, All, All-snoc, ◌==◌, Bool-cases,
}
use mathlib.Core.Path.{subst, subst₂}
use agent_loop_snapshot.Schema.Observation.{SnapshotLimitation}
use agent_loop_snapshot.Schema.Envelope.{Event, Payload}
use agent_loop_snapshot.Recorder.Record.{
  RunStatus, running, completed, failed, observed, RunRecord, is_running, is_reserved, EventContext,
  AppendInput,
}
use agent_loop_snapshot.Recorder.Commit.{Call}
use agent_loop_snapshot.Recorder.Lifecycle.{
  status_name, append_event, finish_run, checkpoint, CheckpointInput, LifecycleOptions, the_context,
  add_limitation, mark_incomplete,
}
use agent_loop_snapshot.Recorder.Chain.{Chain}
use agent_loop_snapshot.Recorder.Outcome.{append_outcome, append_reserved, finish_outcome}
use agent_loop_snapshot.Recorder.CheckpointOutcome.{checkpoint_outcome}
use agent_loop_snapshot.Recorder.Invariant.{
  IsTrace, IsOpen, IsRooted, Ends, is_of, is_of-last, is_of-snoc, is_terminal, Chain-appended,
  IsRooted-appended, one_run_appended, next_appended, checkpointed_appended,
}

IsOpen-of_running :
    (s : RunStatus) (es : List Event)
    → is_running s ≡ true
    → Ends s es
    → (s ≡ running) × All IsOpen es
IsOpen-of_running running es h e = (refl, e)
IsOpen-of_running completed es h e = cc
IsOpen-of_running failed es h e = cc
IsOpen-of_running observed es h e = cc

pub Ends-running : (s : RunStatus) (es : List Event) → s ≡ running → All IsOpen es → Ends s es
Ends-running s es e h = subst (λ k. Ends k es) (sym e) h

-- A type that is not reserved is neither terminal nor the start of a run.
inner_of_free :
    (t : String) → is_reserved t ≡ false → (is_terminal t ≡ false) × ((t == "run.started") ≡ false)
unfolding is_reserved
inner_of_free t h = ground (arith, eq_iff t "run.started", eq_iff "run.started" t)

pub append-IsTrace :
    (call : Call) (ctx : EventContext) (input : AppendInput) (r : RunRecord)
    → IsTrace r
    → IsTrace (append_event call ctx input r).1
append-IsTrace call ctx input r good = elim (Bool-cases (is_reserved input.event_type)) [
  | inl res ↦ rw (append_reserved call ctx input r res) good
  | inr free ↦ elim (append_outcome call ctx input r) [
    | inl (x, e) ↦ rw e good
    | inr (e, out, adm, fits) ↦
        let (open_type, not_start) = inner_of_free input.event_type free in
        let (on, opens) = IsOpen-of_running r.status r.events fits.is_on good.ended in
        rw out (record {
          chain = Chain-appended r call ctx input.event_type input.actor e good adm fits;
          next = next_appended r call ctx input.event_type input.actor e good adm fits;
          rooted =
              IsRooted-appended r call ctx input.event_type input.actor e good adm fits not_start;
          one_run = one_run_appended r call ctx input.event_type input.actor e good adm fits;
          ended = Ends-running r.status _ on (
              All-snoc IsOpen r.events opens
                (subst (λ t. is_terminal t ≡ false) (sym adm.event_type) open_type));
          checkpointed =
              checkpointed_appended r call ctx input.event_type input.actor e good adm fits;
        })
  ]
]

not_start_of_finished :
    (s : RunStatus) → is_running s ≡ false → (status_name s == "run.started") ≡ false
not_start_of_finished running h = cc
not_start_of_finished _ h = refl

Ends-finished :
    (s : RunStatus) (es : List Event) (e : Event)
    → is_running s ≡ false
    → All IsOpen es
    → e.event_type ≡ status_name s
    → Ends s (es ++ e ∷ [])
Ends-finished running es e h o t = cc
Ends-finished completed es e h o t = (es, e, refl, o, t)
Ends-finished failed es e h o t = (es, e, refl, o, t)
Ends-finished observed es e h o t = (es, e, refl, o, t)

pub finish-IsTrace :
    (call : Call) (s : RunStatus) (p : Payload) (o : LifecycleOptions) (r : RunRecord)
    → is_running s ≡ false
    → IsTrace r
    → IsTrace (finish_run call s p o r).1
finish-IsTrace call s p o r h good = elim (finish_outcome call s p o r) [
  | inl (x, e) ↦ rw e good
  | inr (e, out, adm, fits) ↦
      let ctx = the_context o.context r in
      let (_, opens) = IsOpen-of_running r.status r.events fits.is_on good.ended in
      rw out (record {
        chain = Chain-appended r call ctx (status_name s) o.actor e good adm fits;
        next = next_appended r call ctx (status_name s) o.actor e good adm fits;
        rooted =
            IsRooted-appended r call ctx (status_name s) o.actor e good adm fits
              (not_start_of_finished s h);
        one_run = one_run_appended r call ctx (status_name s) o.actor e good adm fits;
        ended = Ends-finished s r.events e h opens adm.event_type;
        checkpointed = checkpointed_appended r call ctx (status_name s) o.actor e good adm fits;
      })
]

pub checkpoint-IsTrace :
    (call : Call) (input : CheckpointInput) (r : RunRecord)
    → IsTrace r
    → IsTrace (checkpoint call input r).1
checkpoint-IsTrace call input r good = elim (checkpoint_outcome call input r) [
  | inl (x, e) ↦ rw e good
  | inr (e, c, w) ↦
      let ctx = the_context input.options.context r in
      let t : String = "checkpoint.created" in
      let (on, opens) = IsOpen-of_running r.status r.events w.fits.is_on good.ended in
      rw w.written (record {
        chain = Chain-appended r call ctx t input.options.actor e good w.admitted w.fits;
        next = next_appended r call ctx t input.options.actor e good w.admitted w.fits;
        rooted = IsRooted-appended r call ctx t input.options.actor e good w.admitted w.fits refl;
        one_run = one_run_appended r call ctx t input.options.actor e good w.admitted w.fits;
        ended = Ends-running r.status _ on (
            All-snoc IsOpen r.events opens
              (subst (λ k. is_terminal k ≡ false) (sym w.admitted.event_type) refl));
        checkpointed =
            All-snoc (λ k. is_of (r.events ++ e ∷ []) k ≡ true) r.checkpoints
              (checkpointed_appended r call ctx t input.options.actor e good w.admitted w.fits)
              (is_of-snoc r.events e c
                (is_of-last r.events w.last c w.is_last w.last_event_id w.sequence));
      })
]

-- An operation that leaves events, checkpoints, number and status alone.
record SameRun (r r' : RunRecord) : Type 0 where
  run_id : r.run_id ≡ r'.run_id
  events : r.events ≡ r'.events
  checkpoints : r.checkpoints ≡ r'.checkpoints
  next_sequence : r.next_sequence ≡ r'.next_sequence
  status : r.status ≡ r'.status

SameRun-IsTrace : (r r' : RunRecord) → SameRun r r' → IsTrace r → IsTrace r'
SameRun-IsTrace r r' s good = record {
  chain = subst (Chain [] 1) s.events good.chain;
  next = subst₂ (λ n es. n ≡ suc (length es)) s.next_sequence s.events good.next;
  rooted = subst IsRooted s.events good.rooted;
  one_run = subst₂ (λ i es. All (λ (e : Event). e.run_id ≡ i) es) s.run_id s.events good.one_run;
  ended = subst₂ Ends s.status s.events good.ended;
  checkpointed =
      subst₂ (λ es cs. All (λ c. is_of es c ≡ true) cs) s.events s.checkpoints good.checkpointed;
}

limitation_same : (l : SnapshotLimitation) (r : RunRecord) → SameRun r (add_limitation l r).1
unfolding add_limitation
limitation_same l r = ground arith

incomplete_same :
    (l : Option SnapshotLimitation) (r : RunRecord) → SameRun r (mark_incomplete l r).1
unfolding mark_incomplete
incomplete_same none r = ground arith
incomplete_same (some l) r = ground arith

pub add_limitation-IsTrace :
    (l : SnapshotLimitation) (r : RunRecord) → IsTrace r → IsTrace (add_limitation l r).1
add_limitation-IsTrace l r = SameRun-IsTrace r (add_limitation l r).1 (limitation_same l r)

pub mark_incomplete-IsTrace :
    (l : Option SnapshotLimitation) (r : RunRecord) → IsTrace r → IsTrace (mark_incomplete l r).1
mark_incomplete-IsTrace l r = SameRun-IsTrace r (mark_incomplete l r).1 (incomplete_same l r)
