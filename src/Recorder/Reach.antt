-- ===== src/Recorder/Reach.antt =====
-- The runs that a recorder can bring about: a start, then operations in any order, each with
-- whatever the clock, the identity generator and the interceptors give.

use agent_loop_snapshot.Prelude.{
  ℕ, ◌<◌, String, ◌≡◌, refl, sym, ◌∙◌, inl, inr, true, false, Option, none, some, [], arith,
  includes, ap,
}
use mathlib.Core.Path.{subst}
use mathlib.Core.List.{Memᴰ}
use agent_loop_snapshot.Schema.Json.{Json}
use agent_loop_snapshot.Schema.Observation.{SnapshotLimitation}
use agent_loop_snapshot.Schema.Envelope.{
  Event, Payload, ErrorInfo, ObservedOutcome, run_completed, run_failed, run_observed,
}
use agent_loop_snapshot.Recorder.Record.{
  RunStatus, running, completed, failed, observed, RunRecord, is_running, EventContext, AppendInput,
  ok, context,
}
use agent_loop_snapshot.Recorder.Commit.{Call, build_event, commit_event}
use agent_loop_snapshot.Recorder.Lifecycle.{
  append_event, complete_run, fail_run, observe_run, checkpoint, CheckpointInput, LifecycleOptions,
  add_limitation, mark_incomplete, finish_run,
}
use agent_loop_snapshot.Recorder.Start.{
  start_run, StartOptions, new_record, commit_start, started_record,
}
use agent_loop_snapshot.Recorder.Outcome.{commit_outcome, appended, append_outcome, finish_outcome}
use agent_loop_snapshot.Recorder.CheckpointOutcome.{checkpoint_outcome}
use agent_loop_snapshot.Recorder.Chain.{parent-lt}
use agent_loop_snapshot.Recorder.Invariant.{IsTrace}
use agent_loop_snapshot.Recorder.Invariant.Steps.{
  append-IsTrace, finish-IsTrace, checkpoint-IsTrace, add_limitation-IsTrace,
  mark_incomplete-IsTrace, Ends-running,
}

pub data Step : RunRecord → RunRecord → Type 0 where
  append :
      (call : Call) (ctx : EventContext) (input : AppendInput) (r : RunRecord)
      → Step r (append_event call ctx input r).1
  complete :
      (call : Call) (hash : String) (output : Option Json) (o : LifecycleOptions) (r : RunRecord)
      → Step r (complete_run call hash output o r).1
  fail :
      (call : Call) (error : ErrorInfo) (o : LifecycleOptions) (r : RunRecord)
      → Step r (fail_run call error o r).1
  observe :
      (call : Call) (outcome : ObservedOutcome) (summary : Option String) (o : LifecycleOptions)
      (r : RunRecord)
      → Step r (observe_run call outcome summary o r).1
  take_checkpoint :
      (call : Call) (input : CheckpointInput) (r : RunRecord) → Step r (checkpoint call input r).1
  limit : (l : SnapshotLimitation) (r : RunRecord) → Step r (add_limitation l r).1
  downgrade : (l : Option SnapshotLimitation) (r : RunRecord) → Step r (mark_incomplete l r).1

pub data Recorded : RunRecord → Type 0 where
  started :
      (created_at : String) (started_monotonic : ℕ) (call : Call) (run_id actor : String)
      (o : StartOptions) {r : RunRecord}
      → start_run created_at started_monotonic call run_id actor o ≡ ok r
      → Recorded r
  step : {r r' : RunRecord} → Recorded r → Step r r' → Recorded r'

Step-IsTrace : {r r' : RunRecord} → Step r r' → IsTrace r → IsTrace r'
unfolding complete_run fail_run observe_run
Step-IsTrace (append call ctx input r) h = append-IsTrace call ctx input r h
Step-IsTrace (complete call hash output o r) h =
    finish-IsTrace call completed (run_completed hash output) o r refl h
Step-IsTrace (fail call error o r) h = finish-IsTrace call failed (run_failed error) o r refl h
Step-IsTrace (observe call outcome summary o r) h =
    finish-IsTrace call observed (run_observed outcome summary) o r refl h
Step-IsTrace (take_checkpoint call input r) h = checkpoint-IsTrace call input r h
Step-IsTrace (limit l r) h = add_limitation-IsTrace l r h
Step-IsTrace (downgrade l r) h = mark_incomplete-IsTrace l r h

ok_injective : {A : Type 0} {a b : A} → ok a ≡ ok b → a ≡ b
ok_injective e = cc

-- The first event of a new record.
start_event :
    (created_at : String) (m : ℕ) (call : Call) (run_id actor : String) (o : StartOptions)
    → (event : Event) × (commit_start call o (new_record created_at m run_id actor o)
        ≡ commit_event call (λ s. s) event (new_record created_at m run_id actor o))
      × (event.sequence ≡ 1)
      × (event.run_id ≡ run_id)
      × (event.parent_ids ≡ [])
      × (event.event_type ≡ "run.started")
unfolding build_event context
start_event created_at m call run_id actor o = (_, refl, refl, refl, refl, refl)

first_IsTrace :
    (r : RunRecord) (e : Event)
    → r.events ≡ []
    → r.checkpoints ≡ []
    → r.next_sequence ≡ 1
    → r.status ≡ running
    → e.sequence ≡ 1
    → e.run_id ≡ r.run_id
    → e.parent_ids ≡ []
    → e.event_type ≡ "run.started"
    → IsTrace (appended r e)
first_IsTrace r e es cs n st s i p t = record {
  chain = rw es (s, refl, rw p refl, tt);
  next = rw es (omega arith);
  rooted = rw es (t, p, tt);
  one_run = rw es (i, tt);
  ended = Ends-running r.status _ st (rw es (rw t refl, tt));
  checkpointed = rw cs tt;
}

start-IsTrace :
    (created_at : String) (m : ℕ) (call : Call) (run_id actor : String) (o : StartOptions)
    {r : RunRecord}
    → start_run created_at m call run_id actor o ≡ ok r
    → IsTrace r
unfolding start_run
start-IsTrace created_at m call run_id actor o {r} h =
    let r₀ = new_record created_at m run_id actor o in
    let (event, same, s, i, p, t) = start_event created_at m call run_id actor o in
    elim (commit_outcome call (λ s. s) event r₀) [
      | inl (x, out) ↦ cc (same, out)
      | inr (e, out, id, fresh) ↦
          let made : appended r₀ e ≡ r =
            ok_injective (ap started_record (sym out ∙ sym same) ∙ h) in
          subst IsTrace made (
            first_IsTrace r₀ e refl refl refl refl (sym id.sequence ∙ s) (sym id.run_id ∙ i)
              (sym id.parent_ids ∙ p) (sym id.event_type ∙ t))
    ]

-- Every recorded run is a trace, whatever operations, clocks, identity generators and interceptors
-- made it: its events are numbered from one and have distinct identities, the first starts the run
-- and has no parent, every other has a parent and all its parents are earlier, a terminal event
-- stands only at the end and fits the status, and every checkpoint is of one of the events.
pub Recorded-IsTrace : {r : RunRecord} → Recorded r → IsTrace r
Recorded-IsTrace (started created_at m call run_id actor o h) =
    start-IsTrace created_at m call run_id actor o h
Recorded-IsTrace (step rec st) = Step-IsTrace st (Recorded-IsTrace rec)

-- In a recorded run each parent of an event is an event with a smaller number.
pub Recorded-parent-lt :
    {r : RunRecord}
    → Recorded r
    → (e : Event) (p : String) → Memᴰ e r.events
    → includes e.parent_ids p ≡ true
    → (f : Event) × Memᴰ f r.events × (f.event_id ≡ p) × (f.sequence < e.sequence)
Recorded-parent-lt {r} rec e p m i = parent-lt r.events (Recorded-IsTrace rec).chain e p m i

finish_finished :
    (call : Call) (s : RunStatus) (p : Payload) (o : LifecycleOptions) (r : RunRecord)
    → is_running r.status ≡ false
    → (finish_run call s p o r).1 ≡ r
finish_finished call s p o r h = elim (finish_outcome call s p o r) [
  | inl (x, e) ↦ rw e
  | inr (e, out, adm, fits) ↦ cc (h, fits.is_on)
]

-- A run that has ended is frozen: no operation changes anything of its record.
pub Step-finished : {r r' : RunRecord} → Step r r' → is_running r.status ≡ false → r' ≡ r
unfolding complete_run fail_run observe_run add_limitation mark_incomplete
Step-finished (append call ctx input r) h = elim (append_outcome call ctx input r) [
  | inl (x, e) ↦ rw e
  | inr (e, out, adm, fits) ↦ cc (h, fits.is_on)
]
Step-finished (complete call hash output o r) h =
    finish_finished call completed (run_completed hash output) o r h
Step-finished (fail call error o r) h = finish_finished call failed (run_failed error) o r h
Step-finished (observe call outcome summary o r) h =
    finish_finished call observed (run_observed outcome summary) o r h
Step-finished (take_checkpoint call input r) h = elim (checkpoint_outcome call input r) [
  | inl (x, e) ↦ rw e
  | inr (e, c, w) ↦ cc (h, w.fits.is_on)
]
Step-finished (limit l r) h = rw h
Step-finished (downgrade none r) h = rw h
Step-finished (downgrade (some l) r) h = rw h
