-- ===== src/Recorder/Invariant.antt =====
-- A recorded run is a trace: one root, a causal chain, and an end that fits the run's status.
pub mod Steps
use agent_loop_snapshot.Prelude.{
  ℕ, zero, suc, ◌+◌, String, ◌≡◌, refl, sym, ap, ◌∙◌, ◌⊎◌, inl, inr, Bool, true, false, ◌&&◌, ◌||◌,
  Option, none, some, List, [], ◌∷◌, ◌++◌, arith, eq_iff, all, any, includes, length, last?,
  last?-snoc, All, All-map, All-snoc, any-append, length-append, ◌==◌, ◌===◌, Bool-cases,
}
use mathlib.Core.Path.{subst}
use agent_loop_snapshot.Schema.Envelope.{Event, Checkpoint}
use agent_loop_snapshot.Recorder.Record.{
  RunStatus, running, completed, failed, observed, RunRecord, is_running, has_id, is_empty,
  EventContext, RecorderError, Result, ok, err,
}
use agent_loop_snapshot.Recorder.Commit.{Call}
use agent_loop_snapshot.Recorder.Lifecycle.{status_name}
use agent_loop_snapshot.Recorder.Chain.{Chain, Chain-snoc}
use agent_loop_snapshot.Recorder.Outcome.{Admitted, FitsRun, appended}

abbrev pub is_terminal : String → Bool
is_terminal = includes ("run.completed" ∷ "run.failed" ∷ "run.observed" ∷ [])

abbrev pub IsOpen : Event → Type 0
IsOpen e = is_terminal e.event_type ≡ false

-- An event that has a parent, and does not start a run.
abbrev pub IsInner : Event → Type 0
IsInner e = (is_empty e.parent_ids ≡ false) × ((e.event_type == "run.started") ≡ false)

-- The first event starts the run and has no parent; all others have one.
abbrev pub IsRooted : List Event → Type 0
IsRooted [] = ⊥
IsRooted (e ∷ es) = (e.event_type ≡ "run.started") × (e.parent_ids ≡ []) × All IsInner es

-- A running run has no terminal event; any other has one, of its status, and it is the last.
abbrev pub Ends : RunStatus → List Event → Type 0
Ends running es = All IsOpen es
Ends status es =
    (init : List Event) × (e : Event) × (es ≡ init ++ e ∷ [])
    × All IsOpen init
    × (e.event_type ≡ status_name status)

-- The checkpoint is of an event of the list, by identity and number.
abbrev pub is_of : List Event → Checkpoint → Bool
is_of es c = any (λ (e : Event). e.event_id == c.last_event_id && e.sequence === c.sequence) es

pub record IsTrace (r : RunRecord) : Type 0 where
  pub chain : Chain [] 1 r.events
  pub next : r.next_sequence ≡ suc (length r.events)
  pub rooted : IsRooted r.events
  pub one_run : All (λ e. e.run_id ≡ r.run_id) r.events
  pub ended : Ends r.status r.events
  pub checkpointed : All (λ c. is_of r.events c ≡ true) r.checkpoints

IsRooted-snoc : (es : List Event) (e : Event) → IsRooted es → IsInner e → IsRooted (es ++ e ∷ [])
IsRooted-snoc [] e h i = absurd h
IsRooted-snoc (x ∷ es) e h i = (h.0, h.1, All-snoc IsInner es h.2 i)

is_of-snoc :
    (es : List Event) (e : Event) (c : Checkpoint)
    → is_of es c ≡ true
    → is_of (es ++ e ∷ []) c ≡ true
is_of-snoc es e c h =
    rw
      (any-append (λ (f : Event). f.event_id == c.last_event_id && f.sequence === c.sequence) es
        (e ∷ []))
      (rw h refl)

-- The last event is one of the events.
is_of-last :
    (es : List Event) (e : Event) (c : Checkpoint)
    → last? es ≡ some e
    → c.last_event_id ≡ e.event_id
    → c.sequence ≡ e.sequence
    → is_of es c ≡ true
is_of-last [] e c l i s = cc
is_of-last (x ∷ []) e c l i s = ground (arith, eq_iff x.event_id c.last_event_id)
is_of-last (x ∷ y ∷ es) e c l i s = ground (arith, is_of-last (y ∷ es) e c l i s)

module _ (r : RunRecord) (call : Call) (ctx : EventContext) (t : String) (given : Option String)
    (e : Event) (good : IsTrace r) (adm : Admitted r call ctx t given e)
    (fits : FitsRun r ctx) where
  pub Chain-appended : Chain [] 1 (r.events ++ e ∷ [])
  Chain-appended =
      Chain-snoc r.events e good.chain (adm.sequence ∙ good.next) adm.fresh
        (subst (λ ps. all (has_id r.events) ps ≡ true) (sym adm.parent_ids) fits.known_parents)

  pub IsRooted-appended : (t == "run.started") ≡ false → IsRooted (r.events ++ e ∷ [])
  IsRooted-appended h = IsRooted-snoc r.events e good.rooted (
    subst (λ ps. is_empty ps ≡ false) (sym adm.parent_ids) fits.some_parent,
    subst (λ k. (k == "run.started") ≡ false) (sym adm.event_type) h,
  )

  pub one_run_appended : All (λ f. f.run_id ≡ r.run_id) (r.events ++ e ∷ [])
  one_run_appended = All-snoc (λ (f : Event). f.run_id ≡ r.run_id) r.events good.one_run adm.run_id

  pub next_appended : r.next_sequence + 1 ≡ suc (length (r.events ++ e ∷ []))
  next_appended = omega (arith, good.next, length-append r.events (e ∷ []))

  pub checkpointed_appended : All (λ c. is_of (r.events ++ e ∷ []) c ≡ true) r.checkpoints
  checkpointed_appended =
      All-map (λ c. is_of r.events c ≡ true) (λ c. is_of (r.events ++ e ∷ []) c ≡ true)
        (is_of-snoc r.events e) r.checkpoints good.checkpointed
