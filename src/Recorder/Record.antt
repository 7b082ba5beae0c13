-- ===== src/Recorder/Record.antt =====
-- packages/recorder/src/index.ts: the record of a run, its contexts, and the checks on both.
use agent_loop_snapshot.Prelude.{
  ℕ, String, Bool, true, false, not, Option, none, some, List, [], ◌∷◌, ◌==◌, if◌then◌else◌, any,
  all, includes, last?,
}
use agent_loop_snapshot.Schema.Observation.{
  SnapshotSource, SnapshotCompleteness, SnapshotLimitation,
}
use agent_loop_snapshot.Schema.Envelope.{
  Event, Checkpoint, EventSecurity, Payload, RuntimeDescriptor, read_only,
}

pub data RunStatus : Type 0 where
  running completed failed observed : RunStatus

pub data RecorderError : Type 0 where
  invalid_lifecycle_transition context_run_mismatch missing_parent_context : RecorderError
  missing_parent_event reserved_event_type duplicate_event_id duplicate_run_id : RecorderError
  run_not_found checkpoint_without_event interceptor_identity_mutation : RecorderError
  interceptor_failed_before_commit interceptor_failed_after_checkpoint : RecorderError
  -- what a `beforeAppend` or `beforeCheckpoint` interceptor throws is passed on as it is
  interceptor_threw : RecorderError

pub data Result {ℓ} (A : Type ℓ) : Type ℓ where
  ok : A → Result A
  err : RecorderError → Result A

-- `created_at` is the text of the date.
pub record RunRecord : Type 0 where
  pub run_id : String
  pub actor : String
  pub runtime : RuntimeDescriptor
  pub source : SnapshotSource
  pub completeness : SnapshotCompleteness
  pub limitations : List SnapshotLimitation
  pub created_at : String
  pub started_monotonic : ℕ
  pub events : List Event
  pub checkpoints : List Checkpoint
  pub next_sequence : ℕ
  pub status : RunStatus

-- An operation on a run mutates its record and may throw; what was written before stays written.
abbrev pub Exec : Type 0 → Type 0
Exec A = RunRecord → Result A × RunRecord

abbrev pub continue : {A B : Type 0} → Result A → (A → Exec B) → Exec B
continue (ok a) f s = f a s
continue (err e) f s = (err e, s)

infixl 5 ◌>>=◌ ◌>>◌
abbrev pub ◌>>=◌ : {A B : Type 0} → Exec A → (A → Exec B) → Exec B
◌>>=◌ m f s = continue (m s).0 f (m s).1

abbrev pub ◌>>◌ : {B : Type 0} → Exec (Unit {0}) → Exec B → Exec B
m >> k = m >>= λ _. k

abbrev pub pure : {A : Type 0} → A → Exec A
pure a s = (ok a, s)

abbrev pub throw : {A : Type 0} → RecorderError → Exec A
throw e s = (err e, s)

abbrev pub lift : {A : Type 0} → Result A → Exec A
lift r s = (r, s)

abbrev pub guard : Bool → RecorderError → Result (Unit {0})
guard true e = ok tt
guard false e = err e

pub record EventContext : Type 0 where
  pub run_id : String
  pub parent_ids : List String
  pub actor : String

pub record AppendInput : Type 0 where
  pub event_type : String
  pub payload : Payload
  pub actor : Option String
  pub security : Option EventSecurity

-- `reservedEventTypes.has(type)`
unfoldable pub is_reserved : String → Bool
is_reserved =
    includes
      ("run.started" ∷ "run.completed" ∷ "run.failed" ∷ "run.observed" ∷ "checkpoint.created" ∷ [])

abbrev pub is_running : RunStatus → Bool
is_running running = true
is_running _ = false

-- An event of the list has the identity.
abbrev pub has_id : List Event → String → Bool
has_id es id = any (λ (e : Event). e.event_id == id) es

-- `assertRunning`
unfoldable pub assert_running : RunRecord → Result (Unit {0})
assert_running r = guard (is_running r.status) invalid_lifecycle_transition

abbrev pub is_empty {ℓ} : {A : Type ℓ} → List A → Bool
is_empty [] = true
is_empty (_ ∷ _) = false

-- `assertContext`
unfoldable pub assert_context : RunRecord → EventContext → Result (Unit {0})
assert_context r ctx =
    if not (ctx.run_id == r.run_id)
    then err context_run_mismatch
    else if is_empty ctx.parent_ids
    then err missing_parent_context
    else guard (all (has_id r.events) ctx.parent_ids) missing_parent_event

abbrev pub default_security : Option EventSecurity → EventSecurity
default_security none = record { side_effect = read_only; redactions = [] }
default_security (some s) = s

abbrev pub last_id : List Event → List String
last_id es = elim (last? es) [ none ↦ [] | some e ↦ e.event_id ∷ [] ]

abbrev pub or_else {ℓ} : {A : Type ℓ} → Option A → A → A
or_else none d = d
or_else (some a) d = a

-- `Recorder.context`: the parents and the actor default to the last event and the run's actor.
unfoldable pub context : RunRecord → Option (List String) → Option String → EventContext
context r parents actor = record {
  run_id = r.run_id;
  parent_ids = or_else parents (last_id r.events);
  actor = or_else actor r.actor;
}
