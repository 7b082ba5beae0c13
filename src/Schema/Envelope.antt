-- ===== src/Schema/Envelope.antt =====
-- packages/schema/src/index.ts: the event envelope, checkpoints, manifests and what they hold.
use agent_loop_snapshot.Prelude.{ℕ, String, Bool, Option, List}
use agent_loop_snapshot.Schema.Json.{Json}
use agent_loop_snapshot.Schema.Observation.{
  SnapshotSource, SnapshotCompleteness, SnapshotLimitation,
}

pub data SideEffectLevel : Type 0 where
  read_only workspace_write external_write destructive : SideEffectLevel

pub data ErrorKind : Type 0 where
  model tool validation policy runtime unknown : ErrorKind

pub record ErrorInfo : Type 0 where
  pub code : String
  pub message : String
  pub retryable : Bool
  pub kind : Option ErrorKind
  pub details : Option Json

pub data RedactionStrategy : Type 0 where
  mask reference remove custom : RedactionStrategy

pub record RedactionEntry : Type 0 where
  pub category : String
  pub path : String
  pub strategy : RedactionStrategy

pub record EventSecurity : Type 0 where
  pub side_effect : SideEffectLevel
  pub redactions : List RedactionEntry

pub record RuntimeDescriptor : Type 0 where
  pub name : String
  pub version : String
  pub adapter : Option String

pub data ObservedOutcome : Type 0 where
  completed failed unknown : ObservedOutcome

-- `CheckpointCreatedPayload`
pub record CheckpointCreated : Type 0 where
  pub checkpoint_id : String
  pub last_event_id : String
  pub sequence : ℕ
  pub state_hash : String

-- The payloads that the recorder builds itself, and those that its callers supply.
pub data Payload : Type 0 where
  run_started : RuntimeDescriptor → Option Json → Payload
  run_completed : (final_state_hash : String) → Option Json → Payload
  run_failed : ErrorInfo → Payload
  run_observed : ObservedOutcome → Option String → Payload
  checkpoint_created : CheckpointCreated → Payload
  supplied : Json → Payload

-- `monotonic_offset_ms` counts in units of the clock's resolution.
pub record Event : Type 0 where
  pub schema_version : String
  pub run_id : String
  pub event_id : String
  pub parent_ids : List String
  pub sequence : ℕ
  pub event_type : String
  pub timestamp : String
  pub monotonic_offset_ms : ℕ
  pub actor : String
  pub payload : Payload
  pub security : EventSecurity

pub record Checkpoint : Type 0 where
  pub schema_version : String
  pub checkpoint_id : String
  pub run_id : String
  pub created_at : String
  pub last_event_id : String
  pub sequence : ℕ
  pub state_hash : String
  pub state : Json

pub data RunState : Type 0 where
  running finished incomplete : RunState

pub data TerminalStatus : Type 0 where
  completed failed aborted unknown : TerminalStatus

pub record Manifest : Type 0 where
  pub schema_version : String
  pub run_id : String
  pub created_at : String
  pub updated_at : String
  pub run_state : RunState
  pub terminal_status : Option TerminalStatus
  pub runtime : RuntimeDescriptor
  pub source : SnapshotSource
  pub completeness : SnapshotCompleteness
  pub limitations : List SnapshotLimitation
  pub last_sequence : ℕ
  pub event_count : ℕ
  pub root_event_id : Option String
  pub completed_at : Option String

-- `snapshotSchemaVersion` of packages/schema/src/protocol.ts
abbrev pub snapshot_schema_version : String
snapshot_schema_version = "0.2.0"
