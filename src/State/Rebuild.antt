-- ===== src/State/Rebuild.antt =====
-- `reconstructState` and the checks on its events and checkpoints
-- (packages/recorder/src/checkpoints.ts).
use agent_loop_snapshot.Prelude.{
  ℕ, ◌+◌, String, Bool, true, false, ◌&&◌, ◌||◌, not, Option, none, some, List, [], ◌∷◌, ◌++◌, ◌==◌,
  ◌===◌, leb, if◌then◌else◌, is_some, find, last?, includes,
}
use agent_loop_snapshot.Schema.Json.{Json, num, Fields, end, get, as_string, as_record}
use agent_loop_snapshot.Replay.Policy.{max_safe_integer}
use agent_loop_snapshot.State.Pointer.{
  StateError, Result, ok, err, ◌>>=◌, event_run_id_mismatch, event_sequence_invalid,
  state_event_invalid, state_value_invalid,
}
use agent_loop_snapshot.State.Container.{Container, object, clone_fields}
use agent_loop_snapshot.State.Change.{StateChanged, apply_state_changed}

-- What the reconstruction reads of an event envelope.
pub record StreamEvent : Type 0 where
  pub run_id : String
  pub event_id : String
  pub sequence : ℕ
  pub event_type : String
  pub payload : Json

-- What it reads of a checkpoint; an artifact reference is an object, too.
pub record StoredCheckpoint : Type 0 where
  pub checkpoint_id : String
  pub run_id : String
  pub last_event_id : String
  pub sequence : ℕ
  pub state_hash : String
  pub state : Fields

pub data CheckpointDiagnosticCode : Type 0 where
  checkpoint_file_invalid_json checkpoint_invalid checkpoint_run_id_mismatch :
      CheckpointDiagnosticCode
  checkpoint_event_mismatch checkpoint_state_unavailable : CheckpointDiagnosticCode
  checkpoint_state_hash_mismatch : CheckpointDiagnosticCode

-- `CheckpointDiagnostic`, without its message.
pub record CheckpointDiagnostic : Type 0 where
  pub code : CheckpointDiagnosticCode
  pub checkpoint_id : Option String
  pub file : Option String

pub record LoadResult : Type 0 where
  pub checkpoints : List StoredCheckpoint
  pub diagnostics : List CheckpointDiagnostic

-- `StateArtifactResolver`, given the fields of the reference.
abbrev pub Resolver : Type 0
Resolver = Fields → Result Json

-- `StateReconstructionOptions`, with what the store's `load` gives.
pub record ReconstructionOptions : Type 0 where
  pub checkpoints : List StoredCheckpoint
  pub loaded : Option LoadResult
  pub resolve_artifact : Option Resolver

pub record Reconstruction : Type 0 where
  pub state : Container
  pub state_hash : String
  pub last_event_id : Option String
  pub sequence : ℕ
  pub checkpoint_id : Option String
  pub used_checkpoint : Bool
  pub diagnostics : List CheckpointDiagnostic

-- `isSupportedSnapshotSchemaVersion` of packages/schema/src/protocol.ts
abbrev pub is_supported_version : Option Json → Bool
is_supported_version v = elim (as_string v) [
  | none ↦ false
  | some s ↦ includes ("0.1.0" ∷ "0.2.0" ∷ []) s
]

abbrev is_number : Option Json → Bool
is_number (some (num _)) = true
is_number _ = false

-- `isArtifactReference`, of the fields of an object.
unfoldable pub is_artifact_reference : Fields → Bool
is_artifact_reference fs =
    is_supported_version (get "schema_version" fs)
    && is_some (as_string (get "digest" fs))
    && is_some (as_string (get "media_type" fs))
    && is_number (get "byte_length" fs)

abbrev require_object : Json → StateError → Result Fields
require_object v e = elim (as_record v) [ none ↦ err e | some fs ↦ ok fs ]

abbrev resolved_state : Option Resolver → Fields → Result Json
resolved_state none fs = err state_value_invalid
resolved_state (some resolve) fs = resolve fs

-- `checkpointState`
unfoldable pub checkpoint_state : Option Resolver → StoredCheckpoint → Result Container
unfolding is_artifact_reference clone_fields
checkpoint_state resolve c = elim (is_artifact_reference c.state) [
  | true ↦ do
    v ← resolved_state resolve c.state
    fs ← require_object v state_value_invalid
    ok (object (clone_fields fs))
  | false ↦ ok (object (clone_fields c.state))
]

abbrev pub has_sequence : ℕ → StreamEvent → Bool
has_sequence n e = e.sequence === n

-- `eventAtSequence`
abbrev pub event_at_sequence : List StreamEvent → ℕ → Option StreamEvent
event_at_sequence es n = find (has_sequence n) es

abbrev pub is_run : Option String → StreamEvent → Bool
is_run none e = true
is_run (some r) e = e.run_id == r

-- The loop of `validateEventStream`, with its `runId` and `previousSequence`.
unfoldable pub validate_from : Option String → ℕ → List StreamEvent → Result (Option String)
validate_from run n [] = ok run
validate_from run n (e ∷ es) = elim (is_run run e) [
  | false ↦ err event_run_id_mismatch
  | true ↦ elim (leb e.sequence max_safe_integer && e.sequence === n + 1) [
    | false ↦ err event_sequence_invalid
    | true ↦ validate_from (some e.run_id) e.sequence es
  ]
]

-- `validateEventStream`
unfoldable pub validate_event_stream : List StreamEvent → Result (Option String)
unfolding validate_from
validate_event_stream es = validate_from none 0 es

-- A checkpoint's state, or the code of the diagnostic.
pub data Base : Type 0 where
  base : Container → Base
  rejected : CheckpointDiagnosticCode → Base

abbrev pub refers_to : StoredCheckpoint → Option StreamEvent → Bool
refers_to c none = false
refers_to c (some e) = e.event_id == c.last_event_id

-- `left.sequence` is at most `right.sequence`: the order of the candidates, latest first.
unfoldable pub insert_candidate : StoredCheckpoint → List StoredCheckpoint → List StoredCheckpoint
insert_candidate c [] = c ∷ []
insert_candidate c (d ∷ ds) =
    if leb d.sequence c.sequence then c ∷ d ∷ ds else d ∷ insert_candidate c ds

unfoldable pub sort_candidates : List StoredCheckpoint → List StoredCheckpoint
unfolding insert_candidate
sort_candidates [] = []
sort_candidates (c ∷ cs) = insert_candidate c (sort_candidates cs)

-- The loop over the candidates: the diagnostics, and the first checkpoint that is accepted.
pub record Choice : Type 0 where
  pub diagnostics : List CheckpointDiagnostic
  pub chosen : Option (Container × StoredCheckpoint)

abbrev pub diagnosed : StoredCheckpoint → CheckpointDiagnosticCode → Choice → Choice
diagnosed c code rest = record {
  diagnostics =
      record { code = code; checkpoint_id = some c.checkpoint_id; file = none } ∷ rest.diagnostics;
  chosen = rest.chosen;
}

-- The payload of a `state.changed` event.
unfoldable pub state_changed_payload : Option Resolver → Json → Result StateChanged
unfolding is_artifact_reference
state_changed_payload resolve v = do
  payload ← elim (as_record v) [
    | none ↦ ok v
    | some fs ↦ elim (is_artifact_reference fs) [ true ↦ resolved_state resolve fs | false ↦ ok v ]
  ]
  fs ← require_object payload state_event_invalid
  elim (as_string (get "path" fs)) [
    | none ↦ err state_event_invalid
    | some path ↦ elim (as_string (get "operation" fs)) [
      | none ↦ err state_event_invalid
      | some operation ↦ ok (record { path = path; operation = operation; fields = fs })
    ]
  ]

-- One turn of the loop over the events.
unfoldable pub replay_event : Option Resolver → ℕ → Container → StreamEvent → Result Container
unfolding state_changed_payload apply_state_changed
replay_event resolve from state e =
    elim (leb e.sequence from || not (e.event_type == "state.changed")) [
      | true ↦ ok state
      | false ↦ do
        payload ← state_changed_payload resolve e.payload
        apply_state_changed state payload
    ]

unfoldable pub replay_events : Option Resolver → ℕ → Container → List StreamEvent → Result Container
unfolding replay_event
replay_events resolve from state [] = ok state
replay_events resolve from state (e ∷ es) = do
  next ← replay_event resolve from state e
  replay_events resolve from next es

abbrev pub given_checkpoints : ReconstructionOptions → List StoredCheckpoint
given_checkpoints o = elim o.loaded [ none ↦ o.checkpoints | some l ↦ l.checkpoints ]

abbrev pub load_diagnostics : ReconstructionOptions → List CheckpointDiagnostic
load_diagnostics o = elim o.loaded [ none ↦ [] | some l ↦ l.diagnostics ]

abbrev pub nothing_chosen : Choice
nothing_chosen = record { diagnostics = []; chosen = none }

abbrev pub start_state : Choice → Container
start_state c = elim c.chosen [ none ↦ object end | some (s, _) ↦ s ]

abbrev pub start_sequence : Choice → ℕ
start_sequence c = elim c.chosen [ none ↦ 0 | some (_, d) ↦ d.sequence ]

abbrev pub chosen_id : Choice → Option String
chosen_id c = elim c.chosen [ none ↦ none | some (_, d) ↦ some d.checkpoint_id ]

-- Over `hashState`.
module _ (hash_state : Container → String) where
  -- `validCheckpointBase`
  unfoldable pub valid_checkpoint_base :
      Option Resolver → String → List StreamEvent → StoredCheckpoint → Base
  unfolding checkpoint_state
  valid_checkpoint_base resolve run es c =
      if not (c.run_id == run)
      then rejected checkpoint_run_id_mismatch
      else if not (refers_to c (event_at_sequence es c.sequence))
      then rejected checkpoint_event_mismatch
      else elim (checkpoint_state resolve c) [
        | err _ ↦ rejected checkpoint_state_unavailable
        | ok s ↦
            if hash_state s == c.state_hash then base s else rejected checkpoint_state_hash_mismatch
      ]

  unfoldable pub choose_checkpoint :
      Option Resolver → String → List StreamEvent → List StoredCheckpoint → Choice
  unfolding valid_checkpoint_base
  choose_checkpoint resolve run es [] = nothing_chosen
  choose_checkpoint resolve run es (c ∷ cs) = elim (valid_checkpoint_base resolve run es c) [
    | base s ↦ record { diagnostics = []; chosen = some (s, c) }
    | rejected code ↦ diagnosed c code (choose_checkpoint resolve run es cs)
  ]

  unfoldable pub choose_base : ReconstructionOptions → Option String → List StreamEvent → Choice
  unfolding choose_checkpoint sort_candidates
  choose_base o none es = nothing_chosen
  choose_base o (some run) es =
      choose_checkpoint o.resolve_artifact run es (sort_candidates (given_checkpoints o))

  -- `reconstructState`
  unfoldable pub reconstruct_state :
      ReconstructionOptions → List StreamEvent → Result Reconstruction
  unfolding validate_event_stream choose_base replay_events
  reconstruct_state o es = do
    run ← validate_event_stream es
    let choice = choose_base o run es
    state ← replay_events o.resolve_artifact (start_sequence choice) (start_state choice) es
    ok (record {
      state = state;
      state_hash = hash_state state;
      last_event_id = elim (last? es) [ none ↦ none | some e ↦ some e.event_id ];
      sequence = elim (last? es) [ none ↦ 0 | some e ↦ e.sequence ];
      checkpoint_id = chosen_id choice;
      used_checkpoint = is_some (chosen_id choice);
      diagnostics = load_diagnostics o ++ choice.diagnostics;
    })
