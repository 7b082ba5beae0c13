-- ===== src/Lib.antt =====
-- Agent Loop Snapshot: a model of the TypeScript packages that record the runs of an agent as
-- snapshots and that decide what may be executed when a snapshot is replayed.
--
-- How the parts interact. A recorder (packages/recorder/src/index.ts) numbers the events of a run,
-- checks their contexts, passes them through interceptors and keeps the record; the event writer
-- (packages/recorder/src/writer.ts) is one of these interceptors and writes each event as a line of
-- a file before the recorder commits it. A finished run has a manifest. When a snapshot is loaded, the
-- trace loader (packages/trace/src/index.ts) reads its events and looks for broken and circular
-- references, and the state of the run is rebuilt from its events and checkpoints
-- (packages/recorder/src/checkpoints.ts). When a snapshot is replayed,
-- the evidence gate (packages/schema/src/observation.ts, packages/replay/src/execution-gate.ts)
-- reads the manifest and says whether the evidence allows an execution at all, and the policy engine
-- (packages/replay/src/policy.ts) decides on each single action, by rules, defaults and approvals.
--
-- Prelude holds the tests, the functions on lists and texts, and the maps that the parts share.
--
-- Schema.Json models JSON values. Schema.Envelope models the interfaces of
-- packages/schema/src/index.ts with their fields (EventEnvelope is Event). Schema.Observation models
-- observation.ts: read_metadata is readSnapshotObservationMetadata, assess is
-- assessSnapshotExecution, assess_trace is assessTraceExecution.
--
-- Schema.Migration models the version tests of packages/schema/src/migration.ts
-- (inspectSnapshotCompatibility is inspect_compatibility) and its replaceVersion.
--
-- Replay.Policy models the actions of policy.ts (create_action is createReplayPolicyAction, over
-- encodeURIComponent and the decimal text of a number as parameters), Replay.Engine the class
-- ReplayPolicyEngine: evaluate, and execute with authorize. An audit sink and an operation are what
-- they answer; the effects of an execution are listed in order.
--
-- Replay.Adapters models ReplayAdapterRegistry of packages/replay/src/adapters.ts; an adapter is its
-- descriptor and what a call of it does.
--
-- Replay.Correlation models createReplayCorrelationKey of packages/replay/src/correlation.ts, over the
-- same two parameters as Replay.Policy.
--
-- Replay.Recorded models packages/replay/src/recorded.ts: create_recorded is
-- createRecordedReplayAdapterSet up to the adapter objects, whose lookup is lookup. The maps are
-- association lists in insertion order, and a call key is a triple where the source joins its parts by
-- NUL characters.
--
-- Redaction models packages/recorder/src/redaction.ts. Redaction.Input is what a caller may supply and
-- Redaction.Value normalizeValue, Redaction.Text canonicalJson, Redaction.Rules the rules, placeholders and
-- decisions. Redaction.Walk is applyPathRule, Redaction.Content the rules without a path and
-- redactJsonValue, Redaction.Protocol redactProtocolEventPayload, Redaction.Addresses and
-- Redaction.StateChange redactStateChangePayload, Redaction.Pipeline the class RedactionPipeline. A step
-- runs against the memory of the placeholders, which an exception leaves as it is by then. A regular
-- expression is a function that cuts a text into what it matches and what it does not, a custom redactor
-- a function from a value and its context to an answer, and randomUUID a sequence. What an object
-- inherits from Object.prototype is null where a rule names it.
--
-- Graph models packages/graph/src/index.ts. Graph.Grouping has statusForType, foldKind, groupEvents and
-- createNode, where a regular expression is written out as tests of prefixes and parts; Graph.Filter has
-- matchesFilter and projectBase, Graph.Projection the edges and project, over a given localeCompare.
--
-- Recorder.Record is the state of one run (RunRecord) and the checks on it, Recorder.Commit
-- buildEvent, commitEvent and the interceptors, Recorder.Lifecycle the operations appendEvent,
-- completeRun, failRun, observeRun, checkpoint, addLimitation and markIncomplete, Recorder.Start
-- startRun and getManifest. An operation takes the record to a result and the record it leaves, and is
-- one step of the run's queue. What the clock, the identity generator and the interceptors give during
-- one operation is its Call. The map from run IDs to records is not modelled: a record is one run.
--
-- Writer.State models JsonlEventWriter: append, flush and close, over what the fault injector and
-- the file system answer. A write puts the whole text into the file, or returns or throws when a part of
-- it is there; the code does not look at the number of bytes written. The file is the list of what was
-- written to it since it was opened, and durable is what the last sync covered. Writer.File gives the
-- file's lines, cut as the trace loader cuts them, over the text that JSON.stringify makes of an event
-- (which has no newline) and what the file held before.
--
-- Export.HttpClient models the sender of packages/otel-export/src/http-client.ts: send over a
-- function that gives, for each attempt, what the signal, the timers, the network and the random
-- source answer. The loop recurses on the number of attempts left, of which send gives it max(1,
-- configured), so that no fuel is needed. Export.HttpClient.Target models resolveTarget over the
-- environment, the URL parser and the platform's test of a header.
--
-- State models the reconstruction of packages/recorder/src/checkpoints.ts: State.Pointer its JSON
-- pointers, State.Container the containers of a state and what changes them, State.Change
-- applyStateChanged, State.Rebuild the check of the event stream, the choice of a checkpoint and
-- reconstructState. A mutation of a container inside the state is the writing back of its new contents
-- at its path, since no container stands in a state twice. hashState, the artifact resolver and what
-- the checkpoint store loads are parameters. The order of an object's keys is that of their insertion.
--
-- Trace models packages/trace/src/index.ts: Trace.Lines is readJsonlFile over the chunks of the stream
-- and JSON.parse, Trace.Index buildIndexes, Trace.Structure buildStructuralDiagnostics and
-- Trace.Query createQueryModel, Trace.Artifacts collectArtifactReferences, the loop's body of
-- loadArtifactMetadata and readArtifact over SHA-256 and what the snapshot path boundary answers. The maps are association lists in insertion order. The loop of the
-- search for cycles recurses on fuel, of which it is given one for each identity that is ready or has a
-- positive indegree; indegrees are integers, since they fall below 0 where identities are used twice.
--
-- Export.Queue models the class PersistentQueue of packages/otel-export/src/queue.ts: scan with
-- after_scan, acquire_lock, enqueue, and Export.Queue.Flush flushInternal. The directory of entries is
-- the list of its files, in which a new name stands wherever the file system lists it; what the clock, the file system and the sender answer is given by the name of
-- the file they are asked about, and a clock does not go back. The sender's reports are those of
-- Export.HttpClient.
--
-- Not modelled: the loading of manifests and checkpoints by the trace loader and its whole run, the files of the checkpoint store, the artifact store,
-- schema validation, the migration of whole documents and directories, the replay runners and the
-- compiler, the OTLP mapping and import, instrumentation and the command line. The
-- JSON schemas are checked by a third-party validator.
mod Prelude
pub mod Schema
pub mod Replay
pub mod Recorder
pub mod Writer
pub mod Export
pub mod Graph
pub mod State
pub mod Trace
pub mod Redaction
