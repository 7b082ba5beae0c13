-- ===== src/Redaction/Pipeline.antt =====
-- packages/recorder/src/redaction.ts: the class `RedactionPipeline`.
use agent_loop_snapshot.Prelude.{
  ℕ, ◌+◌, String, Bool, false, ◌||◌, Option, none, some, List, [], ◌∷◌, ◌++◌, ◌==◌, leb,
  if◌then◌else◌, codes, any, map,
}
use agent_loop_snapshot.Schema.Json.{Json, str, obj, as_record}
use agent_loop_snapshot.Schema.Envelope.{RedactionEntry, Checkpoint}
use agent_loop_snapshot.Graph.Grouping.{starts_with, contains}
use agent_loop_snapshot.State.Rebuild
use agent_loop_snapshot.Redaction.Input.{Input}
use agent_loop_snapshot.Redaction.Value.{normalize, input_of}
use agent_loop_snapshot.Redaction.Rules.{
  Step, give, fail, ◌>>=◌, ◌>>◌, unsupported_value, Runtime, Source, reference, FieldRule,
  RegexRule, CustomRule, Pipeline, path_segments, add_entries,
}
use agent_loop_snapshot.Redaction.Walk.{ExecutionOptions}
use agent_loop_snapshot.Redaction.Content.{redact_json_value}
use agent_loop_snapshot.Redaction.Protocol.{field_paths, custom_paths, redact_protocol_event}
use agent_loop_snapshot.Redaction.StateChange.{redact_state_change_payload}

abbrev check_paths : List (Option String) → Step (Unit {0})
check_paths [] = give tt
check_paths (none ∷ paths) = check_paths paths
check_paths (some path ∷ paths) = do _ ← path_segments path; check_paths paths

-- The constructor.
unfoldable pub new_pipeline : List FieldRule → List RegexRule → List CustomRule → Step Pipeline
unfolding path_segments
new_pipeline fields regexes customs = do
  check_paths (field_paths fields)
  check_paths (custom_paths customs)
  give (record { field_rules = fields; regex_rules = regexes; custom_redactors = customs })

abbrev secret_at : String → String → FieldRule
secret_at path category = record { path = path; category = category; strategy = reference }

-- `defaultFieldRules`
abbrev pub default_field_rules : List FieldRule
default_field_rules =
    secret_at "/authorization" "authorization"
    ∷ secret_at "/Authorization" "authorization"
    ∷ secret_at "/headers/authorization" "authorization"
    ∷ secret_at "/headers/Authorization" "authorization"
    ∷ secret_at "/api_key" "api_key"
    ∷ secret_at "/apiKey" "api_key"
    ∷ secret_at "/password" "password"
    ∷ secret_at "/secret" "secret"
    ∷ secret_at "/token" "token"
    ∷ []

-- `createDefaultRedactionPipeline`, over the cuts of its default patterns.
unfoldable pub create_default_pipeline :
    List RegexRule → List FieldRule → List RegexRule → List CustomRule → Step Pipeline
unfolding new_pipeline
create_default_pipeline default_regex_rules fields regexes customs =
    new_pipeline (default_field_rules ++ fields) (default_regex_rules ++ regexes) customs

abbrev lower_case : ℕ → ℕ
lower_case c = if leb 65 c then (if leb c 90 then c + 32 else c) else c

abbrev lower : String → List ℕ
lower s = map lower_case (codes s)

-- `isTextMediaType`
unfoldable pub is_text_media_type : String → Bool
is_text_media_type t =
    starts_with (codes t) (codes "text/")
    || any (λ w. contains (lower t) (codes w)) ("json" ∷ "javascript" ∷ "xml" ∷ "yaml" ∷ "csv" ∷ [])

-- The content of an artifact: a text, or bytes.
pub data Content (B : Type 0) : Type 0 where
  text : String → Content B
  bytes : B → Content B

-- `TextDecoder`, `TextEncoder` and `JSON.parse`.
pub record Codec (B : Type 0) : Type 0 where
  pub decode : B → String
  pub encode : String → B
  pub parse : String → Option Json

pub record RedactedArtifact (B : Type 0) : Type 0 where
  pub content : Content B
  pub preview : Option String
  pub redactions : List RedactionEntry

module _ (r : Runtime) (p : Pipeline) where
  abbrev event_options : String → ExecutionOptions
  event_options event_type = record {
    path_prefix = "/payload";
    source = Source.event;
    event_type = some event_type;
  }

  abbrev or_protocol :
      String → Input → Option (Json × List RedactionEntry) → Step (Json × List RedactionEntry)
  or_protocol event_type payload (some result) = give result
  or_protocol event_type payload none = do
    controlled ← redact_protocol_event r p event_type (normalize payload)
    elim controlled [
      | some result ↦ give result
      | none ↦ redact_json_value r (event_options event_type) p (normalize payload)
    ]

  abbrev state_change_result : String → Input → Step (Option (Json × List RedactionEntry))
  state_change_result event_type payload =
      if event_type == "state.changed" then redact_state_change_payload r p payload else give none

  -- `redactEvent`: the new payload, and the entries of the event's security.
  unfoldable pub redact_event :
      String → Input → List RedactionEntry → Step (Json × List RedactionEntry)
  unfolding redact_state_change_payload redact_protocol_event redact_json_value normalize
  redact_event event_type payload existing = do
    changed ← state_change_result event_type payload
    result ← or_protocol event_type payload changed
    give (result.0, add_entries existing result.1)

  abbrev is_reference : Json → Bool
  is_reference v = elim (as_record v) [ none ↦ false | some fs ↦ Rebuild.is_artifact_reference fs ]

  abbrev with_state : (Json → String) → Checkpoint → Json → Step Checkpoint
  with_state hash_state c v = elim (as_record v) [
    | none ↦ fail unsupported_value
    | some fs ↦ give (record c { state = obj fs; state_hash = hash_state (obj fs) })
  ]

  -- `redactCheckpoint`
  unfoldable pub redact_checkpoint : (Json → String) → Checkpoint → Step Checkpoint
  unfolding redact_json_value normalize input_of Rebuild.is_artifact_reference
  redact_checkpoint hash_state c = if is_reference c.state then give c else (do
    result ←
        redact_json_value r
          (record {
            path_prefix = "/checkpoint/state";
            source = Source.checkpoint;
            event_type = none;
          })
          p (normalize (input_of c.state))
    with_state hash_state c result.0)

  abbrev artifact_options : String → ExecutionOptions
  artifact_options prefix = record {
    path_prefix = prefix;
    source = Source.artifact;
    event_type = none;
  }

  module _ {B : Type 0} (codec : Codec B) (stringify : Json → String) where
    -- The text that the rules are applied to, if there is one.
    abbrev text_in : String → Content B → Option String
    text_in media (text s) = some s
    text_in media (bytes b) = if is_text_media_type media then some (codec.decode b) else none

    abbrev parsed : String → String → Option Json
    parsed media s = if contains (lower media) (codes "json") then codec.parse s else none

    abbrev value_in : String → Option Json → Json
    value_in s none = str s
    value_in s (some v) = normalize (input_of v)

    -- A text that was no JSON stays a text; a replaced one is written as JSON.
    abbrev text_from : Option Json → Json → String
    text_from none (str s) = s
    text_from _ v = stringify v

    abbrev content_from : Content B → String → Content B
    content_from (text _) s = text s
    content_from (bytes _) s = bytes (codec.encode s)

    abbrev redact_text : String → Content B → Option String → Step (Content B × List RedactionEntry)
    redact_text media content none = give (content, [])
    redact_text media content (some s) = do
      result ← redact_json_value r (artifact_options "/artifact") p (value_in s (parsed media s))
      give (content_from content (text_from (parsed media s) result.0), result.1)

    abbrev text_only : Json → Option String
    text_only (str s) = some s
    text_only _ = none

    abbrev redact_preview : Option String → Step (Option String × List RedactionEntry)
    redact_preview none = give (none, [])
    redact_preview (some s) = do
      result ← redact_json_value r (artifact_options "/artifact/preview") p (str s)
      give (text_only result.0, result.1)

    -- `redactArtifact`
    unfoldable pub redact_artifact : String → Option String → Content B → Step (RedactedArtifact B)
    unfolding redact_json_value normalize input_of is_text_media_type
    redact_artifact media preview content = do
      made ← redact_text media content (text_in media content)
      shown ← redact_preview preview
      give (record { content = made.0; preview = shown.0; redactions = add_entries made.1 shown.1 })
