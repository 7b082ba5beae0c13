-- ===== src/Trace/Artifacts.antt =====
-- The artifacts that a snapshot refers to (packages/trace/src/index.ts).
use agent_loop_snapshot.Prelude.{
  ℕ, suc, String, Bool, true, false, ◌&&◌, ◌||◌, not, Option, none, some, List, [], ◌∷◌, ◌++◌, ◌==◌,
  ◌===◌, leb, ltb, if◌then◌else◌, length, all, any, map, codes, includes, get_text, set_text,
}
use agent_loop_snapshot.Schema.Json.{
  Number, finite, infinite, Json, null, bool, num, str, arr, obj, Items, nil, cons, Fields, end,
  field, get, as_string,
}
use agent_loop_snapshot.State.Rebuild.{is_supported_version}
use agent_loop_snapshot.Trace.Diagnostic.{
  TraceDiagnostic, Code, Place, Step, key, index, error, missing_artifact, artifact_size_mismatch,
  artifact_too_large, untrusted_artifact_entry, artifact_place, reference_place,
}
use agent_loop_snapshot.Trace.Lines.{Inspected, trusted, is_missing, is_untrusted}

-- `ArtifactReference`
pub record Reference : Type 0 where
  pub digest : String
  pub media_type : String
  pub byte_length : Number
  pub preview : Option String

abbrev is_hex : ℕ → Bool
is_hex c = (leb 48 c && leb c 57) || (leb 97 c && leb c 102)

-- `/^[a-f0-9]{64}$/`
unfoldable pub is_digest : String → Bool
is_digest s = length (codes s) === 64 && all is_hex (codes s)

abbrev made_reference :
    Bool → Option String → Option String → Option Json → Option Json → Option Reference
made_reference true (some digest) (some media_type) (some (num n)) preview = some (record {
  digest = digest;
  media_type = media_type;
  byte_length = n;
  preview = as_string preview;
})
made_reference _ _ _ _ _ = none

abbrev digest_of : Option String → Option String
digest_of none = none
digest_of (some s) = if is_digest s then some s else none

-- `isArtifactReference`, with the reference.
unfoldable pub reference_of : Fields → Option Reference
unfolding is_digest
reference_of fs =
    made_reference (is_supported_version (get "schema_version" fs))
      (digest_of (as_string (get "digest" fs))) (as_string (get "media_type" fs))
      (get "byte_length" fs) (get "preview" fs)

pub record FoundReference : Type 0 where
  pub path : List Step
  pub reference : Reference

abbrev pub References : Type 0
References = List (String × List FoundReference)

abbrev pub found_at : String → References → List FoundReference
found_at digest m = elim (get_text digest m) [ none ↦ [] | some fs ↦ fs ]

abbrev add_reference : Reference → List Step → References → References
add_reference r path m =
    set_text r.digest (found_at r.digest m ++ (record { path = path; reference = r }) ∷ []) m

-- `collectArtifactReferences`; a path is the list of its steps, where the source joins them with the
-- keys escaped as in a JSON pointer.
unfoldable mutual
  unfolding reference_of

  pub collect : Json → List Step → References → References
  collect (arr vs) path m = collect_items vs 0 path m
  collect (obj fs) path m = elim (reference_of fs) [
    | some r ↦ add_reference r path m
    | none ↦ collect_fields fs path m
  ]
  collect null path m = m
  collect (bool _) path m = m
  collect (num _) path m = m
  collect (str _) path m = m

  pub collect_items : Items → ℕ → List Step → References → References
  collect_items nil i path m = m
  collect_items (cons v vs) i path m =
      collect_items vs (suc i) path (collect v (path ++ index i ∷ []) m)

  pub collect_fields : Fields → List Step → References → References
  collect_fields end path m = m
  collect_fields (field k v fs) path m = collect_fields fs path (collect v (path ++ key k ∷ []) m)

-- The number is the natural number; -0 is 0.
abbrev pub is_natural : Number → ℕ → Bool
is_natural (finite negative m shift) n = shift === 0 && (m === n && (not negative || m === 0))
is_natural (infinite _) n = false

-- `ArtifactMetadata`, without the path, which the digest determines, and the declared length.
pub record ArtifactMetadata : Type 0 where
  pub digest : String
  pub exists : Bool
  pub actual_byte_length : Option ℕ
  pub media_types : List String
  pub previews : List String

-- `[...new Set(values)]`
abbrev unique_from : List String → List String → List String
unique_from seen [] = seen
unique_from seen (v ∷ vs) = unique_from (if includes seen v then seen else seen ++ v ∷ []) vs

abbrev previews_of : List FoundReference → List String
previews_of [] = []
previews_of (f ∷ fs) = elim f.reference.preview [
  | none ↦ previews_of fs
  | some p ↦ p ∷ previews_of fs
]

abbrev artifact_diagnostic : Code → Place → String → TraceDiagnostic
artifact_diagnostic code place digest = record {
  severity = error;
  code = code;
  place = place;
  subject = digest;
  line = none;
}

abbrev metadata_of : String → Bool → Option ℕ → List FoundReference → ArtifactMetadata
metadata_of digest exists size fs = record {
  digest = digest;
  exists = exists;
  actual_byte_length = size;
  media_types = unique_from [] (map (λ (f : FoundReference). f.reference.media_type) fs);
  previews = unique_from [] (previews_of fs);
}

abbrev missing_references : String → List FoundReference → List TraceDiagnostic
missing_references digest =
    map
      (λ (f : FoundReference). artifact_diagnostic missing_artifact (reference_place f.path) digest)

abbrev pub wrong_sizes : String → ℕ → List FoundReference → List TraceDiagnostic
wrong_sizes digest size [] = []
wrong_sizes digest size (f ∷ fs) =
    if is_natural f.reference.byte_length size
    then wrong_sizes digest size fs
    else artifact_diagnostic artifact_size_mismatch (reference_place f.path) digest
      ∷ wrong_sizes digest size fs

-- The loop's body of `loadArtifactMetadata`: what `inspectSnapshotPath` answers for the artifact's
-- file, and the references to it.
unfoldable pub load_artifact :
    (max_bytes : ℕ)
    → String
    → Inspected
    → List FoundReference
    → List TraceDiagnostic × ArtifactMetadata
load_artifact max_bytes digest (trusted size) fs = (
  (if ltb max_bytes size
        then artifact_diagnostic artifact_too_large (artifact_place digest) digest ∷ []
        else [])
      ++ wrong_sizes digest size fs,
  metadata_of digest true (some size) fs,
)
load_artifact max_bytes digest is_missing fs =
    (missing_references digest fs, metadata_of digest false none fs)
load_artifact max_bytes digest is_untrusted fs = (
  artifact_diagnostic untrusted_artifact_entry (artifact_place digest) digest
      ∷ missing_references digest fs,
  metadata_of digest false none fs,
)

-- The codes of `ArtifactReadError`.
pub data ArtifactReadError : Type 0 where
  artifact_invalid_digest missing too_large untrusted unavailable : ArtifactReadError
  size_mismatch digest_mismatch : ArtifactReadError

pub data Read : Type 0 where
  bytes : List ℕ → Read
  refused : ArtifactReadError → Read

abbrev pub is_there : Option ArtifactMetadata → Bool
is_there none = false
is_there (some m) = m.exists

abbrev pub too_long : ℕ → Option ℕ → Bool
too_long max_bytes none = false
too_long max_bytes (some n) = ltb max_bytes n

abbrev pub actual_length : Option ArtifactMetadata → Option ℕ
actual_length none = none
actual_length (some m) = m.actual_byte_length

-- Over SHA-256, as the text of its hexadecimal digits.
module _ (sha256 : List ℕ → String) where
  -- What `readArtifact` does with the bytes of the file.
  abbrev pub check_bytes : ℕ → List FoundReference → String → List ℕ → Read
  check_bytes max_bytes fs digest b =
      if ltb max_bytes (length b)
      then refused too_large
      else if any (λ (f : FoundReference). not (is_natural f.reference.byte_length (length b))) fs
      then refused size_mismatch
      else if not (sha256 b == digest)
      then refused digest_mismatch
      else bytes b

  -- `readArtifact`: `file` is what `inspectSnapshotPath` answers, and `content` what the file has,
  -- where it can be read.
  unfoldable pub read_artifact :
      (max_bytes : ℕ)
      → List (String × ArtifactMetadata)
      → References
      → Inspected
      → (content : Option (List ℕ)) → String
      → Read
  unfolding is_digest
  read_artifact max_bytes artifacts references file content digest =
      if not (is_digest digest)
      then refused artifact_invalid_digest
      else if not (is_there (get_text digest artifacts))
      then refused missing
      else if too_long max_bytes (actual_length (get_text digest artifacts))
      then refused too_large
      else elim file [
        | is_missing ↦ refused untrusted
        | is_untrusted ↦ refused untrusted
        | trusted size ↦ if ltb max_bytes size then refused too_large else elim content [
          | none ↦ refused unavailable
          | some b ↦ check_bytes max_bytes (found_at digest references) digest b
        ]
      ]
