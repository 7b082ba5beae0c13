-- ===== src/Schema/Migration.antt =====
-- packages/schema/src/migration.ts: which snapshots may be executed or migrated, and the migration
-- of a document.
pub mod Versions
mod Tests
use agent_loop_snapshot.Prelude.{
  ℕ, ◌+◌, ◌-◌, ◌*◌, String, ◌≡◌, Bool, true, false, ◌&&◌, ◌||◌, not, Option, none, some, List, [],
  ◌∷◌, ◌++◌, ◌==◌, ◌===◌, leb, if◌then◌else◌, codes, is_digit, is_numeral, value_from,
}
use agent_loop_snapshot.Schema.Json.{
  Json, Items, nil, cons, Fields, end, field, get, as_string, as_record,
}
use agent_loop_snapshot.Schema.Envelope.{snapshot_schema_version}

-- The decimal digits that a text begins with, and the rest.
abbrev span_digits : List ℕ → List ℕ × List ℕ
span_digits [] = ([], [])
span_digits (c ∷ cs) =
    let (ds, rest) = span_digits cs in if is_digit c then (c ∷ ds, rest) else ([], c ∷ cs)

pub record Semver : Type 0 where
  pub major : ℕ
  pub minor : ℕ
  pub patch : ℕ

abbrev after_dot : List ℕ → Option (List ℕ)
after_dot [] = none
after_dot (c ∷ cs) = if c === 46 then some cs else none

abbrev read_numeral : List ℕ → Option (ℕ × List ℕ)
read_numeral cs =
    let (ds, rest) = span_digits cs in if is_numeral ds then some (value_from 0 ds, rest) else none

abbrev chain : {A B : Type 0} → Option A → (A → Option B) → Option B
chain none f = none
chain (some a) f = f a

abbrev at_end : Semver → List ℕ → Option Semver
at_end v [] = some v
at_end v (_ ∷ _) = none

-- `parseSemver`
unfoldable pub parse_semver : String → Option Semver
parse_semver s = chain (read_numeral (codes s)) (λ a. chain (after_dot a.1) (λ r.
    chain (read_numeral r) (λ b. chain (after_dot b.1) (λ t.
      chain (read_numeral t)
        (λ c. at_end (record { major = a.0; minor = b.0; patch = c.0 }) c.1)))))

pub data CompatibilityStatus : Type 0 where
  executable migratable view_only : CompatibilityStatus

-- The texts of the field `reason`.
pub data CompatibilityReason : Type 0 where
  no_schema_version not_semantic exact_match registered_migration : CompatibilityReason
  unknown_major no_migration : CompatibilityReason

pub record Compatibility : Type 0 where
  pub source_version : Option String
  pub status : CompatibilityStatus
  pub can_execute : Bool
  pub can_migrate : Bool
  pub reason : CompatibilityReason

abbrev pub legacy_version : String
legacy_version = "0.0.0"

abbrev pub observation_version : String
observation_version = "0.1.0"

-- `readString`
abbrev pub read_string : Json → String → Option String
read_string v key = elim (as_record v) [ none ↦ none | some fs ↦ as_string (get key fs) ]

abbrev judged :
    Option String → CompatibilityStatus → Bool → Bool → CompatibilityReason → Compatibility
judged version s e m r = record {
  source_version = version;
  status = s;
  can_execute = e;
  can_migrate = m;
  reason = r;
}

abbrev pub inspect_version : String → Option Semver → Compatibility
inspect_version v none = judged (some v) view_only false false not_semantic
inspect_version v (some source) =
    if v == snapshot_schema_version
    then judged (some v) executable true true exact_match
    else if v == legacy_version || v == observation_version
    then judged (some v) migratable false true registered_migration
    else if not (source.major === 0)
    then judged (some v) view_only false false unknown_major
    else judged (some v) view_only false false no_migration

abbrev pub inspect_found : Option String → Compatibility
inspect_found none = judged none view_only false false no_schema_version
inspect_found (some v) = inspect_version v (parse_semver v)

-- `inspectSnapshotCompatibility`; the current major version is 0.
unfoldable pub inspect_compatibility : Json → Compatibility
unfolding parse_semver
inspect_compatibility manifest = inspect_found (read_string manifest "schema_version")

abbrev pub is_version : String → Json → Bool
is_version from (Json.str s) = s == from
is_version from _ = false

-- `replaceVersion`
unfoldable mutual
  pub replace_version : String → String → Json → Json
  replace_version from to Json.null = Json.null
  replace_version from to (Json.bool b) = Json.bool b
  replace_version from to (Json.num n) = Json.num n
  replace_version from to (Json.str s) = Json.str s
  replace_version from to (Json.arr vs) = Json.arr (replace_items from to vs)
  replace_version from to (Json.obj fs) = Json.obj (replace_fields from to fs)

  pub replace_items : String → String → Items → Items
  replace_items from to nil = nil
  replace_items from to (cons v vs) = cons (replace_version from to v) (replace_items from to vs)

  pub replace_fields : String → String → Fields → Fields
  replace_fields from to end = end
  replace_fields from to (field k v fs) =
      let changed = replace_version from to v in
      let rest = replace_fields from to fs in
      field k (if k == "schema_version" && is_version from v then Json.str to else changed) rest
