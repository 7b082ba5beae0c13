-- ===== src/Schema/Migration/Tests.antt =====
-- Compatibility at concrete manifests.
use agent_loop_snapshot.Prelude.{String, ◌≡◌, refl, ◌↔◌, true, none, some}
use agent_loop_snapshot.Schema.Json.{Json, field, end}
use agent_loop_snapshot.Schema.Migration.{parse_semver, read_string, inspect_compatibility}
use agent_loop_snapshot.Schema.Migration.Versions.{IsSupported, inspect_compatibility_iff}

abbrev versioned : String → Json
versioned v = Json.obj (field "schema_version" (Json.str v) end)

parses : parse_semver "12.0.3" ≡ some (record { major = 12; minor = 0; patch = 3 })
unfolding parse_semver
parses = refl

refuses_zero : parse_semver "1.02.3" ≡ none
unfolding parse_semver
refuses_zero = refl

inspect_compatibility_iff_example :
    (((inspect_compatibility (versioned "0.1.0")).can_execute ≡ true)
      ↔ (read_string (versioned "0.1.0") "schema_version" ≡ some "0.2.0"))
    × (((inspect_compatibility (versioned "0.1.0")).can_migrate ≡ true)
        ↔ IsSupported (versioned "0.1.0"))
inspect_compatibility_iff_example = inspect_compatibility_iff (versioned "0.1.0")
