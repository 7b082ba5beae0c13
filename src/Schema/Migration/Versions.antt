-- ===== src/Schema/Migration/Versions.antt =====
-- What packages/schema/src/migration.ts allows to execute and to migrate, and what the replacement
-- of version markers leaves.
use agent_loop_snapshot.Prelude.{
  String, ◌≡◌, refl, sym, ap, if_elim, ◌↔◌, ◌⊎◌, inl, inr, Bool, true, false, ◌&&◌, ◌||◌, Option,
  none, some, arith, eq_iff, ◌==◌, if◌then◌else◌, Option-cases,
}
use mathlib.Core.Path.{subst}
use agent_loop_snapshot.Schema.Json.{Json, Items, nil, cons, Fields, end, field}
use agent_loop_snapshot.Schema.Migration.{
  Semver, parse_semver, read_string, inspect_version, inspect_compatibility, is_version,
  replace_version, replace_items, replace_fields,
}

executes_only :
    (v : String) (s : Option Semver) → (inspect_version v s).can_execute ≡ true → v ≡ "0.2.0"
executes_only v none h = cc
executes_only v (some s) h = ground (arith, h, eq_iff v "0.2.0")

migrates_only :
    (v : String) (s : Option Semver)
    → (inspect_version v s).can_migrate ≡ true
    → (v ≡ "0.2.0") ⊎ ((v ≡ "0.0.0") ⊎ (v ≡ "0.1.0"))
migrates_only v none h = cc
migrates_only v (some s) h = ground (arith, h, eq_iff v "0.2.0", eq_iff v "0.0.0", eq_iff v "0.1.0")

runs : (v : String) → v ≡ "0.2.0" → (inspect_version v (parse_semver v)).can_execute ≡ true
unfolding parse_semver
runs v e = subst (λ u. (inspect_version u (parse_semver u)).can_execute ≡ true) (sym e) refl

named :
    (v : String)
    → (v ≡ "0.2.0") ⊎ ((v ≡ "0.0.0") ⊎ (v ≡ "0.1.0"))
    → (some v ≡ some "0.2.0") ⊎ ((some v ≡ some "0.0.0") ⊎ (some v ≡ some "0.1.0"))
named v (inl e) = inl (ap (λ u. some u) e)
named v (inr (inl e)) = inr (inl (ap (λ u. some u) e))
named v (inr (inr e)) = inr (inr (ap (λ u. some u) e))

moves :
    (v w : String)
    → some v ≡ some w
    → (inspect_version w (parse_semver w)).can_migrate ≡ true
    → (inspect_version v (parse_semver v)).can_migrate ≡ true
moves v w e h =
    let same : w ≡ v = cc e in
    subst (λ u. (inspect_version u (parse_semver u)).can_migrate ≡ true) same h

migrates :
    (v : String)
    → (some v ≡ some "0.2.0") ⊎ ((some v ≡ some "0.0.0") ⊎ (some v ≡ some "0.1.0"))
    → (inspect_version v (parse_semver v)).can_migrate ≡ true
unfolding parse_semver
migrates v (inl e) = moves v "0.2.0" e refl
migrates v (inr (inl e)) = moves v "0.0.0" e refl
migrates v (inr (inr e)) = moves v "0.1.0" e refl

abbrev pub IsSupported : Json → Type 0
IsSupported m =
    (read_string m "schema_version" ≡ some "0.2.0")
    ⊎ ((read_string m "schema_version" ≡ some "0.0.0")
        ⊎ (read_string m "schema_version" ≡ some "0.1.0"))

-- A snapshot can be executed exactly when its manifest declares the current schema version, and
-- migrated exactly when it declares this one or one of the two before it.
pub inspect_compatibility_iff :
    (m : Json)
    → (((inspect_compatibility m).can_execute ≡ true)
        ↔ (read_string m "schema_version" ≡ some "0.2.0"))
      × (((inspect_compatibility m).can_migrate ≡ true) ↔ IsSupported m)
unfolding inspect_compatibility parse_semver
inspect_compatibility_iff m = elim (Option-cases (read_string m "schema_version")) [
  | inl e ↦ rw e ((λ h. cc, λ h. cc), (λ h. cc, λ h. ground (arith, h)))
  | inr (v, e) ↦ rw e (
    (
      λ h. let same = executes_only v (parse_semver v) h in ap (λ u. some u) same,
      λ h. runs v (cc h),
    ),
    (λ h. named v (migrates_only v (parse_semver v) h), λ h. migrates v h),
  )
]

-- An object has a marker `schema_version` of the version somewhere.
unfoldable mutual
  pub has_version : String → Json → Bool
  has_version from (Json.arr vs) = has_version_items from vs
  has_version from (Json.obj fs) = has_version_fields from fs
  has_version from Json.null = false
  has_version from (Json.bool _) = false
  has_version from (Json.num _) = false
  has_version from (Json.str _) = false

  pub has_version_items : String → Items → Bool
  has_version_items from nil = false
  has_version_items from (cons v vs) = has_version from v || has_version_items from vs

  pub has_version_fields : String → Fields → Bool
  has_version_fields from end = false
  has_version_fields from (field k v fs) =
      (k == "schema_version" && is_version from v)
      || (has_version from v || has_version_fields from fs)

is_version-replace_version :
    (from to : String) (v : Json) → is_version from (replace_version from to v) ≡ is_version from v
unfolding replace_version
is_version-replace_version from to Json.null = refl
is_version-replace_version from to (Json.bool b) = refl
is_version-replace_version from to (Json.num n) = refl
is_version-replace_version from to (Json.str s) = refl
is_version-replace_version from to (Json.arr vs) = refl
is_version-replace_version from to (Json.obj fs) = refl

all_false : (a b c : Bool) → a ≡ false → b ≡ false → c ≡ false → (a || (b || c)) ≡ false
all_false a b c e f g = ground (arith, e, f, g)

and_false : (a b : Bool) → b ≡ false → (a && b) ≡ false
and_false true b e = e
and_false false b e = refl

field_replaced :
    (from to k : String) (v : Json) (others : Bool)
    → (to == from) ≡ false
    → has_version from (replace_version from to v) ≡ false
    → others ≡ false
    → ((k == "schema_version"
          && is_version from (
              if k == "schema_version" && is_version from v
              then Json.str to
              else replace_version from to v))
        || (has_version from (
              if k == "schema_version" && is_version from v
              then Json.str to
              else replace_version from to v)
            || others))
      ≡ false
unfolding has_version
field_replaced from to k v others h changed rest =
    if_elim
      (λ w.
        ((k == "schema_version" && is_version from w) || (has_version from w || others)) ≡ false)
      (k == "schema_version" && is_version from v)
      (λ _.
        all_false (k == "schema_version" && (to == from)) false others
          (and_false (k == "schema_version") (to == from) h) refl rest)
      (λ e.
        all_false (k == "schema_version" && is_version from (replace_version from to v))
          (has_version from (replace_version from to v)) others
          (subst (λ b. (k == "schema_version" && b) ≡ false)
            (sym (is_version-replace_version from to v)) e)
          changed rest)

mutual
  unfolding has_version has_version_items has_version_fields replace_version replace_items
      replace_fields

  value_replaced :
      (from to : String)
      → (to == from) ≡ false
      → (v : Json) → has_version from (replace_version from to v) ≡ false
  value_replaced from to h Json.null = refl
  value_replaced from to h (Json.bool b) = refl
  value_replaced from to h (Json.num n) = refl
  value_replaced from to h (Json.str s) = refl
  value_replaced from to h (Json.arr vs) = items_replaced from to h vs
  value_replaced from to h (Json.obj fs) = fields_replaced from to h fs

  items_replaced :
      (from to : String)
      → (to == from) ≡ false
      → (vs : Items) → has_version_items from (replace_items from to vs) ≡ false
  items_replaced from to h nil = refl
  items_replaced from to h (cons v vs) =
      rw (value_replaced from to h v, items_replaced from to h vs) refl

  fields_replaced :
      (from to : String)
      → (to == from) ≡ false
      → (fs : Fields) → has_version_fields from (replace_fields from to fs) ≡ false
  fields_replaced from to h end = refl
  fields_replaced from to h (field k v fs) =
      field_replaced from to k v (has_version_fields from (replace_fields from to fs)) h
        (value_replaced from to h v) (fields_replaced from to h fs)

-- Replacing a version by another one leaves no marker of it, at any depth.
pub replace_version_lem :
    (from to : String)
    → (to == from) ≡ false
    → (v : Json) → has_version from (replace_version from to v) ≡ false
replace_version_lem from to h v = value_replaced from to h v
