-- ===== src/Redaction/StateControls.antt =====
-- A redacted state change is the same change (packages/recorder/src/redaction.ts).
use agent_loop_snapshot.Prelude.{
  ◌≡◌, refl, ◌∙◌, Bool, true, false, Option, none, some, List, Bool-cases, Option-cases, is_some,
  &&_split, inl, inr,
}
use agent_loop_snapshot.Schema.Json.{Json, null, bool, num, str, arr, obj, Fields, end, field, get}
use agent_loop_snapshot.Schema.Envelope.{RedactionEntry}
use agent_loop_snapshot.State.Container.{spread, define}
use agent_loop_snapshot.Redaction.Input.{Input, Properties}
use agent_loop_snapshot.Redaction.Value.{normalize}
use agent_loop_snapshot.Redaction.Rules.{done, Memory, Runtime, Pipeline}
use agent_loop_snapshot.Redaction.Content.{redact_json_value}
use agent_loop_snapshot.Redaction.Addresses.{
  Operation, set, merge, delete, append, StateChange, operation_text, assert_addresses_stable,
  assert_state_context,
}
use agent_loop_snapshot.Redaction.StateChange.{
  Projection, state_change_projection, assert_position_independent, value_at_state_path,
  target_value, stays_merge, keeps_keys, checked_target, state_options, redact_projection,
  redact_state_value, controls_of, metadata_of, with_value, assembled, check_delete, check_dash,
  check_controls, has_value, redact_value_if, redact_change,
}
use agent_loop_snapshot.Redaction.Steps.{
  Anything, Ensures, continue-Ensures, last-Ensures, Ensures-done,
}
use agent_loop_snapshot.Redaction.Masking.Members.{get-define, get-define_other}

-- Every key of the patch is a key of the new value.
abbrev pub KeepsKeys : Fields → Fields → Type 0
KeepsKeys end made = Unit
KeepsKeys (field k _ fs) made = (w : Json) × (get k made ≡ some w) × KeepsKeys fs made

abbrev pub KeepsKeysOf : Json → Fields → Type 0
KeepsKeysOf (obj fs) made = KeepsKeys fs made
KeepsKeysOf _ made = Unit

abbrev pub FitsOperation : Operation → Json → Json → Type 0
FitsOperation merge original v = (made : Fields) × (v ≡ obj made) × KeepsKeysOf original made
FitsOperation op original v = Unit

-- The new value of a change: a merge has an object with every key of the patch.
abbrev pub ValueFits : StateChange → Bool → Option Json → Type 0
ValueFits change false v = Unit
ValueFits change true none = ⊥
ValueFits change true (some v) = FitsOperation change.operation (normalize change.value) v

keeps_keys-KeepsKeys : (fs made : Fields) → keeps_keys fs made ≡ true → KeepsKeys fs made
keeps_keys-KeepsKeys end made h = tt
keeps_keys-KeepsKeys (field k v fs) made h =
    let (there, rest) = &&_split (is_some (get k made)) (keeps_keys fs made) h in
    elim (Option-cases (get k made)) [
      | inl q ↦ cc
      | inr (w, q) ↦ (w, q, keeps_keys-KeepsKeys fs made rest)
    ]

fits_operation :
    (op : Operation) (original v : Json)
    → stays_merge op original v ≡ true
    → FitsOperation op original v
fits_operation set original v h = tt
fits_operation delete original v h = tt
fits_operation append original v h = tt
fits_operation merge (obj fs) (obj made) h = (made, refl, keeps_keys-KeepsKeys fs made h)
fits_operation merge (null) (obj made) h = (made, refl, tt)
fits_operation merge (bool _) (obj made) h = (made, refl, tt)
fits_operation merge (num _) (obj made) h = (made, refl, tt)
fits_operation merge (str _) (obj made) h = (made, refl, tt)
fits_operation merge (arr _) (obj made) h = (made, refl, tt)
fits_operation merge original (null) h = cc
fits_operation merge original (bool _) h = cc
fits_operation merge original (num _) h = cc
fits_operation merge original (str _) h = cc
fits_operation merge original (arr _) h = cc

-- The payload of the same change.
pub record SameChange (change : StateChange) (v : Json) : Type 0 where
  pub made : Fields
  pub is_object : v ≡ obj made
  pub operation : get "operation" made ≡ some (str (operation_text change.operation))
  pub path : get "path" made ≡ some (str change.path)
  pub value : ValueFits change (has_value change) (get "value" made)

module _ (r : Runtime) (p : Pipeline) where
  abbrev Stays : StateChange → Json → Type 0
  Stays change v = stays_merge change.operation (normalize change.value) v ≡ true

  checked_target-Stays :
      (change : StateChange) (o : Option Json) (m : Memory)
      → Ensures Anything Anything (Stays change) (checked_target change o m)
  checked_target-Stays change none m = tt
  checked_target-Stays change (some v) m =
      elim (Bool-cases (stays_merge change.operation (normalize change.value) v)) [
        | inl e ↦ rw (checked_target, Ensures, e) (tt, e)
        | inr e ↦ rw (checked_target, Ensures, e) tt
      ]

  abbrev StaysFirst : StateChange → Json × List RedactionEntry → Type 0
  StaysFirst change result = Stays change result.0

  projection-Stays :
      (change : StateChange) (o : Option Projection) (m : Memory)
      → Ensures Anything Anything (StaysFirst change) (redact_projection r p change o m)
  projection-Stays change none m = tt
  projection-Stays change (some projection) m =
      last-Ensures (StaysFirst change) _ (assert_position_independent projection p m) (λ _ m₁.
        last-Ensures (StaysFirst change) _
          (redact_json_value r (state_options r p "") p projection.root m₁)
          (λ result m₂.
            continue-Ensures Anything Anything (Stays change) (StaysFirst change) _
              (checked_target change
                (target_value projection.appended (value_at_state_path projection.target result.0))
                m₂)
              (checked_target-Stays change _ m₂) (λ v m₃ i h. (i, h))))

  redact_state_value-Stays :
      (change : StateChange) (m : Memory)
      → Ensures Anything Anything (StaysFirst change) (redact_state_value r p change m)
  unfolding redact_state_value
  redact_state_value-Stays change m =
      last-Ensures (StaysFirst change) _ (assert_state_context change p m)
        (λ _ m₁. projection-Stays change (state_change_projection change) m₁)

  abbrev StaysIf : StateChange → Bool → Option (Json × List RedactionEntry) → Type 0
  StaysIf change false o = o ≡ none
  StaysIf change true none = ⊥
  StaysIf change true (some result) = Stays change result.0

  redact_value_if-Stays :
      (change : StateChange) (b : Bool) (m : Memory)
      → Ensures Anything Anything (StaysIf change b) (redact_value_if r p b change m)
  redact_value_if-Stays change false m = (tt, refl)
  redact_value_if-Stays change true m =
      continue-Ensures Anything Anything (StaysFirst change) (StaysIf change true) _
        (redact_state_value r p change m) (redact_state_value-Stays change m) (λ v n i h. (i, h))

  -- The members of the payload before the value is put in.
  abbrev base : StateChange → Fields → Fields
  base change fs = spread fs (controls_of r p change)

  abbrev named : StateChange → Fields → Fields
  named change fs = define "operation" (str (operation_text change.operation)) fs

  base-operation :
      (change : StateChange) (fs : Fields)
      → get "operation" (base change fs) ≡ some (str (operation_text change.operation))
  base-operation change fs =
      get-define_other "path" "operation" (str change.path) (named change fs) refl
      ∙ get-define "operation" (str (operation_text change.operation)) fs

  base-path :
      (change : StateChange) (fs : Fields) → get "path" (base change fs) ≡ some (str change.path)
  base-path change fs = get-define "path" (str change.path) (named change fs)

  assembled-SameChange :
      (change : StateChange) (b : Bool) (o : Option (Json × List RedactionEntry)) (fs : Fields)
      → has_value change ≡ b
      → StaysIf change b o
      → SameChange change (obj (with_value r p o (base change fs)))
  assembled-SameChange change false none fs e h = record {
    made = base change fs;
    is_object = refl;
    operation = base-operation change fs;
    path = base-path change fs;
    value = rw e tt;
  }
  assembled-SameChange change false (some _) fs e h = cc
  assembled-SameChange change true none fs e h = elim h [ ]
  assembled-SameChange change true (some (v, es)) fs e h = record {
    made = define "value" v (base change fs);
    is_object = refl;
    operation =
        get-define_other "value" "operation" v (base change fs) refl ∙ base-operation change fs;
    path = get-define_other "value" "path" v (base change fs) refl ∙ base-path change fs;
    value =
        rw (e, get-define "value" v (base change fs))
          (fits_operation change.operation (normalize change.value) v h);
  }

  assembled-Ensures :
      (change : StateChange) (o : Option (Json × List RedactionEntry))
      (metadata : Json × List RedactionEntry) (m : Memory)
      → StaysIf change (has_value change) o
      → Ensures Anything Anything
          (λ result. SameChange change result.0)
          (assembled r p change o metadata m)
  assembled-Ensures change o (null, es) m h = tt
  assembled-Ensures change o (bool _, es) m h = tt
  assembled-Ensures change o (num _, es) m h = tt
  assembled-Ensures change o (str _, es) m h = tt
  assembled-Ensures change o (arr _, es) m h = tt
  assembled-Ensures change o (obj fs, es) m h =
      (tt, assembled-SameChange change (has_value change) o fs refl h)

  change-Ensures :
      (change : StateChange) (fs : Properties) (m : Memory)
      → Ensures Anything Anything
          (λ result. SameChange change result.0)
          (redact_change r p change fs m)
  unfolding redact_change
  change-Ensures change fs m =
      let Same = λ (result : Json × List RedactionEntry). SameChange change result.0 in
      last-Ensures Same _ (check_delete r p change m) (λ _ m₁.
        last-Ensures Same _ (assert_addresses_stable change p m₁) (λ _ m₂.
          last-Ensures Same _ (check_dash r p change m₂) (λ _ m₃.
            last-Ensures Same _ (check_controls r p change m₃) (λ _ m₄.
              continue-Ensures Anything Anything (StaysIf change (has_value change)) Same _
                (redact_value_if r p (has_value change) change m₄)
                (redact_value_if-Stays change (has_value change) m₄)
                (λ o m₅ _ h.
                  last-Ensures Same _
                    (redact_json_value r (state_options r p "/payload") p
                      (normalize (Input.object (metadata_of r p (has_value change) fs))) m₅)
                    (λ metadata m₆. assembled-Ensures change o metadata m₆ h))))))

-- A redacted state change, where there is one, is an object with the same operation and the same
-- path. Where the change has a value to redact it has a value, too, and a merge has an object with
-- every key of the patch.
pub redact_change-SameChange :
    (r : Runtime) (p : Pipeline) (change : StateChange) (fs : Properties) (v : Json)
    (entries : List RedactionEntry) (m n : Memory)
    → redact_change r p change fs m ≡ (done (v, entries), n)
    → SameChange change v
redact_change-SameChange r p change fs v entries m n given =
    Ensures-done (λ result. SameChange change result.0) _ (v, entries) n given
      (change-Ensures r p change fs m)
