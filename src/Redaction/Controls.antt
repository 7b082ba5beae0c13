-- ===== src/Redaction/Controls.antt =====
-- What the protocol needs of an event comes through a redaction (packages/recorder/src/redaction.ts).
use agent_loop_snapshot.Prelude.{
  String, ◌≡◌, refl, sym, ◌∙◌, ap, Bool, true, false, not, ◌&&◌, Option, none, some, List, [], ◌∷◌,
  ◌==◌, arith, all, Bool-cases, Option-cases, inl, inr, &&_split, get_text, get_text-here,
  get_text-there, eq_iff,
}
use mathlib.Core.List.{Memᴰ}
use mathlib.Core.Path.{subst}
use agent_loop_snapshot.Schema.Json.{Json, null, bool, num, str, arr, obj, Fields, get}
use agent_loop_snapshot.Schema.Envelope.{RedactionEntry}
use agent_loop_snapshot.State.Container.{define, clone_fields}
use agent_loop_snapshot.Redaction.Rules.{done, Memory, Runtime, Pipeline}
use agent_loop_snapshot.Redaction.Content.{redact_json_value}
use agent_loop_snapshot.Redaction.Protocol.{
  paths_can_overlap, protocol_control_paths, fields_of, or_empty, value_at_object_path,
  set_object_path, assert_containers_preserved, control_values, delete_all, set_all,
  payload_options, check_controls, restored, redact_with_controls, redact_if_controlled,
  redact_protocol_event,
}
use agent_loop_snapshot.Redaction.Steps.{
  Anything, Ensures, continue-Ensures, last-Ensures, Ensures-done,
}
use agent_loop_snapshot.Redaction.Masking.Members.{get-define, get-define_other}

some-at :
    {A B : Type 0} (o : Option A) (a : A) (next : A → Option B)
    → o ≡ some a
    → (elim o [ none ↦ none | some b ↦ next b ]) ≡ next a
some-at o a next h = rw h refl

-- A control that was written is read back.
value_at-set :
    (s : String) (ss : List String) (w : Json) (fs : Fields)
    → value_at_object_path (s ∷ ss) (obj (set_object_path (s ∷ ss) w fs)) ≡ some w
unfolding value_at_object_path set_object_path
value_at-set s [] w fs = some-at _ w (value_at_object_path []) (get-define s w fs)
value_at-set s (t ∷ ss) w fs =
    let inner = or_empty (fields_of (get s fs)) in
    some-at _ (obj (set_object_path (t ∷ ss) w inner)) (value_at_object_path (t ∷ ss))
      (get-define s (obj (set_object_path (t ∷ ss) w inner)) fs)
    ∙ value_at-set t ss w inner

-- What is below a member, and below what is made of it where it is no object.
below-or_empty :
    (d : String) (ds : List String) (o : Option Json)
    → value_at_object_path (d ∷ ds) (obj (or_empty (fields_of o)))
      ≡ (elim o [ none ↦ none | some v ↦ value_at_object_path (d ∷ ds) v ])
unfolding value_at_object_path
below-or_empty d ds none = refl
below-or_empty d ds (some null) = refl
below-or_empty d ds (some (bool _)) = refl
below-or_empty d ds (some (num _)) = refl
below-or_empty d ds (some (str _)) = refl
below-or_empty d ds (some (arr _)) = refl
below-or_empty d ds (some (obj fs)) = refl

-- What is below a member that may be absent.
abbrev under : List String → Option Json → Option Json
under d o = elim o [ none ↦ none | some v ↦ value_at_object_path d v ]

under-other :
    (s t : String) (d : List String) (v : Json) (fs : Fields)
    → (s == t) ≡ false
    → under d (get t (define s v fs)) ≡ under d (get t fs)
under-other s t d v fs n = ap (under d) (get-define_other s t v fs n)

under-same :
    (s : String) (ss d : List String) (w : Json) (fs : Fields)
    → ((fs' : Fields)
        → value_at_object_path d (obj (set_object_path ss w fs'))
          ≡ value_at_object_path d (obj fs'))
    → paths_can_overlap ss d ≡ false
    → under d (get s (define s (obj (set_object_path ss w (or_empty (fields_of (get s fs))))) fs))
      ≡ under d (get s fs)
unfolding paths_can_overlap
under-same s [] [] w fs ih h = cc
under-same s (_ ∷ _) [] w fs ih h = cc
under-same s ss (t ∷ d) w fs ih h =
    let inner = or_empty (fields_of (get s fs)) in
    some-at _ (obj (set_object_path ss w inner)) (value_at_object_path (t ∷ d))
      (get-define s (obj (set_object_path ss w inner)) fs)
    ∙ ih inner
    ∙ below-or_empty t d (get s fs)

-- What is elsewhere stays.
value_at-set_other :
    (c d : List String) (w : Json) (fs : Fields)
    → paths_can_overlap c d ≡ false
    → value_at_object_path d (obj (set_object_path c w fs)) ≡ value_at_object_path d (obj fs)
unfolding value_at_object_path set_object_path paths_can_overlap
value_at-set_other [] d w fs h = refl
value_at-set_other (s ∷ ss) [] w fs h = cc
value_at-set_other (s ∷ []) (t ∷ d) w fs h = under-other s t d w fs (ground (arith, h, eq_iff s t))
value_at-set_other (s ∷ s' ∷ ss) (t ∷ d) w fs h = elim (Bool-cases (s == t)) [
  | inr n ↦ under-other s t d _ fs n
  | inl e ↦
      let same : s ≡ t = (eq_iff s t).0 e in
      let apart : paths_can_overlap (s' ∷ ss) d ≡ false = ground (arith, h, e) in
      let made = obj (set_object_path (s' ∷ ss) w (or_empty (fields_of (get s fs)))) in
      subst (λ u. under d (get u (define s made fs)) ≡ under d (get u fs)) same
        (under-same s (s' ∷ ss) d w fs (λ fs'. value_at-set_other (s' ∷ ss) d w fs' apart) apart)
]

abbrev clear_of : List String → List (List String) → Bool
clear_of d cs = all (λ c. not (paths_can_overlap c d)) cs

abbrev is_path : List String → Bool
is_path [] = false
is_path (_ ∷ _) = true

-- The paths lead somewhere, and none can overlap a later one.
abbrev all_apart : List (List String) → Bool
all_apart [] = true
all_apart (c ∷ cs) = is_path c && (clear_of c cs && all_apart cs)

set_controls-other :
    (cs : List (List String)) (v : Json) (fs : Fields) (d : List String)
    → clear_of d cs ≡ true
    → value_at_object_path d (obj (set_all (control_values cs v) fs))
      ≡ value_at_object_path d (obj fs)
set_controls-other [] v fs d h = refl
set_controls-other (c ∷ cs) v fs d h =
    let apart : paths_can_overlap c d ≡ false = ground (arith, h) in
    let rest : clear_of d cs ≡ true = ground (arith, h) in
    elim (Option-cases (value_at_object_path c v)) [
      | inl q ↦ rw (control_values, q) (set_controls-other cs v fs d rest)
      | inr (w, q) ↦
          rw (control_values, q)
            (set_controls-other cs v (set_object_path c w fs) d rest
              ∙ value_at-set_other c d w fs apart)
    ]

set_path :
    (c : List String) (w : Json) (fs : Fields)
    → is_path c ≡ true
    → value_at_object_path c (obj (set_object_path c w fs)) ≡ some w
set_path [] w fs h = cc
set_path (s ∷ ss) w fs h = value_at-set s ss w fs

-- Every control that the payload had has its value again.
set_controls-value :
    (cs : List (List String)) (v : Json) (fs : Fields) (c : List String) (w : Json)
    → all_apart cs ≡ true
    → Memᴰ c cs
    → value_at_object_path c v ≡ some w
    → value_at_object_path c (obj (set_all (control_values cs v) fs)) ≡ some w
set_controls-value [] v fs c w h m e = elim m [ ]
set_controls-value (c' ∷ cs) v fs c w h (Memᴰ.head same) e =
    let (path, more) = &&_split (is_path c') (clear_of c' cs && all_apart cs) h in
    let (clear, rest) = &&_split (clear_of c' cs) (all_apart cs) more in
    let here : value_at_object_path c' v ≡ some w =
      ap (λ (d : List String). value_at_object_path d v) (sym same) ∙ e in
    rw (same, control_values, here)
      (set_controls-other cs v (set_object_path c' w fs) c' clear ∙ set_path c' w fs path)
set_controls-value (c' ∷ cs) v fs c w h (Memᴰ.tail m) e =
    let (path, more) = &&_split (is_path c') (clear_of c' cs && all_apart cs) h in
    let (clear, rest) = &&_split (clear_of c' cs) (all_apart cs) more in
    elim (Option-cases (value_at_object_path c' v)) [
      | inl q ↦ rw (control_values, q) (set_controls-value cs v fs c w rest m e)
      | inr (u, q) ↦
          rw (control_values, q) (set_controls-value cs v (set_object_path c' u fs) c w rest m e)
    ]

abbrev all_values_apart : List (String × List (List String)) → Bool
all_values_apart [] = true
all_values_apart ((_, cs) ∷ m) = all_apart cs && all_values_apart m

get_text-apart :
    (k : String) (m : List (String × List (List String))) (cs : List (List String))
    → all_values_apart m ≡ true
    → get_text k m ≡ some cs
    → all_apart cs ≡ true
get_text-apart k [] cs h e = cc
get_text-apart k ((l, ds) ∷ m) cs h e =
    let (here, rest) = &&_split (all_apart ds) (all_values_apart m) h in
    elim (Bool-cases (l == k)) [
      | inl q ↦
          let first = get_text-here k l ds m q in
          let same : ds ≡ cs = cc in subst (λ x. all_apart x ≡ true) same here
      | inr q ↦ get_text-apart k m cs rest (sym (get_text-there k l ds m q) ∙ e)
    ]

-- No control of the table stands in the way of another.
controls-apart :
    (k : String) (cs : List (List String))
    → get_text k protocol_control_paths ≡ some cs
    → all_apart cs ≡ true
unfolding paths_can_overlap
controls-apart k cs e = get_text-apart k protocol_control_paths cs refl e

module _ (r : Runtime) (p : Pipeline) where
  abbrev Restores : List (List String × Json) → Json × List RedactionEntry → Type 0
  Restores values result = (fs : Fields) × (result.0 ≡ obj (set_all values fs))

  restored-Restores :
      (values : List (List String × Json)) (result : Json × List RedactionEntry) (m : Memory)
      → Ensures Anything Anything (Restores values) (restored r p values result m)
  restored-Restores values (null, es) m = tt
  restored-Restores values (bool _, es) m = tt
  restored-Restores values (num _, es) m = tt
  restored-Restores values (str _, es) m = tt
  restored-Restores values (arr _, es) m = tt
  restored-Restores values (obj fs, es) m = (tt, (fs, refl))

  redact_with_controls-Restores :
      (event_type : String) (cs : List (List String)) (fs : Fields) (m : Memory)
      → Ensures Anything Anything
          (Restores (control_values cs (obj fs)))
          (redact_with_controls r p event_type cs fs m)
  unfolding redact_with_controls
  redact_with_controls-Restores event_type cs fs m =
      let values = control_values cs (obj fs) in
      last-Ensures (Restores values) _ (assert_containers_preserved cs p m) (λ _ m₁.
        last-Ensures (Restores values) _ (check_controls r p values m₁) (λ _ m₂.
          last-Ensures (Restores values) (restored r p values)
            (redact_json_value r (payload_options r p event_type) p
              (obj (delete_all values (clone_fields fs))) m₂)
            (λ result m₃. restored-Restores values result m₃)))

  abbrev RestoresIf : List (List String × Json) → Option (Json × List RedactionEntry) → Type 0
  RestoresIf values none = Unit
  RestoresIf values (some result) = Restores values result

  protocol_event-Restores :
      (event_type : String) (cs : List (List String)) (fs : Fields) (m : Memory)
      → get_text event_type protocol_control_paths ≡ some cs
      → Ensures Anything Anything
          (RestoresIf (control_values cs (obj fs)))
          (redact_protocol_event r p event_type (obj fs) m)
  unfolding redact_protocol_event
  protocol_event-Restores event_type cs fs m e =
      let values = control_values cs (obj fs) in
      subst
        (λ o.
          Ensures Anything Anything (RestoresIf values)
            (redact_if_controlled r p event_type o fs m))
        (sym e)
        (continue-Ensures Anything Anything (Restores values) (RestoresIf values) _
          (redact_with_controls r p event_type cs fs m)
          (redact_with_controls-Restores event_type cs fs m) (λ result n _ h. (tt, h)))

-- An event whose payload has fields of the protocol keeps each of these fields with its value,
-- whatever the rules are, wherever its redaction gives a payload.
pub redact_protocol_event-KeepsControls :
    (r : Runtime) (p : Pipeline) (event_type : String) (controls : List (List String))
    (control : List String) (fs : Fields) (w v : Json) (entries : List RedactionEntry)
    (m n : Memory)
    → get_text event_type protocol_control_paths ≡ some controls
    → Memᴰ control controls
    → value_at_object_path control (obj fs) ≡ some w
    → redact_protocol_event r p event_type (obj fs) m ≡ (done (some (v, entries)), n)
    → value_at_object_path control v ≡ some w
redact_protocol_event-KeepsControls r p event_type cs c fs w v es m n table member there given =
    let (made, e) =
      Ensures-done (RestoresIf r p (control_values cs (obj fs))) _ (some (v, es)) n given
        (protocol_event-Restores r p event_type cs fs m table) in
    ap (value_at_object_path c) e
    ∙ set_controls-value cs (obj fs) made c w (controls-apart event_type cs table) member there
