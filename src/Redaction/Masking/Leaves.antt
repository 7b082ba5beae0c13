-- ===== src/Redaction/Masking/Leaves.antt =====
-- What a rule without removal leaves where its path ends (packages/recorder/src/redaction.ts).
use agent_loop_snapshot.Prelude.{
  ℕ, zero, suc, String, ◌≡◌, refl, sym, ◌∙◌, ap, Bool, true, false, ◌&&◌, ◌||◌, Option, none, some,
  List, [], ◌∷◌, ◌++◌, ◌==◌, if◌then◌else◌, Bool-cases, inl, inr, &&_split,
}
use mathlib.Core.Path.{subst}
use agent_loop_snapshot.Schema.Json.{Json, arr, obj, Items, nil, cons, Fields, end, field, get}
use agent_loop_snapshot.Schema.Envelope.{RedactionEntry}
use agent_loop_snapshot.State.Container.{item_at}
use agent_loop_snapshot.Redaction.Rules.{Memory, Step, Runtime, Applied}
use agent_loop_snapshot.Redaction.Walk.{
  Walked, whole, settled, item_before, field_before, array_index, index_path, key_path, each_item,
  each_field,
}
use agent_loop_snapshot.Redaction.StateChange.{member_at, value_at_state_path}
use agent_loop_snapshot.Redaction.Steps.{Never, Ensures, continue-Ensures}

abbrev pub fits : String → String → Bool
fits s t = s == "*" || s == t

-- The segments of a rule address what is at a path.
abbrev pub covers : List String → List String → Bool
covers [] [] = true
covers (s ∷ ss) (t ∷ ts) = fits s t && covers ss ts
covers [] (_ ∷ _) = false
covers (_ ∷ _) [] = false

pub some-inv :
    {A B : Type 0} (o : Option A) (next : A → Option B) (x : B)
    → (elim o [ none ↦ none | some a ↦ next a ]) ≡ some x
    → (a : A) × (o ≡ some a) × (next a ≡ some x)
some-inv none next x h = cc
some-inv (some a) next x h = (a, refl, h)

item-inv :
    (t : String) (q : List String) (vs : Items) (x : Json)
    → value_at_state_path (t ∷ q) (arr vs) ≡ some x
    → (i : ℕ) × (y : Json) × (array_index t ≡ some i)
      × (item_at i vs ≡ some y)
      × (value_at_state_path q y ≡ some x)
unfolding value_at_state_path
item-inv t q vs x e =
    let (y, at, rest) = some-inv (member_at t (arr vs)) (value_at_state_path q) x e in
    let (i, index, item) = some-inv (array_index t) (λ i. item_at i vs) y at in
    (i, y, index, item, rest)

field-inv :
    (t : String) (q : List String) (fs : Fields) (x : Json)
    → value_at_state_path (t ∷ q) (obj fs) ≡ some x
    → (y : Json) × (get t fs ≡ some y) × (value_at_state_path q y ≡ some x)
unfolding value_at_state_path
field-inv t q fs x e = some-inv (get t fs) (value_at_state_path q) x e

-- A member that is not removed, before the others.
kept_member :
    {C : Type 0} (make : Json → C → C) (child : Applied) (v : Json) (rest : C)
    → child.removed ≡ false
    → settled v child ≡ child.value
    → (if child.removed then rest else make (settled v child) rest) ≡ make child.value rest
kept_member make child v rest h e = rw h (ap (λ w. make w rest) e)

unchanged_member :
    {C : Type 0} (make : Json → C → C) (removed changed later : Bool) (v w : Json) (rest vs : C)
    → ((later ≡ false) → rest ≡ vs)
    → (removed || changed || later) ≡ false
    → (if removed then rest else make (if changed then w else v) rest) ≡ make v vs
unchanged_member make true c l v w rest vs h e = cc
unchanged_member make false true l v w rest vs h e = cc
unchanged_member make false false l v w rest vs h e = ap (make v) (h e)

module _ (P : Json → Type 0) where
  -- What the segments address satisfies `P`.
  abbrev pub Leaves : List String → Json → Type 0
  Leaves ss v =
      (q : List String) (w : Json) → covers ss q ≡ true → value_at_state_path q v ≡ some w → P w

  pub Leaves-nil : (v : Json) → P v → Leaves [] v
  unfolding value_at_state_path
  Leaves-nil v h [] w c e = let same : v ≡ w = cc in subst P same h
  Leaves-nil v h (t ∷ q) w c e = cc

  -- A result that is not removed, is what stays in the place of `v`, and has such leaves.
  abbrev pub Fine : List String → Json → Applied → Type 0
  Fine ss v a = (a.removed ≡ false) × (settled v a ≡ a.value) × Leaves ss a.value

  abbrev pub FineItems : String → List String → Items → Walked Items → Type 0
  FineItems s ss vs w =
      ((t : String) (i : ℕ) (x : Json)
        → fits s t ≡ true
        → array_index t ≡ some i
        → item_at i w.contents ≡ some x
        → Leaves ss x)
      × ((w.changed ≡ false) → w.contents ≡ vs)

  abbrev pub FineFields : String → List String → Fields → Walked Fields → Type 0
  FineFields s ss fs w =
      ((t : String) (x : Json) → fits s t ≡ true → get t w.contents ≡ some x → Leaves ss x)
      × ((w.changed ≡ false) → w.contents ≡ fs)

  settled-whole :
      {C : Type 0} (make : C → Json) (c : C) (w : Walked C)
      → ((w.changed ≡ false) → w.contents ≡ c)
      → settled (make c) (whole make w) ≡ make w.contents
  settled-whole make c w h = elim (Bool-cases w.changed) [
    | inl e ↦ rw e refl
    | inr e ↦ rw e (ap make (sym (h e)))
  ]

  pub items-Fine :
      (s : String) (ss : List String) (vs : Items) (w : Walked Items)
      → FineItems s ss vs w
      → Fine (s ∷ ss) (arr vs) (whole arr w)
  items-Fine s ss vs w h = (refl, settled-whole arr vs w h.1, leaves)
    where
      leaves : Leaves (s ∷ ss) (arr w.contents)
      leaves [] x c e = cc
      leaves (t ∷ q) x c e =
          let (fit, more) = &&_split (fits s t) (covers ss q) c in
          let (i, y, at, found, rest) = item-inv t q w.contents x e in
          h.0 t i y fit at found q x more rest

  pub fields-Fine :
      (s : String) (ss : List String) (fs : Fields) (w : Walked Fields)
      → FineFields s ss fs w
      → Fine (s ∷ ss) (obj fs) (whole obj w)
  fields-Fine s ss fs w h = (refl, settled-whole obj fs w h.1, leaves)
    where
      leaves : Leaves (s ∷ ss) (obj w.contents)
      leaves [] x c e = cc
      leaves (t ∷ q) x c e =
          let (fit, more) = &&_split (fits s t) (covers ss q) c in
          let (y, found, rest) = field-inv t q w.contents x e in h.0 t y fit found q x more rest

  AllItems-cons :
      (ss : List String) (y : Json) (ys : Items)
      → Leaves ss y
      → ((i : ℕ) (x : Json) → item_at i ys ≡ some x → Leaves ss x)
      → (i : ℕ) (x : Json) → item_at i (cons y ys) ≡ some x
      → Leaves ss x
  AllItems-cons ss y ys h hs zero x e = let same : y ≡ x = cc in subst (Leaves ss) same h
  AllItems-cons ss y ys h hs (suc i) x e = hs i x e

  AllFields-field :
      (ss : List String) (k : String) (y : Json) (ys : Fields)
      → Leaves ss y
      → ((t : String) (x : Json) → get t ys ≡ some x → Leaves ss x)
      → (t : String) (x : Json) → get t (field k y ys) ≡ some x
      → Leaves ss x
  AllFields-field ss k y ys h hs t x e = elim (Bool-cases (k == t)) [
    | inl here ↦
        let first : some y ≡ some x = sym (rw here refl) ∙ e in
        let same : y ≡ x = cc in subst (Leaves ss) same h
    | inr there ↦ hs t x (sym (rw there refl) ∙ e)
  ]

  abbrev pub AllItems : List String → Items → Walked Items → Type 0
  AllItems ss vs w =
      ((i : ℕ) (x : Json) → item_at i w.contents ≡ some x → Leaves ss x)
      × ((w.changed ≡ false) → w.contents ≡ vs)

  abbrev pub AllFields : List String → Fields → Walked Fields → Type 0
  AllFields ss fs w =
      ((t : String) (x : Json) → get t w.contents ≡ some x → Leaves ss x)
      × ((w.changed ≡ false) → w.contents ≡ fs)

  item_before-AllItems :
      (ss : List String) (v : Json) (vs : Items) (child : Applied) (rest : Walked Items)
      (entries : List RedactionEntry)
      → Fine ss v child
      → AllItems ss vs rest
      → AllItems ss (cons v vs) (item_before v child rest entries)
  item_before-AllItems ss v vs child rest entries f h =
      let made = kept_member cons child v rest.contents f.0 f.1 in
      (
        (λ i x e.
            AllItems-cons ss child.value rest.contents f.2 h.0 i x (ap (item_at i) (sym made) ∙ e)),
        unchanged_member cons child.removed child.changed rest.changed v child.value rest.contents
            vs h.1,
      )

  field_before-AllFields :
      (ss : List String) (k : String) (v : Json) (fs : Fields) (child : Applied)
      (rest : Walked Fields)
      → Fine ss v child
      → AllFields ss fs rest
      → AllFields ss (field k v fs) (field_before k v child rest)
  field_before-AllFields ss k v fs child rest f h =
      let made = kept_member (field k) child v rest.contents f.0 f.1 in
      (
        (λ t x e.
            AllFields-field ss k child.value rest.contents f.2 h.0 t x (ap (get t) (sym made) ∙ e)),
        unchanged_member (field k) child.removed child.changed rest.changed v child.value
            rest.contents fs h.1,
      )

  module _ (Inv : Memory → Type 0) (r : Runtime) (ss : List String)
      (visit : Json → String → Step Applied)
      (visit-Fine : (v : Json) (path : String) (m : Memory)
        → Inv m
        → Ensures Never Inv (Fine ss v) (visit v path m))
      (path : String) where
    pub each_item-AllItems :
        (n : ℕ) (vs : Items) (m : Memory)
        → Inv m
        → Ensures Never Inv (AllItems ss vs) (each_item r visit path n vs m)
    each_item-AllItems n nil m inv = (inv, ((λ i x e. cc), λ e. refl))
    each_item-AllItems n (cons v vs) m inv =
        continue-Ensures Never Inv (AllItems ss vs) (AllItems ss (cons v vs)) _
          (each_item r visit path (suc n) vs m) (each_item-AllItems (suc n) vs m inv)
          (λ rest m₁ inv₁ h.
            continue-Ensures Never Inv (Fine ss v) (AllItems ss (cons v vs)) _
              (visit v (index_path r path n) m₁) (visit-Fine v (index_path r path n) m₁ inv₁)
              (λ child m₂ inv₂ f. (
                inv₂,
                item_before-AllItems ss v vs child rest (rest.entries ++ child.entries) f h,
              )))

    pub each_field-AllFields :
        (fs : Fields) (m : Memory)
        → Inv m
        → Ensures Never Inv (AllFields ss fs) (each_field r visit path fs m)
    each_field-AllFields end m inv = (inv, ((λ t x e. cc), λ e. refl))
    each_field-AllFields (field k v fs) m inv =
        continue-Ensures Never Inv (Fine ss v) (AllFields ss (field k v fs)) _
          (visit v (key_path path k) m) (visit-Fine v (key_path path k) m inv)
          (λ child m₁ inv₁ f.
            continue-Ensures Never Inv (AllFields ss fs) (AllFields ss (field k v fs)) _
              (each_field r visit path fs m₁) (each_field-AllFields fs m₁ inv₁)
              (λ rest m₂ inv₂ h. (inv₂, field_before-AllFields ss k v fs child rest f h)))
