-- ===== src/Redaction/Masking/Path.antt =====
-- A rule at the end of a path, and what is addressed by the path (packages/recorder/src/redaction.ts).
use agent_loop_snapshot.Prelude.{
  ℕ, String, ◌≡◌, refl, sym, ◌∙◌, ap, true, false, Option, none, some, List, [], ◌∷◌, ◌==◌,
  if◌then◌else◌, arith, Bool-cases, inl, inr, eq_iff,
}
use mathlib.Core.Path.{subst}
use agent_loop_snapshot.Schema.Json.{Json, null, bool, num, str, arr, obj, Items, Fields, get}
use agent_loop_snapshot.State.Container.{item_at, remove}
use agent_loop_snapshot.Redaction.Rules.{Memory, Step, Runtime, Applied}
use agent_loop_snapshot.Redaction.Walk.{
  settled, at_index, at_key, member, assign_member, array_index, index_path, key_path, each_item,
  each_field, item_if_there, one_item, one_field, visit_items, visit_fields, apply_path,
}
use agent_loop_snapshot.Redaction.StateChange.{member_at, value_at_state_path}
use agent_loop_snapshot.Redaction.Steps.{Never, Ensures, continue-Ensures, Ensures-weaken}
use agent_loop_snapshot.Redaction.Masking.Members.{
  item_at-put_item, get-assign_member, member-get, member-none,
}
use agent_loop_snapshot.Redaction.Masking.Leaves.{
  some-inv, fits, Leaves, Fine, FineItems, FineFields, AllItems, AllFields, items-Fine, fields-Fine,
  each_item-AllItems, each_field-AllFields,
}

settled-same :
    (v : Json) (child : Applied)
    → child.changed ≡ false
    → settled v child ≡ child.value
    → v ≡ child.value
settled-same v child c e = let kept : settled v child ≡ v = rw c refl in sym kept ∙ e

written :
    {C : Type 0} (child : Applied) (x y z : C)
    → child.removed ≡ false
    → child.changed ≡ true
    → (if child.removed then x else if child.changed then y else z) ≡ y
written child x y z h c = rw (h, c) refl

left :
    {C : Type 0} (child : Applied) (x y z : C)
    → child.removed ≡ false
    → child.changed ≡ false
    → (if child.removed then x else if child.changed then y else z) ≡ z
left child x y z h c = rw (h, c) refl

-- The item at an index after the rule was at work there.
at_index-item :
    (vs : Items) (i : ℕ) (v : Json) (child : Applied)
    → child.removed ≡ false
    → settled v child ≡ child.value
    → item_at i vs ≡ some v
    → item_at i (at_index vs i v child).contents ≡ some child.value
at_index-item vs i v child h e there = elim (Bool-cases child.changed) [
  | inl c ↦ rw (h, c) (item_at-put_item i v child.value vs there)
  | inr c ↦ rw (h, c) (there ∙ ap some (settled-same v child c e))
]

at_index-unchanged :
    (vs : Items) (i : ℕ) (v : Json) (child : Applied)
    → child.removed ≡ false
    → (at_index vs i v child).changed ≡ false
    → (at_index vs i v child).contents ≡ vs
at_index-unchanged vs i v child h e = ground (arith, h, e)

at_key-get :
    (fs : Fields) (k : String) (v x : Json) (child : Applied)
    → child.removed ≡ false
    → settled v child ≡ child.value
    → member k fs ≡ some v
    → get k (at_key fs k child).contents ≡ some x
    → child.value ≡ x
at_key-get fs k v x child h e there g = elim (Bool-cases child.changed) [
  | inl c ↦
      get-assign_member k child.value x fs
        (ap (get k) (sym (written child (remove k fs) (assign_member k child.value fs) fs h c)) ∙ g)
  | inr c ↦
      let old =
        ap (get k) (sym (left child (remove k fs) (assign_member k child.value fs) fs h c)) ∙ g in
      sym (settled-same v child c e) ∙ member-get k v x fs there old
]

at_key-unchanged :
    (fs : Fields) (k : String) (child : Applied)
    → child.removed ≡ false
    → (at_key fs k child).changed ≡ false
    → (at_key fs k child).contents ≡ fs
at_key-unchanged fs k child h e = ground (arith, h, e)

same_segment : (s t : String) → (s == "*") ≡ false → fits s t ≡ true → s ≡ t
same_segment s t h f = ground (arith, h, f, eq_iff s t)

same_index :
    (s t : String) (i j : ℕ) → s ≡ t → array_index s ≡ some i → array_index t ≡ some j → i ≡ j
same_index s t i j e h g = cc (ap array_index e)

module _ (P : Json → Type 0) (Inv : Memory → Type 0) (r : Runtime) (s : String)
    (ss : List String) where
  module _ (visit : Json → String → Step Applied)
      (visit-Fine : (v : Json) (path : String) (m : Memory)
        → Inv m
        → Ensures Never Inv (Fine P ss v) (visit v path m))
      (path : String) where
    item_if_there-FineItems :
        (vs : Items) (i : ℕ) (o : Option Json) (m : Memory)
        → (s == "*") ≡ false
        → array_index s ≡ some i
        → item_at i vs ≡ o
        → Inv m
        → Ensures Never Inv (FineItems P s ss vs) (item_if_there r visit path vs i o m)
    item_if_there-FineItems vs i none m star at there inv = (
      inv,
      (
        (λ t j x f a e q w c d.
            let same = same_index s t i j (same_segment s t star f) at a in
            let found = ap (λ (n : ℕ). item_at n vs) same ∙ e in cc),
        λ e. refl,
      ),
    )
    item_if_there-FineItems vs i (some v) m star at there inv =
        continue-Ensures Never Inv (Fine P ss v) (FineItems P s ss vs) _
          (visit v (index_path r path i) m) (visit-Fine v (index_path r path i) m inv)
          (λ child n inv' f. (
            inv',
            (
              (λ t j x g a e.
                  let same = same_index s t i j (same_segment s t star g) at a in
                  let now = at_index-item vs i v child f.0 f.1 there in
                  let then' = ap (λ (n : ℕ). item_at n (at_index vs i v child).contents) same ∙ e in
                  let value : child.value ≡ x = cc in subst (Leaves P ss) value f.2),
              at_index-unchanged vs i v child f.0,
            ),
          ))

    one_item-FineItems :
        (vs : Items) (o : Option ℕ) (m : Memory)
        → (s == "*") ≡ false
        → array_index s ≡ o
        → Inv m
        → Ensures Never Inv (FineItems P s ss vs) (one_item r visit path vs o m)
    one_item-FineItems vs none m star at inv = (
      inv,
      (
        (λ t j x f a e q w c d. let same = ap array_index (same_segment s t star f) in cc),
        λ e. refl,
      ),
    )
    one_item-FineItems vs (some i) m star at inv =
        item_if_there-FineItems vs i (item_at i vs) m star at refl inv

    visit_items-FineItems :
        (vs : Items) (m : Memory)
        → Inv m
        → Ensures Never Inv (FineItems P s ss vs) (visit_items r visit path s vs m)
    unfolding visit_items
    visit_items-FineItems vs m inv = elim (Bool-cases (s == "*")) [
      | inl star ↦ rw star (
          Ensures-weaken Never Inv (AllItems P ss vs) (FineItems P s ss vs)
            (each_item r visit path 0 vs m) (λ w h. ((λ t i x f a e. h.0 i x e), h.1))
            (each_item-AllItems P Inv r ss visit visit-Fine path 0 vs m inv))
      | inr star ↦ rw star (one_item-FineItems vs (array_index s) m star refl inv)
    ]

    one_field-FineFields :
        (fs : Fields) (o : Option Json) (m : Memory)
        → (s == "*") ≡ false
        → member s fs ≡ o
        → Inv m
        → Ensures Never Inv (FineFields P s ss fs) (one_field r visit path fs s o m)
    one_field-FineFields fs none m star there inv = (
      inv,
      (
        (λ t x f e q w c d.
            let same = same_segment s t star f in
            let gone = member-none s fs there in
            let found = ap (λ (k : String). get k fs) same ∙ e in cc),
        λ e. refl,
      ),
    )
    one_field-FineFields fs (some v) m star there inv =
        continue-Ensures Never Inv (Fine P ss v) (FineFields P s ss fs) _
          (visit v (key_path path s) m) (visit-Fine v (key_path path s) m inv)
          (λ child n inv' f. (
            inv',
            (
              (λ t x g e.
                  let same = same_segment s t star g in
                  let now = ap (λ (k : String). get k (at_key fs s child).contents) same ∙ e in
                  subst (Leaves P ss) (at_key-get fs s v x child f.0 f.1 there now) f.2),
              at_key-unchanged fs s child f.0,
            ),
          ))

    visit_fields-FineFields :
        (fs : Fields) (m : Memory)
        → Inv m
        → Ensures Never Inv (FineFields P s ss fs) (visit_fields r visit path s fs m)
    unfolding visit_fields
    visit_fields-FineFields fs m inv = elim (Bool-cases (s == "*")) [
      | inl star ↦ rw star (
          Ensures-weaken Never Inv (AllFields P ss fs) (FineFields P s ss fs)
            (each_field r visit path fs m) (λ w h. ((λ t x f e. h.0 t x e), h.1))
            (each_field-AllFields P Inv r ss visit visit-Fine path fs m inv))
      | inr star ↦ rw star (one_field-FineFields fs (member s fs) m star refl inv)
    ]

-- What is neither an array nor an object has nothing below it.
untouched-Fine :
    (P : Json → Type 0) (s : String) (ss : List String) (v : Json)
    → ((t : String) → member_at t v ≡ none)
    → Leaves P (s ∷ ss) v
unfolding value_at_state_path
untouched-Fine P s ss v h [] w c e = cc
untouched-Fine P s ss v h (t ∷ q) w c e =
    let (y, there, rest) = some-inv (member_at t v) (value_at_state_path q) w e in
    let gone = h t in cc

module _ (P : Json → Type 0) (Inv : Memory → Type 0) (r : Runtime)
    (at : Json → String → Step Applied)
    (at-Fine : (v : Json) (path : String) (m : Memory)
      → Inv m
      → Ensures Never Inv (Fine P [] v) (at v path m)) where
  pub apply_path-Fine :
      (ss : List String) (v : Json) (path : String) (m : Memory)
      → Inv m
      → Ensures Never Inv (Fine P ss v) (apply_path r at ss v path m)
  unfolding apply_path
  apply_path-Fine [] v path m inv = at-Fine v path m inv
  apply_path-Fine (s ∷ ss) (arr vs) path m inv =
      let visit = λ (v : Json) (p : String). apply_path r at ss v p in
      continue-Ensures Never Inv (FineItems P s ss vs) (Fine P (s ∷ ss) (arr vs)) _
        (visit_items r visit path s vs m)
        (visit_items-FineItems P Inv r s ss visit (λ v p m. apply_path-Fine ss v p m) path vs m inv)
        (λ w n inv' h. (inv', items-Fine P s ss vs w h))
  apply_path-Fine (s ∷ ss) (obj fs) path m inv =
      let visit = λ (v : Json) (p : String). apply_path r at ss v p in
      continue-Ensures Never Inv (FineFields P s ss fs) (Fine P (s ∷ ss) (obj fs)) _
        (visit_fields r visit path s fs m)
        (visit_fields-FineFields P Inv r s ss visit (λ v p m. apply_path-Fine ss v p m) path fs m
          inv)
        (λ w n inv' h. (inv', fields-Fine P s ss fs w h))
  apply_path-Fine (s ∷ ss) null path m inv =
      (inv, (refl, refl, untouched-Fine P s ss null (λ t. refl)))
  apply_path-Fine (s ∷ ss) (bool b) path m inv =
      (inv, (refl, refl, untouched-Fine P s ss (bool b) (λ t. refl)))
  apply_path-Fine (s ∷ ss) (num n) path m inv =
      (inv, (refl, refl, untouched-Fine P s ss (num n) (λ t. refl)))
  apply_path-Fine (s ∷ ss) (str u) path m inv =
      (inv, (refl, refl, untouched-Fine P s ss (str u) (λ t. refl)))
