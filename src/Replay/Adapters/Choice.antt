-- ===== src/Replay/Adapters/Choice.antt =====
-- Which adapter the registry of packages/replay/src/adapters.ts gives, and when.
use agent_loop_snapshot.Prelude.{
  String, ◌≡◌, refl, ◌∙◌, ap, Bool, true, false, some, List, [], ◌∷◌, includes, keep, arith,
  Bool-cases, inl, inr, ◌⊎◌,
}
use mathlib.Core.Path.{subst}
use mathlib.Core.List.{Memᴰ}
use agent_loop_snapshot.Replay.Policy.{AdapterMode}
use agent_loop_snapshot.Replay.Adapters.{
  Adapter, Registry, for_mode, is_named, choose, resolve_tool,
}

module _ {A : Type 0} (p : A → Bool) where
  -- What is kept of a list that has one more element.
  keep-cases :
      (x : A) (xs ys : List A)
      → keep p (x ∷ xs) ≡ ys
      → ((p x ≡ true) × (x ∷ keep p xs ≡ ys)) ⊎ ((p x ≡ false) × (keep p xs ≡ ys))
  keep-cases x xs ys h = elim (Bool-cases (p x)) [
    | inl e ↦ inl (e, rw (e, keep) at h)
    | inr e ↦ inr (e, rw (e, keep) at h)
  ]

  refused_with_tail :
      (x : A) (xs : List A) (b : A)
      → Memᴰ b (x ∷ xs)
      → p x ≡ false
      → (Memᴰ b xs → p b ≡ false)
      → p b ≡ false
  refused_with_tail x xs b (Memᴰ.head e) failing f = ap p e ∙ failing
  refused_with_tail x xs b (Memᴰ.tail m) failing f = f m

  keep-nil : (xs : List A) → keep p xs ≡ [] → (b : A) → Memᴰ b xs → p b ≡ false
  keep-nil [] h b m = elim m [ ]
  keep-nil (x ∷ xs) h b m = elim (keep-cases x xs [] h) [
    | inl (_, bad) ↦ cc bad
    | inr (failing, rest) ↦ refused_with_tail x xs b m failing (λ n. keep-nil xs rest b n)
  ]

  -- The only element that passes.
  pub record IsOnly (xs : List A) (a : A) : Type 0 where
    pub is_there : Memᴰ a xs
    pub passes : p a ≡ true
    pub only : (b : A) → Memᴰ b xs → p b ≡ true → b ≡ a

  only_head :
      (x : A) (xs : List A)
      → p x ≡ true
      → keep p xs ≡ []
      → (b : A) → Memᴰ b (x ∷ xs)
      → p b ≡ true
      → b ≡ x
  only_head x xs passing rest b (Memᴰ.head e) h = e
  only_head x xs passing rest b (Memᴰ.tail m) h = cc (h, keep-nil xs rest b m)

  only_tail :
      (x : A) (xs : List A) (a : A)
      → p x ≡ false
      → IsOnly xs a
      → (b : A) → Memᴰ b (x ∷ xs)
      → p b ≡ true
      → b ≡ a
  only_tail x xs a failing o b (Memᴰ.head e) h =
      let same : p b ≡ p x = ap p e in cc (h, failing, same)
  only_tail x xs a failing o b (Memᴰ.tail m) h = o.only b m h

  keep-single : (xs : List A) (a : A) → keep p xs ≡ a ∷ [] → IsOnly xs a
  keep-single [] a h = cc
  keep-single (x ∷ xs) a h = elim (keep-cases x xs (a ∷ []) h) [
    | inl (passing, found) ↦
        let same : x ≡ a = cc found in
        let rest : keep p xs ≡ [] = cc found in
        subst (IsOnly (x ∷ xs)) same (record {
          is_there = Memᴰ.head refl;
          passes = passing;
          only = only_head x xs passing rest;
        })
    | inr (failing, rest) ↦
        let o = keep-single xs a rest in
        record {
          is_there = Memᴰ.tail o.is_there;
          passes = o.passes;
          only = only_tail x xs a failing o;
        }
  ]

module _ {F : Type 0} where
  choose-cases :
      (as' : List (Adapter F)) (mode : AdapterMode) (name : String) (a : Adapter F)
      → (choose as' mode name).adapter ≡ some a
      → (as' ≡ a ∷ [])
        × (includes a.descriptor.capabilities "tool.call" ≡ true)
        × ((choose as' mode name).diagnostics ≡ [])
  choose-cases [] mode name a h = cc
  choose-cases (x ∷ []) mode name a h =
      elim (Bool-cases (includes x.descriptor.capabilities "tool.call")) [
        | inl able ↦
            let same : x ≡ a = ground (arith, h, able) in
            (
              ap (λ y. let l : List (Adapter F) = y ∷ [] in l) same,
              subst (λ y. includes y.descriptor.capabilities "tool.call" ≡ true) same able,
              ground (arith, able),
            )
        | inr unable ↦ ground (arith, h, unable)
      ]
  choose-cases (x ∷ y ∷ as') mode name a h = cc

  -- Where the registry gives a tool adapter, it is the only one of the mode's adapters with the
  -- tool's name, it declares the capability to be called, and there is no diagnostic.
  pub resolve_tool_sound :
      (r : Registry F) (mode : AdapterMode) (name : String) (a : Adapter F)
      → (resolve_tool r mode name).adapter ≡ some a
      → IsOnly (is_named name) (for_mode r mode).tools a
        × (includes a.descriptor.capabilities "tool.call" ≡ true)
        × ((resolve_tool r mode name).diagnostics ≡ [])
  unfolding resolve_tool
  resolve_tool_sound r mode name a h =
      let kept = keep (is_named name) (for_mode r mode).tools in
      let (single, able, silent) = choose-cases kept mode name a h in
      (keep-single (is_named name) (for_mode r mode).tools a single, able, silent)
