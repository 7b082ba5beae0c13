-- ===== src/Recorder/Chain.antt =====
-- The causal order of a run's events: numbered from one, with distinct identities, and each parent
-- an earlier event.
use agent_loop_snapshot.Prelude.{
  ℕ, suc, ◌+◌, ◌<◌, String, ◌≡◌, refl, Bool, true, false, ◌||◌, List, [], ◌∷◌, ◌++◌, arith, eq_iff,
  all, includes, length, sym, ◌⊎◌, All-map, ◌∙◌, map, All, Bool-cases, inl, inr, ◌==◌,
}
use mathlib.Core.List.{Memᴰ}
use mathlib.Core.Path.{subst}
use agent_loop_snapshot.Schema.Envelope.{Event}
use agent_loop_snapshot.Recorder.Record.{has_id}

-- The events `es` continue a run that has the identities `seen` and goes on with number `n`.
abbrev pub Chain : List String → ℕ → List Event → Type 0
Chain seen n [] = Unit
Chain seen n (e ∷ es) =
    (e.sequence ≡ n)
    × (includes seen e.event_id ≡ false)
    × (all (includes seen) e.parent_ids ≡ true)
    × Chain (e.event_id ∷ seen) (suc n) es

all_ext {ℓ} :
    {A : Type ℓ} (f g : A → Bool) → ((x : A) → f x ≡ g x) → (xs : List A) → all f xs ≡ all g xs
all_ext f g h [] = refl
all_ext f g h (x ∷ xs) = cc (h x, all_ext f g h xs)

-- An identity among those seen or those of the list.
known : List String → List Event → String → Bool
known seen es id = includes seen id || has_id es id

known-cons :
    (seen : List String) (e : Event) (es : List Event) (id : String)
    → known seen (e ∷ es) id ≡ known (e.event_id ∷ seen) es id
unfolding known
known-cons seen e es id = ground arith

known-nil : (seen : List String) (id : String) → includes seen id ≡ known seen [] id
unfolding known
known-nil seen id = ground arith

Chain-snoc_known :
    (seen : List String) (n : ℕ) (es : List Event) (e : Event)
    → Chain seen n es
    → e.sequence ≡ n + length es
    → known seen es e.event_id ≡ false
    → all (known seen es) e.parent_ids ≡ true
    → Chain seen n (es ++ e ∷ [])
Chain-snoc_known seen n [] e c s f p =
    (omega arith, known-nil seen e.event_id ∙ f, all_ext _ _ (known-nil seen) e.parent_ids ∙ p, tt)
Chain-snoc_known seen n (x ∷ es) e (xs, xf, xp, c) s f p = (
  xs,
  xf,
  xp,
  Chain-snoc_known (x.event_id ∷ seen) (suc n) es e c (omega arith)
      (sym (known-cons seen x es e.event_id) ∙ f)
      (sym (all_ext _ _ (known-cons seen x es) e.parent_ids) ∙ p),
)

-- An event with a fresh identity, the next number and known parents may follow.
pub Chain-snoc :
    (es : List Event) (e : Event)
    → Chain [] 1 es
    → e.sequence ≡ suc (length es)
    → has_id es e.event_id ≡ false
    → all (has_id es) e.parent_ids ≡ true
    → Chain [] 1 (es ++ e ∷ [])
unfolding known
Chain-snoc es e c s f p = Chain-snoc_known [] 1 es e c (omega arith) f p

abbrev ids : List Event → List String
ids = map (λ e. e.event_id)

event_of_includes :
    (es : List Event) (p : String)
    → includes (ids es) p ≡ true
    → (f : Event) × Memᴰ f es × (f.event_id ≡ p)
event_of_includes [] p h = cc
event_of_includes (e ∷ es) p h = elim (Bool-cases (e.event_id == p)) [
  | inl same ↦ (e, Memᴰ.head refl, (eq_iff e.event_id p).0 same)
  | inr other ↦ let (f, m, q) = event_of_includes es p (ground arith) in (f, Memᴰ.tail m, q)
]

includes_of_all :
    (seen ps : List String) (p : String)
    → all (includes seen) ps ≡ true
    → includes ps p ≡ true
    → includes seen p ≡ true
includes_of_all seen [] p h i = cc
includes_of_all seen (q ∷ ps) p h i = elim (Bool-cases (q == p)) [
  | inl same ↦ let e : q ≡ p = (eq_iff q p).0 same in ground arith
  | inr other ↦ includes_of_all seen ps p (ground arith) (ground arith)
]

-- A property of every element holds of a member.
All_at {ℓ κ} : {A : Type ℓ} (P : A → Type κ) {a : A} (xs : List A) → All P xs → Memᴰ a xs → P a
All_at P [] h m = elim m [ ]
All_at P (x ∷ xs) h (Memᴰ.head e) = subst P (sym e) h.0
All_at P (x ∷ xs) h (Memᴰ.tail m) = All_at P xs h.1 m

-- An earlier event with the identity `p`, from before the list or from it.
abbrev Earlier : List Event → List Event → Event → String → Type 0
Earlier before es e p =
    (f : Event) × (Memᴰ f before ⊎ Memᴰ f es) × (f.event_id ≡ p) × (f.sequence < e.sequence)

parent_before :
    (before : List Event) (n : ℕ) (es : List Event)
    → Chain (ids before) n es
    → All (λ f. f.sequence < n) before
    → (e : Event) (p : String) → Memᴰ e es
    → includes e.parent_ids p ≡ true
    → Earlier before es e p
parent_before before n [] c h e p m i = elim m [ ]
parent_before before n (x ∷ es) (num, _, known_parents, _) h e p (Memᴰ.head same) i =
    let (f, mem, q) =
      event_of_includes before p
        (includes_of_all (ids before) x.parent_ids p known_parents (rw same at i)) in
    let below : f.sequence < n = All_at _ before h mem in
    (f, inl mem, q, subst (λ (y : Event). f.sequence < y.sequence) (sym same) (omega arith))
parent_before before n (x ∷ es) (num, _, _, c) h e p (Memᴰ.tail m) i =
    let (f, mem, q, below) =
      parent_before (x ∷ before) (suc n) es c
        (omega arith, All-map _ _ (λ g k. omega arith) before h) e p m i in
    (
      f,
      elim mem [
        | inl (Memᴰ.head s) ↦ inr (Memᴰ.head s)
        | inl (Memᴰ.tail r) ↦ inl r
        | inr r ↦ inr (Memᴰ.tail r)
      ],
      q,
      below,
    )

-- Each parent of an event of a chain is an event of it with a smaller number; so no event is its
-- own ancestor.
pub parent-lt :
    (es : List Event)
    → Chain [] 1 es
    → (e : Event) (p : String) → Memᴰ e es
    → includes e.parent_ids p ≡ true
    → (f : Event) × Memᴰ f es × (f.event_id ≡ p) × (f.sequence < e.sequence)
parent-lt es c e p m i =
    let (f, mem, q, below) = parent_before [] 1 es c tt e p m i in
    (f, elim mem [ inl none_before ↦ elim none_before [ ] | inr r ↦ r ], q, below)
