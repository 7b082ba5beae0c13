-- ===== src/Prelude/Lists.antt =====
-- Lists measured and indexed by native numbers, and predicates on their elements.
use Prim.Native.Nat.{ℕ, zero, suc, ◌+◌}
use mathlib.Core.Path.{◌≡◌, refl, sym, ap, ◌∙◌, subst}
use mathlib.Core.Bool.{Bool, true, false, ◌&&◌, ◌||◌}
use mathlib.Core.Option.{Option, none, some}
use mathlib.Core.List.{List, [], ◌∷◌, ◌++◌, map, Memᴰ}
use native.Mathlib.Omega.{arith}
use agent_loop_snapshot.Prelude.Tests.{if◌then◌else◌, if_elim}

module _ {ℓ} {A : Type ℓ} where
  abbrev pub length : List A → ℕ
  length [] = 0
  length (x ∷ xs) = suc (length xs)

  abbrev pub last? : List A → Option A
  last? [] = none
  last? (x ∷ []) = some x
  last? (x ∷ y ∷ xs) = last? (y ∷ xs)

  abbrev pub all : (A → Bool) → List A → Bool
  all p [] = true
  all p (x ∷ xs) = p x && all p xs

  abbrev pub any : (A → Bool) → List A → Bool
  any p [] = false
  any p (x ∷ xs) = p x || any p xs

  -- `slice(0, n)`
  abbrev pub take : ℕ → List A → List A
  take zero xs = []
  take (suc n) [] = []
  take (suc n) (x ∷ xs) = x ∷ take n xs

  abbrev pub get_elem? : List A → ℕ → Option A
  get_elem? [] n = none
  get_elem? (x ∷ xs) zero = some x
  get_elem? (x ∷ xs) (suc n) = get_elem? xs n

  -- `Array.prototype.filter`
  abbrev pub keep : (A → Bool) → List A → List A
  keep p [] = []
  keep p (x ∷ xs) = if p x then x ∷ keep p xs else keep p xs

  -- `Array.prototype.find`
  abbrev pub find : (A → Bool) → List A → Option A
  find p [] = none
  find p (x ∷ xs) = if p x then some x else find p xs

module _ {ℓ} {A : Type ℓ} where
  pub length-append : (xs ys : List A) → length (xs ++ ys) ≡ length xs + length ys
  length-append [] ys = omega arith
  length-append (x ∷ xs) ys = omega (arith, length-append xs ys)

  pub last?-snoc : (xs : List A) (x : A) → last? (xs ++ x ∷ []) ≡ some x
  last?-snoc [] x = refl
  last?-snoc (y ∷ []) x = refl
  last?-snoc (y ∷ z ∷ xs) x = last?-snoc (z ∷ xs) x

  pub any-append : (p : A → Bool) (xs ys : List A) → any p (xs ++ ys) ≡ (any p xs || any p ys)
  any-append p [] ys = refl
  any-append p (x ∷ xs) ys = ground (arith, any-append p xs ys)

module _ {ℓ κ} {A : Type ℓ} (P : A → Type κ) where
  abbrev pub All : List A → Type κ
  All [] = Unit
  All (x ∷ xs) = P x × All xs

  pub All-snoc : (xs : List A) {x : A} → All xs → P x → All (xs ++ x ∷ [])
  All-snoc [] _ p = (p, tt)
  All-snoc (y ∷ xs) h p = (h.0, All-snoc xs h.1 p)

module _ {ℓ κ μ} {A : Type ℓ} (P : A → Type κ) (Q : A → Type μ) (f : (x : A) → P x → Q x) where
  pub All-map : (xs : List A) → All P xs → All Q xs
  All-map [] h = tt
  All-map (x ∷ xs) h = (f x h.0, All-map xs h.1)

pub last?-eq-none {ℓ} : {A : Type ℓ} (xs : List A) → last? xs ≡ none → xs ≡ []
last?-eq-none [] h = refl
last?-eq-none (x ∷ []) h = cc
last?-eq-none (x ∷ y ∷ xs) h = cc (last?-eq-none (y ∷ xs) h)

pub length-map {ℓ κ} :
    {A : Type ℓ} {B : Type κ} (f : A → B) (xs : List A) → length (map f xs) ≡ length xs
length-map f [] = refl
length-map f (x ∷ xs) = ap suc (length-map f xs)

pub keep-All {ℓ κ} :
    {A : Type ℓ} (P : A → Type κ) (p : A → Bool) (xs : List A) → All P xs → All P (keep p xs)
keep-All P p [] h = tt
keep-All P p (x ∷ xs) h =
    if_elim (All P) (p x) (λ _. (h.0, keep-All P p xs h.1)) (λ _. keep-All P p xs h.1)

pub keep-true {ℓ} : {A : Type ℓ} (p : A → Bool) (xs : List A) → All (λ x. p x ≡ true) (keep p xs)
keep-true p [] = tt
keep-true p (x ∷ xs) =
    if_elim (All (λ y. p y ≡ true)) (p x) (λ e. (e, keep-true p xs)) (λ _. keep-true p xs)

-- Each element stands in the list.
pub members {ℓ} : {A : Type ℓ} (xs : List A) → All (λ x. Memᴰ x xs) xs
members [] = tt
members (x ∷ xs) = (
  Memᴰ.head refl,
  All-map (λ y. Memᴰ y xs) (λ y. Memᴰ y (x ∷ xs)) (λ y m. Memᴰ.tail m) xs (members xs),
)

module _ {ℓ κ} {A : Type ℓ} (P : A → Type κ) where
  pub All-Mem : {x : A} (xs : List A) → All P xs → Memᴰ x xs → P x
  All-Mem [] h m = elim m [ ]
  All-Mem (y ∷ xs) h (Memᴰ.head e) = subst P (sym e) h.0
  All-Mem (y ∷ xs) h (Memᴰ.tail m) = All-Mem xs h.1 m

module _ {ℓ} {A : Type ℓ} where
  pub keep_ext : (p q : A → Bool) (xs : List A) → All (λ x. p x ≡ q x) xs → keep p xs ≡ keep q xs
  keep_ext p q [] h = refl
  keep_ext p q (x ∷ xs) h = rw (h.0, keep_ext p q xs h.1) refl

  pub Mem-keep : (p : A → Bool) (x : A) (xs : List A) → Memᴰ x xs → p x ≡ true → Memᴰ x (keep p xs)
  Mem-keep p x [] m h = elim m [ ]
  Mem-keep p x (y ∷ xs) (Memᴰ.head e) h =
      let q : p y ≡ true = sym (ap p e) ∙ h in rw q (Memᴰ.head e)
  Mem-keep p x (y ∷ xs) (Memᴰ.tail m) h =
      if_elim (λ ys. Memᴰ x ys) (p y) (λ _. Memᴰ.tail (Mem-keep p x xs m h))
        (λ _. Mem-keep p x xs m h)

  pub keep-Mem :
      (p : A → Bool) (x : A) (xs : List A) → Memᴰ x (keep p xs) → Memᴰ x xs × (p x ≡ true)
  keep-Mem p x xs m = (
    All-Mem (λ y. Memᴰ y xs) (keep p xs) (keep-All (λ y. Memᴰ y xs) p xs (members xs)) m,
    All-Mem (λ y. p y ≡ true) (keep p xs) (keep-true p xs) m,
  )

-- `sort`, which is stable: an element goes before those that it is not after.
module _ {A : Type 0} (before : A → A → Bool) where
  abbrev pub insert : A → List A → List A
  insert a [] = a ∷ []
  insert a (b ∷ bs) = if before a b then a ∷ b ∷ bs else b ∷ insert a bs

  abbrev pub sort : List A → List A
  sort [] = []
  sort (a ∷ bs) = insert a (sort bs)

module _ {A : Type 0} (P : A → Type 0) (before : A → A → Bool) where
  pub insert-All : (a : A) (xs : List A) → P a → All P xs → All P (insert before a xs)
  insert-All a [] p h = (p, tt)
  insert-All a (b ∷ bs) p h =
      if_elim (All P) (before a b) (λ _. (p, h)) (λ _. (h.0, insert-All a bs p h.1))

  pub sort-All : (xs : List A) → All P xs → All P (sort before xs)
  sort-All [] h = tt
  sort-All (a ∷ bs) h = insert-All a (sort before bs) h.0 (sort-All bs h.1)
