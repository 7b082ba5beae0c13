-- ===== src/Prelude/Maps.antt =====
-- Association lists in insertion order, for `Map`.
use Prim.Native.String.{String}
use mathlib.Core.Path.{◌≡◌, refl}
use mathlib.Core.Logic.{◌≢◌, ◌⊎◌, inl, inr}
use mathlib.Core.Bool.{Bool, true, false}
use mathlib.Core.Option.{Option, none, some}
use mathlib.Core.List.{List, [], ◌∷◌}
use native.Mathlib.Omega.{arith}
use text.Mathlib.Text.{◌==◌}
use text.Mathlib.TextEquality.{eq_iff}
use agent_loop_snapshot.Prelude.Tests.{if◌then◌else◌, Bool-cases}

-- `Map.prototype.get` and `set`: a key that is there keeps its place.
module _ {K V : Type 0} (same : K → K → Bool) where
  abbrev pub map_get : K → List (K × V) → Option V
  map_get k [] = none
  map_get k ((l, v) ∷ m) = if same l k then some v else map_get k m

  abbrev pub map_set : K → V → List (K × V) → List (K × V)
  map_set k v [] = (k, v) ∷ []
  map_set k v ((l, w) ∷ m) = if same l k then (l, v) ∷ m else (l, w) ∷ map_set k v m

pub same_text-eq : (a b : String) → (a == b) ≡ true → a ≡ b
same_text-eq a b h = ground (arith, h, eq_iff a b)

pub map_get-map_set :
    {K V : Type 0} (same : K → K → Bool) (same-eq : (a b : K) → same a b ≡ true → a ≡ b) (k k' : K)
    (v w : V) (m : List (K × V))
    → map_get same k' (map_set same k v m) ≡ some w
    → ((k ≡ k') × (v ≡ w)) ⊎ (map_get same k' m ≡ some w)
map_get-map_set same same-eq k k' v w [] h = ground (arith, h, same-eq k k')
map_get-map_set same same-eq k k' v w ((l, x) ∷ m) h =
    ground (arith, h, same-eq l k, same-eq l k', map_get-map_set same same-eq k k' v w m)

pub map_get-same :
    {K V : Type 0} (same : K → K → Bool) (k : K) (v : V) (m : List (K × V))
    → same k k ≡ true
    → map_get same k (map_set same k v m) ≡ some v
map_get-same same k v [] h = rw h refl
map_get-same same k v ((l, x) ∷ m) h = elim (Bool-cases (same l k)) [
  | inl e ↦ rw (e, e) refl
  | inr e ↦ rw (e, e) (map_get-same same k v m h)
]

pub map_get-other :
    {K V : Type 0} (same : K → K → Bool) (same-eq : (a b : K) → same a b ≡ true → a ≡ b) (k k' : K)
    (v : V) (m : List (K × V))
    → k ≢ k'
    → map_get same k' (map_set same k v m) ≡ map_get same k' m
map_get-other same same-eq k k' v [] h = ground (arith, h, same-eq k k')
map_get-other same same-eq k k' v ((l, x) ∷ m) h =
    ground (arith, h, same-eq l k, same-eq l k', map_get-other same same-eq k k' v m h)

-- Maps from texts.
module _ {V : Type 0} where
  abbrev pub get_text : String → List (String × V) → Option V
  get_text k m = map_get (λ a b. a == b) k m

  abbrev pub set_text : String → V → List (String × V) → List (String × V)
  set_text k v m = map_set (λ a b. a == b) k v m

  pub get_text-here :
      (k l : String) (v : V) (m : List (String × V))
      → (l == k) ≡ true
      → get_text k ((l, v) ∷ m) ≡ some v
  get_text-here k l v m e = rw e refl

  pub get_text-there :
      (k l : String) (v : V) (m : List (String × V))
      → (l == k) ≡ false
      → get_text k ((l, v) ∷ m) ≡ get_text k m
  get_text-there k l v m e = rw e refl

  pub set_text-here :
      (k l : String) (v w : V) (m : List (String × V))
      → (l == k) ≡ true
      → set_text k w ((l, v) ∷ m) ≡ (l, w) ∷ m
  set_text-here k l v w m e = rw e refl

  pub set_text-there :
      (k l : String) (v w : V) (m : List (String × V))
      → (l == k) ≡ false
      → set_text k w ((l, v) ∷ m) ≡ (l, v) ∷ set_text k w m
  set_text-there k l v w m e = rw e refl
