-- ===== src/Trace/Waiting.antt =====
-- How many parents an event waits for in the search for cycles (packages/trace/src/index.ts).
use agent_loop_snapshot.Prelude.{
  ℕ, ◌+◌, String, ◌≡◌, ◌≢◌, refl, sym, ap, ◌∙◌, inl, inr, Bool, true, false, ◌&&◌, ◌||◌, not, List,
  [], ◌∷◌, ◌++◌, ◌==◌, if◌then◌else◌, arith, eq_iff, eq_refl, includes, All, All-Mem, Bool-cases,
  ||_right,
}
use mathlib.Core.Path.{subst}
use mathlib.Core.List.{Memᴰ}
use agent_loop_snapshot.Trace.Index.{LoadedEvent, Indexes}
use agent_loop_snapshot.Trace.Structure.{is_known, count_known}

abbrev pub one_if : Bool → ℕ
one_if b = if b then 1 else 0

-- How often a text stands in a list.
abbrev pub times : String → List String → ℕ
times v [] = 0
times v (q ∷ qs) = one_if (v == q) + times v qs

abbrev pub identity : LoadedEvent → String
identity e = e.event_id

-- How often an event of the identity stands in a list.
abbrev pub occurs : String → List LoadedEvent → ℕ
occurs id [] = 0
occurs id (c ∷ cs) = one_if (c.event_id == id) + occurs id cs

pub includes-snoc :
    (xs : List String) (x v : String) → includes (xs ++ x ∷ []) v ≡ (includes xs v || x == v)
includes-snoc [] x v = ground arith
includes-snoc (y ∷ xs) x v = ground (arith, includes-snoc xs x v)

abbrev pub NoDup : List String → Type 0
NoDup [] = Unit
NoDup (x ∷ xs) = (includes xs x ≡ false) × NoDup xs

same_flip : (x y : String) → (x == y) ≡ true → (y == x) ≡ true
same_flip x y e = (eq_iff y x).1 (sym ((eq_iff x y).0 e))

differ : (x y : String) → (x == y) ≡ false → (y == x) ≡ false
differ x y e = elim (Bool-cases (y == x)) [
  | inl h ↦ let no = same_flip y x h in cc (e, no)
  | inr h ↦ h
]

pub NoDup-snoc :
    (xs : List String) (x : String) → NoDup xs → includes xs x ≡ false → NoDup (xs ++ x ∷ [])
NoDup-snoc [] x h n = (refl, tt)
NoDup-snoc (y ∷ xs) x h n = (
  includes-snoc xs x y ∙ rw (h.0, differ y x (ground (arith, n))) refl,
  NoDup-snoc xs x h.1 (ground (arith, n)),
)

-- The identities of a list are distinct.
abbrev pub Distinct : List LoadedEvent → Type 0
Distinct [] = Unit
Distinct (e ∷ es) = All (λ f. f.event_id ≢ e.event_id) es × Distinct es

pub Distinct-same :
    (es : List LoadedEvent) (e f : LoadedEvent)
    → Distinct es
    → Memᴰ e es
    → Memᴰ f es
    → e.event_id ≡ f.event_id
    → e ≡ f
Distinct-same [] e f d m n h = elim m [ ]
Distinct-same (g ∷ es) e f d (Memᴰ.head p) (Memᴰ.head q) h = p ∙ sym q
Distinct-same (g ∷ es) e f d (Memᴰ.head p) (Memᴰ.tail n) h =
    absurd (All-Mem _ es d.0 n (sym h ∙ ap identity p))
Distinct-same (g ∷ es) e f d (Memᴰ.tail m) (Memᴰ.head q) h =
    absurd (All-Mem _ es d.0 m (h ∙ ap identity q))
Distinct-same (g ∷ es) e f d (Memᴰ.tail m) (Memᴰ.tail n) h = Distinct-same es e f d.1 m n h

module _ (x : Indexes) where
  -- How many of the parents are there and not done.
  abbrev pub waiting : List String → List String → ℕ
  waiting done [] = 0
  waiting done (p ∷ ps) = one_if (is_known x p && not (includes done p)) + waiting done ps

  pub waiting-none : (ps : List String) → waiting [] ps ≡ count_known x ps
  waiting-none [] = refl
  waiting-none (p ∷ ps) = ground (arith, waiting-none ps)

  counted :
      (k d e : Bool)
      → k ≡ true
      → d ≡ false
      → e ≡ true
      → one_if (k && not d) ≡ one_if (k && not (e || d)) + one_if e
  counted k d e p q r = ground (arith, p, q, r)

  waits : (k d : Bool) (n : ℕ) → one_if (k && not d) + n ≡ 0 → k ≡ true → d ≡ true
  waits k d n h p = ground (arith, h, p)

  one_done :
      (done : List String) (id p : String)
      → is_known x id ≡ true
      → includes done id ≡ false
      → one_if (is_known x p && not (includes done p))
        ≡ one_if (is_known x p && not (includes (id ∷ done) p)) + one_if (id == p)
  one_done done id p k n = elim (Bool-cases (id == p)) [
    | inl e ↦
        let q = (eq_iff id p).0 e in
        let kp = subst (λ v. is_known x v ≡ true) q k in
        let np = subst (λ v. includes done v ≡ false) q n in
        counted (is_known x p) (includes done p) (id == p) kp np e
    | inr e ↦ rw e (omega arith)
  ]

  pub waiting-done :
      (done : List String) (id : String) (ps : List String)
      → is_known x id ≡ true
      → includes done id ≡ false
      → waiting done ps ≡ waiting (id ∷ done) ps + times id ps
  waiting-done done id [] k n = refl
  waiting-done done id (p ∷ ps) k n =
      omega (arith, one_done done id p k n, waiting-done done id ps k n)

  pub waiting-zero :
      (done ps : List String) (p : String)
      → waiting done ps ≡ 0
      → includes ps p ≡ true
      → is_known x p ≡ true
      → includes done p ≡ true
  waiting-zero done [] p h i k = cc
  waiting-zero done (q ∷ ps) p h i k = elim (Bool-cases (q == p)) [
    | inl e ↦
        let same = (eq_iff q p).0 e in
        subst (λ v. includes done v ≡ true) same
          (waits (is_known x q) (includes done q) (waiting done ps) h
            (subst (λ v. is_known x v ≡ true) (sym same) k))
    | inr e ↦ waiting-zero done ps p (omega (arith, h)) (rw e at i) k
  ]

  here : (p : String) (ps : List String) → includes (p ∷ ps) p ≡ true
  here p ps = rw (eq_refl p) refl

  pub zero-waiting :
      (done ps : List String)
      → ((p : String) → includes ps p ≡ true → is_known x p ≡ true → includes done p ≡ true)
      → waiting done ps ≡ 0
  zero-waiting done [] h = refl
  zero-waiting done (p ∷ ps) h =
      let rest = zero-waiting done ps (λ q i. h q (||_right (p == q) (includes ps q) i)) in
      elim (Bool-cases (is_known x p)) [
        | inl k ↦ rw (k, h p (here p ps) k) (omega (arith, rest))
        | inr k ↦ rw k (omega (arith, rest))
      ]
