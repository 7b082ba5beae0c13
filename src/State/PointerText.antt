-- ===== src/State/PointerText.antt =====
-- JSON pointers can be written and read back (packages/recorder/src/checkpoints.ts).
use Prim.Native.Char.{Char, code}
use text.Mathlib.TextEquality.{Char-path}
use agent_loop_snapshot.Prelude.{
  ℕ, String, ◌≡◌, refl, ap, ◌∙◌, false, List, [], ◌∷◌, ◌===◌, arith, map, Bool-cases, inl, inr,
  if◌then◌else◌,
}
use agent_loop_snapshot.State.Pointer.{ok, replace_all, unescape, split, pointer_segments}

abbrev pub escape_char : Char → String → String
escape_char c rest =
    if code c === 126
    then String.◌∷◌ "~" (String.◌∷◌ "0" rest)
    else if code c === 47
    then String.◌∷◌ "~" (String.◌∷◌ "1" rest)
    else String.◌∷◌ c rest

-- A segment with its `~` and `/` escaped as RFC 6901 says, before the rest of a pointer.
abbrev pub escape_onto : String → String → String
escape_onto String.[] rest = rest
escape_onto (String.◌∷◌ c s) rest = escape_char c (escape_onto s rest)

-- The JSON pointer of a list of segments.
abbrev pub pointer_of : List String → String
pointer_of [] = String.[]
pointer_of (s ∷ ss) = String.◌∷◌ "/" (escape_onto s (pointer_of ss))

split-escape_onto :
    (s rest : String) (ws : List String)
    → split rest ≡ String.[] ∷ ws
    → split (escape_onto s rest) ≡ escape_onto s String.[] ∷ ws
split-escape_onto String.[] rest ws h = h
split-escape_onto (String.◌∷◌ c s) rest ws h =
    let ih = split-escape_onto s rest ws h in
    elim (Bool-cases (code c === 126)) [
      | inl e ↦ rw (e, ih) refl
      | inr e ↦ elim (Bool-cases (code c === 47)) [
        | inl a ↦ rw (e, a, ih) refl
        | inr a ↦ rw (e, a, a, ih) refl
      ]
    ]

-- The text with only its `~` escaped.
escape_tilde : String → String
escape_tilde String.[] = String.[]
escape_tilde (String.◌∷◌ c s) =
    let rest = escape_tilde s in
    if code c === 126 then String.◌∷◌ "~" (String.◌∷◌ "0" rest) else String.◌∷◌ c rest

replace_all-other :
    (d : ℕ) (by c : Char) (s : String)
    → (code c === 126) ≡ false
    → replace_all d by false (String.◌∷◌ c s) ≡ String.◌∷◌ c (replace_all d by false s)
replace_all-other d by c s h = rw (replace_all, h) refl

first_pass : (s : String) → replace_all 49 "/" false (escape_onto s String.[]) ≡ escape_tilde s
unfolding escape_tilde
first_pass String.[] = refl
first_pass (String.◌∷◌ c s) =
    let ih = first_pass s in
    elim (Bool-cases (code c === 126)) [
      | inl e ↦ rw (e, ih) refl
      | inr e ↦ elim (Bool-cases (code c === 47)) [
        | inl a ↦
            rw (e, a, ih) (λ i. String.◌∷◌ (Char-path "/" c (ground (arith, a)) i) (escape_tilde s))
        | inr a ↦
            rw (e, a)
              (replace_all-other 49 "/" c (escape_onto s String.[]) e ∙ ap (String.◌∷◌ c) ih)
      ]
    ]

second_pass : (s : String) → replace_all 48 "~" false (escape_tilde s) ≡ s
unfolding escape_tilde
second_pass String.[] = refl
second_pass (String.◌∷◌ c s) =
    let ih = second_pass s in
    elim (Bool-cases (code c === 126)) [
      | inl e ↦ rw (e, ih) (λ i. String.◌∷◌ (Char-path "~" c (ground (arith, e)) i) s)
      | inr e ↦ rw e (replace_all-other 48 "~" c (escape_tilde s) e ∙ ap (String.◌∷◌ c) ih)
    ]

unescape-escape_onto : (s : String) → unescape (escape_onto s String.[]) ≡ s
unescape-escape_onto s = rw (first_pass s) (second_pass s)

segments-pointer_of :
    (s : String) (ss : List String) → map unescape (split (escape_onto s (pointer_of ss))) ≡ s ∷ ss
segments-pointer_of s [] = rw (split-escape_onto s String.[] [] refl, unescape-escape_onto s) refl
segments-pointer_of s (t ∷ ss) =
    rw
      (
        split-escape_onto s (pointer_of (t ∷ ss)) (split (escape_onto t (pointer_of ss))) refl,
        segments-pointer_of t ss,
        unescape-escape_onto s,
      )
      refl

-- The pointer of a list of segments, written as RFC 6901 says, is read as these segments, whatever
-- characters they have.
pub pointer_segments-pointer_of : (ss : List String) → pointer_segments (pointer_of ss) ≡ ok ss
unfolding pointer_segments
pointer_segments-pointer_of [] = refl
pointer_segments-pointer_of (s ∷ ss) = ap ok (segments-pointer_of s ss)
