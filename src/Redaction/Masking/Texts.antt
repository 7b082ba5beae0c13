-- ===== src/Redaction/Masking/Texts.antt =====
-- Every placeholder is recognised as one (packages/recorder/src/redaction.ts).
use Prim.Native.Char.{code}
use Prim.Native.String
use text.Mathlib.TextLemmas.{nil-append, cons-append}
use agent_loop_snapshot.Prelude.{
  ℕ, zero, suc, String, ◌≡◌, refl, Bool, true, false, none, some, List, [], ◌∷◌, ◌++◌, leb, ◌==◌,
  if_elim, codes, length, all, arith, Bool-cases, inl, inr, ap, ◌∙◌, &&_split,
}
use agent_loop_snapshot.Schema.Json.{str}
use agent_loop_snapshot.Redaction.Rules.{
  is_name_code, name_text, safe_category, placeholder, drop_name, is_id_code, is_id_end,
  is_name_end, is_placeholder_end, is_placeholder_text, is_redaction_placeholder,
}

-- `randomUUID` gives 36 hexadecimal digits and dashes.
pub record IsUuid (s : String) : Type 0 where
  pub size : length (codes s) ≡ 36
  pub digits : all is_id_code (codes s) ≡ true

abbrev Names : String → Type 0
Names s = all is_name_code (codes s) ≡ true

name_text-Names : (s : String) → Names (name_text s)
name_text-Names String.[] = refl
name_text-Names (String.◌∷◌ c s) =
    let rest = name_text-Names s in
    if_elim Names (is_name_code (code c)) (λ e. rw e rest)
      (λ _. if_elim Names (leb 65536 (code c)) (λ _. rest) (λ _. rest))

pub codes-append : (s t : String) → codes (String.◌++◌ s t) ≡ codes s ++ codes t
codes-append String.[] t = ap codes (nil-append t)
codes-append (String.◌∷◌ c s) t =
    ap codes (cons-append c s t) ∙ ap (λ (l : List ℕ). code c ∷ l) (codes-append s t)

drop_name-append :
    (cs us : List ℕ) → all is_name_code cs ≡ true → drop_name (cs ++ us) ≡ drop_name us
drop_name-append [] us h = refl
drop_name-append (c ∷ cs) us h =
    let (first, rest) = &&_split (is_name_code c) (all is_name_code cs) h in
    rw first (drop_name-append cs us rest)

is_id_end-append :
    (n : ℕ) (cs : List ℕ)
    → length cs ≡ n
    → all is_id_code cs ≡ true
    → is_id_end n (cs ++ 93 ∷ []) ≡ true
is_id_end-append zero [] e h = refl
is_id_end-append zero (c ∷ cs) e h = absurd (omega arith)
is_id_end-append (suc n) [] e h = absurd (omega arith)
is_id_end-append (suc n) (c ∷ cs) e h =
    let (first, rest) = &&_split (is_id_code c) (all is_id_code cs) h in
    let size : length cs ≡ n = omega arith in rw first (is_id_end-append n cs size rest)

abbrev is_blank_list : List ℕ → Bool
is_blank_list [] = true
is_blank_list (_ ∷ _) = false

is_name_end-append :
    (cs us : List ℕ)
    → all is_name_code cs ≡ true
    → is_blank_list cs ≡ false
    → drop_name us ≡ us
    → is_placeholder_end us ≡ true
    → is_name_end (cs ++ us) ≡ true
is_name_end-append [] us h n stop tail = cc
is_name_end-append (c ∷ cs) us h n stop tail =
    let (first, rest) = &&_split (is_name_code c) (all is_name_code cs) h in
    let dropped = drop_name-append cs us rest ∙ stop in rw (first, dropped) tail

safe_category-Names : (category : String) → Names (safe_category category)
unfolding safe_category
safe_category-Names category =
    if_elim Names (name_text category == "") (λ _. refl) (λ _. name_text-Names category)

ne-nil : (s : String) → (s == "") ≡ false → is_blank_list (codes s) ≡ false
ne-nil String.[] h = cc
ne-nil (String.◌∷◌ c s) h = refl

safe_category-ne-nil : (category : String) → is_blank_list (codes (safe_category category)) ≡ false
unfolding safe_category
safe_category-ne-nil category = elim (Bool-cases (name_text category == "")) [
  | inl e ↦ rw e refl
  | inr e ↦ rw e (ne-nil (name_text category) e)
]

-- The end of a placeholder with an identifier.
abbrev with_id : String → List ℕ
with_id id = codes ":ref_" ++ (codes id ++ 93 ∷ [])

with_id-IsEnd : (id : String) → IsUuid id → is_placeholder_end (with_id id) ≡ true
with_id-IsEnd id u = is_id_end-append 36 (codes id) u.size u.digits

placeholder_text-IsPlaceholder :
    (s : String)
    → is_name_end (codes s) ≡ true
    → is_placeholder_text (codes (String.◌++◌ "[REDACTED:" s)) ≡ true
unfolding is_placeholder_text
placeholder_text-IsPlaceholder s h = rw (codes-append "[REDACTED:" s) h

named-IsEnd :
    (category tail : String)
    → drop_name (codes tail) ≡ codes tail
    → is_placeholder_end (codes tail) ≡ true
    → is_name_end (codes (String.◌++◌ (safe_category category) tail)) ≡ true
named-IsEnd category tail stop h = rw (codes-append (safe_category category) tail) (
    is_name_end-append (codes (safe_category category)) (codes tail) (safe_category-Names category)
      (safe_category-ne-nil category) stop h)

pub placeholder-IsPlaceholder :
    (category : String) → is_redaction_placeholder (str (placeholder category none)) ≡ true
unfolding is_redaction_placeholder placeholder
placeholder-IsPlaceholder category =
    placeholder_text-IsPlaceholder (String.◌++◌ (safe_category category) "]")
      (named-IsEnd category "]" refl refl)

codes-id : (id : String) → codes (String.◌++◌ ":ref_" (String.◌++◌ id "]")) ≡ with_id id
codes-id id =
    codes-append ":ref_" (String.◌++◌ id "]")
    ∙ ap (λ (l : List ℕ). codes ":ref_" ++ l) (codes-append id "]")

pub reference-IsPlaceholder :
    (category id : String)
    → IsUuid id
    → is_redaction_placeholder (str (placeholder category (some id))) ≡ true
unfolding is_redaction_placeholder placeholder
reference-IsPlaceholder category id u =
    let tail = String.◌++◌ ":ref_" (String.◌++◌ id "]") in
    placeholder_text-IsPlaceholder (String.◌++◌ (safe_category category) tail)
      (named-IsEnd category tail (rw (codes-id id) refl) (rw (codes-id id) (with_id-IsEnd id u)))
