-- ===== src/Replay/Correlation.antt =====
-- packages/replay/src/correlation.ts: the key of one logical call.
use Prim.Native.Char.{code}
use text.Mathlib.TextEquality.{Char-path}
use agent_loop_snapshot.Prelude.{
  sym, ◌∙◌, ℕ, String, ◌≡◌, refl, not, List, ◌∷◌, ◌++◌, codes, is_blank, leb, if◌then◌else◌, arith,
}
use agent_loop_snapshot.Replay.Policy.{slash, max_safe_integer}
use agent_loop_snapshot.Replay.Policy.Identity.{Encodes, NoSlash, split_at_slash, append_cancel}
use agent_loop_snapshot.Replay.Recorded.Reading.{CallKind, model, tool}

-- An ordinal that is negative or not whole, which the source refuses as invalid, cannot be given.
pub record CorrelationIdentity : Type 0 where
  pub kind : CallKind
  pub target : String
  pub ordinal : ℕ

pub data CorrelationError : Type 0 where
  invalid_correlation_target invalid_correlation_ordinal : CorrelationError

pub data CreatedKey : Type 0 where
  key : List ℕ → CreatedKey
  refused : CorrelationError → CreatedKey

abbrev pub call_kind_name : CallKind → String
call_kind_name model = "model"
call_kind_name tool = "tool"

-- Over `encodeURIComponent` and the `String` of a number.
module _ (encode : String → List ℕ) (decimal : ℕ → String) where
  unfoldable pub correlation_text : CorrelationIdentity → List ℕ
  correlation_text i =
      codes "replay/v1/"
      ++ (codes (call_kind_name i.kind)
          ++ (slash ∷ (encode i.target ++ (slash ∷ codes (decimal i.ordinal)))))

  -- `createReplayCorrelationKey`
  unfoldable pub create_correlation_key : CorrelationIdentity → CreatedKey
  unfolding correlation_text is_blank
  create_correlation_key i =
      if is_blank i.target
      then refused invalid_correlation_target
      else if not (leb i.ordinal max_safe_integer)
      then refused invalid_correlation_ordinal
      else key (correlation_text i)

codes_injective : (s t : String) → codes s ≡ codes t → s ≡ t
codes_injective String.[] String.[] e = refl
codes_injective String.[] (String.◌∷◌ d t) e = cc
codes_injective (String.◌∷◌ c s) String.[] e = cc
codes_injective (String.◌∷◌ c s) (String.◌∷◌ d t) e =
    let h : code c ≡ code d = ground arith in
    let r : s ≡ t = codes_injective s t (ground arith) in λ i. String.◌∷◌ (Char-path c d h i) (r i)

kind_NoSlash : (k : CallKind) → NoSlash (codes (call_kind_name k))
kind_NoSlash model = ground arith
kind_NoSlash tool = ground arith

call_kind_name_injective :
    (a b : CallKind) → codes (call_kind_name a) ≡ codes (call_kind_name b) → a ≡ b
call_kind_name_injective model model e = refl
call_kind_name_injective model tool e = ground (arith, e)
call_kind_name_injective tool model e = ground (arith, e)
call_kind_name_injective tool tool e = refl

created_text :
    (encode : String → List ℕ) (decimal : ℕ → String) (i : CorrelationIdentity) (k : List ℕ)
    → create_correlation_key encode decimal i ≡ key k
    → correlation_text encode decimal i ≡ k
unfolding create_correlation_key
created_text encode decimal i k h = ground (arith, h)

-- Where the encoding of a component is injective and free of slashes and the decimal text of a
-- number is injective, two calls that get one key have the same kind, target and ordinal.
pub correlation_key_injective :
    (encode : String → List ℕ) (decimal : ℕ → String)
    → Encodes encode decimal
    → (a b : CorrelationIdentity) (k : List ℕ) → create_correlation_key encode decimal a ≡ key k
    → create_correlation_key encode decimal b ≡ key k
    → a ≡ b
unfolding correlation_text
correlation_key_injective encode decimal laws a b k h j =
    let ta = created_text encode decimal a k h in
    let tb = created_text encode decimal b k j in
    let (e1, r1) =
      split_at_slash (codes (call_kind_name a.kind)) (codes (call_kind_name b.kind)) _ _
        (kind_NoSlash a.kind) (kind_NoSlash b.kind)
        (append_cancel (codes "replay/v1/") _ _ (ta ∙ sym tb)) in
    let (e2, r2) = split_at_slash _ _ _ _ (laws.no_slash a.target) (laws.no_slash b.target) r1 in
    let kind = call_kind_name_injective a.kind b.kind e1 in
    let target = laws.injective a.target b.target e2 in
    let ordinal =
      laws.decimal_injective a.ordinal b.ordinal
        (codes_injective (decimal a.ordinal) (decimal b.ordinal) r2) in
    cc (kind, target, ordinal)
