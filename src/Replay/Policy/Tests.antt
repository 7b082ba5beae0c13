-- ===== src/Replay/Policy/Tests.antt =====
-- The identity theorem at two inputs, with stand-ins for the built-in functions.
use Prim.Native.Char.{code}
use Prim.Native.String.{String}
use text.Mathlib.TextEquality.{Char-path}
use agent_loop_snapshot.Prelude.{
  ℕ, zero, suc, ◌+◌, ◌≡◌, refl, ◌≢◌, List, [], ◌∷◌, ◌++◌, map, arith, All, codes, ap,
}
use agent_loop_snapshot.Replay.Policy.{ActionInput, live, tool, read_only, slash}
use agent_loop_snapshot.Replay.Recorded.Reading.{CallKind}
use agent_loop_snapshot.Replay.Correlation.{CorrelationIdentity, key, create_correlation_key}
use agent_loop_snapshot.Replay.Policy.Identity.{Encodes, action_id_injective}

-- Shifts every code point past the slash.
abbrev shift : String → List ℕ
shift s = map (λ c. c + 48) (codes s)

shift_injective : (s t : String) → shift s ≡ shift t → s ≡ t
shift_injective String.[] String.[] e = refl
shift_injective String.[] (String.◌∷◌ d t) e = cc
shift_injective (String.◌∷◌ c s) String.[] e = cc
shift_injective (String.◌∷◌ c s) (String.◌∷◌ d t) e =
    let h : code c ≡ code d = ground arith in
    let r : s ≡ t = shift_injective s t (ground arith) in λ i. String.◌∷◌ (Char-path c d h i) (r i)

All-shifted : (cs : List ℕ) → All (λ c. c ≢ slash) (map (λ c. c + 48) cs)
All-shifted [] = tt
All-shifted (c ∷ cs) = (omega arith, All-shifted cs)

-- Unary numbers.
abbrev ones : ℕ → String
ones zero = String.[]
ones (suc n) = String.◌∷◌ "1" (ones n)

ones_injective : (m n : ℕ) → ones m ≡ ones n → m ≡ n
ones_injective zero zero e = refl
ones_injective zero (suc n) e = cc
ones_injective (suc m) zero e = cc
ones_injective (suc m) (suc n) e = ap suc (ones_injective m n (ground arith))

shift-Encodes : Encodes shift ones
shift-Encodes = record {
  injective = shift_injective;
  no_slash = λ s. All-shifted (codes s);
  decimal_injective = ones_injective;
}

abbrev look_up : ActionInput
look_up = record {
  mode = live;
  adapter_kind = tool;
  target = "search";
  side_effect = read_only;
  correlation_key = "replay/v1/tool/search/0";
  attempt = 1;
}

action_id_injective_example : look_up ≡ look_up
action_id_injective_example = action_id_injective shift ones shift-Encodes look_up look_up refl

abbrev first_search : CorrelationIdentity
first_search = record { kind = CallKind.tool; target = "search"; ordinal = 1 }

search_key :
    create_correlation_key shift ones first_search
    ≡ key (codes "replay/v1/tool/" ++ (shift "search" ++ codes "/1"))
unfolding create_correlation_key
search_key = refl
