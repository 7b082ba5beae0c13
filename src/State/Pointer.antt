-- ===== src/State/Pointer.antt =====
-- The JSON pointers of state changes (packages/recorder/src/checkpoints.ts).
use Prim.Native.Char.{Char, code}
use agent_loop_snapshot.Prelude.{
  ℕ, String, Bool, true, false, ◌&&◌, List, [], ◌∷◌, map, ◌===◌, if◌then◌else◌, codes, all,
  is_digit, is_numeral, value_from, includes, any,
}

-- What `reconstructState` throws: the codes of `StateReconstructionError`, and what the resolver of
-- artifacts rejects with.
pub data StateError : Type 0 where
  event_run_id_mismatch event_sequence_invalid state_event_invalid state_value_invalid : StateError
  artifact_rejected : StateError

pub data Result (A : Type 0) : Type 0 where
  err : StateError → Result A
  ok : A → Result A

-- What comes after a step that does not throw.
abbrev pub follow : {A B : Type 0} → (A → Result B) → Result A → Result B
follow next (err e) = err e
follow next (ok a) = next a

infixl 5 ◌>>=◌ ◌>>◌
abbrev pub ◌>>=◌ : {A B : Type 0} → Result A → (A → Result B) → Result B
step >>= next = follow next step

abbrev pub ◌>>◌ : {B : Type 0} → Result (Unit {0}) → Result B → Result B
check >> rest = follow (λ _. rest) check

abbrev tilde : ℕ
tilde = 126

abbrev pub slash : ℕ
slash = 47

-- `text.replaceAll` of `~` and one more character, from the left; `pending` is a `~` that was read.
abbrev pub replace_all : (second : ℕ) (by : Char) (pending : Bool) → String → String
replace_all d by false String.[] = String.[]
replace_all d by true String.[] = String.◌∷◌ "~" String.[]
replace_all d by false (String.◌∷◌ c s) = elim (code c === tilde) [
  | true ↦ replace_all d by true s
  | false ↦ String.◌∷◌ c (replace_all d by false s)
]
replace_all d by true (String.◌∷◌ c s) = elim (code c === d) [
  | true ↦ String.◌∷◌ by (replace_all d by false s)
  | false ↦ elim (code c === tilde) [
    | true ↦ String.◌∷◌ "~" (replace_all d by true s)
    | false ↦ String.◌∷◌ "~" (String.◌∷◌ c (replace_all d by false s))
  ]
]

abbrev pub unescape : String → String
unescape s = replace_all 48 "~" false (replace_all 49 "/" false s)

abbrev pub push_front : Char → List String → List String
push_front c [] = String.◌∷◌ c String.[] ∷ []
push_front c (w ∷ ws) = String.◌∷◌ c w ∷ ws

-- `text.split('/')`
abbrev pub split : String → List String
split String.[] = String.[] ∷ []
split (String.◌∷◌ c s) =
    let rest = split s in if code c === slash then String.[] ∷ rest else push_front c rest

-- `pointerSegments`
unfoldable pub pointer_segments : String → Result (List String)
pointer_segments String.[] = ok []
pointer_segments (String.◌∷◌ c s) =
    if code c === slash then ok (map unescape (split s)) else err state_event_invalid

-- `dangerousStateKeys`
unfoldable pub is_dangerous : String → Bool
is_dangerous = includes ("__proto__" ∷ "constructor" ∷ "prototype" ∷ [])

-- `isArrayIndex`
unfoldable pub is_array_index : String → Bool
is_array_index s = all is_digit (codes s) && is_numeral (codes s)

-- `Number(segment)`, of an array index; the source rounds from 2 ^ 53 on, above every length.
abbrev pub index_of : String → ℕ
index_of s = value_from 0 (codes s)

-- `assertSafeStatePath`
unfoldable pub assert_safe_path : List String → Result (Unit {0})
assert_safe_path segments = if any is_dangerous segments then err state_event_invalid else ok tt
