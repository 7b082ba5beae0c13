-- ===== src/Replay/Policy/Identity.antt =====
-- An approval is bound to one action: equal identities come from equal actions
-- (packages/replay/src/policy.ts).
use agent_loop_snapshot.Prelude.{
  ℕ, String, ◌≡◌, refl, ◌≢◌, List, [], ◌∷◌, ◌++◌, arith, All, codes, Option, some, none, ap, ◌==◌,
  if◌then◌else◌,
}
use agent_loop_snapshot.Replay.Policy.{
  ActionInput, slash, action_id, mode_name, kind_name, level_name, AdapterMode, AdapterKind,
  SideEffectLevel, live, recorded, model, tool, clock, random, environment, agent, verifier,
  read_only, workspace_write, external_write, destructive,
}

abbrev pub NoSlash : List ℕ → Type 0
NoSlash = All (λ c. c ≢ slash)

-- What the two built-in functions promise: they are injective, and no encoded text has a slash.
pub record Encodes (encode : String → List ℕ) (decimal : ℕ → String) : Type 0 where
  pub injective : (s t : String) → encode s ≡ encode t → s ≡ t
  pub no_slash : (s : String) → NoSlash (encode s)
  pub decimal_injective : (m n : ℕ) → decimal m ≡ decimal n → m ≡ n

pub split_at_slash :
    (a b r s : List ℕ)
    → NoSlash a
    → NoSlash b
    → a ++ (slash ∷ r) ≡ b ++ (slash ∷ s)
    → (a ≡ b) × (r ≡ s)
split_at_slash [] [] r s na nb e = ground arith
split_at_slash [] (c ∷ b) r s na nb e = ground arith
split_at_slash (c ∷ a) [] r s na nb e = ground arith
split_at_slash (c ∷ a) (d ∷ b) r s na nb e = ground (arith, split_at_slash a b r s)

pub append_cancel : (a b c : List ℕ) → a ++ b ≡ a ++ c → b ≡ c
append_cancel [] b c e = e
append_cancel (x ∷ a) b c e = append_cancel a b c (ground arith)

-- Each name can be read back.
mode_of : String → Option AdapterMode
mode_of s = if s == "live" then some live else if s == "recorded" then some recorded else none

mode_of-mode_name : (m : AdapterMode) → mode_of (mode_name m) ≡ some m
unfolding mode_of
mode_of-mode_name live = refl
mode_of-mode_name recorded = refl

kind_of : String → Option AdapterKind
kind_of s =
    if s == "model"
    then some model
    else if s == "tool"
    then some tool
    else if s == "clock"
    then some clock
    else if s == "random"
    then some random
    else if s == "environment"
    then some environment
    else if s == "agent"
    then some agent
    else if s == "verifier"
    then some verifier
    else none

kind_of-kind_name : (k : AdapterKind) → kind_of (kind_name k) ≡ some k
unfolding kind_of
kind_of-kind_name model = refl
kind_of-kind_name _ = refl

level_of : String → Option SideEffectLevel
level_of s =
    if s == "read_only"
    then some read_only
    else if s == "workspace_write"
    then some workspace_write
    else if s == "external_write"
    then some external_write
    else if s == "destructive"
    then some destructive
    else none

level_of-level_name : (l : SideEffectLevel) → level_of (level_name l) ≡ some l
unfolding level_of
level_of-level_name read_only = refl
level_of-level_name _ = refl

injective_of_read {ℓ} :
    {A : Type ℓ} (name : A → String) (read : String → Option A)
    → ((a : A) → read (name a) ≡ some a)
    → (a b : A) → name a ≡ name b
    → a ≡ b
injective_of_read name read back a b e = cc (back a, back b, ap read e)

pub mode_name_injective : (a b : AdapterMode) → mode_name a ≡ mode_name b → a ≡ b
mode_name_injective = injective_of_read mode_name mode_of mode_of-mode_name

pub kind_name_injective : (a b : AdapterKind) → kind_name a ≡ kind_name b → a ≡ b
kind_name_injective = injective_of_read kind_name kind_of kind_of-kind_name

pub level_name_injective : (a b : SideEffectLevel) → level_name a ≡ level_name b → a ≡ b
level_name_injective = injective_of_read level_name level_of level_of-level_name

module _ (encode : String → List ℕ) (decimal : ℕ → String) (laws : Encodes encode decimal) where
  -- The six parts of two equal identities are equal, one after another.
  parts_equal :
      (a b : ActionInput)
      → action_id encode decimal a ≡ action_id encode decimal b
      → (mode_name a.mode ≡ mode_name b.mode)
        × (kind_name a.adapter_kind ≡ kind_name b.adapter_kind)
        × (level_name a.side_effect ≡ level_name b.side_effect)
        × (a.target ≡ b.target)
        × (a.correlation_key ≡ b.correlation_key)
        × (decimal a.attempt ≡ decimal b.attempt)
  unfolding action_id
  parts_equal a b e =
      let (e1, r1) =
        split_at_slash _ _ _ _ (laws.no_slash _) (laws.no_slash _)
          (append_cancel (codes "replay-policy/v1/") _ _ e) in
      let (e2, r2) = split_at_slash _ _ _ _ (laws.no_slash _) (laws.no_slash _) r1 in
      let (e3, r3) = split_at_slash _ _ _ _ (laws.no_slash _) (laws.no_slash _) r2 in
      let (e4, r4) = split_at_slash _ _ _ _ (laws.no_slash _) (laws.no_slash _) r3 in
      let (e5, r5) = split_at_slash _ _ _ _ (laws.no_slash _) (laws.no_slash _) r4 in
      (
        laws.injective _ _ e1,
        laws.injective _ _ e2,
        laws.injective _ _ e3,
        laws.injective _ _ e4,
        laws.injective _ _ e5,
        laws.injective _ _ r5,
      )

  -- Two actions with the same identity agree in mode, adapter kind, side effect, target, correlation
  -- key and attempt, so that an approval for one action fits no other; this where the built-in
  -- `encodeURIComponent` and the decimal text of a number are injective and the first has no slash.
  pub action_id_injective :
      (a b : ActionInput) → action_id encode decimal a ≡ action_id encode decimal b → a ≡ b
  action_id_injective a b e =
      let (e1, e2, e3, e4, e5, e6) = parts_equal a b e in
      let f1 = mode_name_injective _ _ e1 in
      let f2 = kind_name_injective _ _ e2 in
      let f3 = level_name_injective _ _ e3 in
      let f6 = laws.decimal_injective _ _ e6 in
      λ i. record {
        mode = f1 i;
        adapter_kind = f2 i;
        target = e4 i;
        side_effect = f3 i;
        correlation_key = e5 i;
        attempt = f6 i;
      }
