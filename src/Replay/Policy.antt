-- ===== src/Replay/Policy.antt =====
-- packages/replay/src/policy.ts: actions, their identity, rules and approvals.
pub mod Identity
mod Tests
pub use agent_loop_snapshot.Schema.Envelope.{
  SideEffectLevel, read_only, workspace_write, external_write, destructive,
}
use agent_loop_snapshot.Prelude.{
  ℕ, zero, suc, ◌+◌, ◌-◌, ◌^◌, String, Bool, true, false, ◌&&◌, ◌||◌, not, Option, none, some, List,
  [], ◌∷◌, ◌++◌, map, ◌==◌, ◌===◌, leb, ltb, if◌then◌else◌, codes, is_blank,
}

pub data AdapterMode : Type 0 where
  live recorded : AdapterMode

pub data AdapterKind : Type 0 where
  model tool clock random environment agent verifier : AdapterKind

pub data DecisionKind : Type 0 where
  allow deny dry_run require_approval : DecisionKind

abbrev pub mode_name : AdapterMode → String
mode_name live = "live"
mode_name recorded = "recorded"

abbrev pub kind_name : AdapterKind → String
kind_name model = "model"
kind_name tool = "tool"
kind_name clock = "clock"
kind_name random = "random"
kind_name environment = "environment"
kind_name agent = "agent"
kind_name verifier = "verifier"

abbrev pub level_name : SideEffectLevel → String
level_name read_only = "read_only"
level_name workspace_write = "workspace_write"
level_name external_write = "external_write"
level_name destructive = "destructive"

pub record ActionInput : Type 0 where
  pub mode : AdapterMode
  pub adapter_kind : AdapterKind
  pub target : String
  pub side_effect : SideEffectLevel
  pub correlation_key : String
  pub attempt : ℕ

-- The identity is a text, as its code points.
pub record Action : Type 0 where
  pub input : ActionInput
  pub open input use *
  pub id : List ℕ

pub data PolicyError : Type 0 where
  invalid_target invalid_correlation_key invalid_attempt : PolicyError

pub data Created : Type 0 where
  created : Action → Created
  refused : PolicyError → Created

-- `Number.MAX_SAFE_INTEGER`
abbrev pub max_safe_integer : ℕ
max_safe_integer = 2 ^ 53 - 1

abbrev pub slash : ℕ
slash = 47

-- `parts.join('/')`
abbrev pub join : List (List ℕ) → List ℕ
join [] = []
join (p ∷ []) = p
join (p ∷ q ∷ ps) = p ++ (slash ∷ join (q ∷ ps))

-- `encodeURIComponent`, which percent-encodes every slash, and the `String` of a number.
module _ (encode : String → List ℕ) (decimal : ℕ → String) where
  unfoldable pub action_id : ActionInput → List ℕ
  action_id input =
      codes "replay-policy/v1/"
      ++ join (
          map encode (
            mode_name input.mode
            ∷ kind_name input.adapter_kind
            ∷ level_name input.side_effect
            ∷ input.target
            ∷ input.correlation_key
            ∷ decimal input.attempt
            ∷ []))

  -- `createReplayPolicyAction`
  unfoldable pub create_action : ActionInput → Created
  unfolding action_id is_blank
  create_action input =
      if is_blank input.target
      then refused invalid_target
      else if is_blank input.correlation_key
      then refused invalid_correlation_key
      else if not (leb input.attempt max_safe_integer) || ltb input.attempt 1
      then refused invalid_attempt
      else created (record { input = input; id = action_id input })

pub record Rule : Type 0 where
  pub decision : DecisionKind
  pub mode : Option AdapterMode
  pub adapter_kind : Option AdapterKind
  pub target : Option String
  pub side_effect : Option SideEffectLevel

pub record Approval : Type 0 where
  pub action_id : List ℕ
  pub approved_by : String
  pub approved_at : String
