-- ===== src/Replay/Adapters.antt =====
-- packages/replay/src/adapters.ts: the registry that chooses a live or a recorded adapter.
pub mod Choice
mod Tests
use agent_loop_snapshot.Prelude.{
  String, Bool, true, false, Option, none, some, List, [], ◌∷◌, ◌==◌, if◌then◌else◌, includes, keep,
}
use agent_loop_snapshot.Schema.Envelope.{SideEffectLevel}
use agent_loop_snapshot.Replay.Policy.{
  AdapterMode, live, recorded, AdapterKind, model, tool, clock, random, environment,
}

pub record Descriptor : Type 0 where
  pub name : String
  pub version : String
  pub capabilities : List String
  pub side_effect : SideEffectLevel

-- An adapter, with what it does when it is called.
pub record Adapter (F : Type 0) : Type 0 where
  pub descriptor : Descriptor
  pub invoke : F

pub record AdapterSet (F : Type 0) : Type 0 where
  pub model : Option (Adapter F)
  pub tools : List (Adapter F)
  pub clock : Option (Adapter F)
  pub random : Option (Adapter F)
  pub environment : Option (Adapter F)

pub data AdapterDiagnosticCode : Type 0 where
  missing_adapter ambiguous_tool_adapter adapter_capability_missing : AdapterDiagnosticCode

pub record AdapterDiagnostic : Type 0 where
  pub code : AdapterDiagnosticCode
  pub adapter_kind : AdapterKind
  pub mode : AdapterMode
  pub target : Option String

pub record Resolution (F : Type 0) : Type 0 where
  pub adapter : Option (Adapter F)
  pub diagnostics : List AdapterDiagnostic

pub record Registry (F : Type 0) : Type 0 where
  pub live : AdapterSet F
  pub recorded : AdapterSet F

module _ {F : Type 0} where
  abbrev unresolved :
      AdapterDiagnosticCode → AdapterKind → AdapterMode → Option String → Resolution F
  unresolved code kind mode target = record {
    adapter = none;
    diagnostics = (record { code = code; adapter_kind = kind; mode = mode; target = target }) ∷ [];
  }

  -- `resolved`, with `supports`
  abbrev resolved : Adapter F → String → AdapterKind → AdapterMode → Option String → Resolution F
  resolved a capability kind mode target =
      if includes a.descriptor.capabilities capability
      then record { adapter = some a; diagnostics = [] }
      else unresolved adapter_capability_missing kind mode target

  -- `forMode`
  abbrev pub for_mode : Registry F → AdapterMode → AdapterSet F
  for_mode r AdapterMode.live = r.live
  for_mode r AdapterMode.recorded = r.recorded

  -- What the four methods for a single adapter have in common.
  unfoldable pub resolve_single :
      Option (Adapter F) → String → AdapterKind → AdapterMode → Resolution F
  resolve_single none capability kind mode = unresolved missing_adapter kind mode none
  resolve_single (some a) capability kind mode = resolved a capability kind mode none

  -- `resolveModel`, `resolveClock`, `resolveRandom` and `resolveEnvironment`
  unfoldable pub resolve_model : Registry F → AdapterMode → Resolution F
  unfolding resolve_single
  resolve_model r mode =
      resolve_single (for_mode r mode).model "model.complete" AdapterKind.model mode

  unfoldable pub resolve_clock : Registry F → AdapterMode → Resolution F
  unfolding resolve_single
  resolve_clock r mode = resolve_single (for_mode r mode).clock "clock.now" AdapterKind.clock mode

  unfoldable pub resolve_random : Registry F → AdapterMode → Resolution F
  unfolding resolve_single
  resolve_random r mode =
      resolve_single (for_mode r mode).random "random.next" AdapterKind.random mode

  unfoldable pub resolve_environment : Registry F → AdapterMode → Resolution F
  unfolding resolve_single
  resolve_environment r mode =
      resolve_single (for_mode r mode).environment "environment.read" AdapterKind.environment mode

  abbrev pub is_named : String → Adapter F → Bool
  is_named name a = a.descriptor.name == name

  abbrev pub choose : List (Adapter F) → AdapterMode → String → Resolution F
  choose [] mode name = unresolved missing_adapter AdapterKind.tool mode (some name)
  choose (a ∷ []) mode name = resolved a "tool.call" AdapterKind.tool mode (some name)
  choose (a ∷ b ∷ as') mode name =
      unresolved ambiguous_tool_adapter AdapterKind.tool mode (some name)

  -- `resolveTool`
  unfoldable pub resolve_tool : Registry F → AdapterMode → String → Resolution F
  resolve_tool r mode name = choose (keep (is_named name) (for_mode r mode).tools) mode name
