-- ===== src/Replay/Adapters/Tests.antt =====
-- The registry at concrete adapters.
use agent_loop_snapshot.Prelude.{ℕ, String, ◌≡◌, refl, true, none, some, [], ◌∷◌, includes}
use agent_loop_snapshot.Schema.Envelope.{read_only}
use agent_loop_snapshot.Replay.Policy.{AdapterMode}
use agent_loop_snapshot.Replay.Adapters.{Adapter, AdapterSet, Registry, is_named, resolve_tool}
use agent_loop_snapshot.Replay.Adapters.Choice.{IsOnly, resolve_tool_sound}

abbrev tool_named : String → Adapter ℕ
tool_named name = record {
  descriptor = record {
    name = name;
    version = "1";
    capabilities = "tool.call" ∷ [];
    side_effect = read_only;
  };
  invoke = 0;
}

abbrev two_tools : AdapterSet ℕ
two_tools = record {
  model = none;
  tools = tool_named "mail" ∷ tool_named "file" ∷ [];
  clock = none;
  random = none;
  environment = none;
}

abbrev no_tools : AdapterSet ℕ
no_tools = record { model = none; tools = []; clock = none; random = none; environment = none }

abbrev registry : Registry ℕ
registry = record { live = no_tools; recorded = two_tools }

finds_file : (resolve_tool registry AdapterMode.recorded "file").adapter ≡ some (tool_named "file")
unfolding resolve_tool
finds_file = refl

resolve_tool_sound_example :
    IsOnly (is_named "file") two_tools.tools (tool_named "file")
    × (includes ("tool.call" ∷ []) "tool.call" ≡ true)
    × ((resolve_tool registry AdapterMode.recorded "file").diagnostics ≡ [])
resolve_tool_sound_example =
    resolve_tool_sound registry AdapterMode.recorded "file" (tool_named "file") finds_file
