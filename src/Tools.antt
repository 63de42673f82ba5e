-- ===== src/Tools.antt =====
-- src/money_machine/agents/tool_registry.py: the registry of the tools and the permission to call one,
-- in an agent's run and in a review. A handler maps the names of the tool and of the agent to a
-- result; its further arguments are left out.
pub mod Catalogue
pub mod Permissions
mod Tests
use money_machine.Base.{
  String, Bool, true, false, not, ◌&&◌, Option, none, some, List, [], ◌∷◌, str_eq, contains_str,
  Dict, lookup, without, if◌then◌else◌,
}
use money_machine.Domain.{SideEffectClass}
use money_machine.Domain.SideEffectClass.{
  external_read, external_write, external_spend, external_message,
}
use money_machine.Results.{Result, done, refused, check, present, ◌>>=◌, ◌>>◌}
use money_machine.Tools.Catalogue.{ToolDefinition, canonical_tools}

abbrev pub Output : Type 0
Output = Dict String

abbrev pub ToolHandler : Type 0
ToolHandler = String → String → Output

pub record ToolRegistry : Type 0 where
  pub definitions : Dict ToolDefinition
  pub handlers : Dict ToolHandler

-- `ToolPermissionError` and `ToolNotFoundError`
pub data ToolError : Type 0 where
  not_allowed mutating_in_review write_in_review : ToolError
  unknown_tool no_handler : ToolError

-- `d[key] = value`
unfoldable pub put : {V : Type 0} → String → V → Dict V → Dict V
put key value [] = (key, value) ∷ []
put key value ((k, v) ∷ d) =
    let rest = put key value d in if str_eq k key then (k, value) ∷ d else (k, v) ∷ rest

-- `SideEffectClass.value`
effect_value : SideEffectClass → String
effect_value SideEffectClass.none = "NONE"
effect_value external_read = "EXTERNAL_READ"
effect_value external_write = "EXTERNAL_WRITE"
effect_value external_spend = "EXTERNAL_SPEND"
effect_value external_message = "EXTERNAL_MESSAGE"

unfoldable pub register : ToolDefinition → ToolHandler → ToolRegistry → ToolRegistry
register definition handler registry = record {
  definitions = put definition.tool_id definition registry.definitions;
  handlers = put definition.tool_id handler registry.handlers;
}

-- `_simulated_handler`, with its flag as text
abbrev pub simulated_handler : ToolHandler
simulated_handler tool_id agent_id =
    ("tool_id", tool_id) ∷ ("simulated", "True") ∷ ("status", "ok") ∷ []

unfoldable pub register_all : List ToolDefinition → ToolRegistry → ToolRegistry
register_all [] registry = registry
register_all (definition ∷ definitions) registry =
    register_all definitions (register definition simulated_handler registry)

-- `ToolRegistry.canonical`
unfoldable pub canonical : ToolRegistry
canonical = register_all canonical_tools (record { definitions = []; handlers = [] })

-- `ToolRegistry.get`
unfoldable pub get_tool : String → ToolRegistry → Result ToolError ToolDefinition
get_tool tool_id registry = present (lookup tool_id registry.definitions) unknown_tool

unfoldable pub invoke : String → List String → String → ToolRegistry → Result ToolError Output
unfolding effect_value
invoke tool_id allowed_tools agent_id registry = do
  check (contains_str tool_id allowed_tools) not_allowed
  definition ← get_tool tool_id registry
  handler ← present (lookup tool_id registry.handlers) no_handler
  done (
      put "side_effect_class" (effect_value definition.side_effect_class)
        (handler tool_id agent_id))

-- `REVIEW_ALLOWED_NONE_TOOLS`
abbrev pub review_allowed_none_tools : List String
review_allowed_none_tools =
    "workflow.inspect" ∷ "configuration.read" ∷ "database.read" ∷ "provider.check_openai"
    ∷ "provider.check_anthropic" ∷ "provider.check_notion" ∷ "provider.check_etsy" ∷ []

-- membership of `REVIEW_PERMITTED_SIDE_EFFECTS`
abbrev pub is_review_permitted : SideEffectClass → Bool
is_review_permitted SideEffectClass.none = true
is_review_permitted external_read = true
is_review_permitted _ = false

abbrev pub is_none_class : SideEffectClass → Bool
is_none_class SideEffectClass.none = true
is_none_class _ = false

unfoldable pub invoke_for_review :
    String → List String → String → ToolRegistry → Result ToolError Output
invoke_for_review tool_id allowed_tools agent_id registry = do
  check (contains_str tool_id allowed_tools) not_allowed
  definition ← get_tool tool_id registry
  check (is_review_permitted definition.side_effect_class) mutating_in_review
  check
      (not (
        is_none_class definition.side_effect_class
        && not (contains_str tool_id review_allowed_none_tools)))
      write_in_review
  invoke tool_id allowed_tools agent_id registry
