-- ===== src/Policy/Tools.antt =====
-- The tool registry of src/protocol/types.ts.
use cope_code.Common.{
  Bool, true, false, Option, none, some, List, [], ◌∷◌, Text, text, text_is_eq, ◌==◌, Eq,
  eq_of_discrete, contains, if◌then◌else◌,
}
use mathlib.Core.Bool.{decide}

pub data ToolExecutionSurface : Type 0 where
  local orchestrator : ToolExecutionSurface

pub data ToolContextRequirement : Type 0 where
  path command network change : ToolContextRequirement

abbrev pub Requirement-discrete : Discrete ToolContextRequirement
Requirement-discrete = hlevel

instance abbrev pub requirement_is_eq : Eq ToolContextRequirement
requirement_is_eq = eq_of_discrete Requirement-discrete

pub record ToolDefinition : Type 0 where
  pub execution : ToolExecutionSurface
  pub read_only : Bool
  pub batchable : Bool
  pub required_context : List ToolContextRequirement

abbrev reader : List ToolContextRequirement → ToolDefinition
reader context = record {
  execution = local;
  read_only = true;
  batchable = true;
  required_context = context;
}

abbrev mutator : List ToolContextRequirement → ToolDefinition
mutator context = record {
  execution = local;
  read_only = false;
  batchable = false;
  required_context = context;
}

abbrev decider : ToolDefinition
decider = record {
  execution = orchestrator;
  read_only = false;
  batchable = false;
  required_context = [];
}

unfoldable pub tool_registry : List (Text × ToolDefinition)
tool_registry =
    (text "list_files", reader (path ∷ []))
    ∷ (text "search_text", reader (path ∷ []))
    ∷ (text "read_file", reader (path ∷ []))
    ∷ (text "git_status", reader [])
    ∷ (text "git_diff", reader [])
    ∷ (text "edit_text", mutator (path ∷ change ∷ []))
    ∷ (text "apply_patch", mutator (path ∷ change ∷ []))
    ∷ (text "run_command", mutator (command ∷ network ∷ []))
    ∷ (text "terminal_exec", mutator [])
    ∷ (text "request_user_input", decider)
    ∷ (text "request_capability", decider)
    ∷ (text "complete_task", decider)
    ∷ []

unfoldable pub lookup_tool : Text → List (Text × ToolDefinition) → Option ToolDefinition
lookup_tool name [] = none
lookup_tool name ((tool, definition) ∷ registry) =
    if name == tool then some definition else lookup_tool name registry

-- `TOOL_REGISTRY[tool]`.
unfoldable pub tool_definition : Text → Option ToolDefinition
unfolding tool_registry lookup_tool
tool_definition name = lookup_tool name tool_registry

unfoldable pub is_tool_name : Text → Bool
is_tool_name value = elim (tool_definition value) [ none ↦ false | some definition ↦ true ]

-- `TOOL_REGISTRY[tool].batchable`, and `toolRequiresContext`; the callers pass tool names only.
unfoldable pub is_batchable : Text → Bool
is_batchable tool = elim (tool_definition tool) [ none ↦ false | some d ↦ d.batchable ]

unfoldable pub tool_requires_context : Text → ToolContextRequirement → Bool
unfolding contains decide
tool_requires_context tool context = elim (tool_definition tool) [
  | none ↦ false
  | some d ↦ contains context d.required_context
]
