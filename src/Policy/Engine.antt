-- ===== src/Policy/Engine.antt =====
-- `PolicyEngine` of src/policy/engine.ts: the layers, the checks of mode, tool and context, and
-- `evaluate`. The engine's documents have passed the schema validation of its constructor.
pub mod Denials
pub mod Safety
pub mod Budgets
pub mod Disclosure
use mathlib.Core.Option.{get_or}
use cope_code.Common.{
  ℕ, ◌≡◌, Bool, true, false, not, ◌&&◌, ◌||◌, Option, none, some, List, [], ◌∷◌, ◌++◌, map, Text,
  text, text_is_eq, ◌==◌, if◌then◌else◌, concat_map, leb, min, length, any,
}
use cope_code.Policy.Types
use cope_code.Policy.Types.{
  PolicyDecision, allow, ask, deny, PolicyLayer, organization, repository, session, Dimension,
  ReasonCode, PolicyCheck, PolicyDocument, SessionGrant, AutonomyMode, inspect, edit, auto,
  PathAccess, CommandRisk, BudgetMetric, Amount, PolicyPathAccess, PolicyCommandContext,
  PolicyDisclosureContext, PolicyNetworkContext, PolicyChangeContext, PolicyOperation,
  PolicyCapabilities,
}
use cope_code.Policy.Tools
use cope_code.Policy.Tools.{is_tool_name, tool_requires_context, ToolContextRequirement}
use cope_code.Policy.Rules.{
  LayerView, CheckInput, decide_rule, resolve_check, fixed, overall, reasons_of,
}
use cope_code.Policy.Layers.{
  is_read, evaluate_path, evaluate_command, evaluate_disclosure, budget_metrics,
}
use cope_code.Policy.Limits.{evaluate_network, evaluate_change, evaluate_budgets}
use cope_code.Policy.Facts.{evaluate_operation_facts}

-- The engine; the last two fields are `repositoryPathKey` and the library `minimatch`.
pub record PolicyEngine : Type 0 where
  pub organization : PolicyDocument
  pub repository : PolicyDocument
  pub session : SessionGrant
  pub path_key : Text → Text
  pub minimatch : Bool → Text → Text → Bool

abbrev pub document_view : PolicyLayer → PolicyDocument → LayerView
document_view layer document = record {
  layer = layer;
  default_decision = document.default_decision;
  capabilities = document.capabilities;
}

abbrev pub session_view : SessionGrant → LayerView
session_view grant = record {
  layer = session;
  default_decision = grant.default_decision;
  capabilities = grant.capabilities;
}

abbrev pub layers : PolicyEngine → List LayerView
layers e =
    document_view organization e.organization
    ∷ document_view repository e.repository
    ∷ session_view e.session
    ∷ []

abbrev pub is_high : Option PolicyCommandContext → Bool
is_high none = false
is_high (some command) = elim command.risk [ CommandRisk.high ↦ true | _ ↦ false ]

abbrev pub has_side_effects : Option PolicyCommandContext → Bool
has_side_effects none = false
has_side_effects (some command) = command.side_effects

-- The operation would change the repository, or runs a terminal command.
unfoldable pub mutates : PolicyOperation → Bool
unfolding any
mutates op =
    op.tool == text "terminal_exec"
    || (tool_requires_context op.tool ToolContextRequirement.change
        || any (λ p. not (is_read p.access)) op.paths)

abbrev deny_mode : Bool → ReasonCode → List PolicyCheck
deny_mode true code = fixed session Dimension.mode code none ∷ []
deny_mode false code = []

abbrev command_id : Option PolicyCommandContext → Text
command_id none = []
command_id (some command) = command.id

unfoldable pub evaluate_mode : PolicyEngine → PolicyOperation → List PolicyCheck
unfolding mutates
evaluate_mode e op = elim e.session.mode [
  | inspect ↦
      deny_mode (mutates op) ReasonCode.mode_inspect_write_denied
      ++ deny_mode (op.tool == text "run_command" && has_side_effects op.command)
          ReasonCode.mode_inspect_side_effect_denied
  | edit ↦
      if is_high op.command
      then resolve_check e.session.approved_capabilities (record {
        layer = session;
        dimension = Dimension.mode;
        decision = ask;
        ask_code = ReasonCode.mode_edit_high_risk_requires_approval;
        deny_code = ReasonCode.command_risk_not_granted;
        capability_key = text "command:" ++ command_id op.command;
        resource = some (command_id op.command);
      })
        ∷ []
      else []
  | auto ↦ []
]

unfoldable pub tool_check : PolicyEngine → Text → LayerView → PolicyCheck
tool_check e tool view = resolve_check e.session.approved_capabilities (record {
  layer = view.layer;
  dimension = Dimension.tool;
  decision =
      decide_rule view.capabilities.tools tool view.default_decision
        (λ value pattern. value == pattern);
  ask_code = ReasonCode.tool_requires_approval;
  deny_code = ReasonCode.tool_not_granted;
  capability_key = text "tool:" ++ tool;
  resource = some tool;
})

abbrev is_absent {ℓ} : {A : Type ℓ} → Option A → Bool
is_absent none = true
is_absent (some a) = false

abbrev is_none_listed : List PolicyPathAccess → Bool
is_none_listed [] = true
is_none_listed (p ∷ ps) = false

abbrev missing : Bool → Dimension → List PolicyCheck
missing true dimension = fixed organization dimension ReasonCode.operation_context_missing none ∷ []
missing false dimension = []

unfoldable pub evaluate_required_context : PolicyOperation → List PolicyCheck
evaluate_required_context op =
    missing (tool_requires_context op.tool ToolContextRequirement.path && is_none_listed op.paths)
      Dimension.path
    ++ (missing
          (tool_requires_context op.tool ToolContextRequirement.command && is_absent op.command)
          Dimension.command
        ++ (missing
              (tool_requires_context op.tool ToolContextRequirement.network && is_absent op.network)
              Dimension.network
            ++ missing
                (tool_requires_context op.tool ToolContextRequirement.change && is_absent op.change)
                Dimension.change))

abbrev when {ℓ} : {A : Type ℓ} → (A → List PolicyCheck) → Option A → List PolicyCheck
when f none = []
when f (some a) = f a

-- The checks of `evaluate`, in order, and the decision that `finish` makes of them.
unfoldable pub checks_of : PolicyEngine → PolicyOperation → List PolicyCheck
unfolding concat_map
checks_of e op =
    let approvals = e.session.approved_capabilities in
    if not (is_tool_name op.tool)
    then fixed organization Dimension.tool ReasonCode.unknown_tool (some op.tool) ∷ []
    else evaluate_mode e op
      ++ (concat_map (λ view. tool_check e op.tool view ∷ []) (layers e)
          ++ (evaluate_required_context op
              ++ (evaluate_operation_facts e.path_key op
                  ++ (concat_map (evaluate_path e.minimatch e.path_key approvals (layers e))
                        op.paths
                      ++ (when (evaluate_command e.minimatch e.path_key approvals (layers e))
                            op.command
                          ++ (when (evaluate_disclosure e.minimatch e.path_key approvals (layers e))
                                op.disclosure
                              ++ (when (evaluate_network e.minimatch approvals (layers e))
                                    op.network
                                  ++ (when (evaluate_change e.minimatch approvals (layers e))
                                        op.change
                                      ++ evaluate_budgets e.minimatch approvals (layers e)
                                          op.projected_usage))))))))

abbrev pub least : Option ℕ → Option ℕ → Option ℕ
least none b = b
least (some a) none = some a
least (some a) (some b) = some (min a b)

-- `getEffectiveBudgetLimits`, by metric.
unfoldable pub effective_budget_limit : PolicyEngine → BudgetMetric → Option ℕ
effective_budget_limit e metric =
    least (e.organization.capabilities.budgets metric)
      (least (e.repository.capabilities.budgets metric) (e.session.capabilities.budgets metric))

pub record DisclosureLimits : Type 0 where
  pub max_bytes_per_operation : Option ℕ
  pub max_files_per_operation : Option ℕ

-- The least of the limits that the layers have.
abbrev pub least_of_layers : PolicyEngine → (PolicyCapabilities → Option ℕ) → Option ℕ
least_of_layers e limit =
    least (limit e.organization.capabilities)
      (least (limit e.repository.capabilities) (limit e.session.capabilities))

unfoldable pub effective_disclosure_limits : PolicyEngine → DisclosureLimits
effective_disclosure_limits e = record {
  max_bytes_per_operation = least_of_layers e λ c. c.disclosure.max_bytes_per_operation;
  max_files_per_operation = least_of_layers e λ c. c.disclosure.max_files_per_operation;
}

pub record EffectivePolicy : Type 0 where
  pub decision : PolicyDecision
  pub checks : List PolicyCheck
  pub reasons : List PolicyCheck
  pub effective_budget_limits : BudgetMetric → Option ℕ

unfoldable pub evaluate : PolicyEngine → PolicyOperation → EffectivePolicy
evaluate e op = record {
  decision = overall (checks_of e op);
  checks = checks_of e op;
  reasons = reasons_of (checks_of e op);
  effective_budget_limits = effective_budget_limit e;
}
