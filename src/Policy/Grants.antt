-- ===== src/Policy/Grants.antt =====
-- The growth of a session grant in src/policy/engine.ts: the expansions, their keys and what a higher
-- layer decides on one.
pub mod Applying
pub mod Expanding
pub mod Ceilings
pub mod Budgets
mod Tests
use mathlib.Core.Option.{get_or}
use cope_code.Common.{
  ℕ, ◌≡◌, Bool, true, false, not, ◌&&◌, ◌||◌, Option, none, some, List, [], ◌∷◌, ◌++◌, Text, text,
  text_is_eq, ◌==◌, if◌then◌else◌, any, ltb, leb, to_lower, is_blank, max_safe,
}
use cope_code.Policy.Types
use cope_code.Policy.Types.{
  PolicyDecision, allow, ask, deny, Dimension, PathAccess, CommandRisk, BudgetMetric, Amount, nat,
  other, RuleSet,
}
use cope_code.Policy.Tools.{is_tool_name}
use cope_code.Policy.Patterns.{normalize_repository_path, with_slashes}
use cope_code.Policy.Rules.{LayerView, decide_rule, strictest}
use cope_code.Policy.Layers.{
  access_name, is_read, rules_for, matches_path, matches_path_pattern, match_any_case, exceeds,
  metric_name, over,
}
use cope_code.Policy.Limits.{ChangeKind, change_name, configured_change, access_decision}

-- `SessionCapabilityExpansion`
pub data Expansion : Type 0 where
  tool_expansion : Text → Expansion
  path_expansion : PathAccess → Text → Expansion
  command_expansion : (id category : Text) → CommandRisk → Expansion
  disclosure_expansion : Text → Expansion
  network_expansion : Option Text → Expansion
  change_expansion : ChangeKind → Expansion
  budget_expansion : BudgetMetric → Amount → Expansion

-- `expansionDimension`
unfoldable pub expansion_dimension : Expansion → Dimension
expansion_dimension (tool_expansion tool) = Dimension.tool
expansion_dimension (path_expansion access path) = Dimension.path
expansion_dimension (command_expansion id category risk) = Dimension.command
expansion_dimension (disclosure_expansion classification) = Dimension.disclosure
expansion_dimension (network_expansion host) = Dimension.network
expansion_dimension (change_expansion change) = Dimension.change
expansion_dimension (budget_expansion metric requested) = Dimension.budget

unfoldable pub expansion_key : (Text → Text) → Expansion → Text
unfolding with_slashes
expansion_key path_key (tool_expansion tool) = text "tool:" ++ tool
expansion_key path_key (path_expansion access path) =
    text "path:"
    ++ (access_name access
        ++ (text ":" ++ path_key (get_or (normalize_repository_path path) (with_slashes path))))
expansion_key path_key (command_expansion id category risk) = text "command:" ++ id
expansion_key path_key (disclosure_expansion classification) =
    text "disclosure:" ++ to_lower classification
expansion_key path_key (network_expansion none) = text "network:*"
expansion_key path_key (network_expansion (some host)) = text "network:" ++ to_lower host
expansion_key path_key (change_expansion change) = text "change:" ++ change_name change
expansion_key path_key (budget_expansion metric requested) = text "budget:" ++ metric_name metric

abbrev is_positive_integer : Amount → Bool
is_positive_integer (nat n) = leb 1 n && leb n max_safe
is_positive_integer (other above) = false

-- `expansionInvalid`
unfoldable pub is_invalid : Expansion → Bool
is_invalid (tool_expansion tool) = not (is_tool_name tool)
is_invalid (command_expansion id category risk) = is_blank id || is_blank category
is_invalid (disclosure_expansion classification) = is_blank classification
is_invalid (network_expansion (some host)) = is_blank host
is_invalid (budget_expansion metric requested) = not (is_positive_integer requested)
is_invalid _ = false

module _ (minimatch : Bool → Text → Text → Bool) (path_key : Text → Text) where
  abbrev path_decision : LayerView → PathAccess → Option Text → PolicyDecision
  path_decision view access none = deny
  path_decision view access (some normalized) =
      if matches_path minimatch path_key normalized view.capabilities.paths.excluded
      then deny
      else if not (is_read access)
          && matches_path minimatch path_key normalized view.capabilities.paths.protected
      then deny
      else decide_rule (rules_for view.capabilities.paths access) normalized view.default_decision
          (matches_path_pattern minimatch path_key)

  abbrev network_decision : LayerView → Option Text → PolicyDecision
  network_decision view none = access_decision view
  network_decision view (some host) = strictest (
      access_decision view
      ∷ decide_rule view.capabilities.network.hosts host (access_decision view)
          (match_any_case minimatch)
      ∷ [])

  -- `expansionDecision`
  unfoldable pub expansion_decision : LayerView → Expansion → PolicyDecision
  unfolding access_decision
  expansion_decision view (tool_expansion tool) =
      decide_rule view.capabilities.tools tool view.default_decision
        (λ value pattern. value == pattern)
  expansion_decision view (path_expansion access path) =
      path_decision view access (normalize_repository_path path)
  expansion_decision view (command_expansion id category risk) = strictest (
      decide_rule view.capabilities.commands.ids id view.default_decision (match_any_case minimatch)
      ∷ decide_rule view.capabilities.commands.categories category view.default_decision
          (match_any_case minimatch)
      ∷ get_or (view.capabilities.commands.risks risk) view.default_decision
      ∷ [])
  expansion_decision view (disclosure_expansion classification) =
      decide_rule view.capabilities.disclosure.classifications classification view.default_decision
        (match_any_case minimatch)
  expansion_decision view (network_expansion host) = network_decision view host
  expansion_decision view (change_expansion change) =
      get_or (configured_change view change) view.default_decision
  expansion_decision view (budget_expansion metric requested) =
      if over (view.capabilities.budgets metric) requested then deny else allow
