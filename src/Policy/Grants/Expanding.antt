-- ===== src/Policy/Grants/Expanding.antt =====
-- `expandGrant` of src/policy/engine.ts. The schema validation of the new grant is a parameter.
use mathlib.Core.Option.{get_or}
use cope_code.Common.{
  ℕ, ◌+◌, Bool, true, false, not, Option, none, some, List, [], ◌∷◌, ◌++◌, Text, text_is_eq,
  if◌then◌else◌, any, contains, ltb, max, Result, ok, err, type_error,
}
use cope_code.Policy.Types.{
  PolicyDecision, allow, ask, deny, PolicyLayer, organization, repository, session, access_is_eq,
  risk_is_eq, metric_is_eq, AutonomyMode, inspect, Dimension, ReasonCode, BudgetMetric, elapsed_ms,
  turns, operations, read_files, changed_files, changed_lines, disclosed_bytes, commands,
  command_output_bytes, protocol_repairs, Amount, nat, other, RuleSet, SessionGrant, PolicyCheck,
}
use cope_code.Policy.Rules.{LayerView, is_allow, is_ask, is_deny}
use cope_code.Policy.Layers.{is_read, metric_name}
use cope_code.Policy.Engine.{PolicyEngine, document_view, effective_budget_limit}
use cope_code.Policy.Grants.Applying.{apply_expansion}
use cope_code.Policy.Grants.{
  Expansion, tool_expansion, path_expansion, budget_expansion, expansion_dimension, expansion_key,
  is_invalid, expansion_decision,
}

-- `DEFAULT_POLICY_BUDGETS` of src/policy/defaults.ts.
unfoldable pub default_budget : BudgetMetric → ℕ
default_budget elapsed_ms = 3_600_000
default_budget turns = 40
default_budget operations = 160
default_budget read_files = 80
default_budget changed_files = 30
default_budget changed_lines = 2_000
default_budget disclosed_bytes = 2_000_000
default_budget commands = 30
default_budget command_output_bytes = 1_000_000
default_budget protocol_repairs = 4

abbrev pub denied : PolicyLayer → Dimension → ReasonCode → Text → PolicyCheck
denied layer dimension code key = record {
  layer = layer;
  dimension = dimension;
  decision = deny;
  reason_code = code;
  capability_key = some key;
  resource = none;
}

abbrev on_metric : BudgetMetric → PolicyCheck → PolicyCheck
on_metric metric check = record check { resource = some (metric_name metric) }

abbrev pub push_if : Bool → PolicyCheck → List PolicyCheck
push_if true check = check ∷ []
push_if false check = []

-- `blockingHigherLayer`: the lower of the two ceilings.
unfoldable pub blocking : Option ℕ → Option ℕ → Option (PolicyLayer × ℕ)
blocking none none = none
blocking (some o) none = some (organization, o)
blocking none (some r) = some (repository, r)
blocking (some o) (some r) = if ltb r o then some (repository, r) else some (organization, o)

-- `currentLimit`, and `minimumAcceptable`.
unfoldable pub current_limit : PolicyEngine → BudgetMetric → ℕ
current_limit e metric = get_or (effective_budget_limit e metric) (default_budget metric)

unfoldable pub minimum_acceptable : PolicyEngine → BudgetMetric → (BudgetMetric → ℕ) → ℕ
minimum_acceptable e metric usage = max (current_limit e metric) (usage metric) + 1

-- `amount < limit`; a number that is not natural is never equal to one.
abbrev below : Amount → ℕ → Bool
below (nat n) limit = ltb n limit
below (other above) limit = not (above limit)

unfoldable pub ceiling_blocks :
    PolicyEngine → BudgetMetric → (BudgetMetric → ℕ) → Option PolicyLayer
ceiling_blocks e metric usage =
    elim (blocking (e.organization.capabilities.budgets metric)
      (e.repository.capabilities.budgets metric)) [
        | none ↦ none
        | some (layer, ceiling) ↦
            if ltb ceiling (minimum_acceptable e metric usage) then some layer else none
      ]

unfoldable pub budget_reasons :
    PolicyEngine → Expansion → (BudgetMetric → ℕ) → Text → List PolicyCheck
unfolding ceiling_blocks
budget_reasons e (budget_expansion metric requested) usage key =
    elim (ceiling_blocks e metric usage) [
      | some layer ↦
          on_metric metric
            (denied layer Dimension.budget ReasonCode.budget_expansion_unavailable key)
          ∷ []
      | none ↦ push_if (below requested (minimum_acceptable e metric usage)) (
          on_metric metric
            (denied session Dimension.budget ReasonCode.capability_expansion_denied key))
    ]
budget_reasons e _ usage key = []

abbrev pub changes_in_inspect : AutonomyMode → Expansion → Bool
changes_in_inspect inspect (path_expansion access path) = not (is_read access)
changes_in_inspect _ _ = false

abbrev deny_of : Option RuleSet → List Text
deny_of none = []
deny_of (some rules) = rules.deny

unfoldable pub session_denies_tool : SessionGrant → Expansion → Bool
unfolding contains
session_denies_tool grant (tool_expansion tool) = contains tool (deny_of grant.capabilities.tools)
session_denies_tool grant _ = false

-- The round of the loop over the higher layers.
unfoldable pub layer_reasons : PolicyEngine → Expansion → Text → LayerView → List PolicyCheck
layer_reasons e expansion key view =
    let decision = expansion_decision e.minimatch e.path_key view expansion in
    push_if (not (is_allow decision)) (record {
      layer = view.layer;
      dimension = expansion_dimension expansion;
      decision = decision;
      reason_code =
          if is_deny decision
          then ReasonCode.capability_expansion_denied
          else ReasonCode.capability_expansion_requires_approval;
      capability_key = some key;
      resource = none;
    })

unfoldable pub expansion_reasons :
    PolicyEngine → Expansion → (BudgetMetric → ℕ) → Text → List PolicyCheck
expansion_reasons e expansion usage key =
    push_if (is_invalid expansion) (
      denied organization (expansion_dimension expansion) ReasonCode.capability_expansion_denied
        key)
    ++ (budget_reasons e expansion usage key
        ++ (push_if (changes_in_inspect e.session.mode expansion)
              (denied session Dimension.mode ReasonCode.mode_inspect_write_denied key)
            ++ (push_if (session_denies_tool e.session expansion)
                  (denied session Dimension.tool ReasonCode.capability_expansion_denied key)
                ++ (layer_reasons e expansion key (document_view organization e.organization)
                    ++ layer_reasons e expansion key (document_view repository e.repository)))))

-- `SessionExpansionResult`
pub record Expanded : Type 0 where
  pub decision : PolicyDecision
  pub grant : SessionGrant
  pub reasons : List PolicyCheck
  pub capability_key : Text

unfoldable pub expansion_outcome : List PolicyCheck → PolicyDecision
unfolding any
expansion_outcome reasons =
    if any (λ r. is_deny r.decision) reasons
    then deny
    else if any (λ r. is_ask r.decision) reasons
    then ask
    else allow

unfoldable pub expand_grant :
    (SessionGrant → Bool) → PolicyEngine → Expansion → (BudgetMetric → ℕ) → Result Expanded
expand_grant is_valid e expansion usage =
    let key = expansion_key e.path_key expansion in
    let reasons = expansion_reasons e expansion usage key in
    let decision = expansion_outcome reasons in
    let grown = apply_expansion e.session expansion key in
    if is_deny decision
    then ok
        (record { decision = decision; grant = e.session; reasons = reasons; capability_key = key })
    else if is_valid grown
    then ok (record { decision = decision; grant = grown; reasons = reasons; capability_key = key })
    else err type_error
