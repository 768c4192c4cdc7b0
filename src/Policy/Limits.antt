-- ===== src/Policy/Limits.antt =====
-- The evaluations of src/policy/engine.ts of network access, changes and budgets, layer by layer.
use mathlib.Core.Option.{get_or}
use cope_code.Common.{
  Bool, true, false, ◌||◌, Option, none, some, List, [], ◌∷◌, ◌++◌, Text, text, if◌then◌else◌,
  concat_map, to_lower,
}
use cope_code.Policy.Types.{
  PolicyDecision, Dimension, ReasonCode, PolicyCheck, BudgetMetric, Amount, PolicyNetworkContext,
  PolicyChangeContext,
}
use cope_code.Policy.Patterns.{match_policy_pattern}
use cope_code.Policy.Rules.{LayerView, decide_rule, resolve_check}
use cope_code.Policy.Layers.{over, is_positive, on_limit, metric_name, budget_metrics}

-- The four kinds of change that a layer may decide on, with their codes and keys.
pub data ChangeKind : Type 0 where
  create_file delete_file dependency_manifest local_commit : ChangeKind

abbrev pub change_name : ChangeKind → Text
change_name create_file = text "create_file"
change_name delete_file = text "delete_file"
change_name dependency_manifest = text "dependency_manifest"
change_name local_commit = text "local_commit"

abbrev change_ask : ChangeKind → ReasonCode
change_ask create_file = ReasonCode.create_file_requires_approval
change_ask delete_file = ReasonCode.delete_file_requires_approval
change_ask dependency_manifest = ReasonCode.dependency_change_requires_approval
change_ask local_commit = ReasonCode.local_commit_requires_approval

abbrev change_deny : ChangeKind → ReasonCode
change_deny create_file = ReasonCode.create_file_denied
change_deny delete_file = ReasonCode.delete_file_denied
change_deny dependency_manifest = ReasonCode.dependency_change_denied
change_deny local_commit = ReasonCode.local_commit_denied

abbrev pub configured_change : LayerView → ChangeKind → Option PolicyDecision
configured_change view create_file = view.capabilities.changes.create_files
configured_change view delete_file = view.capabilities.changes.delete_files
configured_change view dependency_manifest = view.capabilities.changes.dependency_manifests
configured_change view local_commit = view.capabilities.changes.local_commits

unfoldable pub access_decision : LayerView → PolicyDecision
access_decision view = get_or view.capabilities.network.access view.default_decision

abbrev pub where_it : Bool → PolicyCheck → List PolicyCheck
where_it true check = check ∷ []
where_it false check = []

module _ (minimatch : Bool → Text → Text → Bool) (approvals : List Text) where
  unfoldable pub host_check : LayerView → Text → PolicyCheck
  unfolding access_decision
  host_check view host = resolve_check approvals (record {
    layer = view.layer;
    dimension = Dimension.network;
    decision =
        decide_rule view.capabilities.network.hosts host (access_decision view)
          (match_policy_pattern minimatch false);
    ask_code = ReasonCode.network_host_requires_approval;
    deny_code = ReasonCode.network_host_denied;
    capability_key = text "network:" ++ to_lower host;
    resource = some host;
  })

  unfoldable pub network_checks : PolicyNetworkContext → LayerView → List PolicyCheck
  unfolding concat_map access_decision
  network_checks network view =
      resolve_check approvals (record {
        layer = view.layer;
        dimension = Dimension.network;
        decision = access_decision view;
        ask_code = ReasonCode.network_requires_approval;
        deny_code = ReasonCode.network_denied;
        capability_key = text "network:*";
        resource = none;
      })
      ∷ concat_map (λ host. host_check view host ∷ []) network.hosts

  unfoldable pub evaluate_network : List LayerView → PolicyNetworkContext → List PolicyCheck
  unfolding concat_map
  evaluate_network layers network =
      if network.required then concat_map (network_checks network) layers else []

  -- `addChangeCheck`
  unfoldable pub change_check : LayerView → ChangeKind → PolicyCheck
  change_check view kind = resolve_check approvals (record {
    layer = view.layer;
    dimension = Dimension.change;
    decision = get_or (configured_change view kind) view.default_decision;
    ask_code = change_ask kind;
    deny_code = change_deny kind;
    capability_key = text "change:" ++ change_name kind;
    resource = some (change_name kind);
  })

  unfoldable pub change_limit_check : LayerView → PolicyCheck
  change_limit_check view = resolve_check approvals (record {
    layer = view.layer;
    dimension = Dimension.change;
    decision = on_limit view.layer view.capabilities.changes.on_limit_exceeded;
    ask_code = ReasonCode.change_operation_limit_exceeded;
    deny_code = ReasonCode.change_operation_limit_exceeded;
    capability_key = text "budget:changed_lines";
    resource = none;
  })

  unfoldable pub change_checks : PolicyChangeContext → LayerView → List PolicyCheck
  change_checks change view =
      where_it (is_positive change.creates) (change_check view create_file)
      ++ (where_it (is_positive change.deletes) (change_check view delete_file)
          ++ (where_it change.dependency_manifest (change_check view dependency_manifest)
              ++ (where_it change.local_commit (change_check view local_commit)
                  ++ where_it
                      (over view.capabilities.changes.max_files_per_operation change.files_changed
                        || over view.capabilities.changes.max_changed_lines_per_operation
                            change.changed_lines)
                      (change_limit_check view))))

  unfoldable pub evaluate_change : List LayerView → PolicyChangeContext → List PolicyCheck
  unfolding concat_map
  evaluate_change layers change = concat_map (change_checks change) layers

  unfoldable pub budget_check :
      (BudgetMetric → Amount) → LayerView → BudgetMetric → List PolicyCheck
  budget_check projected view metric =
      where_it (over (view.capabilities.budgets metric) (projected metric)) (
        resolve_check approvals (record {
          layer = view.layer;
          dimension = Dimension.budget;
          decision = on_limit view.layer view.capabilities.budget_exceeded;
          ask_code = ReasonCode.budget_exceeded;
          deny_code = ReasonCode.budget_exceeded;
          capability_key = text "budget:" ++ metric_name metric;
          resource = some (metric_name metric);
        }))

  unfoldable pub evaluate_budgets : List LayerView → (BudgetMetric → Amount) → List PolicyCheck
  unfolding concat_map
  evaluate_budgets layers projected =
      concat_map (λ view. concat_map (budget_check projected view) budget_metrics) layers
