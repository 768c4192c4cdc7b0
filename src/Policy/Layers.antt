-- ===== src/Policy/Layers.antt =====
-- The evaluations of src/policy/engine.ts that go through the three layers: paths, commands,
-- disclosure, network, changes and budgets.
use mathlib.Core.Option.{get_or}
use cope_code.Common.{
  ℕ, Bool, true, false, not, ◌&&◌, Option, none, some, List, [], ◌∷◌, ◌++◌, Text, text, text_is_eq,
  ◌==◌, if◌then◌else◌, any, ltb, concat_map, to_lower,
}
use cope_code.Policy.Types.{
  PolicyDecision, ask, deny, PolicyLayer, organization, session, layer_is_eq, Dimension, ReasonCode,
  RuleSet, PolicyCheck, PathAccess, read, write, create, delete, BudgetMetric, elapsed_ms, turns,
  operations, read_files, changed_files, changed_lines, disclosed_bytes, commands,
  command_output_bytes, protocol_repairs, Amount, nat, other, PolicyPathAccess,
  PolicyCommandContext, PolicyDisclosureContext, PathPolicy,
}
use cope_code.Policy.Patterns.{normalize_repository_path, match_policy_pattern}
use cope_code.Policy.Rules.{LayerView, decide_rule, resolve_check, fixed}

-- `amount > limit`.
abbrev pub exceeds : Amount → ℕ → Bool
exceeds (nat n) limit = ltb limit n
exceeds (other above) limit = above limit

abbrev pub over : Option ℕ → Amount → Bool
over none amount = false
over (some limit) amount = exceeds amount limit

abbrev pub is_positive : Amount → Bool
is_positive amount = exceeds amount 0

abbrev pub access_name : PathAccess → Text
access_name read = text "read"
access_name write = text "write"
access_name create = text "create"
access_name delete = text "delete"

abbrev pub is_read : PathAccess → Bool
is_read read = true
is_read _ = false

abbrev pub metric_name : BudgetMetric → Text
metric_name elapsed_ms = text "elapsed_ms"
metric_name turns = text "turns"
metric_name operations = text "operations"
metric_name read_files = text "read_files"
metric_name changed_files = text "changed_files"
metric_name changed_lines = text "changed_lines"
metric_name disclosed_bytes = text "disclosed_bytes"
metric_name commands = text "commands"
metric_name command_output_bytes = text "command_output_bytes"
metric_name protocol_repairs = text "protocol_repairs"

abbrev pub budget_metrics : List BudgetMetric
budget_metrics =
    elapsed_ms ∷ turns ∷ operations ∷ read_files ∷ changed_files ∷ changed_lines ∷ disclosed_bytes
    ∷ commands ∷ command_output_bytes ∷ protocol_repairs ∷ []

-- `policy?.[access] ?? (create or delete ? policy?.write : undefined)`
unfoldable pub rules_for : PathPolicy → PathAccess → Option RuleSet
rules_for policy read = policy.rules read
rules_for policy write = policy.rules write
rules_for policy create = elim (policy.rules create) [ some r ↦ some r | none ↦ policy.rules write ]
rules_for policy delete = elim (policy.rules delete) [ some r ↦ some r | none ↦ policy.rules write ]

-- What a layer decides where a limit is passed and it says nothing.
abbrev pub on_limit : PolicyLayer → Option PolicyDecision → PolicyDecision
on_limit layer configured = get_or configured (if layer == session then ask else deny)

module _ (minimatch : Bool → Text → Text → Bool) (path_key : Text → Text) where
  -- `matchesRepositoryPathPattern`, and `matchesRepositoryPath`.
  unfoldable pub matches_path_pattern : Text → Text → Bool
  matches_path_pattern value pattern =
      match_policy_pattern minimatch true (path_key value) (path_key pattern)

  unfoldable pub matches_path : Text → List Text → Bool
  unfolding any
  matches_path value patterns = any (matches_path_pattern value) patterns

abbrev pub match_any_case : (Bool → Text → Text → Bool) → Text → Text → Bool
match_any_case minimatch = match_policy_pattern minimatch false

module _ (minimatch : Bool → Text → Text → Bool) (path_key : Text → Text)
    (approvals : List Text) where
  unfoldable pub path_check : Text → PathAccess → LayerView → PolicyCheck
  path_check normalized access view =
      if not (is_read access)
        && matches_path minimatch path_key normalized view.capabilities.paths.protected
      then fixed view.layer Dimension.path ReasonCode.path_protected (some normalized)
      else if matches_path minimatch path_key normalized view.capabilities.paths.excluded
      then fixed view.layer Dimension.path ReasonCode.path_excluded (some normalized)
      else resolve_check approvals (record {
        layer = view.layer;
        dimension = Dimension.path;
        decision =
            decide_rule (rules_for view.capabilities.paths access) normalized view.default_decision
              (matches_path_pattern minimatch path_key);
        ask_code = ReasonCode.path_requires_approval;
        deny_code = ReasonCode.path_not_granted;
        capability_key = text "path:" ++ (access_name access ++ (text ":" ++ path_key normalized));
        resource = some normalized;
      })

  unfoldable pub evaluate_path : List LayerView → PolicyPathAccess → List PolicyCheck
  unfolding concat_map
  evaluate_path layers p = elim (normalize_repository_path p.path) [
    | none ↦ fixed organization Dimension.path ReasonCode.invalid_repository_path (some p.path) ∷ []
    | some normalized ↦ concat_map (λ view. path_check normalized p.access view ∷ []) layers
  ]

  -- A check of the dimension `command`.
  abbrev command_check :
      LayerView → PolicyDecision → ReasonCode → ReasonCode → Text → Text → PolicyCheck
  command_check view decision ask_code deny_code key resource = resolve_check approvals (record {
    layer = view.layer;
    dimension = Dimension.command;
    decision = decision;
    ask_code = ask_code;
    deny_code = deny_code;
    capability_key = key;
    resource = some resource;
  })

  -- `addCommandRuleCheck`, for an identifier and for a category.
  unfoldable pub command_id_check : LayerView → Text → PolicyCheck
  command_id_check view id =
      command_check view
        (decide_rule view.capabilities.commands.ids id view.default_decision
          (match_any_case minimatch))
        ReasonCode.command_requires_approval ReasonCode.command_not_granted (text "command:" ++ id)
        id

  unfoldable pub command_category_check : LayerView → Text → PolicyCheck
  command_category_check view category =
      command_check view
        (decide_rule view.capabilities.commands.categories category view.default_decision
          (match_any_case minimatch))
        ReasonCode.command_category_requires_approval ReasonCode.command_category_not_granted
        (text "command-category:" ++ to_lower category) category

  unfoldable pub command_checks : PolicyCommandContext → LayerView → List PolicyCheck
  command_checks command view =
      command_id_check view command.id
      ∷ command_category_check view command.category
      ∷ command_check view
          (get_or (view.capabilities.commands.risks command.risk) view.default_decision)
          ReasonCode.command_risk_requires_approval ReasonCode.command_risk_not_granted
          (text "command:" ++ command.id) command.id
      ∷ ((if command.side_effects
            then command_check view
                (get_or view.capabilities.commands.side_effects view.default_decision)
                ReasonCode.command_side_effect_requires_approval
                ReasonCode.command_side_effect_not_granted (text "command:" ++ command.id)
                command.id
              ∷ []
            else [])
          ++ (if over view.capabilities.commands.max_timeout_ms command.timeout_ms
              then fixed view.layer Dimension.command ReasonCode.command_timeout_exceeded
                  (some command.id)
                ∷ []
              else []))

  unfoldable pub evaluate_command : List LayerView → PolicyCommandContext → List PolicyCheck
  unfolding concat_map
  evaluate_command layers command = concat_map (command_checks command) layers

  -- A per-operation limit on disclosure that is passed, if it is.
  abbrev pub disclosure_limit : LayerView → Option ℕ → Amount → List PolicyCheck
  disclosure_limit view limit requested =
      if over limit requested
      then resolve_check approvals (record {
        layer = view.layer;
        dimension = Dimension.disclosure;
        decision = on_limit view.layer view.capabilities.budget_exceeded;
        ask_code = ReasonCode.disclosure_operation_limit_exceeded;
        deny_code = ReasonCode.disclosure_operation_limit_exceeded;
        capability_key = text "budget:disclosed_bytes";
        resource = none;
      })
        ∷ []
      else []

  unfoldable pub disclosure_checks : PolicyDisclosureContext → LayerView → List PolicyCheck
  disclosure_checks d view =
      resolve_check approvals (record {
        layer = view.layer;
        dimension = Dimension.disclosure;
        decision =
            decide_rule view.capabilities.disclosure.classifications d.classification
              view.default_decision (match_any_case minimatch);
        ask_code = ReasonCode.disclosure_classification_requires_approval;
        deny_code = ReasonCode.disclosure_classification_denied;
        capability_key = text "disclosure:" ++ to_lower d.classification;
        resource = some d.classification;
      })
      ∷ (disclosure_limit view view.capabilities.disclosure.max_bytes_per_operation d.byte_count
          ++ disclosure_limit view view.capabilities.disclosure.max_files_per_operation
              d.file_count)

  unfoldable pub evaluate_disclosure : List LayerView → PolicyDisclosureContext → List PolicyCheck
  unfolding concat_map
  evaluate_disclosure layers d =
      (if d.contains_secret
        then fixed organization Dimension.disclosure ReasonCode.secret_disclosure_denied
            (some d.classification)
          ∷ []
        else [])
      ++ concat_map (disclosure_checks d) layers
