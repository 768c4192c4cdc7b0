-- ===== src/Policy/Tests.antt =====
-- An engine over three small layers, tried on examples.
use cope_code.Policy.Tools.{tool_definition, tool_requires_context}
use cope_code.Common.{
  ap, false, inl, inr, split, ◌≡◌, refl, true, Option, none, some, List, [], ◌∷◌, Text, text, All,
  split, any, concat_map, contains, distinct, select, is_space, starts_with, to_lower, trim,
  trim_start, text_eq,
}
use mathlib.Core.Bool.{decide}
use cope_code.Policy.Types.{
  allow, deny, organization, AutonomyMode, inspect, edit, PathAccess, read, BudgetMetric,
  PolicyCapabilities, PolicyDocument, PolicyOperation, PolicyDisclosureContext,
  PolicyCommandContext, CommandRisk, nat, PolicyCheck, Dimension, ReasonCode,
}
use cope_code.Policy.Patterns.{
  normalize_repository_path, drop_slashes, is_rooted, join, match_policy_pattern, strip_here,
  with_slashes, before_globstar,
}
use cope_code.Policy.Patterns.Safety.{IsNormal, normalize-IsNormal}
use cope_code.Policy.Rules.{resolve_check, decide_rule, is_approved, overall, fixed, is_deny}
use cope_code.Policy.Tools.{
  is_tool_name, tool_definition, tool_requires_context, lookup_tool, tool_registry,
}
use cope_code.Policy.Facts.{evaluate_operation_facts, bad_inventory, bad_network, inventory_key}
use cope_code.Policy.Layers.{
  on_limit, evaluate_path, matches_path, matches_path_pattern, path_check, rules_for,
}
use cope_code.Policy.Limits.{evaluate_budgets, budget_check}
use cope_code.Policy.Engine.Disclosure.{IsStrict, over_disclosure-deny}
use cope_code.Policy.Engine.{
  effective_disclosure_limits, document_view, checks_of, evaluate_mode, evaluate_required_context,
  tool_check, PolicyEngine, evaluate, mutates,
}
use cope_code.Policy.Engine.Denials.{approvals_keep_denials, with_approvals}
use cope_code.Policy.Engine.Budgets.{over_budget-deny}
use cope_code.Policy.Engine.Safety.{IsReachable, allow-IsReachable, inspect-deny}

abbrev pub capabilities : PolicyCapabilities
capabilities = record {
  tools = none;
  paths = record {
    rules = λ access. none;
    excluded = text "secrets" ∷ [];
    protected = text "package.json" ∷ [];
  };
  commands = record {
    ids = none;
    categories = none;
    risks = λ risk. none;
    side_effects = none;
    max_timeout_ms = some 1000;
  };
  disclosure = record {
    classifications = none;
    max_bytes_per_operation = none;
    max_files_per_operation = none;
  };
  network = record { access = none; hosts = none };
  changes = record {
    create_files = none;
    delete_files = none;
    dependency_manifests = none;
    local_commits = none;
    max_files_per_operation = none;
    max_changed_lines_per_operation = none;
    on_limit_exceeded = none;
  };
  budgets = λ metric. some 50;
  budget_exceeded = none;
}

abbrev pub document : PolicyDocument
document = record { default_decision = allow; capabilities = capabilities }

abbrev pub engine : AutonomyMode → PolicyEngine
engine mode = record {
  organization = document;
  repository = document;
  session = record {
    mode = mode;
    default_decision = allow;
    capabilities = capabilities;
    approved_capabilities = [];
  };
  path_key = λ p. p;
  minimatch = λ cased value pattern. text_eq value pattern;
}

abbrev operation : Text → PathAccess → Option PolicyDisclosureContext → PolicyOperation
operation tool access disclosure = record {
  tool = tool;
  paths = record { path = text "./docs\\a.md"; access = access } ∷ [];
  command = none;
  disclosure = disclosure;
  network = none;
  change = none;
  planned_disclosure_bytes = none;
  projected_usage = λ metric. nat 1;
}

abbrev lengthy : PolicyDisclosureContext
lengthy = record {
  classification = text "public";
  byte_count = nat 11;
  file_count = nat 1;
  contains_secret = false;
}

-- Layers that deny on excess, and disclose 10 bytes at most.
abbrev strict_capabilities : PolicyCapabilities
strict_capabilities = record capabilities {
  disclosure = record capabilities.disclosure { max_bytes_per_operation = some 10 };
  budget_exceeded = some deny;
}

abbrev strict_document : PolicyDocument
strict_document = record { default_decision = allow; capabilities = strict_capabilities }

abbrev strict_engine : PolicyEngine
strict_engine = record (engine edit) {
  organization = strict_document;
  repository = strict_document;
  session = record (engine edit).session { capabilities = strict_capabilities };
}

strict_engine-IsStrict : IsStrict strict_engine
strict_engine-IsStrict view (inl is) = ap (λ v. on_limit v.layer v.capabilities.budget_exceeded) is
strict_engine-IsStrict view (inr (inl is)) =
    ap (λ v. on_limit v.layer v.capabilities.budget_exceeded) is
strict_engine-IsStrict view (inr (inr is)) =
    ap (λ v. on_limit v.layer v.capabilities.budget_exceeded) is

normalizes : normalize_repository_path (text "./docs\\a.md") ≡ some (text "docs/a.md")
unfolding normalize_repository_path split text_eq join
normalizes = refl

normalize-IsNormal_example : IsNormal (text "docs/a.md")
normalize-IsNormal_example = normalize-IsNormal (text "./docs\\a.md") (text "docs/a.md") normalizes

abbrev checks : List PolicyCheck
checks = fixed organization Dimension.path ReasonCode.path_excluded none ∷ []

approvals_keep_denials_example :
    is_deny
      (evaluate (with_approvals (engine edit) []) (operation (text "read_file") read none)).decision
    ≡ is_deny
        (evaluate
          (with_approvals (engine edit) (text "tool:read_file" ∷ []))
          (operation (text "read_file") read none)).decision
approvals_keep_denials_example =
    approvals_keep_denials (engine edit) [] (text "tool:read_file" ∷ [])
      (operation (text "read_file") read none)

read_allowed : (evaluate (engine edit) (operation (text "read_file") read none)).decision ≡ allow
unfolding evaluate overall checks_of is_tool_name tool_definition text_eq evaluate_mode
    evaluate_required_context tool_requires_context evaluate_operation_facts evaluate_path
    normalize_repository_path split evaluate_budgets budget_check tool_check resolve_check
    decide_rule any concat_map contains distinct select is_space starts_with to_lower trim
    trim_start mutates bad_inventory bad_network inventory_key matches_path matches_path_pattern
    path_check rules_for drop_slashes is_rooted join match_policy_pattern strip_here with_slashes
    is_approved lookup_tool tool_registry decide before_globstar
read_allowed = refl

allow-IsReachable_example :
    All (IsReachable (engine edit)) (operation (text "read_file") read none).paths
allow-IsReachable_example =
    allow-IsReachable (engine edit) (operation (text "read_file") read none) read_allowed

abbrev side_effect : PolicyCommandContext
side_effect = record {
  id = text "deploy";
  risk = CommandRisk.low;
  category = text "build";
  side_effects = true;
  timeout_ms = nat 1;
}

abbrev deployment : PolicyOperation
deployment = record (operation (text "run_command") read none) { command = some side_effect }

inspect-deny_example : (evaluate (engine inspect) deployment).decision ≡ deny
inspect-deny_example =
    inspect-deny (engine inspect) deployment refl
      (inr (inr (inr (inr (refl, (side_effect, refl, refl))))))

abbrev costly : PolicyOperation
costly = record (operation (text "read_file") read none) { projected_usage = λ metric. nat 60 }

over_budget-deny_example : (evaluate (engine edit) costly).decision ≡ deny
unfolding decide
over_budget-deny_example =
    over_budget-deny (engine edit) costly BudgetMetric.read_files
      (document_view organization document) (inl refl) refl refl

over_disclosure-deny_example :
    (evaluate strict_engine (operation (text "read_file") read (some lengthy))).decision ≡ deny
unfolding effective_disclosure_limits
over_disclosure-deny_example =
    over_disclosure-deny strict_engine (operation (text "read_file") read (some lengthy)) lengthy
      strict_engine-IsStrict refl (inl refl)
