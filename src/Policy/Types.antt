-- ===== src/Policy/Types.antt =====
-- src/policy/types.ts. An absent sub-policy is one with no fields, and an absent list is empty: the
-- engine reads both alike (`policy?.ids`, `rules?.deny?.some(…) === true`).
use cope_code.Common.{ℕ, Bool, Option, List, Text, Eq, eq_of_discrete}

pub data PolicyDecision : Type 0 where
  allow ask deny : PolicyDecision

pub data PolicyLayer : Type 0 where
  organization repository session : PolicyLayer

abbrev pub PolicyLayer-discrete : Discrete PolicyLayer
PolicyLayer-discrete = hlevel

instance abbrev pub layer_is_eq : Eq PolicyLayer
layer_is_eq = eq_of_discrete PolicyLayer-discrete

pub data AutonomyMode : Type 0 where
  inspect edit auto : AutonomyMode

pub data PathAccess : Type 0 where
  read write create delete : PathAccess

abbrev pub PathAccess-discrete : Discrete PathAccess
PathAccess-discrete = hlevel

instance abbrev pub access_is_eq : Eq PathAccess
access_is_eq = eq_of_discrete PathAccess-discrete

pub data CommandRisk : Type 0 where
  low medium high : CommandRisk

abbrev pub CommandRisk-discrete : Discrete CommandRisk
CommandRisk-discrete = hlevel

instance abbrev pub risk_is_eq : Eq CommandRisk
risk_is_eq = eq_of_discrete CommandRisk-discrete

pub data Dimension : Type 0 where
  mode tool path command disclosure network change budget : Dimension

-- `BUDGET_METRICS` of src/protocol/types.ts.
pub data BudgetMetric : Type 0 where
  elapsed_ms turns operations read_files changed_files changed_lines : BudgetMetric
  disclosed_bytes commands command_output_bytes protocol_repairs : BudgetMetric

abbrev pub BudgetMetric-discrete : Discrete BudgetMetric
BudgetMetric-discrete = hlevel

instance abbrev pub metric_is_eq : Eq BudgetMetric
metric_is_eq = eq_of_discrete BudgetMetric-discrete

-- The codes that the modelled checks carry.
pub data ReasonCode : Type 0 where
  allowed unknown_tool tool_not_granted tool_requires_approval : ReasonCode
  mode_inspect_write_denied mode_inspect_side_effect_denied : ReasonCode
  mode_edit_high_risk_requires_approval operation_context_missing : ReasonCode
  invalid_operation_context invalid_repository_path path_excluded path_protected : ReasonCode
  path_not_granted path_requires_approval command_not_granted command_requires_approval : ReasonCode
  command_category_not_granted command_category_requires_approval : ReasonCode
  command_risk_not_granted command_risk_requires_approval : ReasonCode
  command_side_effect_not_granted command_side_effect_requires_approval : ReasonCode
  command_timeout_exceeded disclosure_classification_denied : ReasonCode
  disclosure_classification_requires_approval secret_disclosure_denied : ReasonCode
  disclosure_operation_limit_exceeded network_denied network_requires_approval : ReasonCode
  network_host_denied network_host_requires_approval create_file_denied : ReasonCode
  create_file_requires_approval delete_file_denied delete_file_requires_approval : ReasonCode
  dependency_change_denied dependency_change_requires_approval local_commit_denied : ReasonCode
  local_commit_requires_approval change_operation_limit_exceeded budget_exceeded : ReasonCode
  capability_approved_for_session capability_expansion_denied : ReasonCode
  budget_expansion_unavailable capability_expansion_requires_approval : ReasonCode

pub record RuleSet : Type 0 where
  pub allow : List Text
  pub ask : List Text
  pub deny : List Text
  pub unmatched : Option PolicyDecision

pub record PathPolicy : Type 0 where
  pub rules : PathAccess → Option RuleSet
  pub excluded : List Text
  pub protected : List Text

pub record CommandPolicy : Type 0 where
  pub ids : Option RuleSet
  pub categories : Option RuleSet
  pub risks : CommandRisk → Option PolicyDecision
  pub side_effects : Option PolicyDecision
  pub max_timeout_ms : Option ℕ

pub record DisclosurePolicy : Type 0 where
  pub classifications : Option RuleSet
  pub max_bytes_per_operation : Option ℕ
  pub max_files_per_operation : Option ℕ

pub record NetworkPolicy : Type 0 where
  pub access : Option PolicyDecision
  pub hosts : Option RuleSet

pub record ChangePolicy : Type 0 where
  pub create_files : Option PolicyDecision
  pub delete_files : Option PolicyDecision
  pub dependency_manifests : Option PolicyDecision
  pub local_commits : Option PolicyDecision
  pub max_files_per_operation : Option ℕ
  pub max_changed_lines_per_operation : Option ℕ
  pub on_limit_exceeded : Option PolicyDecision

pub record PolicyCapabilities : Type 0 where
  pub tools : Option RuleSet
  pub paths : PathPolicy
  pub commands : CommandPolicy
  pub disclosure : DisclosurePolicy
  pub network : NetworkPolicy
  pub changes : ChangePolicy
  pub budgets : BudgetMetric → Option ℕ
  pub budget_exceeded : Option PolicyDecision

-- The fields of a `PolicyDocument` that the engine reads.
pub record PolicyDocument : Type 0 where
  pub default_decision : PolicyDecision
  pub capabilities : PolicyCapabilities

pub record SessionGrant : Type 0 where
  pub mode : AutonomyMode
  pub default_decision : PolicyDecision
  pub capabilities : PolicyCapabilities
  -- the keys of `approved_capabilities`, oldest first
  pub approved_capabilities : List Text

-- A number of an operation: a natural one, or a negative, fractional, infinite or undefined one by
-- the limits that it is not at most.
pub data Amount : Type 0 where
  nat : ℕ → Amount
  other : (ℕ → Bool) → Amount

pub record PolicyPathAccess : Type 0 where
  pub path : Text
  pub access : PathAccess

pub record PolicyCommandContext : Type 0 where
  pub id : Text
  pub category : Text
  pub risk : CommandRisk
  pub side_effects : Bool
  pub timeout_ms : Amount

pub record PolicyDisclosureContext : Type 0 where
  pub classification : Text
  pub byte_count : Amount
  pub file_count : Amount
  pub contains_secret : Bool

pub record PolicyNetworkContext : Type 0 where
  pub required : Bool
  pub hosts : List Text

pub record PolicyChangeContext : Type 0 where
  pub files_changed : Amount
  pub changed_lines : Amount
  pub creates : Amount
  pub deletes : Amount
  pub dependency_manifest : Bool
  pub local_commit : Bool

pub record PolicyOperation : Type 0 where
  pub tool : Text
  pub paths : List PolicyPathAccess
  pub command : Option PolicyCommandContext
  pub disclosure : Option PolicyDisclosureContext
  pub network : Option PolicyNetworkContext
  pub change : Option PolicyChangeContext
  pub planned_disclosure_bytes : Option Amount
  pub projected_usage : BudgetMetric → Amount

-- A check without its message and details, which are text for the user.
pub record PolicyCheck : Type 0 where
  pub layer : PolicyLayer
  pub dimension : Dimension
  pub decision : PolicyDecision
  pub reason_code : ReasonCode
  pub capability_key : Option Text
  pub resource : Option Text
