-- ===== src/Orchestrator/Completion/Types.antt =====
-- What verifyCompletion of src/orchestrator/completion.ts reads: the claim, the state of the repository,
-- the requirements, and the fields of the session (src/session/types.ts). A field that may be undefined
-- is an option; where it may also be null, null is the inner `none`.
use cope_code.Common.{ℕ, Bool, Option, List, Text, Eq, eq_of_discrete, text_is_eq, option_is_eq}

pub data Authority : Type 0 where
  frozen observed : Authority

pub data ObservationOutcome : Type 0 where
  none_seen observed protected_or_hidden_changed unknown : ObservationOutcome

pub data ProcessOutcome : Type 0 where
  completed completed_nonzero spawn_failed timed_out cancelled persistence_failed : ProcessOutcome
  indeterminate : ProcessOutcome

pub record Control : Type 0 where
  pub branch : Option Text
  pub head : Option Text
  pub excluded_state_fingerprint : Text

-- The fields that only a record of contract "terminal-mutation/2" has. The control is `none` where it
-- is no object of its type.
pub record FullFacts : Type 0 where
  pub process_outcome : Option ProcessOutcome
  pub unavailable_baseline_count : ℕ
  pub omitted_path_endpoint_total : ℕ
  pub path_facts_truncated : Bool
  pub post_observation_control : Option Control

pub record TerminalMutation : Type 0 where
  pub operation_id : Text
  pub changed_paths : List Text
  pub pre_existing_touched_paths : List Text
  pub observation_outcome : ObservationOutcome
  pub repository_fingerprint : Option Text
  pub full : Option FullFacts

pub record PatchMutation : Type 0 where
  pub operation_id : Text
  pub changed_paths : List Text
  pub repository_fingerprint : Text

pub data MutationRecord : Type 0 where
  patch : PatchMutation → MutationRecord
  terminal : TerminalMutation → MutationRecord

pub data ValidationOutcome : Type 0 where
  success failure timeout cancelled policy_denied indeterminate : ValidationOutcome

pub record ValidationRecord : Type 0 where
  pub command_id : Text
  pub outcome : ValidationOutcome
  pub mutation_sequence : ℕ
  pub repository_fingerprint : Option Text

pub data SubmissionState : Type 0 where
  prepared submitted indeterminate answered : SubmissionState

pub record SessionState : Type 0 where
  pub completion_authority : Option Authority
  pub mutations : List MutationRecord
  pub validations : List ValidationRecord
  pub mutation_sequence : ℕ
  pub repository_fingerprint_at_start : Text
  pub repository_excluded_state_at_start : Text
  pub repository_branch_at_start : Option (Option Text)
  pub repository_head_at_start : Option (Option Text)
  pub pre_existing_changes : List Text
  pub pre_existing_change_states : Text → Option Text
  pub pending_operations : List Text
  pub pending_terminal_effect_operation_ids : List Text
  pub completed_operation_ids : List Text
  pub submission : Option SubmissionState
  pub acceptance_criteria : List Text
  pub last_checkpoint_id : Option Text

pub data ClaimKind : Type 0 where
  work answer : ClaimKind

pub data CriterionStatus : Type 0 where
  satisfied not_satisfied unknown : CriterionStatus

pub data ReportedStatus : Type 0 where
  passed failed not_run : ReportedStatus

abbrev ReportedStatus-discrete : Discrete ReportedStatus
ReportedStatus-discrete = hlevel

instance abbrev pub reported_is_eq : Eq ReportedStatus
reported_is_eq = eq_of_discrete ReportedStatus-discrete

pub record Basis : Type 0 where
  pub observed_files : List Text
  pub tool_result_refs : List Text
  pub user_provided_context : Bool

pub record ClaimedCriterion : Type 0 where
  pub criterion : Text
  pub status : CriterionStatus

pub record ClaimedValidation : Type 0 where
  pub command_id : Text
  pub status : ReportedStatus

pub record CompletionClaim : Type 0 where
  pub kind : Option ClaimKind
  pub summary : Text
  pub basis : Option Basis
  pub acceptance_criteria : List ClaimedCriterion
  pub validation : List ClaimedValidation

pub record RepositoryState : Type 0 where
  pub path_key : Text → Text
  pub known : Bool
  pub fingerprint : Text
  pub excluded_state_fingerprint : Text
  pub has_conflicts : Bool
  pub branch : Option (Option Text)
  pub head : Option (Option Text)
  pub path_state_fingerprints : Text → Option Text
  pub changed_paths : List Text
  pub out_of_scope_paths : List Text
  pub git_status_summary : Text

pub record Requirements : Type 0 where
  pub required_command_ids : List Text
  pub require_validation_after_last_mutation : Bool
  pub require_clean_pending_operations : Bool

-- A reason of refusal for each `reasons.push`, with what its message names.
pub data Reason : Type 0 where
  repository_unknown conflicts non_clean_terminal terminal_without_fingerprint : Reason
  observation_without_control excluded_state_changed branch_changed head_changed : Reason
  new_out_of_scope pre_existing_out_of_scope : List Text → Reason
  unresolved_operations unattributed_effects indeterminate_submission : Reason
  answer_after_mutation answer_without_basis answer_without_result : Reason
  unknown_references : List Text → Reason
  repository_changed : Reason
  validation_repeated validation_omitted validation_misreported validation_not_run : Text → Reason
  required_not_run required_failed required_outdated required_elsewhere : Text → Reason
  required_not_reported criterion_repeated criterion_unsatisfied : Text → Reason
  empty_summary : Reason
