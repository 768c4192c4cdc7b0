-- ===== src/Orchestrator/Completion/Tests.antt =====
-- The completion gate, tried on a task with one patch and one validation, and on an answer.
use cope_code.Common.{
  option_beq, any, select, find, last, concat_map, is_space, all, ◌≡◌, refl, true, false, Option,
  none, some, List, [], ◌∷◌, map, Text, text, text_eq, text_is_eq, All, contains, is_blank,
}
use cope_code.Orchestrator.Completion.Types.{
  observed, MutationRecord, patch, ValidationRecord, ValidationOutcome, success, failure,
  ReportedStatus, passed, ClaimKind, answer, satisfied, CompletionClaim, SessionState,
  RepositoryState, Requirements, required_failed, validation_misreported,
}
use mathlib.Core.Bool.{decide}
use cope_code.Session.Journal.{is_hash}
use cope_code.Orchestrator.Completion.Repository.{
  terminal_reasons, terminal_mutations, latest_observed_terminal, control_reasons, observed_control,
  scope_reasons, pending_reasons, fingerprint_reasons, expected_repository_fingerprint,
  is_authoritative,
}
use cope_code.Orchestrator.Completion.Claims.{
  answer_reasons, answer_from, validation_reasons, required_reasons, required_from,
  criteria_reasons, newest_validation_by_command, newest_from, claimed_validation, claimed_criteria,
  kept_claims, repeated_claims, entry, has_entry, with_entry,
}
use cope_code.Orchestrator.Completion.Gate.{reasons_of, verify_completion}
use cope_code.Orchestrator.Completion.Entries.{claims_on, newest_of}
use cope_code.Orchestrator.Completion.Honesty.{truthful, accepted-truthful}
use cope_code.Orchestrator.Completion.Validation.{
  IsValidated, accepted-IsValidated, accepted-satisfied,
}
use cope_code.Orchestrator.Completion.Acceptance.{IsUndisturbed, accepted-IsUndisturbed}

abbrev hash : Text
hash = text "aaaaaaaaaaaaaaaaaaaaaaaaaaaaaaaaaaaaaaaaaaaaaaaaaaaaaaaaaaaaaaaa"

abbrev ran : ValidationOutcome → ValidationRecord
ran outcome = record {
  command_id = text "test";
  outcome = outcome;
  mutation_sequence = 1;
  repository_fingerprint = some hash;
}

abbrev state_after : List MutationRecord → List ValidationRecord → SessionState
state_after mutations validations = record {
  completion_authority = some observed;
  mutations = mutations;
  validations = validations;
  mutation_sequence = 1;
  repository_fingerprint_at_start = hash;
  repository_excluded_state_at_start = text "x";
  repository_branch_at_start = some (some (text "main"));
  repository_head_at_start = none;
  pre_existing_changes = text "notes" ∷ [];
  pre_existing_change_states = λ path. some path;
  pending_operations = [];
  pending_terminal_effect_operation_ids = [];
  completed_operation_ids = text "op-1" ∷ [];
  submission = none;
  acceptance_criteria = text "works" ∷ [];
  last_checkpoint_id = none;
}

abbrev patched : SessionState
patched =
    state_after
      (patch (record {
        operation_id = text "op-1";
        changed_paths = text "a" ∷ [];
        repository_fingerprint = hash;
      })
        ∷ [])
      (ran failure ∷ ran success ∷ [])

abbrev claim_of : Option ClaimKind → ReportedStatus → CompletionClaim
claim_of kind status = record {
  kind = kind;
  summary = text "done";
  basis = some (record {
    observed_files = [];
    tool_result_refs = text "op-1" ∷ [];
    user_provided_context = false;
  });
  acceptance_criteria = record { criterion = text "works"; status = satisfied } ∷ [];
  validation = record { command_id = text "test"; status = status } ∷ [];
}

abbrev repository : RepositoryState
repository = record {
  path_key = λ path. path;
  known = true;
  fingerprint = hash;
  excluded_state_fingerprint = text "x";
  has_conflicts = false;
  branch = some (some (text "main"));
  head = some none;
  path_state_fingerprints = λ path. some path;
  changed_paths = text "a" ∷ [];
  out_of_scope_paths = text "notes" ∷ [];
  git_status_summary = text "1 changed";
}

abbrev requirements : Requirements
requirements = record {
  required_command_ids = text "test" ∷ [];
  require_validation_after_last_mutation = true;
  require_clean_pending_operations = true;
}

accepts : (verify_completion patched (claim_of none passed) repository requirements).accepted ≡ true
unfolding verify_completion reasons_of terminal_reasons terminal_mutations latest_observed_terminal
    control_reasons observed_control scope_reasons pending_reasons answer_reasons answer_from
    fingerprint_reasons expected_repository_fingerprint is_authoritative validation_reasons
    required_reasons required_from criteria_reasons newest_validation_by_command newest_from
    claimed_validation claimed_criteria kept_claims repeated_claims entry has_entry with_entry
    is_hash text_eq option_beq any select find last contains concat_map is_blank is_space all decide
accepts = refl

-- A run that failed at last is not reported as passed.
refuses :
    (verify_completion
      (state_after patched.mutations (ran success ∷ ran failure ∷ []))
      (claim_of none passed)
      repository
      requirements).reasons
    ≡ validation_misreported (text "test") ∷ required_failed (text "test") ∷ []
unfolding verify_completion reasons_of terminal_reasons terminal_mutations latest_observed_terminal
    control_reasons observed_control scope_reasons pending_reasons answer_reasons answer_from
    fingerprint_reasons expected_repository_fingerprint is_authoritative validation_reasons
    required_reasons required_from criteria_reasons newest_validation_by_command newest_from
    claimed_validation claimed_criteria kept_claims repeated_claims entry has_entry with_entry
    is_hash text_eq option_beq any select find last contains concat_map is_blank is_space all decide
refuses = refl

accepts_answer :
    (verify_completion
      (state_after [] (ran success ∷ []))
      (claim_of (some answer) passed)
      repository
      requirements).accepted
    ≡ true
unfolding verify_completion reasons_of terminal_reasons terminal_mutations latest_observed_terminal
    control_reasons observed_control scope_reasons pending_reasons answer_reasons answer_from
    fingerprint_reasons expected_repository_fingerprint is_authoritative validation_reasons
    required_reasons required_from criteria_reasons newest_validation_by_command newest_from
    claimed_validation claimed_criteria kept_claims repeated_claims entry has_entry with_entry
    is_hash text_eq option_beq any select find last contains concat_map is_blank is_space all decide
accepts_answer = refl

accepted-truthful_example :
    map
      (λ c. c.status)
      (claims_on (λ c. c.command_id) (text "test") (claim_of none passed).validation)
    ≡ truthful (newest_of (text "test") patched.validations)
accepted-truthful_example =
    accepted-truthful patched (claim_of none passed) repository requirements accepts (text "test")

accepted-IsValidated_example :
    All
      (IsValidated patched (claim_of none passed) repository requirements)
      requirements.required_command_ids
accepted-IsValidated_example =
    accepted-IsValidated patched (claim_of none passed) repository requirements accepts

accepted-satisfied_example :
    All
      (λ criterion.
        map
          (λ c. c.status)
          (claims_on (λ c. c.criterion) criterion (claim_of none passed).acceptance_criteria)
        ≡ satisfied ∷ [])
      patched.acceptance_criteria
    × (is_blank (claim_of none passed).summary ≡ false)
accepted-satisfied_example =
    accepted-satisfied patched (claim_of none passed) repository requirements accepts

accepted-IsUndisturbed_example :
    IsUndisturbed patched (claim_of none passed) repository requirements
accepted-IsUndisturbed_example =
    accepted-IsUndisturbed patched (claim_of none passed) repository requirements accepts
