-- ===== src/Orchestrator/Completion/Gate.antt =====
-- verifyCompletion: the decision, with the facts that it reports.
use cope_code.Common.{
  ℕ, nat_eq, Bool, true, false, not, ◌&&◌, Option, none, some, List, [], ◌∷◌, ◌++◌, map, Text,
  text_is_eq, if◌then◌else◌, select, contains, concat_map, is_blank,
}
use cope_code.Orchestrator.Completion.Types.{
  ProcessOutcome, FullFacts, TerminalMutation, MutationRecord, patch, terminal, ObservationOutcome,
  CompletionClaim, SessionState, RepositoryState, Requirements, Reason, empty_summary,
}
use cope_code.Orchestrator.Completion.Repository.{
  if_push, is_empty, is_observed, terminal_mutations, observed_control, terminal_reasons,
  control_reasons, scope_reasons, pending_reasons, fingerprint_reasons,
}
use cope_code.Orchestrator.Completion.Claims.{
  is_success, newest_validation_by_command, answer_reasons, validation_reasons, required_reasons,
  criteria_reasons,
}

unfoldable pub reasons_of :
    SessionState → CompletionClaim → RepositoryState → Requirements → List Reason
unfolding is_blank
reasons_of state claim repository requirements =
    terminal_reasons state repository
    ++ control_reasons (observed_control state) state repository
    ++ scope_reasons state repository
    ++ pending_reasons state requirements
    ++ answer_reasons state claim
    ++ fingerprint_reasons state repository
    ++ validation_reasons state claim
    ++ required_reasons state claim repository requirements
    ++ if_push (is_blank claim.summary) empty_summary
    ++ criteria_reasons state claim

-- `uniquePaths`, whose keys of the earlier paths are the second argument.
unfoldable pub unique_from : (Text → Text) → List Text → List Text → List Text
unfolding contains
unique_from path_key seen [] = []
unique_from path_key seen (path ∷ paths) =
    if contains (path_key path) seen
    then unique_from path_key seen paths
    else path ∷ unique_from path_key (path_key path ∷ seen) paths

unfoldable pub unique_paths : (Text → Text) → List Text → List Text
unfolding unique_from
unique_paths path_key paths = unique_from path_key [] paths

abbrev paths_of : MutationRecord → List Text
paths_of (patch p) = p.changed_paths
paths_of (terminal t) = t.changed_paths

abbrev patch_paths_of : MutationRecord → List Text
patch_paths_of (patch p) = p.changed_paths
patch_paths_of (terminal t) = []

-- `none` stands for "unavailable".
abbrev outcome_of : TerminalMutation → Text × Option ProcessOutcome
outcome_of t = (t.operation_id, elim t.full [ none ↦ none | some facts ↦ facts.process_outcome ])

pub record Limitation : Type 0 where
  pub operation_id : Text
  pub observation_outcome : ObservationOutcome
  pub unavailable_baseline_count : ℕ
  pub omitted_path_endpoint_total : ℕ
  pub path_facts_truncated : Bool
  pub legacy_evidence : Bool

abbrev limitation_from : TerminalMutation → Option FullFacts → Limitation
limitation_from t none = record {
  operation_id = t.operation_id;
  observation_outcome = t.observation_outcome;
  unavailable_baseline_count = 0;
  omitted_path_endpoint_total = 0;
  path_facts_truncated = false;
  legacy_evidence = true;
}
limitation_from t (some facts) = record {
  operation_id = t.operation_id;
  observation_outcome = t.observation_outcome;
  unavailable_baseline_count = facts.unavailable_baseline_count;
  omitted_path_endpoint_total = facts.omitted_path_endpoint_total;
  path_facts_truncated = facts.path_facts_truncated;
  legacy_evidence = false;
}

abbrev limitations_of : TerminalMutation → List Limitation
limitations_of t =
    let l = limitation_from t t.full in
    if_push
      (not (
        is_observed l.observation_outcome
        && (nat_eq l.unavailable_baseline_count 0
            && (nat_eq l.omitted_path_endpoint_total 0
                && (not l.path_facts_truncated && not l.legacy_evidence)))))
      l

pub record Actual : Type 0 where
  pub changed_paths : List Text
  pub agent_changed_paths : List Text
  pub pre_existing_paths : List Text
  pub successful_commands : List Text
  pub failed_commands : List Text
  pub checkpoint_id : Option Text
  pub git_status_summary : Text
  pub repository_fingerprint : Text
  pub patch_changed_paths : List Text
  pub terminal_changed_paths : List Text
  pub terminal_pre_existing_touched_paths : List Text
  pub process_outcomes : List (Text × Option ProcessOutcome)
  pub limitations : List Limitation

pub record CompletionVerification : Type 0 where
  pub accepted : Bool
  pub reasons : List Reason
  pub actual : Actual

unfoldable pub actual_of : SessionState → RepositoryState → Actual
unfolding unique_paths concat_map terminal_mutations select newest_validation_by_command
actual_of state repository =
    let latest = newest_validation_by_command state.validations in
    let terminals = terminal_mutations state.mutations in
    record {
      changed_paths = repository.changed_paths;
      agent_changed_paths = unique_paths (λ path. path) (concat_map paths_of state.mutations);
      pre_existing_paths = state.pre_existing_changes;
      successful_commands =
          map (λ pair. pair.0) (select (λ pair. is_success pair.1.outcome) latest);
      failed_commands =
          map (λ pair. pair.0) (select (λ pair. not (is_success pair.1.outcome)) latest);
      checkpoint_id = state.last_checkpoint_id;
      git_status_summary = repository.git_status_summary;
      repository_fingerprint = repository.fingerprint;
      patch_changed_paths =
          unique_paths repository.path_key (concat_map patch_paths_of state.mutations);
      terminal_changed_paths =
          unique_paths repository.path_key (concat_map (λ t. t.changed_paths) terminals);
      terminal_pre_existing_touched_paths =
          unique_paths repository.path_key
            (concat_map (λ t. t.pre_existing_touched_paths) terminals);
      process_outcomes = map outcome_of terminals;
      limitations = concat_map limitations_of terminals;
    }

unfoldable pub verify_completion :
    SessionState → CompletionClaim → RepositoryState → Requirements → CompletionVerification
unfolding reasons_of
verify_completion state claim repository requirements = record {
  accepted = is_empty (reasons_of state claim repository requirements);
  reasons = reasons_of state claim repository requirements;
  actual = actual_of state repository;
}
