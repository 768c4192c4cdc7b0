-- ===== src/Orchestrator/Completion/Repository.antt =====
-- verifyCompletion, what it asks of the repository and of the effects that the session has recorded.
use cope_code.Common.{
  nat_eq, Bool, true, false, not, ◌&&◌, ◌||◌, Option, none, some, List, [], ◌∷◌, ◌++◌, map, reverse,
  Text, ◌==◌, text_is_eq, option_is_eq, if◌then◌else◌, any, select, find, last, contains,
}
use mathlib.Core.Option.{get_or}
use cope_code.Session.Journal.{is_hash}
use cope_code.Orchestrator.Completion.Types.{
  Authority, frozen, observed, ObservationOutcome, none_seen, protected_or_hidden_changed, Control,
  FullFacts, TerminalMutation, MutationRecord, patch, terminal, ValidationRecord, SubmissionState,
  SessionState, RepositoryState, Requirements, Reason, repository_unknown, conflicts,
  non_clean_terminal, terminal_without_fingerprint, observation_without_control,
  excluded_state_changed, branch_changed, head_changed, new_out_of_scope, pre_existing_out_of_scope,
  unresolved_operations, unattributed_effects, indeterminate_submission, repository_changed,
}

-- `if (test) reasons.push(reason)`.
abbrev pub if_push {ℓ} : {A : Type ℓ} → Bool → A → List A
if_push test reason = if test then reason ∷ [] else []

abbrev pub is_some {ℓ} : {A : Type ℓ} → Option A → Bool
is_some none = false
is_some (some a) = true

abbrev pub is_empty {ℓ} : {A : Type ℓ} → List A → Bool
is_empty [] = true
is_empty (x ∷ xs) = false

abbrev pub effective_completion_authority : SessionState → Authority
effective_completion_authority state = get_or state.completion_authority frozen

abbrev pub is_observing : Authority → Bool
is_observing frozen = false
is_observing observed = true

unfoldable pub terminal_mutations : List MutationRecord → List TerminalMutation
terminal_mutations [] = []
terminal_mutations (patch p ∷ ms) = terminal_mutations ms
terminal_mutations (terminal t ∷ ms) = t ∷ terminal_mutations ms

abbrev pub is_non_clean : ObservationOutcome → Bool
is_non_clean ObservationOutcome.unknown = true
is_non_clean protected_or_hidden_changed = true
is_non_clean observed = false
is_non_clean none_seen = false

abbrev pub is_observed : ObservationOutcome → Bool
is_observed observed = true
is_observed none_seen = false
is_observed protected_or_hidden_changed = false
is_observed ObservationOutcome.unknown = false

unfoldable pub is_authoritative : Option Text → Bool
is_authoritative none = false
is_authoritative (some fingerprint) = is_hash fingerprint

abbrev pub control_of : Option FullFacts → Option Control
control_of none = none
control_of (some facts) = facts.post_observation_control

abbrev pub is_anchor : Option Control → Bool
is_anchor none = false
is_anchor (some control) = is_hash control.excluded_state_fingerprint

unfoldable pub has_authoritative_terminal_control : TerminalMutation → Bool
has_authoritative_terminal_control t =
    is_some t.full
    && (is_observed t.observation_outcome
        && (is_authoritative t.repository_fingerprint && is_anchor (control_of t.full)))

unfoldable pub latest_observed_terminal : SessionState → Option TerminalMutation
unfolding terminal_mutations find
latest_observed_terminal state =
    find (λ t. is_observed t.observation_outcome) (reverse (terminal_mutations state.mutations))

abbrev pub control_from : Bool → Option TerminalMutation → Option Control
control_from observing none = none
control_from observing (some t) =
    if observing && has_authoritative_terminal_control t then control_of t.full else none

unfoldable pub observed_control : SessionState → Option Control
observed_control state =
    control_from (is_observing (effective_completion_authority state))
      (latest_observed_terminal state)

abbrev pub lacks_fingerprint : Option TerminalMutation → Bool
lacks_fingerprint none = false
lacks_fingerprint (some t) = not (is_authoritative t.repository_fingerprint)

unfoldable pub terminal_reasons : SessionState → RepositoryState → List Reason
unfolding any last
terminal_reasons state repository =
    let terminals = terminal_mutations state.mutations in
    if_push (not repository.known) repository_unknown
    ++ if_push repository.has_conflicts conflicts
    ++ if_push (any (λ t. is_non_clean t.observation_outcome) terminals) non_clean_terminal
    ++ if_push (lacks_fingerprint (last terminals)) terminal_without_fingerprint
    ++ if_push
        (is_observing (effective_completion_authority state)
          && (is_some (latest_observed_terminal state) && not (is_some (observed_control state))))
        observation_without_control

-- `start !== undefined && now !== start`.
abbrev pub moved_from : Option (Option Text) → Option (Option Text) → Bool
moved_from start now = is_some start && not (now == start)

unfoldable pub control_reasons : Option Control → SessionState → RepositoryState → List Reason
control_reasons none state repository =
    if_push
      (not (repository.excluded_state_fingerprint == state.repository_excluded_state_at_start))
      excluded_state_changed
    ++ if_push (moved_from state.repository_branch_at_start repository.branch) branch_changed
    ++ if_push (moved_from state.repository_head_at_start repository.head) head_changed
control_reasons (some control) state repository =
    if_push (not (repository.excluded_state_fingerprint == control.excluded_state_fingerprint))
      excluded_state_changed
    ++ if_push (not (repository.branch == some control.branch)) branch_changed
    ++ if_push (not (repository.head == some control.head)) head_changed

abbrev pub is_pre_existing : SessionState → RepositoryState → Text → Bool
is_pre_existing state repository path =
    contains (repository.path_key path) (map repository.path_key state.pre_existing_changes)

-- `before === undefined || current === undefined || before !== current`.
abbrev pub differs : Option Text → Option Text → Bool
differs (some before) (some current) = not (before == current)
differs none current = true
differs (some before) none = true

abbrev pub is_modified : SessionState → RepositoryState → Text → Bool
is_modified state repository path =
    differs (state.pre_existing_change_states (repository.path_key path))
      (repository.path_state_fingerprints (repository.path_key path))

unfoldable pub scope_reasons : SessionState → RepositoryState → List Reason
unfolding select contains
scope_reasons state repository =
    let paths = repository.out_of_scope_paths in
    let new = select (λ path. not (is_pre_existing state repository path)) paths in
    let changed =
      select (λ path. is_pre_existing state repository path && is_modified state repository path)
        paths in
    if_push (not (is_empty new)) (new_out_of_scope new)
    ++ if_push (not (is_empty changed)) (pre_existing_out_of_scope changed)

abbrev pub is_indeterminate : Option SubmissionState → Bool
is_indeterminate (some SubmissionState.indeterminate) = true
is_indeterminate _ = false

unfoldable pub pending_reasons : SessionState → Requirements → List Reason
pending_reasons state requirements =
    if_push
      ((requirements.require_clean_pending_operations
          || is_observing (effective_completion_authority state))
        && not (is_empty state.pending_operations))
      unresolved_operations
    ++ if_push (not (is_empty state.pending_terminal_effect_operation_ids)) unattributed_effects
    ++ if_push (is_indeterminate state.submission) indeterminate_submission

abbrev fingerprint_of : Option MutationRecord → Text → Option Text
fingerprint_of none start = some start
fingerprint_of (some (patch p)) start = some p.repository_fingerprint
fingerprint_of (some (terminal t)) start = some (get_or t.repository_fingerprint start)

abbrev pub expected_from : SessionState → Option ValidationRecord → Option Text
expected_from state none =
    fingerprint_of (last state.mutations) state.repository_fingerprint_at_start
expected_from state (some v) =
    if nat_eq v.mutation_sequence state.mutation_sequence
    then v.repository_fingerprint
    else fingerprint_of (last state.mutations) state.repository_fingerprint_at_start

unfoldable pub expected_repository_fingerprint : SessionState → Option Text
unfolding last
expected_repository_fingerprint state = expected_from state (last state.validations)

unfoldable pub fingerprint_reasons : SessionState → RepositoryState → List Reason
unfolding last
fingerprint_reasons state repository =
    let expected = expected_repository_fingerprint state in
    let has_effect = is_some (last state.validations) || is_some (last state.mutations) in
    if_push
      (has_effect && not (is_authoritative expected)
        || is_authoritative expected && not (expected == some repository.fingerprint))
      repository_changed
