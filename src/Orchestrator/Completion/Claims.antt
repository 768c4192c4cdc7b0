-- ===== src/Orchestrator/Completion/Claims.antt =====
-- verifyCompletion, what it asks of the claim: an answer's basis, the validations and the criteria.
use cope_code.Common.{
  ltb, nat_eq, Bool, true, false, not, ◌&&◌, ◌||◌, Option, none, some, List, [], ◌∷◌, ◌++◌, Text,
  ◌==◌, text_is_eq, option_is_eq, if◌then◌else◌, select, contains, concat_map,
}
use cope_code.Orchestrator.Completion.Types.{
  work, answer, Basis, ValidationRecord, ValidationOutcome, success, ReportedStatus, reported_is_eq,
  passed, failed, ClaimedValidation, CriterionStatus, satisfied, ClaimedCriterion, CompletionClaim,
  SessionState, RepositoryState, Requirements, Reason, answer_after_mutation, answer_without_basis,
  answer_without_result, unknown_references, validation_repeated, validation_omitted,
  validation_misreported, validation_not_run, required_not_run, required_failed, required_outdated,
  required_elsewhere, required_not_reported, criterion_repeated, criterion_unsatisfied,
}
use cope_code.Orchestrator.Completion.Repository.{
  if_push, is_empty, is_observing, effective_completion_authority,
}

-- The entries of a `Map`, in the order of their first insertion.
module _ {ℓ} {A : Type ℓ} where
  unfoldable pub entry : Text → List (Text × A) → Option A
  entry key [] = none
  entry key ((k, a) ∷ entries) = if k == key then some a else entry key entries

  unfoldable pub has_entry : Text → List (Text × A) → Bool
  has_entry key [] = false
  has_entry key ((k, a) ∷ entries) = k == key || has_entry key entries

  -- `map.set(key, a)`.
  unfoldable pub with_entry : Text → A → List (Text × A) → List (Text × A)
  with_entry key a [] = (key, a) ∷ []
  with_entry key a ((k, b) ∷ entries) =
      if k == key then (k, a) ∷ entries else (k, b) ∷ with_entry key a entries

-- `newestValidationByCommand`.
unfoldable pub newest_from :
    List (Text × ValidationRecord) → List ValidationRecord → List (Text × ValidationRecord)
unfolding with_entry
newest_from entries [] = entries
newest_from entries (v ∷ vs) = newest_from (with_entry v.command_id v entries) vs

unfoldable pub newest_validation_by_command : List ValidationRecord → List (Text × ValidationRecord)
unfolding newest_from
newest_validation_by_command records = newest_from [] records

-- The two loops that collect claims by their key: the first of each key is kept, and each later one is
-- a reason.
module _ {ℓ} {A : Type ℓ} (key : A → Text) where
  unfoldable pub kept_claims : List (Text × A) → List A → List (Text × A)
  unfolding has_entry with_entry
  kept_claims entries [] = entries
  kept_claims entries (a ∷ rest) =
      kept_claims (if has_entry (key a) entries then entries else with_entry (key a) a entries) rest

  unfoldable pub repeated_claims : (Text → Reason) → List (Text × A) → List A → List Reason
  unfolding has_entry with_entry
  repeated_claims repeated entries [] = []
  repeated_claims repeated entries (a ∷ rest) =
      if_push (has_entry (key a) entries) (repeated (key a))
      ++ repeated_claims repeated
          (if has_entry (key a) entries then entries else with_entry (key a) a entries) rest

unfoldable pub claimed_validation : CompletionClaim → List (Text × ClaimedValidation)
unfolding kept_claims
claimed_validation claim = kept_claims (λ c. c.command_id) [] claim.validation

unfoldable pub claimed_criteria : CompletionClaim → List (Text × ClaimedCriterion)
unfolding kept_claims
claimed_criteria claim = kept_claims (λ c. c.criterion) [] claim.acceptance_criteria

abbrev pub is_success : ValidationOutcome → Bool
is_success success = true
is_success _ = false

abbrev pub expected_status : ValidationOutcome → ReportedStatus
expected_status outcome = if is_success outcome then passed else failed

abbrev pub report_reasons : Text → ValidationRecord → Option ClaimedValidation → List Reason
report_reasons command ran none = validation_omitted command ∷ []
report_reasons command ran (some reported) =
    if_push (not (reported.status == expected_status ran.outcome)) (validation_misreported command)

-- The loops that compare what ran with what is claimed.
unfoldable pub validation_reasons : SessionState → CompletionClaim → List Reason
unfolding concat_map entry has_entry claimed_validation newest_validation_by_command
validation_reasons state claim =
    let latest = newest_validation_by_command state.validations in
    let claimed = claimed_validation claim in
    repeated_claims (λ c. c.command_id) validation_repeated [] claim.validation
    ++ concat_map (λ pair. report_reasons pair.0 pair.1 (entry pair.0 claimed)) latest
    ++ concat_map (λ pair. if_push (not (has_entry pair.0 latest)) (validation_not_run pair.0))
        claimed

abbrev pub is_stale : SessionState → Requirements → ValidationRecord → Bool
is_stale state requirements ran =
    if is_observing (effective_completion_authority state)
    then not (nat_eq ran.mutation_sequence state.mutation_sequence)
    else requirements.require_validation_after_last_mutation
      && ltb ran.mutation_sequence state.mutation_sequence

abbrev pub reports_passed : Option ClaimedValidation → Bool
reports_passed none = false
reports_passed (some claimed) = claimed.status == passed

unfoldable pub required_from :
    SessionState
    → CompletionClaim
    → RepositoryState
    → Requirements
    → Text
    → Option ValidationRecord
    → List Reason
unfolding entry claimed_validation
required_from state claim repository requirements command none = required_not_run command ∷ []
required_from state claim repository requirements command (some ran) =
    if_push (not (is_success ran.outcome)) (required_failed command)
    ++ if_push (is_stale state requirements ran) (required_outdated command)
    ++ if_push (not (ran.repository_fingerprint == some repository.fingerprint))
        (required_elsewhere command)
    ++ if_push (not (reports_passed (entry command (claimed_validation claim))))
        (required_not_reported command)

unfoldable pub required_reasons :
    SessionState → CompletionClaim → RepositoryState → Requirements → List Reason
unfolding concat_map entry newest_validation_by_command required_from
required_reasons state claim repository requirements =
    concat_map
      (λ command.
        required_from state claim repository requirements command
          (entry command (newest_validation_by_command state.validations)))
      requirements.required_command_ids

abbrev pub is_satisfied_status : CriterionStatus → Bool
is_satisfied_status satisfied = true
is_satisfied_status _ = false

abbrev pub is_satisfied : Option ClaimedCriterion → Bool
is_satisfied none = false
is_satisfied (some claimed) = is_satisfied_status claimed.status

unfoldable pub criteria_reasons : SessionState → CompletionClaim → List Reason
unfolding concat_map entry claimed_criteria
criteria_reasons state claim =
    repeated_claims (λ c. c.criterion) criterion_repeated [] claim.acceptance_criteria
    ++ concat_map
        (λ criterion.
          if_push (not (is_satisfied (entry criterion (claimed_criteria claim))))
            (criterion_unsatisfied criterion))
        state.acceptance_criteria

abbrev pub refs_of : Option Basis → List Text
refs_of none = []
refs_of (some basis) = basis.tool_result_refs

abbrev pub files_of : Option Basis → List Text
files_of none = []
files_of (some basis) = basis.observed_files

abbrev pub has_basis : Option Basis → Bool
has_basis none = false
has_basis (some basis) = not (is_empty basis.tool_result_refs) || basis.user_provided_context

unfoldable pub answer_from : SessionState → Option Basis → List Reason
unfolding select contains
answer_from state basis =
    let unknown =
      select (λ reference. not (contains reference state.completed_operation_ids))
        (refs_of basis) in
    if_push (not (is_empty state.mutations)) answer_after_mutation
    ++ if_push (not (has_basis basis)) answer_without_basis
    ++ if_push (not (is_empty (files_of basis)) && is_empty (refs_of basis)) answer_without_result
    ++ if_push (not (is_empty unknown)) (unknown_references unknown)

unfoldable pub answer_reasons : SessionState → CompletionClaim → List Reason
unfolding answer_from
answer_reasons state claim = elim claim.kind [
  | some answer ↦ answer_from state claim.basis
  | some work ↦ []
  | none ↦ []
]
