-- ===== src/Orchestrator/Completion/Validation.antt =====
-- What has been validated and satisfied when a claim is accepted.
use cope_code.Common.{
  ℕ, ◌≤◌, ◌≡◌, refl, sym, ap, ◌∙◌, Bool, true, false, not, ◌&&◌, Option, none, some, [], ◌∷◌, map,
  Text, ◌==◌, ==_iff, text_is_eq, option_is_eq, if◌then◌else◌, is_blank, All, arith, concat_map,
  nat_eq, ltb, is_blank,
}
use cope_code.Orchestrator.Completion.Types.{
  Authority, frozen, observed, ValidationRecord, ValidationOutcome, success, reported_is_eq, passed,
  CriterionStatus, satisfied, ClaimedCriterion, CompletionClaim, SessionState, RepositoryState,
  Requirements, required_failed, required_outdated, required_elsewhere, required_not_reported,
  criterion_repeated, criterion_unsatisfied,
}
use cope_code.Orchestrator.Completion.Repository.{
  if_push, is_observing, effective_completion_authority,
}
use cope_code.Orchestrator.Completion.Claims.{
  entry, newest_validation_by_command, repeated_claims, claimed_validation, claimed_criteria,
  is_success, expected_status, is_stale, reports_passed, required_from, required_reasons,
  is_satisfied, is_satisfied_status, criteria_reasons,
}
use cope_code.Orchestrator.Completion.Gate.{verify_completion}
use cope_code.Orchestrator.Completion.Entries.{
  append_nil, concat_map_nil, if_push_nil, All-map, listed, newest_of, claims_on, claims_on-entry,
}
use cope_code.Orchestrator.Completion.Parts.{accepted-IsSilent}
use cope_code.Orchestrator.Completion.Honesty.{truthful, newest_entry, accepted-truthful}

not-false : (b : Bool) → not b ≡ false → b ≡ true
not-false true h = refl
not-false false h = cc

success_of : (outcome : ValidationOutcome) → not (is_success outcome) ≡ false → outcome ≡ success
success_of outcome h = ground arith

stale_sides :
    (a : Authority) (asked : Bool) (m n : ℕ)
    → (if is_observing a then not (nat_eq m n) else asked && ltb m n) ≡ false
    → (asked ≡ true → n ≤ m) × (a ≡ observed → m ≡ n)
stale_sides frozen asked m n h = (λ e. ground arith, λ e. cc)
stale_sides observed asked m n h = (λ e. ground arith, λ e. ground arith)

module _ (state : SessionState) (claim : CompletionClaim) (repository : RepositoryState)
    (requirements : Requirements) where
  -- What a required command needs: it ran, its last run was a success in the state that the repository
  -- has now, after the last mutation where that is asked (with observed authority, at exactly the last
  -- mutation), and the claim has one report of it, as passed.
  pub record IsValidated (command : Text) : Type 0 where
    pub ran : ValidationRecord
    pub last : newest_of command state.validations ≡ some ran
    pub succeeded : ran.outcome ≡ success
    pub here : ran.repository_fingerprint ≡ some repository.fingerprint
    pub fresh :
        requirements.require_validation_after_last_mutation ≡ true
        → state.mutation_sequence ≤ ran.mutation_sequence
    pub observed_fresh :
        effective_completion_authority state ≡ observed
        → ran.mutation_sequence ≡ state.mutation_sequence
    pub reported :
        map (λ c. c.status) (claims_on (λ c. c.command_id) command claim.validation) ≡ passed ∷ []

  required-IsValidated :
      (command : Text) (found : Option ValidationRecord)
      → newest_of command state.validations ≡ found
      → map (λ c. c.status) (claims_on (λ c. c.command_id) command claim.validation)
        ≡ truthful found
      → required_from state claim repository requirements command found ≡ []
      → IsValidated command
  unfolding required_from
  required-IsValidated command none e told h = cc
  required-IsValidated command (some ran) e told h =
      let (h1, _) =
        append_nil _
          (if_push (not (reports_passed (entry command (claimed_validation claim))))
            (required_not_reported command))
          h in
      let (h2, elsewhere) =
        append_nil _
          (if_push (not (ran.repository_fingerprint == some repository.fingerprint))
            (required_elsewhere command))
          h1 in
      let (unsuccessful, stale) =
        append_nil (if_push (not (is_success ran.outcome)) (required_failed command))
          (if_push (is_stale state requirements ran) (required_outdated command)) h2 in
      let failing =
        if_push_nil (not (is_success ran.outcome)) (required_failed command) unsuccessful in
      let there =
        if_push_nil (not (ran.repository_fingerprint == some repository.fingerprint))
          (required_elsewhere command) elsewhere in
      let not_stale =
        if_push_nil (is_stale state requirements ran) (required_outdated command) stale in
      let timely =
        stale_sides (effective_completion_authority state)
          requirements.require_validation_after_last_mutation ran.mutation_sequence
          state.mutation_sequence not_stale in
      record {
        ran = ran;
        last = e;
        succeeded = success_of ran.outcome failing;
        here =
            (==_iff ran.repository_fingerprint (some repository.fingerprint)).0
              (not-false (ran.repository_fingerprint == some repository.fingerprint) there);
        fresh = timely.0;
        observed_fresh = timely.1;
        reported = told ∙ ap (λ o. expected_status o ∷ []) (success_of ran.outcome failing);
      }

  -- No task is accepted unless every required command was validated: it ran, its last run was a success
  -- in the state that the repository has now, not before the last mutation where that is asked, and
  -- with observed authority exactly after the last mutation; and the claim reports it once, as passed.
  pub accepted-IsValidated :
      (verify_completion state claim repository requirements).accepted ≡ true
      → All IsValidated requirements.required_command_ids
  unfolding required_reasons
  accepted-IsValidated h =
      All-map
        (λ command none_left.
          required-IsValidated command (newest_of command state.validations) refl
            (accepted-truthful state claim repository requirements h command)
            (ap (required_from state claim repository requirements command)
                (sym (newest_entry command state.validations))
              ∙ none_left))
        requirements.required_command_ids
        (concat_map_nil
          (λ command.
            required_from state claim repository requirements command
              (entry command (newest_validation_by_command state.validations)))
          requirements.required_command_ids
          (accepted-IsSilent state claim repository requirements h).required)

  satisfied_once :
      (criterion : Text) (found : Option ClaimedCriterion)
      → not (is_satisfied found) ≡ false
      → map (λ c. c.status) (listed found) ≡ satisfied ∷ []
  satisfied_once criterion none h = cc
  satisfied_once criterion (some c) h = ap (λ s. s ∷ []) (status_of c.status h)
    where
      status_of : (s : CriterionStatus) → not (is_satisfied_status s) ≡ false → s ≡ satisfied
      status_of s h = ground arith

  -- No task is accepted unless the claim reports each acceptance criterion of the session once, as
  -- satisfied, with a summary that is not blank.
  pub accepted-satisfied :
      (verify_completion state claim repository requirements).accepted ≡ true
      → All
          (λ criterion.
            map (λ c. c.status) (claims_on (λ c. c.criterion) criterion claim.acceptance_criteria)
            ≡ satisfied ∷ [])
          state.acceptance_criteria
        × (is_blank claim.summary ≡ false)
  unfolding criteria_reasons claimed_criteria entry
  accepted-satisfied h =
      let silent = accepted-IsSilent state claim repository requirements h in
      let missing = λ (criterion : Text).
        if_push (not (is_satisfied (entry criterion (claimed_criteria claim))))
          (criterion_unsatisfied criterion) in
      let (once, all_met) =
        append_nil
          (repeated_claims (λ c. c.criterion) criterion_repeated [] claim.acceptance_criteria)
          (concat_map missing state.acceptance_criteria) silent.criteria in
      (
        All-map
            (λ criterion met.
              ap (map (λ c. c.status)) (
                claims_on-entry (λ c. c.criterion) criterion_repeated criterion []
                  claim.acceptance_criteria once refl)
              ∙ satisfied_once criterion (entry criterion (claimed_criteria claim)) (
                  if_push_nil (not (is_satisfied (entry criterion (claimed_criteria claim))))
                    (criterion_unsatisfied criterion) met))
            state.acceptance_criteria (concat_map_nil missing state.acceptance_criteria all_met),
        silent.summary,
      )
