-- ===== src/Orchestrator/Completion/Parts.antt =====
-- An accepted claim has no reason against it in any part.
use cope_code.Common.{◌≡◌, refl, true, false, List, [], ◌∷◌, text_is_eq, option_is_eq, is_blank}
use cope_code.Orchestrator.Completion.Types.{
  reported_is_eq, CompletionClaim, SessionState, RepositoryState, Requirements, empty_summary,
}
use cope_code.Orchestrator.Completion.Repository.{
  if_push, is_empty, terminal_reasons, control_reasons, scope_reasons, pending_reasons,
  fingerprint_reasons, observed_control,
}
use cope_code.Orchestrator.Completion.Claims.{
  validation_reasons, required_reasons, criteria_reasons, answer_reasons,
}
use cope_code.Orchestrator.Completion.Gate.{reasons_of, verify_completion}
use cope_code.Orchestrator.Completion.Entries.{append_nil, if_push_nil}

-- The parts of an empty list of reasons.
pub record IsSilent (state : SessionState) (claim : CompletionClaim) (repository : RepositoryState)
    (requirements : Requirements) : Type 0 where
  pub terminals : terminal_reasons state repository ≡ []
  pub control : control_reasons (observed_control state) state repository ≡ []
  pub scope : scope_reasons state repository ≡ []
  pub pending : pending_reasons state requirements ≡ []
  pub answer : answer_reasons state claim ≡ []
  pub fingerprint : fingerprint_reasons state repository ≡ []
  pub validation : validation_reasons state claim ≡ []
  pub required : required_reasons state claim repository requirements ≡ []
  pub criteria : criteria_reasons state claim ≡ []
  pub summary : is_blank claim.summary ≡ false

is_empty-nil {ℓ} : {A : Type ℓ} (xs : List A) → is_empty xs ≡ true → xs ≡ []
is_empty-nil [] h = refl
is_empty-nil (x ∷ xs) h = cc

module _ (state : SessionState) (claim : CompletionClaim) (repository : RepositoryState)
    (requirements : Requirements) where
  pub accepted-IsSilent :
      (verify_completion state claim repository requirements).accepted ≡ true
      → IsSilent state claim repository requirements
  unfolding verify_completion reasons_of
  accepted-IsSilent h =
      let all_nil = is_empty-nil (reasons_of state claim repository requirements) h in
      let (b, criteria) = append_nil _ (criteria_reasons state claim) all_nil in
      let (b1, blank) = append_nil _ (if_push (is_blank claim.summary) empty_summary) b in
      let (b2, required) = append_nil _ (required_reasons state claim repository requirements) b1 in
      let (b3, validation) = append_nil _ (validation_reasons state claim) b2 in
      let (b4, fingerprint) = append_nil _ (fingerprint_reasons state repository) b3 in
      let (b5, answer) = append_nil _ (answer_reasons state claim) b4 in
      let (b6, pending) = append_nil _ (pending_reasons state requirements) b5 in
      let (b7, scope) = append_nil _ (scope_reasons state repository) b6 in
      let (terminals, control) =
        append_nil (terminal_reasons state repository)
          (control_reasons (observed_control state) state repository) b7 in
      record {
        terminals = terminals;
        control = control;
        scope = scope;
        pending = pending;
        answer = answer;
        fingerprint = fingerprint;
        validation = validation;
        required = required;
        criteria = criteria;
        summary = if_push_nil (is_blank claim.summary) empty_summary blank;
      }
