-- ===== src/Orchestrator/Completion/Acceptance.antt =====
-- An accepted task leaves nothing unresolved.
use cope_code.Common.{
  subst, ◌≡◌, ◌≢◌, refl, ap, ◌⊎◌, inl, inr, Bool, true, false, not, ◌&&◌, ◌||◌, Option, none, some,
  List, [], ◌∷◌, Text, ◌==◌, ==_iff, text_is_eq, option_is_eq, select, any, All, contains, last,
  arith,
}
use cope_code.Orchestrator.Completion.Types.{
  Authority, observed, Basis, answer, SubmissionState, CompletionClaim, SessionState,
  RepositoryState, Requirements, repository_unknown, conflicts, non_clean_terminal,
  terminal_without_fingerprint, unresolved_operations, unattributed_effects,
  indeterminate_submission, repository_changed, answer_after_mutation, answer_without_basis,
  answer_without_result, unknown_references,
}
use cope_code.Orchestrator.Completion.Repository.{
  is_indeterminate, lacks_fingerprint, if_push, is_empty, is_some, is_observing, is_non_clean,
  is_authoritative, effective_completion_authority, terminal_mutations, terminal_reasons,
  pending_reasons, fingerprint_reasons, observed_control, expected_repository_fingerprint,
}
use cope_code.Orchestrator.Completion.Claims.{
  refs_of, files_of, has_basis, answer_from, answer_reasons,
}
use cope_code.Orchestrator.Completion.Gate.{verify_completion}
use cope_code.Orchestrator.Completion.Entries.{append_nil, if_push_nil, All-map}
use cope_code.Orchestrator.Completion.Parts.{accepted-IsSilent}
use cope_code.Orchestrator.Completion.Disturbance.{
  IsAnchored, IsUntouched, anchored, scoped, not-false, any-false, select-empty, is_empty-nil,
}

module _ (state : SessionState) (claim : CompletionClaim) (repository : RepositoryState)
    (requirements : Requirements) where
  pub record IsUndisturbed : Type 0 where
    pub known : repository.known ≡ true
    pub merged : repository.has_conflicts ≡ false
    pub clean :
        All (λ t. is_non_clean t.observation_outcome ≡ false) (terminal_mutations state.mutations)
    pub anchor : IsAnchored (observed_control state) state repository
    pub in_scope : All (IsUntouched state repository) repository.out_of_scope_paths
    pub resolved : effective_completion_authority state ≡ observed → state.pending_operations ≡ []
    pub attributed : state.pending_terminal_effect_operation_ids ≡ []
    pub delivered : state.submission ≢ some SubmissionState.indeterminate
    pub unchanged :
        is_some (last state.validations) || is_some (last state.mutations) ≡ true
        → expected_repository_fingerprint state ≡ some repository.fingerprint

  pending_sides :
      pending_reasons state requirements ≡ []
      → (effective_completion_authority state ≡ observed → state.pending_operations ≡ [])
        × (state.pending_terminal_effect_operation_ids ≡ [])
        × (state.submission ≢ some SubmissionState.indeterminate)
  unfolding pending_reasons
  pending_sides h =
      let waiting =
        (requirements.require_clean_pending_operations
          || is_observing (effective_completion_authority state))
        && not (is_empty state.pending_operations) in
      let effects = not (is_empty state.pending_terminal_effect_operation_ids) in
      let (h1, submitted) =
        append_nil _ (if_push (is_indeterminate state.submission) indeterminate_submission) h in
      let (pending, unattributed) =
        append_nil (if_push waiting unresolved_operations) (if_push effects unattributed_effects)
          h1 in
      (
        λ e. is_empty-nil state.pending_operations (
            observing_side requirements.require_clean_pending_operations
              (effective_completion_authority state) _ e
              (if_push_nil waiting unresolved_operations pending)),
        is_empty-nil state.pending_terminal_effect_operation_ids
            (if_push_nil effects unattributed_effects unattributed),
        λ e. cc (
          ap is_indeterminate e,
          if_push_nil (is_indeterminate state.submission) indeterminate_submission submitted,
        ),
      )
    where
      observing_side :
          (asked : Bool) (a : Authority) (b : Bool)
          → a ≡ observed
          → ((asked || is_observing a) && b) ≡ false
          → b ≡ false
      observing_side asked a b e h = ground arith

  unchanged_side :
      fingerprint_reasons state repository ≡ []
      → is_some (last state.validations) || is_some (last state.mutations) ≡ true
      → expected_repository_fingerprint state ≡ some repository.fingerprint
  unfolding fingerprint_reasons
  unchanged_side h effect =
      let expected = expected_repository_fingerprint state in
      let has_effect = is_some (last state.validations) || is_some (last state.mutations) in
      let test =
        has_effect && not (is_authoritative expected)
        || is_authoritative expected && not (expected == some repository.fingerprint) in
      (==_iff expected (some repository.fingerprint)).0 (
        same_side has_effect (is_authoritative expected) (expected == some repository.fingerprint)
          effect (if_push_nil test repository_changed h))
    where
      same_side : (a b c : Bool) → a ≡ true → (a && not b || b && not c) ≡ false → c ≡ true
      same_side a b c e h = ground arith

  terminal_sides :
      terminal_reasons state repository ≡ []
      → (repository.known ≡ true)
        × (repository.has_conflicts ≡ false)
        × All (λ t. is_non_clean t.observation_outcome ≡ false) (terminal_mutations state.mutations)
  unfolding terminal_reasons
  terminal_sides h =
      let terminals = terminal_mutations state.mutations in
      let dirty = any (λ t. is_non_clean t.observation_outcome) terminals in
      let (h1, _) = append_nil _ _ h in
      let (h2, _) =
        append_nil _ (if_push (lacks_fingerprint (last terminals)) terminal_without_fingerprint)
          h1 in
      let (h3, clean) = append_nil _ (if_push dirty non_clean_terminal) h2 in
      let (unknown, merging) =
        append_nil (if_push (not repository.known) repository_unknown)
          (if_push repository.has_conflicts conflicts) h3 in
      (
        not-false repository.known (if_push_nil (not repository.known) repository_unknown unknown),
        if_push_nil repository.has_conflicts conflicts merging,
        any-false (λ t. is_non_clean t.observation_outcome) terminals
            (if_push_nil dirty non_clean_terminal clean),
      )

  -- No task is accepted in a repository that is unknown or has conflicts, after a terminal command
  -- with unclear effects, or with effects that are not attributed, a submission of unknown delivery, or
  -- (with observed authority) a pending operation. The hidden state, the branch and the head are those
  -- of the last authoritative observation, or else of the start; each changed path outside the grant
  -- was changed before the session and is as it was; and if the session has run or changed anything,
  -- the repository has the fingerprint that was recorded then.
  pub accepted-IsUndisturbed :
      (verify_completion state claim repository requirements).accepted ≡ true → IsUndisturbed
  accepted-IsUndisturbed h =
      let silent = accepted-IsSilent state claim repository requirements h in
      let (known, merged, clean) = terminal_sides silent.terminals in
      let (resolved, attributed, delivered) = pending_sides silent.pending in
      record {
        known = known;
        merged = merged;
        clean = clean;
        anchor = anchored (observed_control state) state repository silent.control;
        in_scope = scoped state repository silent.scope;
        resolved = resolved;
        attributed = attributed;
        delivered = delivered;
        unchanged = unchanged_side silent.fingerprint;
      }

  answer_sides :
      (basis : Option Basis)
      → answer_from state basis ≡ []
      → (state.mutations ≡ [])
        × (b : Basis) × (basis ≡ some b)
        × All
            (λ reference. contains reference state.completed_operation_ids ≡ true)
            b.tool_result_refs
        × ((b.tool_result_refs ≢ []) ⊎ ((b.user_provided_context ≡ true) × (b.observed_files ≡ [])))
  unfolding answer_from
  answer_sides basis h =
      let absent = λ (reference : Text). not (contains reference state.completed_operation_ids) in
      let unknown = select absent (refs_of basis) in
      let unseen = not (is_empty (files_of basis)) && is_empty (refs_of basis) in
      let (h1, cited) =
        append_nil _ (if_push (not (is_empty unknown)) (unknown_references unknown)) h in
      let (h2, uncited) = append_nil _ (if_push unseen answer_without_result) h1 in
      let (mutated, baseless) =
        append_nil (if_push (not (is_empty state.mutations)) answer_after_mutation)
          (if_push (not (has_basis basis)) answer_without_basis) h2 in
      let all_known =
        select-empty absent (refs_of basis)
          (not-false _ (if_push_nil (not (is_empty unknown)) (unknown_references unknown) cited)) in
      let (b, is, sides) =
        basis_sides basis
          (not-false _ (if_push_nil (not (has_basis basis)) answer_without_basis baseless))
          (if_push_nil unseen answer_without_result uncited) in
      (
        is_empty-nil state.mutations
            (if_push_nil (not (is_empty state.mutations)) answer_after_mutation mutated),
        b,
        is,
        All-map (λ reference found. not-false _ found) b.tool_result_refs
            (subst (λ o. All (λ reference. absent reference ≡ false) (refs_of o)) is all_known),
        sides,
      )
    where
      empty_cases :
          (refs files : List Text) (provided : Bool)
          → (not (is_empty refs) || provided) ≡ true
          → (not (is_empty files) && is_empty refs) ≡ false
          → (refs ≢ []) ⊎ ((provided ≡ true) × (files ≡ []))
      empty_cases [] [] provided h k = inr (h, refl)
      empty_cases [] (f ∷ files) provided h k = cc
      empty_cases (r ∷ refs) files provided h k = inl (λ e. cc)

      basis_sides :
          (o : Option Basis)
          → has_basis o ≡ true
          → (not (is_empty (files_of o)) && is_empty (refs_of o)) ≡ false
          → (b : Basis) × (o ≡ some b)
            × ((b.tool_result_refs ≢ [])
                ⊎ ((b.user_provided_context ≡ true) × (b.observed_files ≡ [])))
      basis_sides none h k = cc
      basis_sides (some b) h k =
          (b, refl, empty_cases b.tool_result_refs b.observed_files b.user_provided_context h k)

  -- No answer is accepted in a session that has changed a file; and its basis names completed
  -- operations of the session only: at least one, or else context that the user provided and no
  -- observed file.
  pub accepted-answer :
      (verify_completion state claim repository requirements).accepted ≡ true
      → claim.kind ≡ some answer
      → (state.mutations ≡ [])
        × (b : Basis) × (claim.basis ≡ some b)
        × All
            (λ reference. contains reference state.completed_operation_ids ≡ true)
            b.tool_result_refs
        × ((b.tool_result_refs ≢ []) ⊎ ((b.user_provided_context ≡ true) × (b.observed_files ≡ [])))
  unfolding answer_reasons
  accepted-answer h is_answer = answer_sides claim.basis (
      rw (answer_reasons, is_answer) at
        ((accepted-IsSilent state claim repository requirements h).answer))
