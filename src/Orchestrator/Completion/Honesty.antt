-- ===== src/Orchestrator/Completion/Honesty.antt =====
-- A claim that is accepted reports what ran, and what was asked.
use cope_code.Common.{
  ◌≡◌, refl, ap, ◌∙◌, true, not, Option, none, some, List, [], ◌∷◌, map, Text, ==_iff, text_is_eq,
  option_is_eq, All, arith, concat_map,
}
use cope_code.Orchestrator.Completion.Types.{
  ValidationRecord, ReportedStatus, reported_is_eq, ClaimedValidation, CompletionClaim,
  SessionState, RepositoryState, Requirements, validation_repeated, validation_not_run,
}
use cope_code.Orchestrator.Completion.Repository.{if_push, is_some}
use cope_code.Orchestrator.Completion.Claims.{
  entry, has_entry, newest_validation_by_command, repeated_claims, claimed_validation,
  expected_status, report_reasons, validation_reasons,
}
use cope_code.Orchestrator.Completion.Gate.{verify_completion}
use cope_code.Orchestrator.Completion.Entries.{
  append_nil, concat_map_nil, if_push_nil, or_else, listed, has_entry-entry, All-entry, newest_of,
  entry-newest_from, claims_on, claims_on-entry,
}
use cope_code.Orchestrator.Completion.Parts.{accepted-IsSilent}

-- The statuses that a truthful claim gives of a command: none if it did not run, else the one of its
-- last outcome.
abbrev pub truthful : Option ValidationRecord → List ReportedStatus
truthful none = []
truthful (some ran) = expected_status ran.outcome ∷ []

pub newest_entry :
    (command : Text) (vs : List ValidationRecord)
    → entry command (newest_validation_by_command vs) ≡ newest_of command vs
unfolding newest_validation_by_command entry
newest_entry command vs = entry-newest_from command [] vs ∙ or_none (newest_of command vs)
  where
    or_none : (o : Option ValidationRecord) → or_else o none ≡ o
    or_none none = refl
    or_none (some v) = refl

-- From the three loops to one command.
module _ (state : SessionState) (claim : CompletionClaim) (command : Text) where
  abbrev latest : List (Text × ValidationRecord)
  latest = newest_validation_by_command state.validations

  abbrev claimed : List (Text × ClaimedValidation)
  claimed = claimed_validation claim

  reported :
      (ran : Option ValidationRecord) (c : Option ClaimedValidation)
      → (entry command latest ≡ ran)
      → (entry command claimed ≡ c)
      → All (λ pair. report_reasons pair.0 pair.1 (entry pair.0 claimed) ≡ []) latest
      → All
          (λ pair. if_push (not (has_entry pair.0 latest)) (validation_not_run pair.0) ≡ [])
          claimed
      → map (λ r. r.status) (listed c) ≡ truthful ran
  reported none none e f all_reported all_ran = refl
  reported none (some c) e f all_reported all_ran =
      let ran_it =
        All-entry (λ pair. if_push (not (has_entry pair.0 latest)) (validation_not_run pair.0) ≡ [])
          command claimed c all_ran f in
      cc (
        ap not (has_entry-entry command latest ∙ ap is_some e),
        if_push_nil (not (has_entry command latest)) (validation_not_run command) ran_it,
      )
  reported (some ran) none e f all_reported all_ran =
      let at_command =
        All-entry (λ pair. report_reasons pair.0 pair.1 (entry pair.0 claimed) ≡ []) command latest
          ran all_reported e in
      cc (rw f at at_command)
  reported (some ran) (some c) e f all_reported all_ran =
      let at_command =
        All-entry (λ pair. report_reasons pair.0 pair.1 (entry pair.0 claimed) ≡ []) command latest
          ran all_reported e in
      ground (arith, rw f at at_command, ==_iff c.status (expected_status ran.outcome))

module _ (state : SessionState) (claim : CompletionClaim) (repository : RepositoryState)
    (requirements : Requirements) where
  -- An accepted claim tells the truth about every command: the statuses that it gives of a command are
  -- none if the command did not run in the session, and else exactly one, passed or failed as the last
  -- run of the command was.
  pub accepted-truthful :
      (verify_completion state claim repository requirements).accepted ≡ true
      → (command : Text)
      → map (λ c. c.status) (claims_on (λ c. c.command_id) command claim.validation)
        ≡ truthful (newest_of command state.validations)
  unfolding validation_reasons claimed_validation entry
  accepted-truthful h command =
      let silent = accepted-IsSilent state claim repository requirements h in
      let latest = newest_validation_by_command state.validations in
      let claimed = claimed_validation claim in
      let (front, all_ran) =
        append_nil _
          (concat_map (λ pair. if_push (not (has_entry pair.0 latest)) (validation_not_run pair.0))
            claimed)
          silent.validation in
      let (once, all_reported) =
        append_nil (repeated_claims (λ c. c.command_id) validation_repeated [] claim.validation)
          (concat_map (λ pair. report_reasons pair.0 pair.1 (entry pair.0 claimed)) latest) front in
      ap (map (λ c. c.status)) (
        claims_on-entry (λ c. c.command_id) validation_repeated command [] claim.validation once
          refl)
      ∙ reported state claim command (newest_of command state.validations)
          (entry command (claimed_validation claim)) (newest_entry command state.validations) refl
          (concat_map_nil (λ pair. report_reasons pair.0 pair.1 (entry pair.0 claimed)) latest
            all_reported)
          (concat_map_nil
            (λ pair. if_push (not (has_entry pair.0 latest)) (validation_not_run pair.0)) claimed
            all_ran)
