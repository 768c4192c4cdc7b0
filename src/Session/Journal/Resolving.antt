-- ===== src/Session/Journal/Resolving.antt =====
-- resolveTerminalCompleted of src/session/operation-journal.ts, with the checks on a recovered result
-- in src/session/terminal-artifacts.ts and artifact-store.ts.
use mathlib.Core.Bool.{decide}
use cope_code.Common.{
  ℕ, ◌≡◌, Bool, true, false, not, ◌&&◌, ◌||◌, Option, none, some, List, [], ◌∷◌, Text, text,
  text_is_eq, ◌==◌, leb, nat_eq, length, all, contains, max_safe, Result, ok, err,
  recovery_required, protocol_invalid, fail_if, ◌>>=◌, ◌>>◌, >>=-eq-ok, then_ok, starts_with, drop,
  ==_iff, text_eq_iff, arith,
}
use cope_code.Shared.OperationId.{is_journal_operation_id, is_word}
use cope_code.Orchestrator.Completion.Types.{ProcessOutcome}
use cope_code.Session.Journal.{
  executing, completed, operation_status_is_eq, OperationRecord, Files, Runtime, is_hash, read,
  update,
}

pub record ArtifactReference : Type 0 where
  pub kind : Text
  pub id : Text
  pub bytes : ℕ
  pub sha256 : Text

-- The metadata of a recovered result, where it has the fields with values of their types: an object
-- with others is refused as one that fails the checks below. `completed_at` is `none` for a text that
-- is no exact ISO time, and `json` is the object's text, which the record keeps. The disclosure and
-- the mutation outcome have no other check than their types.
pub record TerminalMetadata : Type 0 where
  pub operation_id : Text
  pub request_hash : Text
  pub terminal_result : ArtifactReference
  pub outcome : ProcessOutcome
  pub exit_code : Option ℕ
  pub signal : Option Text
  pub completed_at : Option Text
  pub duration_ms : ℕ
  pub stdout_bytes : ℕ
  pub stderr_bytes : ℕ
  pub redaction_count : ℕ
  pub changed_files : ℕ
  pub changed_lines : ℕ
  pub json : Text

-- `[A-Za-z0-9._-]{3,160}`
abbrev is_artifact_unit : ℕ → Bool
is_artifact_unit c = is_word c || nat_eq c b'.'

abbrev pub artifact_kinds : List Text
artifact_kinds =
    text "outbox"
    ∷ text "response"
    ∷ text "response-capture"
    ∷ text "decision"
    ∷ text "terminal-request"
    ∷ text "terminal-pre-observation"
    ∷ text "terminal-launch-receipt"
    ∷ text "terminal-exit-receipt"
    ∷ text "terminal-post-observation"
    ∷ text "terminal-result"
    ∷ []

unfoldable pub is_artifact_reference : ArtifactReference → Bool
unfolding all is_hash is_word contains
is_artifact_reference reference =
    contains reference.kind artifact_kinds
    && (all is_artifact_unit reference.id
        && (leb 3 (length reference.id)
            && (leb (length reference.id) 160
                && (leb reference.bytes 8_388_608 && is_hash reference.sha256))))

abbrev is_exit_code : Option ℕ → Bool
is_exit_code none = true
is_exit_code (some code) = leb code max_safe

-- `[A-Z0-9]`
abbrev is_signal_unit : ℕ → Bool
is_signal_unit c = leb b'A' c && leb c b'Z' || leb b'0' c && leb c b'9'

unfoldable pub is_signal : Option Text → Bool
unfolding all starts_with drop
is_signal none = true
is_signal (some signal) =
    leb (length signal) 32
    && (starts_with (text "SIG") signal
        && (leb 4 (length signal) && all is_signal_unit (drop 3 signal)))

abbrev is_present : Option Text → Bool
is_present none = false
is_present (some s) = true

-- `isTerminalJournalResultMetadata`.
unfoldable pub is_terminal_metadata : TerminalMetadata → Bool
unfolding is_hash is_artifact_reference is_signal
is_terminal_metadata m =
    is_journal_operation_id m.operation_id
    && (is_hash m.request_hash
        && (is_artifact_reference m.terminal_result
            && (m.terminal_result.kind == text "terminal-result"
                && (is_exit_code m.exit_code
                    && (is_signal m.signal
                        && (is_present m.completed_at
                            && (leb m.duration_ms max_safe
                                && (leb m.stdout_bytes max_safe
                                    && (leb m.stderr_bytes max_safe
                                        && (leb m.redaction_count max_safe
                                            && (leb m.changed_files max_safe
                                                && leb m.changed_lines max_safe)))))))))))

unfoldable pub terminal_journal_outcome : ProcessOutcome → Result Text
terminal_journal_outcome ProcessOutcome.completed = ok (text "success")
terminal_journal_outcome ProcessOutcome.completed_nonzero = ok (text "failure")
terminal_journal_outcome ProcessOutcome.spawn_failed = ok (text "failure")
terminal_journal_outcome ProcessOutcome.timed_out = ok (text "timeout")
terminal_journal_outcome ProcessOutcome.cancelled = ok (text "cancelled")
terminal_journal_outcome ProcessOutcome.indeterminate = ok (text "indeterminate")
terminal_journal_outcome ProcessOutcome.persistence_failed = err recovery_required

module _ (host : Runtime) (session_id : Text) where
  -- The guard of `resolveTerminalCompleted`.
  unfoldable pub is_unmatched : OperationRecord → Text → Text → TerminalMetadata → Bool
  unfolding decide
  is_unmatched r id request_hash m =
      not (r.status == executing)
      || (not (r.tool == text "terminal_exec")
          || (not r.mutating
              || (not (r.request_hash == request_hash)
                  || (not (is_terminal_metadata m)
                      || (not (m.operation_id == id) || not (m.request_hash == request_hash))))))

  unfoldable pub resolve_terminal_completed :
      Files → Text → Text → Text → TerminalMetadata → Result (OperationRecord × Files)
  unfolding is_unmatched
  resolve_terminal_completed files id request_hash now m = do
    fail_if (not (is_journal_operation_id id)) protocol_invalid
    r ← read host session_id files id
    fail_if (is_unmatched r id request_hash m) recovery_required
    outcome ← terminal_journal_outcome m.outcome
    update host session_id files r completed now (some outcome) (some m.json)

  -- A successful call has found an executing record of the request, and updates it.
  pub record Resolved (files : Files) (id request_hash now : Text) (m : TerminalMetadata)
      (u : OperationRecord) (later : Files) (r : OperationRecord) : Type 0 where
    pub found : read host session_id files id ≡ ok r
    pub executed : r.status ≡ executing
    pub writes : r.mutating ≡ true
    pub requested : r.request_hash ≡ request_hash
    pub bound : m.request_hash ≡ request_hash
    pub outcome : Text
    pub done :
        update host session_id files r completed now (some outcome) (some m.json) ≡ ok (u, later)

  pub resolve_terminal_completed-Resolved :
      (files : Files) (id request_hash now : Text) (m : TerminalMetadata) (u : OperationRecord)
      (later : Files)
      → resolve_terminal_completed files id request_hash now m ≡ ok (u, later)
      → (r : OperationRecord) × Resolved files id request_hash now m u later r
  unfolding resolve_terminal_completed
  resolve_terminal_completed-Resolved files id request_hash now m u later h =
      let (_, after_id) = then_ok (not (is_journal_operation_id id)) protocol_invalid _ _ h in
      let (r, found, after_read) = >>=-eq-ok (read host session_id files id) _ after_id in
      let (matched, after_guard) =
        then_ok (is_unmatched r id request_hash m) recovery_required _ _ after_read in
      let (outcome, _, done) = >>=-eq-ok (terminal_journal_outcome m.outcome) _ after_guard in
      (
        r,
        record {
          found = found;
          executed = ground (arith, ==_iff r.status executing);
          writes = ground arith;
          requested = ground (arith, text_eq_iff r.request_hash request_hash);
          bound = ground (arith, text_eq_iff m.request_hash request_hash);
          outcome = outcome;
          done = done;
        },
      )
