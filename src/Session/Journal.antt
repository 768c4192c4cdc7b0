-- ===== src/Session/Journal.antt =====
-- src/session/operation-journal.ts: one durable record for each operation, in a directory of files.
-- A method takes the files and returns its result with the new ones; an error leaves them alone.
pub mod Records
pub mod Contents
pub mod Resolving
pub mod Finality
pub mod Replay
pub mod Registering
pub mod History
mod Tests
use mathlib.Core.Bool.{decide}
use cope_code.Common.{
  ℕ, ◌≡◌, Bool, true, false, not, ◌&&◌, ◌||◌, Option, none, some, List, [], ◌∷◌, Text, text,
  text_is_eq, text_eq, Eq, ◌==◌, eq_of_discrete, Result, ok, err, ErrorCode, recovery_required,
  duplicate_operation, protocol_invalid, internal_error, budget_exceeded, if◌then◌else◌, fail_if,
  ◌>>=◌, ◌>>◌, leb, ltb, length, last, contains, any, all, starts_with, ◌++◌, nat_is_eq,
}
use cope_code.Protocol.Parser.{byte_length}
use cope_code.Shared.OperationId.{is_journal_operation_id, is_word}

pub data OperationStatus : Type 0 where
  accepted executing completed failed indeterminate : OperationStatus

abbrev pub OperationStatus-discrete : Discrete OperationStatus
OperationStatus-discrete = hlevel

instance abbrev pub operation_status_is_eq : Eq OperationStatus
operation_status_is_eq = eq_of_discrete OperationStatus-discrete

-- A record without its hash: what the hash is taken of.
pub record RecordBase : Type 0 where
  pub session_id : Text
  pub operation_id : Text
  pub tool : Text
  pub mutating : Bool
  pub request_hash : Text
  pub accepted_at : Text
  pub updated_at : Text
  pub status : OperationStatus
  pub outcome : Option Text
  pub safe_result : Option Text

pub record OperationRecord : Type 0 where
  pub base : RecordBase
  pub open base use *
  pub integrity_hash : Text

-- What `load` below makes of a record's file. `faulty` is a file that cannot be read, is empty, too
-- long, partial or no JSON, or whose value has not the fields of a record.
pub data File : Type 0 where
  absent faulty : File
  stored : OperationRecord → File

abbrev pub Files : Type 0
Files = Text → File

unfoldable pub write : Files → Text → File → Files
write files name file = λ k. if k == name then file else files k

pub data RegisterKind : Type 0 where
  new retry_safe replay_completed retry_read_only indeterminate_mutation : RegisterKind

pub record Registered : Type 0 where
  pub kind : RegisterKind
  pub entry : OperationRecord

-- The texts of the files of the directory, which are UTF-8.
abbrev pub Disk : Type 0
Disk = Text → Option Text

unfoldable pub replace : Disk → Text → Text → Disk
replace disk name contents = λ k. if k == name then some contents else disk k

-- What the journal takes from the runtime: SHA-256 of a record's or a request's stable JSON, the
-- test on timestamps (a pattern and `Date.parse`), the stable JSON of a record, and `JSON.parse`
-- with the test on the keys and types of the value.
pub record Runtime : Type 0 where
  pub digest : RecordBase → Text
  pub request_digest : Text → Text
  pub is_iso_timestamp : Text → Bool
  pub stable_json : OperationRecord → Text
  pub json_parse : Text → Option OperationRecord

-- `/^[a-f0-9]{64}$/`
abbrev is_hex_unit : ℕ → Bool
is_hex_unit c = leb b'a' c && leb c b'f' || leb b'0' c && leb c b'9'

unfoldable pub is_hash : Text → Bool
unfolding all
is_hash s = all is_hex_unit s && (leb 64 (length s) && leb (length s) 64)

abbrev is_final : OperationStatus → Bool
is_final status = status == completed || (status == failed || status == indeterminate)

abbrev fits_outcome : Option Text → Bool
fits_outcome none = true
fits_outcome (some outcome) = leb (length outcome) 4096

abbrev is_some {ℓ} : {A : Type ℓ} → Option A → Bool
is_some none = false
is_some (some a) = true

abbrev pub is_newline : Option ℕ → Bool
is_newline none = false
is_newline (some c) = c == b'\n'

module _ (host : Runtime) where
  open host use {digest, request_digest, is_iso_timestamp, stable_json, json_parse}

  -- `isOperationRecord`, on a value that has the fields.
  unfoldable pub is_operation_record : OperationRecord → Bool
  unfolding all is_hash decide
  is_operation_record r =
      (all is_word r.session_id && (leb 8 (length r.session_id) && leb (length r.session_id) 128))
      && (is_journal_operation_id r.operation_id
          && ((leb 1 (length r.tool) && leb (length r.tool) 128)
              && (is_hash r.request_hash
                  && (is_iso_timestamp r.accepted_at
                      && (is_iso_timestamp r.updated_at
                          && (is_hash r.integrity_hash
                              && (fits_outcome r.outcome
                                  && (not (is_final r.status) || is_some r.outcome))))))))

  -- The line that is written.
  abbrev pub serialized : OperationRecord → Text
  serialized r = stable_json r ++ b'\n' ∷ []

  unfoldable pub serialize_record : OperationRecord → Result Text
  serialize_record r = do
    fail_if (not (is_operation_record r)) internal_error
    let line = serialized r
    fail_if (ltb 1_048_576 (byte_length line)) budget_exceeded
    ok line

  -- `!raw.endsWith("\n")` or a byte order mark at the start.
  unfoldable pub is_partial : Text → Bool
  is_partial raw = starts_with (0xFEFF ∷ []) raw || not (is_newline (last raw))

  -- The checks of `readOptional` on the bytes and the text of a file.
  unfoldable pub load : Option Text → File
  load none = absent
  load (some raw) =
      if byte_length raw == 0 || ltb 1_048_576 (byte_length raw)
      then faulty
      else if is_partial raw
      then faulty
      else elim (json_parse raw) [ none ↦ faulty | some r ↦ stored r ]

  abbrev pub loaded : Disk → Files
  loaded disk = λ k. load (disk k)

  module _ (session_id : Text) where
    unfoldable pub read_optional : Files → Text → Result (Option OperationRecord)
    read_optional files id =
        if not (is_journal_operation_id id) then err protocol_invalid else elim (files id) [
          | absent ↦ ok none
          | faulty ↦ err recovery_required
          | stored r ↦
              if not (is_operation_record r)
                || (not (r.session_id == session_id)
                    || (not (r.operation_id == id) || not (digest r.base == r.integrity_hash)))
              then err recovery_required
              else ok (some r)
        ]

    unfoldable pub read : Files → Text → Result OperationRecord
    read files id = read_optional files id >>= λ found. elim found [
      | none ↦ err recovery_required
      | some r ↦ ok r
    ]

    unfoldable pub sealed : RecordBase → OperationRecord
    sealed b = record { base = b; integrity_hash = digest b }

    -- The record that `update` writes: the latest one with its status, time, outcome and result anew.
    unfoldable pub updated :
        OperationRecord → OperationStatus → Text → Option Text → Option Text → OperationRecord
    unfolding sealed
    updated latest status now outcome safe_result = sealed (record latest.base {
      updated_at = now;
      status = status;
      outcome = outcome;
      safe_result = safe_result;
    })

    unfoldable pub update :
        Files
        → OperationRecord
        → OperationStatus
        → Text
        → Option Text
        → Option Text
        → Result (OperationRecord × Files)
    update files r status now outcome safe_result = do
      latest ← read files r.operation_id
      fail_if (not (latest.integrity_hash == r.integrity_hash)) recovery_required
      let u = updated latest status now outcome safe_result
      line ← serialize_record u
      ok (u, write files u.operation_id (stored u))

    abbrev accept : Text → Text → Bool → Text → Text → OperationRecord
    accept id tool mutating request_hash now = sealed (record {
      session_id = session_id;
      operation_id = id;
      tool = tool;
      mutating = mutating;
      request_hash = request_hash;
      accepted_at = now;
      updated_at = now;
      status = accepted;
      outcome = none;
      safe_result = none;
    })

    abbrev with_kind : RegisterKind → OperationRecord × Files → Registered × Files
    with_kind kind (r, files) = (record { kind = kind; entry = r }, files)

    -- The identifier was used for another request, tool or kind of operation.
    unfoldable pub reused : OperationRecord → Text → Bool → Text → Bool
    reused existing tool mutating request_hash =
        not (existing.request_hash == request_hash)
        || (not (existing.tool == tool)
            || (existing.mutating && not mutating || not existing.mutating && mutating))

    -- The branch of `register` where a record exists.
    unfoldable pub register_again :
        Files → OperationRecord → Text → Bool → Text → Text → Result (Registered × Files)
    unfolding decide
    register_again files existing tool mutating request_hash now =
        if reused existing tool mutating request_hash
        then err duplicate_operation
        else if existing.status == completed || existing.status == failed
        then ok (with_kind replay_completed (existing, files))
        else if existing.status == accepted
        then ok (with_kind retry_safe (existing, files))
        else if mutating
        then (do
          u ← update files existing indeterminate now (some (text "uncertain_after_restart")) none
          ok (with_kind indeterminate_mutation u))
        else (do
          u ← update files existing accepted now (some (text "retry_read_only")) none
          ok (with_kind retry_read_only u))

    unfoldable pub register : Files → Text → Text → Bool → Text → Text → Result (Registered × Files)
    register files id tool mutating request now = do
      fail_if (not (is_journal_operation_id id)) protocol_invalid
      let request_hash = request_digest request
      found ← read_optional files id
      elim found [
        | some existing ↦ register_again files existing tool mutating request_hash now
        | none ↦ do
          let r = accept id tool mutating request_hash now
          line ← serialize_record r
          ok (with_kind new (r, write files id (stored r)))
      ]

    abbrev leave :
        Bool
        → Files
        → OperationRecord
        → OperationStatus
        → Text
        → Option Text
        → Option Text
        → Result (OperationRecord × Files)
    leave from files r status now outcome safe_result = do
      fail_if (not from) recovery_required
      update files r status now outcome safe_result

    unfoldable pub mark_executing :
        Files → OperationRecord → Text → Result (OperationRecord × Files)
    unfolding decide
    mark_executing files r now = leave (r.status == accepted) files r executing now none none

    unfoldable pub mark_not_started :
        Files → OperationRecord → Text → Result (OperationRecord × Files)
    unfolding decide
    mark_not_started files r now = leave (r.status == executing) files r accepted now none none

    unfoldable pub mark_completed :
        Files → OperationRecord → Text → Text → Text → Result (OperationRecord × Files)
    unfolding decide
    mark_completed files r now outcome safe_result =
        leave (r.status == executing) files r completed now (some outcome) (some safe_result)

    unfoldable pub mark_failed :
        Files → OperationRecord → Text → Text → Text → Result (OperationRecord × Files)
    unfolding decide
    mark_failed files r now outcome safe_result =
        leave (r.status == executing || r.status == accepted) files r failed now (some outcome)
          (some safe_result)

    unfoldable pub mark_indeterminate :
        Files → OperationRecord → Text → Text → Text → Result (OperationRecord × Files)
    unfolding decide
    mark_indeterminate files r now outcome safe_result =
        leave (r.status == executing || r.status == accepted) files r indeterminate now
          (some outcome) (some safe_result)
