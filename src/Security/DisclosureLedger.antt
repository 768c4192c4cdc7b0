-- ===== src/Security/DisclosureLedger.antt =====
-- src/security/disclosure-ledger.ts. The file is its text, or `none` before there is one.
pub mod Chain
pub mod Codec
mod Tests
use cope_code.Common.{
  ℕ, ◌≡◌, Bool, true, false, not, ◌&&◌, ◌||◌, Option, none, some, List, [], ◌∷◌, ◌++◌, map, reverse,
  Text, text, text_is_eq, option_is_eq, ◌==◌, if◌then◌else◌, last, split, nat_eq, Result, ok, err,
  ErrorCode, recovery_required, fail_if, ◌>>=◌, ◌>>◌, Eq, eq_of_discrete,
}
use mathlib.Core.Option.{get_or}
use cope_code.Protocol.Parser.{byte_length}
use cope_code.Security.Secrets.{SecretFinding, SafeFinding, safe_finding}

pub data Source : Type 0 where
  repository_file repository_search command_output tool_result : Source

pub record DisclosureRecordInput : Type 0 where
  pub operation_id : Text
  pub source : Source
  pub content : Text
  pub original_byte_count : ℕ
  pub path : Option Text
  pub findings : List SecretFinding
  pub disclosed : Option Bool
  pub classification : Option Text

-- A record without its hash. The version is a constant.
pub record DisclosureBody : Type 0 where
  pub id : Text
  pub session_id : Text
  pub operation_id : Text
  pub timestamp : Text
  pub source : Source
  pub path : Option Text
  pub classification : Text
  pub disclosed : Bool
  pub original_byte_count : ℕ
  pub disclosed_byte_count : ℕ
  pub disclosed_sha256 : Text
  pub redactions : List SafeFinding
  pub previous_record_hash : Option Text

pub record DisclosureRecord : Type 0 where
  pub body : DisclosureBody
  pub open body use *
  pub record_hash : Text

-- The hash of a text and of a body's stable JSON, the JSON of a record, `JSON.parse` of a line with
-- `isDisclosureRecord`, and `appendFile`: the file afterwards, and whether it threw.
pub record Host : Type 0 where
  pub sha256 : Text → Text
  pub digest : DisclosureBody → Text
  pub print : DisclosureRecord → Text
  pub parse : Text → Option DisclosureRecord
  pub append_file : Option Text → Text → Option Text × Result {0} Unit

-- `failed` is the rejection that the chain of writes keeps.
pub record Ledger : Type 0 where
  pub session_id : Text
  pub writes_file : Bool
  pub entries : List DisclosureRecord
  pub failed : Option ErrorCode
  pub file : Option Text

abbrev pub last_hash : Option DisclosureRecord → Option Text
last_hash none = none
last_hash (some r) = some r.record_hash

-- All pieces but the last are followed by a separator, whose `\r` is no part of them.
abbrev pub without_return : Text → Text
without_return [] = []
without_return (c ∷ s) = if nat_eq c 13 then reverse s else reverse (c ∷ s)

abbrev pub strip_return : Text → Text
strip_return line = without_return (reverse line)

unfoldable pub strip_returns : List Text → List Text
strip_returns [] = []
strip_returns (line ∷ []) = line ∷ []
strip_returns (line ∷ next ∷ lines) = strip_return line ∷ strip_returns (next ∷ lines)

-- `raw.split(/\r?\n/u)`
unfoldable pub split_lines : Text → List Text
unfolding strip_returns split
split_lines raw = strip_returns (split 10 raw)

-- `raw.endsWith("\n")`, and `raw.slice(0, -1)`.
abbrev pub before_end : Text → Option Text
before_end [] = none
before_end (c ∷ s) = if nat_eq c 10 then some (reverse s) else none

abbrev pub without_end : Text → Option Text
without_end raw = before_end (reverse raw)

module _ (host : Host) where
  open host use {sha256, digest, print, parse, append_file}

  unfoldable pub body_of : Ledger → Text → Text → DisclosureRecordInput → DisclosureBody
  unfolding last safe_finding
  body_of l id now input = record {
    id = id;
    session_id = l.session_id;
    operation_id = input.operation_id;
    timestamp = now;
    source = input.source;
    path = input.path;
    classification = get_or input.classification (text "unclassified");
    disclosed = get_or input.disclosed true;
    original_byte_count = input.original_byte_count;
    disclosed_byte_count = byte_length input.content;
    disclosed_sha256 = sha256 input.content;
    redactions = map safe_finding input.findings;
    previous_record_hash = last_hash (last l.entries);
  }

  abbrev pub record_of : Ledger → Text → Text → DisclosureRecordInput → DisclosureRecord
  record_of l id now input = record {
    body = body_of l id now input;
    record_hash = digest (body_of l id now input);
  }

  abbrev pub pushed : Ledger → DisclosureRecord → Ledger × Result DisclosureRecord
  pushed l r = (record l { entries = l.entries ++ r ∷ [] }, ok r)

  abbrev pub settled :
      Ledger → DisclosureRecord → Option Text × Result {0} Unit → Ledger × Result DisclosureRecord
  settled l r (file, ok done) = pushed (record l { file = file }) r
  settled l r (file, err e) = (record l { file = file; failed = some e }, err e)

  abbrev pub recorded :
      Ledger → DisclosureRecord → Option ErrorCode → Ledger × Result DisclosureRecord
  recorded l r (some e) = (l, err e)
  recorded l r none =
      if l.writes_file then settled l r (append_file l.file (print r ++ 10 ∷ [])) else pushed l r

  -- The method `record`.
  unfoldable pub record_disclosure :
      Ledger → Text → Text → DisclosureRecordInput → Ledger × Result DisclosureRecord
  unfolding body_of
  record_disclosure l id now input = recorded l (record_of l id now input) l.failed

  -- `verifyRecords`.
  unfoldable pub verify_from : Option Text → List DisclosureRecord → Bool
  verify_from previous [] = true
  verify_from previous (r ∷ rs) =
      (r.previous_record_hash == previous && digest r.body == r.record_hash)
      && verify_from (some r.record_hash) rs

  unfoldable pub verify_integrity : Ledger → Bool
  verify_integrity l = verify_from none l.entries

  unfoldable pub read_records : Text → List Text → Result (List DisclosureRecord)
  read_records session_id [] = ok []
  read_records session_id (line ∷ lines) = do
    fail_if (line == []) recovery_required
    elim (parse line) [
      | none ↦ err recovery_required
      | some r ↦ do
        fail_if (not (r.session_id == session_id)) recovery_required
        rest ← read_records session_id lines
        ok (r ∷ rest)
    ]

  unfoldable pub hydrated : Text → Option Text → Result (List DisclosureRecord)
  unfolding split_lines
  hydrated session_id none = err recovery_required
  hydrated session_id (some raw) = do
    records ← read_records session_id (split_lines raw)
    fail_if (not (verify_from none records)) recovery_required
    ok records

  -- `hydrateExisting`, for the file that there is.
  unfoldable pub hydrate_existing : Text → Option Text → Result (List DisclosureRecord)
  unfolding hydrated
  hydrate_existing session_id none = ok []
  hydrate_existing session_id (some []) = ok []
  hydrate_existing session_id (some (c ∷ raw)) = hydrated session_id (without_end (c ∷ raw))

  unfoldable pub read_lenient : List Text → Option (List DisclosureRecord)
  read_lenient [] = some []
  read_lenient (line ∷ lines) =
      let later = read_lenient lines in
      if line == [] then later else elim (parse line) [
        | none ↦ none
        | some r ↦ elim later [ none ↦ none | some rs ↦ some (r ∷ rs) ]
      ]

  unfoldable pub verify_file : Text → Bool
  unfolding split_lines
  verify_file raw = elim (read_lenient (split_lines raw)) [
    | none ↦ false
    | some records ↦ verify_from none records
  ]
