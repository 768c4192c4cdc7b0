-- ===== src/Session/Journal/Tests.antt =====
-- A journal with a small hash, tried on examples.
use cope_code.Protocol.Parser.{byte_length}
use cope_code.Shared.OperationId.{is_journal_operation_id}
use cope_code.Common.{
  last, starts_with, if◌then◌else◌, ◌==◌, nat_is_eq, after, text_eq, ℕ, ◌≡◌, refl, ◌≢◌, ◌⊎◌, inl,
  true, false, Option, none, some, List, [], ◌∷◌, Text, text, ok, arith, text_eq, text_eq_iff, All,
}
use cope_code.Session.Journal.{
  Disk, replace, serialized, loaded, load, is_partial, reused, register_again, serialize_record,
  read, is_operation_record, OperationStatus, accepted, executing, completed, failed, indeterminate,
  RecordBase, OperationRecord, absent, stored, Files, write, Runtime, retry_safe, read_optional,
  update, updated, register, mark_executing,
}
use cope_code.Session.Journal.Contents.{IsJson, read_optional-update}
use cope_code.Session.Journal.Replay.{Answer, register-Answer}
use cope_code.Session.Journal.Resolving.{
  terminal_journal_outcome, is_terminal_metadata, TerminalMetadata, resolve_terminal_completed,
}
use cope_code.Orchestrator.Completion.Types.{ProcessOutcome}
use cope_code.Session.Journal.Finality.{Call, executes, completes, registers, IsGenuine, Collision}
use cope_code.Session.Journal.History.{run, run-final, run-IsLost, IsLost}

-- A hash that tells the statuses apart.
abbrev hash_unit : OperationStatus → ℕ
hash_unit accepted = b'a'
hash_unit executing = b'b'
hash_unit completed = b'c'
hash_unit failed = b'd'
hash_unit indeterminate = b'e'

abbrev repeated : ℕ → ℕ → Text
repeated ℕ.zero c = []
repeated (ℕ.suc n) c = c ∷ repeated n c

abbrev session : Text
session = text "session-1"

abbrev id : Text
id = text "op-1"

abbrev base_with : OperationStatus → Option Text → RecordBase
base_with status outcome = record {
  session_id = session;
  operation_id = id;
  tool = text "write_file";
  mutating = true;
  request_hash = repeated 64 b'0';
  accepted_at = text "t0";
  updated_at = text "t0";
  status = status;
  outcome = outcome;
  safe_result = none;
}

abbrev entry : OperationStatus → Option Text → OperationRecord
entry status outcome = record {
  base = base_with status outcome;
  integrity_hash = repeated 64 (hash_unit status);
}

-- JSON that tells the two statuses of the tests apart.
abbrev parsed : Text → Option OperationRecord
parsed [] = none
parsed (brace ∷ []) = none
parsed (brace ∷ c ∷ rest) =
    if c == b'a'
    then some (entry accepted none)
    else if c == b'b'
    then some (entry executing none)
    else none

abbrev host : Runtime
host = record {
  digest = λ b. repeated 64 (hash_unit b.status);
  request_digest = λ request. repeated 64 b'0';
  is_iso_timestamp = λ t. true;
  stable_json = λ r. b'{' ∷ hash_unit r.status ∷ b'}' ∷ [];
  json_parse = parsed;
}

abbrev known : OperationRecord
known = entry accepted none

abbrev begun : OperationRecord
begun = entry executing none

abbrev ended : OperationRecord
ended = entry completed (some (text "ok"))

abbrev lost : OperationRecord
lost = entry indeterminate (some (text "lost"))

abbrev empty : Files
empty name = absent

abbrev holding : OperationRecord → Files
holding r = write empty id (stored r)

found : read_optional host session (holding known) id ≡ ok (some known)
unfolding read_optional is_journal_operation_id text_eq write is_operation_record
found = refl

abbrev empty_disk : Disk
empty_disk name = none

-- The directory with the line of an accepted operation.
abbrev known_disk : Disk
known_disk = replace empty_disk id (serialized host known)

starts_on_disk :
    update host session (loaded host known_disk) known executing (text "t0") none none
    ≡ ok (begun, write (loaded host known_disk) id (stored begun))
unfolding update read read_optional is_journal_operation_id text_eq write is_operation_record
    serialize_record updated load replace is_partial byte_length starts_with last
starts_on_disk = refl

begun-IsJson : IsJson host session begun
begun-IsJson = record { members = b'b' ∷ b'}' ∷ []; object = refl; parsed = refl }

read_optional-update_example :
    let rewritten = loaded host (replace known_disk id (serialized host begun)) in
    (write (loaded host known_disk) id (stored begun) ≡ rewritten)
    × (read_optional host session rewritten id ≡ ok (some begun))
read_optional-update_example =
    read_optional-update host session known_disk known executing (text "t0") none none begun
      (write (loaded host known_disk) id (stored begun)) begun-IsJson starts_on_disk

answers :
    register host session (holding known) id (text "write_file") true (text "{}") (text "t1")
    ≡ ok (record { kind = retry_safe; entry = known }, holding known)
unfolding register is_journal_operation_id text_eq read_optional write is_operation_record
    register_again reused
answers = refl

register-Answer_example :
    Answer host session
      (holding known)
      known
      (record { kind = retry_safe; entry = known })
      (holding known)
register-Answer_example =
    register-Answer host session (holding known) id (text "write_file") (text "{}") (text "t1")
      known found (record { kind = retry_safe; entry = known }) (holding known) answers

executes_once :
    mark_executing host session (holding known) known (text "t0")
    ≡ ok (begun, write (holding known) id (stored begun))
unfolding mark_executing update read read_optional is_journal_operation_id text_eq write
    is_operation_record serialize_record updated byte_length
executes_once = refl

texts_differ : text_eq begun.integrity_hash known.integrity_hash ≡ false
unfolding text_eq
texts_differ = refl

hashes_differ : begun.integrity_hash ≢ known.integrity_hash
hashes_differ e =
    ground (arith, texts_differ, (text_eq_iff begun.integrity_hash known.integrity_hash).1 e)

abbrev calls : List Call
calls =
    executes known (text "t3")
    ∷ registers id (text "write_file") true (text "{}") (text "t4")
    ∷ completes begun (text "t5") (text "ok") (text "{}")
    ∷ []

holds : (r : OperationRecord) → holding r id ≡ stored r
unfolding write text_eq
holds r = refl

genuine : All (IsGenuine host session) calls
genuine = (refl, (tt, (refl, tt)))

run-final_example :
    (run host session (holding ended) calls id ≡ stored ended) ⊎ Collision host session
run-final_example =
    run-final host session (holding ended) id ended calls (holds ended) (inl refl) genuine

run-IsLost_example :
    ((q : OperationRecord) × (run host session (holding lost) calls id ≡ stored q)
      × IsLost host session q)
    ⊎ Collision host session
run-IsLost_example =
    run-IsLost host session (holding lost) id lost calls (holds lost) (refl, refl) genuine

-- A terminal operation whose result was found after a restart.
abbrev terminal : OperationRecord
terminal = record {
  base = record begun.base { tool = text "terminal_exec" };
  integrity_hash = repeated 64 b'b';
}

abbrev metadata : TerminalMetadata
metadata = record {
  operation_id = id;
  request_hash = repeated 64 b'0';
  terminal_result = record {
    kind = text "terminal-result";
    id = text "op-1.result";
    bytes = 10;
    sha256 = repeated 64 b'a';
  };
  outcome = ProcessOutcome.timed_out;
  exit_code = none;
  signal = some (text "SIGKILL");
  completed_at = some (text "t5");
  duration_ms = 5;
  stdout_bytes = 0;
  stderr_bytes = 0;
  redaction_count = 0;
  changed_files = 0;
  changed_lines = 0;
  json = text "{}";
}

resolves_once :
    after
      (terminal, empty)
      (resolve_terminal_completed host session
        (holding terminal)
        id
        (repeated 64 b'0')
        (text "t6")
        metadata)
    ≡ (
      updated host session terminal completed
          (text "t6")
          (some (text "timeout"))
          (some (text "{}")),
      write (holding terminal) id (
          stored (
            updated host session terminal completed
              (text "t6")
              (some (text "timeout"))
              (some (text "{}")))),
    )
unfolding resolve_terminal_completed is_journal_operation_id text_eq read read_optional write
    is_operation_record is_terminal_metadata terminal_journal_outcome update serialize_record
    updated byte_length
resolves_once = refl
