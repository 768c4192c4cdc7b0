-- ===== src/Audit/Log.antt =====
-- src/audit/audit-log.ts and src/audit/types.ts. The file is its text; the log object is a record.
pub mod Chain
pub mod Appending
pub mod Once
pub mod Codec
mod Tests
use cope_code.Common.{
  ℕ, ◌+◌, suc, ◌≡◌, Bool, true, false, not, ◌&&◌, ◌||◌, Option, none, some, List, [], ◌∷◌, ◌++◌,
  reverse, Text, text, text_is_eq, nat_is_eq, ◌==◌, Result, ok, err, ErrorCode, recovery_required,
  protocol_invalid, syntax_error, if◌then◌else◌, fail_if, ◌>>=◌, ◌>>◌, leb, length, contains, last,
  is_blank, split,
}
use cope_code.Shared.OperationId.{is_journal_operation_id}

-- `event.data`: its `idempotencyKey` where that is a text, and the rest as JSON.
pub record Payload : Type 0 where
  pub idempotency_key : Option Text
  pub fields : Text

pub record AuditEventInput : Type 0 where
  pub kind : Text
  pub task_id : Text
  pub operation_id : Option Text
  pub turn_id : Option Text
  pub payload : Payload

pub record EventBase : Type 0 where
  pub schema_version : ℕ
  pub sequence : ℕ
  pub session_id : Text
  pub timestamp : Text
  pub previous_hash : Text
  pub input : AuditEventInput
  pub open input use *

pub record AuditEvent : Type 0 where
  pub base : EventBase
  pub open base use *
  pub event_hash : Text

-- What the log takes from the runtime: SHA-256 of an event's stable JSON, `JSON.stringify` of an event
-- and `JSON.parse` of a line, read as an event where it has the fields of one.
pub record Runtime : Type 0 where
  pub digest : EventBase → Text
  pub print : AuditEvent → Text
  pub parse : Text → Option AuditEvent

abbrev pub zeros : ℕ → Text
zeros ℕ.zero = []
zeros (suc n) = b'0' ∷ zeros n

abbrev pub genesis_hash : Text
genesis_hash = zeros 64

abbrev pub audit_event_types : List Text
audit_event_types =
    text "session.created"
    ∷ text "session.transition"
    ∷ text "grant.established"
    ∷ text "transport.state"
    ∷ text "model.submission"
    ∷ text "model.response"
    ∷ text "protocol.error"
    ∷ text "protocol.normalized"
    ∷ text "tool.requested"
    ∷ text "policy.decision"
    ∷ text "tool.completed"
    ∷ text "mutation.completed"
    ∷ text "command.completed"
    ∷ text "checkpoint.created"
    ∷ text "checkpoint.rolled_back"
    ∷ text "disclosure.recorded"
    ∷ text "capability.requested"
    ∷ text "capability.decided"
    ∷ text "user.requested"
    ∷ text "user.decided"
    ∷ text "user.decision_replayed"
    ∷ text "completion.claimed"
    ∷ text "completion.verified"
    ∷ text "session.recovered"
    ∷ text "session.ended"
    ∷ []

pub record AuditLog : Type 0 where
  pub sequence : ℕ
  pub previous_hash : Text
  pub initialized : Bool
  pub idempotency_keys : List Text

abbrev pub fresh : AuditLog
fresh = record {
  sequence = 0;
  previous_hash = genesis_hash;
  initialized = false;
  idempotency_keys = [];
}

-- An optional operation identifier is absent or in the journal's namespaces.
unfoldable pub names_operation : Option Text → Bool
names_operation none = true
names_operation (some id) = is_journal_operation_id id

-- All but the last piece of a split text.
unfoldable pub init : List Text → List Text
init [] = []
init (x ∷ []) = []
init (x ∷ y ∷ ys) = x ∷ init (y ∷ ys)

-- `lines.at(-1) !== ""`.
unfoldable pub ends_open : List Text → Bool
unfolding last
ends_open lines = elim (last lines) [ none ↦ true | some line ↦ not (line == []) ]

abbrev pub add_key : Option Text → List Text → List Text
add_key none keys = keys
add_key (some key) keys = key ∷ keys

unfoldable pub keys_of : List AuditEvent → List Text → List Text
keys_of [] keys = keys
keys_of (e ∷ es) keys = keys_of es (add_key e.payload.idempotency_key keys)

module _ (host : Runtime) (session_id : Text) where
  open host use {digest, print, parse}

  unfoldable pub inconsistent : ℕ → Text → AuditEvent → Bool
  inconsistent expected previous e =
      not (e.schema_version == 1)
      || (not (e.session_id == session_id)
          || (not (e.sequence == expected)
              || (not (e.previous_hash == previous)
                  || (not (contains e.kind audit_event_types)
                      || not (names_operation e.operation_id)))))

  -- The loop of `verifyAuditText`: the events and the last hash.
  unfoldable pub verify_from : ℕ → Text → List Text → Result (List AuditEvent × Text)
  verify_from expected previous [] = ok ([], previous)
  verify_from expected previous (line ∷ lines) = do
    fail_if (is_blank line) recovery_required
    elim (parse line) [
      | none ↦ err syntax_error
      | some e ↦ do
        fail_if (inconsistent expected previous e) recovery_required
        fail_if (not (e.event_hash == digest e.base)) recovery_required
        rest ← verify_from (expected + 1) e.event_hash lines
        ok (e ∷ rest.0, rest.1)
    ]

  unfoldable pub verify_audit_text : Text → Result (List AuditEvent × Text)
  verify_audit_text content = do
    let lines = split 10 content
    fail_if (ends_open lines) recovery_required
    verify_from 1 genesis_hash (init lines)

  unfoldable pub initialize : AuditLog → Text → Result AuditLog
  initialize log content = if log.initialized then ok log else elim (leb 1 (length content)) [
    | false ↦ ok (record log { initialized = true })
    | true ↦ do
      verification ← verify_audit_text content
      ok (record {
        sequence = length verification.0;
        previous_hash = verification.1;
        initialized = true;
        idempotency_keys = keys_of verification.0 log.idempotency_keys;
      })
  ]

  abbrev event_of : AuditLog → Text → AuditEventInput → AuditEvent
  event_of log now input = record { base = base; event_hash = digest base }
    where
      base : EventBase
      base = record {
        schema_version = 1;
        sequence = log.sequence + 1;
        session_id = session_id;
        timestamp = now;
        previous_hash = log.previous_hash;
        input = input;
      }

  -- The log and the file after an append, and the event.
  unfoldable pub append :
      AuditLog → Text → Text → AuditEventInput → Result (AuditEvent × AuditLog × Text)
  append before content now input = do
    log ← initialize before content
    fail_if (not (names_operation input.operation_id)) protocol_invalid
    let e = event_of log now input
    ok (
      e,
      record log {
        sequence = e.sequence;
        previous_hash = e.event_hash;
        idempotency_keys = add_key input.payload.idempotency_key log.idempotency_keys;
      },
      content ++ (print e ++ 10 ∷ []),
    )

  -- `undefined` where the key was used: nothing is written.
  unfoldable pub append_once :
      AuditLog → Text → Text → AuditEventInput → Text → Result (Option AuditEvent × AuditLog × Text)
  append_once before content now input key = do
    log ← initialize before content
    elim (contains key log.idempotency_keys) [
      | true ↦ ok (none, log, content)
      | false ↦ do
        done ←
            append log content now
              (record input { payload = record input.payload { idempotency_key = some key } })
        ok (some done.0, done.1, done.2)
    ]
