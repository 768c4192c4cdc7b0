-- ===== src/Audit/Log/Tests.antt =====
-- A log of three events, with the printer of `Codec`.
use cope_code.Shared.OperationId.{is_journal_operation_id}
use cope_code.Common.{
  split, is_space, is_blank, text_eq, ◌≡◌, refl, ◌⊎◌, true, false, none, some, List, [], ◌∷◌, ◌++◌,
  map, Text, text, text_is_eq, ok, contains,
}
use cope_code.Audit.Log.{
  init, ends_open, verify_audit_text, AuditLog, AuditEventInput, AuditEvent, fresh, verify_from,
  append, append_once, genesis_hash, inconsistent, audit_event_types, names_operation, keys_of,
}
use cope_code.Audit.Log.Chain.{Genesis, verify_audit_text_unique, IsChain, file_of, Collision}
use cope_code.Audit.Log.Appending.{Holds, standing, next_event, append_lem}
use cope_code.Audit.Log.Once.{keyed, append_once_twice, Call, appends, appends_once, restarts, run}
use cope_code.Audit.Log.Codec.{codec, codec_print, codec_parse, codec-PrintsLines}

abbrev session : Text
session = text "session-1"

abbrev created : AuditEventInput
created = record {
  kind = text "session.created";
  task_id = text "t";
  operation_id = none;
  turn_id = none;
  payload = record { idempotency_key = none; fields = text "{}" };
}

abbrev requested : AuditEventInput
requested = record {
  kind = text "tool.requested";
  task_id = text "t";
  operation_id = some (text "op-1");
  turn_id = none;
  payload = record { idempotency_key = none; fields = text "{}" };
}

abbrev first : AuditEvent
first = next_event codec session [] genesis_hash (text "T0") created

abbrev events : List AuditEvent
events = first ∷ []

first_links : inconsistent codec session 1 genesis_hash first ≡ false
unfolding inconsistent text_eq contains names_operation
first_links = refl

chain : IsChain codec session 1 genesis_hash events first.event_hash
chain = (first_links, refl, refl)

no_lines : verify_from codec session 1 genesis_hash [] ≡ ok ([], genesis_hash)
unfolding verify_from
no_lines = refl

verified :
    verify_from codec session 1 genesis_hash (map codec_print events)
    ≡ ok (events, first.event_hash)
unfolding verify_from is_blank is_space codec_parse inconsistent text_eq contains names_operation
verified = refl

holds : Holds codec session fresh (file_of codec session events) events
holds = record {
  final = first.event_hash;
  stored = refl;
  chain = chain;
  at_end = λ e. cc;
  unread = λ e. refl;
}

requested_typed : contains requested.kind audit_event_types ≡ true
unfolding contains text_eq
requested_typed = refl

requested_named : names_operation requested.operation_id ≡ true
unfolding names_operation is_journal_operation_id text_eq
requested_named = refl

key_unused : contains (text "k") (keys_of events []) ≡ false
unfolding contains keys_of
key_unused = refl

abbrev second : AuditEvent
second = next_event codec session events first.event_hash (text "T1") requested

append_lem_example :
    (append codec session fresh (file_of codec session events) (text "T1") requested
      ≡ ok (
        second,
        standing codec session (events ++ second ∷ []) second.event_hash,
        file_of codec session (events ++ second ∷ []),
      ))
    × IsChain codec session 1 genesis_hash (events ++ second ∷ []) second.event_hash
unfolding holds
append_lem_example =
    append_lem codec session (codec-PrintsLines session) fresh (file_of codec session events)
      (text "T1") requested events holds requested_typed requested_named

abbrev once : AuditEvent
once =
    next_event codec session events first.event_hash (text "T1")
      (keyed codec session requested (text "k"))

-- Another append, a restart, and a call with another key.
abbrev later_calls : List Call
later_calls =
    appends (text "T2") created ∷ restarts ∷ appends_once (text "T3") requested (text "l") ∷ []

created_typed : contains created.kind audit_event_types ≡ true
unfolding contains text_eq
created_typed = refl

append_once_twice_example :
    let file = file_of codec session (events ++ once ∷ []) in
    let later = standing codec session (events ++ once ∷ []) once.event_hash in
    let (log', content') = run codec session (later, file) later_calls in
    (append_once codec session fresh (file_of codec session events) (text "T1") requested (text "k")
      ≡ ok (some once, later, file))
    × ((last : AuditLog) × (append_once codec session log' content' (text "T4") created (text "k")
          ≡ ok (none, last, content')))
unfolding holds
append_once_twice_example =
    append_once_twice codec session (codec-PrintsLines session) fresh (file_of codec session events)
      (text "T1") (text "T4") (text "k") requested created events later_calls holds requested_typed
      requested_named key_unused (created_typed, (tt, (requested_typed, tt)))

-- The codec does not look at the first unit of a line: two files with the same event.
abbrev rewritten : Text → Text
rewritten [] = []
rewritten (c ∷ s) = b'F' ∷ s

verifies :
    verify_audit_text codec session (file_of codec session events) ≡ ok (events, first.event_hash)
unfolding verify_audit_text ends_open split text_eq verify_from init is_blank is_space codec_parse
    inconsistent contains names_operation
verifies = refl

verifies_rewritten :
    verify_audit_text codec session (rewritten (file_of codec session events))
    ≡ ok (events, first.event_hash)
unfolding verify_audit_text ends_open split text_eq verify_from init is_blank is_space codec_parse
    inconsistent contains names_operation
verifies_rewritten = refl

verify_audit_text_unique_example :
    (events ≡ events) ⊎ Collision codec session ⊎ Genesis codec session
verify_audit_text_unique_example =
    verify_audit_text_unique codec session (file_of codec session events)
      (rewritten (file_of codec session events)) events events first.event_hash verifies
      verifies_rewritten
