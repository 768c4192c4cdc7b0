-- ===== src/Audit/Log/Once.antt =====
-- `appendOnce`: a key is written at most once, across restarts too.
use cope_code.Common.{
  All, Bool-cases, inl, inr, Option, Result, err, protocol_invalid, ◌≡◌, refl, true, false, none,
  some, List, [], ◌∷◌, ◌++◌, Text, text_is_eq, ok, contains, arith, text_eq_iff,
}
use cope_code.Audit.Log.{
  AuditEventInput, AuditEvent, AuditLog, fresh, Runtime, genesis_hash, initialize, append,
  append_once, add_key, keys_of, names_operation, audit_event_types,
}
use cope_code.Audit.Log.Chain.{IsChain, PrintsLines, file_of}
use cope_code.Audit.Log.Appending.{
  Holds, standing, next_event, append_lem, initialize_held, keys_of-snoc,
}

-- Calls of the log, and a restart of the process.
pub data Call : Type 0 where
  appends : Text → AuditEventInput → Call
  appends_once : Text → AuditEventInput → Text → Call
  restarts : Call

-- The type of an event is one of the list, as the type checker of the source demands.
abbrev pub IsTyped : Call → Type 0
IsTyped (appends now input) = contains input.kind audit_event_types ≡ true
IsTyped (appends_once now input key) = contains input.kind audit_event_types ≡ true
IsTyped restarts = Unit

module _ (host : Runtime) (session_id : Text) where
  open host use {digest, print, parse}

  -- The input with the key in its data.
  abbrev pub keyed : AuditEventInput → Text → AuditEventInput
  keyed input key = record input { payload = record input.payload { idempotency_key = some key } }

  standing-Holds :
      (es : List AuditEvent) (final : Text)
      → IsChain host session_id 1 genesis_hash es final
      → Holds host session_id (standing host session_id es final) (file_of host session_id es) es
  standing-Holds es final c = record {
    final = final;
    stored = refl;
    chain = c;
    at_end = λ _. (refl, refl, refl);
    unread = λ e. cc;
  }

  once_used :
      (log later : AuditLog) (content now key : Text) (input : AuditEventInput)
      → initialize host session_id log content ≡ ok later
      → contains key later.idempotency_keys ≡ true
      → append_once host session_id log content now input key ≡ ok (none, later, content)
  unfolding append_once
  once_used log later content now key input read used = ground arith

  once_new :
      (log later : AuditLog) (content now key : Text) (input : AuditEventInput)
      → initialize host session_id log content ≡ ok later
      → contains key later.idempotency_keys ≡ false
      → {e : AuditEvent} {last : AuditLog} {file : Text}
      → append host session_id later content now (keyed input key) ≡ ok (e, last, file)
      → append_once host session_id log content now input key ≡ ok (some e, last, file)
  unfolding append_once
  once_new log later content now key input read unused appended = ground arith

  contains_first : (key : Text) (keys : List Text) → contains key (key ∷ keys) ≡ true
  unfolding contains
  contains_first key keys = rw ((text_eq_iff key key).1 refl) refl

  abbrev after_call {ℓ} :
      {A : Type ℓ} → AuditLog × Text → Result (A × AuditLog × Text) → AuditLog × Text
  after_call state (ok (e, log, content)) = (log, content)
  after_call state (err e) = state

  -- The log object and its file after a call; one that throws leaves both.
  unfoldable pub perform : AuditLog × Text → Call → AuditLog × Text
  perform (log, content) (appends now input) =
      after_call (log, content) (append host session_id log content now input)
  perform (log, content) (appends_once now input key) =
      after_call (log, content) (append_once host session_id log content now input key)
  perform (log, content) restarts = (fresh, content)

  unfoldable pub run : AuditLog × Text → List Call → AuditLog × Text
  run state [] = state
  run state (call ∷ calls) = run (perform state call) calls

  -- The log is in good order, and its file has an event with the key.
  abbrev Remembers : Text → AuditLog × Text → Type 0
  Remembers key (log, content) =
      (es : List AuditEvent) × Holds host session_id log content es
      × (contains key (keys_of es []) ≡ true)

  Holds-standing :
      (log : AuditLog) (content : Text) (es : List AuditEvent)
      (h : Holds host session_id log content es)
      → Holds host session_id (standing host session_id es h.final) content es
  Holds-standing log content es h = record {
    final = h.final;
    stored = h.stored;
    chain = h.chain;
    at_end = λ _. (refl, refl, refl);
    unread = λ e. cc;
  }

  Holds-fresh :
      (log : AuditLog) (content : Text) (es : List AuditEvent)
      (h : Holds host session_id log content es)
      → Holds host session_id fresh content es
  Holds-fresh log content es h = record {
    final = h.final;
    stored = h.stored;
    chain = h.chain;
    at_end = λ e. cc;
    unread = λ _. refl;
  }

  contains-add_key :
      (key : Text) (o : Option Text) (keys : List Text)
      → contains key keys ≡ true
      → contains key (add_key o keys) ≡ true
  unfolding contains
  contains-add_key key none keys h = h
  contains-add_key key (some k) keys h = ground arith

  append_unnamed :
      (log : AuditLog) (content now : Text) (input : AuditEventInput) (later : AuditLog)
      → initialize host session_id log content ≡ ok later
      → names_operation input.operation_id ≡ false
      → append host session_id log content now input ≡ err protocol_invalid
  unfolding append
  append_unnamed log content now input later read unnamed = rw (read, unnamed) refl

  once_unnamed :
      (log : AuditLog) (content now key : Text) (input : AuditEventInput) (later : AuditLog)
      → initialize host session_id log content ≡ ok later
      → contains key later.idempotency_keys ≡ false
      → append host session_id later content now (keyed input key) ≡ err protocol_invalid
      → append_once host session_id log content now input key ≡ err protocol_invalid
  unfolding append_once
  once_unnamed log content now key input later read unused failed = ground arith

  module _ (prints : PrintsLines host session_id) where
    -- An append to a log that remembers a key.
    append-Remembers :
        (key : Text) (log : AuditLog) (content now : Text) (input : AuditEventInput)
        → contains input.kind audit_event_types ≡ true
        → Remembers key (log, content)
        → Remembers key (after_call (log, content) (append host session_id log content now input))
    append-Remembers key log content now input typed (es, h, has) =
        elim (Bool-cases (names_operation input.operation_id)) [
          | inr unnamed ↦
              rw
                (append_unnamed log content now input (standing host session_id es h.final)
                  (initialize_held host session_id prints log content es h) unnamed)
                (es, h, has)
          | inl named ↦
              let (appended, chain) =
                append_lem host session_id prints log content now input es h typed named in
              let e = next_event host session_id es h.final now input in
              rw appended (
                es ++ e ∷ [],
                standing-Holds (es ++ e ∷ []) e.event_hash chain,
                rw (keys_of-snoc es e [])
                    (contains-add_key key e.payload.idempotency_key (keys_of es []) has),
              )
        ]

    once-Remembers :
        (key : Text) (log : AuditLog) (content now : Text) (input : AuditEventInput) (other : Text)
        → contains input.kind audit_event_types ≡ true
        → Remembers key (log, content)
        → Remembers key
            (after_call (log, content) (append_once host session_id log content now input other))
    unfolding Holds-standing
    once-Remembers key log content now input other typed (es, h, has) =
        let begun = standing host session_id es h.final in
        let read = initialize_held host session_id prints log content es h in
        let begun_h = Holds-standing log content es h in
        elim (Bool-cases (contains other begun.idempotency_keys)) [
          | inl used ↦ rw (once_used log begun content now other input read used) (es, begun_h, has)
          | inr unused ↦ elim (Bool-cases (names_operation input.operation_id)) [
            | inr unnamed ↦
                rw
                  (once_unnamed log content now other input begun read unused (
                    append_unnamed begun content now (keyed input other) begun
                      (initialize_held host session_id prints begun content es begun_h) unnamed))
                  (es, h, has)
            | inl named ↦
                let (appended, chain) =
                  append_lem host session_id prints begun content now (keyed input other) es begun_h
                    typed named in
                let e = next_event host session_id es h.final now (keyed input other) in
                rw (once_new log begun content now other input read unused appended) (
                  es ++ e ∷ [],
                  standing-Holds (es ++ e ∷ []) e.event_hash chain,
                  rw (keys_of-snoc es e []) (contains-add_key key (some other) (keys_of es []) has),
                )
          ]
        ]

    run-Remembers :
        (key : Text) (log : AuditLog) (content : Text) (calls : List Call)
        → All IsTyped calls
        → Remembers key (log, content)
        → Remembers key (run (log, content) calls)
    unfolding run perform
    run-Remembers key log content [] typed r = r
    run-Remembers key log content (appends now input ∷ calls) (t, ts) r =
        let next = after_call (log, content) (append host session_id log content now input) in
        run-Remembers key next.0 next.1 calls ts (append-Remembers key log content now input t r)
    run-Remembers key log content (appends_once now input other ∷ calls) (t, ts) r =
        let next =
          after_call (log, content) (append_once host session_id log content now input other) in
        run-Remembers key next.0 next.1 calls ts
          (once-Remembers key log content now input other t r)
    run-Remembers key log content (restarts ∷ calls) (t, ts) (es, h, has) =
        run-Remembers key fresh content calls ts (es, Holds-fresh log content es h, has)

    Remembers-once :
        (key : Text) (log : AuditLog) (content moment : Text) (input : AuditEventInput)
        → Remembers key (log, content)
        → (last : AuditLog) × (append_once host session_id log content moment input key
            ≡ ok (none, last, content))
    Remembers-once key log content moment input (es, h, has) = (
      standing host session_id es h.final,
      once_used log (standing host session_id es h.final) content moment key input
          (initialize_held host session_id prints log content es h) has,
    )

  -- On a log that holds the events of its file, the first call with a key that none of them has, for
  -- an event of a known type with an acceptable operation identifier, writes one event with that key.
  -- Whatever appends of known types, appends with any keys, and restarts follow, successful or not, a
  -- later call with the key, whatever else it says, writes nothing and leaves the file as it is.
  -- Printed events are taken to be lines that read back.
  pub append_once_twice :
      (prints : PrintsLines host session_id) (log : AuditLog) (content now moment key : Text)
      (input other : AuditEventInput) (es : List AuditEvent) (calls : List Call)
      (h : Holds host session_id log content es)
      → contains input.kind audit_event_types ≡ true
      → names_operation input.operation_id ≡ true
      → contains key (keys_of es []) ≡ false
      → All IsTyped calls
      → let e = next_event host session_id es h.final now (keyed input key) in
        let file = file_of host session_id (es ++ e ∷ []) in
        let later = standing host session_id (es ++ e ∷ []) e.event_hash in
        let (log', content') = run (later, file) calls in
        (append_once host session_id log content now input key ≡ ok (some e, later, file))
        × ((last : AuditLog) × (append_once host session_id log' content' moment other key
              ≡ ok (none, last, content')))
  unfolding Holds-standing
  append_once_twice prints log content now moment key input other es calls h typed named unused ts =
      let e = next_event host session_id es h.final now (keyed input key) in
      let file = file_of host session_id (es ++ e ∷ []) in
      let later = standing host session_id (es ++ e ∷ []) e.event_hash in
      let begun = standing host session_id es h.final in
      let (appended, chain) =
        append_lem host session_id prints begun content now (keyed input key) es
          (Holds-standing log content es h) typed named in
      let used : contains key later.idempotency_keys ≡ true =
        rw (keys_of-snoc es e []) (contains_first key (keys_of es [])) in
      let state = run (later, file) calls in
      (
        once_new log begun content now key input
            (initialize_held host session_id prints log content es h) unused appended,
        Remembers-once prints key state.0 state.1 moment other (
            run-Remembers prints key later file calls ts
              (es ++ e ∷ [], standing-Holds (es ++ e ∷ []) e.event_hash chain, used)),
      )
