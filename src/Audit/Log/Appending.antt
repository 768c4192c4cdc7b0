-- ===== src/Audit/Log/Appending.antt =====
-- `append` keeps the file a verified chain, and a restart finds the log where it was.
use native.Mathlib.Nat.{zero-add}
use mathlib.Core.List.{append_assoc}
use cope_code.Common.{
  ℕ, ◌+◌, suc, ◌≡◌, refl, ap, ◌∙◌, inl, inr, true, false, List, [], ◌∷◌, ◌++◌, Text, text_is_eq,
  nat_is_eq, ok, length, length-append, contains, arith, text_eq_iff, Bool-cases, leb,
}
use cope_code.Audit.Log.{
  AuditEventInput, AuditEvent, AuditLog, fresh, Runtime, inconsistent, genesis_hash, initialize,
  append, event_of, keys_of, add_key, names_operation, audit_event_types,
}
use cope_code.Audit.Log.Chain.{IsChain, PrintsLines, file_of, verify_audit_text-file_of}

pub keys_of-snoc :
    (es : List AuditEvent) (e : AuditEvent) (keys : List Text)
    → keys_of (es ++ e ∷ []) keys ≡ add_key e.payload.idempotency_key (keys_of es keys)
unfolding keys_of
keys_of-snoc [] e keys = refl
keys_of-snoc (x ∷ es) e keys = keys_of-snoc es e (add_key x.payload.idempotency_key keys)

module _ (host : Runtime) (session_id : Text) where
  open host use {digest, print, parse}

  -- The file holds these events, and the log, once it is initialized, stands at their end.
  pub record Holds (log : AuditLog) (content : Text) (es : List AuditEvent) : Type 0 where
    pub final : Text
    pub stored : content ≡ file_of host session_id es
    pub chain : IsChain host session_id 1 genesis_hash es final
    pub at_end :
        log.initialized ≡ true
        → (log.sequence ≡ length es)
          × (log.previous_hash ≡ final)
          × (log.idempotency_keys ≡ keys_of es [])
    pub unread : log.initialized ≡ false → log ≡ fresh

  -- A log that stands at the end of the events.
  abbrev pub standing : List AuditEvent → Text → AuditLog
  standing es final = record {
    sequence = length es;
    previous_hash = final;
    initialized = true;
    idempotency_keys = keys_of es [];
  }

  filled :
      (e : AuditEvent) (es : List AuditEvent)
      → leb 1 (length (file_of host session_id (e ∷ es))) ≡ true
  filled e es = ground (arith, length-append (print e) (10 ∷ file_of host session_id es))

  -- A restart on a file of chained events brings the log to their end.
  pub fresh-standing :
      (prints : PrintsLines host session_id) (es : List AuditEvent) (final : Text)
      → IsChain host session_id 1 genesis_hash es final
      → initialize host session_id fresh (file_of host session_id es) ≡ ok (standing es final)
  unfolding initialize keys_of
  fresh-standing prints [] final c = rw c refl
  fresh-standing prints (e ∷ es) final c =
      rw
        (filled e es, verify_audit_text-file_of host session_id prints (e ∷ es) final c, initialize)
        refl

  file_of-snoc :
      (es : List AuditEvent) (e : AuditEvent)
      → file_of host session_id (es ++ e ∷ []) ≡ file_of host session_id es ++ (print e ++ 10 ∷ [])
  file_of-snoc [] e = refl
  file_of-snoc (x ∷ es) e = simp (file_of-snoc es e, append_assoc)

  initialize_read :
      (log : AuditLog) (content : Text)
      → log.initialized ≡ true
      → initialize host session_id log content ≡ ok log
  unfolding initialize
  initialize_read log content h = rw h refl

  pub initialize_held :
      (prints : PrintsLines host session_id) (log : AuditLog) (content : Text)
      (es : List AuditEvent) (h : Holds log content es)
      → initialize host session_id log content ≡ ok (standing es h.final)
  initialize_held prints log content es h = elim (Bool-cases log.initialized) [
    | inl read ↦ initialize_read log content read ∙ ap ok (ground (arith, h.at_end read))
    | inr unread ↦
        ap (λ (l : AuditLog). initialize host session_id l content) (h.unread unread)
        ∙ ap (initialize host session_id fresh) h.stored
        ∙ fresh-standing prints es h.final h.chain
  ]

  linked :
      (es : List AuditEvent) (final now : Text) (input : AuditEventInput)
      → contains input.kind audit_event_types ≡ true
      → names_operation input.operation_id ≡ true
      → inconsistent host session_id
          (length es + 1)
          final
          (event_of host session_id (standing es final) now input)
        ≡ false
  unfolding inconsistent
  linked es final now input typed named =
      rw (typed, named) (ground (arith, text_eq_iff session_id session_id, text_eq_iff final final))

  IsChain-snoc :
      (expected : ℕ) (previous middle : Text) (es : List AuditEvent) (e : AuditEvent)
      → IsChain host session_id expected previous es middle
      → inconsistent host session_id (length es + expected) middle e ≡ false
      → digest e.base ≡ e.event_hash
      → IsChain host session_id expected previous (es ++ e ∷ []) e.event_hash
  IsChain-snoc expected previous middle [] e c links genuine =
      (rw (c, ← zero-add expected) links, genuine, refl)
  IsChain-snoc expected previous middle (x ∷ es) e (l, g, c) links genuine =
      (l, g, IsChain-snoc (expected + 1) x.event_hash middle es e c (rw (shift) links) genuine)
    where
      shift : length es + (expected + 1) ≡ suc (length es) + expected
      shift = omega arith

  length-snoc : (es : List AuditEvent) (e : AuditEvent) → length (es ++ e ∷ []) ≡ length es + 1
  length-snoc es e = omega (arith, length-append es (e ∷ []))

  -- The event that an append makes after these events.
  abbrev pub next_event : List AuditEvent → Text → Text → AuditEventInput → AuditEvent
  next_event es final now input = event_of host session_id (standing es final) now input

  -- An append to a log in good order, read before or not, succeeds for every permitted operation
  -- identifier: the file holds the old events and then the new one, as a chain that verifies, and
  -- the log stands at its end.
  pub append_lem :
      (prints : PrintsLines host session_id) (log : AuditLog) (content now : Text)
      (input : AuditEventInput) (es : List AuditEvent) (h : Holds log content es)
      → contains input.kind audit_event_types ≡ true
      → names_operation input.operation_id ≡ true
      → let e = next_event es h.final now input in
        (append host session_id log content now input
          ≡ ok (e, standing (es ++ e ∷ []) e.event_hash, file_of host session_id (es ++ e ∷ [])))
        × IsChain host session_id 1 genesis_hash (es ++ e ∷ []) e.event_hash
  unfolding append
  append_lem prints log content now input es h typed named =
      let e = next_event es h.final now input in
      (
        rw
            (
              initialize_held prints log content es h,
              named,
              file_of-snoc es e,
              length-snoc es e,
              keys_of-snoc es e [],
              h.stored,
            )
            refl,
        IsChain-snoc 1 genesis_hash h.final es e h.chain (linked es h.final now input typed named)
            refl,
      )
