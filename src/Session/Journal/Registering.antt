-- ===== src/Session/Journal/Registering.antt =====
-- What `register` does to the files, in each of its branches.
use mathlib.Core.Bool.{decide}
use cope_code.Common.{
  ◌≡◌, refl, sym, ◌∙◌, ◌⊎◌, inl, inr, Bool, false, ◌||◌, none, some, Text, text, text_is_eq, arith,
  Result, ok, err, Bool-cases, Result-cases, ◌>>=◌, ◌==◌,
}
use cope_code.Shared.OperationId.{is_journal_operation_id}
use cope_code.Session.Journal.{
  OperationStatus, accepted, executing, completed, failed, indeterminate, operation_status_is_eq,
  OperationRecord, absent, stored, Files, write, Runtime, serialize_record, read_optional, update,
  register, register_again, reused, RegisterKind, indeterminate_mutation, retry_read_only, accept,
  with_kind,
}
use cope_code.Session.Journal.Finality.{
  StatusEdge, losing, still_lost, retried, files_of, Kept, update-Kept,
}

module _ (host : Runtime) (session_id : Text) where
  open host use {digest, request_digest}

  -- The two statuses from which a restart finds an operation with an unknown effect.
  abbrev Open : OperationStatus → Type 0
  Open status = (status ≡ executing) ⊎ (status ≡ indeterminate)

  Open-status :
      (status : OperationStatus)
      → (status == completed || status == failed) ≡ false
      → (status == accepted) ≡ false
      → Open status
  unfolding decide
  Open-status status h k = ground arith

  same_mutating :
      (r : OperationRecord) (tool : Text) (mutating : Bool) (request_hash : Text)
      → reused host session_id r tool mutating request_hash ≡ false
      → r.mutating ≡ mutating
  unfolding reused
  same_mutating r tool mutating request_hash h = ground arith

  files_of_kind :
      (files : Files) (m : Result (OperationRecord × Files)) (kind : RegisterKind)
      → let later =
          files_of host session_id files (m >>= λ u. ok (with_kind host session_id kind u)) in
        (later ≡ files) ⊎ ((u : OperationRecord) × (m ≡ ok (u, later)))
  files_of_kind files (ok (u, later)) kind = inr (u, refl)
  files_of_kind files (err e) kind = inl refl

  register_again_cases :
      (files : Files) (r : OperationRecord) (tool : Text) (mutating : Bool)
      (request_hash now : Text)
      → let later =
          files_of host session_id files
            (register_again host session_id files r tool mutating request_hash now) in
        (later ≡ files)
        ⊎ ((u : OperationRecord) × (update host session_id files r indeterminate now
                (some (text "uncertain_after_restart"))
                none
              ≡ ok (u, later))
            × Open r.status)
        ⊎ ((u : OperationRecord) × (update host session_id files r accepted now
                (some (text "retry_read_only"))
                none
              ≡ ok (u, later))
            × Open r.status
            × (r.mutating ≡ false))
  unfolding register_again
  register_again_cases files r tool mutating request_hash now =
      elim (Bool-cases (reused host session_id r tool mutating request_hash)) [
        | inl other ↦ inl (rw other refl)
        | inr same ↦ elim (Bool-cases (r.status == completed || r.status == failed)) [
          | inl final ↦ inl (rw (same, final) refl)
          | inr pending ↦ elim (Bool-cases (r.status == accepted)) [
            | inl fresh ↦ inl (rw (same, pending, fresh) refl)
            | inr begun ↦ elim (Bool-cases mutating) [
              | inl writes ↦
                  rw (same, pending, begun, writes, register_again)
                    (elim (files_of_kind files
                      (update host session_id files r indeterminate now
                        (some (text "uncertain_after_restart")) none)
                      indeterminate_mutation) [
                        | inl kept ↦ inl kept
                        | inr (u, e) ↦ inr (inl (u, e, Open-status r.status pending begun))
                      ])
              | inr reads ↦
                  rw (same, pending, begun, reads, register_again)
                    (elim (files_of_kind files
                      (update host session_id files r accepted now (some (text "retry_read_only"))
                        none)
                      retry_read_only) [
                        | inl kept ↦ inl kept
                        | inr (u, e) ↦ inr (
                            inr (
                              u,
                              e,
                              Open-status r.status pending begun,
                              same_mutating r tool mutating request_hash same ∙ reads,
                            ))
                      ])
            ]
          ]
        ]
      ]

  read_optional_absent :
      (files : Files) (id : Text)
      → read_optional host session_id files id ≡ ok none
      → files id ≡ absent
  unfolding read_optional
  read_optional_absent files id h = ground arith

  -- The three ways of `register`: it changes nothing, it goes on with a record that it found, or it
  -- writes the first record of an identifier that had none.
  pub register_cases :
      (files : Files) (id tool : Text) (mutating : Bool) (request now : Text)
      → let later =
          files_of host session_id files
            (register host session_id files id tool mutating request now) in
        (later ≡ files)
        ⊎ ((r : OperationRecord) × (read_optional host session_id files id ≡ ok (some r))
            × (register host session_id files id tool mutating request now
                ≡ register_again host session_id files r tool mutating
                    (request_digest request)
                    now))
        ⊎ ((r : OperationRecord) × (files id ≡ absent) × (later ≡ write files id (stored r)))
  unfolding register
  register_cases files id tool mutating request now =
      elim (Bool-cases (is_journal_operation_id id)) [
        | inr unsafe ↦ inl (rw unsafe refl)
        | inl safe ↦ elim (Result-cases (read_optional host session_id files id)) [
          | inr (fault, e) ↦ inl (rw (safe, e) refl)
          | inl (none, e) ↦
              elim (Result-cases (
                serialize_record host
                  (accept host session_id id tool mutating (request_digest request) now))) [
                    | inl (_, written) ↦ inr (
                        inr (
                          accept host session_id id tool mutating (request_digest request) now,
                          read_optional_absent files id e,
                          rw (safe, e, written) refl,
                        ))
                    | inr (fault, refused) ↦ inl (rw (safe, e, refused) refl)
                  ]
          | inl (some r, e) ↦ inr (inl (r, e, rw (safe, e, register) refl))
        ]
      ]

  module _ (files : Files) (id : Text) (s : OperationRecord) (held : files id ≡ stored s) where
    Kept-same : (later : Files) → later ≡ files → Kept host session_id id s later
    Kept-same later e = inl (s, rw e held, inl refl)

    pub register_again-Kept :
        (r : OperationRecord) (tool : Text) (mutating : Bool) (request_hash now : Text)
        → digest r.base ≡ r.integrity_hash
        → (id ≡ r.operation_id → r ≡ s)
        → Kept host session_id id s (
            files_of host session_id files
              (register_again host session_id files r tool mutating request_hash now))
    register_again-Kept r tool mutating request_hash now genuine same =
        elim (register_again_cases files r tool mutating request_hash now) [
          | inl e ↦ Kept-same _ e
          | inr (inl (u, e, begun)) ↦
              update-Kept host session_id files id s held r genuine indeterminate now
                (some (text "uncertain_after_restart")) none u _ (λ _. IsLost-Edge begun) e
          | inr (inr (u, e, begun, reads)) ↦
              update-Kept host session_id files id s held r genuine accepted now
                (some (text "retry_read_only")) none u _
                (λ at_id. retried (rw (sym (same at_id)) reads) begun) e
        ]
      where
        IsLost-Edge : {m : Bool} → Open r.status → StatusEdge m r.status indeterminate
        IsLost-Edge (inl e) = rw e losing
        IsLost-Edge (inr e) = rw e still_lost
