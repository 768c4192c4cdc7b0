-- ===== src/Session/Journal/Finality.antt =====
-- How a stored record can change, whatever calls are made.
use cope_code.Common.{
  ◌≡◌, refl, sym, ◌∙◌, ap, ◌≢◌, ◌⊎◌, inl, inr, Bool, true, false, Option, Text, text_is_eq, text_eq,
  text_eq_iff, arith, Result, ok, err, Bool-cases, Result-cases, ◌==◌, ==_iff,
}
use cope_code.Session.Journal.{
  OperationStatus, accepted, executing, completed, failed, indeterminate, operation_status_is_eq,
  RecordBase, OperationRecord, stored, Files, Runtime, sealed, updated, update, register,
  mark_executing, mark_not_started, mark_completed, mark_failed, mark_indeterminate, leave,
}
use cope_code.Session.Journal.Resolving.{TerminalMetadata, resolve_terminal_completed}
use cope_code.Session.Journal.Records.{Updated, update-Updated, write_self, write_ne}

-- The calls of the journal, with the record that the caller holds.
pub data Call : Type 0 where
  registers : Text → Text → Bool → Text → Text → Call
  executes restores : OperationRecord → Text → Call
  completes fails loses : OperationRecord → Text → Text → Text → Call
  resolves : Text → Text → Text → TerminalMetadata → Call

-- How the status of one record may change. A read-only operation may start again.
pub data StatusEdge (mutating : Bool) : OperationStatus → OperationStatus → Type 0 where
  started : StatusEdge mutating accepted executing
  not_started : StatusEdge mutating executing accepted
  done : StatusEdge mutating executing completed
  failing : StatusEdge mutating executing failed
  failing_early : StatusEdge mutating accepted failed
  losing : StatusEdge mutating executing indeterminate
  losing_early : StatusEdge mutating accepted indeterminate
  still_lost : StatusEdge mutating indeterminate indeterminate
  retried :
      {s : OperationStatus}
      → mutating ≡ false
      → (s ≡ executing) ⊎ (s ≡ indeterminate)
      → StatusEdge mutating s accepted

-- Nothing but the status, the time, the outcome and the result changes.
pub record SameOperation (r q : OperationRecord) : Type 0 where
  pub operation_id : q.operation_id ≡ r.operation_id
  pub session_id : q.session_id ≡ r.session_id
  pub tool : q.tool ≡ r.tool
  pub mutating : q.mutating ≡ r.mutating
  pub request_hash : q.request_hash ≡ r.request_hash
  pub accepted_at : q.accepted_at ≡ r.accepted_at

abbrev pub Edge : OperationRecord → OperationRecord → Type 0
Edge r q = (q ≡ r) ⊎ (SameOperation r q × StatusEdge r.mutating r.status q.status)

module _ (host : Runtime) (session_id : Text) where
  open host use {digest, request_digest}

  -- Two different records with one hash.
  abbrev pub Collision : Type 0
  Collision = (a b : RecordBase) × (a ≢ b) × (digest a ≡ digest b)

  -- The journal hands out only records that carry their own hash.
  abbrev pub IsGenuine : Call → Type 0
  IsGenuine (registers id tool mutating request now) = Unit
  IsGenuine (executes r now) = digest r.base ≡ r.integrity_hash
  IsGenuine (restores r now) = digest r.base ≡ r.integrity_hash
  IsGenuine (completes r now outcome result) = digest r.base ≡ r.integrity_hash
  IsGenuine (fails r now outcome result) = digest r.base ≡ r.integrity_hash
  IsGenuine (loses r now outcome result) = digest r.base ≡ r.integrity_hash
  IsGenuine (resolves id request_hash now metadata) = Unit

  -- The files after a call; one that throws leaves them alone.
  abbrev pub files_of {ℓ} : {A : Type ℓ} → Files → Result (A × Files) → Files
  files_of files (ok (a, later)) = later
  files_of files (err e) = files

  unfoldable pub perform : Files → Call → Files
  perform files (registers id tool mutating request now) =
      files_of files (register host session_id files id tool mutating request now)
  perform files (executes r now) = files_of files (mark_executing host session_id files r now)
  perform files (restores r now) = files_of files (mark_not_started host session_id files r now)
  perform files (completes r now outcome result) =
      files_of files (mark_completed host session_id files r now outcome result)
  perform files (fails r now outcome result) =
      files_of files (mark_failed host session_id files r now outcome result)
  perform files (loses r now outcome result) =
      files_of files (mark_indeterminate host session_id files r now outcome result)
  perform files (resolves id request_hash now metadata) =
      files_of files (resolve_terminal_completed host session_id files id request_hash now metadata)

  -- What a call leaves in the file of `id`.
  abbrev pub Kept : Text → OperationRecord → Files → Type 0
  Kept id r later = ((q : OperationRecord) × (later id ≡ stored q) × Edge r q) ⊎ Collision

  same_base :
      (a b : OperationRecord)
      → digest a.base ≡ a.integrity_hash
      → digest b.base ≡ b.integrity_hash
      → a.integrity_hash ≡ b.integrity_hash
      → a.status ≢ b.status
      → Collision
  same_base a b ga gb same differ =
      (a.base, b.base, λ e. differ (ap (λ (x : RecordBase). x.status) e), ga ∙ same ∙ sym gb)

  stored_injective : {a b : OperationRecord} → stored a ≡ stored b → a ≡ b
  stored_injective h = cc

  updated-SameOperation :
      (latest : OperationRecord) (status : OperationStatus) (now : Text)
      (outcome safe_result : Option Text)
      → SameOperation latest (updated host session_id latest status now outcome safe_result)
        × ((updated host session_id latest status now outcome safe_result).status ≡ status)
  unfolding updated sealed
  updated-SameOperation latest status now outcome safe_result = (
    record {
      operation_id = refl;
      session_id = refl;
      tool = refl;
      mutating = refl;
      request_hash = refl;
      accepted_at = refl;
    },
    refl,
  )

  module _ (files : Files) (id : Text) (s : OperationRecord) (held : files id ≡ stored s)
      (r : OperationRecord) (genuine : digest r.base ≡ r.integrity_hash) where
    -- An update of the record itself, from the status that the caller's copy has.
    update_self :
        (status : OperationStatus) (now : Text) (outcome safe_result : Option Text)
        (u : OperationRecord) (later : Files)
        → (id ≡ r.operation_id → StatusEdge s.mutating r.status status)
        → id ≡ r.operation_id
        → (latest : OperationRecord) → Updated host session_id files r u later latest
        → u ≡ updated host session_id latest status now outcome safe_result
        → Kept id s later
    update_self status now outcome safe_result u later edge same latest did made =
        let is_s : latest ≡ s = stored_injective (sym did.found ∙ ap files (sym same) ∙ held) in
        let (kept, moved) = updated-SameOperation s status now outcome safe_result in
        let u_is : u ≡ updated host session_id s status now outcome safe_result =
          made ∙ ap (λ l. updated host session_id l status now outcome safe_result) is_s in
        elim (Bool-cases (s.status == r.status)) [
          | inl agree ↦
              let agrees = (==_iff s.status r.status).0 agree in
              inl (
                u,
                rw (did.written, same) (write_self files r.operation_id (stored u)),
                inr (rw u_is kept, rw (u_is, moved, agrees) (edge same)),
              )
          | inr differ ↦ inr (
              same_base s r (rw is_s at did.sound.genuine) genuine (rw is_s at did.same_hash)
                (λ e. ground (arith, ==_iff s.status r.status)))
        ]

    pub update-Kept :
        (status : OperationStatus) (now : Text) (outcome safe_result : Option Text)
        (u : OperationRecord) (later : Files)
        → (id ≡ r.operation_id → StatusEdge s.mutating r.status status)
        → update host session_id files r status now outcome safe_result ≡ ok (u, later)
        → Kept id s later
    update-Kept status now outcome safe_result u later edge h =
        let (latest, did, made) =
          update-Updated host session_id files r status now outcome safe_result u later h in
        elim (Bool-cases (text_eq id r.operation_id)) [
          | inl same ↦
              update_self status now outcome safe_result u later edge
                ((text_eq_iff id r.operation_id).0 same) latest did made
          | inr differ ↦ inl (
            s,
            rw did.written (
                write_ne files r.operation_id id (stored u)
                  (λ e. ground (arith, text_eq_iff id r.operation_id))
                ∙ held),
            inl refl,
          )
        ]

    pub leave-Kept :
        (from : Bool) (status : OperationStatus) (now : Text) (outcome safe_result : Option Text)
        → (from ≡ true → StatusEdge s.mutating r.status status)
        → Kept id s
            (files_of files (leave host session_id from files r status now outcome safe_result))
    leave-Kept false status now outcome safe_result edge = inl (s, held, inl refl)
    leave-Kept true status now outcome safe_result edge =
        elim (Result-cases (update host session_id files r status now outcome safe_result)) [
          | inl ((u, later), e) ↦
              rw e (update-Kept status now outcome safe_result u later (λ _. edge refl) e)
          | inr (fault, e) ↦ rw e (inl (s, held, inl refl))
        ]
