-- ===== src/Session/Journal/Replay.antt =====
-- What `register` answers for an identifier that is in use, and stale copies of a record.
use mathlib.Core.Bool.{decide}
use cope_code.Common.{
  ◌≡◌, refl, sym, ◌∙◌, ◌≢◌, ◌⊎◌, inl, inr, Bool, true, false, ◌||◌, Option, none, some, Text, text,
  text_is_eq, text_eq_iff, arith, Result, ok, err, recovery_required, duplicate_operation,
  Bool-cases, ◌>>=◌, ◌==◌, ==_iff,
}
use cope_code.Session.Journal.{
  OperationStatus, accepted, executing, completed, failed, indeterminate, operation_status_is_eq,
  OperationRecord, stored, Files, Runtime, read_optional, read, update, updated, sealed, register,
  register_again, reused, mark_executing, Registered, RegisterKind, retry_safe, replay_completed,
  indeterminate_mutation, with_kind,
}
use cope_code.Session.Journal.Records.{
  write_self, read_optional-IsSound, update-written, update-Updated,
}

module _ (host : Runtime) (session_id : Text) where
  open host use {digest, request_digest}

  register_found :
      (files : Files) (id tool : Text) (mutating : Bool) (request now : Text) (r : OperationRecord)
      → read_optional host session_id files id ≡ ok (some r)
      → register host session_id files id tool mutating request now
        ≡ register_again host session_id files r tool mutating (request_digest request) now
  unfolding register
  register_found files id tool mutating request now r found =
      let (_, _, safe) = read_optional-IsSound host session_id files id r found in
      rw (safe, found, register) refl

  -- An identifier that was used for another request, another tool or another kind of operation is
  -- refused as a duplicate.
  pub register-reused :
      (files : Files) (id tool : Text) (mutating : Bool) (request now : Text) (r : OperationRecord)
      → read_optional host session_id files id ≡ ok (some r)
      → (r.request_hash ≢ request_digest request) ⊎ (r.tool ≢ tool) ⊎ (r.mutating ≢ mutating)
      → register host session_id files id tool mutating request now ≡ err duplicate_operation
  unfolding register_again reused
  register-reused files id tool mutating request now r found differ =
      rw (register_found files id tool mutating request now r found) (
        ground
          (arith, text_eq_iff r.request_hash (request_digest request), text_eq_iff r.tool tool))

  -- The answers for a mutating operation that the journal knows: it may start only if it never
  -- started, an end is replayed as it was recorded, and anything else is an unknown effect.
  pub data Answer (files : Files) (r : OperationRecord) : Registered → Files → Type 0 where
    safe : r.status ≡ accepted → Answer files r (record { kind = retry_safe; entry = r }) files
    replayed :
        (r.status ≡ completed) ⊎ (r.status ≡ failed)
        → Answer files r (record { kind = replay_completed; entry = r }) files
    unknown :
        {u : OperationRecord} {later : Files}
        → (r.status ≡ executing) ⊎ (r.status ≡ indeterminate)
        → u.status ≡ indeterminate
        → later r.operation_id ≡ stored u
        → Answer files r (record { kind = indeterminate_mutation; entry = u }) later

  final_status :
      (s : OperationStatus)
      → (s == completed || s == failed) ≡ true
      → (s ≡ completed) ⊎ (s ≡ failed)
  unfolding decide
  final_status s h = ground arith

  Open-status :
      (s : OperationStatus)
      → (s == completed || s == failed) ≡ false
      → (s == accepted) ≡ false
      → (s ≡ executing) ⊎ (s ≡ indeterminate)
  unfolding decide
  Open-status s h k = ground arith

  ok_kind :
      (m : Result (OperationRecord × Files)) (kind : RegisterKind) (q : Registered) (later : Files)
      → (m >>= λ u. ok (with_kind host session_id kind u)) ≡ ok (q, later)
      → (u : OperationRecord) × (m ≡ ok (u, later)) × (q ≡ record { kind = kind; entry = u })
  ok_kind (ok (u, files)) kind q later h = (u, ground arith, ground arith)
  ok_kind (err e) kind q later h = cc

  status-updated :
      (latest : OperationRecord) (status : OperationStatus) (now : Text)
      (outcome safe_result : Option Text)
      → (updated host session_id latest status now outcome safe_result).status ≡ status
  unfolding updated sealed
  status-updated latest status now outcome safe_result = refl

  unknown-Answer :
      (files : Files) (r : OperationRecord) (now : Text) (outcome : Option Text) (q : Registered)
      (later : Files)
      → (r.status ≡ executing) ⊎ (r.status ≡ indeterminate)
      → (update host session_id files r indeterminate now outcome none >>= λ u.
          ok (with_kind host session_id indeterminate_mutation u))
        ≡ ok (q, later)
      → Answer files r q later
  unknown-Answer files r now outcome q later begun h =
      let (u, updates, same) = ok_kind _ indeterminate_mutation q later h in
      let (latest, did, made) =
        update-Updated host session_id files r indeterminate now outcome none u later updates in
      rw same (
        unknown begun (rw made (status-updated latest indeterminate now outcome none))
          (rw did.written (write_self files r.operation_id (stored u))))

  same-Answer :
      (files : Files) (r : OperationRecord) (m : Result (Registered × Files)) (a q : Registered)
      (later : Files)
      → m ≡ ok (q, later)
      → m ≡ ok (a, files)
      → Answer files r a files
      → Answer files r q later
  same-Answer files r m a q later h e answer =
      let same : q ≡ a = ground arith in
      let kept : later ≡ files = ground arith in rw (same, kept) answer

  again-Answer :
      (files : Files) (r : OperationRecord) (tool request_hash now : Text) (q : Registered)
      (later : Files)
      → register_again host session_id files r tool true request_hash now ≡ ok (q, later)
      → Answer files r q later
  unfolding register_again
  again-Answer files r tool request_hash now q later h =
      elim (Bool-cases (reused host session_id r tool true request_hash)) [
        | inl other ↦ absurd (ground arith)
        | inr same ↦ elim (Bool-cases (r.status == completed || r.status == failed)) [
          | inl final ↦
              same-Answer files r _ _ q later h (rw (same, final, register_again) refl)
                (replayed (final_status r.status final))
          | inr pending ↦ elim (Bool-cases (r.status == accepted)) [
            | inl fresh ↦
                same-Answer files r _ _ q later h (rw (same, pending, fresh, register_again) refl)
                  (safe ((==_iff r.status accepted).0 fresh))
            | inr begun ↦
                unknown-Answer files r now (some (text "uncertain_after_restart")) q later
                  (Open-status r.status pending begun)
                  (rw (same, pending, begun, register_again) at h)
          ]
        ]
      ]

  -- A mutating operation that the journal knows is answered by its record alone: it starts only if it
  -- was never begun, an end is replayed with its record, and an unknown effect is made durable.
  pub register-Answer :
      (files : Files) (id tool : Text) (request now : Text) (r : OperationRecord)
      → read_optional host session_id files id ≡ ok (some r)
      → (q : Registered) (later : Files)
      → register host session_id files id tool true request now ≡ ok (q, later)
      → Answer files r q later
  register-Answer files id tool request now r found q later h =
      again-Answer files r tool (request_digest request) now q later
        (sym (register_found files id tool true request now r found) ∙ h)

  stale_update :
      (files : Files) (r u : OperationRecord) (status : OperationStatus) (now : Text)
      → read_optional host session_id files r.operation_id ≡ ok (some u)
      → u.integrity_hash ≢ r.integrity_hash
      → update host session_id files r status now none none ≡ err recovery_required
  unfolding update read
  stale_update files r u status now found differ =
      rw (found, update) (ground (arith, text_eq_iff u.integrity_hash r.integrity_hash))

  executing_updates :
      (files : Files) (r u : OperationRecord) (now : Text) (later : Files)
      → mark_executing host session_id files r now ≡ ok (u, later)
      → (update host session_id files r executing now none none ≡ ok (u, later))
        × ((r.status == accepted) ≡ true)
  unfolding mark_executing
  executing_updates files r u now later h = elim (Bool-cases (r.status == accepted)) [
    | inl fresh ↦ (rw (fresh, mark_executing) at h, fresh)
    | inr begun ↦ absurd (ground arith)
  ]

  -- Of two calls that start one accepted record, the second is refused: its copy is out of date,
  -- if the two records have different hashes.
  pub mark_executing_twice :
      (files : Files) (r u : OperationRecord) (now moment : Text) (later : Files)
      → mark_executing host session_id files r now ≡ ok (u, later)
      → u.integrity_hash ≢ r.integrity_hash
      → mark_executing host session_id later r moment ≡ err recovery_required
  unfolding mark_executing
  mark_executing_twice files r u now moment later h differ =
      let (updates, fresh) = executing_updates files r u now later h in
      let (back, _, _) =
        update-written host session_id files r executing now none none u later updates in
      rw (fresh, mark_executing) (stale_update later r u executing moment back differ)
