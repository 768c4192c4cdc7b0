-- ===== src/Session/Journal/Records.antt =====
-- What a read guarantees, what an update does, and that what is written can be read back.
use cope_code.Common.{
  nat_is_eq, ◌≡◌, refl, ap, ◌≢◌, inl, inr, true, Option, some, Text, text_is_eq, text_eq_iff, arith,
  ok, err, ErrorCode, Result-cases,
}
use cope_code.Shared.OperationId.{is_journal_operation_id}
use cope_code.Session.Journal.{
  OperationStatus, OperationRecord, File, stored, Files, write, Runtime, is_operation_record,
  serialize_record, read_optional, read, sealed, updated, update, serialized,
}

pub write_self : (files : Files) (id : Text) (file : File) → write files id file id ≡ file
unfolding write
write_self files id file = ground (arith, text_eq_iff id id)

pub write_ne :
    (files : Files) (id k : Text) (file : File) → k ≢ id → write files id file k ≡ files k
unfolding write
write_ne files id k file h = ground (arith, text_eq_iff k id)

module _ (host : Runtime) (session_id : Text) where
  open host use {digest, stable_json, json_parse}

  -- A record that the journal hands out.
  pub record IsSound (id : Text) (r : OperationRecord) : Type 0 where
    pub valid : is_operation_record host r ≡ true
    pub session : r.session_id ≡ session_id
    pub named : r.operation_id ≡ id
    pub genuine : digest r.base ≡ r.integrity_hash

  pub read_optional-IsSound :
      (files : Files) (id : Text) (r : OperationRecord)
      → read_optional host session_id files id ≡ ok (some r)
      → (files id ≡ stored r) × IsSound id r × (is_journal_operation_id id ≡ true)
  unfolding read_optional
  read_optional-IsSound files id r h = (
    ground arith,
    record {
      valid = ground arith;
      session = ground (arith, text_eq_iff r.session_id session_id);
      named = ground (arith, text_eq_iff r.operation_id id);
      genuine = ground (arith, text_eq_iff (digest r.base) r.integrity_hash);
    },
    ground arith,
  )

  pub IsSound-read_optional :
      (files : Files) (id : Text) (r : OperationRecord)
      → files id ≡ stored r
      → IsSound id r
      → is_journal_operation_id id ≡ true
      → read_optional host session_id files id ≡ ok (some r)
  unfolding read_optional
  IsSound-read_optional files id r held sound valid =
      rw (valid, held, sound.valid)
        (ground (
          arith,
          text_eq_iff r.session_id session_id,
          text_eq_iff r.operation_id id,
          text_eq_iff (digest r.base) r.integrity_hash,
        ))

  pub read-IsSound :
      (files : Files) (id : Text) (r : OperationRecord)
      → read host session_id files id ≡ ok r
      → (files id ≡ stored r) × IsSound id r × (is_journal_operation_id id ≡ true)
  unfolding read
  read-IsSound files id r h = read_optional-IsSound files id r (ground arith)

  -- What a successful update has read, checked and written.
  pub record Updated (files : Files) (r : OperationRecord) (u : OperationRecord) (after : Files)
      (latest : OperationRecord) : Type 0 where
    pub found : files r.operation_id ≡ stored latest
    pub sound : IsSound r.operation_id latest
    pub safe : is_journal_operation_id r.operation_id ≡ true
    pub same_hash : latest.integrity_hash ≡ r.integrity_hash
    pub written : after ≡ write files r.operation_id (stored u)
    pub checked : serialize_record host u ≡ ok (serialized host u)

  -- The rest of `update`, with the record that it read.
  update-read :
      (files : Files) (r : OperationRecord) (status : OperationStatus) (now : Text)
      (outcome safe_result : Option Text) (u : OperationRecord) (after : Files)
      (latest : OperationRecord)
      → read host session_id files r.operation_id ≡ ok latest
      → update host session_id files r status now outcome safe_result ≡ ok (u, after)
      → (latest.integrity_hash ≡ r.integrity_hash)
        × (u ≡ updated host session_id latest status now outcome safe_result)
        × (after ≡ write files u.operation_id (stored u))
        × (serialize_record host u ≡ ok (serialized host u))
  unfolding update serialize_record
  update-read files r status now outcome safe_result u after latest found h =
      ground (arith, text_eq_iff latest.integrity_hash r.integrity_hash)

  update_fault :
      (files : Files) (r : OperationRecord) (status : OperationStatus) (now : Text)
      (outcome safe_result : Option Text) (e : ErrorCode) {u : OperationRecord × Files}
      → read host session_id files r.operation_id ≡ err e
      → update host session_id files r status now outcome safe_result ≡ ok u
      → ⊥
  unfolding update
  update_fault files r status now outcome safe_result e fault h = ground arith

  pub update-Updated :
      (files : Files) (r : OperationRecord) (status : OperationStatus) (now : Text)
      (outcome safe_result : Option Text) (u : OperationRecord) (after : Files)
      → update host session_id files r status now outcome safe_result ≡ ok (u, after)
      → (latest : OperationRecord) × Updated files r u after latest
        × (u ≡ updated host session_id latest status now outcome safe_result)
  unfolding updated sealed
  update-Updated files r status now outcome safe_result u after h =
      elim (Result-cases (read host session_id files r.operation_id)) [
        | inl (latest, found) ↦
            let (held, sound, safe) = read-IsSound files r.operation_id latest found in
            let (same, made, wrote, checked) =
              update-read files r status now outcome safe_result u after latest found h in
            (
              latest,
              record {
                found = held;
                sound = sound;
                safe = safe;
                same_hash = same;
                written = rw wrote (ap (λ id. write files id (stored u)) (rw made sound.named));
                checked = checked;
              },
              made,
            )
        | inr (e, fault) ↦ absurd (update_fault files r status now outcome safe_result e fault h)
      ]

  serialize_record-ok :
      (r : OperationRecord)
      → serialize_record host r ≡ ok (serialized host r)
      → is_operation_record host r ≡ true
  unfolding serialize_record
  serialize_record-ok r h = ground arith

  updated-IsSound :
      (latest : OperationRecord) (id : Text) (status : OperationStatus) (now : Text)
      (outcome safe_result : Option Text) (u : OperationRecord)
      → u ≡ updated host session_id latest status now outcome safe_result
      → serialize_record host u ≡ ok (serialized host u)
      → IsSound id latest
      → IsSound id u
  unfolding updated sealed
  updated-IsSound latest id status now outcome safe_result u made checked sound = record {
    valid = serialize_record-ok u checked;
    session = rw made sound.session;
    named = rw made sound.named;
    genuine = rw made refl;
  }

  -- What is written passes the checks of a read on the value, the hash included.
  pub update-written :
      (files : Files) (r : OperationRecord) (status : OperationStatus) (now : Text)
      (outcome safe_result : Option Text) (u : OperationRecord) (after : Files)
      → update host session_id files r status now outcome safe_result ≡ ok (u, after)
      → (read_optional host session_id after r.operation_id ≡ ok (some u))
        × (after ≡ write files r.operation_id (stored u))
        × (serialize_record host u ≡ ok (serialized host u))
  update-written files r status now outcome safe_result u after h =
      let (latest, did, made) = update-Updated files r status now outcome safe_result u after h in
      (
        rw did.written (
            IsSound-read_optional (write files r.operation_id (stored u)) r.operation_id u
              (write_self files r.operation_id (stored u))
              (updated-IsSound latest r.operation_id status now outcome safe_result u made
                did.checked did.sound)
              did.safe),
        did.written,
        did.checked,
      )
