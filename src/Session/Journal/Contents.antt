-- ===== src/Session/Journal/Contents.antt =====
-- A record as the text of its file: what an update writes, and what a read makes of it.
use std.Path.{fun_ext}
use cope_code.Protocol.Parser.{byte_length}
use cope_code.Common.{
  ◌==◌, nat_is_eq, ltb, sym, ◌∙◌, false, [], ◌∷◌, ◌++◌, last, starts_with, text_eq, Bool-cases, ◌≡◌,
  refl, inl, inr, Option, some, Text, text_is_eq, arith, ok,
}
use cope_code.Session.Journal.{
  OperationStatus, OperationRecord, stored, Files, write, Runtime, serialize_record, read_optional,
  update, Disk, replace, serialized, is_partial, load, loaded,
}
use cope_code.Session.Journal.Records.{update-written}

module _ (host : Runtime) (session_id : Text) where
  open host use {stable_json, json_parse}

  -- What stable JSON and `JSON.parse` do with a record: the text is that of an object, and with a
  -- newline behind it, it is parsed as the same record.
  pub record IsJson (r : OperationRecord) : Type 0 where
    pub members : Text
    pub object : stable_json r ≡ b'{' ∷ members
    pub parsed : json_parse (stable_json r ++ b'\n' ∷ []) ≡ some r

  last-append_newline : (s : Text) → last (s ++ b'\n' ∷ []) ≡ some b'\n'
  unfolding last
  last-append_newline [] = refl
  last-append_newline (c ∷ []) = refl
  last-append_newline (c ∷ d ∷ s) = last-append_newline (d ∷ s)

  serialized-whole : (r : OperationRecord) → IsJson r → is_partial host (serialized host r) ≡ false
  unfolding is_partial starts_with
  serialized-whole r json = rw json.object (rw (last-append_newline (b'{' ∷ json.members)) refl)

  braced-byte_length : (s : Text) → (byte_length (b'{' ∷ (s ++ b'\n' ∷ [])) == 0) ≡ false
  unfolding byte_length
  braced-byte_length [] = refl
  braced-byte_length (c ∷ s) = ground arith

  serialized-byte_length :
      (r : OperationRecord) → IsJson r → (byte_length (serialized host r) == 0) ≡ false
  serialized-byte_length r json = rw json.object (braced-byte_length json.members)

  serialize_record-small :
      (r : OperationRecord)
      → serialize_record host r ≡ ok (serialized host r)
      → ltb 1_048_576 (byte_length (serialized host r)) ≡ false
  unfolding serialize_record
  serialize_record-small r h = ground arith

  -- A line that `serialize_record` returns passes every check of a read on bytes and text.
  load-serialize_record :
      (r : OperationRecord)
      → IsJson r
      → serialize_record host r ≡ ok (serialized host r)
      → load host (some (serialized host r)) ≡ stored r
  unfolding load
  load-serialize_record r json h =
      rw
        (
          serialized-byte_length r json,
          serialize_record-small r h,
          serialized-whole r json,
          json.parsed,
        )
        refl

  loaded-replace :
      (disk : Disk) (id line : Text) (r : OperationRecord)
      → load host (some line) ≡ stored r
      → loaded host (replace disk id line) ≡ write (loaded host disk) id (stored r)
  unfolding replace write
  loaded-replace disk id line r h =
      fun_ext
        λ k. elim (Bool-cases (text_eq k id)) [ inl same ↦ rw same h | inr other ↦ rw other refl ]

  -- A record that an update returns is on the disk as its stable JSON and a newline, in the file of
  -- the operation, and no other file changes: the files that the update leaves are those that the
  -- checks of a read find there. That read gives the record back. The hypothesis is that the stable
  -- JSON of the record is an object's, and is parsed as that record.
  pub read_optional-update :
      (disk : Disk) (r : OperationRecord) (status : OperationStatus) (now : Text)
      (outcome safe_result : Option Text) (u : OperationRecord) (after : Files)
      → IsJson u
      → update host session_id (loaded host disk) r status now outcome safe_result ≡ ok (u, after)
      → let rewritten = loaded host (replace disk r.operation_id (serialized host u)) in
        (after ≡ rewritten) × (read_optional host session_id rewritten r.operation_id ≡ ok (some u))
  read_optional-update disk r status now outcome safe_result u after json h =
      let (back, wrote, checked) =
        update-written host session_id (loaded host disk) r status now outcome safe_result u after
          h in
      let same =
        loaded-replace disk r.operation_id (serialized host u) u
          (load-serialize_record u json checked) in
      (wrote ∙ sym same, rw (sym (wrote ∙ sym same)) back)
