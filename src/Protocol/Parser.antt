-- ===== src/Protocol/Parser.antt =====
-- The inbound parser of src/protocol/parser.ts, from the text of a response to a message. JSON and its
-- schema stand for `decode`: what `JSON.parse` and the validator make of the text of an envelope.
pub mod Replay
pub mod Sessions
use mathlib.Core.Option.{get_or}
use cope_code.Common.{
  ℕ, ◌+◌, ◌≡◌, Bool, true, false, not, ◌&&◌, ◌||◌, Option, none, some, List, [], ◌∷◌, ◌++◌, map,
  Text, text, text_is_eq, nat_is_eq, ◌==◌, if◌then◌else◌, all, any, contains, distinct, length, leb,
  ltb, nat_eq, to_lower, starts_with, Number, nat, other, max_safe,
}
use cope_code.Shared.OperationId.{is_operation_id}
use cope_code.Policy.Patterns.{with_slashes}
use cope_code.Policy.Tools.{is_tool_name, is_batchable}
use cope_code.Protocol.Fences.{
  ProtocolErrorCode, input_too_large, unsupported_version, invalid_json, schema_invalid,
  task_mismatch, turn_mismatch, invalid_message, unknown_message_type, unknown_tool, invalid_batch,
  duplicate_operation_id, limit_invalid, Parsed, parsed, refused, ExtractedEnvelope,
  extract_cba_envelope,
}

-- The arguments that the semantic checks read.
pub data Arguments : Type 0 where
  read_file_arguments : (start_line end_line : Option ℕ) → Arguments
  apply_patch_arguments : (paths : List Text) → Arguments
  git_diff_arguments : (scope baseline : Option Text) → Arguments
  request_user_input_arguments : (choice_ids : List Text) → Arguments
  other_arguments : Arguments

pub record Operation : Type 0 where
  pub operation_id : Text
  pub tool : Text
  pub arguments : Arguments

-- A message by what its kind gives the checks: operations, or the identifiers that it answers.
pub data Body : Type 0 where
  tool_request : List Operation → Body
  answers : List Text → Body

pub record ProtocolMessage : Type 0 where
  pub task_id : Text
  pub turn_id : ℕ
  pub message_type : Text
  pub body : Body

-- A JSON object before its validation: the two discriminators where they are texts, the tools that the
-- items of each container name, and the message where the schema accepts it.
pub record Envelope : Type 0 where
  pub protocol : Option Text
  pub message_type : Option Text
  pub operations : List Text
  pub results : List Text
  pub denials : List Text
  pub message : Option ProtocolMessage

pub data Decoded : Type 0 where
  no_json no_object : Decoded
  object : Envelope → Decoded

pub record ParseContext : Type 0 where
  pub expected_task_id : Text
  pub expected_turn_id : ℕ
  pub accepted_message_types : Option (List Text)
  pub path_key : Option (Text → Text)

infixl 5 ◌>>=◌ ◌>>◌
abbrev pub ◌>>=◌ {ℓ κ} : {A : Type ℓ} {B : Type κ} → Parsed A → (A → Parsed B) → Parsed B
refused code >>= next = refused code
parsed value >>= next = next value

abbrev pub ◌>>◌ {ℓ} : {B : Type ℓ} → Parsed (Unit {0}) → Parsed B → Parsed B
check >> next = check >>= λ _. next

abbrev pub refuse_if : Bool → ProtocolErrorCode → Parsed (Unit {0})
refuse_if false code = parsed tt
refuse_if true code = refused code

unfoldable pub message_types : List Text
message_types =
    text "tool_request"
    ∷ text "tool_result"
    ∷ text "tool_denial"
    ∷ text "protocol_error"
    ∷ text "user_input_request"
    ∷ text "capability_request"
    ∷ text "progress_update"
    ∷ text "completion"
    ∷ text "blocked"
    ∷ []

-- `extractToolDiscriminators`
unfoldable pub tools_of : Envelope → Text → List Text
tools_of e kind =
    if kind == text "tool_request"
    then e.operations
    else if kind == text "tool_result"
    then e.results
    else if kind == text "tool_denial"
    then e.denials
    else []

unfoldable pub preflight_discriminators : Decoded → Parsed Envelope
unfolding contains all
preflight_discriminators no_json = refused invalid_json
preflight_discriminators no_object = refused invalid_message
preflight_discriminators (object e) = do
  refuse_if (not (get_or e.protocol [] == text "cba/1")) unsupported_version
  refuse_if (not (contains (get_or e.message_type []) message_types)) unknown_message_type
  refuse_if (not (all is_tool_name (tools_of e (get_or e.message_type [])))) unknown_tool
  parsed e

-- `ensureUniqueOperationIds`, with the identifiers of the message so far.
unfoldable pub ensure_unique : List Text → List Text → List Text → Parsed (Unit {0})
unfolding contains
ensure_unique seen current [] = parsed tt
ensure_unique seen current (id ∷ ids) =
    let later = ensure_unique seen (id ∷ current) ids in
    do
      refuse_if (not (is_operation_id id)) schema_invalid
      refuse_if (contains id current || contains id seen) duplicate_operation_id
      later

-- `[0-9a-f-]`, whatever the case.
abbrev is_uuid_unit : ℕ → Bool
is_uuid_unit c = leb b'0' c && leb c b'9' || (leb b'a' c && leb c b'f' || nat_eq c b'-')

drop_units : ℕ → Text → Text
drop_units ℕ.zero s = s
drop_units (ℕ.suc n) [] = []
drop_units (ℕ.suc n) (c ∷ s) = drop_units n s

-- `/^checkpoint_[0-9a-f-]{36}$/iu`
unfoldable pub is_checkpoint : Text → Bool
unfolding all to_lower starts_with drop_units
is_checkpoint s =
    nat_eq (length s) 47
    && (starts_with (text "checkpoint_") (to_lower s)
        && all is_uuid_unit (drop_units 11 (to_lower s)))

abbrev absent_or : (Text → Bool) → Option Text → Bool
absent_or p none = true
absent_or p (some s) = p s

unfoldable pub is_baseline : Text → Option Text → Bool
unfolding is_checkpoint
is_baseline scope baseline =
    if scope == text "checkpoint"
    then absent_or is_checkpoint baseline
    else if scope == text "session" || scope == text "staged"
    then absent_or (λ s. false) baseline
    else absent_or (λ s. s == text "HEAD") baseline

abbrev repeats : List Text → Bool
repeats texts = not (nat_eq (length (distinct texts)) (length texts))

abbrev ends_early : Option ℕ → Option ℕ → Bool
ends_early (some start) (some end) = ltb end start
ends_early _ _ = false

-- The checks on the arguments of one operation; a schema ties their form to the tool.
unfoldable pub is_bad_operation : (Text → Text) → Operation → Bool
unfolding distinct is_baseline
is_bad_operation path_key op = elim op.arguments [
  | read_file_arguments start end ↦ ends_early start end
  | apply_patch_arguments paths ↦ repeats (map path_key paths)
  | git_diff_arguments scope baseline ↦
      not (is_baseline (get_or scope (text "working_tree")) baseline)
  | request_user_input_arguments choice_ids ↦ repeats choice_ids
  | other_arguments ↦ false
]

abbrev pub ids_of : List Operation → List Text
ids_of [] = []
ids_of (op ∷ ops) = op.operation_id ∷ ids_of ops

-- `validateToolRequestSemantics`
unfoldable pub validate_tool_request :
    List Text → (Text → Text) → List Operation → Parsed (Unit {0})
unfolding any ensure_unique
validate_tool_request seen path_key ops = do
  ensure_unique seen [] (ids_of ops)
  refuse_if (ltb 1 (length ops) && any (λ op. not (is_batchable op.tool)) ops) invalid_batch
  refuse_if (any (is_bad_operation path_key) ops) schema_invalid

unfoldable pub validate_message_semantics : List Text → (Text → Text) → Body → Parsed (Unit {0})
validate_message_semantics seen path_key (tool_request ops) =
    validate_tool_request seen path_key ops
validate_message_semantics seen path_key (answers ids) = ensure_unique [] [] ids

-- `defaultPathKey`
unfoldable pub default_path_key : Text → Text
unfolding with_slashes to_lower
default_path_key value = to_lower (with_slashes value)

abbrev unit_bytes : ℕ → ℕ
unit_bytes c = if ltb c 0x80 then 1 else if ltb c 0x800 then 2 else 3

-- The bytes of a text in UTF-8; a lone surrogate is replaced by a unit of three bytes.
unfoldable pub byte_length : Text → ℕ
byte_length [] = 0
byte_length (c ∷ []) = unit_bytes c
byte_length (c ∷ d ∷ s) =
    let paired = byte_length s in
    let single = byte_length (d ∷ s) in
    if leb 0xD800 c && ltb c 0xDC00 && (leb 0xDC00 d && ltb d 0xE000)
    then 4 + paired
    else unit_bytes c + single

abbrev pub is_valid_limit : Number → Bool
is_valid_limit (nat n) = leb 1 n && leb n max_safe
is_valid_limit other = false

abbrev pub is_within : ℕ → Number → Bool
is_within n (nat limit) = leb n limit
is_within n other = true

-- The checks of `parseProtocolEnvelope` on a message, and on an object that may be one.
unfoldable pub check_message : ParseContext → List Text → ProtocolMessage → Parsed ProtocolMessage
unfolding contains
check_message context seen message = do
  refuse_if (not (message.task_id == context.expected_task_id)) task_mismatch
  refuse_if (not (message.turn_id == context.expected_turn_id)) turn_mismatch
  refuse_if
      (elim context.accepted_message_types [
        | none ↦ false
        | some kinds ↦ not (contains message.message_type kinds)
      ])
      invalid_message
  validate_message_semantics seen (get_or context.path_key default_path_key) message.body
  parsed message

unfoldable pub checked_message : ParseContext → List Text → Envelope → Parsed ProtocolMessage
checked_message context seen e = elim e.message [
  | none ↦ refused schema_invalid
  | some message ↦ check_message context seen message
]

-- The identifiers that the parser keeps after a message: only those of a tool request join them.
unfoldable pub kept_ids : List Text → Body → List Text
kept_ids seen (tool_request ops) = ids_of ops ++ seen
kept_ids seen (answers ids) = seen

module _ (decode : Text → Decoded) where
  unfoldable pub parse_protocol_envelope :
      Text → ParseContext → Number → List Text → Parsed ProtocolMessage
  unfolding byte_length
  parse_protocol_envelope input context maximum seen = do
    refuse_if (not (is_valid_limit maximum)) limit_invalid
    refuse_if (not (is_within (byte_length input) maximum)) input_too_large
    envelope ← extract_cba_envelope input (some (text "cba/1"))
    e ← preflight_discriminators (decode envelope.json)
    checked_message context seen e

  -- `ProtocolParser.parse`: the message, and the identifiers after it.
  unfoldable pub parse :
      List Text → Number → Text → ParseContext → Parsed (ProtocolMessage × List Text)
  parse seen maximum input context = do
    message ← parse_protocol_envelope input context maximum seen
    parsed (message, kept_ids seen message.body)

-- `restoreOperationIds`: the identifiers before one that is refused stay.
unfoldable pub restore_operation_ids : List Text → List Text → List Text × Parsed (Unit {0})
restore_operation_ids seen [] = (seen, parsed tt)
restore_operation_ids seen (id ∷ ids) =
    let later = restore_operation_ids (id ∷ seen) ids in
    if is_operation_id id then later else (seen, refused schema_invalid)
