-- ===== src/Protocol/Parser/Replay.antt =====
-- What an accepted message is, and that no operation identifier is accepted twice.
use cope_code.Common.{
  ℕ, ◌≡◌, refl, ◌∙◌, Bool, true, false, not, ◌&&◌, ◌||◌, some, List, [], ◌∷◌, ◌++◌, Text, text,
  text_eq_iff, text_is_eq, nat_is_eq, nat_eq_iff, ◌==◌, arith, contains, any, length, ltb, Number,
  Option-cases, inl, inr,
}
use mathlib.Core.Option.{get_or}
use cope_code.Shared.OperationId.{is_operation_id}
use cope_code.Policy.Tools.{is_batchable}
use cope_code.Protocol.Fences.{
  Parsed, parsed, refused, ProtocolErrorCode, limit_invalid, input_too_large, ExtractedEnvelope,
  extract_cba_envelope,
}
use cope_code.Protocol.Parser.{
  Operation, Body, tool_request, answers, ProtocolMessage, Envelope, Decoded, ParseContext, ◌>>=◌,
  ◌>>◌, refuse_if, ensure_unique, ids_of, validate_tool_request, validate_message_semantics,
  default_path_key, checked_message, check_message, kept_ids, is_valid_limit, is_within,
  byte_length, parse_protocol_envelope, parse, preflight_discriminators,
}

-- Identifiers that are valid, unknown, and different from those before them.
abbrev pub Fresh : List Text → List Text → Type 0
Fresh seen [] = Unit
Fresh seen (id ∷ ids) =
    (is_operation_id id ≡ true) × (contains id seen ≡ false) × Fresh (id ∷ seen) ids

contains-append :
    (k : Text) (xs ys : List Text) → contains k (xs ++ ys) ≡ (contains k xs || contains k ys)
unfolding contains
contains-append k [] ys = refl
contains-append k (x ∷ xs) ys = ground (arith, contains-append k xs ys)

bind_parsed {ℓ κ} :
    {A : Type ℓ} {B : Type κ} (m : Parsed A) (f : A → Parsed B) (b : B)
    → (m >>= f) ≡ parsed b
    → (a : A) × (m ≡ parsed a) × (f a ≡ parsed b)
bind_parsed (refused code) f b h = cc
bind_parsed (parsed a) f b h = (a, refl, h)

then_parsed {ℓ} :
    {B : Type ℓ} (test : Bool) (code : ProtocolErrorCode) (m : Parsed B) (b : B)
    → (refuse_if test code >> m) ≡ parsed b
    → (test ≡ false) × (m ≡ parsed b)
then_parsed true code m b h = cc
then_parsed false code m b h = (refl, h)

Fresh-fewer :
    (ids seen fewer : List Text)
    → ((k : Text) → contains k seen ≡ false → contains k fewer ≡ false)
    → Fresh seen ids
    → Fresh fewer ids
unfolding contains
Fresh-fewer [] seen fewer h f = tt
Fresh-fewer (id ∷ ids) seen fewer h (valid, new, later) =
    (valid, h id new, Fresh-fewer ids (id ∷ seen) (id ∷ fewer) (λ k c. ground (arith, h k)) later)

ensure_unique-Fresh :
    (seen current ids : List Text)
    → ensure_unique seen current ids ≡ parsed tt
    → Fresh (current ++ seen) ids
unfolding ensure_unique
ensure_unique-Fresh seen current [] h = tt
ensure_unique-Fresh seen current (id ∷ ids) h =
    let (valid, h1) = then_parsed _ _ _ tt h in
    let (new, later) = then_parsed _ _ _ tt h1 in
    (
      ground arith,
      contains-append id current seen ∙ new,
      ensure_unique-Fresh seen (id ∷ current) ids later,
    )

pub Fresh-append :
    (xs ys seen : List Text) → Fresh seen xs → Fresh (xs ++ seen) ys → Fresh seen (xs ++ ys)
unfolding contains
Fresh-append [] ys seen f g = g
Fresh-append (x ∷ xs) ys seen (valid, new, f) g = (
  valid,
  new,
  Fresh-append xs ys (x ∷ seen) f (
      Fresh-fewer ys (x ∷ xs ++ seen) (xs ++ x ∷ seen)
        (λ k c. ground (arith, contains-append k xs (x ∷ seen), contains-append k xs seen)) g),
)

-- What a message is that the parser accepts in a context, after these identifiers.
pub data Admits (seen : List Text) : Body → List Text → Type 0 where
  request :
      (ops : List Operation)
      → Fresh seen (ids_of ops)
      → (ltb 1 (length ops) && any (λ op. not (is_batchable op.tool)) ops) ≡ false
      → Admits seen (tool_request ops) (ids_of ops ++ seen)
  answer : (ids : List Text) → Fresh [] ids → Admits seen (answers ids) seen

validated :
    (seen : List Text) (path_key : Text → Text) (ops : List Operation)
    → validate_tool_request seen path_key ops ≡ parsed tt
    → Fresh seen (ids_of ops)
      × ((ltb 1 (length ops) && any (λ op. not (is_batchable op.tool)) ops) ≡ false)
unfolding validate_tool_request
validated seen path_key ops h =
    let (u, unique, h1) = bind_parsed (ensure_unique seen [] (ids_of ops)) _ tt h in
    let (batch, _) = then_parsed _ _ _ tt h1 in
    (ensure_unique-Fresh seen [] (ids_of ops) unique, batch)

body_Admits :
    (seen : List Text) (path_key : Text → Text) (b : Body)
    → validate_message_semantics seen path_key b ≡ parsed tt
    → Admits seen b (kept_ids seen b)
unfolding validate_message_semantics kept_ids
body_Admits seen path_key (tool_request ops) h =
    let (new, batch) = validated seen path_key ops h in request ops new batch
body_Admits seen path_key (answers ids) h = answer ids (ensure_unique-Fresh [] [] ids h)

same_text : (s t : Text) → not (s == t) ≡ false → s ≡ t
same_text s t h = ground (arith, text_eq_iff s t)

same_number : (m n : ℕ) → not (m == n) ≡ false → m ≡ n
same_number m n h = ground (arith, nat_eq_iff m n)

-- What the last checks have tested.
checked :
    (context : ParseContext) (seen : List Text) (message m : ProtocolMessage)
    → check_message context seen message ≡ parsed m
    → (message ≡ m)
      × (m.task_id ≡ context.expected_task_id)
      × (m.turn_id ≡ context.expected_turn_id)
      × Admits seen m.body (kept_ids seen m.body)
unfolding check_message
checked context seen message m h =
    let (task, h1) = then_parsed _ _ _ m h in
    let (turn, h2) = then_parsed _ _ _ m h1 in
    let (_, h3) = then_parsed _ _ _ m h2 in
    let (_, valid, last) =
      bind_parsed
        (validate_message_semantics seen (get_or context.path_key default_path_key) message.body) _
        m h3 in
    let same : message ≡ m = ground (arith, last) in
    (
      same,
      rw (← same) (same_text message.task_id context.expected_task_id task),
      rw (← same) (same_number message.turn_id context.expected_turn_id turn),
      rw (← same) (body_Admits seen _ message.body valid),
    )

found_message :
    (context : ParseContext) (seen : List Text) (e : Envelope) (m : ProtocolMessage)
    → checked_message context seen e ≡ parsed m
    → (message : ProtocolMessage) × (check_message context seen message ≡ parsed m)
unfolding checked_message
found_message context seen e m h = elim (Option-cases e.message) [
  | inl missing ↦ absurd (ground arith)
  | inr (message, found) ↦ (message, rw (found, checked_message) at h)
]

module _ (decode : Text → Decoded) where
  accepted_message :
      (context : ParseContext) (seen : List Text) (m : ProtocolMessage) (maximum : Number)
      (input : Text)
      → parse_protocol_envelope decode input context maximum seen ≡ parsed m
      → (message : ProtocolMessage) × (check_message context seen message ≡ parsed m)
  unfolding parse_protocol_envelope
  accepted_message context seen m maximum input h =
      let read = λ (envelope : ExtractedEnvelope).
        preflight_discriminators (decode envelope.json) >>= checked_message context seen in
      let rest = extract_cba_envelope input (some (text "cba/1")) >>= read in
      let (_, h1) =
        then_parsed (not (is_valid_limit maximum)) limit_invalid
          (refuse_if (not (is_within (byte_length input) maximum)) input_too_large >> rest) m h in
      let (_, h2) =
        then_parsed (not (is_within (byte_length input) maximum)) input_too_large rest m h1 in
      let (envelope, _, h3) =
        bind_parsed (extract_cba_envelope input (some (text "cba/1"))) read m h2 in
      let (e, _, h4) =
        bind_parsed (preflight_discriminators (decode envelope.json)) (checked_message context seen)
          m h3 in
      found_message context seen e m h4

  -- A message that the parser accepts is for the task and the turn that are expected; the operations
  -- of a tool request have valid identifiers, new to the session and different from one another, and
  -- if there are several, each is of a tool that may be batched.
  pub parse-Admits :
      (context : ParseContext) (seen : List Text) (m : ProtocolMessage) (later : List Text)
      (maximum : Number) (input : Text)
      → parse decode seen maximum input context ≡ parsed (m, later)
      → (m.task_id ≡ context.expected_task_id)
        × (m.turn_id ≡ context.expected_turn_id)
        × Admits seen m.body later
  unfolding parse
  parse-Admits context seen m later maximum input h =
      let (message, accepts, kept) =
        bind_parsed (parse_protocol_envelope decode input context maximum seen) _ (m, later) h in
      let (raw, checks) = accepted_message context seen message maximum input accepts in
      let (_, task, turn, admitted) = checked context seen raw message checks in
      let same : message ≡ m = ground (arith, kept) in
      let now : kept_ids seen message.body ≡ later = ground (arith, kept) in
      (rw (← same) task, rw (← same) turn, rw (← same, ← now) admitted)
