-- ===== src/Orchestrator/DisclosureBudget/Escapes.antt =====
-- What is set aside for a text is enough for its JSON.
use cope_code.Common.{
  ℕ, ◌+◌, ◌*◌, ◌≤◌, ◌≡◌, ◌&&◌, ◌||◌, [], ◌∷◌, Text, ok, nat, leb, ltb, nat_eq, if◌then◌else◌,
  max_safe, arith,
}
use cope_code.Protocol.Parser.{byte_length}
use cope_code.Orchestrator.DisclosureBudget.{
  tool_result_envelope_reserve_bytes, planned_tool_result_disclosure_bytes,
}

-- The bytes of a unit in the JSON of a text, where it is not half of a pair: two where it has a short
-- escape, six where it is another control character or a surrogate.
abbrev escaped_unit : ℕ → ℕ
escaped_unit c =
    if nat_eq c b'"' || (nat_eq c b'\\' || (leb 8 c && leb c 10 || (nat_eq c 12 || nat_eq c 13)))
    then 2
    else if ltb c 32 || leb 0xD800 c && leb c 0xDFFF
    then 6
    else if ltb c 0x80
    then 1
    else if ltb c 0x800
    then 2
    else 3

-- The bytes of `JSON.stringify` of a text, without its quotes.
unfoldable pub json_bytes : Text → ℕ
json_bytes [] = 0
json_bytes (c ∷ []) = escaped_unit c
json_bytes (c ∷ d ∷ s) =
    let paired = json_bytes s in
    let single = json_bytes (d ∷ s) in
    if leb 0xD800 c && ltb c 0xDC00 && (leb 0xDC00 d && ltb d 0xE000)
    then 4 + paired
    else escaped_unit c + single

json_bytes_bound : (s : Text) → json_bytes s ≤ 6 * byte_length s
unfolding json_bytes byte_length
json_bytes_bound [] = omega arith
json_bytes_bound (c ∷ []) = ground arith
json_bytes_bound (c ∷ d ∷ s) = ground (arith, json_bytes_bound s, json_bytes_bound (d ∷ s))

-- A reservation holds the JSON of the source and of the path, with the envelope and what else was
-- counted, and it is a safe integer.
pub planned_tool_result_disclosure_bytes_bounds :
    (source path : Text) (additional planned : ℕ)
    → planned_tool_result_disclosure_bytes
        (nat (byte_length source))
        (nat (byte_length path))
        (nat additional)
      ≡ ok planned
    → (tool_result_envelope_reserve_bytes + json_bytes source + json_bytes path + additional
        ≤ planned)
      × (planned ≤ max_safe)
unfolding planned_tool_result_disclosure_bytes
planned_tool_result_disclosure_bytes_bounds source path additional planned h =
    (ground (arith, json_bytes_bound source, json_bytes_bound path), ground arith)
