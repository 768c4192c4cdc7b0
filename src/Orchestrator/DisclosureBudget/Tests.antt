-- ===== src/Orchestrator/DisclosureBudget/Tests.antt =====
-- Reservations for a line of source.
use cope_code.Common.{
  ◌+◌, ◌≤◌, ◌≡◌, refl, [], ◌∷◌, Text, text, ok, err, protocol_invalid, nat, other, max_safe,
}
use cope_code.Protocol.Parser.{byte_length}
use cope_code.Orchestrator.DisclosureBudget.{
  tool_result_envelope_reserve_bytes, planned_tool_result_disclosure_bytes,
  projected_list_files_result_bytes,
}
use cope_code.Orchestrator.DisclosureBudget.Escapes.{
  json_bytes, planned_tool_result_disclosure_bytes_bounds,
}

-- A quote and a line break.
abbrev source : Text
source = b'"' ∷ 10 ∷ []

lists_at_most : projected_list_files_result_bytes (nat 100) ≡ ok 131_072
unfolding projected_list_files_result_bytes
lists_at_most = refl

lists_nothing : projected_list_files_result_bytes other ≡ err protocol_invalid
unfolding projected_list_files_result_bytes
lists_nothing = refl

planned_tool_result_disclosure_bytes_bounds_example :
    (tool_result_envelope_reserve_bytes + json_bytes source + json_bytes (text "a") + 7 ≤ 65_561)
    × (65_561 ≤ max_safe)
unfolding planned_tool_result_disclosure_bytes byte_length
planned_tool_result_disclosure_bytes_bounds_example =
    planned_tool_result_disclosure_bytes_bounds source (text "a") 7 65_561 refl
