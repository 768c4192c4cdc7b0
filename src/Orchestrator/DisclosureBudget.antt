-- ===== src/Orchestrator/DisclosureBudget.antt =====
-- src/orchestrator/disclosure-budget.ts: the bytes that are set aside for the result of a tool.
pub mod Escapes
mod Tests
use cope_code.Common.{
  ℕ, ◌+◌, ◌*◌, ◌≤◌, min, ◌≡◌, Bool, true, false, not, ◌&&◌, ◌||◌, Result, ok, err, ErrorCode,
  protocol_invalid, budget_exceeded, fail_if, ◌>>=◌, ◌>>◌, leb, max_safe, Number, nat, other,
  Option, none, some, safe_natural,
}

abbrev pub tool_result_envelope_reserve_bytes : ℕ
tool_result_envelope_reserve_bytes = 64 * 1024

abbrev pub list_files_result_bytes : ℕ
list_files_result_bytes = 128 * 1024

abbrev pub list_files_entry_bytes : ℕ
list_files_entry_bytes = 2 * 1024

abbrev or_invalid : Option ℕ → Result ℕ
or_invalid (some n) = ok n
or_invalid none = err protocol_invalid

unfoldable pub projected_list_files_result_bytes : Number → Result ℕ
unfolding safe_natural
projected_list_files_result_bytes max_results = do
  n ← or_invalid (safe_natural max_results)
  fail_if (not (leb 1 n)) protocol_invalid
  ok (min (n * list_files_entry_bytes) list_files_result_bytes)

-- The source adds floating-point numbers: a sum that it rounds is above 2 ^ 53, and is refused too.
unfoldable pub planned_tool_result_disclosure_bytes : Number → Number → Number → Result ℕ
unfolding safe_natural
planned_tool_result_disclosure_bytes source_bytes path_bytes additional_serialized_bytes = do
  source ← or_invalid (safe_natural source_bytes)
  path ← or_invalid (safe_natural path_bytes)
  additional ← or_invalid (safe_natural additional_serialized_bytes)
  let planned = tool_result_envelope_reserve_bytes + source * 6 + path * 6 + additional
  fail_if (not (leb planned max_safe)) budget_exceeded
  ok planned
