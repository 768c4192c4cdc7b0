-- ===== src/Repository/ExactTextEdit/Tests.antt =====
-- Exact text edits, tried on a small file.
use cope_code.Session.Journal.{is_hash}
use cope_code.Common.{◌↔◌, starts_with, text_eq, suc, ◌≡◌, refl, List, Text, text, nat, length, ok}
use cope_code.Policy.Patterns.{join}
use cope_code.Protocol.Parser.{byte_length}
use cope_code.Repository.ExactTextEdit.{
  replaced, count_from, accepted_input, ExactTextEditInput, ExactTextEditSource, ExactTextEditPlan,
  plan_exact_text_edit, count_changed_lines,
}
use cope_code.Repository.ExactTextEdit.ChangedLines.{count_changed_lines-zero}
use cope_code.Repository.ExactTextEdit.Replacing.{plan_exact_text_edit_lem}

abbrev hash : Text
hash = text "aaaaaaaaaaaaaaaaaaaaaaaaaaaaaaaaaaaaaaaaaaaaaaaaaaaaaaaaaaaaaaaa"

abbrev file : ExactTextEditSource
file = record { content = text "aXb\nX"; byte_count = 5; sha256 = hash }

abbrev edit_twice : ExactTextEditInput
edit_twice = record {
  base_sha256 = hash;
  old_text = text "X";
  new_text = text "YX";
  expected_occurrences = nat 2;
}

abbrev planned : ExactTextEditPlan
planned = record { content = text "aYXb\nYX"; occurrences = 2; result_bytes = 7; changed_lines = 4 }

plans : plan_exact_text_edit file edit_twice (nat 100) ≡ ok planned
unfolding plan_exact_text_edit accepted_input text_eq is_hash count_from starts_with replaced
plans = refl

plan_exact_text_edit_lem_example :
    (pieces : List Text) × (file.content ≡ join edit_twice.old_text pieces)
    × (planned.content ≡ join edit_twice.new_text pieces)
    × (length pieces ≡ suc planned.occurrences)
    × (edit_twice.expected_occurrences ≡ nat planned.occurrences)
    × (byte_length planned.content ≡ planned.result_bytes)
plan_exact_text_edit_lem_example = plan_exact_text_edit_lem file edit_twice (nat 100) planned plans

count_changed_lines-zero_example :
    (count_changed_lines (text "a\r\n") (text "a\n") ≡ 0) ↔ (text "a\r\n" ≡ text "a\n")
count_changed_lines-zero_example = count_changed_lines-zero (text "a\r\n") (text "a\n")
