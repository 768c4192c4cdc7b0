-- ===== src/Repository/DiffText/Tests.antt =====
-- Diffs of small files, with and without room for them.
use cope_code.Common.{
  ℕ, ◌≡◌, ◌↔◌, refl, true, false, Option, none, some, List, [], ◌∷◌, ◌++◌, Text, text, any,
  is_space, arith,
}
use cope_code.Protocol.Parser.{byte_length}
use cope_code.Repository.LineDiff.{diff_lines}
use cope_code.Repository.LineDiff.Hunks.{diff_hunks}
use cope_code.Repository.DiffText.{Writer, render_file_diff, lines_of, append, decimal}
use cope_code.Repository.DiffText.Writing.{IsCut}
use cope_code.Repository.DiffText.Pieces.{diff_pieces, render_file_diff-IsCut}
use cope_code.Repository.DiffText.Changes.{diff_hunks-none}

-- A decoder for ASCII; no name here is quoted.
abbrev decode : List ℕ → Option Text
decode bytes = some bytes

abbrev stringify : Text → Text
stringify s = s

abbrev room : ℕ → Writer
room n = record { chunks = []; retained_bytes = 0; truncated = false; max_bytes = n }

abbrev old : Text
old = text "a" ++ 13 ∷ 10 ∷ []

abbrev new : Text
new = text "a" ++ 10 ∷ []

writes_numbers : decimal 105 ≡ text "105"
unfolding decimal
writes_numbers = refl

-- The first line has 24 bytes, the mode line 23.
cuts :
    (render_file_diff decode stringify (room 30) (text "f") none (some new) (some 33188)).truncated
    ≡ true
unfolding render_file_diff append any is_space byte_length
cuts = refl

render_file_diff-IsCut_example :
    IsCut
      (room 30)
      (diff_pieces decode stringify (text "f") none (some new) (some 33188))
      (render_file_diff decode stringify (room 30) (text "f") none (some new) (some 33188))
render_file_diff-IsCut_example =
    render_file_diff-IsCut decode stringify (room 30) (text "f") none (some new) (some 33188) refl
      (omega arith)

diff_hunks-none_example :
    (diff_hunks (diff_lines (lines_of old) (lines_of new)) 3 ≡ []) ↔ (old ≡ new)
diff_hunks-none_example = diff_hunks-none old new 3
