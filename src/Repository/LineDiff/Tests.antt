-- ===== src/Repository/LineDiff/Tests.antt =====
-- Diffs of small texts.
use cope_code.Common.{
  ℕ, ◌≡◌, ◌≤◌, ◌-◌, ◌+◌, min, refl, false, true, List, [], ◌∷◌, text, text_eq, length, arith,
}
use cope_code.Repository.LineDiff.{
  DiffLine, equal, delete, add, DiffOperation, operation, diff_lines, prefix_suffix_diff,
}
use cope_code.Repository.LineDiff.Sides.{old_side, new_side, diff_lines-sides}
use cope_code.Repository.LineDiff.Shortest.{diff_lines-shortest}
use cope_code.Repository.LineDiff.Hunks.{diff_hunks, positioned_from, change_at}
use cope_code.Repository.LineDiff.Cover.{AreApart, IsShown, diff_hunks_bounds}

abbrev a : DiffLine
a = record { text = text "a"; no_newline = false }

abbrev b : DiffLine
b = record { text = text "b"; no_newline = false }

abbrev c : DiffLine
c = record { text = text "c"; no_newline = false }

abbrev before : List DiffLine
before = a ∷ b ∷ a ∷ c ∷ []

abbrev after : List DiffLine
after = b ∷ c ∷ a ∷ []

abbrev operations : List DiffOperation
operations =
    operation delete a
    ∷ operation equal b
    ∷ operation delete a
    ∷ operation equal c
    ∷ operation add a
    ∷ []

diffs : diff_lines before after ≡ operations
unfolding diff_lines text_eq
diffs = refl

diffs_ends :
    prefix_suffix_diff (a ∷ b ∷ []) (a ∷ c ∷ b ∷ [])
    ≡ operation equal a ∷ operation add c ∷ operation equal b ∷ []
unfolding prefix_suffix_diff text_eq
diffs_ends = refl

hunks : length (diff_hunks operations 0) ≡ 3
unfolding diff_hunks
hunks = refl

diff_lines-sides_example :
    (old_side (diff_lines before after) ≡ before) × (new_side (diff_lines before after) ≡ after)
diff_lines-sides_example = diff_lines-sides before after

diff_lines-shortest_example :
    length (diff_lines (old_side operations) (new_side operations)) ≤ length operations
unfolding old_side new_side
diff_lines-shortest_example = diff_lines-shortest operations (omega arith)

diff_hunks_bounds_example :
    AreApart 0 (positioned_from 1 1 operations) (diff_hunks operations 0)
    × ((k : ℕ)
        → change_at k operations ≡ true
        → IsShown
            (positioned_from 1 1 operations)
            (k - 0)
            (min (length operations - 1) (k + 0))
            (diff_hunks operations 0))
diff_hunks_bounds_example = diff_hunks_bounds 0 operations
