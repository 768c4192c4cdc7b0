-- ===== src/Repository/LineDiff.antt =====
-- src/repository/snapshot-diff.ts, from DiffLine to diffHunks: the lines of a diff.
pub mod Spec
pub mod Sides
pub mod Shortest
pub mod Hunks
pub mod Ranges
pub mod Cover
mod Tests
use cope_code.Common.{
  ℕ, suc, ◌+◌, ◌-◌, ◌*◌, max, Bool, true, false, ◌&&◌, ◌≡◌, ◌↔◌, Option, none, some, List, [], ◌∷◌,
  ◌++◌, map, reverse, Text, text_is_eq, text_eq, text_eq_iff, Eq, ◌==◌, if◌then◌else◌, leb, ltb,
  length, take, drop, max_safe, arith,
}

pub record DiffLine : Type 0 where
  pub text : Text
  pub no_newline : Bool

pub data Change : Type 0 where
  equal delete add : Change

pub record DiffOperation : Type 0 where
  pub kind : Change
  pub line : DiffLine

abbrev pub operation : Change → DiffLine → DiffOperation
operation kind line = record { kind = kind; line = line }

abbrev pub bool_eq : Bool → Bool → Bool
bool_eq true true = true
bool_eq false false = true
bool_eq true false = false
bool_eq false true = false

unfoldable pub same_line : DiffLine → DiffLine → Bool
same_line left right = text_eq left.text right.text && bool_eq left.no_newline right.no_newline

-- A cell of a row that is not there is 0: `?? 0`.
abbrev pub first : List ℕ → ℕ
first [] = 0
first (n ∷ ns) = n

abbrev pub rest {ℓ} : {A : Type ℓ} → List A → List A
rest [] = []
rest (x ∷ xs) = xs

abbrev pub first_row : List (List ℕ) → List ℕ
first_row [] = []
first_row (row ∷ rows) = row

-- The inner loop of the table, from the last column: the row of an old line over the row below it.
unfoldable pub row_of : DiffLine → List DiffLine → List ℕ → List ℕ
row_of old [] below = 0 ∷ []
row_of old (new ∷ after) below =
    let right = row_of old after (rest below) in
    (if same_line old new then suc (first (rest below)) else max (first below) (first right))
    ∷ right

unfoldable pub zero_row : List DiffLine → List ℕ
zero_row [] = 0 ∷ []
zero_row (new ∷ after) = 0 ∷ zero_row after

-- The outer loop, from the last row. The flat array of the source is the concatenation of the rows.
unfoldable pub table_of : List DiffLine → List DiffLine → List (List ℕ)
unfolding row_of zero_row
table_of [] after = zero_row after ∷ []
table_of (old ∷ before) after =
    let below = table_of before after in row_of old after (first_row below) ∷ below

-- `table[oldIndex * columns + newIndex] ?? 0`.
unfoldable pub cell : List (List ℕ) → ℕ → ℕ → ℕ
unfolding drop
cell table old_index new_index = first (drop new_index (first_row (drop old_index table)))

-- The walk from the first cell, with the lines that are left of both sides.
unfoldable pub walk : List (List ℕ) → ℕ → ℕ → List DiffLine → List DiffLine → List DiffOperation
unfolding cell same_line
walk table i j [] [] = []
walk table i j [] (new ∷ after) = operation add new ∷ walk table i (suc j) [] after
walk table i j (old ∷ before) [] = operation delete old ∷ walk table (suc i) j before []
walk table i j (old ∷ before) (new ∷ after) =
    let both = walk table (suc i) (suc j) before after in
    let adding = walk table i (suc j) (old ∷ before) after in
    let deleting = walk table (suc i) j before (new ∷ after) in
    if same_line old new
    then operation equal old ∷ both
    else if ltb (cell table (suc i) j) (cell table i (suc j))
    then operation add new ∷ adding
    else operation delete old ∷ deleting

unfoldable pub lcs_diff : List DiffLine → List DiffLine → List DiffOperation
unfolding walk table_of
lcs_diff before after = walk (table_of before after) 0 0 before after

unfoldable pub common_prefix : List DiffLine → List DiffLine → ℕ
unfolding same_line
common_prefix (x ∷ xs) (y ∷ ys) = if same_line x y then suc (common_prefix xs ys) else 0
common_prefix _ _ = 0

-- The second loop counts from the ends, in what the common prefix has left.
unfoldable pub common_suffix : ℕ → List DiffLine → List DiffLine → ℕ
unfolding common_prefix drop
common_suffix prefix before after =
    common_prefix (reverse (drop prefix before)) (reverse (drop prefix after))

unfoldable pub prefix_suffix_diff : List DiffLine → List DiffLine → List DiffOperation
unfolding common_prefix common_suffix take drop
prefix_suffix_diff before after =
    let prefix = common_prefix before after in
    let suffix = common_suffix prefix before after in
    map (operation equal) (take prefix before)
    ++ (map (operation delete) (take (length before - suffix - prefix) (drop prefix before))
        ++ (map (operation add) (take (length after - suffix - prefix) (drop prefix after))
            ++ map (operation equal) (drop (length before - suffix) before)))

unfoldable pub diff_lines : List DiffLine → List DiffLine → List DiffOperation
unfolding lcs_diff prefix_suffix_diff
diff_lines before after =
    let cells = suc (length before) * suc (length after) in
    if leb cells max_safe && leb cells 1_000_000
    then lcs_diff before after
    else prefix_suffix_diff before after
