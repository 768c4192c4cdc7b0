-- ===== src/Repository/LineDiff/Shortest.antt =====
-- The table of common lines gives a shortest diff.
use cope_code.Common.{
  ℕ, suc, ◌+◌, ◌*◌, ◌≤◌, ◌≡◌, refl, sym, ap, ◌∙◌, true, List, [], ◌∷◌, length, drop, text_eq_iff,
  arith,
}
use cope_code.Repository.LineDiff.{
  DiffLine, equal, delete, add, DiffOperation, same_line, walk, cell, table_of, lcs_diff,
  diff_lines,
}
use cope_code.Repository.LineDiff.Spec.{lcs, lcs-Steps, cell-lcs}
use cope_code.Repository.LineDiff.Sides.{old_side, new_side, diff_lines-sides}

unfoldable kept : List DiffOperation → ℕ
kept [] = 0
kept (o ∷ os) = elim o.kind [ equal ↦ suc (kept os) | delete ↦ kept os | add ↦ kept os ]

length-kept :
    (os : List DiffOperation) → length os + kept os ≡ length (old_side os) + length (new_side os)
unfolding kept old_side new_side
length-kept [] = omega arith
length-kept (o ∷ os) = ground (arith, length-kept os)

same_line_self : (x : DiffLine) → same_line x x ≡ true
unfolding same_line
same_line_self x = ground (arith, text_eq_iff x.text x.text)

-- No diff keeps more lines than its sides have in common.
kept-lcs : (os : List DiffOperation) → kept os ≤ lcs (old_side os) (new_side os)
unfolding kept old_side new_side lcs
kept-lcs [] = omega arith
kept-lcs (o ∷ os) =
    let s = lcs-Steps (old_side os) (new_side os) in
    ground (arith, kept-lcs os, same_line_self o.line, s.old_more o.line, s.new_more o.line)

lcs-nil : (xs : List DiffLine) → lcs xs [] ≡ 0
unfolding lcs
lcs-nil [] = refl
lcs-nil (x ∷ xs) = refl

-- The table, as it is seen from a cell.
abbrev IsTable : List (List ℕ) → ℕ → ℕ → List DiffLine → List DiffLine → Type 0
IsTable table o n before after =
    (i j i' j' : ℕ)
    → i' ≡ o + i
    → j' ≡ n + j
    → cell table i' j' ≡ lcs (drop i before) (drop j after)

module _ (table : List (List ℕ)) where
  old_step :
      (o n : ℕ) (x : DiffLine) (xs ys : List DiffLine)
      → IsTable table o n (x ∷ xs) ys
      → IsTable table (suc o) n xs ys
  unfolding drop
  old_step o n x xs ys t i j i' j' e f = t (suc i) j i' j' (omega arith) f

  new_step :
      (o n : ℕ) (y : DiffLine) (xs ys : List DiffLine)
      → IsTable table o n xs (y ∷ ys)
      → IsTable table o (suc n) xs ys
  unfolding drop
  new_step o n y xs ys t i j i' j' e f = t i (suc j) i' j' e (omega arith)

  walk-kept :
      (o n : ℕ) (xs ys : List DiffLine)
      → IsTable table o n xs ys
      → kept (walk table o n xs ys) ≡ lcs xs ys
  unfolding walk kept lcs drop
  walk-kept o n [] [] t = refl
  walk-kept o n [] (y ∷ ys) t = ground (arith, walk-kept o (suc n) [] ys (new_step o n y [] ys t))
  walk-kept o n (x ∷ xs) [] t = walk-kept (suc o) n xs [] (old_step o n x xs [] t) ∙ lcs-nil xs
  walk-kept o n (x ∷ xs) (y ∷ ys) t =
      let right = t 0 1 o (suc n) (omega arith) (omega arith) in
      let down = t 1 0 (suc o) n (omega arith) (omega arith) in
      ground (
        arith,
        right,
        down,
        walk-kept (suc o) (suc n) xs ys (new_step (suc o) n y xs ys (old_step o n x xs (y ∷ ys) t)),
        walk-kept o (suc n) (x ∷ xs) ys (new_step o n y (x ∷ xs) ys t),
        walk-kept (suc o) n xs (y ∷ ys) (old_step o n x xs (y ∷ ys) t),
      )

lcs_diff-kept : (before after : List DiffLine) → kept (lcs_diff before after) ≡ lcs before after
unfolding lcs_diff
lcs_diff-kept before after = walk-kept (table_of before after) 0 0 before after (λ i j i' j' e f.
    let same_row : i' ≡ i = omega arith in
    let same_column : j' ≡ j = omega arith in
    rw (same_row, same_column) (cell-lcs before after i j))

-- Where the table is used, the diff is a shortest one: no list of operations with the same two sides
-- has fewer.
pub diff_lines-shortest :
    (os : List DiffOperation)
    → suc (length (old_side os)) * suc (length (new_side os)) ≤ 1_000_000
    → length (diff_lines (old_side os) (new_side os)) ≤ length os
unfolding diff_lines
diff_lines-shortest os small =
    let before = old_side os in
    let after = new_side os in
    let d = lcs_diff before after in
    let (old_sides, new_sides) = diff_lines-sides before after in
    let table_used : diff_lines before after ≡ d = ground arith in
    let sides : length d + kept d ≡ length before + length after =
      length-kept d
      ∙ ap (λ e. length (old_side e) + length (new_side e)) (sym table_used)
      ∙ omega (arith, ap length old_sides, ap length new_sides) in
    rw table_used (omega (arith, sides, length-kept os, kept-lcs os, lcs_diff-kept before after))
