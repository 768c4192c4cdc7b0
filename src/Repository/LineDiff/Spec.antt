-- ===== src/Repository/LineDiff/Spec.antt =====
-- The length of a longest common subsequence, by recursion on both texts, and the table against it.
use cope_code.Common.{
  ℕ, suc, ◌≤◌, max, ◌≡◌, refl, ap, List, [], ◌∷◌, if◌then◌else◌, drop, drop-nil, arith,
}
use cope_code.Repository.LineDiff.{
  DiffLine, same_line, first, first_row, row_of, zero_row, table_of, cell,
}

unfoldable pub lcs : List DiffLine → List DiffLine → ℕ
lcs [] ys = 0
lcs (x ∷ xs) [] = 0
lcs (x ∷ xs) (y ∷ ys) =
    let both = lcs xs ys in
    let left = lcs xs (y ∷ ys) in
    let right = lcs (x ∷ xs) ys in if same_line x y then suc both else max left right

-- One more line on a side adds nothing or one.
pub record Steps (xs ys : List DiffLine) : Type 0 where
  pub old_more : (x : DiffLine) → lcs xs ys ≤ lcs (x ∷ xs) ys
  pub new_more : (y : DiffLine) → lcs xs ys ≤ lcs xs (y ∷ ys)
  pub old_one : (x : DiffLine) → lcs (x ∷ xs) ys ≤ suc (lcs xs ys)
  pub new_one : (y : DiffLine) → lcs xs (y ∷ ys) ≤ suc (lcs xs ys)

pub lcs-Steps : (xs ys : List DiffLine) → Steps xs ys
unfolding lcs
lcs-Steps [] [] = record {
  old_more = λ x. omega arith;
  new_more = λ y. omega arith;
  old_one = λ x. omega arith;
  new_one = λ y. omega arith;
}
lcs-Steps [] (y' ∷ ys) =
    let s = lcs-Steps [] ys in
    record {
      old_more = λ x. ground arith;
      new_more = λ y. ground arith;
      old_one = λ x. ground (arith, s.old_one x);
      new_one = λ y. ground arith;
    }
lcs-Steps (x' ∷ xs) [] =
    let s = lcs-Steps xs [] in
    record {
      old_more = λ x. ground arith;
      new_more = λ y. ground arith;
      old_one = λ x. ground arith;
      new_one = λ y. ground (arith, s.new_one y);
    }
lcs-Steps (x' ∷ xs) (y' ∷ ys) =
    let s = lcs-Steps xs (y' ∷ ys) in
    let t = lcs-Steps (x' ∷ xs) ys in
    let u = lcs-Steps xs ys in
    record {
      old_more = λ x. ground (arith, t.old_more x, t.new_one y', t.new_more y');
      new_more = λ y. ground (arith, s.new_more y, s.old_one x', s.old_more x');
      old_one = λ x. ground (arith, t.old_one x, t.new_more y', t.old_more x);
      new_one = λ y. ground (arith, s.new_one y, s.old_more x', s.new_more y);
    }

-- The rows of the table are the lengths for the suffixes of the new text.
lcs_row : List DiffLine → List DiffLine → List ℕ
lcs_row xs [] = 0 ∷ []
lcs_row xs (y ∷ ys) = lcs xs (y ∷ ys) ∷ lcs_row xs ys

first-lcs_row : (xs ys : List DiffLine) → first (lcs_row xs ys) ≡ lcs xs ys
unfolding lcs_row lcs
first-lcs_row [] [] = refl
first-lcs_row (x ∷ xs) [] = refl
first-lcs_row xs (y ∷ ys) = refl

row_of-lcs_row :
    (x : DiffLine) (xs ys : List DiffLine) → row_of x ys (lcs_row xs ys) ≡ lcs_row (x ∷ xs) ys
unfolding row_of lcs_row lcs
row_of-lcs_row x xs [] = refl
row_of-lcs_row x xs (y ∷ ys) =
    rw (row_of-lcs_row x xs ys, first-lcs_row xs ys, first-lcs_row (x ∷ xs) ys) refl

lcs_table : List DiffLine → List DiffLine → List (List ℕ)
lcs_table [] ys = lcs_row [] ys ∷ []
lcs_table (x ∷ xs) ys = lcs_row (x ∷ xs) ys ∷ lcs_table xs ys

first_row-lcs_table : (xs ys : List DiffLine) → first_row (lcs_table xs ys) ≡ lcs_row xs ys
unfolding lcs_table
first_row-lcs_table [] ys = refl
first_row-lcs_table (x ∷ xs) ys = refl

zero_row-lcs_row : (ys : List DiffLine) → zero_row ys ≡ lcs_row [] ys
unfolding zero_row lcs_row lcs
zero_row-lcs_row [] = refl
zero_row-lcs_row (y ∷ ys) = ap (◌∷◌ 0) (zero_row-lcs_row ys)

table_of-lcs_table : (xs ys : List DiffLine) → table_of xs ys ≡ lcs_table xs ys
unfolding table_of lcs_table
table_of-lcs_table [] ys = ap (λ r. r ∷ []) (zero_row-lcs_row ys)
table_of-lcs_table (x ∷ xs) ys =
    rw (table_of-lcs_table xs ys, first_row-lcs_table xs ys, row_of-lcs_row x xs ys) refl

first-drop-lcs_row :
    (j : ℕ) (xs ys : List DiffLine) → first (drop j (lcs_row xs ys)) ≡ lcs xs (drop j ys)
unfolding drop lcs_row lcs
first-drop-lcs_row ℕ.zero xs ys = first-lcs_row xs ys
first-drop-lcs_row (ℕ.suc j) [] [] = rw drop-nil refl
first-drop-lcs_row (ℕ.suc j) (x ∷ xs) [] = rw drop-nil refl
first-drop-lcs_row (ℕ.suc j) xs (y ∷ ys) = first-drop-lcs_row j xs ys

first_row-drop :
    (i : ℕ) (xs ys : List DiffLine) (j : ℕ)
    → first (drop j (first_row (drop i (lcs_table xs ys)))) ≡ lcs (drop i xs) (drop j ys)
unfolding drop lcs_table lcs
first_row-drop ℕ.zero xs ys j = rw (first_row-lcs_table xs ys) (first-drop-lcs_row j xs ys)
first_row-drop (ℕ.suc i) [] ys j = rw (drop-nil {A = List ℕ} i, drop-nil {A = ℕ} j) refl
first_row-drop (ℕ.suc i) (x ∷ xs) ys j = first_row-drop i xs ys j

-- Each cell of the table holds the length for what is left of both sides there.
pub cell-lcs :
    (before after : List DiffLine) (i j : ℕ)
    → cell (table_of before after) i j ≡ lcs (drop i before) (drop j after)
unfolding cell
cell-lcs before after i j = rw (table_of-lcs_table before after) (first_row-drop i before after j)
