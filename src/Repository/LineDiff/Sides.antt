-- ===== src/Repository/LineDiff/Sides.antt =====
-- A diff holds both sides: without its additions it is the old text, without its deletions the new.
use mathlib.Core.List.{reverse-cons, reverse-append, reverse-reverse}
use cope_code.Common.{
  ℕ, suc, ◌+◌, ◌-◌, ◌*◌, ◌≤◌, ◌≡◌, refl, sym, ap, ◌∙◌, true, ◌&&◌, List, [], ◌∷◌, ◌++◌, map,
  reverse, text_eq_iff, Bool-cases, leb, max_safe, inl, inr, length, take, drop, take-append-drop,
  length-drop, length-append, drop-nil, arith,
}
use cope_code.Repository.LineDiff.{
  DiffLine, equal, delete, add, DiffOperation, operation, same_line, walk, lcs_diff, common_prefix,
  common_suffix, prefix_suffix_diff, diff_lines, table_of,
}

unfoldable pub old_side : List DiffOperation → List DiffLine
old_side [] = []
old_side (o ∷ os) = elim o.kind [
  | equal ↦ o.line ∷ old_side os
  | delete ↦ o.line ∷ old_side os
  | add ↦ old_side os
]

unfoldable pub new_side : List DiffOperation → List DiffLine
new_side [] = []
new_side (o ∷ os) = elim o.kind [
  | equal ↦ o.line ∷ new_side os
  | add ↦ o.line ∷ new_side os
  | delete ↦ new_side os
]

pub same_line-eq : (x y : DiffLine) → same_line x y ≡ true → x ≡ y
unfolding same_line
same_line-eq x y h = ground (arith, text_eq_iff x.text y.text)

walk-old_side :
    (table : List (List ℕ)) (i j : ℕ) (before after : List DiffLine)
    → old_side (walk table i j before after) ≡ before
unfolding walk old_side
walk-old_side table i j [] [] = refl
walk-old_side table i j [] (y ∷ ys) = walk-old_side table i (suc j) [] ys
walk-old_side table i j (x ∷ xs) [] = ap (◌∷◌ x) (walk-old_side table (suc i) j xs [])
walk-old_side table i j (x ∷ xs) (y ∷ ys) = ground (
  arith,
  walk-old_side table (suc i) (suc j) xs ys,
  walk-old_side table i (suc j) (x ∷ xs) ys,
  walk-old_side table (suc i) j xs (y ∷ ys),
)

walk-new_side :
    (table : List (List ℕ)) (i j : ℕ) (before after : List DiffLine)
    → new_side (walk table i j before after) ≡ after
unfolding walk new_side
walk-new_side table i j [] [] = refl
walk-new_side table i j [] (y ∷ ys) = ap (◌∷◌ y) (walk-new_side table i (suc j) [] ys)
walk-new_side table i j (x ∷ xs) [] = walk-new_side table (suc i) j xs []
walk-new_side table i j (x ∷ xs) (y ∷ ys) = ground (
  arith,
  same_line-eq x y,
  walk-new_side table (suc i) (suc j) xs ys,
  walk-new_side table i (suc j) (x ∷ xs) ys,
  walk-new_side table (suc i) j xs (y ∷ ys),
)

old_side-append : (a b : List DiffOperation) → old_side (a ++ b) ≡ old_side a ++ old_side b
unfolding old_side
old_side-append [] b = refl
old_side-append (o ∷ a) b = ground (arith, old_side-append a b)

new_side-append : (a b : List DiffOperation) → new_side (a ++ b) ≡ new_side a ++ new_side b
unfolding new_side
new_side-append [] b = refl
new_side-append (o ∷ a) b = ground (arith, new_side-append a b)

old_side-equal : (xs : List DiffLine) → old_side (map (operation equal) xs) ≡ xs
unfolding old_side
old_side-equal [] = refl
old_side-equal (x ∷ xs) = ap (◌∷◌ x) (old_side-equal xs)

old_side-delete : (xs : List DiffLine) → old_side (map (operation delete) xs) ≡ xs
unfolding old_side
old_side-delete [] = refl
old_side-delete (x ∷ xs) = ap (◌∷◌ x) (old_side-delete xs)

old_side-add : (xs : List DiffLine) → old_side (map (operation add) xs) ≡ []
unfolding old_side
old_side-add [] = refl
old_side-add (x ∷ xs) = old_side-add xs

new_side-equal : (xs : List DiffLine) → new_side (map (operation equal) xs) ≡ xs
unfolding new_side
new_side-equal [] = refl
new_side-equal (x ∷ xs) = ap (◌∷◌ x) (new_side-equal xs)

new_side-delete : (xs : List DiffLine) → new_side (map (operation delete) xs) ≡ []
unfolding new_side
new_side-delete [] = refl
new_side-delete (x ∷ xs) = new_side-delete xs

new_side-add : (xs : List DiffLine) → new_side (map (operation add) xs) ≡ xs
unfolding new_side
new_side-add [] = refl
new_side-add (x ∷ xs) = ap (◌∷◌ x) (new_side-add xs)

-- The common ends.
common_prefix-le :
    (xs ys : List DiffLine) → (common_prefix xs ys ≤ length xs) × (common_prefix xs ys ≤ length ys)
unfolding common_prefix
common_prefix-le [] ys = (omega arith, omega arith)
common_prefix-le (x ∷ xs) [] = (omega arith, omega arith)
common_prefix-le (x ∷ xs) (y ∷ ys) = ground (arith, common_prefix-le xs ys)

take-common_prefix :
    (xs ys : List DiffLine) → take (common_prefix xs ys) xs ≡ take (common_prefix xs ys) ys
unfolding common_prefix take
take-common_prefix [] ys = refl
take-common_prefix (x ∷ xs) [] = refl
take-common_prefix (x ∷ xs) (y ∷ ys) = ground (arith, same_line-eq x y, take-common_prefix xs ys)

length-reverse : (xs : List DiffLine) → length (reverse xs) ≡ length xs
length-reverse [] = refl
length-reverse (x ∷ xs) =
    ap length (reverse-cons x xs)
    ∙ omega (arith, length-append (reverse xs) (x ∷ []), length-reverse xs)

drop-append : (xs ys : List DiffLine) → drop (length xs) (xs ++ ys) ≡ ys
unfolding drop
drop-append [] ys = refl
drop-append (x ∷ xs) ys = drop-append xs ys

drop-drop : (m n : ℕ) (xs : List DiffLine) → drop m (drop n xs) ≡ drop (n + m) xs
unfolding drop
drop-drop m ℕ.zero xs = ap (λ k. drop k xs) (omega arith)
drop-drop m (ℕ.suc n) [] = drop-nil m ∙ sym (drop-nil (suc n + m))
drop-drop m (ℕ.suc n) (x ∷ xs) =
    drop-drop m n xs ∙ let e : suc n + m ≡ suc (n + m) = omega arith in rw e refl

-- The end of a list, from its reverse.
drop_end :
    (s : ℕ) (xs : List DiffLine)
    → s ≤ length xs
    → drop (length xs - s) xs ≡ reverse (take s (reverse xs))
drop_end s xs h =
    let zs = reverse xs in
    let whole : reverse (drop s zs) ++ reverse (take s zs) ≡ xs =
      sym (reverse-append (take s zs) (drop s zs))
      ∙ ap reverse (take-append-drop s zs)
      ∙ reverse-reverse xs in
    let long : length (reverse (drop s zs)) ≡ length xs - s =
      omega (arith, length-reverse (drop s zs), length-drop s zs, length-reverse xs) in
    ap (λ k. drop k xs) (sym long)
    ∙ ap (drop (length (reverse (drop s zs)))) (sym whole)
    ∙ drop-append (reverse (drop s zs)) (reverse (take s zs))

-- The two tests of the loops, put together.
record Ends (before after : List DiffLine) (p s : ℕ) : Type 0 where
  front : take p before ≡ take p after
  back : drop (length before - s) before ≡ drop (length after - s) after
  old_room : p + s ≤ length before
  new_room : p + s ≤ length after

ends :
    (before after : List DiffLine)
    → Ends before after
        (common_prefix before after)
        (common_suffix (common_prefix before after) before after)
unfolding common_suffix
ends before after =
    let p = common_prefix before after in
    let b = drop p before in
    let a = drop p after in
    let s = common_prefix (reverse b) (reverse a) in
    let (old_fits, new_fits) = common_prefix-le before after in
    let (old_left, new_left) = common_prefix-le (reverse b) (reverse a) in
    let old_room : p + s ≤ length before =
      omega (arith, old_fits, old_left, length-reverse b, length-drop p before) in
    let new_room : p + s ≤ length after =
      omega (arith, new_fits, new_left, length-reverse a, length-drop p after) in
    record {
      front = take-common_prefix before after;
      back =
          last_part p s before old_room
          ∙ ap reverse (take-common_prefix (reverse b) (reverse a))
          ∙ sym (last_part p s after new_room);
      old_room = old_room;
      new_room = new_room;
    }
  where
    last_part :
        (p s : ℕ) (xs : List DiffLine)
        → p + s ≤ length xs
        → drop (length xs - s) xs ≡ reverse (take s (reverse (drop p xs)))
    last_part p s xs h =
        ap (λ k. drop k xs) (omega (arith, h, length-drop p xs))
        ∙ sym (drop-drop (length (drop p xs) - s) p xs)
        ∙ drop_end s (drop p xs) (omega (arith, h, length-drop p xs))

-- A list is its front, its middle and its end.
three_parts :
    (p s : ℕ) (xs : List DiffLine)
    → p + s ≤ length xs
    → take p xs ++ (take (length xs - s - p) (drop p xs) ++ drop (length xs - s) xs) ≡ xs
three_parts p s xs h =
    let m = length xs - s - p in
    ap (λ e. take p xs ++ (take m (drop p xs) ++ drop e xs)) (omega (arith, h))
    ∙ ap (λ e. take p xs ++ (take m (drop p xs) ++ e)) (sym (drop-drop m p xs))
    ∙ ap (◌++◌ (take p xs)) (take-append-drop m (drop p xs))
    ∙ take-append-drop p xs

ruleset side_laws = (
  old_side-append, new_side-append, old_side-equal, old_side-delete, old_side-add, new_side-equal,
  new_side-delete, new_side-add,
)

prefix_suffix-sides :
    (before after : List DiffLine)
    → (old_side (prefix_suffix_diff before after) ≡ before)
      × (new_side (prefix_suffix_diff before after) ≡ after)
unfolding prefix_suffix_diff
prefix_suffix-sides before after =
    let p = common_prefix before after in
    let s = common_suffix p before after in
    let e = ends before after in
    (
      simp side_laws (three_parts p s before e.old_room),
      simp side_laws (rw (e.front, e.back) (three_parts p s after e.new_room)),
    )

-- A diff is faithful to both texts: its lines without the added ones are the old text, and without the
-- deleted ones the new text, for the table of common lines as for the ends that very long texts get.
pub diff_lines-sides :
    (before after : List DiffLine)
    → (old_side (diff_lines before after) ≡ before) × (new_side (diff_lines before after) ≡ after)
unfolding diff_lines lcs_diff
diff_lines-sides before after =
    elim (Bool-cases (
      leb (suc (length before) * suc (length after)) max_safe
      && leb (suc (length before) * suc (length after)) 1_000_000)) [
        | inl small ↦
            rw (small, diff_lines)
              (
                walk-old_side (table_of before after) 0 0 before after,
                walk-new_side (table_of before after) 0 0 before after,
              )
        | inr large ↦ rw (large, diff_lines) (prefix_suffix-sides before after)
      ]
