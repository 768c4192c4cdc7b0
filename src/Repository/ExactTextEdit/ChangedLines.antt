-- ===== src/Repository/ExactTextEdit/ChangedLines.antt =====
-- No changed lines are counted exactly where nothing has changed.
use mathlib.Core.List.{reverse-cons, reverse-reverse}
use cope_code.Common.{
  ℕ, suc, ◌≤◌, ◌-◌, ◌≡◌, refl, sym, ap, ◌∙◌, ◌↔◌, inl, inr, ◌&&◌, ◌||◌, List, [], ◌∷◌, reverse,
  Text, text_is_eq, ◌==◌, ==_iff, arith, length, length-append, nat_eq, Bool-cases, glue,
  concat_map,
}
use cope_code.Repository.ExactTextEdit.{
  line_records, common_prefix, drop_lines, unmatched, count_changed_lines,
}

length-reverse : (xs : List Text) → length (reverse xs) ≡ length xs
length-reverse [] = refl
length-reverse (x ∷ xs) =
    ap length (reverse-cons x xs)
    ∙ omega (arith, length-append (reverse xs) (x ∷ []), length-reverse xs)

length-drop_lines : (n : ℕ) (xs : List Text) → length (drop_lines n xs) ≡ length xs - n
unfolding drop_lines
length-drop_lines ℕ.zero xs = omega arith
length-drop_lines (ℕ.suc n) [] = omega arith
length-drop_lines (ℕ.suc n) (x ∷ xs) = omega (arith, length-drop_lines n xs)

common_prefix-whole :
    (xs ys : List Text)
    → length xs ≤ common_prefix xs ys
    → length ys ≤ common_prefix xs ys
    → xs ≡ ys
unfolding common_prefix
common_prefix-whole [] [] h k = refl
common_prefix-whole [] (y ∷ ys) h k = ground arith
common_prefix-whole (x ∷ xs) [] h k = ground arith
common_prefix-whole (x ∷ xs) (y ∷ ys) h k = ground (arith, common_prefix-whole xs ys, ==_iff x y)

-- What follows the common records decides whether the lists are equal.
same_from :
    (xs ys : List Text)
    → drop_lines (common_prefix xs ys) xs ≡ drop_lines (common_prefix xs ys) ys
    → xs ≡ ys
unfolding common_prefix drop_lines
same_from [] ys h = h
same_from (x ∷ xs) [] h = h
same_from (x ∷ xs) (y ∷ ys) h = elim (Bool-cases (x == y)) [
  | inl same ↦
      ap (λ t. t ∷ xs) ((==_iff x y).0 same)
      ∙ ap (◌∷◌ y) (same_from xs ys (rw (same, drop_lines) at h))
  | inr apart ↦ rw (apart, drop_lines) at h
]

common_prefix_self : (xs : List Text) → common_prefix xs xs ≡ length xs
unfolding common_prefix
common_prefix_self [] = refl
common_prefix_self (x ∷ xs) =
    rw (common_prefix, (==_iff x x).1 refl) (ap suc (common_prefix_self xs))

reverse-same : (xs ys : List Text) → reverse xs ≡ reverse ys → xs ≡ ys
reverse-same xs ys h = sym (reverse-reverse xs) ∙ ap reverse h ∙ reverse-reverse ys

unmatched-same : (xs ys : List Text) → unmatched xs ys ≡ 0 → xs ≡ ys
unfolding unmatched
unmatched-same xs ys h =
    let p = common_prefix xs ys in
    let before = drop_lines p xs in
    let after = drop_lines p ys in
    same_from xs ys (
      reverse-same before after (
        common_prefix-whole (reverse before) (reverse after)
          (omega (arith, h, length-reverse before, length-drop_lines p xs))
          (omega (arith, h, length-reverse after, length-drop_lines p ys))))

unmatched_self : (xs : List Text) → unmatched xs xs ≡ 0
unfolding unmatched
unmatched_self xs = omega (arith, common_prefix_self xs)

abbrev joined : List Text → Text
joined lines = concat_map (λ line. line) lines

joined-glue : (c : ℕ) (lines : List Text) → joined (glue c lines) ≡ c ∷ joined lines
unfolding concat_map
joined-glue c [] = refl
joined-glue c (l ∷ ls) = refl

joined-line_records : (s : Text) → joined (line_records s) ≡ s
unfolding line_records concat_map
joined-line_records [] = refl
joined-line_records (c ∷ []) = refl
joined-line_records (c ∷ d ∷ s) = elim (Bool-cases (nat_eq c 13 && nat_eq d 10)) [
  | inl pair ↦ rw (line_records, pair) (ap (λ t. c ∷ d ∷ t) (joined-line_records s))
  | inr apart ↦ elim (Bool-cases (nat_eq c 13 || nat_eq c 10)) [
    | inl end ↦ rw (line_records, apart, end) (ap (◌∷◌ c) (joined-line_records (d ∷ s)))
    | inr inside ↦
        rw (line_records, apart, inside)
          (joined-glue c (line_records (d ∷ s)) ∙ ap (◌∷◌ c) (joined-line_records (d ∷ s)))
  ]
]

-- The count of changed lines is 0 exactly for equal contents: no edit that changes a file, not even
-- in the ends of its lines only, is counted as none.
pub count_changed_lines-zero :
    (before after : Text) → (count_changed_lines before after ≡ 0) ↔ (before ≡ after)
unfolding count_changed_lines
count_changed_lines-zero before after = (
  λ none_changed.
      sym (joined-line_records before)
      ∙ ap joined (unmatched-same (line_records before) (line_records after) none_changed)
      ∙ joined-line_records after,
  λ same. ap (count_changed_lines before) (sym same) ∙ unmatched_self (line_records before),
)
