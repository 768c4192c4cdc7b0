-- ===== src/Repository/DiffText/Changes.antt =====
-- A diff has a hunk if and only if the text has changed.
use cope_code.Common.{
  All-append, ℕ, suc, ◌-◌, ◌*◌, ◌≡◌, refl, sym, ap, ◌∙◌, subst, ◌↔◌, inl, inr, Bool, true, false,
  ◌&&◌, List, [], ◌∷◌, map, Text, text_eq_iff, if◌then◌else◌, leb, take, drop, All, length,
  max_safe, Bool-cases, arith,
}
use cope_code.Repository.LineDiff.{
  DiffLine, Change, equal, delete, add, DiffOperation, operation, same_line, walk, lcs_diff,
  table_of, common_prefix, common_suffix, prefix_suffix_diff, diff_lines,
}
use cope_code.Repository.LineDiff.Sides.{old_side, new_side, diff_lines-sides}
use cope_code.Repository.LineDiff.Hunks.{
  is_change, Range, range_at, touches, widened, ranges_after, ranges_from, diff_hunks, hunk_of,
  positioned_from,
}
use cope_code.Repository.DiffText.{lines_of}
use cope_code.Repository.DiffText.Lines.{joined, joined-lines_of}

abbrev IsSame : DiffOperation → Type 0
IsSame o = is_change o.kind ≡ false

abbrev IsFilled : List Range → Type 0
IsFilled rs = (r : Range) × (more : List Range) × (rs ≡ r ∷ more)

if_IsFilled :
    (b : Bool) (xs ys : List Range) → IsFilled xs → IsFilled ys → IsFilled (if b then xs else ys)
if_IsFilled true xs ys h k = h
if_IsFilled false xs ys h k = k

if_empty :
    (b : Bool) (xs ys : List Range)
    → IsFilled xs
    → (if b then xs else ys) ≡ []
    → (b ≡ false) × (ys ≡ [])
if_empty true xs ys (r, more, is) h = absurd (cc (sym is ∙ h))
if_empty false xs ys filled h = (refl, h)

-- A range that the loop has started ends up in the result.
ranges_after-IsFilled :
    (context total : ℕ) (prior : Range) (index : ℕ) (os : List DiffOperation)
    → IsFilled (ranges_after context total prior index os)
unfolding ranges_after
ranges_after-IsFilled context total prior index [] = (prior, [], refl)
ranges_after-IsFilled context total prior index (o ∷ os) =
    let next = range_at context total index in
    let after_next = ranges_after context total next (suc index) os in
    if_IsFilled (is_change o.kind) _ _
      (if_IsFilled (touches prior next) _ _
        (ranges_after-IsFilled context total (widened prior next) (suc index) os)
        (prior, after_next, refl))
      (ranges_after-IsFilled context total prior (suc index) os)

ranges_from-changed :
    (context total index : ℕ) (os : List DiffOperation)
    → ranges_from context total index os ≡ []
    → All IsSame os
unfolding ranges_from
ranges_from-changed context total index [] h = tt
ranges_from-changed context total index (o ∷ os) h =
    let (same, later) =
      if_empty (is_change o.kind) _ _
        (ranges_after-IsFilled context total (range_at context total index) (suc index) os) h in
    (same, ranges_from-changed context total (suc index) os later)

ranges_from-same :
    (context total index : ℕ) (os : List DiffOperation)
    → All IsSame os
    → ranges_from context total index os ≡ []
unfolding ranges_from
ranges_from-same context total index [] h = refl
ranges_from-same context total index (o ∷ os) (same, rest) =
    rw (same, ranges_from-same context total (suc index) os rest) refl

same_sides : (os : List DiffOperation) → All IsSame os → old_side os ≡ new_side os
unfolding old_side new_side
same_sides [] h = refl
same_sides (o ∷ os) (same, rest) = kept o.kind same (same_sides os rest)
  where
    kept :
        (kind : Change)
        → is_change kind ≡ false
        → old_side os ≡ new_side os
        → old_side (operation kind o.line ∷ os) ≡ new_side (operation kind o.line ∷ os)
    kept equal h is = ap (◌∷◌ o.line) is
    kept delete h is = absurd (cc h)
    kept add h is = absurd (cc h)

same_line_self : (l : DiffLine) → same_line l l ≡ true
unfolding same_line
same_line_self l = ground (arith, text_eq_iff l.text l.text)

walk-IsSame :
    (table : List (List ℕ)) (i : ℕ) (ls : List DiffLine) → All IsSame (walk table i i ls ls)
unfolding walk
walk-IsSame table i [] = tt
walk-IsSame table i (l ∷ ls) = rw (same_line_self l) (refl, walk-IsSame table (suc i) ls)

common_prefix_self : (ls : List DiffLine) → common_prefix ls ls ≡ length ls
unfolding common_prefix
common_prefix_self [] = refl
common_prefix_self (l ∷ ls) = rw (same_line_self l, common_prefix_self ls) refl

All-operation : (ls : List DiffLine) → All IsSame (map (operation equal) ls)
All-operation [] = tt
All-operation (l ∷ ls) = (refl, All-operation ls)

drop-length : (ls : List DiffLine) → drop (length ls) ls ≡ []
unfolding drop
drop-length [] = refl
drop-length (l ∷ ls) = drop-length ls

prefix_suffix_diff-IsSame : (ls : List DiffLine) → All IsSame (prefix_suffix_diff ls ls)
unfolding prefix_suffix_diff common_suffix take
prefix_suffix_diff-IsSame ls =
    rw (common_prefix_self ls, drop-length ls, past ls)
      (All-append IsSame (map (operation equal) (take (length ls) ls))
        (map (operation equal) (drop (length ls - 0) ls)) (All-operation (take (length ls) ls))
        (All-operation (drop (length ls - 0) ls)))
  where
    past : (ls : List DiffLine) → length ls - 0 - length ls ≡ 0
    past ls = omega arith

diff_lines-IsSame : (ls : List DiffLine) → All IsSame (diff_lines ls ls)
unfolding diff_lines lcs_diff
diff_lines-IsSame ls =
    elim (Bool-cases (
      leb (suc (length ls) * suc (length ls)) max_safe
      && leb (suc (length ls) * suc (length ls)) 1_000_000)) [
        | inl small ↦ rw small (walk-IsSame (table_of ls ls) 0 ls)
        | inr large ↦ rw large (prefix_suffix_diff-IsSame ls)
      ]

map-empty {ℓ κ} : {A : Type ℓ} {B : Type κ} (f : A → B) (xs : List A) → map f xs ≡ [] → xs ≡ []
map-empty f [] h = refl
map-empty f (x ∷ xs) h = absurd (cc h)

-- A file whose text has changed, were it by a carriage return or by the line break at its end, has a
-- hunk in its diff, and one whose text has not changed has none.
pub diff_hunks-none :
    (old new : Text) (context : ℕ)
    → (diff_hunks (diff_lines (lines_of old) (lines_of new)) context ≡ []) ↔ (old ≡ new)
unfolding diff_hunks
diff_hunks-none old new context =
    let os = diff_lines (lines_of old) (lines_of new) in
    (
      λ none.
          let same = ranges_from-changed context (length os) 0 os (map-empty _ _ none) in
          let (olds, news) = diff_lines-sides (lines_of old) (lines_of new) in
          sym (joined-lines_of old)
          ∙ ap joined (sym olds ∙ same_sides os same ∙ news)
          ∙ joined-lines_of new,
      λ is.
          let same : All IsSame os =
            subst (λ t. All IsSame (diff_lines (lines_of old) (lines_of t))) is
              (diff_lines-IsSame (lines_of old)) in
          ap (map (hunk_of (positioned_from 1 1 os)))
            (ranges_from-same context (length os) 0 os same),
    )
