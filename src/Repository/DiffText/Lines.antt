-- ===== src/Repository/DiffText/Lines.antt =====
-- The lines of a text hold all of it, and a text that has changed has a hunk.
use mathlib.Core.List.{append_assoc, append-nil}
use cope_code.Common.{
  ℕ, ◌≡◌, refl, sym, ap, ◌∙◌, inl, inr, true, false, List, [], ◌∷◌, ◌++◌, Text, if◌then◌else◌,
  nat_eq, nat_eq_iff, split, glue, Bool-cases,
}
use cope_code.Repository.LineDiff.{DiffLine}
use cope_code.Repository.DiffText.{ends_line, without_last, marked_lines, lines_of}

-- The text that lines stand for.
unfoldable pub joined : List DiffLine → Text
joined [] = []
joined (l ∷ ls) = l.text ++ (if l.no_newline then joined ls else 10 ∷ joined ls)

abbrev with_breaks : List Text → Text
with_breaks [] = []
with_breaks (v ∷ []) = v
with_breaks (v ∷ w ∷ vs) = v ++ 10 ∷ with_breaks (w ∷ vs)

split-Filled : (s : Text) → (v : Text) × (vs : List Text) × (split 10 s ≡ v ∷ vs)
unfolding split
split-Filled [] = ([], [], refl)
split-Filled (c ∷ s) = elim (Bool-cases (nat_eq c 10)) [
  | inl same ↦ ([], split 10 s, rw same refl)
  | inr other ↦ let (v, vs, is) = split-Filled s in (c ∷ v, vs, rw other (ap (glue c) is))
]

with_breaks-glue :
    (c : ℕ) (v : Text) (vs : List Text) → with_breaks (glue c (v ∷ vs)) ≡ c ∷ with_breaks (v ∷ vs)
with_breaks-glue c v [] = refl
with_breaks-glue c v (w ∷ vs) = refl

with_breaks-break :
    (v : Text) (vs : List Text) → with_breaks ([] ∷ v ∷ vs) ≡ 10 ∷ with_breaks (v ∷ vs)
with_breaks-break v vs = refl

with_breaks-split : (s : Text) → with_breaks (split 10 s) ≡ s
unfolding split
with_breaks-split [] = refl
with_breaks-split (c ∷ s) =
    let (v, vs, is) = split-Filled s in
    let kept : with_breaks (v ∷ vs) ≡ s = ap with_breaks (sym is) ∙ with_breaks-split s in
    elim (Bool-cases (nat_eq c 10)) [
      | inl same ↦ rw same (
          ap (λ ps. with_breaks ([] ∷ ps)) is
          ∙ ap (◌∷◌ 10) kept
          ∙ ap (λ d. d ∷ s) (sym ((nat_eq_iff c 10).0 same)))
      | inr other ↦
          rw other
            (ap (λ ps. with_breaks (glue c ps)) is ∙ with_breaks-glue c v vs ∙ ap (◌∷◌ c) kept)
    ]

joined-open :
    (v : Text) (vs : List Text) → joined (marked_lines false (v ∷ vs)) ≡ with_breaks (v ∷ vs)
unfolding joined marked_lines
joined-open v [] = append-nil v
joined-open v (w ∷ vs) = ap (λ t. v ++ 10 ∷ t) (joined-open w vs)

joined-ended :
    (v : Text) (vs : List Text)
    → joined (marked_lines true (v ∷ vs)) ≡ with_breaks (v ∷ vs) ++ 10 ∷ []
unfolding joined marked_lines
joined-ended v [] = refl
joined-ended v (w ∷ vs) =
    ap (λ t. v ++ 10 ∷ t) (joined-ended w vs)
    ∙ sym (append_assoc v (10 ∷ with_breaks (w ∷ vs)) (10 ∷ []))

-- A text that ends a line, without its last line break.
ends_line-Ended : (s : Text) → ends_line s ≡ true → (t : Text) × (s ≡ t ++ 10 ∷ [])
unfolding ends_line
ends_line-Ended [] h = absurd (cc h)
ends_line-Ended (c ∷ []) h = ([], ap (λ d. d ∷ []) ((nat_eq_iff c 10).0 h))
ends_line-Ended (c ∷ d ∷ s) h = let (t, is) = ends_line-Ended (d ∷ s) h in (c ∷ t, ap (◌∷◌ c) is)

split-ended : (t : Text) → split 10 (t ++ 10 ∷ []) ≡ split 10 t ++ [] ∷ []
unfolding split
split-ended [] = refl
split-ended (c ∷ t) = elim (Bool-cases (nat_eq c 10)) [
  | inl same ↦ rw same (ap (◌∷◌ []) (split-ended t))
  | inr other ↦
      let (v, vs, is) = split-Filled t in
      rw other (
        ap (glue c) (split-ended t)
        ∙ ap (λ ps. glue c (ps ++ [] ∷ [])) is
        ∙ ap (λ ps. glue c ps ++ [] ∷ []) (sym is))
]

without_last-append : (vs : List Text) (w : Text) → without_last (vs ++ w ∷ []) ≡ vs
unfolding without_last
without_last-append [] w = refl
without_last-append (v ∷ []) w = refl
without_last-append (v ∷ u ∷ vs) w = ap (◌∷◌ v) (without_last-append (u ∷ vs) w)

-- The lines of a text, joined, are the text: its line breaks and its carriage returns are kept, and
-- so is what tells that it does not end a line.
pub joined-lines_of : (s : Text) → joined (lines_of s) ≡ s
unfolding lines_of
joined-lines_of s = elim (Bool-cases (ends_line s)) [
  | inl ended ↦
      let (t, is) = ends_line-Ended s ended in
      let (v, vs, parts) = split-Filled t in
      let front : without_last (split 10 s) ≡ v ∷ vs =
        ap (λ u. without_last (split 10 u)) is
        ∙ ap without_last (split-ended t)
        ∙ without_last-append (split 10 t) []
        ∙ parts in
      rw (ended, front)
        (joined-ended v vs
          ∙ ap (λ u. u ++ 10 ∷ []) (ap with_breaks (sym parts) ∙ with_breaks-split t)
          ∙ sym is)
  | inr not_ended ↦
      let (v, vs, parts) = split-Filled s in
      rw (not_ended, parts) (joined-open v vs ∙ ap with_breaks (sym parts) ∙ with_breaks-split s)
]
