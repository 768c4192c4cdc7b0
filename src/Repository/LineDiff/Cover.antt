-- ===== src/Repository/LineDiff/Cover.antt =====
-- Every change stands in a hunk with its context, and the hunks do not meet.
use cope_code.Common.{
  ℕ, suc, ◌+◌, ◌-◌, ◌≤◌, ◌<◌, min, ◌≡◌, ap, refl, sym, ◌∙◌, subst, ◌++◌, map, take, drop, drop-nil,
  take-append-drop, length-drop, ◌⊎◌, inl, inr, true, List, [], ◌∷◌, length, arith,
}
use cope_code.Repository.LineDiff.{DiffOperation}
use cope_code.Repository.LineDiff.Ranges.{IsCovered, IsApart, from-IsCovered, from-IsApart}
use cope_code.Repository.LineDiff.Hunks.{
  Range, PositionedOperation, positioned_from, Hunk, hunk_of, diff_hunks, ranges_from, change_at,
}

-- A hunk's operations stand together among the operations of the diff, from the one index to the other
-- at least.
abbrev pub Shows : List PositionedOperation → ℕ → ℕ → Hunk → Type 0
Shows positioned low high h =
    (before : List PositionedOperation) × (after : List PositionedOperation) × (positioned
      ≡ before ++ (h.operations ++ after))
    × (length before ≤ low)
    × (high < length before + length h.operations)

abbrev pub IsShown : List PositionedOperation → ℕ → ℕ → List Hunk → Type 0
IsShown positioned low high [] = ⊥
IsShown positioned low high (h ∷ hs) = Shows positioned low high h ⊎ IsShown positioned low high hs

-- Hunks that stand one after the other among the operations, with at least one operation between two
-- of them, and `gap` in front of the first.
abbrev pub AreApart : ℕ → List PositionedOperation → List Hunk → Type 0
AreApart gap positioned [] = Unit
AreApart gap positioned (h ∷ hs) =
    (before : List PositionedOperation) × (after : List PositionedOperation) × (positioned
      ≡ before ++ (h.operations ++ after))
    × (gap ≤ length before)
    × (1 ≤ length h.operations)
    × AreApart 1 after hs

drop-drop : (m n : ℕ) (ps : List PositionedOperation) → drop m (drop n ps) ≡ drop (n + m) ps
unfolding drop
drop-drop m ℕ.zero ps = ap (λ k. drop k ps) (zero_first m)
  where
    zero_first : (m : ℕ) → m ≡ 0 + m
    zero_first m = omega arith
drop-drop m (ℕ.suc n) [] = drop-nil m ∙ sym (drop-nil (suc n + m))
drop-drop m (ℕ.suc n) (p ∷ ps) = drop-drop m n ps ∙ ap (λ k. drop k (p ∷ ps)) (next m n)
  where
    next : (m n : ℕ) → suc (n + m) ≡ suc n + m
    next m n = omega arith

length-take : (n : ℕ) (ps : List PositionedOperation) → n ≤ length ps → length (take n ps) ≡ n
unfolding take
length-take ℕ.zero ps h = refl
length-take (ℕ.suc n) [] h = absurd (omega arith)
length-take (ℕ.suc n) (p ∷ ps) h = ap suc (length-take n ps (omega arith))

length-positioned_from :
    (m n : ℕ) (os : List DiffOperation) → length (positioned_from m n os) ≡ length os
unfolding positioned_from
length-positioned_from m n [] = refl
length-positioned_from m n (o ∷ os) = ap suc (length-positioned_from _ _ os)

-- A range cuts the operations in three.
module _ (ps : List PositionedOperation) (r : Range) (from : ℕ) (starts : from ≤ r.start)
    (ordered : r.start ≤ r.end) (within : r.end < length ps) where
  cut_in_three :
      drop from ps
      ≡ take (r.start - from) (drop from ps) ++ ((hunk_of ps r).operations ++ drop (suc r.end) ps)
  unfolding hunk_of
  cut_in_three =
      let size = suc r.end - r.start in
      let tail : drop size (drop r.start ps) ≡ drop (suc r.end) ps =
        drop-drop size r.start ps
        ∙ ap (λ k. drop k ps) {x = r.start + size} {y = suc r.end} (omega arith) in
      let middle : drop (r.start - from) (drop from ps) ≡ drop r.start ps =
        drop-drop (r.start - from) from ps
        ∙ ap (λ k. drop k ps) {x = from + (r.start - from)} {y = r.start} (omega arith) in
      sym (take-append-drop (r.start - from) (drop from ps))
      ∙ ap (λ rest. take (r.start - from) (drop from ps) ++ rest)
          (middle
            ∙ sym (take-append-drop size (drop r.start ps))
            ∙ ap (λ rest. take size (drop r.start ps) ++ rest) tail)

  length-before : length (take (r.start - from) (drop from ps)) ≡ r.start - from
  length-before = length-take (r.start - from) (drop from ps) (omega (arith, length-drop from ps))

  length-hunk_of : length (hunk_of ps r).operations ≡ suc r.end - r.start
  unfolding hunk_of
  length-hunk_of =
      length-take (suc r.end - r.start) (drop r.start ps) (omega (arith, length-drop r.start ps))

range-Shows :
    (ps : List PositionedOperation) (low high : ℕ) (r : Range)
    → r.start ≤ r.end
    → r.end < length ps
    → r.start ≤ low
    → high ≤ r.end
    → Shows ps low high (hunk_of ps r)
unfolding drop
range-Shows ps low high r ordered within a b =
    let first : 0 ≤ r.start = omega arith in
    let size = length-hunk_of ps r 0 first ordered within in
    let front = length-before ps r 0 first ordered within in
    (
      take (r.start - 0) ps,
      drop (suc r.end) ps,
      cut_in_three ps r 0 first ordered within,
      omega (arith, front),
      omega (arith, front, size),
    )

IsCovered-IsShown :
    (ps : List PositionedOperation) (low high : ℕ) (rs : List Range)
    → IsApart (length ps) rs
    → IsCovered low high rs
    → IsShown ps low high (map (hunk_of ps) rs)
IsCovered-IsShown ps low high [] apart c = absurd c
IsCovered-IsShown ps low high (r ∷ []) (ordered, within) (inl (a, b)) =
    inl (range-Shows ps low high r ordered within a b)
IsCovered-IsShown ps low high (r ∷ s ∷ rs) (ordered, within, gap, apart) (inl (a, b)) =
    inl (range-Shows ps low high r ordered within a b)
IsCovered-IsShown ps low high (r ∷ []) apart (inr c) = absurd c
IsCovered-IsShown ps low high (r ∷ s ∷ rs) (ordered, within, gap, apart) (inr c) =
    inr (IsCovered-IsShown ps low high (s ∷ rs) apart c)

abbrev StartsFrom : ℕ → List Range → Type 0
StartsFrom n [] = Unit
StartsFrom n (r ∷ rs) = n ≤ r.start

IsApart-AreApart :
    (ps : List PositionedOperation) (from gap : ℕ) (rs : List Range)
    → IsApart (length ps) rs
    → StartsFrom (from + gap) rs
    → AreApart gap (drop from ps) (map (hunk_of ps) rs)
IsApart-AreApart ps from gap [] apart starts = tt
IsApart-AreApart ps from gap (r ∷ []) (ordered, within) starts =
    let first : from ≤ r.start = omega arith in
    let front = length-before ps r from first ordered within in
    let size = length-hunk_of ps r from first ordered within in
    (
      take (r.start - from) (drop from ps),
      drop (suc r.end) ps,
      cut_in_three ps r from first ordered within,
      omega (arith, front),
      omega (arith, size),
      tt,
    )
IsApart-AreApart ps from gap (r ∷ s ∷ rs) (ordered, within, next, apart) starts =
    let first : from ≤ r.start = omega arith in
    let front = length-before ps r from first ordered within in
    let size = length-hunk_of ps r from first ordered within in
    (
      take (r.start - from) (drop from ps),
      drop (suc r.end) ps,
      cut_in_three ps r from first ordered within,
      omega (arith, front),
      omega (arith, size),
      IsApart-AreApart ps (suc r.end) 1 (s ∷ rs) apart (omega arith),
    )

starts_from : (rs : List Range) → StartsFrom 0 rs
starts_from [] = tt
starts_from (r ∷ rs) = omega arith

-- The hunks of a diff are pieces of its operations, in order, none empty and with at least one
-- operation between two of them; and every change of the diff stands in one of them, with the lines of
-- context before and after it, as far as the diff has them.
pub diff_hunks_bounds :
    (context : ℕ) (os : List DiffOperation)
    → AreApart 0 (positioned_from 1 1 os) (diff_hunks os context)
      × ((k : ℕ)
          → change_at k os ≡ true
          → IsShown
              (positioned_from 1 1 os)
              (k - context)
              (min (length os - 1) (k + context))
              (diff_hunks os context))
unfolding diff_hunks drop
diff_hunks_bounds context os =
    let ps = positioned_from 1 1 os in
    let rs = ranges_from context (length os) 0 os in
    let apart : IsApart (length ps) rs =
      subst (λ n. IsApart n rs) (sym (length-positioned_from 1 1 os))
        (from-IsApart context (length os) 0 os (omega arith)) in
    (
      IsApart-AreApart ps 0 0 rs apart (starts_from rs),
      λ k c.
          IsCovered-IsShown ps (k - context) (min (length os - 1) (k + context)) rs apart
            (from-IsCovered context (length os) 0 k k os (omega arith) c),
    )
