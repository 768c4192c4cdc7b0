-- ===== src/Repository/LineDiff/Ranges.antt =====
-- The ranges of the loop of diffHunks: every change is covered with its context, and they do not meet.
use cope_code.Common.{
  ℕ, suc, ◌+◌, ◌-◌, ◌≤◌, ◌<◌, min, ◌≡◌, ap, refl, ◌⊎◌, inl, inr, true, List, [], ◌∷◌, length,
  Bool-cases, arith,
}
use cope_code.Repository.LineDiff.{DiffOperation}
use cope_code.Repository.LineDiff.Hunks.{
  is_change, Range, range_at, touches, widened, ranges_after, ranges_from, change_at,
}

-- Some range reaches from the one index to the other.
abbrev pub IsCovered : ℕ → ℕ → List Range → Type 0
IsCovered low high [] = ⊥
IsCovered low high (r ∷ rs) = ((r.start ≤ low) × (high ≤ r.end)) ⊎ IsCovered low high rs

-- Each range ends before the next one starts, with a gap, and all lie within the list.
abbrev pub IsApart : ℕ → List Range → Type 0
IsApart total [] = Unit
IsApart total (r ∷ []) = (r.start ≤ r.end) × (r.end < total)
IsApart total (r ∷ s ∷ rs) =
    (r.start ≤ r.end) × (r.end < total) × (suc r.end < s.start) × IsApart total (s ∷ rs)

IsCovered-wider :
    (low high : ℕ) (context total : ℕ) (prior : Range) (index : ℕ) (os : List DiffOperation)
    → prior.start ≤ low
    → high ≤ prior.end
    → IsCovered low high (ranges_after context total prior index os)
unfolding ranges_after
IsCovered-wider low high context total prior index [] h k = inl (h, k)
IsCovered-wider low high context total prior index (o ∷ os) h k =
    elim (Bool-cases (is_change o.kind)) [
      | inr same ↦ rw same (IsCovered-wider low high context total prior (suc index) os h k)
      | inl change ↦ elim (Bool-cases (touches prior (range_at context total index))) [
        | inl touching ↦
            rw (change, touching)
              (IsCovered-wider low high context total (widened prior (range_at context total index))
                (suc index) os h (omega arith))
        | inr apart ↦ rw (change, apart) (inl (h, k))
      ]
    ]

after-IsCovered :
    (context total : ℕ) (prior : Range) (index k p : ℕ) (os : List DiffOperation)
    → p ≡ index + k
    → prior.start ≤ index - context
    → change_at k os ≡ true
    → IsCovered
        (p - context)
        (min (total - 1) (p + context))
        (ranges_after context total prior index os)
unfolding ranges_after change_at
after-IsCovered context total prior index k p [] e h c = cc
after-IsCovered context total prior index ℕ.zero p (o ∷ os) e h c =
    let next = range_at context total index in
    elim (Bool-cases (touches prior next)) [
      | inl touching ↦
          rw (c, touching)
            (IsCovered-wider (p - context) (min (total - 1) (p + context)) context total
              (widened prior next) (suc index) os (omega arith) (omega arith))
      | inr apart ↦
          rw (c, apart)
            (inr (
              IsCovered-wider (p - context) (min (total - 1) (p + context)) context total next
                (suc index) os (omega arith) (omega arith)))
    ]
after-IsCovered context total prior index (ℕ.suc k) p (o ∷ os) e h c =
    let next = range_at context total index in
    elim (Bool-cases (is_change o.kind)) [
      | inr same ↦
          rw same
            (after-IsCovered context total prior (suc index) k p os (omega arith) (omega arith) c)
      | inl change ↦ elim (Bool-cases (touches prior next)) [
        | inl touching ↦
            rw (change, touching)
              (after-IsCovered context total (widened prior next) (suc index) k p os (omega arith)
                (omega arith) c)
        | inr apart ↦
            rw (change, apart)
              (inr (
                after-IsCovered context total next (suc index) k p os (omega arith) (omega arith)
                  c))
      ]
    ]

pub from-IsCovered :
    (context total index k p : ℕ) (os : List DiffOperation)
    → p ≡ index + k
    → change_at k os ≡ true
    → IsCovered (p - context) (min (total - 1) (p + context)) (ranges_from context total index os)
unfolding ranges_from change_at
from-IsCovered context total index k p [] e c = cc
from-IsCovered context total index ℕ.zero p (o ∷ os) e c = rw c (
    IsCovered-wider (p - context) (min (total - 1) (p + context)) context total
      (range_at context total index) (suc index) os (omega arith) (omega arith))
from-IsCovered context total index (ℕ.suc k) p (o ∷ os) e c = elim (Bool-cases (is_change o.kind)) [
  | inr same ↦ rw same (from-IsCovered context total (suc index) k p os (omega arith) c)
  | inl change ↦ rw change (
      after-IsCovered context total (range_at context total index) (suc index) k p os (omega arith)
        (omega arith) c)
]

-- A range whose first index is not past the loop's.
abbrev IsBehind : ℕ → ℕ → Range → Type 0
IsBehind total index r = (r.start ≤ r.end) × (r.end < total) × (r.start ≤ index)

after-IsApart :
    (context total : ℕ) (prior : Range) (index : ℕ) (os : List DiffOperation)
    → index + length os ≤ total
    → IsBehind total index prior
    → (rest : Range × List Range) × (ranges_after context total prior index os ≡ rest.0 ∷ rest.1)
      × (rest.0.start ≡ prior.start)
      × IsApart total (rest.0 ∷ rest.1)
unfolding ranges_after
after-IsApart context total prior index [] room b = ((prior, []), refl, refl, (b.0, b.1))
after-IsApart context total prior index (o ∷ os) room b =
    let next = range_at context total index in
    elim (Bool-cases (is_change o.kind)) [
      | inr same ↦
          rw same
            (after-IsApart context total prior (suc index) os (omega arith) (b.0, b.1, omega arith))
      | inl change ↦ elim (Bool-cases (touches prior next)) [
        | inl touching ↦
            rw (change, touching)
              (after-IsApart context total (widened prior next) (suc index) os (omega arith)
                (omega arith, omega arith, omega arith))
        | inr apart ↦
            let ((r, rs), is, starts, sep) =
              after-IsApart context total next (suc index) os (omega arith)
                (omega arith, omega arith, omega arith) in
            rw (change, apart)
              (
                (prior, r ∷ rs),
                ap (◌∷◌ prior) is,
                refl,
                (b.0, b.1, ground (arith, starts, apart), sep),
              )
      ]
    ]

pub from-IsApart :
    (context total index : ℕ) (os : List DiffOperation)
    → index + length os ≤ total
    → IsApart total (ranges_from context total index os)
unfolding ranges_from
from-IsApart context total index [] room = tt
from-IsApart context total index (o ∷ os) room = elim (Bool-cases (is_change o.kind)) [
  | inr same ↦ rw same (from-IsApart context total (suc index) os (omega arith))
  | inl change ↦
      let ((r, rs), is, starts, sep) =
        after-IsApart context total (range_at context total index) (suc index) os (omega arith)
          (omega arith, omega arith, omega arith) in
      rw (change, is) sep
]
