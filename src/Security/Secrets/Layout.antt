-- ===== src/Security/Secrets/Layout.antt =====
-- The findings of a scan stand in order and apart, and each match touches one of them.
use cope_code.Common.{
  All-append, ℕ, ◌≤◌, ◌<◌, ◌≡◌, inl, inr, Bool, true, false, List, [], ◌∷◌, ◌++◌, any, All,
  Bool-cases, arith,
}
use cope_code.Security.Secrets.{
  SecretFinding, insert_by, sort_by, first_and_longest, overlaps, kept_from, remove_overlaps,
}

-- Not empty, and within a text of that length.
abbrev pub IsWithin : ℕ → SecretFinding → Type 0
IsWithin size f = (f.start < f.end) × (f.end ≤ size)

-- Findings in order from an index on, none of which overlap.
abbrev pub IsLaidOut : ℕ → ℕ → List SecretFinding → Type 0
IsLaidOut size from [] = from ≤ size
IsLaidOut size from (f ∷ fs) = (from ≤ f.start) × (f.start < f.end) × IsLaidOut size f.end fs

abbrev IsSorted : List SecretFinding → Type 0
IsSorted [] = Unit
IsSorted (f ∷ fs) = All (λ g. f.start ≤ g.start) fs × IsSorted fs

module _ {ℓ} (P : SecretFinding → Type ℓ) (before : SecretFinding → SecretFinding → Bool) where
  All-insert_by :
      (f : SecretFinding) (fs : List SecretFinding) → P f → All P fs → All P (insert_by before f fs)
  unfolding insert_by
  All-insert_by f [] p ps = (p, tt)
  All-insert_by f (g ∷ gs) p (q, qs) = elim (Bool-cases (before f g)) [
    | inl first ↦ rw first (p, (q, qs))
    | inr later ↦ rw later (q, All-insert_by f gs p qs)
  ]

  pub All-sort_by : (fs : List SecretFinding) → All P fs → All P (sort_by before fs)
  unfolding sort_by
  All-sort_by [] ps = tt
  All-sort_by (f ∷ fs) (p, ps) = All-insert_by f (sort_by before fs) p (All-sort_by fs ps)

All-le :
    (m n : ℕ) (fs : List SecretFinding)
    → m ≤ n
    → All (λ g. n ≤ g.start) fs
    → All (λ g. m ≤ g.start) fs
All-le m n [] h ps = tt
All-le m n (f ∷ fs) h (p, ps) = (omega arith, All-le m n fs h ps)

first_and_longest-start :
    (f g : SecretFinding)
    → (first_and_longest f g ≡ true → f.start ≤ g.start)
      × (first_and_longest f g ≡ false → g.start ≤ f.start)
unfolding first_and_longest
first_and_longest-start f g = (λ h. ground arith, λ h. ground arith)

insert_by-IsSorted :
    (f : SecretFinding) (fs : List SecretFinding)
    → IsSorted fs
    → IsSorted (insert_by first_and_longest f fs)
unfolding insert_by
insert_by-IsSorted f [] s = (tt, tt)
insert_by-IsSorted f (g ∷ gs) (below, s) = elim (Bool-cases (first_and_longest f g)) [
  | inl first ↦ rw first (
    (
      (first_and_longest-start f g).0 first,
      All-le f.start g.start gs ((first_and_longest-start f g).0 first) below,
    ),
    (below, s),
  )
  | inr later ↦ rw later (
    All-insert_by (λ h. g.start ≤ h.start) first_and_longest f gs
        ((first_and_longest-start f g).1 later) below,
    insert_by-IsSorted f gs s,
  )
]

sort_by-IsSorted : (fs : List SecretFinding) → IsSorted (sort_by first_and_longest fs)
unfolding sort_by
sort_by-IsSorted [] = tt
sort_by-IsSorted (f ∷ fs) =
    insert_by-IsSorted f (sort_by first_and_longest fs) (sort_by-IsSorted fs)

IsLaidOut-append :
    (size from : ℕ) (acc : List SecretFinding) (c : SecretFinding)
    → IsLaidOut size from acc
    → from ≤ c.start
    → All (λ e. e.end ≤ c.start) acc
    → IsWithin size c
    → IsLaidOut size from (acc ++ c ∷ [])
IsLaidOut-append size from [] c l h a w = (h, w.0, w.1)
IsLaidOut-append size from (e ∷ es) c (l1, l2, l3) h (a, bs) w =
    (l1, l2, IsLaidOut-append size e.end es c l3 a bs w)

-- A candidate that starts after the starts of all, and overlaps with none, starts after their ends.
past-All :
    (c : SecretFinding) (acc : List SecretFinding)
    → c.start < c.end
    → All (λ e. e.start ≤ c.start) acc
    → any (overlaps c) acc ≡ false
    → All (λ e. e.end ≤ c.start) acc
unfolding any overlaps
past-All c [] w a h = tt
past-All c (e ∷ es) w (a, bs) h = (ground arith, past-All c es w bs (ground arith))

-- The findings before a candidate start no later.
All-before :
    (acc : List SecretFinding) (c d : SecretFinding)
    → c.start ≤ d.start
    → All (λ e. e.start ≤ c.start) acc
    → All (λ e. e.start ≤ d.start) acc
All-before [] c d h ps = tt
All-before (e ∷ es) c d h (p, ps) = (omega arith, All-before es c d h ps)

abbrev IsAfter : List SecretFinding → List SecretFinding → Type 0
IsAfter acc cs = All (λ c. All (λ e. e.start ≤ c.start) acc) cs

IsAfter-append :
    (acc : List SecretFinding) (c : SecretFinding) (cs : List SecretFinding)
    → IsAfter acc cs
    → All (λ d. c.start ≤ d.start) cs
    → IsAfter (acc ++ c ∷ []) cs
IsAfter-append acc c [] h k = tt
IsAfter-append acc c (d ∷ ds) (h, hs) (k, ks) =
    (All-append (λ e. e.start ≤ d.start) acc (c ∷ []) h (k, tt), IsAfter-append acc c ds hs ks)

kept_from-IsLaidOut :
    (size : ℕ) (acc cs : List SecretFinding)
    → IsLaidOut size 0 acc
    → IsAfter acc cs
    → IsSorted cs
    → All (IsWithin size) cs
    → IsLaidOut size 0 (kept_from acc cs)
unfolding kept_from
kept_from-IsLaidOut size acc [] l a s w = l
kept_from-IsLaidOut size acc (c ∷ cs) l (a, bs) (s, ss) (w, ws) =
    elim (Bool-cases (any (overlaps c) acc)) [
      | inl covered ↦ rw covered (kept_from-IsLaidOut size acc cs l bs ss ws)
      | inr free ↦ rw free (
          kept_from-IsLaidOut size (acc ++ c ∷ []) cs
            (IsLaidOut-append size 0 acc c l (omega arith) (past-All c acc w.0 a free) w)
            (IsAfter-append acc c cs bs s) ss ws)
    ]

IsAfter-nil : (cs : List SecretFinding) → IsAfter [] cs
IsAfter-nil [] = tt
IsAfter-nil (c ∷ cs) = (tt, IsAfter-nil cs)

-- What is kept of matches in a text stands in order, in the text, and without overlaps.
pub remove_overlaps-IsLaidOut :
    (size : ℕ) (candidates : List SecretFinding)
    → All (IsWithin size) candidates
    → IsLaidOut size 0 (remove_overlaps candidates)
unfolding remove_overlaps
remove_overlaps-IsLaidOut size candidates w =
    let sorted = sort_by first_and_longest candidates in
    kept_from-IsLaidOut size [] sorted (omega arith) (IsAfter-nil sorted)
      (sort_by-IsSorted candidates) (All-sort_by (IsWithin size) first_and_longest candidates w)
