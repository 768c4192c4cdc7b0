-- ===== src/Security/Secrets/Coverage.antt =====
-- No match is passed over: each one shares a part of the text with a finding that is kept.
use cope_code.Common.{
  subst, ◌<◌, ◌≡◌, refl, sym, Bool, true, List, [], ◌∷◌, ◌++◌, any, All, Bool-cases, inl, inr,
  arith,
}
use cope_code.Security.Secrets.{
  SecretFinding, insert_by, sort_by, first_and_longest, overlaps, kept_from, remove_overlaps,
}
use cope_code.Security.Secrets.Layout.{All-sort_by}

abbrev pub IsTouched : List SecretFinding → SecretFinding → Type 0
IsTouched kept candidate = any (overlaps candidate) kept ≡ true

module _ {ℓ} (P : SecretFinding → Type ℓ) (before : SecretFinding → SecretFinding → Bool) where
  insert_by-All :
      (f : SecretFinding) (fs : List SecretFinding) → All P (insert_by before f fs) → P f × All P fs
  unfolding insert_by
  insert_by-All f [] ps = ps
  insert_by-All f (g ∷ gs) ps = elim (Bool-cases (before f g)) [
    | inl first ↦ rw first at ps
    | inr later ↦
        let (q, qs) : P g × All P (insert_by before f gs) = rw later at ps in
        let (p, rest) = insert_by-All f gs qs in (p, (q, rest))
  ]

  sort_by-All : (fs : List SecretFinding) → All P (sort_by before fs) → All P fs
  unfolding sort_by
  sort_by-All [] ps = tt
  sort_by-All (f ∷ fs) ps =
      let (p, rest) = insert_by-All f (sort_by before fs) ps in (p, sort_by-All fs rest)

any-append-left :
    (p : SecretFinding → Bool) (xs ys : List SecretFinding)
    → any p xs ≡ true
    → any p (xs ++ ys) ≡ true
unfolding any
any-append-left p [] ys h = cc
any-append-left p (x ∷ xs) ys h = ground (arith, any-append-left p xs ys)

any-append-last :
    (p : SecretFinding → Bool) (xs : List SecretFinding) (y : SecretFinding)
    → p y ≡ true
    → any p (xs ++ y ∷ []) ≡ true
unfolding any
any-append-last p [] y h = ground arith
any-append-last p (x ∷ xs) y h = ground (arith, any-append-last p xs y h)

kept_from-IsTouched :
    (acc cs : List SecretFinding) (c : SecretFinding)
    → IsTouched acc c
    → IsTouched (kept_from acc cs) c
unfolding kept_from
kept_from-IsTouched acc [] c h = h
kept_from-IsTouched acc (d ∷ ds) c h = elim (Bool-cases (any (overlaps d) acc)) [
  | inl covered ↦ rw covered (kept_from-IsTouched acc ds c h)
  | inr free ↦
      rw free
        (kept_from-IsTouched (acc ++ d ∷ []) ds c (any-append-left (overlaps c) acc (d ∷ []) h))
]

overlaps_self : (c : SecretFinding) → c.start < c.end → overlaps c c ≡ true
unfolding overlaps
overlaps_self c h = ground arith

kept_from-All :
    (acc cs : List SecretFinding)
    → All (λ c. c.start < c.end) cs
    → All (IsTouched (kept_from acc cs)) cs
unfolding kept_from
kept_from-All acc [] w = tt
kept_from-All acc (c ∷ cs) (w, ws) = elim (Bool-cases (any (overlaps c) acc)) [
  | inl covered ↦
      let step : kept_from acc (c ∷ cs) ≡ kept_from acc cs = rw covered refl in
      subst (λ kept. All (IsTouched kept) (c ∷ cs)) (sym step)
        (kept_from-IsTouched acc cs c covered, kept_from-All acc cs ws)
  | inr free ↦
      let more = acc ++ c ∷ [] in
      let step : kept_from acc (c ∷ cs) ≡ kept_from more cs = rw free refl in
      subst (λ kept. All (IsTouched kept) (c ∷ cs)) (sym step)
        (
          kept_from-IsTouched more cs c (any-append-last (overlaps c) acc c (overlaps_self c w)),
          kept_from-All more cs ws,
        )
]

-- Every match that is not empty shares a part of the text with a finding that is kept, so that no
-- match is disclosed whole.
pub remove_overlaps-IsTouched :
    (candidates : List SecretFinding)
    → All (λ c. c.start < c.end) candidates
    → All (IsTouched (remove_overlaps candidates)) candidates
unfolding remove_overlaps
remove_overlaps-IsTouched candidates w =
    let sorted = sort_by first_and_longest candidates in
    sort_by-All (IsTouched (kept_from [] sorted)) first_and_longest candidates
      (kept_from-All [] sorted (All-sort_by (λ c. c.start < c.end) first_and_longest candidates w))
