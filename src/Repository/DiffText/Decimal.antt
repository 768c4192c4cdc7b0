-- ===== src/Repository/DiffText/Decimal.antt =====
-- The numbers of a hunk's header: the fuel of the digits is enough.
use cope_code.Common.{
  ℕ, suc, ◌+◌, ◌-◌, ◌*◌, ◌/◌, ◌%◌, ◌<◌, ◌≡◌, refl, ap, ◌∙◌, inl, inr, [], ◌∷◌, ◌++◌, Text, ltb,
  Bool-cases, arith,
}
use cope_code.Repository.DiffText.{digits_from, decimal}

-- The number that digits stand for, after those of `n`.
unfoldable pub value_from : ℕ → Text → ℕ
value_from n [] = n
value_from n (c ∷ s) = value_from (n * 10 + (c - 48)) s

value_from-append :
    (n c : ℕ) (s : Text) → value_from n (s ++ c ∷ []) ≡ value_from n s * 10 + (c - 48)
unfolding value_from
value_from-append n c [] = refl
value_from-append n c (d ∷ s) = value_from-append (n * 10 + (d - 48)) c s

digits_from-value : (fuel n : ℕ) → n < fuel → value_from 0 (digits_from fuel n) ≡ n
unfolding digits_from value_from
digits_from-value ℕ.zero n less = absurd (omega arith)
digits_from-value (ℕ.suc fuel) n less = elim (Bool-cases (ltb n 10)) [
  | inl one ↦ rw one (omega arith)
  | inr more ↦ rw more (
      value_from-append 0 (48 + n % 10) (digits_from fuel (n / 10))
      ∙ ap (λ front. front * 10 + (48 + n % 10 - 48))
          (digits_from-value fuel (n / 10) (ground arith))
      ∙ omega arith)
]

-- The digits of a number read back as the number, since the loop over them ends before its fuel does.
pub decimal-value : (n : ℕ) → value_from 0 (decimal n) ≡ n
unfolding decimal
decimal-value n = digits_from-value (suc n) n (omega arith)
