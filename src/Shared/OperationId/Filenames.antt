-- ===== src/Shared/OperationId/Filenames.antt =====
-- Operation identifiers become file names: what their characters and lengths are.
use mathlib.Core.Bool.{and-eq-true_iff}
use cope_code.Common.{
  All-append, ℕ, ◌≤◌, ◌≡◌, refl, ◌⊎◌, inl, inr, true, false, none, some, [], ◌∷◌, ◌++◌, Text, arith,
  leb, length, length-append, all, All, Bool-cases, Option-cases,
}
use cope_code.Shared.OperationId.{
  is_alphanumeric, is_word, matches_operation_id, is_operation_id, is_internal_operation_id,
  is_journal_operation_id, internal_operation_id_prefix, strip_prefix, matches_internal,
}

-- A letter, a digit, an underscore or a dash.
abbrev pub IsWordUnit : ℕ → Type 0
IsWordUnit c =
    ((b'A' ≤ c) × (c ≤ b'Z'))
    ⊎ ((b'a' ≤ c) × (c ≤ b'z'))
    ⊎ ((b'0' ≤ c) × (c ≤ b'9'))
    ⊎ (c ≡ b'_')
    ⊎ (c ≡ b'-')

word_unit : (c : ℕ) → is_word c ≡ true → IsWordUnit c
unfolding is_word is_alphanumeric
word_unit c h = ground arith

word_of_alphanumeric : (c : ℕ) → is_alphanumeric c ≡ true → is_word c ≡ true
unfolding is_word
word_of_alphanumeric c h = rw h refl

all-word : (s : Text) → all is_word s ≡ true → All IsWordUnit s
unfolding all
all-word [] h = tt
all-word (c ∷ s) h =
    let (here, later) = (and-eq-true_iff _ _).0 h in (word_unit c here, all-word s later)

operation_id_units :
    (s : Text)
    → matches_operation_id s ≡ true
    → All IsWordUnit s × (3 ≤ length s) × (length s ≤ 128)
unfolding matches_operation_id
operation_id_units [] h = cc
operation_id_units (c ∷ s) h =
    let (first, rest) = (and-eq-true_iff _ _).0 h in
    let (words, sizes) = (and-eq-true_iff _ _).0 rest in
    ((word_unit c (word_of_alphanumeric c first), all-word s words), ground arith, ground arith)

strip_prefix-append : (p s rest : Text) → strip_prefix p s ≡ some rest → s ≡ p ++ rest
unfolding strip_prefix
strip_prefix-append [] s rest h = ground arith
strip_prefix-append (c ∷ p) [] rest h = cc
strip_prefix-append (c ∷ p) (d ∷ s) rest h = ground (arith, strip_prefix-append p s rest)

no_match :
    (s : Text) → strip_prefix internal_operation_id_prefix s ≡ none → matches_internal s ≡ true → ⊥
unfolding matches_internal
no_match s e h = ground arith

underscore_first : (rest : Text) → is_operation_id (internal_operation_id_prefix ++ rest) ≡ true → ⊥
unfolding is_operation_id
underscore_first rest h = cc

internal_cases :
    (s : Text)
    → is_internal_operation_id s ≡ true
    → (rest : Text) × (s ≡ internal_operation_id_prefix ++ rest)
      × All IsWordUnit rest
      × (1 ≤ length rest)
      × (length s ≤ 128)
unfolding is_internal_operation_id matches_internal
internal_cases s h = elim (Option-cases (strip_prefix internal_operation_id_prefix s)) [
  | inl missing ↦
      let (_, matched) = (and-eq-true_iff (leb (length s) 128) (matches_internal s)).0 h in
      absurd (no_match s missing matched)
  | inr (rest, found) ↦
      let (size, matched) = (and-eq-true_iff (leb (length s) 128) (matches_internal s)).0 h in
      let (words, nonempty) =
        (and-eq-true_iff (all is_word rest) (leb 1 (length rest))).0
          (rw (found, matches_internal) at matched) in
      (
        rest,
        strip_prefix-append internal_operation_id_prefix s rest found,
        all-word rest words,
        ground arith,
        ground arith,
      )
]

-- The identifiers that the model may use and those reserved for the harness are disjoint.
pub operation_id_not_internal :
    (s : Text) → is_operation_id s ≡ true → is_internal_operation_id s ≡ false
unfolding is_operation_id
operation_id_not_internal s h = elim (Bool-cases (is_internal_operation_id s)) [
  | inl internal ↦
      let (rest, same, _, _, _) = internal_cases s internal in
      absurd (underscore_first rest (rw same at h))
  | inr other ↦ other
]

prefix_units : All IsWordUnit internal_operation_id_prefix
prefix_units = ground arith

-- A journal identifier has 3 to 128 characters, each a letter, a digit, an underscore or a dash: it
-- holds no dot, colon, separator or space, and is no path.
pub journal_id_is_filename :
    (s : Text)
    → is_journal_operation_id s ≡ true
    → All IsWordUnit s × (3 ≤ length s) × (length s ≤ 128)
unfolding is_journal_operation_id is_operation_id
journal_id_is_filename s h = elim (Bool-cases (is_operation_id s)) [
  | inl model ↦ operation_id_units s ((and-eq-true_iff _ _).0 model).0
  | inr other ↦
      let (rest, same, words, _, size) = internal_cases s (rw other at h) in
      (
        rw same (All-append IsWordUnit internal_operation_id_prefix rest prefix_units words),
        rw same (omega (arith, length-append internal_operation_id_prefix rest)),
        size,
      )
]
