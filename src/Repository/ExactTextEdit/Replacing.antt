-- ===== src/Repository/ExactTextEdit/Replacing.antt =====
-- An edit replaces exactly the counted occurrences of the old text.
use cope_code.Common.{
  then_ok, ℕ, suc, ◌≤◌, ◌-◌, ◌≡◌, refl, sym, ap, ◌∙◌, inl, inr, true, false, not, ◌||◌, List, [],
  ◌∷◌, ◌++◌, Text, text_is_eq, ◌==◌, arith, length, nat_eq, nat_eq_iff, Bool-cases, starts_with,
  glue, to_lower, Number, nat, other, safe_natural, ok, ErrorCode, protocol_invalid, config_invalid,
  stale_state, budget_exceeded, internal_error, fail_if, >>=-eq-ok, ◌>>=◌, ◌>>◌, ltb,
}
use cope_code.Policy.Patterns.{join}
use cope_code.Protocol.Parser.{byte_length}
use cope_code.Repository.ExactTextEdit.{
  ExactTextEditInput, ExactTextEditSource, ExactTextEditPlan, count_from, count_occurrences,
  split_from, accepted_input, replaced, plan_exact_text_edit, natural_in, or_fail, resized,
  is_any_hash, count_changed_lines, is_scalar_text,
}

-- The text after its first units.
after_units : ℕ → Text → Text
after_units ℕ.zero s = s
after_units (ℕ.suc n) [] = []
after_units (ℕ.suc n) (c ∷ s) = after_units n s

after_units_nil : (n : ℕ) → after_units n [] ≡ []
unfolding after_units
after_units_nil ℕ.zero = refl
after_units_nil (ℕ.suc n) = refl

less_one : (n : ℕ) → suc n - 1 ≡ n
less_one n = omega arith

starts_with-append : (p s : Text) → starts_with p s ≡ true → s ≡ p ++ after_units (length p) s
unfolding starts_with after_units
starts_with-append [] s h = refl
starts_with-append (c ∷ p) [] h = cc
starts_with-append (c ∷ p) (d ∷ s) h = ground (arith, starts_with-append p s, nat_eq_iff c d)

join-glue :
    (old : Text) (c : ℕ) (pieces : List Text) → join old (glue c pieces) ≡ c ∷ join old pieces
unfolding join
join-glue old c [] = refl
join-glue old c (p ∷ []) = refl
join-glue old c (p ∷ q ∷ ps) = refl

-- Pieces are never none, and one more than the occurrences.
length-split_from :
    (old : Text) (ahead : ℕ) (s : Text)
    → length (split_from old ahead s) ≡ suc (count_from old ahead s)
unfolding split_from count_from
length-split_from old ahead [] = refl
length-split_from old (ℕ.suc ahead) (c ∷ s) = length-split_from old ahead s
length-split_from old ℕ.zero (c ∷ s) = elim (Bool-cases (starts_with old (c ∷ s))) [
  | inl found ↦
      rw (found, split_from, count_from) (ap suc (length-split_from old (length old - 1) s))
  | inr apart ↦
      rw (apart, split_from, count_from)
        (length-glue c (split_from old 0 s) _ (length-split_from old 0 s)
          ∙ length-split_from old 0 s)
]
  where
    length-glue :
        (c : ℕ) (pieces : List Text) (n : ℕ)
        → length pieces ≡ suc n
        → length (glue c pieces) ≡ length pieces
    length-glue c [] n h = cc
    length-glue c (p ∷ ps) n h = refl

join-match :
    (old : Text) (pieces : List Text) (n : ℕ)
    → length pieces ≡ suc n
    → join old ([] ∷ pieces) ≡ old ++ join old pieces
unfolding join
join-match old [] n h = cc
join-match old (p ∷ ps) n h = refl

join-split_from :
    (a : ℕ) (old : Text) (ahead : ℕ) (s : Text)
    → join (a ∷ old) (split_from (a ∷ old) ahead s) ≡ after_units ahead s
unfolding split_from join after_units
join-split_from a old ahead [] = sym (after_units_nil ahead)
join-split_from a old (ℕ.suc ahead) (c ∷ s) = join-split_from a old ahead s
join-split_from a old ℕ.zero (c ∷ s) = elim (Bool-cases (starts_with (a ∷ old) (c ∷ s))) [
  | inl found ↦
      rw (found, split_from, less_one (length old))
        (join-match (a ∷ old) (split_from (a ∷ old) (length old) s) _
            (length-split_from (a ∷ old) (length old) s)
          ∙ ap (◌++◌ (a ∷ old)) (join-split_from a old (length old) s)
          ∙ sym (starts_with-append (a ∷ old) (c ∷ s) found))
  | inr apart ↦
      rw (apart, split_from)
        (join-glue (a ∷ old) c (split_from (a ∷ old) 0 s) ∙ ap (◌∷◌ c) (join-split_from a old 0 s))
]

number_in :
    (m : Number) (low high n : ℕ) (code : ErrorCode)
    → or_fail (natural_in m low high) code ≡ ok n
    → m ≡ nat n
number_in (nat k) low high n code h = ground arith
number_in other low high n code h = cc

-- What the guards of an input have tested.
accepted_count :
    (source : ExactTextEditSource) (input : ExactTextEditInput) (n : ℕ)
    → accepted_input source input ≡ ok n
    → (nat_eq (length input.old_text) 0 ≡ false) × (input.expected_occurrences ≡ nat n)
unfolding accepted_input
accepted_count source input n h =
    let asked = or_fail (natural_in input.expected_occurrences 1 10_000) protocol_invalid in
    let differing = fail_if (input.old_text == input.new_text) protocol_invalid >> asked in
    let filling = fail_if (nat_eq (length input.old_text) 0) protocol_invalid >> differing in
    let scalar = fail_if (not (is_scalar_text input.new_text)) protocol_invalid >> filling in
    let (_, h1) = then_ok (not (is_scalar_text input.old_text)) protocol_invalid scalar n h in
    let (_, h2) = then_ok (not (is_scalar_text input.new_text)) protocol_invalid filling n h1 in
    let (filled, h3) = then_ok (nat_eq (length input.old_text) 0) protocol_invalid differing n h2 in
    let (_, h4) = then_ok (input.old_text == input.new_text) protocol_invalid asked n h3 in
    (filled, number_in input.expected_occurrences 1 10_000 n protocol_invalid h4)

abbrev content_of : ExactTextEditSource → ExactTextEditInput → Text
content_of source input = join input.new_text (split_from input.old_text 0 source.content)

replaced_with :
    (source : ExactTextEditSource) (input : ExactTextEditInput) (n limit : ℕ)
    (p : ExactTextEditPlan)
    → replaced source input n limit ≡ ok p
    → (p.content ≡ content_of source input)
      × (p.occurrences ≡ n)
      × (byte_length p.content ≡ p.result_bytes)
      × (p.result_bytes ≤ limit)
unfolding replaced
replaced_with source input n limit p h =
    let made : ℕ → ExactTextEditPlan = λ (size : ℕ). record {
      content = content_of source input;
      occurrences = n;
      result_bytes = size;
      changed_lines = count_changed_lines source.content (content_of source input);
    } in
    let (size, sized, h1) =
      >>=-eq-ok
        (or_fail
          (resized source.byte_count n (byte_length input.new_text) (byte_length input.old_text))
          budget_exceeded)
        (λ size.
          fail_if (ltb limit size) budget_exceeded
          >> (fail_if (not (nat_eq (byte_length (content_of source input)) size)) internal_error
              >> ok (made size)))
        h in
    let (small, h2) =
      then_ok (ltb limit size) budget_exceeded
        (fail_if (not (nat_eq (byte_length (content_of source input)) size)) internal_error
          >> ok (made size))
        p h1 in
    let (counted, h3) =
      then_ok (not (nat_eq (byte_length (content_of source input)) size)) internal_error
        (ok (made size)) p h2 in
    let same : made size ≡ p = ground (arith, h3) in
    rw (← same) (
      refl,
      refl,
      ground (arith, nat_eq_iff (byte_length (content_of source input)) size),
      ground arith,
    )

count_of :
    (content : Text) (old : Text)
    → nat_eq (length old) 0 ≡ false
    → (length (split_from old 0 content) ≡ suc (count_occurrences content old))
      × (join old (split_from old 0 content) ≡ content)
unfolding count_occurrences after_units
count_of content [] h = cc
count_of content (a ∷ old) h =
    (length-split_from (a ∷ old) 0 content, join-split_from a old 0 content)

-- A plan replaces exactly the occurrences that were expected: the content is pieces with the old text
-- between them, the new content is the same pieces with the new text between them, their number is
-- one more than the expected occurrences, and the bytes that are reported are those of the new
-- content.
pub plan_exact_text_edit_lem :
    (source : ExactTextEditSource) (input : ExactTextEditInput) (maximum : Number)
    (p : ExactTextEditPlan)
    → plan_exact_text_edit source input maximum ≡ ok p
    → (pieces : List Text) × (source.content ≡ join input.old_text pieces)
      × (p.content ≡ join input.new_text pieces)
      × (length pieces ≡ suc p.occurrences)
      × (input.expected_occurrences ≡ nat p.occurrences)
      × (byte_length p.content ≡ p.result_bytes)
unfolding plan_exact_text_edit
plan_exact_text_edit_lem source input maximum p h =
    let count = count_occurrences source.content input.old_text in
    let final = λ (limit : ℕ). replaced source input count limit in
    let checks = λ (expected limit : ℕ).
      fail_if
        (not (is_any_hash input.base_sha256) || not (to_lower input.base_sha256 == source.sha256))
        stale_state
      >> (fail_if (not (nat_eq count expected)) stale_state >> final limit) in
    let (expected, accepts, h1) =
      >>=-eq-ok (accepted_input source input)
        (λ expected. or_fail (safe_natural maximum) config_invalid >>= checks expected) h in
    let (limit, _, h2) =
      >>=-eq-ok (or_fail (safe_natural maximum) config_invalid) (checks expected) h1 in
    let (_, h3) =
      then_ok
        (not (is_any_hash input.base_sha256) || not (to_lower input.base_sha256 == source.sha256))
        stale_state (fail_if (not (nat_eq count expected)) stale_state >> final limit) p h2 in
    let (counts, h4) = then_ok (not (nat_eq count expected)) stale_state (final limit) p h3 in
    let (filled, asked) = accepted_count source input expected accepts in
    let (content, many, bytes, _) = replaced_with source input count limit p h4 in
    let (pieces, whole) = count_of source.content input.old_text filled in
    let same : count ≡ expected = ground (arith, nat_eq_iff count expected) in
    (
      split_from input.old_text 0 source.content,
      sym whole,
      content,
      pieces ∙ ap suc (sym many),
      asked ∙ ap nat (sym same ∙ sym many),
      bytes,
    )
