-- ===== src/Repository/ExactTextEdit.antt =====
-- src/repository/exact-text-edit.ts. A text is its UTF-16 code units; a file's bytes are their number.
pub mod Replacing
pub mod ChangedLines
mod Tests
use cope_code.Common.{
  ℕ, suc, ◌+◌, ◌-◌, ◌*◌, ◌≡◌, Bool, true, false, not, ◌&&◌, ◌||◌, Option, none, some, List, [], ◌∷◌,
  ◌++◌, reverse, Text, text, text_is_eq, ◌==◌, if◌then◌else◌, all, contains, length, leb, ltb,
  nat_eq, starts_with, glue, to_lower, Number, nat, other, max_safe, safe_natural, Result, ok, err,
  ErrorCode, protocol_invalid, config_invalid, stale_state, budget_exceeded, internal_error,
  fail_if, ◌>>=◌, ◌>>◌,
}
use cope_code.Policy.Patterns.{join}
use cope_code.Session.Journal.{is_hash}
use cope_code.Protocol.Parser.{byte_length}

pub record ExactTextEditInput : Type 0 where
  pub base_sha256 : Text
  pub old_text : Text
  pub new_text : Text
  pub expected_occurrences : Number

pub record ExactTextEditSource : Type 0 where
  pub content : Text
  pub byte_count : ℕ
  pub sha256 : Text

pub record ExactTextEditPlan : Type 0 where
  pub content : Text
  pub occurrences : ℕ
  pub result_bytes : ℕ
  pub changed_lines : ℕ

-- The loop over `indexOf`: from the left, without overlap. The first number is how many units of an
-- occurrence are still to be passed.
unfoldable pub count_from : Text → ℕ → Text → ℕ
count_from search ahead [] = 0
count_from search (ℕ.suc ahead) (c ∷ s) = count_from search ahead s
count_from search ℕ.zero (c ∷ s) =
    let inside = count_from search (length search - 1) s in
    let outside = count_from search 0 s in
    if starts_with search (c ∷ s) then suc inside else outside

unfoldable pub count_occurrences : Text → Text → ℕ
count_occurrences content [] = 0
count_occurrences content (c ∷ search) = count_from (c ∷ search) 0 content

-- `content.split(search)` for a text that is not empty.
unfoldable pub split_from : Text → ℕ → Text → List Text
split_from search ahead [] = [] ∷ []
split_from search (ℕ.suc ahead) (c ∷ s) = split_from search ahead s
split_from search ℕ.zero (c ∷ s) =
    let inside = split_from search (length search - 1) s in
    let outside = split_from search 0 s in
    if starts_with search (c ∷ s) then [] ∷ inside else glue c outside

-- The lines with their ends.
unfoldable pub line_records : Text → List Text
line_records [] = []
line_records (c ∷ []) = (c ∷ []) ∷ []
line_records (c ∷ d ∷ s) =
    let skipping = line_records s in
    let later = line_records (d ∷ s) in
    if nat_eq c 13 && nat_eq d 10
    then (c ∷ d ∷ []) ∷ skipping
    else if nat_eq c 13 || nat_eq c 10
    then (c ∷ []) ∷ later
    else glue c later

unfoldable pub common_prefix : List Text → List Text → ℕ
common_prefix (x ∷ xs) (y ∷ ys) = if x == y then suc (common_prefix xs ys) else 0
common_prefix _ _ = 0

unfoldable pub drop_lines : ℕ → List Text → List Text
drop_lines ℕ.zero xs = xs
drop_lines (ℕ.suc n) [] = []
drop_lines (ℕ.suc n) (x ∷ xs) = drop_lines n xs

-- The records that are left after the common ones in front, and the common ones behind.
unfoldable pub unmatched : List Text → List Text → ℕ
unfolding common_prefix drop_lines
unmatched before after =
    let prefix = common_prefix before after in
    let suffix =
      common_prefix (reverse (drop_lines prefix before)) (reverse (drop_lines prefix after)) in
    length before - prefix - suffix + (length after - prefix - suffix)

unfoldable pub count_changed_lines : Text → Text → ℕ
unfolding line_records unmatched
count_changed_lines before after = unmatched (line_records before) (line_records after)

-- No unit is a surrogate without its partner, and none is 0.
unfoldable pub is_scalar_text : Text → Bool
is_scalar_text [] = true
is_scalar_text (c ∷ []) = not (nat_eq c 0) && (ltb c 0xD800 || leb 0xE000 c)
is_scalar_text (c ∷ d ∷ s) =
    let paired = is_scalar_text s in
    let single = is_scalar_text (d ∷ s) in
    if leb 0xD800 c && ltb c 0xDC00
    then leb 0xDC00 d && ltb d 0xE000 && paired
    else not (nat_eq c 0) && ((ltb c 0xD800 || leb 0xE000 c) && single)

-- `/^[0-9a-f]{64}$/i`
abbrev is_any_hash : Text → Bool
is_any_hash s = is_hash (to_lower s)

abbrev natural_in : Number → ℕ → ℕ → Option ℕ
natural_in (nat n) low high = if leb low n && leb n high then some n else none
natural_in other low high = none

abbrev or_fail {ℓ} : {A : Type ℓ} → Option A → ErrorCode → Result A
or_fail none e = err e
or_fail (some a) e = ok a

-- `source.bytes.byteLength + occurrences * (newBytes - oldBytes)`, where it is a safe natural number.
abbrev resized : ℕ → ℕ → ℕ → ℕ → Option ℕ
resized bytes occurrences new_bytes old_bytes =
    let grown = bytes + occurrences * new_bytes in
    let less = occurrences * old_bytes in
    if leb less grown && leb (grown - less) max_safe then some (grown - less) else none

-- The guards on the input.
unfoldable pub accepted_input : ExactTextEditSource → ExactTextEditInput → Result ℕ
unfolding is_scalar_text to_lower
accepted_input source input = do
  fail_if (not (is_scalar_text input.old_text)) protocol_invalid
  fail_if (not (is_scalar_text input.new_text)) protocol_invalid
  fail_if (nat_eq (length input.old_text) 0) protocol_invalid
  fail_if (input.old_text == input.new_text) protocol_invalid
  or_fail (natural_in input.expected_occurrences 1 10_000) protocol_invalid

-- What follows the guards.
unfoldable pub replaced :
    ExactTextEditSource → ExactTextEditInput → ℕ → ℕ → Result ExactTextEditPlan
unfolding split_from join byte_length count_changed_lines
replaced source input occurrences limit = do
  size ←
      or_fail
        (resized source.byte_count occurrences (byte_length input.new_text)
          (byte_length input.old_text))
        budget_exceeded
  fail_if (ltb limit size) budget_exceeded
  let content = join input.new_text (split_from input.old_text 0 source.content)
  fail_if (not (nat_eq (byte_length content) size)) internal_error
  ok (record {
    content = content;
    occurrences = occurrences;
    result_bytes = size;
    changed_lines = count_changed_lines source.content content;
  })

unfoldable pub plan_exact_text_edit :
    ExactTextEditSource → ExactTextEditInput → Number → Result ExactTextEditPlan
unfolding to_lower count_occurrences safe_natural
plan_exact_text_edit source input max_result_bytes = do
  expected ← accepted_input source input
  limit ← or_fail (safe_natural max_result_bytes) config_invalid
  fail_if (not (is_any_hash input.base_sha256) || not (to_lower input.base_sha256 == source.sha256))
      stale_state
  fail_if (not (nat_eq (count_occurrences source.content input.old_text) expected)) stale_state
  replaced source input (count_occurrences source.content input.old_text) limit
