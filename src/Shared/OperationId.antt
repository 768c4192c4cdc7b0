-- ===== src/Shared/OperationId.antt =====
-- src/shared/operation-id.ts. The regular expressions are written out as tests on code units.
pub mod Filenames
mod Tests
use cope_code.Common.{
  ℕ, ◌-◌, ◌≡◌, Bool, true, false, not, ◌&&◌, ◌||◌, Option, none, some, List, [], ◌∷◌, ◌++◌, map,
  Text, text, ◌==◌, text_is_eq, ltb, leb, nat_eq, length, all, any, contains, to_lower, starts_with,
}

-- `[A-Za-z0-9]`, and `[A-Za-z0-9_-]`.
unfoldable pub is_alphanumeric : ℕ → Bool
is_alphanumeric c =
    leb b'A' c && leb c b'Z' || (leb b'a' c && leb c b'z' || leb b'0' c && leb c b'9')

unfoldable pub is_word : ℕ → Bool
unfolding is_alphanumeric
is_word c = is_alphanumeric c || (nat_eq c b'_' || nat_eq c b'-')

-- `^[A-Za-z0-9][A-Za-z0-9_-]{2,127}$`
unfoldable pub matches_operation_id : Text → Bool
unfolding is_alphanumeric is_word all
matches_operation_id [] = false
matches_operation_id (c ∷ s) =
    is_alphanumeric c && (all is_word s && (leb 2 (length s) && leb (length s) 127))

-- `COM[1-9]` and `LPT[1-9]`, after the letters.
is_device_number : Text → Bool
is_device_number [] = false
is_device_number (d ∷ []) = leb b'1' d && leb d b'9'
is_device_number (d ∷ e ∷ s) = false

-- `^(?:CON|PRN|AUX|NUL|COM[1-9]|LPT[1-9])$`, whatever the case.
is_device_lower : Text → Bool
is_device_lower (a ∷ b ∷ c ∷ rest) =
    let name = a ∷ b ∷ c ∷ [] in
    (contains rest ([] ∷ [])
      && contains name (text "con" ∷ text "prn" ∷ text "aux" ∷ text "nul" ∷ []))
    || (is_device_number rest && contains name (text "com" ∷ text "lpt" ∷ []))
is_device_lower _ = false

unfoldable pub is_reserved_device_name : Text → Bool
unfolding is_device_lower is_device_number contains to_lower
is_reserved_device_name s = is_device_lower (to_lower s)

unfoldable pub is_operation_id : Text → Bool
unfolding matches_operation_id is_reserved_device_name
is_operation_id value = matches_operation_id value && not (is_reserved_device_name value)

abbrev pub internal_operation_id_prefix : Text
internal_operation_id_prefix = text "_cope_internal_"

-- What follows a prefix, where the text has it.
unfoldable pub strip_prefix : Text → Text → Option Text
strip_prefix [] s = some s
strip_prefix (c ∷ p) [] = none
strip_prefix (c ∷ p) (d ∷ s) = elim (nat_eq c d) [ true ↦ strip_prefix p s | false ↦ none ]

-- `^_cope_internal_[A-Za-z0-9_-]+$`
unfoldable pub matches_internal : Text → Bool
unfolding strip_prefix all is_word
matches_internal s = elim (strip_prefix internal_operation_id_prefix s) [
  | none ↦ false
  | some rest ↦ all is_word rest && leb 1 (length rest)
]

unfoldable pub is_internal_operation_id : Text → Bool
unfolding matches_internal
is_internal_operation_id value = leb (length value) 128 && matches_internal value

unfoldable pub is_journal_operation_id : Text → Bool
unfolding is_operation_id is_internal_operation_id
is_journal_operation_id value = is_operation_id value || is_internal_operation_id value
