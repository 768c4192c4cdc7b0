-- ===== src/Repository/DiffText.antt =====
-- src/repository/snapshot-diff.ts, BoundedTextWriter and from renderFileDiff to formatMode, with
-- looksBinary of src/repository/text-file.ts: the text of a diff. A chunk is the text that it encodes.
pub mod Writing
pub mod Pieces
pub mod Lines
pub mod Changes
pub mod Decimal
mod Tests
use cope_code.Common.{
  ℕ, suc, ◌+◌, ◌*◌, ◌/◌, ◌%◌, Bool, true, false, not, ◌&&◌, ◌||◌, Option, none, some, List, [], ◌∷◌,
  ◌++◌, Text, text, if◌then◌else◌, ltb, leb, nat_eq, any, length, take, select, split, is_space,
}
use cope_code.Protocol.Parser.{byte_length}
use cope_code.Repository.LineDiff.{DiffLine, Change, equal, delete, add, DiffOperation, diff_lines}
use cope_code.Repository.LineDiff.Hunks.{PositionedOperation, Hunk, diff_hunks}

-- `BoundedTextWriter`.
pub record Writer : Type 0 where
  pub chunks : List Text
  pub retained_bytes : ℕ
  pub truncated : Bool
  pub max_bytes : ℕ

unfoldable pub append : Writer → Text → Writer × Bool
unfolding byte_length
append w value =
    if w.truncated
    then (w, false)
    else if ltb w.max_bytes (w.retained_bytes + byte_length value)
    then (record w { truncated = true }, false)
    else (
      record w {
        chunks = w.chunks ++ value ∷ [];
        retained_bytes = w.retained_bytes + byte_length value;
      },
      true,
    )

-- An `append` whose result the code does not look at, and one after which it returns on `false`.
abbrev pub written : Writer → Text → Writer
written w value = (append w value).0

abbrev pub if_went : Writer × Bool → (Writer → Writer × Bool) → Writer × Bool
if_went (w, true) next = next w
if_went (w, false) next = (w, false)

-- A number in decimal digits. A number has fewer digits than its successor.
unfoldable pub digits_from : ℕ → ℕ → Text
digits_from ℕ.zero n = []
digits_from (ℕ.suc fuel) n =
    let front = digits_from fuel (n / 10) in
    if ltb n 10 then (48 + n) ∷ [] else front ++ (48 + n % 10) ∷ []

unfoldable pub decimal : ℕ → Text
unfolding digits_from
decimal n = digits_from (suc n) n

unfoldable pub hunk_header : Hunk → Text
unfolding decimal
hunk_header h =
    text "@@ -"
    ++ (decimal h.old_start
        ++ (text ","
            ++ (decimal h.old_count
                ++ (text " +"
                    ++ (decimal h.new_start
                        ++ (text "," ++ (decimal h.new_count ++ (text " @@" ++ 10 ∷ []))))))))

abbrev pub prefix_of : Change → ℕ
prefix_of equal = b' '
prefix_of delete = b'-'
prefix_of add = b'+'

abbrev pub operation_line : DiffOperation → Text
operation_line o = prefix_of o.kind ∷ (o.line.text ++ 10 ∷ [])

abbrev pub no_newline_note : Text
no_newline_note = text "\\ No newline at end of file" ++ 10 ∷ []

unfoldable pub write_operation : Writer → DiffOperation → Writer × Bool
unfolding append
write_operation w o =
    if_went (append w (operation_line o))
      λ w1. if o.line.no_newline then append w1 no_newline_note else (w1, true)

unfoldable pub write_operations : Writer → List PositionedOperation → Writer × Bool
unfolding write_operation
write_operations w [] = (w, true)
write_operations w (o ∷ os) = if_went (write_operation w o.operation) λ w1. write_operations w1 os

unfoldable pub write_hunks : Writer → List Hunk → Writer × Bool
unfolding append hunk_header write_operations
write_hunks w [] = (w, true)
write_hunks w (h ∷ hs) =
    if_went (append w (hunk_header h))
      λ w1. if_went (write_operations w1 h.operations) λ w2. write_hunks w2 hs

abbrev pub is_suspicious : ℕ → Bool
is_suspicious byte = (ltb byte 7 || ltb 13 byte && ltb byte 32) && not (nat_eq byte 27)

-- `suspicious / inspectedLength > 0.1`: a quotient of such small numbers is above 0.1 where it is
-- above a tenth.
unfoldable pub looks_binary : List ℕ → Bool
unfolding take any select
looks_binary bytes =
    let inspected = take 8192 bytes in
    any (λ byte. nat_eq byte 0) inspected
    || ltb (length inspected) (10 * length (select is_suspicious inspected))

-- `text.endsWith("\n")`, and `values.pop()`.
unfoldable pub ends_line : Text → Bool
ends_line [] = false
ends_line (c ∷ []) = nat_eq c 10
ends_line (c ∷ d ∷ s) = ends_line (d ∷ s)

unfoldable pub without_last : List Text → List Text
without_last [] = []
without_last (v ∷ []) = []
without_last (v ∷ w ∷ vs) = v ∷ without_last (w ∷ vs)

unfoldable pub marked_lines : Bool → List Text → List DiffLine
marked_lines has_final [] = []
marked_lines has_final (v ∷ []) = record { text = v; no_newline = not has_final } ∷ []
marked_lines has_final (v ∷ w ∷ vs) =
    record { text = v; no_newline = false } ∷ marked_lines has_final (w ∷ vs)

-- `decodeLines` of what the decoder returns.
unfoldable pub lines_of : Text → List DiffLine
unfolding ends_line without_last marked_lines split
lines_of s =
    marked_lines (ends_line s) (if ends_line s then without_last (split 10 s) else split 10 s)

abbrev pub is_odd : ℕ → Bool
is_odd n = nat_eq (n % 2) 1

-- `(mode & 0o111) !== 0`.
unfoldable pub format_mode : Option ℕ → Text
format_mode none = text "100644"
format_mode (some mode) =
    if is_odd mode || is_odd (mode / 8) || is_odd (mode / 64) then text "100755" else text "100644"

abbrev pub binary_line : Text → Text → Text
binary_line old new =
    text "Binary files " ++ (old ++ (text " and " ++ (new ++ (text " differ" ++ 10 ∷ []))))

abbrev pub mode_line : Text → Option ℕ → Text
mode_line words mode = words ++ (text " file mode " ++ (format_mode mode ++ 10 ∷ []))

abbrev pub both_binary : Option (List ℕ) → Option (List ℕ) → Bool
both_binary (some before) (some after) = looks_binary before || looks_binary after
both_binary (some before) none = false
both_binary none after = false

abbrev pub is_none : Option (List ℕ) → Bool
is_none none = true
is_none (some bytes) = false

abbrev pub empty_hunk : Text
empty_hunk = text "@@ -0,0 +0,0 @@" ++ 10 ∷ []

abbrev pub render_operations : Writer → List DiffOperation → Writer
render_operations w [] = written w empty_hunk
render_operations w (o ∷ os) = (write_hunks w (diff_hunks (o ∷ os) 3)).0

abbrev pub render_lines : Writer → Text → Option (List DiffLine) → Option (List DiffLine) → Writer
render_lines w binary (some before) (some after) = render_operations w (diff_lines before after)
render_lines w binary (some before) none = written w binary
render_lines w binary none after = written w binary

-- `TextDecoder` that throws on an invalid sequence, and `JSON.stringify` of a string.
module _ (decode : List ℕ → Option Text) (stringify : Text → Text) where
  unfoldable pub decode_lines : Option (List ℕ) → Option (List DiffLine)
  unfolding looks_binary lines_of
  decode_lines none = some []
  decode_lines (some []) = some []
  decode_lines (some (byte ∷ bytes)) =
      if looks_binary (byte ∷ bytes)
      then none
      else elim (decode (byte ∷ bytes)) [ none ↦ none | some s ↦ some (lines_of s) ]

  abbrev is_quoted : ℕ → Bool
  is_quoted c = is_space c || nat_eq c b'"' || nat_eq c b'\\'

  unfoldable pub format_diff_path : Text → Text → Text
  unfolding any is_space
  format_diff_path side path =
      let value = side ++ b'/' ∷ path in if any is_quoted value then stringify value else value

  -- `before === null ? "/dev/null" : formatDiffPath("a", path)`
  abbrev pub side_name : Text → Text → Option (List ℕ) → Text
  side_name side path none = text "/dev/null"
  side_name side path (some bytes) = format_diff_path side path

  abbrev pub git_line : Text → Text
  git_line path =
      text "diff --git "
      ++ (format_diff_path (text "a") path
          ++ (text " " ++ (format_diff_path (text "b") path ++ 10 ∷ [])))

  abbrev pub render_body : Writer → Text → Option (List ℕ) → Option (List ℕ) → Option ℕ → Writer
  render_body w path before after mode =
      let w1 = if is_none before then written w (mode_line (text "new") mode) else w in
      let w2 = if is_none after then written w1 (mode_line (text "deleted") mode) else w1 in
      let w3 = written w2 (text "--- " ++ (side_name (text "a") path before ++ 10 ∷ [])) in
      let w4 = written w3 (text "+++ " ++ (side_name (text "b") path after ++ 10 ∷ [])) in
      if both_binary before after
      then written w4
          (binary_line (format_diff_path (text "a") path) (format_diff_path (text "b") path))
      else render_lines w4
          (binary_line (side_name (text "a") path before) (side_name (text "b") path after))
          (decode_lines before) (decode_lines after)

  -- `renderFileDiff`.
  unfoldable pub render_file_diff :
      Writer → Text → Option (List ℕ) → Option (List ℕ) → Option ℕ → Writer
  unfolding append format_diff_path format_mode decode_lines write_hunks looks_binary diff_hunks
      diff_lines
  render_file_diff w path before after mode =
      (if_went (append w (git_line path)) λ w1. (render_body w1 path before after mode, true)).0
