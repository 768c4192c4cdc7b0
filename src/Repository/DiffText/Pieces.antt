-- ===== src/Repository/DiffText/Pieces.antt =====
-- The pieces of a file's diff, and the diff within its limit.
use cope_code.Common.{
  ℕ, ◌≤◌, ◌≡◌, refl, sym, subst, Bool, true, false, Option, none, some, List, [], ◌∷◌, ◌++◌, Text,
  text, if◌then◌else◌, concat_map,
}
use cope_code.Repository.LineDiff.{DiffLine, DiffOperation, diff_lines}
use cope_code.Repository.LineDiff.Hunks.{PositionedOperation, Hunk, diff_hunks}
use cope_code.Repository.DiffText.{
  Writer, append, written, if_went, hunk_header, operation_line, no_newline_note, write_operation,
  write_operations, write_hunks, decode_lines, format_diff_path, side_name, git_line, binary_line,
  mode_line, both_binary, is_none, render_operations, render_lines, render_body, render_file_diff,
}
use cope_code.Repository.DiffText.Writing.{
  write_all, write_all-IsCut, write_all-sequence, IsCut, Follows, append-Follows, if_went-Follows,
}

-- All the pieces of a diff, without a limit.
abbrev pub noted : Bool → List Text
noted true = no_newline_note ∷ []
noted false = []

abbrev pub operation_pieces : PositionedOperation → List Text
operation_pieces o = operation_line o.operation ∷ noted o.operation.line.no_newline

unfoldable pub hunk_pieces : Hunk → List Text
unfolding concat_map
hunk_pieces h = hunk_header h ∷ concat_map operation_pieces h.operations

write_operation-Follows :
    (w : Writer) (o : PositionedOperation)
    → Follows w (operation_pieces o) (write_operation w o.operation)
unfolding write_operation
write_operation-Follows w o =
    if_went-Follows w (operation_line o.operation ∷ []) (noted o.operation.line.no_newline)
      (append w (operation_line o.operation))
      (λ w1. if o.operation.line.no_newline then append w1 no_newline_note else (w1, true))
      (append-Follows w (operation_line o.operation)) (note o.operation.line.no_newline)
  where
    note :
        (b : Bool) (w1 : Writer)
        → Follows w1 (noted b) (if b then append w1 no_newline_note else (w1, true))
    note true w1 = append-Follows w1 no_newline_note
    note false w1 = (refl, λ h. cc h)

write_operations-Follows :
    (w : Writer) (os : List PositionedOperation)
    → Follows w (concat_map operation_pieces os) (write_operations w os)
unfolding write_operations concat_map
write_operations-Follows w [] = (refl, λ h. cc h)
write_operations-Follows w (o ∷ os) =
    if_went-Follows w (operation_pieces o) (concat_map operation_pieces os)
      (write_operation w o.operation) (λ w1. write_operations w1 os) (write_operation-Follows w o)
      (λ w1. write_operations-Follows w1 os)

write_hunks-Follows :
    (w : Writer) (hs : List Hunk) → Follows w (concat_map hunk_pieces hs) (write_hunks w hs)
unfolding write_hunks concat_map hunk_pieces
write_hunks-Follows w [] = (refl, λ h. cc h)
write_hunks-Follows w (h ∷ hs) =
    if_went-Follows w (hunk_header h ∷ [])
      (concat_map operation_pieces h.operations ++ concat_map hunk_pieces hs)
      (append w (hunk_header h))
      (λ w1. if_went (write_operations w1 h.operations) λ w2. write_hunks w2 hs)
      (append-Follows w (hunk_header h))
      (λ w1.
        if_went-Follows w1 (concat_map operation_pieces h.operations) (concat_map hunk_pieces hs)
          (write_operations w1 h.operations) (λ w2. write_hunks w2 hs)
          (write_operations-Follows w1 h.operations) (λ w2. write_hunks-Follows w2 hs))

unfoldable pub operations_pieces : List DiffOperation → List Text
unfolding concat_map hunk_pieces
operations_pieces [] = empty_hunk_text ∷ []
  where
    empty_hunk_text : Text
    empty_hunk_text = text "@@ -0,0 +0,0 @@" ++ 10 ∷ []
operations_pieces (o ∷ os) = concat_map hunk_pieces (diff_hunks (o ∷ os) 3)

unfoldable pub lines_pieces : Text → Option (List DiffLine) → Option (List DiffLine) → List Text
unfolding operations_pieces
lines_pieces binary (some before) (some after) = operations_pieces (diff_lines before after)
lines_pieces binary (some before) none = binary ∷ []
lines_pieces binary none after = binary ∷ []

operations_pieces_lem :
    (w : Writer) (os : List DiffOperation)
    → render_operations w os ≡ write_all w (operations_pieces os)
unfolding operations_pieces
operations_pieces_lem w [] = refl
operations_pieces_lem w (o ∷ os) = (write_hunks-Follows w (diff_hunks (o ∷ os) 3)).0

lines_pieces_lem :
    (w : Writer) (binary : Text) (before after : Option (List DiffLine))
    → render_lines w binary before after ≡ write_all w (lines_pieces binary before after)
unfolding lines_pieces
lines_pieces_lem w binary (some before) (some after) =
    operations_pieces_lem w (diff_lines before after)
lines_pieces_lem w binary (some before) none = refl
lines_pieces_lem w binary none after = refl

-- One piece, where a condition holds.
abbrev piece_if : Bool → Text → List Text
piece_if true p = p ∷ []
piece_if false p = []

piece_if_lem :
    (b : Bool) (w : Writer) (p : Text) → (if b then written w p else w) ≡ write_all w (piece_if b p)
piece_if_lem true w p = refl
piece_if_lem false w p = refl

if_write_all :
    (b : Bool) (w x y : Writer) (ps qs : List Text)
    → x ≡ write_all w ps
    → y ≡ write_all w qs
    → (if b then x else y) ≡ write_all w (if b then ps else qs)
if_write_all true w x y ps qs h k = h
if_write_all false w x y ps qs h k = k

module _ (decode : List ℕ → Option Text) (stringify : Text → Text) where
  abbrev name_of : Text → Text → Option (List ℕ) → Text
  name_of = side_name decode stringify

  abbrev formatted : Text → Text → Text
  formatted = format_diff_path decode stringify

  unfoldable pub body_pieces : Text → Option (List ℕ) → Option (List ℕ) → Option ℕ → List Text
  unfolding lines_pieces
  body_pieces path before after mode =
      piece_if (is_none before) (mode_line (text "new") mode)
      ++ (piece_if (is_none after) (mode_line (text "deleted") mode)
          ++ ((text "--- " ++ (name_of (text "a") path before ++ 10 ∷ []))
              ∷ (text "+++ " ++ (name_of (text "b") path after ++ 10 ∷ []))
              ∷ (if both_binary before after
                  then binary_line (formatted (text "a") path) (formatted (text "b") path) ∷ []
                  else lines_pieces
                      (binary_line (name_of (text "a") path before) (name_of (text "b") path after))
                      (decode_lines decode stringify before)
                      (decode_lines decode stringify after))))

  unfoldable pub diff_pieces : Text → Option (List ℕ) → Option (List ℕ) → Option ℕ → List Text
  unfolding body_pieces
  diff_pieces path before after mode =
      git_line decode stringify path ∷ body_pieces path before after mode

  body_pieces_lem :
      (w : Writer) (path : Text) (before after : Option (List ℕ)) (mode : Option ℕ)
      → render_body decode stringify w path before after mode
        ≡ write_all w (body_pieces path before after mode)
  unfolding body_pieces
  body_pieces_lem w path before after mode =
      let new_line = mode_line (text "new") mode in
      let deleted_line = mode_line (text "deleted") mode in
      let w1 = if is_none before then written w new_line else w in
      let w2 = if is_none after then written w1 deleted_line else w1 in
      let w4 =
        written (written w2 (text "--- " ++ (name_of (text "a") path before ++ 10 ∷ [])))
          (text "+++ " ++ (name_of (text "b") path after ++ 10 ∷ [])) in
      let old_name = name_of (text "a") path before in
      let new_name = name_of (text "b") path after in
      let named = binary_line (formatted (text "a") path) (formatted (text "b") path) in
      let general = binary_line old_name new_name in
      let old_lines = decode_lines decode stringify before in
      let new_lines = decode_lines decode stringify after in
      let last_pieces =
        if both_binary before after then named ∷ [] else lines_pieces general old_lines new_lines in
      let ends =
        (text "--- " ++ (old_name ++ 10 ∷ []))
        ∷ (text "+++ " ++ (new_name ++ 10 ∷ []))
        ∷ last_pieces in
      let result = render_body decode stringify w path before after mode in
      let from_names : result ≡ write_all w2 ends =
        if_write_all (both_binary before after) w4 (written w4 named)
          (render_lines w4 general old_lines new_lines) (named ∷ [])
          (lines_pieces general old_lines new_lines) refl
          (lines_pieces_lem w4 general old_lines new_lines) in
      write_all-sequence w w1 result (piece_if (is_none before) new_line)
        (piece_if (is_none after) deleted_line ++ ends) (piece_if_lem (is_none before) w new_line)
        (write_all-sequence w1 w2 result (piece_if (is_none after) deleted_line) ends
          (piece_if_lem (is_none after) w1 deleted_line) from_names)

  diff_pieces_lem :
      (w : Writer) (path : Text) (before after : Option (List ℕ)) (mode : Option ℕ)
      → render_file_diff decode stringify w path before after mode
        ≡ write_all w (diff_pieces path before after mode)
  unfolding render_file_diff diff_pieces
  diff_pieces_lem w path before after mode =
      (if_went-Follows w (git_line decode stringify path ∷ []) (body_pieces path before after mode)
        (append w (git_line decode stringify path))
        (λ w1. (render_body decode stringify w1 path before after mode, true))
        (append-Follows w (git_line decode stringify path))
        (λ w1. (body_pieces_lem w1 path before after mode, λ h. cc h))).0

  -- The text of a file's diff stays within the limit, and is the whole text or the pieces of it up to
  -- the first that does not fit: no return in between leaves out or adds one. The writer says whether
  -- it was cut.
  pub render_file_diff-IsCut :
      (w : Writer) (path : Text) (before after : Option (List ℕ)) (mode : Option ℕ)
      → w.truncated ≡ false
      → w.retained_bytes ≤ w.max_bytes
      → IsCut w
          (diff_pieces path before after mode)
          (render_file_diff decode stringify w path before after mode)
  render_file_diff-IsCut w path before after mode going fits =
      subst (IsCut w (diff_pieces path before after mode))
        (sym (diff_pieces_lem w path before after mode))
        (write_all-IsCut w (diff_pieces path before after mode) going fits)
