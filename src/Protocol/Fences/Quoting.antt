-- ===== src/Protocol/Fences/Quoting.antt =====
-- Text inside a Markdown fence never becomes an envelope, and an envelope is found whole.
use cope_code.Common.{
  All-append, ℕ, suc, ◌+◌, ◌≡◌, refl, ap, ◌∙◌, true, false, none, some, List, [], ◌∷◌, ◌++◌, Text,
  text, text_eq, arith, length, All, Lacks, is_blank,
}
use mathlib.Core.List.{append_assoc, append-nil}
use cope_code.Protocol.Fences.{
  is_version, parsed, OpenFence, EnvelopeScan, split_lines, join_lines, protocol_opening, opened,
  is_closing_fence, scan_from, scan_markdown_fences, with_line, extract_cba_envelope,
  checked_envelope,
}

closing_payload :
    (line other : Text) (f : OpenFence)
    → is_closing_fence line (with_line f other) ≡ is_closing_fence line f
unfolding is_closing_fence
closing_payload line other f = refl

still_open :
    (body : List Text) (line : Text) (f : OpenFence)
    → All (λ l. is_closing_fence l f ≡ false) body
    → All (λ l. is_closing_fence l (with_line f line) ≡ false) body
still_open [] line f h = tt
still_open (l ∷ ls) line f (h, hs) = (closing_payload l line f ∙ h, still_open ls line f hs)

in_quote :
    (body : List Text) (index : ℕ) (f : OpenFence) (close : Text) (rest : List Text)
    → f.protocol_version ≡ none
    → All (λ line. is_closing_fence line f ≡ false) body
    → is_closing_fence close f ≡ true
    → scan_from index (some f) (body ++ close ∷ rest)
      ≡ scan_from (index + (length body + 1)) none rest
unfolding scan_from
in_quote [] index f close rest quote h closes = rw (scan_from, closes) (rw quote refl)
in_quote (line ∷ body) index f close rest quote (h, hs) closes =
    rw (scan_from, h)
      (in_quote body (index + 1) (with_line f line) close rest quote (still_open body line f hs)
          (closing_payload close line f ∙ closes)
        ∙ ap (λ i. scan_from i none rest) (later index (length body)))
  where
    later : (i n : ℕ) → i + 1 + (n + 1) ≡ i + (suc n + 1)
    later i n = omega arith

-- A quoted excerpt holds no envelope: a Markdown fence, whatever lines stand in it that do not close
-- it, protocol fences included, is scanned as if it were not there.
pub quoted_lines :
    (index : ℕ) (opening : Text) (body : List Text) (close : Text) (rest : List Text)
    (f : OpenFence)
    → opened index opening ≡ some f
    → f.protocol_version ≡ none
    → All (λ line. is_closing_fence line f ≡ false) body
    → is_closing_fence close f ≡ true
    → scan_from index none (opening ∷ body ++ close ∷ rest)
      ≡ scan_from (index + (length body + 2)) none rest
unfolding scan_from
quoted_lines index opening body close rest f opens quote h closes =
    rw (scan_from, opens)
      (in_quote body (index + 1) f close rest quote h closes
        ∙ ap (λ i. scan_from i none rest) (later index (length body)))
  where
    later : (i n : ℕ) → i + 1 + (n + 1) ≡ i + (n + 2)
    later i n = omega arith

-- Lines that hold no line end.
abbrev pub IsLine : Text → Type 0
IsLine s = Lacks 10 s × Lacks 13 s

split_lines-cons : (l s : Text) → IsLine l → split_lines (l ++ 10 ∷ s) ≡ l ∷ split_lines s
unfolding split_lines
split_lines-cons [] [] h = refl
split_lines-cons [] (d ∷ s) h = refl
split_lines-cons (c ∷ []) s ((a, _), (b, _)) = rw (a, b, split_lines-cons [] s (tt, tt)) refl
split_lines-cons (c ∷ d ∷ l) s ((a, la), (b, lb)) =
    rw (a, b, split_lines-cons (d ∷ l) s (la, lb)) refl

split_lines-line : (l : Text) → IsLine l → split_lines l ≡ l ∷ []
unfolding split_lines
split_lines-line [] h = refl
split_lines-line (c ∷ []) ((a, _), _) = rw a refl
split_lines-line (c ∷ d ∷ l) ((a, la), (b, lb)) = rw (a, b, split_lines-line (d ∷ l) (la, lb)) refl

split_lines-join_lines :
    (l : Text) (ls : List Text)
    → IsLine l
    → All IsLine ls
    → split_lines (join_lines (l ∷ ls)) ≡ l ∷ ls
unfolding join_lines
split_lines-join_lines l [] h hs = split_lines-line l h
split_lines-join_lines l (m ∷ ls) h (hm, hs) =
    split_lines-cons l (join_lines (m ∷ ls)) h ∙ ap (◌∷◌ l) (split_lines-join_lines m ls hm hs)

-- The fence of an envelope of a version, with lines read.
abbrev pub protocol_fence : Text → ℕ → List Text → OpenFence
protocol_fence version index lines = record {
  character = b'`';
  size = 3;
  protocol_version = some version;
  start_index = index;
  payload = lines;
}

abbrev one_found : Text → Text → ℕ → ℕ → EnvelopeScan
one_found version json first last = record {
  envelopes = record { version = version; json = json; start_line = first; end_line = last } ∷ [];
  truncated = none;
}

last_line : (i : ℕ) → i + 1 ≡ i + 0 + 1
last_line i = omega arith

in_envelope :
    (body read : List Text) (index start : ℕ) (version : Text)
    → All (λ line. text_eq line (text "```") ≡ false) body
    → scan_from index (some (protocol_fence version start read)) (body ++ text "```" ∷ [])
      ≡ one_found version (join_lines (read ++ body)) (start + 1) (index + length body + 1)
unfolding scan_from is_closing_fence text_eq
in_envelope [] read index start version h =
    rw (append-nil read) (ap (one_found version (join_lines read) (start + 1)) (last_line index))
in_envelope (line ∷ body) read index start version (h, hs) =
    rw (scan_from, h)
      (in_envelope body (read ++ line ∷ []) (index + 1) start version hs
        ∙ ap
            (λ lines.
              one_found version (join_lines lines) (start + 1) (index + 1 + length body + 1))
            (append_assoc read (line ∷ []) body)
        ∙ ap (one_found version (join_lines (read ++ line ∷ body)) (start + 1))
            (later index (length body)))
  where
    later : (i n : ℕ) → i + 1 + n + 1 ≡ i + suc n + 1
    later i n = omega arith

opening_fence : IsLine (text "```cba/1")
opening_fence = ground arith

closing_fence : IsLine (text "```")
closing_fence = ground arith

opens_protocol : opened 0 (text "```cba/1") ≡ some (protocol_fence (text "cba/1") 0 [])
unfolding opened protocol_opening is_version
opens_protocol = refl

scan_whole :
    (body : List Text)
    → All IsLine body
    → All (λ line. text_eq line (text "```") ≡ false) body
    → scan_markdown_fences (join_lines (text "```cba/1" ∷ body ++ text "```" ∷ []))
      ≡ one_found (text "cba/1") (join_lines body) 1 (1 + length body + 1)
unfolding scan_markdown_fences scan_from
scan_whole body lines open_lines =
    ap (scan_from 0 none) (
      split_lines-join_lines (text "```cba/1") (body ++ text "```" ∷ []) opening_fence
        (All-append IsLine body (text "```" ∷ []) lines (closing_fence, tt)))
    ∙ rw (scan_from, opens_protocol) (in_envelope body [] 1 0 (text "cba/1") open_lines)

-- A response that is one envelope of the protocol reads back as that envelope: its JSON is the lines
-- between the fences, for lines that are no closing fence and not all blank.
pub extract_cba_envelope_lem :
    (body : List Text)
    → All IsLine body
    → All (λ line. text_eq line (text "```") ≡ false) body
    → is_blank (join_lines body) ≡ false
    → extract_cba_envelope
        (join_lines (text "```cba/1" ∷ body ++ text "```" ∷ []))
        (some (text "cba/1"))
      ≡ parsed (record {
        version = text "cba/1";
        json = join_lines body;
        start_line = 1;
        end_line = 1 + length body + 1;
      })
unfolding extract_cba_envelope checked_envelope text_eq
extract_cba_envelope_lem body lines open_lines filled =
    rw (scan_whole body lines open_lines, filled) refl
