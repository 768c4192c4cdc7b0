-- ===== src/Protocol/Fences.antt =====
-- The Markdown scan of src/protocol/parser.ts: `scanMarkdownFences` and `extractCbaEnvelope`. A line is
-- the text between line ends; the regular expressions are written out.
pub mod Quoting
use cope_code.Common.{
  ℕ, suc, ◌+◌, ◌≡◌, Bool, true, false, not, ◌&&◌, ◌||◌, Option, none, some, List, [], ◌∷◌, ◌++◌,
  Text, text, text_eq, if◌then◌else◌, all, length, leb, nat_eq, is_space, is_blank, starts_with,
  glue,
}

-- `ProtocolErrorCode`, as far as the parser throws it, and the `TypeError` of its limits.
pub data ProtocolErrorCode : Type 0 where
  input_too_large multiple_envelopes truncated_envelope missing_envelope : ProtocolErrorCode
  unsupported_version empty_envelope invalid_json schema_invalid task_mismatch : ProtocolErrorCode
  turn_mismatch invalid_message unknown_message_type unknown_tool invalid_batch : ProtocolErrorCode
  duplicate_operation_id limit_invalid : ProtocolErrorCode

pub data Parsed {ℓ} (A : Type ℓ) : Type ℓ where
  parsed : A → Parsed A
  refused : ProtocolErrorCode → Parsed A

pub record ExtractedEnvelope : Type 0 where
  pub version : Text
  pub json : Text
  pub start_line : ℕ
  pub end_line : ℕ

-- `lines` are those since the opening, for `lines.slice(payloadStartIndex, index)`.
pub record OpenFence : Type 0 where
  pub character : ℕ
  pub size : ℕ
  pub protocol_version : Option Text
  pub start_index : ℕ
  pub payload : List Text

pub record EnvelopeScan : Type 0 where
  pub envelopes : List ExtractedEnvelope
  pub truncated : Option Text

-- `split(/\r\n|\n/)`
unfoldable pub split_lines : Text → List Text
split_lines [] = [] ∷ []
split_lines (c ∷ []) = if nat_eq c 10 then [] ∷ [] ∷ [] else (c ∷ []) ∷ []
split_lines (c ∷ d ∷ s) =
    let skipping = split_lines s in
    let later = split_lines (d ∷ s) in
    if nat_eq c 10
    then [] ∷ later
    else if nat_eq c 13 && nat_eq d 10
    then [] ∷ skipping
    else glue c later

unfoldable pub join_lines : List Text → Text
join_lines [] = []
join_lines (s ∷ []) = s
join_lines (s ∷ t ∷ ts) = s ++ 10 ∷ join_lines (t ∷ ts)

unfoldable pub strip : Text → Text → Option Text
strip [] s = some s
strip (c ∷ p) [] = none
strip (c ∷ p) (d ∷ s) = elim (nat_eq c d) [ true ↦ strip p s | false ↦ none ]

-- `[^\s`~]+`
abbrev is_version_unit : ℕ → Bool
is_version_unit c = not (is_space c) && (not (nat_eq c b'`') && not (nat_eq c b'~'))

unfoldable pub is_version : Text → Bool
unfolding all is_space
is_version s = all is_version_unit s && leb 1 (length s)

abbrev versioned : Text → Option Text → Option Text
versioned prefix none = none
versioned prefix (some rest) = if is_version rest then some (prefix ++ rest) else none

abbrev either : Option Text → Option Text → Option Text
either (some v) other = some v
either none other = other

-- `^```((?:cba|cba-agent)\/[^\s`~]+)$`
unfoldable pub protocol_opening : Text → Option Text
unfolding strip
protocol_opening line = elim (strip (text "```") line) [
  | none ↦ none
  | some rest ↦
      either (versioned (text "cba/") (strip (text "cba/") rest))
        (versioned (text "cba-agent/") (strip (text "cba-agent/") rest))
]

-- ` {0,3}`: up to three spaces, and what follows the run of one unit, with its length.
unfoldable pub drop_spaces : ℕ → Text → Text
drop_spaces n [] = []
drop_spaces ℕ.zero (c ∷ s) = c ∷ s
drop_spaces (ℕ.suc n) (c ∷ s) = if nat_eq c 32 then drop_spaces n s else c ∷ s

unfoldable pub run_of : ℕ → Text → ℕ × Text
run_of c [] = (0, [])
run_of c (d ∷ s) = let rest = run_of c s in if nat_eq c d then (suc rest.0, rest.1) else (0, d ∷ s)

-- `.` with the flag u.
abbrev is_dot : ℕ → Bool
is_dot c =
    not (nat_eq c 10) && (not (nat_eq c 13) && (not (nat_eq c 0x2028) && not (nat_eq c 0x2029)))

abbrev marker_of : ℕ → Text → Option (ℕ × ℕ)
marker_of c s =
    let (n, rest) = run_of c s in if leb 3 n && all is_dot rest then some (c, n) else none

-- `^(?: {0,3})(`{3,}|~{3,})(.*)$`: the character and the length of the marker.
unfoldable pub markdown_opening : Text → Option (ℕ × ℕ)
unfolding drop_spaces run_of all
markdown_opening line = elim (marker_of b'`' (drop_spaces 3 line)) [
  | some marker ↦ some marker
  | none ↦ marker_of b'~' (drop_spaces 3 line)
]

abbrev is_blank_unit : ℕ → Bool
is_blank_unit c = nat_eq c 32 || nat_eq c 9

unfoldable pub is_closing_fence : Text → OpenFence → Bool
unfolding drop_spaces run_of all
is_closing_fence line open_fence = elim open_fence.protocol_version [
  | some version ↦ text_eq line (text "```")
  | none ↦
      let (n, rest) = run_of open_fence.character (drop_spaces 3 line) in
      leb open_fence.size n && all is_blank_unit rest
]

-- The opening of a fence by a line outside one.
unfoldable pub opened : ℕ → Text → Option OpenFence
opened index line = elim (protocol_opening line) [
  | some version ↦ some (record {
    character = b'`';
    size = 3;
    protocol_version = some version;
    start_index = index;
    payload = [];
  })
  | none ↦ elim (markdown_opening line) [
    | some (c, n) ↦ some (record {
      character = c;
      size = n;
      protocol_version = none;
      start_index = index;
      payload = [];
    })
    | none ↦ none
  ]
]

abbrev envelopes_of : ℕ → OpenFence → List ExtractedEnvelope
envelopes_of index f = elim f.protocol_version [
  | none ↦ []
  | some version ↦
      record {
        version = version;
        json = join_lines f.payload;
        start_line = f.start_index + 1;
        end_line = index + 1;
      }
      ∷ []
]

abbrev with_envelopes : List ExtractedEnvelope → EnvelopeScan → EnvelopeScan
with_envelopes found scan = record scan { envelopes = found ++ scan.envelopes }

abbrev pub with_line : OpenFence → Text → OpenFence
with_line f line = record f { payload = f.payload ++ line ∷ [] }

-- The loop of `scanMarkdownFences`, from a line on.
unfoldable pub scan_from : ℕ → Option OpenFence → List Text → EnvelopeScan
scan_from index none [] = record { envelopes = []; truncated = none }
scan_from index (some f) [] = record { envelopes = []; truncated = f.protocol_version }
scan_from index none (line ∷ lines) = scan_from (index + 1) (opened index line) lines
scan_from index (some f) (line ∷ lines) =
    let closed = scan_from (index + 1) none lines in
    let going = scan_from (index + 1) (some (with_line f line)) lines in
    if is_closing_fence line f then with_envelopes (envelopes_of index f) closed else going

unfoldable pub scan_markdown_fences : Text → EnvelopeScan
unfolding split_lines
scan_markdown_fences input = scan_from 0 none (split_lines input)

-- The checks of `extractCbaEnvelope` on what the scan found.
unfoldable pub checked_envelope : EnvelopeScan → Option Text → Parsed ExtractedEnvelope
unfolding is_blank is_space
checked_envelope scan expected = elim scan.truncated [
  | some version ↦
      if leb 1 (length scan.envelopes)
      then refused multiple_envelopes
      else refused truncated_envelope
  | none ↦ elim scan.envelopes [
    | [] ↦ refused missing_envelope
    | e ∷ [] ↦
        if elim expected [ none ↦ false | some version ↦ not (text_eq e.version version) ]
        then refused unsupported_version
        else if is_blank e.json
        then refused empty_envelope
        else parsed e
    | _ ∷ _ ∷ _ ↦ refused multiple_envelopes
  ]
]

unfoldable pub extract_cba_envelope : Text → Option Text → Parsed ExtractedEnvelope
extract_cba_envelope input expected = checked_envelope (scan_markdown_fences input) expected
