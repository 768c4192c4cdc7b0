-- ===== src/Security/Secrets.antt =====
-- src/security/secrets.ts: SecretScanner. The matches of the rules' regular expressions and the keyed
-- hash are parameters.
pub mod Layout
pub mod Redaction
pub mod Coverage
mod Tests
use cope_code.Common.{
  ℕ, suc, ◌+◌, ◌-◌, ◌≤◌, ◌<◌, Bool, true, false, not, ◌&&◌, ◌||◌, Option, none, some, List, [], ◌∷◌,
  ◌++◌, map, Text, text, Eq, eq_of_discrete, ◌==◌, if◌then◌else◌, ltb, leb, nat_eq, length, any,
  select, contains, last, take, drop, split, concat_map, Result, ok, err, ErrorCode, fail_if,
}

pub data SecretKind : Type 0 where
  private_key aws_access_key github_token jwt bearer_token credential_assignment : SecretKind
  connection_string_password : SecretKind

abbrev pub kind_text : SecretKind → Text
kind_text private_key = text "private-key"
kind_text aws_access_key = text "aws-access-key"
kind_text github_token = text "github-token"
kind_text jwt = text "jwt"
kind_text bearer_token = text "bearer-token"
kind_text credential_assignment = text "credential-assignment"
kind_text connection_string_password = text "connection-string-password"

pub data SecretSeverity : Type 0 where
  high medium : SecretSeverity

abbrev SecretSeverity-discrete : Discrete SecretSeverity
SecretSeverity-discrete = hlevel

instance abbrev pub severity_is_eq : Eq SecretSeverity
severity_is_eq = eq_of_discrete SecretSeverity-discrete

pub record SecretFinding : Type 0 where
  pub kind : SecretKind
  pub severity : SecretSeverity
  pub start : ℕ
  pub end : ℕ
  pub line : ℕ
  pub column : ℕ
  pub fingerprint : Text

-- A finding as it is reported: without its place.
pub record SafeFinding : Type 0 where
  pub kind : SecretKind
  pub severity : SecretSeverity
  pub line : ℕ
  pub column : ℕ
  pub fingerprint : Text

pub record RedactionResult : Type 0 where
  pub content : Text
  pub findings : List SecretFinding
  pub redaction_count : ℕ

-- One match of `matchAll`.
pub record Match : Type 0 where
  pub index : ℕ
  pub matched : Text

-- `content.matchAll(expression)` for the expression of a rule, and the first 16 digits of the HMAC.
pub record Matcher : Type 0 where
  pub match_all : SecretKind → Text → List Match
  pub fingerprint_of : Text → Text

abbrev pub rules : List (SecretKind × SecretSeverity)
rules =
    (private_key, high)
    ∷ (aws_access_key, high)
    ∷ (github_token, high)
    ∷ (jwt, high)
    ∷ (bearer_token, high)
    ∷ (credential_assignment, high)
    ∷ (connection_string_password, high)
    ∷ []

unfoldable pub safe_finding : SecretFinding → SafeFinding
safe_finding f = record {
  kind = f.kind;
  severity = f.severity;
  line = f.line;
  column = f.column;
  fingerprint = f.fingerprint;
}

unfoldable pub line_and_column : Text → ℕ → ℕ × ℕ
unfolding take split last
line_and_column content offset =
    let lines = split 10 (take offset content) in
    (length lines, (elim (last lines) [ none ↦ 0 | some line ↦ length line ]) + 1)

-- `sort` is stable: of two that are equal, the earlier stays in front.
unfoldable pub insert_by :
    (SecretFinding → SecretFinding → Bool) → SecretFinding → List SecretFinding → List SecretFinding
insert_by before f [] = f ∷ []
insert_by before f (g ∷ gs) = if before f g then f ∷ g ∷ gs else g ∷ insert_by before f gs

unfoldable pub sort_by :
    (SecretFinding → SecretFinding → Bool) → List SecretFinding → List SecretFinding
unfolding insert_by
sort_by before [] = []
sort_by before (f ∷ fs) = insert_by before f (sort_by before fs)

-- `left.start - right.start || right.end - right.start - (left.end - left.start)`, at most 0.
unfoldable pub first_and_longest : SecretFinding → SecretFinding → Bool
first_and_longest left right =
    ltb left.start right.start
    || nat_eq left.start right.start && leb (right.end - right.start) (left.end - left.start)

-- `right.start - left.start`, at most 0.
unfoldable pub later_first : SecretFinding → SecretFinding → Bool
later_first left right = leb right.start left.start

unfoldable pub overlaps : SecretFinding → SecretFinding → Bool
overlaps candidate existing = ltb candidate.start existing.end && ltb existing.start candidate.end

unfoldable pub kept_from : List SecretFinding → List SecretFinding → List SecretFinding
unfolding any overlaps
kept_from accepted [] = accepted
kept_from accepted (candidate ∷ candidates) =
    kept_from (if any (overlaps candidate) accepted then accepted else accepted ++ candidate ∷ [])
      candidates

unfoldable pub remove_overlaps : List SecretFinding → List SecretFinding
unfolding kept_from sort_by first_and_longest
remove_overlaps candidates = kept_from [] (sort_by first_and_longest candidates)

unfoldable pub marker_of : SecretFinding → Text
marker_of f = text "[REDACTED:" ++ (kind_text f.kind ++ (text ":" ++ (f.fingerprint ++ text "]")))

-- `${redacted.slice(0, finding.start)}${marker}${redacted.slice(finding.end)}`
unfoldable pub redact_one : SecretFinding → Text → Text
unfolding take drop marker_of
redact_one f redacted = take f.start redacted ++ (marker_of f ++ drop f.end redacted)

unfoldable pub redact_each : List SecretFinding → Text → Text
unfolding redact_one
redact_each [] redacted = redacted
redact_each (f ∷ fs) redacted = redact_each fs (redact_one f redacted)

module _ (matcher : Matcher) where
  unfoldable pub found : SecretKind × SecretSeverity → Text → Match → SecretFinding
  unfolding line_and_column
  found rule content m =
      let location = line_and_column content m.index in
      record {
        kind = rule.0;
        severity = rule.1;
        start = m.index;
        end = m.index + length m.matched;
        line = location.0;
        column = location.1;
        fingerprint = matcher.fingerprint_of m.matched;
      }

  unfoldable pub candidates_of : Text → List SecretFinding
  unfolding found concat_map
  candidates_of content =
      concat_map (λ rule. map (found rule content) (matcher.match_all rule.0 content)) rules

  unfoldable pub scan : Text → List SecretFinding
  unfolding remove_overlaps candidates_of
  scan content = remove_overlaps (candidates_of content)

  unfoldable pub redact : Text → RedactionResult
  unfolding redact_each sort_by later_first scan
  redact content =
      let findings = scan content in
      record {
        content = redact_each (sort_by later_first findings) content;
        findings = findings;
        redaction_count = length findings;
      }

  unfoldable pub assert_no_secrets : Text → List SecretSeverity → Result (Unit {0})
  unfolding select contains
  assert_no_secrets content blocked =
      fail_if (leb 1 (length (select (λ f. contains f.severity blocked) (scan content))))
        ErrorCode.policy_denied
