-- ===== src/Security/Secrets/Tests.antt =====
-- Redactions of small texts.
use cope_code.Common.{◌≡◌, refl, List, [], ◌∷◌, map, Text, text, length, arith}
use cope_code.Security.Secrets.{
  SecretKind, credential_assignment, connection_string_password, Match, Matcher, candidates_of,
  scan, redact, marker_of,
}
use cope_code.Security.Secrets.Layout.{IsLaidOut}
use cope_code.Security.Secrets.Redaction.{outside, marked, redact_lem}

-- Two expressions that match in one text, and share the letters "Pwd".
abbrev content : Text
content = text "api_key=aaaaaaaaaaaa/Pwd=hunter2hunter2;"

abbrev matches : SecretKind → Text → List Match
matches credential_assignment s =
    record { index = 0; matched = text "api_key=aaaaaaaaaaaa/Pwd" } ∷ []
matches connection_string_password s =
    record { index = 21; matched = text "Pwd=hunter2hunter2" } ∷ []
matches _ s = []

abbrev matcher : Matcher
matcher = record { match_all = matches; fingerprint_of = λ s. text "f" }

-- The second match is dropped, and what it has beyond the first one stays in the text.
leaves_the_rest :
    (redact matcher content).content ≡ text "[REDACTED:credential-assignment:f]=hunter2hunter2;"
unfolding redact
leaves_the_rest = refl

redact_lem_example :
    ((redact matcher content).content
      ≡ marked (outside 0 content (scan matcher content)) (map marker_of (scan matcher content)))
    × IsLaidOut (length content) 0 (scan matcher content)
unfolding candidates_of
redact_lem_example =
    redact_lem matcher content ((omega arith, omega arith), ((omega arith, omega arith), tt))
