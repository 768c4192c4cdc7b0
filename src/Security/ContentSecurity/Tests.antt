-- ===== src/Security/ContentSecurity/Tests.antt =====
-- A content without a finding is disclosed, and a token is not.
use mathlib.Core.Bool.{decide}
use cope_code.Common.{
  ◌≡◌, refl, ◌⊎◌, true, false, none, List, [], ◌∷◌, Text, text, nat_eq, if◌then◌else◌, err,
  ErrorCode,
}
use cope_code.Protocol.Parser.{byte_length}
use cope_code.Security.Secrets.{SecretKind, github_token, high, Match, Matcher, redact}
use cope_code.Security.DisclosureLedger.{
  repository_file, DisclosureRecord, Ledger, record_of, record_disclosure,
}
use cope_code.Security.DisclosureLedger.Codec.{codec}
use cope_code.Security.ContentSecurity.{
  block_high, ContentSecurity, ContentProcessingInput, ContentProcessingResult, process, blocks,
  blocked_findings, disclosed_input,
}
use cope_code.Security.ContentSecurity.Recorded.{process-IsDisclosed, process-blocked}

-- Every content that starts with a `g` is a token.
abbrev matches : SecretKind → Text → List Match
matches github_token (c ∷ s) =
    if nat_eq c b'g' then record { index = 0; matched = c ∷ s } ∷ [] else []
matches _ s = []

abbrev matcher : Matcher
matcher = record { match_all = matches; fingerprint_of = λ s. text "f" }

abbrev security : ContentSecurity
security = record {
  modes = λ s. block_high;
  blocked_severities = high ∷ [];
  classification = text "c";
}

abbrev ledger : Ledger
ledger = record {
  session_id = text "s";
  writes_file = false;
  entries = [];
  failed = none;
  file = none;
}

abbrev plain : ContentProcessingInput
plain = record {
  operation_id = text "op";
  source = repository_file;
  content = text "ab";
  path = none;
}

abbrev token : ContentProcessingInput
token = record {
  operation_id = text "op";
  source = repository_file;
  content = text "ghp";
  path = none;
}

abbrev outcome : ContentProcessingResult
outcome = record { content = text "ab"; redaction_count = 0 }

abbrev entry : DisclosureRecord
entry =
    record_of codec ledger (text "d") (text "t")
      (disclosed_input security plain (redact matcher plain.content))

process-IsDisclosed_example :
    (r : DisclosureRecord) × ((process codec matcher security ledger
        (text "d")
        (text "t")
        plain).0.entries
      ≡ r ∷ [])
    × (r.disclosed ≡ true)
    × (r.disclosed_sha256 ≡ codec.sha256 outcome.content)
    × (r.disclosed_byte_count ≡ byte_length outcome.content)
    × (outcome.content ≡ (redact matcher plain.content).content)
    × (blocks (security.modes plain.source) ≡ true
        → blocked_findings security (redact matcher plain.content).findings ≡ [])
unfolding process redact record_disclosure
process-IsDisclosed_example =
    process-IsDisclosed codec matcher security ledger (text "d") (text "t") plain
      (process codec matcher security ledger (text "d") (text "t") plain).0 outcome refl

process-blocked_example :
    let (l', result) = process codec matcher security ledger (text "d") (text "t") token in
    (e : ErrorCode) × (result ≡ err e)
    × (((r : DisclosureRecord) × (l'.entries ≡ r ∷ [])
          × (r.disclosed ≡ false)
          × (r.disclosed_byte_count ≡ 0))
        ⊎ (l'.entries ≡ []))
unfolding process redact decide
process-blocked_example =
    process-blocked codec matcher security ledger (text "d") (text "t") token refl refl
