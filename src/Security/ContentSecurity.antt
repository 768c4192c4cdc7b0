-- ===== src/Security/ContentSecurity.antt =====
-- src/security/content-security.ts: content is redacted or blocked, and the ledger has it.
pub mod Recorded
mod Tests
use cope_code.Common.{
  ℕ, ltb, Bool, true, false, not, ◌&&◌, ◌||◌, Option, none, some, List, [], ◌∷◌, ◌++◌, Text, text,
  ◌==◌, if◌then◌else◌, select, contains, length, is_blank, take, trim, Result, ok, err, ErrorCode,
  config_invalid, policy_denied, fail_if, ◌>>=◌, ◌>>◌, Eq, eq_of_discrete,
}
use mathlib.Core.Option.{get_or}
use cope_code.Protocol.Parser.{byte_length}
use cope_code.Security.Secrets.{
  SecretFinding, SecretSeverity, severity_is_eq, high, Matcher, RedactionResult,
  redact as redact_content,
}
use cope_code.Security.DisclosureLedger.{
  Source, repository_file, repository_search, command_output, tool_result, DisclosureRecordInput,
  DisclosureRecord, Host, Ledger, record_disclosure,
}

pub data SecretHandlingMode : Type 0 where
  block_high redact : SecretHandlingMode

pub record ContentProcessingInput : Type 0 where
  pub operation_id : Text
  pub source : Source
  pub content : Text
  pub path : Option Text

pub record ContentProcessingResult : Type 0 where
  pub content : Text
  pub redaction_count : ℕ

pub record ContentSecurityOptions : Type 0 where
  pub modes : Source → Option SecretHandlingMode
  pub blocked_severities : Option (List SecretSeverity)
  pub classification : Option Text

pub record ContentSecurity : Type 0 where
  pub modes : Source → SecretHandlingMode
  pub blocked_severities : List SecretSeverity
  pub classification : Text

abbrev default_mode : Source → SecretHandlingMode
default_mode command_output = SecretHandlingMode.redact
default_mode repository_file = block_high
default_mode repository_search = block_high
default_mode tool_result = block_high

-- The constructor.
unfoldable pub create : ContentSecurityOptions → Result ContentSecurity
unfolding is_blank
create options = do
  let classification = get_or options.classification (text "unclassified")
  fail_if (is_blank classification || ltb 128 (length classification)) config_invalid
  ok (record {
    modes = λ source. get_or (options.modes source) (default_mode source);
    blocked_severities = get_or options.blocked_severities (high ∷ []);
    classification = classification;
  })

abbrev pub blocks : SecretHandlingMode → Bool
blocks block_high = true
blocks SecretHandlingMode.redact = false

unfoldable pub blocked_findings : ContentSecurity → List SecretFinding → List SecretFinding
unfolding select contains
blocked_findings security findings =
    select (λ f. contains f.severity security.blocked_severities) findings

abbrev pub is_filled : List SecretFinding → Bool
is_filled [] = false
is_filled (f ∷ fs) = true

-- The record of a blocked content, and of one that is disclosed.
abbrev pub blocked_input :
    ContentSecurity → ContentProcessingInput → List SecretFinding → DisclosureRecordInput
blocked_input security input findings = record {
  operation_id = input.operation_id;
  source = input.source;
  content = [];
  original_byte_count = byte_length input.content;
  path = input.path;
  findings = findings;
  disclosed = some false;
  classification = some security.classification;
}

abbrev pub disclosed_input :
    ContentSecurity → ContentProcessingInput → RedactionResult → DisclosureRecordInput
disclosed_input security input redaction = record {
  operation_id = input.operation_id;
  source = input.source;
  content = redaction.content;
  original_byte_count = byte_length input.content;
  path = input.path;
  findings = redaction.findings;
  disclosed = some true;
  classification = some security.classification;
}

abbrev pub after_record {ℓ} :
    {A : Type ℓ} → Ledger × Result DisclosureRecord → Result A → Ledger × Result A
after_record (l, ok r) result = (l, result)
after_record (l, err e) result = (l, err e)

module _ (host : Host) (matcher : Matcher) (security : ContentSecurity) where
  -- `process`, with the identifier and the time of the record.
  unfoldable pub process :
      Ledger → Text → Text → ContentProcessingInput → Ledger × Result ContentProcessingResult
  unfolding blocked_findings
  process l id now input =
      let redaction = redact_content matcher input.content in
      let found = blocked_findings security redaction.findings in
      if blocks (security.modes input.source) && is_filled found
      then after_record (record_disclosure host l id now (blocked_input security input found))
          (err policy_denied)
      else after_record (record_disclosure host l id now (disclosed_input security input redaction))
          (ok (record { content = redaction.content; redaction_count = redaction.redaction_count }))

  -- `inspectAndSerialize`: a message goes through `process` as a tool result.
  abbrev serialized_result : Ledger × Result ContentProcessingResult → Ledger × Result Text
  serialized_result (l, ok r) = (l, ok r.content)
  serialized_result (l, err e) = (l, err e)

  unfoldable pub inspect_and_serialize : Ledger → Text → Text → Text → Text → Ledger × Result Text
  unfolding process take
  inspect_and_serialize l id now kind message = serialized_result (
      process l id now (record {
        operation_id = text "serialized:" ++ (kind ++ (text ":" ++ take 16 (host.sha256 message)));
        source = tool_result;
        content = message;
        path = none;
      }))
