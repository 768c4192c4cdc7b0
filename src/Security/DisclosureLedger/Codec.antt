-- ===== src/Security/DisclosureLedger/Codec.antt =====
-- A printer and a parser of disclosure records for the tests: a record is one line that ends in a
-- brace, and reads back; a file that is appended to keeps what it has.
use mathlib.Core.Option.{get_or}
use cope_code.Common.{
  ℕ, ◌+◌, ◌-◌, length, ◌≡◌, refl, sym, ap, ◌∙◌, Bool, true, false, Option, none, some, List, [],
  ◌∷◌, ◌++◌, map, Text, arith, nat_eq, if◌then◌else◌, Lacks, ok,
}
use cope_code.Audit.Log.Codec.{
  put, get-put, of_option, to_option, to_option-of_option, put_all, get_all,
}
use cope_code.Security.Secrets.{
  SecretKind, private_key, aws_access_key, github_token, jwt, bearer_token, credential_assignment,
  connection_string_password, SecretSeverity, high, medium, SafeFinding,
}
use cope_code.Security.DisclosureLedger.{
  Source, repository_file, repository_search, command_output, tool_result, DisclosureRecord, Host,
}
use cope_code.Security.DisclosureLedger.Chain.{IsFaithful}

abbrev kind_number : SecretKind → ℕ
kind_number private_key = 0
kind_number aws_access_key = 1
kind_number github_token = 2
kind_number jwt = 3
kind_number bearer_token = 4
kind_number credential_assignment = 5
kind_number connection_string_password = 6

abbrev to_kind : ℕ → SecretKind
to_kind n =
    if nat_eq n 0
    then private_key
    else if nat_eq n 1
    then aws_access_key
    else if nat_eq n 2
    then github_token
    else if nat_eq n 3
    then jwt
    else if nat_eq n 4
    then bearer_token
    else if nat_eq n 5
    then credential_assignment
    else connection_string_password

abbrev severity_number : SecretSeverity → ℕ
severity_number high = 0
severity_number medium = 1

abbrev to_severity : ℕ → SecretSeverity
to_severity n = if nat_eq n 0 then high else medium

abbrev source_number : Source → ℕ
source_number repository_file = 0
source_number repository_search = 1
source_number command_output = 2
source_number tool_result = 3

abbrev to_source : ℕ → Source
to_source n =
    if nat_eq n 0
    then repository_file
    else if nat_eq n 1
    then repository_search
    else if nat_eq n 2
    then command_output
    else tool_result

abbrev flag_number : Bool → ℕ
flag_number true = 1
flag_number false = 0

to_kind-kind_number : (k : SecretKind) → to_kind (kind_number k) ≡ k
to_kind-kind_number private_key = refl
to_kind-kind_number aws_access_key = refl
to_kind-kind_number github_token = refl
to_kind-kind_number jwt = refl
to_kind-kind_number bearer_token = refl
to_kind-kind_number credential_assignment = refl
to_kind-kind_number connection_string_password = refl

to_severity-severity_number : (s : SecretSeverity) → to_severity (severity_number s) ≡ s
to_severity-severity_number high = refl
to_severity-severity_number medium = refl

to_source-source_number : (s : Source) → to_source (source_number s) ≡ s
to_source-source_number repository_file = refl
to_source-source_number repository_search = refl
to_source-source_number command_output = refl
to_source-source_number tool_result = refl

flag_number_lem : (b : Bool) → nat_eq (flag_number b) 1 ≡ b
flag_number_lem true = refl
flag_number_lem false = refl

abbrev finding_text : SafeFinding → Text
finding_text f = kind_number f.kind ∷ severity_number f.severity ∷ f.line ∷ f.column ∷ f.fingerprint

unfoldable pub finding_from : Text → SafeFinding
finding_from (k ∷ s ∷ l ∷ c ∷ fingerprint) = record {
  kind = to_kind k;
  severity = to_severity s;
  line = l;
  column = c;
  fingerprint = fingerprint;
}
finding_from _ = record {
  kind = private_key;
  severity = high;
  line = 0;
  column = 0;
  fingerprint = [];
}

findings_from-texts : (fs : List SafeFinding) → map finding_from (map finding_text fs) ≡ fs
unfolding finding_from
findings_from-texts [] = refl
findings_from-texts (f ∷ fs) =
    rw (to_kind-kind_number f.kind, to_severity-severity_number f.severity)
      (ap (◌∷◌ f) (findings_from-texts fs))

abbrev texts_of : DisclosureRecord → List Text
texts_of r =
    r.record_hash
    ∷ r.id
    ∷ r.session_id
    ∷ r.operation_id
    ∷ r.timestamp
    ∷ (source_number r.source
        ∷ flag_number r.disclosed
        ∷ r.original_byte_count
        ∷ r.disclosed_byte_count
        ∷ [])
    ∷ of_option r.path
    ∷ r.classification
    ∷ r.disclosed_sha256
    ∷ of_option r.previous_record_hash
    ∷ map finding_text r.redactions

unfoldable pub record_from : List Text → Option DisclosureRecord
unfolding to_option finding_from
record_from
      (hash
        ∷ id
        ∷ session
        ∷ op
        ∷ time
        ∷ (s ∷ d ∷ n ∷ m ∷ [])
        ∷ path
        ∷ class
        ∷ sha
        ∷ previous
        ∷ fs) =
    some (record {
      body = record {
        id = id;
        session_id = session;
        operation_id = op;
        timestamp = time;
        source = to_source s;
        path = to_option path;
        classification = class;
        disclosed = nat_eq d 1;
        original_byte_count = n;
        disclosed_byte_count = m;
        disclosed_sha256 = sha;
        redactions = map finding_from fs;
        previous_record_hash = to_option previous;
      };
      record_hash = hash;
    })
record_from _ = none

record_from-texts : (r : DisclosureRecord) → record_from (texts_of r) ≡ some r
unfolding record_from
record_from-texts r =
    rw
      (
        to_source-source_number r.source,
        flag_number_lem r.disclosed,
        to_option-of_option r.path,
        to_option-of_option r.previous_record_hash,
        findings_from-texts r.redactions,
      )
      refl

put-append : (s rest tail : Text) → put s rest ++ tail ≡ put s (rest ++ tail)
put-append [] rest tail = refl
put-append (c ∷ s) rest tail = ap (◌∷◌ (c + 200)) (put-append s rest tail)

get_all-put_all : (ss : List Text) (tail : Text) → get_all (length ss) (put_all ss ++ tail) ≡ ss
unfolding get_all
get_all-put_all [] tail = refl
get_all-put_all (s ∷ ss) tail =
    rw (put-append s (put_all ss) tail, get-put s (put_all ss ++ tail))
      (ap (◌∷◌ s) (get_all-put_all ss tail))

put-Lacks : (s rest : Text) → Lacks 10 rest → Lacks 10 (put s rest)
put-Lacks [] rest h = (refl, h)
put-Lacks (c ∷ s) rest h = (ground arith, put-Lacks s rest h)

line-Lacks : (ss : List Text) → Lacks 10 (put_all ss ++ b'}' ∷ [])
line-Lacks [] = (refl, tt)
line-Lacks (s ∷ ss) =
    rw (put-append s (put_all ss) (b'}' ∷ []))
      (put-Lacks s (put_all ss ++ b'}' ∷ []) (line-Lacks ss))

abbrev pub codec_print : DisclosureRecord → Text
codec_print r = (length (texts_of r) + 200) ∷ (put_all (texts_of r) ++ b'}' ∷ [])

unfoldable pub codec_parse : Text → Option DisclosureRecord
unfolding record_from get_all
codec_parse [] = none
codec_parse (c ∷ s) = record_from (get_all (c - 200) s)

-- The hash of a record is its text, that of a content the content.
abbrev pub codec : Host
codec = record {
  sha256 = λ s. s;
  digest = λ b. codec_print (record { body = b; record_hash = [] });
  print = codec_print;
  parse = codec_parse;
  append_file = λ file s. (some (get_or file [] ++ s), ok tt);
}

past_mark : (n : ℕ) → (n + 200) - 200 ≡ n
past_mark n = omega arith

pub codec-IsFaithful : IsFaithful codec
unfolding codec_parse
codec-IsFaithful = record {
  reads = λ r.
      ap (λ n. record_from (get_all n (put_all (texts_of r) ++ b'}' ∷ [])))
        (past_mark (length (texts_of r)))
      ∙ ap record_from (get_all-put_all (texts_of r) (b'}' ∷ []))
      ∙ record_from-texts r;
  one_line = λ r. (ground arith, line-Lacks (texts_of r));
  braced = λ r. ((length (texts_of r) + 200) ∷ put_all (texts_of r), refl);
  appends = λ before after s h. sym (ap (λ p. p.0) h);
}
