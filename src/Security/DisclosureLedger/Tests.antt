-- ===== src/Security/DisclosureLedger/Tests.antt =====
-- A ledger with a file takes one record.
use cope_code.Common.{◌≡◌, refl, true, none, some, [], ◌∷◌, text, ok}
use cope_code.Security.Secrets.{high, private_key, SecretFinding}
use cope_code.Security.DisclosureLedger.{
  tool_result, DisclosureRecordInput, DisclosureRecord, Ledger, record_of, record_disclosure,
  hydrate_existing, verify_from,
}
use cope_code.Security.DisclosureLedger.Chain.{IsDurable, record_disclosure-IsDurable, file_of}
use cope_code.Security.DisclosureLedger.Codec.{codec, codec-IsFaithful}

abbrev finding : SecretFinding
finding = record {
  kind = private_key;
  severity = high;
  start = 0;
  end = 2;
  line = 1;
  column = 1;
  fingerprint = text "f";
}

abbrev input : DisclosureRecordInput
input = record {
  operation_id = text "op-1";
  source = tool_result;
  content = text "ab";
  original_byte_count = 2;
  path = some (text "p");
  findings = finding ∷ [];
  disclosed = none;
  classification = none;
}

abbrev ledger : Ledger
ledger = record {
  session_id = text "s";
  writes_file = true;
  entries = [];
  failed = none;
  file = none;
}

abbrev entry : DisclosureRecord
entry = record_of codec ledger (text "d") (text "t") input

abbrev after : Ledger
after = record {
  session_id = text "s";
  writes_file = true;
  entries = entry ∷ [];
  failed = none;
  file = some (file_of codec (entry ∷ []));
}

ledger-IsDurable : IsDurable codec ledger
unfolding verify_from file_of
ledger-IsDurable = record { verified = refl; own = tt; held = refl }

record_disclosure-IsDurable_example :
    (after.entries ≡ entry ∷ [])
    × IsDurable codec after
    × (hydrate_existing codec (text "s") after.file ≡ ok after.entries)
unfolding record_disclosure file_of
record_disclosure-IsDurable_example =
    record_disclosure-IsDurable codec codec-IsFaithful ledger (text "d") (text "t") input after
      entry ledger-IsDurable refl refl
