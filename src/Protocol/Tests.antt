-- ===== src/Protocol/Tests.antt =====
-- A response with one tool request, and one that only quotes a request.
use cope_code.Common.{
  is_space, arith, ◌+◌, ◌≡◌, refl, true, false, none, some, List, [], ◌∷◌, ◌++◌, Text, text,
  text_eq, All, nat, is_blank, all, any, contains, distinct, starts_with, to_lower,
}
use cope_code.Policy.Tools.{is_tool_name, tool_definition, is_batchable, lookup_tool, tool_registry}
use cope_code.Policy.Patterns.{with_slashes}
use cope_code.Shared.OperationId.{
  is_alphanumeric, is_operation_id, is_reserved_device_name, is_word, matches_operation_id,
}
use cope_code.Protocol.Fences.{
  markdown_opening, protocol_opening, parsed, OpenFence, join_lines, opened, is_closing_fence,
  scan_from, extract_cba_envelope, checked_envelope, scan_markdown_fences, is_version, drop_spaces,
  run_of, split_lines, strip,
}
use cope_code.Protocol.Fences.Quoting.{quoted_lines, IsLine, extract_cba_envelope_lem}
use cope_code.Protocol.Parser.{
  Operation, other_arguments, tool_request, ProtocolMessage, Decoded, object, ParseContext, parse,
  parse_protocol_envelope, preflight_discriminators, message_types, tools_of, checked_message,
  byte_length, check_message, default_path_key, ensure_unique, is_bad_operation, is_baseline,
  is_checkpoint, kept_ids, validate_message_semantics, validate_tool_request,
}
use cope_code.Protocol.Parser.Replay.{Fresh, Admits, parse-Admits}
use cope_code.Protocol.Parser.Sessions.{Response, accepted, accepted-Fresh}

abbrev operation : Operation
operation = record {
  operation_id = text "op-1";
  tool = text "read_file";
  arguments = other_arguments;
}

abbrev message : ProtocolMessage
message = record {
  task_id = text "t";
  turn_id = 1;
  message_type = text "tool_request";
  body = tool_request (operation ∷ []);
}

abbrev decode : Text → Decoded
decode json = object (record {
  protocol = some (text "cba/1");
  message_type = some (text "tool_request");
  operations = text "read_file" ∷ [];
  results = [];
  denials = [];
  message = some message;
})

abbrev context : ParseContext
context = record {
  expected_task_id = text "t";
  expected_turn_id = 1;
  accepted_message_types = none;
  path_key = none;
}

abbrev body : List Text
body = text "{" ∷ text "}" ∷ []

abbrev response : Text
response = join_lines (text "```cba/1" ∷ body ++ text "```" ∷ [])

body_lines : All IsLine body
body_lines = ground arith

body_open : All (λ line. text_eq line (text "```") ≡ false) body
unfolding text_eq
body_open = (refl, (refl, tt))

body_filled : is_blank (join_lines body) ≡ false
unfolding is_blank join_lines is_space
body_filled = refl

extract_cba_envelope_lem_example :
    extract_cba_envelope response (some (text "cba/1"))
    ≡ parsed
        (record { version = text "cba/1"; json = join_lines body; start_line = 1; end_line = 4 })
extract_cba_envelope_lem_example = extract_cba_envelope_lem body body_lines body_open body_filled

abbrev fence : OpenFence
fence = record {
  character = b'`';
  size = 4;
  protocol_version = none;
  start_index = 0;
  payload = [];
}

quote_opens : opened 0 (text "````md") ≡ some fence
unfolding opened protocol_opening markdown_opening
quote_opens = refl

quote_holds : is_closing_fence (text "```cba/1") fence ≡ false
unfolding is_closing_fence
quote_holds = refl

quote_closes : is_closing_fence (text "````") fence ≡ true
unfolding is_closing_fence
quote_closes = refl

quoted_lines_example :
    scan_from 0 none (text "````md" ∷ (text "```cba/1" ∷ []) ++ text "````" ∷ [])
    ≡ scan_from (0 + (1 + 2)) none []
quoted_lines_example =
    quoted_lines 0 (text "````md") (text "```cba/1" ∷ []) (text "````") [] fence quote_opens refl
      (quote_holds, tt) quote_closes

accepts : parse decode [] (nat 1000) response context ≡ parsed (message, text "op-1" ∷ [])
unfolding parse parse_protocol_envelope join_lines extract_cba_envelope checked_envelope
    scan_markdown_fences scan_from opened protocol_opening is_version is_closing_fence text_eq
    preflight_discriminators message_types tools_of is_tool_name tool_definition checked_message all
    any contains distinct is_blank is_space starts_with to_lower with_slashes is_batchable
    lookup_tool tool_registry drop_spaces markdown_opening run_of split_lines strip byte_length
    check_message default_path_key ensure_unique is_bad_operation is_baseline is_checkpoint kept_ids
    validate_message_semantics validate_tool_request is_alphanumeric is_operation_id
    is_reserved_device_name is_word matches_operation_id
accepts = refl

parse-Admits_example :
    (message.task_id ≡ context.expected_task_id)
    × (message.turn_id ≡ context.expected_turn_id)
    × Admits [] (tool_request (operation ∷ [])) (text "op-1" ∷ [])
parse-Admits_example =
    parse-Admits decode context [] message (text "op-1" ∷ []) (nat 1000) response accepts

abbrev twice : List Response
twice =
    record { input = response; context = context }
    ∷ record { input = response; context = context }
    ∷ []

accepted_once : accepted decode (nat 1000) [] twice ≡ text "op-1" ∷ []
unfolding accepted parse parse_protocol_envelope join_lines extract_cba_envelope checked_envelope
    scan_markdown_fences scan_from opened protocol_opening is_version is_closing_fence text_eq
    preflight_discriminators message_types tools_of is_tool_name tool_definition checked_message all
    any contains distinct is_blank is_space starts_with to_lower with_slashes is_batchable
    lookup_tool tool_registry drop_spaces markdown_opening run_of split_lines strip byte_length
    check_message default_path_key ensure_unique is_bad_operation is_baseline is_checkpoint kept_ids
    validate_message_semantics validate_tool_request is_alphanumeric is_operation_id
    is_reserved_device_name is_word matches_operation_id
accepted_once = refl

accepted-Fresh_example : Fresh [] (accepted decode (nat 1000) [] twice)
accepted-Fresh_example = accepted-Fresh decode (nat 1000) [] twice
