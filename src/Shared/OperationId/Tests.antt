-- ===== src/Shared/OperationId/Tests.antt =====
-- Operation identifiers, tried on examples.
use cope_code.Common.{text_eq, ◌≡◌, refl, true, false, Text, text}
use cope_code.Shared.OperationId.{is_journal_operation_id, is_operation_id}

abbrev read_id : Text
read_id = text "op-1_read"

abbrev internal_id : Text
internal_id = text "_cope_internal_7"

internal_id_valid : is_journal_operation_id internal_id ≡ true
unfolding is_journal_operation_id
internal_id_valid = refl

read_id_valid : is_operation_id read_id ≡ true
unfolding is_operation_id text_eq
read_id_valid = refl

device_refused : is_operation_id (text "Nul") ≡ false
unfolding is_operation_id text_eq
device_refused = refl
