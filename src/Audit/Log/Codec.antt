-- ===== src/Audit/Log/Codec.antt =====
-- A printer and a parser of audit events for the tests, which keep what the log asks of them: an
-- event is one line, not blank, and reads back.
use cope_code.Common.{
  ℕ, length, ◌+◌, ◌-◌, ◌≡◌, refl, ap, ◌∙◌, Option, none, some, List, [], ◌∷◌, Text, arith, leb,
  if◌then◌else◌, is_blank, is_space, Lacks,
}
use cope_code.Audit.Log.{EventBase, AuditEvent, Runtime}
use cope_code.Audit.Log.Chain.{PrintsLines}

-- Units are moved up by 200, so that smaller ones are free for marks.
abbrev pub put : Text → Text → Text
put [] rest = 100 ∷ rest
put (c ∷ s) rest = (c + 200) ∷ put s rest

unfoldable pub get : Text → Text × Text
get [] = ([], [])
get (c ∷ s) = if leb 200 c then ((c - 200) ∷ (get s).0, (get s).1) else ([], s)

pub get-put : (s rest : Text) → get (put s rest) ≡ (s, rest)
unfolding get
get-put [] rest = refl
get-put (c ∷ s) rest = ground (arith, get-put s rest)

abbrev pub of_option : Option Text → Text
of_option none = []
of_option (some s) = 1 ∷ s

unfoldable pub to_option : Text → Option Text
to_option [] = none
to_option (c ∷ s) = some s

pub to_option-of_option : (o : Option Text) → to_option (of_option o) ≡ o
unfolding to_option
to_option-of_option none = refl
to_option-of_option (some s) = refl

unfoldable pub to_number : Text → ℕ
to_number [] = 0
to_number (c ∷ s) = c

abbrev pub put_all : List Text → Text
put_all [] = []
put_all (s ∷ ss) = put s (put_all ss)

unfoldable pub get_all : ℕ → Text → List Text
unfolding get
get_all ℕ.zero s = []
get_all (ℕ.suc n) s = (get s).0 ∷ get_all n (get s).1

get_all-put_all : (ss : List Text) → get_all (length ss) (put_all ss) ≡ ss
unfolding get_all
get_all-put_all [] = refl
get_all-put_all (s ∷ ss) = rw (get-put s (put_all ss)) (ap (◌∷◌ s) (get_all-put_all ss))

abbrev texts_of_base : EventBase → List Text
texts_of_base b =
    (b.schema_version ∷ [])
    ∷ (b.sequence ∷ [])
    ∷ b.session_id
    ∷ b.timestamp
    ∷ b.previous_hash
    ∷ b.kind
    ∷ b.task_id
    ∷ of_option b.operation_id
    ∷ of_option b.turn_id
    ∷ of_option b.payload.idempotency_key
    ∷ b.payload.fields
    ∷ []

unfoldable pub event_from : List Text → Option AuditEvent
unfolding to_option to_number
event_from
      (hash ∷ v ∷ n ∷ session ∷ time ∷ previous ∷ kind ∷ task ∷ op ∷ turn ∷ key ∷ fields ∷ []) =
    some (record {
      base = record {
        schema_version = to_number v;
        sequence = to_number n;
        session_id = session;
        timestamp = time;
        previous_hash = previous;
        input = record {
          kind = kind;
          task_id = task;
          operation_id = to_option op;
          turn_id = to_option turn;
          payload = record { idempotency_key = to_option key; fields = fields };
        };
      };
      event_hash = hash;
    })
event_from _ = none

-- The hash of an event is its text: no two events share one.
abbrev pub codec_digest : EventBase → Text
codec_digest b = b'E' ∷ put_all (texts_of_base b)

abbrev pub codec_print : AuditEvent → Text
codec_print e = b'E' ∷ put_all (e.event_hash ∷ texts_of_base e.base)

unfoldable pub codec_parse : Text → Option AuditEvent
unfolding event_from get_all
codec_parse [] = none
codec_parse (c ∷ s) = event_from (get_all 12 s)

abbrev pub codec : Runtime
codec = record { digest = codec_digest; print = codec_print; parse = codec_parse }

event_from-texts : (e : AuditEvent) → event_from (e.event_hash ∷ texts_of_base e.base) ≡ some e
unfolding event_from
event_from-texts e =
    rw
      (
        to_option-of_option e.operation_id,
        to_option-of_option e.turn_id,
        to_option-of_option e.payload.idempotency_key,
      )
      refl

put-Lacks : (s rest : Text) → Lacks 10 rest → Lacks 10 (put s rest)
put-Lacks [] rest h = (refl, h)
put-Lacks (c ∷ s) rest h = (ground arith, put-Lacks s rest h)

put_all-Lacks : (ss : List Text) → Lacks 10 (put_all ss)
put_all-Lacks [] = tt
put_all-Lacks (s ∷ ss) = put-Lacks s (put_all ss) (put_all-Lacks ss)

pub codec-PrintsLines : (session_id : Text) → PrintsLines codec session_id
unfolding codec_parse is_blank is_space
codec-PrintsLines session_id = record {
  parse-print = λ e.
      ap event_from (get_all-put_all (e.event_hash ∷ texts_of_base e.base)) ∙ event_from-texts e;
  one_line = λ e. (refl, put_all-Lacks (e.event_hash ∷ texts_of_base e.base));
  not_blank = λ e. refl;
}
