-- ===== src/Session/StateMachine/Settling.antt =====
-- How a move ends: its write is all or nothing in memory.
use cope_code.Common.{◌≡◌, ◌⊎◌, Option, Text, Result, ok, err, ErrorCode}
use cope_code.Session.StateMachine.{SessionStatus, status_is_eq}
use cope_code.Session.StateMachine.Reach.{Allowed}
use cope_code.Session.StateMachine.Moving.{TransitionEvent, event_of, Session}

-- How a move stands before its audit event: nothing has changed, or what is in memory has been written.
abbrev IsCommitted :
    (Session → Result {0} Unit) → Session → SessionStatus → Session × Result {0} Unit → Type 0
IsCommitted write s status (t, outcome) =
    ((t ≡ s) × (e : ErrorCode) × (outcome ≡ err e))
    ⊎ ((outcome ≡ ok tt)
        × (write t ≡ ok tt)
        × (t.lifecycle.status ≡ status)
        × Allowed s.lifecycle.status status)

-- How a call of `move` may end: nothing has changed, or what is in memory has been written, and the
-- call ends as the append of its event to the audit log does.
abbrev pub IsSettled :
    (Session → Result {0} Unit)
    → (TransitionEvent → Result {0} Unit)
    → Session
    → SessionStatus
    → Option Text
    → Session × Result {0} Unit
    → Type 0
IsSettled write audit s status reason (t, outcome) =
    ((t ≡ s) × (e : ErrorCode) × (outcome ≡ err e))
    ⊎ ((outcome ≡ audit (event_of s.lifecycle.status status reason))
        × (write t ≡ ok tt)
        × (t.lifecycle.status ≡ status)
        × Allowed s.lifecycle.status status)
