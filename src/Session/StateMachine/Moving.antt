-- ===== src/Session/StateMachine/Moving.antt =====
-- How the runtime moves a session: `move` of src/orchestrator/agent-runtime.ts, with
-- snapshotSessionLifecycle, restoreSessionLifecycle and setTerminalCleanupPolicy. The write to the
-- session store and the append to the audit log are parameters, by what they answer.
use cope_code.Common.{
  ℕ, Bool, false, not, ◌&&◌, ◌||◌, text, Option, none, some, Text, ◌==◌, if◌then◌else◌, Result, ok,
  err,
}
use mathlib.Core.Option.{get_or}
use cope_code.Session.StateMachine.{
  SessionStatus, status_is_eq, completed, blocked, aborted, failed, Lifecycle, is_terminal,
  transition_session,
}

-- The fields of `SessionState` that `move` reads or writes. A retention is true for "retain".
pub record Session : Type 0 where
  pub lifecycle : Lifecycle
  pub source_artifact_retention : Option Bool

abbrev pub snapshot_session_lifecycle : Session → Lifecycle
snapshot_session_lifecycle s = s.lifecycle

-- `restoreOptional` deletes the field where the snapshot has none.
unfoldable pub restore_session_lifecycle : Session → Lifecycle → Session
restore_session_lifecycle s snapshot = record s {
  lifecycle = record {
    status = snapshot.status;
    updated_at = snapshot.updated_at;
    pause_reason = snapshot.pause_reason;
    failure = snapshot.failure;
    completed_at = snapshot.completed_at;
    completion_handoff = snapshot.completion_handoff;
    terminal_cleanup = snapshot.terminal_cleanup;
  };
}

abbrev pub retention : Option Bool → Option Bool → Bool
retention (some kept) _ = kept
retention none earlier = get_or earlier false

unfoldable pub set_terminal_cleanup_policy : Session → Session
set_terminal_cleanup_policy s = record s {
  lifecycle = record s.lifecycle {
    terminal_cleanup = some (retention s.source_artifact_retention s.lifecycle.terminal_cleanup);
  };
}

-- What `move` does between the transition and the write.
unfoldable pub ended : SessionStatus → Session → Session
unfolding set_terminal_cleanup_policy
ended status s =
    let handed = record s { lifecycle = record s.lifecycle { completion_handoff = none } } in
    let dropped = if is_terminal status && not (status == completed) then handed else s in
    if is_terminal status then set_terminal_cleanup_policy dropped else dropped

abbrev pub stamped : ℕ → Session → Session
stamped now s = record s { lifecycle = record s.lifecycle { updated_at = now } }

-- `try { await this.persist() } catch { restore }`, on what the write answers.
unfoldable pub committed : Session → Session → Result {0} Unit → Session × Result {0} Unit
unfolding restore_session_lifecycle
committed s t (ok done) = (t, ok done)
committed s t (err e) = (restore_session_lifecycle t (snapshot_session_lifecycle s), err e)

unfoldable pub persisted :
    (Session → Result {0} Unit) → Session → Session → ℕ → Session × Result {0} Unit
unfolding committed
persisted write s t later = committed s (stamped later t) (write (stamped later t))

-- The session that is in memory afterwards, and how the call ends.
unfoldable pub moved :
    (Session → Result {0} Unit)
    → Session
    → SessionStatus
    → ℕ
    → Result Lifecycle
    → Session × Result {0} Unit
unfolding ended persisted
moved write s status later (err e) = (s, err e)
moved write s status later (ok l) =
    persisted write s (ended status (record s { lifecycle = l })) later

-- What `move` appends to the audit log: the type of the event, and its data.
pub record TransitionEvent : Type 0 where
  pub kind : Text
  pub from : SessionStatus
  pub to : SessionStatus
  pub reason : Option Text

unfoldable pub event_of : SessionStatus → SessionStatus → Option Text → TransitionEvent
event_of from status reason = record {
  kind =
      if status == completed || (status == blocked || (status == aborted || status == failed))
      then text "session.ended"
      else text "session.transition";
  from = from;
  to = status;
  reason = reason;
}

-- `await this.dependencies.audit.append(...)`, outside of the `try`: it comes after a write that
-- succeeded, and when it throws, so does `move`.
abbrev pub announced :
    (TransitionEvent → Result {0} Unit)
    → TransitionEvent
    → Session × Result {0} Unit
    → Session × Result {0} Unit
announced audit event (t, ok done) = (t, audit event)
announced audit event (t, err e) = (t, err e)

-- The clock is read before the transition and before the write.
unfoldable pub move :
    (Session → Result {0} Unit)
    → (TransitionEvent → Result {0} Unit)
    → Session
    → SessionStatus
    → ℕ
    → ℕ
    → Option Text
    → Session × Result {0} Unit
unfolding transition_session moved event_of
move write audit s status now later reason =
    announced audit (event_of s.lifecycle.status status reason) (
      moved write s status later
        (transition_session s.lifecycle status now (record { reason = reason; failure = none })))
