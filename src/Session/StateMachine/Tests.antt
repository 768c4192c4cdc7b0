-- ===== src/Session/StateMachine/Tests.antt =====
-- Runs of a session, step by step.
use mathlib.Core.Bool.{decide}
use cope_code.Common.{
  text, text_eq, recovery_required, if◌then◌else◌, Result, protocol_invalid, ℕ, ◌≡◌, refl, ◌≢◌, ◌⊎◌,
  true, false, Option, none, some, ok, err, internal_error, arith,
}
use cope_code.Session.StateMachine.{
  is_stopped, may_follow, SessionStatus, created, preflight, grant_pending, transport_starting,
  validating_completion, completed, rolled_back, aborted, Lifecycle, Details, is_terminal,
  transition_session, enter,
}
use cope_code.Session.StateMachine.Moving.{TransitionEvent, Session, move}
use cope_code.Session.StateMachine.Reach.{
  IsWellFormed, Reach, here, step, Reach-terminal, Passed, is_ungranted, Reach-Passed_grant,
}

abbrev silent : Details
silent = record { reason = none; failure = none }

abbrev state_at : SessionStatus → ℕ → Option ℕ → Lifecycle
state_at status now done = record {
  status = status;
  updated_at = now;
  pause_reason = none;
  failure = none;
  completed_at = done;
  completion_handoff = none;
  terminal_cleanup = none;
}

abbrev new : Lifecycle
new = state_at created 0 none

abbrev started : Lifecycle
started = state_at transport_starting 3 none

to_preflight : transition_session new preflight 1 silent ≡ ok (state_at preflight 1 none)
unfolding transition_session decide may_follow enter is_stopped is_terminal
to_preflight = refl

to_pending :
    transition_session (state_at preflight 1 none) grant_pending 2 silent
    ≡ ok (state_at grant_pending 2 none)
unfolding transition_session decide may_follow enter is_stopped is_terminal
to_pending = refl

to_started :
    transition_session (state_at grant_pending 2 none) transport_starting 3 silent ≡ ok started
unfolding transition_session decide may_follow enter is_stopped is_terminal
to_started = refl

skipping_refused : transition_session new transport_starting 1 silent ≡ err internal_error
unfolding transition_session decide may_follow
skipping_refused = refl

abbrev begun : Reach new started
begun =
    step transport_starting 3 silent
      (step grant_pending 2 silent (step preflight 1 silent here to_preflight) to_pending)
      to_started

abbrev validating : Lifecycle
validating = state_at validating_completion 8 none

abbrev finished : Lifecycle
finished = state_at completed 9 (some 9)

abbrev undone : Lifecycle
undone = state_at rolled_back 10 (some 10)

to_finished : transition_session validating completed 9 silent ≡ ok finished
unfolding transition_session decide may_follow enter is_stopped is_terminal
to_finished = refl

to_undone : transition_session finished rolled_back 10 silent ≡ ok undone
unfolding transition_session decide may_follow enter is_stopped is_terminal
to_undone = refl

new-IsWellFormed : IsWellFormed new
unfolding is_stopped is_terminal decide
new-IsWellFormed = record {
  stopped = λ h. ground arith;
  running = λ h. refl;
  ended = λ h. ground arith;
  explained = λ h. cc;
}

finished_terminal : is_terminal finished.status ≡ true
unfolding is_terminal
finished_terminal = refl

Reach-terminal_example :
    (undone ≡ finished) ⊎ ((undone.status ≡ rolled_back) × (finished.status ≢ rolled_back))
Reach-terminal_example =
    Reach-terminal finished_terminal (step rolled_back 10 silent here to_undone)

started_late : is_ungranted started.status ≡ false
unfolding is_ungranted
started_late = refl

Reach-Passed_grant_example : Passed grant_pending begun
Reach-Passed_grant_example = Reach-Passed_grant refl begun started_late

not_completed : validating.status ≢ completed
not_completed h = cc

abbrev ending : Reach validating finished
ending = step completed 9 silent here to_finished

abbrev kept : Session
kept = record { lifecycle = new; source_artifact_retention = some true }

-- A store that refuses a session that has ended.
abbrev full_store : Session → Result {0} Unit
full_store s = if is_terminal s.lifecycle.status then err protocol_invalid else ok tt

-- An audit log that takes no event of an end.
abbrev closed_log : TransitionEvent → Result {0} Unit
closed_log event =
    if text_eq event.kind (text "session.ended") then err recovery_required else ok tt

move_rolls_back : move full_store closed_log kept aborted 1 2 none ≡ (kept, err protocol_invalid)
unfolding move decide may_follow is_terminal enter
move_rolls_back = refl

-- The session moves although the call fails.
move_unannounced :
    let (t, outcome) = move (λ s. ok tt) closed_log kept aborted 1 2 none in
    (outcome ≡ err recovery_required) × (t.lifecycle.status ≡ aborted)
unfolding move decide may_follow is_terminal enter text_eq
move_unannounced = (refl, refl)
