-- ===== src/Session/StateMachine.antt =====
-- src/session/state-machine.ts, with the lifecycle fields of `SessionState` in src/session/types.ts.
pub mod Reach
pub mod Progress
pub mod Moving
pub mod Settling
mod Tests
use cope_code.Common.{
  ℕ, ◌≡◌, Bool, true, false, not, ◌&&◌, ◌||◌, Option, none, some, List, [], ◌∷◌, Text, text, Eq,
  ◌==◌, eq_of_discrete, contains, Result, ok, err, ErrorCode, internal_error, if◌then◌else◌,
  fail_if, ◌>>=◌, ◌>>◌,
}
use mathlib.Core.Option.{get_or}
use mathlib.Core.Bool.{decide}

pub data SessionStatus : Type 0 where
  created preflight grant_pending transport_starting initializing_model : SessionStatus
  awaiting_model executing_tools returning_results awaiting_user paused : SessionStatus
  validating_completion recovering completed rolled_back blocked aborted failed : SessionStatus

abbrev pub SessionStatus-discrete : Discrete SessionStatus
SessionStatus-discrete = hlevel

instance abbrev pub status_is_eq : Eq SessionStatus
status_is_eq = eq_of_discrete SessionStatus-discrete

pub record Failure : Type 0 where
  pub code : Text
  pub message : Text

-- The fields of `SessionState` that a lifecycle snapshot holds. Absent fields are `none`; times are
-- ISO texts in the source and opaque numbers here.
pub record Lifecycle : Type 0 where
  pub status : SessionStatus
  pub updated_at : ℕ
  pub pause_reason : Option Text
  pub failure : Option Failure
  pub completed_at : Option ℕ
  pub completion_handoff : Option Text
  pub terminal_cleanup : Option Bool

pub record Details : Type 0 where
  pub reason : Option Text
  pub failure : Option Failure

abbrev terminal : List SessionStatus
terminal = completed ∷ rolled_back ∷ blocked ∷ aborted ∷ failed ∷ []

unfoldable pub transitions : SessionStatus → List SessionStatus
transitions created = preflight ∷ aborted ∷ failed ∷ []
transitions preflight = grant_pending ∷ aborted ∷ failed ∷ []
transitions grant_pending = transport_starting ∷ aborted ∷ failed ∷ []
transitions transport_starting = initializing_model ∷ paused ∷ blocked ∷ aborted ∷ failed ∷ []
transitions initializing_model = awaiting_model ∷ paused ∷ blocked ∷ aborted ∷ failed ∷ []
transitions awaiting_model =
    executing_tools ∷ awaiting_user ∷ validating_completion ∷ paused ∷ blocked ∷ aborted ∷ failed
    ∷ recovering ∷ []
transitions executing_tools =
    returning_results ∷ awaiting_user ∷ paused ∷ blocked ∷ aborted ∷ failed ∷ recovering ∷ []
transitions returning_results =
    awaiting_model ∷ paused ∷ blocked ∷ aborted ∷ failed ∷ recovering ∷ []
transitions awaiting_user =
    executing_tools ∷ returning_results ∷ transport_starting ∷ recovering ∷ paused ∷ blocked
    ∷ aborted ∷ failed ∷ []
transitions paused = recovering ∷ transport_starting ∷ aborted ∷ failed ∷ []
transitions validating_completion =
    completed ∷ returning_results ∷ recovering ∷ paused ∷ blocked ∷ aborted ∷ failed ∷ []
transitions recovering =
    transport_starting ∷ awaiting_model ∷ returning_results ∷ paused ∷ blocked ∷ aborted ∷ failed
    ∷ []
transitions completed = rolled_back ∷ []
transitions rolled_back = []
transitions blocked = rolled_back ∷ []
transitions aborted = rolled_back ∷ []
transitions failed = rolled_back ∷ []

unfoldable pub is_terminal : SessionStatus → Bool
unfolding contains decide
is_terminal status = contains status terminal

-- `transitions[status].has(next)`.
unfoldable pub may_follow : SessionStatus → SessionStatus → Bool
unfolding contains transitions decide
may_follow status next = contains next (transitions status)

-- `if (next === "paused" || next === "blocked")`: the statuses that carry a reason.
unfoldable pub is_stopped : SessionStatus → Bool
is_stopped next = next == paused || next == blocked

-- The assignments of `transitionSession`, once its two guards have passed.
unfoldable pub enter : Lifecycle → SessionStatus → ℕ → Details → Lifecycle
enter s next now details = record s {
  status = next;
  updated_at = now;
  pause_reason =
      if is_stopped next then some (get_or details.reason (text "No reason supplied")) else none;
  failure = if next == failed then some (get_or details.failure fallback) else s.failure;
  completed_at = if is_terminal next then some now else s.completed_at;
}
  where
    fallback : Failure
    fallback = record {
      code = text "INTERNAL_ERROR";
      message = get_or details.reason (text "Session failed");
    }

unfoldable pub transition_session : Lifecycle → SessionStatus → ℕ → Details → Result Lifecycle
transition_session s next now details = do
  fail_if (s.status == next) internal_error
  fail_if (not (may_follow s.status next) && not (next == rolled_back)) internal_error
  ok (enter s next now details)
