-- ===== src/Session/StateMachine/Progress.antt =====
-- No unfinished session is stuck: each has a way to its completion.
use cope_code.Common.{ℕ, ◌≡◌, ◌<◌, ◌⊎◌, true, false, ◌==◌}
use cope_code.Session.StateMachine.{
  SessionStatus, status_is_eq, created, preflight, grant_pending, transport_starting,
  initializing_model, awaiting_model, executing_tools, returning_results, awaiting_user, paused,
  validating_completion, recovering, completed, rolled_back, blocked, aborted, failed, Lifecycle,
  is_terminal, may_follow,
}
use cope_code.Session.StateMachine.Reach.{Reach}

-- The next status on the way, and how many steps are left.
abbrev onward : SessionStatus → SessionStatus
onward created = preflight
onward preflight = grant_pending
onward grant_pending = transport_starting
onward transport_starting = initializing_model
onward initializing_model = awaiting_model
onward awaiting_model = validating_completion
onward executing_tools = returning_results
onward returning_results = awaiting_model
onward awaiting_user = returning_results
onward paused = recovering
onward validating_completion = completed
onward recovering = awaiting_model
onward completed = completed
onward rolled_back = completed
onward blocked = completed
onward aborted = completed
onward failed = completed

abbrev distance : SessionStatus → ℕ
distance created = 7
distance preflight = 6
distance grant_pending = 5
distance transport_starting = 4
distance initializing_model = 3
distance awaiting_model = 2
distance executing_tools = 4
distance returning_results = 3
distance awaiting_user = 4
distance paused = 4
distance validating_completion = 1
distance recovering = 3
distance completed = 0
distance rolled_back = 0
distance blocked = 0
distance aborted = 0
distance failed = 0

abbrev IsOnward : SessionStatus → Type 0
IsOnward x =
    ((x == onward x) ≡ false)
    × (may_follow x (onward x) ≡ true)
    × ((onward x ≡ completed)
        ⊎ ((is_terminal (onward x) ≡ false) × (distance (onward x) < distance x)))

abbrev pub IsCompletable : Lifecycle → Type 0
IsCompletable s = (t : Lifecycle) × Reach s t × (t.status ≡ completed)
