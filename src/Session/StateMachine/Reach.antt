-- ===== src/Session/StateMachine/Reach.antt =====
-- What holds of a session in every state that `transitionSession` reaches.
use cope_code.Common.{
  ℕ, ◌≡◌, refl, sym, ◌∙◌, ◌≢◌, ◌⊎◌, inl, inr, Bool, true, false, none, arith, ok, ==_iff,
}
use cope_code.Session.StateMachine.{
  SessionStatus, status_is_eq, created, preflight, grant_pending, validating_completion, completed,
  rolled_back, aborted, failed, Lifecycle, Details, is_terminal, may_follow, is_stopped, enter,
  transition_session,
}

-- What a transition asks of the current status.
abbrev pub Allowed : SessionStatus → SessionStatus → Type 0
Allowed s next = (s ≢ next) × ((may_follow s next ≡ true) ⊎ (next ≡ rolled_back))

pub transition_ok :
    (s : Lifecycle) (next : SessionStatus) (now : ℕ) (d : Details) {t : Lifecycle}
    → transition_session s next now d ≡ ok t
    → Allowed s.status next × (t ≡ enter s next now d)
unfolding transition_session
transition_ok s next now d h = ground (arith, ==_iff s.status next, ==_iff next rolled_back)

-- The optional fields agree with the status.
pub record IsWellFormed (s : Lifecycle) : Type 0 where
  pub stopped : is_stopped s.status ≡ true → s.pause_reason ≢ none
  pub running : is_stopped s.status ≡ false → s.pause_reason ≡ none
  pub ended : is_terminal s.status ≡ true → s.completed_at ≢ none
  pub explained : s.status ≡ failed → s.failure ≢ none

enter-IsWellFormed :
    (s : Lifecycle) (next : SessionStatus) (now : ℕ) (d : Details)
    → IsWellFormed (enter s next now d)
unfolding enter
enter-IsWellFormed s next now d = record {
  stopped = λ h. ground arith;
  running = λ h. ground arith;
  ended = λ h. ground arith;
  explained = λ h. ground (arith, ==_iff next failed);
}

-- Runs of successful transitions.
pub data Reach (s : Lifecycle) : Lifecycle → Type 0 where
  here : Reach s s
  step :
      {t u : Lifecycle} (next : SessionStatus) (now : ℕ) (d : Details)
      → Reach s t
      → transition_session t next now d ≡ ok u
      → Reach s u

-- In every state that a well-formed session reaches, a stop has its reason and nothing else has
-- one, an ended session has its time, and a failed one its failure.
pub Reach-IsWellFormed : {s t : Lifecycle} → IsWellFormed s → Reach s t → IsWellFormed t
Reach-IsWellFormed w here = w
Reach-IsWellFormed w (step {t} next now d r e) =
    rw ((transition_ok t next now d e).1) (enter-IsWellFormed t next now d)

follow_terminal :
    (s next : SessionStatus) → is_terminal s ≡ true → may_follow s next ≡ true → next ≡ rolled_back
unfolding may_follow is_terminal
follow_terminal s next = ground arith

status-enter :
    (s : Lifecycle) (next : SessionStatus) (now : ℕ) (d : Details)
    → (enter s next now d).status ≡ next
unfolding enter
status-enter s next now d = refl

rolled_back_final : (s : SessionStatus) → Allowed rolled_back s → ⊥
unfolding may_follow
rolled_back_final s (ne, inl e) = cc
rolled_back_final s (ne, inr e) = ne (sym e)

Allowed-terminal :
    (s next : SessionStatus) → is_terminal s ≡ true → Allowed s next → next ≡ rolled_back
Allowed-terminal s next h (ne, inl e) = follow_terminal s next h e
Allowed-terminal s next h (ne, inr e) = e

status-ok :
    (s : Lifecycle) (next : SessionStatus) (now : ℕ) (d : Details) {t : Lifecycle}
    → transition_session s next now d ≡ ok t
    → Allowed s.status next × (t.status ≡ next)
status-ok s next now d e =
    let (allowed, same) = transition_ok s next now d e in
    (allowed, rw same (status-enter s next now d))

-- An ended session is left alone, or rolled back; a rolled-back one never moves again.
pub Reach-terminal :
    {s t : Lifecycle}
    → is_terminal s.status ≡ true
    → Reach s t
    → (t ≡ s) ⊎ ((t.status ≡ rolled_back) × (s.status ≢ rolled_back))
Reach-terminal h here = inl refl
Reach-terminal {s} h (step {t} {u} next now d r e) =
    let (allowed, same) = status-ok t next now d e in
    elim (Reach-terminal h r) [
      | inl still ↦
          let to : Allowed s.status next = rw still at allowed in
          inr (
            rw same (Allowed-terminal s.status next h to),
            λ (old : s.status ≡ rolled_back). rolled_back_final next (rw old at to),
          )
      | inr (gone, _) ↦ absurd (rolled_back_final next (rw gone at allowed))
    ]

-- A status that the run passed before its last state.
abbrev pub Passed : {s t : Lifecycle} → SessionStatus → Reach s t → Type 0
Passed status here = ⊥
Passed status (step {t} next now d r e) = (t.status ≡ status) ⊎ Passed status r

-- The statuses in which the session has not started the transport.
unfoldable pub is_ungranted : SessionStatus → Bool
is_ungranted created = true
is_ungranted preflight = true
is_ungranted grant_pending = true
is_ungranted aborted = true
is_ungranted failed = true
is_ungranted rolled_back = true
is_ungranted _ = false

Allowed-ungranted :
    (s next : SessionStatus)
    → is_ungranted s ≡ true
    → Allowed s next
    → (s ≡ grant_pending) ⊎ (is_ungranted next ≡ true)
unfolding is_ungranted may_follow
Allowed-ungranted s next h (ne, inl e) = ground arith
Allowed-ungranted s next h (ne, inr e) = ground arith

granted_or :
    {s t : Lifecycle}
    → is_ungranted s.status ≡ true
    → (r : Reach s t) → (is_ungranted t.status ≡ true) ⊎ Passed grant_pending r
granted_or h here = inl h
granted_or h (step {t} next now d r e) =
    let (allowed, same) = status-ok t next now d e in
    elim (granted_or h r) [
      | inl early ↦ elim (Allowed-ungranted t.status next early allowed) [
        | inl pending ↦ inr (inl pending)
        | inr still ↦ inl (rw same still)
      ]
      | inr passed ↦ inr (inr passed)
    ]

-- No tool runs, and no model is asked, before the session has waited for the user's grant: a run
-- from a new session to any status but the first ones and the failures passes `grant_pending`.
pub Reach-Passed_grant :
    {s t : Lifecycle}
    → s.status ≡ created
    → (r : Reach s t) → is_ungranted t.status ≡ false
    → Passed grant_pending r
unfolding is_ungranted
Reach-Passed_grant {s} {t} h r late = elim (granted_or (rw h refl) r) [
  | inl early ↦ cc
  | inr passed ↦ passed
]

Allowed-completed : (s : SessionStatus) → Allowed s completed → s ≡ validating_completion
unfolding may_follow
Allowed-completed s (ne, inl e) = ground arith
Allowed-completed s (ne, inr e) = cc

-- A session is completed only from `validating_completion`.
pub Reach-Passed_validation :
    {s t : Lifecycle}
    → s.status ≢ completed
    → (r : Reach s t) → t.status ≡ completed
    → Passed validating_completion r
Reach-Passed_validation h here done = absurd (h done)
Reach-Passed_validation h (step {t} next now d r e) done =
    let (allowed, same) = status-ok t next now d e in
    inl (Allowed-completed t.status (rw (sym same ∙ done) at allowed))
