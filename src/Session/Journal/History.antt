-- ===== src/Session/Journal/History.antt =====
-- What any sequence of calls can do to a stored record.
use mathlib.Core.Bool.{decide}
use cope_code.Common.{
  ◌≡◌, refl, ◌∙◌, ap, ◌⊎◌, inl, inr, Bool, true, ◌||◌, none, some, List, [], ◌∷◌, Text, text_is_eq,
  arith, ◌==◌, ==_iff, All, Result-cases,
}
use cope_code.Session.Journal.{
  OperationStatus, accepted, executing, completed, failed, indeterminate, operation_status_is_eq,
  OperationRecord, absent, stored, Files, Runtime, mark_executing, mark_not_started, mark_completed,
  mark_failed, mark_indeterminate,
}
use cope_code.Session.Journal.Records.{read_optional-IsSound, read-IsSound, write_ne}
use cope_code.Session.Journal.Resolving.{
  TerminalMetadata, resolve_terminal_completed, resolve_terminal_completed-Resolved,
}
use cope_code.Session.Journal.Finality.{
  Call, registers, resolves, executes, restores, completes, fails, loses, StatusEdge, started,
  not_started, done, failing, failing_early, losing, losing_early, still_lost, retried, Edge,
  Collision, IsGenuine, perform, Kept, leave-Kept, update-Kept,
}
use cope_code.Session.Journal.Registering.{register_cases, register_again-Kept}

executing_status : (s : OperationStatus) → (s == executing) ≡ true → s ≡ executing
executing_status s h = (==_iff s executing).0 h

accepted_status : (s : OperationStatus) → (s == accepted) ≡ true → s ≡ accepted
accepted_status s h = (==_iff s accepted).0 h

Open-status :
    (s : OperationStatus)
    → (s == executing || s == accepted) ≡ true
    → (s ≡ executing) ⊎ (s ≡ accepted)
unfolding decide
Open-status s h = ground arith

fail_edge :
    {m : Bool} {s : OperationStatus} → (s ≡ executing) ⊎ (s ≡ accepted) → StatusEdge m s failed
fail_edge (inl e) = rw e failing
fail_edge (inr e) = rw e failing_early

lose_edge :
    {m : Bool} {s : OperationStatus}
    → (s ≡ executing) ⊎ (s ≡ accepted)
    → StatusEdge m s indeterminate
lose_edge (inl e) = rw e losing
lose_edge (inr e) = rw e losing_early

module _ (host : Runtime) (session_id : Text) where
  open host use {digest, request_digest}

  register_Kept :
      (files : Files) (id : Text) (s : OperationRecord)
      → files id ≡ stored s
      → (name tool : Text) (mutating : Bool) (request now : Text)
      → Kept host session_id id s
          (perform host session_id files (registers name tool mutating request now))
  unfolding perform
  register_Kept files id s held name tool mutating request now =
      elim (register_cases host session_id files name tool mutating request now) [
        | inl e ↦ inl (s, rw e held, inl refl)
        | inr (inl (r, found, e)) ↦
            let (there, sound, _) = read_optional-IsSound host session_id files name r found in
            rw e (
              register_again-Kept host session_id files id s held r tool mutating
                (request_digest request) now sound.genuine
                (λ at_id. found_is there (sound.named) at_id))
        | inr (inr (r, missing, e)) ↦ inl (
          s,
          rw e (write_ne files name id (stored r) (λ at_name. occupied missing at_name) ∙ held),
          inl refl,
        )
      ]
    where
      found_is :
          {r : OperationRecord}
          → files name ≡ stored r
          → r.operation_id ≡ name
          → id ≡ r.operation_id
          → r ≡ s
      found_is there named at_id = ground arith

      occupied : files name ≡ absent → id ≡ name → ⊥
      occupied missing at_name = cc

  resolve_Kept :
      (files : Files) (id : Text) (s : OperationRecord)
      → files id ≡ stored s
      → (name request_hash now : Text) (m : TerminalMetadata)
      → Kept host session_id id s (perform host session_id files (resolves name request_hash now m))
  unfolding perform
  resolve_Kept files id s held name request_hash now m =
      elim (Result-cases
        (resolve_terminal_completed host session_id files name request_hash now m)) [
          | inl ((u, later), e) ↦
              let (r, did) =
                resolve_terminal_completed-Resolved host session_id files name request_hash now m u
                  later e in
              let (there, sound, _) = read-IsSound host session_id files name r did.found in
              rw e (
                update-Kept host session_id files id s held r sound.genuine completed now
                  (some did.outcome) (some m.json) u later (λ at_id. rw did.executed done) did.done)
          | inr (fault, e) ↦ rw e (inl (s, held, inl refl))
        ]

  -- Each call leaves a stored record as it is, or moves it along one edge of its life, and keeps what
  -- identifies the operation; the only other way is a collision of hashes.
  pub perform-Kept :
      (files : Files) (id : Text) (s : OperationRecord) (call : Call)
      → files id ≡ stored s
      → IsGenuine host session_id call
      → Kept host session_id id s (perform host session_id files call)
  unfolding perform mark_executing mark_not_started mark_completed mark_failed mark_indeterminate
  perform-Kept files id s (registers name tool mutating request now) held g =
      register_Kept files id s held name tool mutating request now
  perform-Kept files id s (executes r now) held g =
      leave-Kept host session_id files id s held r g (r.status == accepted) executing now none none
        (λ e. rw (accepted_status r.status e) started)
  perform-Kept files id s (restores r now) held g =
      leave-Kept host session_id files id s held r g (r.status == executing) accepted now none none
        (λ e. rw (executing_status r.status e) not_started)
  perform-Kept files id s (completes r now outcome result) held g =
      leave-Kept host session_id files id s held r g (r.status == executing) completed now
        (some outcome) (some result) (λ e. rw (executing_status r.status e) done)
  perform-Kept files id s (fails r now outcome result) held g =
      leave-Kept host session_id files id s held r g (r.status == executing || r.status == accepted)
        failed now (some outcome) (some result) (λ e. fail_edge (Open-status r.status e))
  perform-Kept files id s (loses r now outcome result) held g =
      leave-Kept host session_id files id s held r g (r.status == executing || r.status == accepted)
        indeterminate now (some outcome) (some result) (λ e. lose_edge (Open-status r.status e))
  perform-Kept files id s (resolves name request_hash now m) held g =
      resolve_Kept files id s held name request_hash now m

  unfoldable pub run : Files → List Call → Files
  run files [] = files
  run files (call ∷ calls) = run (perform host session_id files call) calls

  settled :
      {r q : OperationRecord} → (r.status ≡ completed) ⊎ (r.status ≡ failed) → Edge r q → q ≡ r
  settled h (inl same) = same
  settled {r} {q} h (inr (_, edge)) = absurd (no_edge edge h)
    where
      no_edge :
          {m : Bool} {a b : OperationStatus} → StatusEdge m a b → (a ≡ completed) ⊎ (a ≡ failed) → ⊥
      no_edge started h = ground arith
      no_edge not_started h = ground arith
      no_edge done h = ground arith
      no_edge failing h = ground arith
      no_edge failing_early h = ground arith
      no_edge losing h = ground arith
      no_edge losing_early h = ground arith
      no_edge still_lost h = ground arith
      no_edge (retried reads begun) h = ground arith

  -- A completed or failed record is never written again, by any sequence of calls (restarts included)
  -- whose records carry the hash of their own contents; or two different records have one hash.
  pub run-final :
      (files : Files) (id : Text) (s : OperationRecord) (calls : List Call)
      → files id ≡ stored s
      → (s.status ≡ completed) ⊎ (s.status ≡ failed)
      → All (IsGenuine host session_id) calls
      → (run files calls id ≡ stored s) ⊎ Collision host session_id
  unfolding run
  run-final files id s [] held final g = inl held
  run-final files id s (call ∷ calls) held final (g, gs) =
      elim (perform-Kept files id s call held g) [
        | inl (q, there, edge) ↦
            run-final (perform host session_id files call) id s calls
              (there ∙ ap stored (settled final edge)) final gs
        | inr collision ↦ inr collision
      ]

  -- An operation that may have had an effect and whose end is unknown.
  abbrev pub IsLost : OperationRecord → Type 0
  IsLost r = (r.mutating ≡ true) × (r.status ≡ indeterminate)

  IsLost-Edge : {r q : OperationRecord} → IsLost r → Edge r q → IsLost q
  IsLost-Edge l (inl same) = rw same l
  IsLost-Edge {r} {q} (writes, lost) (inr (same, edge)) =
      (same.mutating ∙ writes, only edge writes lost)
    where
      only :
          {m : Bool} {a b : OperationStatus}
          → StatusEdge m a b
          → m ≡ true
          → a ≡ indeterminate
          → b ≡ indeterminate
      only started h k = cc
      only not_started h k = cc
      only done h k = cc
      only failing h k = cc
      only failing_early h k = cc
      only losing h k = refl
      only losing_early h k = refl
      only still_lost h k = refl
      only (retried reads begun) h k = cc

  -- A mutating operation that once became indeterminate stays so, and is never run again, through any
  -- sequence of calls whose records carry the hash of their own contents; or two different records
  -- have one hash.
  pub run-IsLost :
      (files : Files) (id : Text) (s : OperationRecord) (calls : List Call)
      → files id ≡ stored s
      → IsLost s
      → All (IsGenuine host session_id) calls
      → ((q : OperationRecord) × (run files calls id ≡ stored q) × IsLost q)
        ⊎ Collision host session_id
  unfolding run
  run-IsLost files id s [] held lost g = inl (s, held, lost)
  run-IsLost files id s (call ∷ calls) held lost (g, gs) =
      elim (perform-Kept files id s call held g) [
        | inl (q, there, edge) ↦
            run-IsLost (perform host session_id files call) id q calls there (IsLost-Edge lost edge)
              gs
        | inr collision ↦ inr collision
      ]
