-- ===== src/Orchestrator/Completion/Disturbance.antt =====
-- What an accepted claim says of the repository: nothing has disturbed it.
use cope_code.Common.{
  ◌≡◌, refl, sym, ap, ◌∙◌, inl, inr, Bool, true, false, not, ◌&&◌, Option, none, some, List, [],
  ◌∷◌, map, Text, ◌==◌, ==_iff, text_is_eq, option_is_eq, Bool-cases, select, any, All, contains,
  arith,
}
use cope_code.Orchestrator.Completion.Types.{
  Control, SessionState, RepositoryState, excluded_state_changed, branch_changed, head_changed,
  new_out_of_scope, pre_existing_out_of_scope,
}
use cope_code.Orchestrator.Completion.Repository.{
  if_push, is_empty, is_pre_existing, is_modified, differs, control_reasons, scope_reasons,
  moved_from,
}
use cope_code.Orchestrator.Completion.Entries.{append_nil, if_push_nil, All-map}

-- The control state that the repository has to have: that of the last observed effect, if it is one to
-- rely on, and else that of the start, as far as it was recorded.
abbrev pub hidden_of : Option Control → SessionState → Text
hidden_of none state = state.repository_excluded_state_at_start
hidden_of (some control) state = control.excluded_state_fingerprint

abbrev pub branch_of : Option Control → SessionState → Option (Option Text)
branch_of none state = state.repository_branch_at_start
branch_of (some control) state = some control.branch

abbrev pub head_of : Option Control → SessionState → Option (Option Text)
head_of none state = state.repository_head_at_start
head_of (some control) state = some control.head

abbrev pub IsAnchored : Option Control → SessionState → RepositoryState → Type 0
IsAnchored control state repository =
    (repository.excluded_state_fingerprint ≡ hidden_of control state)
    × ((b : Option Text) → branch_of control state ≡ some b → repository.branch ≡ some b)
    × ((h : Option Text) → head_of control state ≡ some h → repository.head ≡ some h)

pub not-false : (b : Bool) → not b ≡ false → b ≡ true
not-false true h = refl
not-false false h = cc

moved_from-false :
    (start now : Option (Option Text))
    → moved_from start now ≡ false
    → (b : Option Text) → start ≡ some b
    → now ≡ some b
moved_from-false none now h b e = cc
moved_from-false (some a) now h b e = (==_iff now (some a)).0 (not-false (now == some a) h) ∙ e

pub anchored :
    (control : Option Control) (state : SessionState) (repository : RepositoryState)
    → control_reasons control state repository ≡ []
    → IsAnchored control state repository
unfolding control_reasons
anchored none state repository h =
    let hidden =
      not (repository.excluded_state_fingerprint == state.repository_excluded_state_at_start) in
    let (h1, head) =
      append_nil _
        (if_push (moved_from state.repository_head_at_start repository.head) head_changed) h in
    let (excluded, branch) =
      append_nil (if_push hidden excluded_state_changed)
        (if_push (moved_from state.repository_branch_at_start repository.branch) branch_changed)
        h1 in
    (
      (==_iff repository.excluded_state_fingerprint state.repository_excluded_state_at_start).0
          (not-false _ (if_push_nil hidden excluded_state_changed excluded)),
      moved_from-false state.repository_branch_at_start repository.branch (
          if_push_nil (moved_from state.repository_branch_at_start repository.branch) branch_changed
            branch),
      moved_from-false state.repository_head_at_start repository.head (
          if_push_nil (moved_from state.repository_head_at_start repository.head) head_changed
            head),
    )
anchored (some control) state repository h =
    let hidden =
      not (repository.excluded_state_fingerprint == control.excluded_state_fingerprint) in
    let (h1, head) =
      append_nil _ (if_push (not (repository.head == some control.head)) head_changed) h in
    let (excluded, branch) =
      append_nil (if_push hidden excluded_state_changed)
        (if_push (not (repository.branch == some control.branch)) branch_changed) h1 in
    (
      (==_iff repository.excluded_state_fingerprint control.excluded_state_fingerprint).0
          (not-false _ (if_push_nil hidden excluded_state_changed excluded)),
      λ b e.
          (==_iff repository.branch (some control.branch)).0 (
            not-false _
              (if_push_nil (not (repository.branch == some control.branch)) branch_changed branch))
          ∙ e,
      λ g e.
          (==_iff repository.head (some control.head)).0 (
            not-false _
              (if_push_nil (not (repository.head == some control.head)) head_changed head))
          ∙ e,
    )

pub any-false {ℓ} :
    {A : Type ℓ} (p : A → Bool) (xs : List A) → any p xs ≡ false → All (λ x. p x ≡ false) xs
unfolding any
any-false p [] h = tt
any-false p (x ∷ xs) h = (ground arith, any-false p xs (ground arith))

pub select-empty {ℓ} :
    {A : Type ℓ} (p : A → Bool) (xs : List A)
    → is_empty (select p xs) ≡ true
    → All (λ x. p x ≡ false) xs
unfolding select
select-empty p [] h = tt
select-empty p (x ∷ xs) h = elim (Bool-cases (p x)) [
  | inl kept ↦ cc (rw kept at h)
  | inr dropped ↦ (dropped, select-empty p xs (rw dropped at h))
]

pub is_empty-nil {ℓ} : {A : Type ℓ} (xs : List A) → not (is_empty xs) ≡ false → xs ≡ []
is_empty-nil [] h = refl
is_empty-nil (x ∷ xs) h = cc

All-both {ℓ κ μ} :
    {A : Type ℓ} (P : A → Type κ) (Q : A → Type μ) (xs : List A)
    → All P xs
    → All Q xs
    → All (λ x. P x × Q x) xs
All-both P Q [] h k = tt
All-both P Q (x ∷ xs) (p, ps) (q, qs) = ((p, q), All-both P Q xs ps qs)

differs-false :
    (before current : Option Text)
    → differs before current ≡ false
    → (f : Text) × (before ≡ some f) × (current ≡ some f)
differs-false none current h = cc
differs-false (some f) none h = cc
differs-false (some f) (some g) h = (f, refl, ap some (sym ((==_iff f g).0 (not-false (f == g) h))))

-- A path outside the grant that has changes had them before the session, and has them as they were.
abbrev pub IsUntouched : SessionState → RepositoryState → Text → Type 0
IsUntouched state repository path =
    (f : Text) × (contains (repository.path_key path)
        (map repository.path_key state.pre_existing_changes)
      ≡ true)
    × (state.pre_existing_change_states (repository.path_key path) ≡ some f)
    × (repository.path_state_fingerprints (repository.path_key path) ≡ some f)

pub scoped :
    (state : SessionState) (repository : RepositoryState)
    → scope_reasons state repository ≡ []
    → All (IsUntouched state repository) repository.out_of_scope_paths
unfolding scope_reasons
scoped state repository h =
    let paths = repository.out_of_scope_paths in
    let is_new = λ (path : Text). not (is_pre_existing state repository path) in
    let is_changed =
      λ (path : Text). is_pre_existing state repository path && is_modified state repository path in
    let (new, changed) =
      append_nil
        (if_push (not (is_empty (select is_new paths))) (new_out_of_scope (select is_new paths)))
        (if_push (not (is_empty (select is_changed paths)))
          (pre_existing_out_of_scope (select is_changed paths)))
        h in
    let none_new = select-empty is_new paths (
      not-false _ (
        if_push_nil (not (is_empty (select is_new paths))) (new_out_of_scope (select is_new paths))
          new)) in
    let none_changed = select-empty is_changed paths (
      not-false _ (
        if_push_nil (not (is_empty (select is_changed paths)))
          (pre_existing_out_of_scope (select is_changed paths)) changed)) in
    All-map
      (λ path both.
        let old = not-false (is_pre_existing state repository path) both.0 in
        let (f, before, now) =
          differs-false (state.pre_existing_change_states (repository.path_key path))
            (repository.path_state_fingerprints (repository.path_key path)) (rw old at both.1) in
        (f, old, before, now))
      paths
      (All-both (λ x. is_new x ≡ false) (λ x. is_changed x ≡ false) paths none_new none_changed)
