-- ===== src/Policy/Engine/Safety.antt =====
-- What `evaluate` guarantees, whatever the three documents say.
use cope_code.Common.{
  ◌≡◌, refl, ap, ◌∙◌, sym, ◌≢◌, inl, inr, Bool, true, false, not, ◌&&◌, ◌||◌, none, some, List, [],
  ◌∷◌, ◌++◌, ◌⊎◌, text, text_eq, text_is_eq, ◌==◌, ==_iff, any, Text, arith, Option-cases,
  concat_map, Bool-cases, All,
}
use cope_code.Policy.Types.{
  allow, deny, PolicyCheck, PolicyOperation, PolicyPathAccess, PathAccess, read, inspect,
  PolicyCommandContext, PolicyDisclosureContext,
}
use cope_code.Policy.Patterns.{normalize_repository_path}
use cope_code.Policy.Rules.{LayerView, denies, allows, overall}
use cope_code.Policy.Rules.Strictness.{denies-append, allows-append, is_allow-overall, overall_lem}
use cope_code.Policy.Layers.{is_read, matches_path, path_check, evaluate_path, evaluate_disclosure}
use cope_code.Policy.Limits.{evaluate_budgets}
use cope_code.Policy.Tools.{
  is_tool_name, tool_requires_context, tool_definition, ToolContextRequirement,
}
use cope_code.Policy.Engine.{
  PolicyEngine, layers, mutates, evaluate_mode, checks_of, evaluate, when, has_side_effects,
}

true≢false : true ≢ false
true≢false h = ground arith

pub or_true : (b : Bool) → (b || true) ≡ true
or_true b = ground arith

and_false : (b : Bool) → (b && false) ≡ false
and_false b = ground arith

module _ (e : PolicyEngine) (op : PolicyOperation) where
  -- A denial by the mode or by the disclosure is one of the operation.
  mode_denies : denies (evaluate_mode e op) ≡ true → denies (checks_of e op) ≡ true
  unfolding checks_of denies
  mode_denies h = elim (Bool-cases (is_tool_name op.tool)) [
    | inr t ↦ rw (checks_of, t) refl
    | inl t ↦ rw (checks_of, t) (simp (denies-append, h))
  ]

  pub disclosure_denies :
      denies (
          when
            (evaluate_disclosure e.minimatch e.path_key e.session.approved_capabilities (layers e))
            op.disclosure)
        ≡ true
      → denies (checks_of e op) ≡ true
  unfolding checks_of denies
  disclosure_denies h = elim (Bool-cases (is_tool_name op.tool)) [
    | inr t ↦ rw (checks_of, t) refl
    | inl t ↦ rw (checks_of, t) (simp (denies-append, h, or_true))
  ]

  -- Where the paths or the budgets do not pass, neither does the operation.
  paths_block :
      allows (
          concat_map
            (evaluate_path e.minimatch e.path_key e.session.approved_capabilities (layers e))
            op.paths)
        ≡ false
      → allows (checks_of e op) ≡ false
  unfolding checks_of allows
  paths_block h = elim (Bool-cases (is_tool_name op.tool)) [
    | inr t ↦ rw (checks_of, t) refl
    | inl t ↦ rw (checks_of, t) (simp (allows-append, h, and_false))
  ]

  budgets_block :
      allows (
          evaluate_budgets e.minimatch e.session.approved_capabilities
            (layers e)
            op.projected_usage)
        ≡ false
      → allows (checks_of e op) ≡ false
  unfolding checks_of allows
  budgets_block h = elim (Bool-cases (is_tool_name op.tool)) [
    | inr t ↦ rw (checks_of, t) refl
    | inl t ↦ rw (checks_of, t) (simp (allows-append, h, and_false))
  ]

All-allows {ℓ} :
    {A : Type ℓ} (f : A → List PolicyCheck) (xs : List A)
    → allows (concat_map f xs) ≡ true
    → All (λ x. allows (f x) ≡ true) xs
unfolding concat_map
All-allows f [] h = tt
All-allows f (x ∷ xs) h =
    let both : (allows (f x) && allows (concat_map f xs)) ≡ true =
      sym (allows-append (f x) (concat_map f xs)) ∙ h in
    (ground arith, All-allows f xs (ground arith))

-- A path is open to an access in a layer: its exclusions do not list it, and neither do its
-- protections where the access is no read.
abbrev IsOpen : PolicyEngine → PathAccess → Text → LayerView → Type 0
IsOpen e access normalized view =
    matches_path e.minimatch e.path_key normalized view.capabilities.paths.excluded ≡ false
    × (is_read access
        || not (matches_path e.minimatch e.path_key normalized view.capabilities.paths.protected))
      ≡ true

abbrev pub IsReachable : PolicyEngine → PolicyPathAccess → Type 0
IsReachable e p =
    (normalized : Text) × (normalize_repository_path p.path ≡ some normalized)
    × All (IsOpen e p.access normalized) (layers e)

path_check-IsOpen :
    (e : PolicyEngine) (approvals : List Text) (normalized : Text) (access : PathAccess)
    (view : LayerView)
    → allows (path_check e.minimatch e.path_key approvals normalized access view ∷ []) ≡ true
    → IsOpen e access normalized view
unfolding path_check allows
path_check-IsOpen e approvals normalized access view h = (ground arith, ground arith)

All-map {ℓ} :
    {A : Type ℓ} (P Q : A → Type ℓ) (xs : List A) → ((x : A) → P x → Q x) → All P xs → All Q xs
All-map P Q [] f h = tt
All-map P Q (x ∷ xs) f h = (f x h.0, All-map P Q xs f h.1)

module _ (e : PolicyEngine) (approvals : List Text) (p : PolicyPathAccess) where
  path_checks : Text → List PolicyCheck
  path_checks normalized =
      concat_map (λ view. path_check e.minimatch e.path_key approvals normalized p.access view ∷ [])
        (layers e)

  evaluate_path-none :
      normalize_repository_path p.path ≡ none
      → allows (evaluate_path e.minimatch e.path_key approvals (layers e) p) ≡ false
  unfolding evaluate_path allows
  evaluate_path-none h = rw (evaluate_path, h) refl

  evaluate_path-some :
      (normalized : Text)
      → normalize_repository_path p.path ≡ some normalized
      → evaluate_path e.minimatch e.path_key approvals (layers e) p ≡ path_checks normalized
  unfolding evaluate_path path_checks
  evaluate_path-some normalized h = rw (evaluate_path, h) refl

  evaluate_path-IsReachable :
      allows (evaluate_path e.minimatch e.path_key approvals (layers e) p) ≡ true → IsReachable e p
  unfolding path_checks
  evaluate_path-IsReachable h = elim (Option-cases (normalize_repository_path p.path)) [
    | inl it ↦ absurd (true≢false (sym h ∙ evaluate_path-none it))
    | inr (normalized, it) ↦ (
      normalized,
      it,
      All-map _ (IsOpen e p.access normalized) (layers e)
          (path_check-IsOpen e approvals normalized p.access)
          (All-allows
            (λ view. path_check e.minimatch e.path_key approvals normalized p.access view ∷ [])
            (layers e) (ap allows (sym (evaluate_path-some normalized it)) ∙ h)),
    )
  ]

allow_all : (checks : List PolicyCheck) → overall checks ≡ allow → ¬ (allows checks ≡ false)
allow_all checks h blocked = true≢false (sym (is_allow-overall checks h).1 ∙ blocked)

pub deny_one : (checks : List PolicyCheck) → denies checks ≡ true → overall checks ≡ deny
deny_one checks h = rw (overall_lem checks, h) refl

not_false : (b : Bool) → ¬ (b ≡ false) → b ≡ true
not_false b h = ground arith

-- An operation that is allowed touches no path that is outside the repository, or that a layer
-- excludes, and changes none that a layer protects.
pub allow-IsReachable :
    (e : PolicyEngine) (op : PolicyOperation)
    → (evaluate e op).decision ≡ allow
    → All (IsReachable e) op.paths
unfolding evaluate
allow-IsReachable e op h =
    All-map _ (IsReachable e) op.paths (evaluate_path-IsReachable e e.session.approved_capabilities)
      (All-allows (evaluate_path e.minimatch e.path_key e.session.approved_capabilities (layers e))
        op.paths (not_false _ (λ blocked. allow_all (checks_of e op) h (paths_block e op blocked))))

-- What changes a repository, or may: a terminal command, the two tools that write, an access to a path
-- that is no read, and a command of the catalog that has side effects.
abbrev pub ChangesRepository : PolicyOperation → Type 0
ChangesRepository op =
    (op.tool ≡ text "terminal_exec")
    ⊎ (op.tool ≡ text "edit_text")
    ⊎ (op.tool ≡ text "apply_patch")
    ⊎ ((before : List PolicyPathAccess) × (p : PolicyPathAccess) × (after : List PolicyPathAccess)
        × (op.paths ≡ before ++ p ∷ after)
        × (p.access ≢ read))
    ⊎ ((op.tool ≡ text "run_command")
        × ((c : PolicyCommandContext) × (op.command ≡ some c) × (c.side_effects ≡ true)))

mode_denies_write :
    (e : PolicyEngine) (op : PolicyOperation)
    → e.session.mode ≡ inspect
    → mutates op ≡ true
    → denies (evaluate_mode e op) ≡ true
unfolding evaluate_mode denies
mode_denies_write e op i m = rw (evaluate_mode, i, m) refl

mode_denies_command :
    (e : PolicyEngine) (op : PolicyOperation)
    → e.session.mode ≡ inspect
    → (op.tool == text "run_command" && has_side_effects op.command) ≡ true
    → denies (evaluate_mode e op) ≡ true
unfolding evaluate_mode denies
mode_denies_command e op i c = elim (Bool-cases (mutates op)) [
  | inl m ↦ mode_denies_write e op i m
  | inr m ↦ rw (evaluate_mode, i, m, c) refl
]

third_true : (a b c : Bool) → c ≡ true → (a || (b || c)) ≡ true
third_true a b c h = ground arith

both_true : (a b : Bool) → a ≡ true → b ≡ true → (a && b) ≡ true
both_true a b h k = ground arith

no_read : (a : PathAccess) → a ≢ read → is_read a ≡ false
no_read read h = absurd (h refl)
no_read _ h = refl

any-append :
    (f : PolicyPathAccess → Bool) (before after : List PolicyPathAccess) (p : PolicyPathAccess)
    → f p ≡ true
    → any f (before ++ p ∷ after) ≡ true
unfolding any
any-append f [] after p h = rw h refl
any-append f (q ∷ before) after p h = rw (any-append f before after p h) (or_true (f q))

writes-mutates :
    (tool : Text) (paths : Bool)
    → (tool ≡ text "edit_text") ⊎ (tool ≡ text "apply_patch")
    → (tool == text "terminal_exec"
        || (tool_requires_context tool ToolContextRequirement.change || paths))
      ≡ true
unfolding tool_requires_context text_eq tool_definition
writes-mutates tool paths (inl is) = rw is refl
writes-mutates tool paths (inr is) = rw is refl

inspect_mode_denies :
    (e : PolicyEngine) (op : PolicyOperation)
    → e.session.mode ≡ inspect
    → ChangesRepository op
    → denies (evaluate_mode e op) ≡ true
unfolding mutates
inspect_mode_denies e op i (inl is) =
    mode_denies_write e op i (rw ((==_iff op.tool (text "terminal_exec")).1 is) refl)
inspect_mode_denies e op i (inr (inl is)) =
    mode_denies_write e op i (writes-mutates op.tool _ (inl is))
inspect_mode_denies e op i (inr (inr (inl is))) =
    mode_denies_write e op i (writes-mutates op.tool _ (inr is))
inspect_mode_denies e op i (inr (inr (inr (inl (before, p, after, is, writes))))) =
    mode_denies_write e op i (
      third_true _ _ _ (
        ap (any (λ q. not (is_read q.access))) is
        ∙ any-append (λ q. not (is_read q.access)) before after p
            (ap not (no_read p.access writes))))
inspect_mode_denies e op i (inr (inr (inr (inr (is, (c, given, effects)))))) =
    mode_denies_command e op i (
      both_true _ _ ((==_iff op.tool (text "run_command")).1 is)
        (ap has_side_effects given ∙ effects))

-- A session in inspect mode denies every operation that changes the repository or may: terminal
-- commands, the tools that write, every operation that has an access to a path other than a read, and
-- commands with side effects.
pub inspect-deny :
    (e : PolicyEngine) (op : PolicyOperation)
    → e.session.mode ≡ inspect
    → ChangesRepository op
    → (evaluate e op).decision ≡ deny
unfolding evaluate
inspect-deny e op i changes =
    deny_one (checks_of e op) (mode_denies e op (inspect_mode_denies e op i changes))

-- An operation that would disclose a secret is denied, whatever the layers allow.
pub secret-deny :
    (e : PolicyEngine) (op : PolicyOperation) (d : PolicyDisclosureContext)
    → op.disclosure ≡ some d
    → d.contains_secret ≡ true
    → (evaluate e op).decision ≡ deny
unfolding evaluate evaluate_disclosure denies
secret-deny e op d i m =
    deny_one (checks_of e op) (disclosure_denies e op (rw (i, evaluate_disclosure, m) refl))
