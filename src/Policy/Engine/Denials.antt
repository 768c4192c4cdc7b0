-- ===== src/Policy/Engine/Denials.antt =====
-- The approvals of a session never touch a denial.
use cope_code.Common.{
  ◌≡◌, refl, inl, inr, Bool, ◌&&◌, Option, none, some, List, [], ◌∷◌, Text, arith, Option-cases,
  concat_map, Bool-cases,
}
use cope_code.Policy.Types.{
  PolicyCheck, PolicyOperation, PolicyPathAccess, PathAccess, PolicyCommandContext,
  PolicyDisclosureContext, PolicyNetworkContext, PolicyChangeContext, BudgetMetric, Amount,
}
use cope_code.Policy.Patterns.{normalize_repository_path}
use cope_code.Policy.Rules.{LayerView, denies, is_deny, resolve_check}
use cope_code.Policy.Rules.Strictness.{is_deny-overall, denies-append, deny-resolve_check}
use cope_code.Policy.Layers.{
  budget_metrics, path_check, evaluate_path, command_checks, command_id_check,
  command_category_check, evaluate_command, disclosure_checks, evaluate_disclosure,
}
use cope_code.Policy.Limits.{
  ChangeKind, change_limit_check, where_it, host_check, network_checks, evaluate_network,
  change_check, change_checks, evaluate_change, budget_check, evaluate_budgets,
}
use cope_code.Policy.Tools.{is_tool_name}
use cope_code.Policy.Engine.{
  PolicyEngine, layers, evaluate_mode, tool_check, checks_of, evaluate, when,
}

denies-concat_map {ℓ} :
    {A : Type ℓ} (f g : A → List PolicyCheck) (xs : List A)
    → ((x : A) → denies (f x) ≡ denies (g x))
    → denies (concat_map f xs) ≡ denies (concat_map g xs)
unfolding concat_map
denies-concat_map f g [] h = refl
denies-concat_map f g (x ∷ xs) h =
    rw
      (
        denies-append (f x) (concat_map f xs),
        denies-append (g x) (concat_map g xs),
        h x,
        denies-concat_map f g xs h,
      )
      refl

denies-where_it : (t : Bool) (x : PolicyCheck) → denies (where_it t x) ≡ (t && is_deny x.decision)
unfolding denies
denies-where_it t x = ground arith

denies_each {ℓ} :
    {A : Type ℓ} (f g : A → PolicyCheck) (xs : List A)
    → ((x : A) → is_deny (f x).decision ≡ is_deny (g x).decision)
    → denies (concat_map (λ x. f x ∷ []) xs) ≡ denies (concat_map (λ x. g x ∷ []) xs)
unfolding concat_map denies
denies_each f g [] h = refl
denies_each f g (x ∷ xs) h = rw (h x, denies_each f g xs h) refl

module _ (minimatch : Bool → Text → Text → Bool) (path_key : Text → Text) (a b : List Text) where
  path_deny :
      (p : Text) (access : PathAccess) (view : LayerView)
      → is_deny (path_check minimatch path_key a p access view).decision
        ≡ is_deny (path_check minimatch path_key b p access view).decision
  unfolding path_check resolve_check
  path_deny p access view = ground arith

  evaluate_path-deny :
      (views : List LayerView) (p : PolicyPathAccess)
      → denies (evaluate_path minimatch path_key a views p)
        ≡ denies (evaluate_path minimatch path_key b views p)
  unfolding evaluate_path denies
  evaluate_path-deny views p = elim (Option-cases (normalize_repository_path p.path)) [
    | inl e ↦ rw (evaluate_path, e) refl
    | inr (normalized, e) ↦
        rw (evaluate_path, e)
          (denies_each (path_check minimatch path_key a normalized p.access)
            (path_check minimatch path_key b normalized p.access) views
            (path_deny normalized p.access))
  ]

  command_checks-deny :
      (command : PolicyCommandContext) (view : LayerView)
      → denies (command_checks minimatch path_key a command view)
        ≡ denies (command_checks minimatch path_key b command view)
  unfolding command_checks command_id_check command_category_check resolve_check denies
  command_checks-deny command view = ground arith

  disclosure_checks-deny :
      (d : PolicyDisclosureContext) (view : LayerView)
      → denies (disclosure_checks minimatch path_key a d view)
        ≡ denies (disclosure_checks minimatch path_key b d view)
  unfolding disclosure_checks resolve_check denies
  disclosure_checks-deny d view = ground arith

  host_deny :
      (view : LayerView) (host : Text)
      → is_deny (host_check minimatch a view host).decision
        ≡ is_deny (host_check minimatch b view host).decision
  unfolding host_check resolve_check
  host_deny view host = ground arith

  change_deny :
      (view : LayerView) (kind : ChangeKind)
      → is_deny (change_check minimatch a view kind).decision
        ≡ is_deny (change_check minimatch b view kind).decision
  unfolding change_check resolve_check
  change_deny view kind = ground arith

  change_limit_deny :
      (view : LayerView)
      → is_deny (change_limit_check minimatch a view).decision
        ≡ is_deny (change_limit_check minimatch b view).decision
  unfolding change_limit_check resolve_check
  change_limit_deny view = ground arith

  change_checks-deny :
      (change : PolicyChangeContext) (view : LayerView)
      → denies (change_checks minimatch a change view)
        ≡ denies (change_checks minimatch b change view)
  unfolding change_checks
  change_checks-deny change view =
      simp (denies-append, denies-where_it, change_deny view, change_limit_deny view)

  budget_check-deny :
      (projected : BudgetMetric → Amount) (view : LayerView) (metric : BudgetMetric)
      → denies (budget_check minimatch a projected view metric)
        ≡ denies (budget_check minimatch b projected view metric)
  unfolding budget_check resolve_check denies
  budget_check-deny projected view metric = ground arith

  network_checks-deny :
      (network : PolicyNetworkContext) (view : LayerView)
      → denies (network_checks minimatch a network view)
        ≡ denies (network_checks minimatch b network view)
  unfolding network_checks denies
  network_checks-deny network view = simp (
    deny-resolve_check,
    denies_each (host_check minimatch a view) (host_check minimatch b view) network.hosts
        (host_deny view),
  )

  evaluate_network-deny :
      (views : List LayerView) (network : PolicyNetworkContext)
      → denies (evaluate_network minimatch a views network)
        ≡ denies (evaluate_network minimatch b views network)
  unfolding evaluate_network network_checks
  evaluate_network-deny views network = elim (Bool-cases network.required) [
    | inl e ↦
        rw (evaluate_network, e)
          (denies-concat_map (network_checks minimatch a network)
            (network_checks minimatch b network) views (network_checks-deny network))
    | inr e ↦ rw (evaluate_network, e) refl
  ]

  evaluate_budgets-deny :
      (views : List LayerView) (projected : BudgetMetric → Amount)
      → denies (evaluate_budgets minimatch a views projected)
        ≡ denies (evaluate_budgets minimatch b views projected)
  unfolding evaluate_budgets
  evaluate_budgets-deny views projected =
      denies-concat_map
        (λ view. concat_map (budget_check minimatch a projected view) budget_metrics)
        (λ view. concat_map (budget_check minimatch b projected view) budget_metrics) views
        (λ view.
          denies-concat_map (budget_check minimatch a projected view)
            (budget_check minimatch b projected view) budget_metrics
            (budget_check-deny projected view))

  evaluate_command-deny :
      (views : List LayerView) (command : PolicyCommandContext)
      → denies (evaluate_command minimatch path_key a views command)
        ≡ denies (evaluate_command minimatch path_key b views command)
  unfolding evaluate_command
  evaluate_command-deny views command =
      denies-concat_map (command_checks minimatch path_key a command)
        (command_checks minimatch path_key b command) views (command_checks-deny command)

  evaluate_disclosure-deny :
      (views : List LayerView) (d : PolicyDisclosureContext)
      → denies (evaluate_disclosure minimatch path_key a views d)
        ≡ denies (evaluate_disclosure minimatch path_key b views d)
  unfolding evaluate_disclosure
  evaluate_disclosure-deny views d = simp (
    denies-append,
    denies-concat_map (disclosure_checks minimatch path_key a d)
        (disclosure_checks minimatch path_key b d) views (disclosure_checks-deny d),
  )

  evaluate_change-deny :
      (views : List LayerView) (change : PolicyChangeContext)
      → denies (evaluate_change minimatch a views change)
        ≡ denies (evaluate_change minimatch b views change)
  unfolding evaluate_change
  evaluate_change-deny views change =
      denies-concat_map (change_checks minimatch a change) (change_checks minimatch b change) views
        (change_checks-deny change)

abbrev pub with_approvals : PolicyEngine → List Text → PolicyEngine
with_approvals e approvals = record e {
  session = record e.session { approved_capabilities = approvals };
}

evaluate_mode-deny :
    (e : PolicyEngine) (a b : List Text) (op : PolicyOperation)
    → denies (evaluate_mode (with_approvals e a) op)
      ≡ denies (evaluate_mode (with_approvals e b) op)
unfolding evaluate_mode resolve_check denies
evaluate_mode-deny e a b op = ground arith

tool_deny :
    (e : PolicyEngine) (a b : List Text) (tool : Text) (view : LayerView)
    → is_deny (tool_check (with_approvals e a) tool view).decision
      ≡ is_deny (tool_check (with_approvals e b) tool view).decision
unfolding tool_check resolve_check
tool_deny e a b tool view = ground arith

denies-when {ℓ} :
    {A : Type ℓ} (f g : A → List PolicyCheck) (o : Option A)
    → ((x : A) → denies (f x) ≡ denies (g x))
    → denies (when f o) ≡ denies (when g o)
denies-when f g none h = refl
denies-when f g (some x) h = h x

checks_of-deny :
    (e : PolicyEngine) (a b : List Text) (op : PolicyOperation)
    → denies (checks_of (with_approvals e a) op) ≡ denies (checks_of (with_approvals e b) op)
unfolding checks_of denies
checks_of-deny e a b op = elim (Bool-cases (is_tool_name op.tool)) [
  | inr h ↦ rw (checks_of, h) refl
  | inl h ↦
      let m = e.minimatch in
      let k = e.path_key in
      let v = layers e in
      rw (checks_of, h)
        (simp (
          denies-append,
          evaluate_mode-deny e a b op,
          denies,
          tool_deny e a b op.tool,
          denies-concat_map (evaluate_path m k a v) (evaluate_path m k b v) op.paths
              (evaluate_path-deny m k a b v),
          denies-when (evaluate_command m k a v) (evaluate_command m k b v) op.command
              (evaluate_command-deny m k a b v),
          denies-when (evaluate_disclosure m k a v) (evaluate_disclosure m k b v) op.disclosure
              (evaluate_disclosure-deny m k a b v),
          denies-when (evaluate_network m a v) (evaluate_network m b v) op.network
              (evaluate_network-deny m k a b v),
          denies-when (evaluate_change m a v) (evaluate_change m b v) op.change
              (evaluate_change-deny m k a b v),
          evaluate_budgets-deny m k a b v op.projected_usage,
        ))
]

-- Approving capabilities for a session never changes whether an operation is denied: an engine
-- with any list of approvals denies exactly the operations that it denies with any other.
pub approvals_keep_denials :
    (e : PolicyEngine) (a b : List Text) (op : PolicyOperation)
    → is_deny (evaluate (with_approvals e a) op).decision
      ≡ is_deny (evaluate (with_approvals e b) op).decision
unfolding evaluate
approvals_keep_denials e a b op =
    rw
      (
        is_deny-overall (checks_of (with_approvals e a) op),
        is_deny-overall (checks_of (with_approvals e b) op),
      )
      (checks_of-deny e a b op)
