-- ===== src/Policy/Engine/Budgets.antt =====
-- The budgets of the layers, in `evaluate`.
use mathlib.Core.Bool.{decide}
use cope_code.Common.{
  ◌≡◌, refl, sym, ap, ◌∙◌, ◌⊎◌, inl, inr, Bool, true, false, ◌||◌, List, [], ◌∷◌, arith, concat_map,
  Bool-cases, contains, ◌==◌, ==_iff,
}
use cope_code.Policy.Types.{
  deny, PolicyCheck, PolicyOperation, BudgetMetric, metric_is_eq, organization, repository,
}
use cope_code.Policy.Rules.{LayerView, denies, resolve_check}
use cope_code.Policy.Rules.Strictness.{denies-append}
use cope_code.Policy.Layers.{over, on_limit, budget_metrics}
use cope_code.Policy.Limits.{budget_check, evaluate_budgets}
use cope_code.Policy.Tools.{is_tool_name}
use cope_code.Policy.Engine.{PolicyEngine, layers, document_view, session_view, checks_of, evaluate}
use cope_code.Policy.Engine.Safety.{or_true, deny_one}

metric_listed : (metric : BudgetMetric) → contains metric budget_metrics ≡ true
unfolding contains decide
metric_listed metric = ground arith

or_false : (b : Bool) → (b || false) ≡ b
or_false b = ground arith

denies-listed :
    (f : BudgetMetric → List PolicyCheck) (metric : BudgetMetric) (metrics : List BudgetMetric)
    → contains metric metrics ≡ true
    → denies (f metric) ≡ true
    → denies (concat_map f metrics) ≡ true
unfolding contains concat_map
denies-listed f metric [] c h = cc
denies-listed f metric (m ∷ ms) c h = elim (Bool-cases (metric == m)) [
  | inl same ↦
      let at_metric : denies (f m) ≡ true =
        ap (λ k. denies (f k)) (sym ((==_iff metric m).0 same)) ∙ h in
      rw (denies-append (f m) (concat_map f ms), at_metric) refl
  | inr apart ↦
      rw (denies-append (f m) (concat_map f ms), denies-listed f metric ms (rw apart at c) h)
        (or_true (denies (f m)))
]

-- The checks of three layers deny if those of one do.
three_layers :
    (f : LayerView → List PolicyCheck) (x y z : LayerView)
    → denies (concat_map f (x ∷ y ∷ z ∷ [])) ≡ (denies (f x) || (denies (f y) || denies (f z)))
unfolding concat_map denies
three_layers f x y z = simp (denies-append, or_false)

pub one_of_three :
    (f : LayerView → List PolicyCheck) (x y z view : LayerView)
    → (view ≡ x) ⊎ (view ≡ y) ⊎ (view ≡ z)
    → denies (f view) ≡ true
    → denies (concat_map f (x ∷ y ∷ z ∷ [])) ≡ true
one_of_three f x y z view (inl is) h =
    rw (three_layers f x y z, ap (λ v. denies (f v)) (sym is) ∙ h) refl
one_of_three f x y z view (inr (inl is)) h =
    rw (three_layers f x y z, ap (λ v. denies (f v)) (sym is) ∙ h) (or_true _)
one_of_three f x y z view (inr (inr is)) h =
    rw (three_layers f x y z, ap (λ v. denies (f v)) (sym is) ∙ h) (ground arith)

-- One of the three layers.
abbrev pub IsLayer : PolicyEngine → LayerView → Type 0
IsLayer e view =
    (view ≡ document_view organization e.organization)
    ⊎ (view ≡ document_view repository e.repository)
    ⊎ (view ≡ session_view e.session)

module _ (e : PolicyEngine) (op : PolicyOperation) (metric : BudgetMetric) (view : LayerView) where
  abbrev checks_of_layer : LayerView → List PolicyCheck
  checks_of_layer v =
      concat_map (budget_check e.minimatch e.session.approved_capabilities op.projected_usage v)
        budget_metrics

  layer_denies :
      on_limit view.layer view.capabilities.budget_exceeded ≡ deny
      → over (view.capabilities.budgets metric) (op.projected_usage metric) ≡ true
      → denies (checks_of_layer view) ≡ true
  unfolding budget_check resolve_check denies
  layer_denies strict passed =
      denies-listed
        (budget_check e.minimatch e.session.approved_capabilities op.projected_usage view) metric
        budget_metrics (metric_listed metric) (rw (budget_check, passed, strict) refl)

  budgets_deny :
      IsLayer e view
      → denies (checks_of_layer view) ≡ true
      → denies (
          evaluate_budgets e.minimatch e.session.approved_capabilities
            (layers e)
            op.projected_usage)
        ≡ true
  unfolding evaluate_budgets
  budgets_deny is h =
      one_of_three checks_of_layer (document_view organization e.organization)
        (document_view repository e.repository) (session_view e.session) view is h

  budgets_denial :
      denies (
          evaluate_budgets e.minimatch e.session.approved_capabilities
            (layers e)
            op.projected_usage)
        ≡ true
      → denies (checks_of e op) ≡ true
  unfolding checks_of denies
  budgets_denial h = elim (Bool-cases (is_tool_name op.tool)) [
    | inr t ↦ rw (checks_of, t) refl
    | inl t ↦ rw (checks_of, t) (simp (denies-append, h, or_true))
  ]

  -- An operation whose projected usage passes a budget of one of the three layers is denied, where
  -- that layer denies on excess: as the organization and the repository do unless they ask.
  pub over_budget-deny :
      IsLayer e view
      → on_limit view.layer view.capabilities.budget_exceeded ≡ deny
      → over (view.capabilities.budgets metric) (op.projected_usage metric) ≡ true
      → (evaluate e op).decision ≡ deny
  unfolding evaluate
  over_budget-deny is strict passed =
      deny_one (checks_of e op) (budgets_denial (budgets_deny is (layer_denies strict passed)))
