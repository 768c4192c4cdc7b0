-- ===== src/Policy/Grants/Budgets.antt =====
-- An expansion of a budget: what `expandGrant` lets through, and the limit that is then in force.
use cope_code.Common.{
  ℕ, ◌≤◌, ◌<◌, ◌≡◌, refl, ◌≢◌, inl, inr, Bool, true, false, Option, none, some, Text, ==_iff, arith,
  Bool-cases, Option-cases, ok,
}
use cope_code.Policy.Types.{deny, SessionGrant, BudgetMetric, metric_is_eq, Amount, nat, other}
use cope_code.Policy.Rules.{denies}
use cope_code.Policy.Layers.{over}
use cope_code.Policy.Rules.Strictness.{denies-append}
use cope_code.Policy.Engine.{least, PolicyEngine, effective_budget_limit}
use cope_code.Policy.Grants.{budget_expansion, expansion_key, is_invalid, expansion_decision}
use cope_code.Policy.Grants.Applying.{apply_expansion, grown}
use cope_code.Policy.Grants.Ceilings.{granted, or_true}
use cope_code.Policy.Grants.Expanding.{
  Expanded, expand_grant, expansion_reasons, budget_reasons, layer_reasons, ceiling_blocks,
  current_limit, minimum_acceptable,
}

-- A limit of a higher layer is at least `n`.
abbrev pub Ceiling : Option ℕ → ℕ → Type 0
Ceiling none n = Unit
Ceiling (some limit) n = n ≤ limit

-- `{ ...usage, session: grant }` of the engine.
abbrev pub with_grant : PolicyEngine → SessionGrant → PolicyEngine
with_grant e grant = record e { session = grant }

part_false : (part whole : Bool) → (part ≡ true → whole ≡ true) → whole ≡ false → part ≡ false
part_false part whole f h = elim (Bool-cases part) [
  | inl t ↦ absurd (ground (arith, f t))
  | inr t ↦ t
]

module _ (e : PolicyEngine) (metric : BudgetMetric) (usage : BudgetMetric → ℕ) (key : Text) where
  abbrev NotDenied : Amount → Type 0
  NotDenied requested =
      denies (expansion_reasons e (budget_expansion metric requested) usage key) ≡ false

  valid_request : (requested : Amount) → NotDenied requested → (n : ℕ) × (requested ≡ nat n)
  unfolding expansion_reasons is_invalid denies
  valid_request (nat n) h = (n, refl)
  valid_request (other above) h = cc

  budget_part :
      (n : ℕ)
      → NotDenied (nat n)
      → denies (budget_reasons e (budget_expansion metric (nat n)) usage key) ≡ false
  unfolding expansion_reasons
  budget_part n h = part_false _ _ (λ t. simp (expansion_reasons, denies-append, t, or_true)) h

  enough : (n : ℕ) → NotDenied (nat n) → minimum_acceptable e metric usage ≤ n
  unfolding budget_reasons denies
  enough n h = elim (Option-cases (ceiling_blocks e metric usage)) [
    | inl free ↦ ground (arith, rw (free, budget_reasons) at budget_part n h)
    | inr (layer, blocks) ↦ absurd (ground (arith, rw (blocks, budget_reasons) at budget_part n h))
  ]

  over_part :
      (n : ℕ)
      → NotDenied (nat n)
      → (over (e.organization.capabilities.budgets metric) (nat n) ≡ false)
        × (over (e.repository.capabilities.budgets metric) (nat n) ≡ false)
  unfolding expansion_reasons layer_reasons expansion_decision denies
  over_part n h = (
    part_false _ _
        (λ t.
          simp (expansion_reasons, layer_reasons, expansion_decision, denies-append, t, or_true))
        h,
    part_false _ _
        (λ t.
          simp (expansion_reasons, layer_reasons, expansion_decision, denies-append, t, or_true))
        h,
  )

over-Ceiling : (limit : Option ℕ) (n : ℕ) → over limit (nat n) ≡ false → Ceiling limit n
over-Ceiling none n h = tt
over-Ceiling (some limit) n h = ground arith

apply_expansion-budget :
    (grant : SessionGrant) (metric : BudgetMetric) (n : ℕ) (key : Text)
    → (apply_expansion grant (budget_expansion metric (nat n)) key).capabilities.budgets metric
      ≡ some n
unfolding apply_expansion grown
apply_expansion-budget grant metric n key = rw ((==_iff metric metric).1 refl) refl

least-Ceiling : (limit : Option ℕ) (n : ℕ) → Ceiling limit n → least limit (some n) ≡ some n
least-Ceiling none n h = refl
least-Ceiling (some limit) n h = ground arith

least_below :
    (e : PolicyEngine) (metric : BudgetMetric) (grant : SessionGrant) (n : ℕ)
    → Ceiling (e.organization.capabilities.budgets metric) n
    → Ceiling (e.repository.capabilities.budgets metric) n
    → grant.capabilities.budgets metric ≡ some n
    → effective_budget_limit (with_grant e grant) metric ≡ some n
unfolding effective_budget_limit
least_below e metric grant n o r s =
    rw (s, least-Ceiling (e.repository.capabilities.budgets metric) n r)
      (least-Ceiling (e.organization.capabilities.budgets metric) n o)

-- A budget expansion that is not denied asks for a number above the limit in force and above the
-- usage, and at most the limits of the organization and the repository; with the new grant that
-- number is the effective limit.
pub budget_expansion_lem :
    (is_valid : SessionGrant → Bool) (e : PolicyEngine) (metric : BudgetMetric) (requested : Amount)
    (usage : BudgetMetric → ℕ) (r : Expanded)
    → expand_grant is_valid e (budget_expansion metric requested) usage ≡ ok r
    → r.decision ≢ deny
    → (n : ℕ) × (requested ≡ nat n)
      × Ceiling (e.organization.capabilities.budgets metric) n
      × Ceiling (e.repository.capabilities.budgets metric) n
      × (current_limit e metric < n)
      × (usage metric < n)
      × (effective_budget_limit (with_grant e r.grant) metric ≡ some n)
unfolding minimum_acceptable
budget_expansion_lem is_valid e metric (nat n) usage r h differ =
    let expansion = budget_expansion metric (nat n) in
    let key = expansion_key e.path_key expansion in
    let (fine, grants, _) = granted is_valid e expansion usage r h differ in
    let room : minimum_acceptable e metric usage ≤ n = enough e metric usage key n fine in
    let (first, second) = over_part e metric usage key n fine in
    let o = over-Ceiling (e.organization.capabilities.budgets metric) n first in
    let r = over-Ceiling (e.repository.capabilities.budgets metric) n second in
    (
      n,
      refl,
      o,
      r,
      omega arith,
      omega arith,
      rw grants (
          least_below e metric (apply_expansion e.session expansion key) n o r
            (apply_expansion-budget e.session metric n key)),
    )
budget_expansion_lem is_valid e metric (other above) usage r h differ =
    let expansion = budget_expansion metric (other above) in
    let key = expansion_key e.path_key expansion in
    let (fine, _, _) = granted is_valid e expansion usage r h differ in
    let (n, bad) = valid_request e metric usage key (other above) fine in absurd (impossible bad)
  where
    impossible : {n : ℕ} → other above ≡ nat n → ⊥
    impossible e = cc
