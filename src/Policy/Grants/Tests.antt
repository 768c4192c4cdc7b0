-- ===== src/Policy/Grants/Tests.antt =====
-- Expansions of a grant, tried on examples.
use cope_code.Common.{ℕ, ◌≡◌, refl, ◌≢◌, Bool, true, some, [], text, text_is_eq, ok}
use cope_code.Policy.Types.{allow, deny, edit, write, BudgetMetric, turns, nat, SessionGrant}
use cope_code.Policy.Engine.{PolicyEngine, effective_budget_limit}
use cope_code.Policy.Grants.{
  expansion_decision, is_invalid, Expansion, path_expansion, budget_expansion, expansion_key,
}
use cope_code.Policy.Grants.Expanding.{
  layer_reasons, session_denies_tool, minimum_acceptable, blocking, budget_reasons,
  expansion_outcome, Expanded, expand_grant, expansion_reasons, current_limit,
}
use cope_code.Policy.Grants.Applying.{apply_expansion}
use cope_code.Policy.Tests.{engine, capabilities}

abbrev accepts : SessionGrant → Bool
accepts grant = true

abbrev usage : BudgetMetric → ℕ
usage metric = 3

-- A session whose limits are below those of the other layers.
abbrev working : PolicyEngine
working = record (engine edit) {
  session = record (engine edit).session {
    capabilities = record capabilities { budgets = λ metric. some 10 };
  };
}

abbrev more_turns : Expansion
more_turns = budget_expansion turns (nat 20)

abbrev expanded : Expanded
expanded = record {
  decision = allow;
  grant = apply_expansion working.session more_turns (text "budget:turns");
  reasons = [];
  capability_key = text "budget:turns";
}

expands : expand_grant accepts working more_turns usage ≡ ok expanded
unfolding expand_grant expansion_outcome expansion_reasons is_invalid budget_reasons blocking
    minimum_acceptable current_limit effective_budget_limit session_denies_tool layer_reasons
    expansion_decision expansion_key
expands = refl

not_denied : expanded.decision ≢ deny
not_denied e = cc

abbrev writes : Expansion
writes = path_expansion write (text "docs/a.md")
