-- ===== src/Policy/Grants/Applying.antt =====
-- `applyExpansion` and `addAllowed` of src/policy/engine.ts.
use mathlib.Core.Bool.{decide}
use cope_code.Common.{
  ℕ, not, Option, none, some, List, [], ◌∷◌, ◌++◌, Text, text_is_eq, ◌==◌, if◌then◌else◌, any,
  select, contains, to_lower,
}
use cope_code.Policy.Types.{
  allow, access_is_eq, risk_is_eq, metric_is_eq, PathAccess, CommandRisk, BudgetMetric, Amount, nat,
  other, RuleSet, PolicyCapabilities, SessionGrant,
}
use cope_code.Policy.Limits.{
  ChangeKind, create_file, delete_file, dependency_manifest, local_commit,
}
use cope_code.Policy.Grants.{
  Expansion, tool_expansion, path_expansion, command_expansion, disclosure_expansion,
  network_expansion, change_expansion, budget_expansion,
}

abbrev allow_of : Option RuleSet → List Text
allow_of none = []
allow_of (some rules) = rules.allow

-- The value joins the allowed ones and leaves the others.
unfoldable pub add_allowed : Option RuleSet → Text → RuleSet
unfolding any select to_lower
add_allowed rules value =
    let same = λ (item : Text). to_lower item == to_lower value in
    record {
      allow = if any same (allow_of rules) then allow_of rules else allow_of rules ++ value ∷ [];
      ask = elim rules [ none ↦ [] | some r ↦ select (λ item. not (same item)) r.ask ];
      deny = elim rules [ none ↦ [] | some r ↦ select (λ item. not (same item)) r.deny ];
      unmatched = elim rules [ none ↦ none | some r ↦ r.unmatched ];
    }

-- The number that a structurally valid request holds.
abbrev number_of : Amount → Option ℕ
number_of (nat n) = some n
number_of (other above) = none

abbrev with_change : PolicyCapabilities → ChangeKind → PolicyCapabilities
with_change c create_file = record c { changes = record c.changes { create_files = some allow } }
with_change c delete_file = record c { changes = record c.changes { delete_files = some allow } }
with_change c dependency_manifest = record c {
  changes = record c.changes { dependency_manifests = some allow };
}
with_change c local_commit = record c { changes = record c.changes { local_commits = some allow } }

-- The switch of `applyExpansion`.
unfoldable pub grown : PolicyCapabilities → Expansion → PolicyCapabilities
unfolding add_allowed decide
grown c (tool_expansion tool) = record c { tools = some (add_allowed c.tools tool) }
grown c (path_expansion access path) =
    let rules = λ (k : PathAccess).
      if access == k then some (add_allowed (c.paths.rules access) path) else c.paths.rules k in
    record c { paths = record c.paths { rules = rules } }
grown c (command_expansion id category risk) =
    let risks = λ (k : CommandRisk). if risk == k then some allow else c.commands.risks k in
    record c {
      commands = record c.commands {
        ids = some (add_allowed c.commands.ids id);
        categories = some (add_allowed c.commands.categories category);
        risks = risks;
      };
    }
grown c (disclosure_expansion classification) = record c {
  disclosure = record c.disclosure {
    classifications = some (add_allowed c.disclosure.classifications classification);
  };
}
grown c (network_expansion none) = record c { network = record c.network { access = some allow } }
grown c (network_expansion (some host)) = record c {
  network = record { access = some allow; hosts = some (add_allowed c.network.hosts host) };
}
grown c (change_expansion change) = with_change c change
grown c (budget_expansion metric requested) =
    let budgets = λ (k : BudgetMetric). if metric == k then number_of requested else c.budgets k in
    record c { budgets = budgets }

unfoldable pub apply_expansion : SessionGrant → Expansion → Text → SessionGrant
unfolding contains
apply_expansion grant expansion key = record grant {
  capabilities = grown grant.capabilities expansion;
  approved_capabilities =
      if contains key grant.approved_capabilities
      then grant.approved_capabilities
      else grant.approved_capabilities ++ key ∷ [];
}
