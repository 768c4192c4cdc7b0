-- ===== src/Policy/Facts.antt =====
-- `evaluateOperationFacts` of src/policy/engine.ts: whether the facts of an operation agree.
use cope_code.Common.{
  ℕ, Bool, true, false, not, ◌&&◌, ◌||◌, Option, none, some, List, [], ◌∷◌, ◌++◌, map, Text, text,
  text_is_eq, concat_map, to_lower, leb, nat_eq, length, any, select, distinct, trim, max_safe,
}
use cope_code.Policy.Types.{
  Dimension, ReasonCode, PolicyCheck, PathAccess, create, delete, Amount, nat, other,
  PolicyPathAccess, PolicyCommandContext, PolicyDisclosureContext, PolicyNetworkContext,
  PolicyChangeContext, PolicyOperation, organization,
}
use cope_code.Policy.Tools
use cope_code.Policy.Tools.{tool_requires_context}
use cope_code.Policy.Patterns.{normalize_repository_path}
use cope_code.Policy.Rules.{fixed}
use cope_code.Policy.Layers.{is_read, budget_metrics}

-- `isNonNegativeInteger`: a safe integer that is not negative.
abbrev pub is_natural : Amount → Bool
is_natural (nat n) = leb n max_safe
is_natural (other above) = false

abbrev is_count : Amount → ℕ → Bool
is_count (nat n) m = nat_eq n m
is_count (other above) m = false

abbrev invalid_if : Bool → Dimension → List PolicyCheck
invalid_if true dimension =
    fixed organization dimension ReasonCode.invalid_operation_context none ∷ []
invalid_if false dimension = []

abbrev is_create : PathAccess → Bool
is_create create = true
is_create _ = false

abbrev is_delete : PathAccess → Bool
is_delete delete = true
is_delete _ = false

abbrev natural_or_absent : Option Amount → Bool
natural_or_absent none = true
natural_or_absent (some amount) = is_natural amount

abbrev bad_timeout : Option PolicyCommandContext → Bool
bad_timeout none = false
bad_timeout (some command) = not (is_natural command.timeout_ms) || is_count command.timeout_ms 0

abbrev bad_disclosure : Option PolicyDisclosureContext → Bool
bad_disclosure none = false
bad_disclosure (some d) = not (is_natural d.byte_count) || not (is_natural d.file_count)

abbrev is_empty : Text → Bool
is_empty [] = true
is_empty (c ∷ s) = false

unfoldable pub bad_network : Option PolicyNetworkContext → Bool
unfolding any distinct trim to_lower
bad_network none = false
bad_network (some network) =
    let hosts = map (λ host. to_lower (trim host)) network.hosts in
    network.required && nat_eq (length hosts) 0
    || (not network.required && leb 1 (length hosts)
        || (any is_empty hosts || not (nat_eq (length (distinct hosts)) (length hosts))))

abbrev bad_counts : Option PolicyChangeContext → Bool
bad_counts none = false
bad_counts (some c) =
    not (is_natural c.files_changed)
    || (not (is_natural c.changed_lines)
        || (not (is_natural c.creates) || not (is_natural c.deletes)))

module _ (path_key : Text → Text) where
  -- The key under which a mutated path counts once.
  unfoldable pub inventory_key : Text → Text
  inventory_key path = elim (normalize_repository_path path) [
    | none ↦ text "invalid:" ++ path
    | some normalized ↦ path_key normalized
  ]

  unfoldable pub bad_inventory : List PolicyPathAccess → PolicyChangeContext → Bool
  unfolding select distinct inventory_key
  bad_inventory paths change =
      let mutated = select (λ p. not (is_read p.access)) paths in
      let unique = distinct (map (λ p. inventory_key p.path) mutated) in
      not (nat_eq (length mutated) (length paths))
      || (not (nat_eq (length unique) (length mutated))
          || (not (is_count change.files_changed (length unique))
              || (not (is_count change.creates (length (select (λ p. is_create p.access) mutated)))
                  || not (
                      is_count change.deletes
                        (length (select (λ p. is_delete p.access) mutated))))))

  abbrev inventory_disagrees : PolicyOperation → Bool
  inventory_disagrees op = elim op.change [
    | none ↦ false
    | some change ↦
        tool_requires_context op.tool Tools.ToolContextRequirement.change
        && bad_inventory op.paths change
  ]

  unfoldable pub evaluate_operation_facts : PolicyOperation → List PolicyCheck
  unfolding concat_map bad_network bad_inventory
  evaluate_operation_facts op =
      concat_map
        (λ metric. invalid_if (not (is_natural (op.projected_usage metric))) Dimension.budget)
        budget_metrics
      ++ (invalid_if (not (natural_or_absent op.planned_disclosure_bytes)) Dimension.budget
          ++ (invalid_if (bad_timeout op.command) Dimension.command
              ++ (invalid_if (bad_disclosure op.disclosure) Dimension.disclosure
                  ++ (invalid_if (bad_network op.network) Dimension.network
                      ++ (invalid_if (bad_counts op.change) Dimension.change
                          ++ invalid_if (inventory_disagrees op) Dimension.change)))))
