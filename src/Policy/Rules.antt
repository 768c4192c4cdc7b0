-- ===== src/Policy/Rules.antt =====
-- The rules of src/policy/engine.ts that its evaluations share: `decideRule`, `resolveCheck`,
-- `isApproved`, `finish` and `strictest`.
pub mod Strictness
use mathlib.Core.Option.{get_or}
use mathlib.Core.Bool.{decide}
use cope_code.Common.{
  ℕ, ◌≡◌, Bool, true, false, not, ◌&&◌, ◌||◌, Option, none, some, List, [], ◌∷◌, ◌++◌, Text, text,
  text_is_eq, ◌==◌, if◌then◌else◌, any, select, ltb, starts_with, to_lower,
}
use cope_code.Policy.Types.{
  PolicyDecision, allow, ask, deny, PolicyLayer, PolicyCapabilities, Dimension, ReasonCode, allowed,
  capability_approved_for_session, RuleSet, PolicyCheck,
}

-- `POLICY_DECISION_WEIGHT`
abbrev pub weight : PolicyDecision → ℕ
weight allow = 0
weight ask = 1
weight deny = 2

-- One step of the folds that keep the heavier decision.
abbrev pub heavier : PolicyDecision → PolicyDecision → PolicyDecision
heavier current candidate = if ltb (weight current) (weight candidate) then candidate else current

fold_decisions : PolicyDecision → List PolicyDecision → PolicyDecision
fold_decisions current [] = current
fold_decisions current (d ∷ ds) = fold_decisions (heavier current d) ds

unfoldable pub strictest : List PolicyDecision → PolicyDecision
unfolding fold_decisions
strictest decisions = fold_decisions allow decisions

unfoldable pub decide_rule :
    Option RuleSet → Text → PolicyDecision → (Text → Text → Bool) → PolicyDecision
unfolding any
decide_rule none value default_decision matcher = default_decision
decide_rule (some rules) value default_decision matcher =
    if any (matcher value) rules.deny
    then deny
    else if any (matcher value) rules.ask
    then ask
    else if any (matcher value) rules.allow
    then allow
    else get_or rules.unmatched default_decision

-- One layer as the engine reads it.
pub record LayerView : Type 0 where
  pub layer : PolicyLayer
  pub default_decision : PolicyDecision
  pub capabilities : PolicyCapabilities

pub record CheckInput : Type 0 where
  pub layer : PolicyLayer
  pub dimension : Dimension
  pub decision : PolicyDecision
  pub ask_code : ReasonCode
  pub deny_code : ReasonCode
  pub capability_key : Text
  pub resource : Option Text

-- `isApproved`, on the keys of the session's approvals.
abbrev approves : Text → Text → Bool
approves key approval =
    to_lower approval == to_lower key
    || approval == text "network:*" && starts_with (text "network:") key

unfoldable pub is_approved : List Text → Text → Bool
unfolding any starts_with to_lower
is_approved approvals key =
    if starts_with (text "path:") key
    then any (λ approval. approval == key) approvals
    else any (approves key) approvals

-- A check that is no rule of a layer: always pushed as it is.
abbrev pub fixed : PolicyLayer → Dimension → ReasonCode → Option Text → PolicyCheck
fixed layer dimension code resource = record {
  layer = layer;
  dimension = dimension;
  decision = deny;
  reason_code = code;
  capability_key = none;
  resource = resource;
}

abbrev code_for : PolicyDecision → CheckInput → ReasonCode
code_for allow input = allowed
code_for ask input = input.ask_code
code_for deny input = input.deny_code

abbrev pub is_ask : PolicyDecision → Bool
is_ask ask = true
is_ask _ = false

abbrev pub is_deny : PolicyDecision → Bool
is_deny deny = true
is_deny _ = false

abbrev pub is_allow : PolicyDecision → Bool
is_allow allow = true
is_allow _ = false

unfoldable pub resolve_check : List Text → CheckInput → PolicyCheck
resolve_check approvals input =
    if is_ask input.decision && is_approved approvals input.capability_key
    then record {
      layer = input.layer;
      dimension = input.dimension;
      decision = allow;
      reason_code = capability_approved_for_session;
      capability_key = some input.capability_key;
      resource = input.resource;
    }
    else record {
      layer = input.layer;
      dimension = input.dimension;
      decision = input.decision;
      reason_code = code_for input.decision input;
      capability_key = some input.capability_key;
      resource = input.resource;
    }

-- The decision that `finish` folds out of the checks, and the reasons that it keeps.
fold_checks : PolicyDecision → List PolicyCheck → PolicyDecision
fold_checks current [] = current
fold_checks current (check ∷ checks) = fold_checks (heavier current check.decision) checks

unfoldable pub overall : List PolicyCheck → PolicyDecision
unfolding fold_checks
overall checks = fold_checks allow checks

unfoldable pub reasons_of : List PolicyCheck → List PolicyCheck
unfolding select
reasons_of checks = select (λ check. not (is_allow check.decision)) checks

-- Whether some check denies, and whether all allow.
unfoldable pub denies : List PolicyCheck → Bool
denies [] = false
denies (c ∷ cs) = is_deny c.decision || denies cs

unfoldable pub allows : List PolicyCheck → Bool
allows [] = true
allows (c ∷ cs) = is_allow c.decision && allows cs
