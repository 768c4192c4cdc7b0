-- ===== src/Policy/Rules/Strictness.antt =====
-- Deny wins over ask, which wins over allow.
use cope_code.Common.{
  ◌≡◌, refl, true, false, ◌&&◌, ◌||◌, List, [], ◌∷◌, ◌++◌, Text, arith, if◌then◌else◌,
}
use cope_code.Policy.Types.{PolicyDecision, allow, ask, deny, PolicyCheck}
use cope_code.Policy.Rules.{
  heavier, fold_checks, overall, denies, allows, is_deny, is_allow, resolve_check, CheckInput,
  is_approved, is_ask,
}

fold_checks-deny : (checks : List PolicyCheck) → fold_checks deny checks ≡ deny
unfolding fold_checks
fold_checks-deny [] = refl
fold_checks-deny (c ∷ cs) = ground (arith, fold_checks-deny cs)

fold_checks_cases :
    (d : PolicyDecision) (checks : List PolicyCheck)
    → fold_checks d checks ≡ (
        if is_deny d || denies checks
        then deny
        else if is_allow d && allows checks
        then allow
        else ask)
unfolding fold_checks denies allows
fold_checks_cases d [] = ground arith
fold_checks_cases d (c ∷ cs) = ground (arith, fold_checks_cases (heavier d c.decision) cs)

-- The overall decision: deny if some check denies, allow if all allow, and else ask.
pub overall_lem :
    (checks : List PolicyCheck)
    → overall checks ≡ (if denies checks then deny else if allows checks then allow else ask)
unfolding overall
overall_lem checks = fold_checks_cases allow checks

pub denies-append : (xs ys : List PolicyCheck) → denies (xs ++ ys) ≡ (denies xs || denies ys)
unfolding denies
denies-append [] ys = refl
denies-append (x ∷ xs) ys = ground (arith, denies-append xs ys)

pub allows-append : (xs ys : List PolicyCheck) → allows (xs ++ ys) ≡ (allows xs && allows ys)
unfolding allows
allows-append [] ys = refl
allows-append (x ∷ xs) ys = ground (arith, allows-append xs ys)

-- An approval turns ask into allow, and nothing else.
pub deny-resolve_check :
    (approvals : List Text) (input : CheckInput)
    → is_deny (resolve_check approvals input).decision ≡ is_deny input.decision
unfolding resolve_check
deny-resolve_check approvals input = ground arith

pub allow-resolve_check :
    (approvals : List Text) (input : CheckInput)
    → is_allow (resolve_check approvals input).decision ≡ (
        is_allow input.decision
        || is_ask input.decision && is_approved approvals input.capability_key)
unfolding resolve_check
allow-resolve_check approvals input = ground arith

pub is_deny-overall : (checks : List PolicyCheck) → is_deny (overall checks) ≡ denies checks
is_deny-overall checks = ground (arith, overall_lem checks)

pub is_allow-overall :
    (checks : List PolicyCheck)
    → overall checks ≡ allow
    → denies checks ≡ false × allows checks ≡ true
is_allow-overall checks h = ground (arith, overall_lem checks)
