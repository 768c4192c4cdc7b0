-- ===== src/Policy/Grants/Ceilings.antt =====
-- What an expansion of the session grant cannot do, and what it does.
use cope_code.Common.{
  ℕ, ◌≡◌, refl, sym, ap, ◌∙◌, ◌≢◌, ◌⊎◌, inl, inr, Bool, true, false, ◌||◌, List, [], ◌∷◌, ◌++◌,
  Text, text, text_eq, text_eq_iff, text_is_eq, arith, any, contains, Bool-cases, All, ok,
  starts_with, to_lower,
}
use cope_code.Policy.Types.{
  PolicyDecision, deny, PolicyCheck, SessionGrant, BudgetMetric, organization, repository,
}
use cope_code.Policy.Rules.{LayerView, denies, is_deny, is_approved}
use cope_code.Policy.Rules.Strictness.{denies-append}
use cope_code.Policy.Engine.{PolicyEngine, document_view}
use cope_code.Policy.Grants.{Expansion, expansion_key, is_invalid, expansion_decision}
use cope_code.Policy.Grants.Applying.{apply_expansion}
use cope_code.Policy.Grants.Expanding.{
  Expanded, expand_grant, expansion_reasons, expansion_outcome, layer_reasons, changes_in_inspect,
  session_denies_tool,
}

pub or_true : (b : Bool) → (b || true) ≡ true
or_true b = ground arith

any-deny : (reasons : List PolicyCheck) → any (λ r. is_deny r.decision) reasons ≡ denies reasons
unfolding any denies
any-deny [] = refl
any-deny (r ∷ rs) = rw (any-deny rs) refl

outcome_deny : (reasons : List PolicyCheck) → is_deny (expansion_outcome reasons) ≡ denies reasons
unfolding expansion_outcome
outcome_deny reasons = rw (any-deny reasons) (ground arith)

is_deny-eq : (d : PolicyDecision) → is_deny d ≡ true → d ≡ deny
is_deny-eq d h = ground arith

module _ (is_valid : SessionGrant → Bool) (e : PolicyEngine) (expansion : Expansion)
    (usage : BudgetMetric → ℕ) where
  abbrev key : Text
  key = expansion_key e.path_key expansion

  abbrev reasons : List PolicyCheck
  reasons = expansion_reasons e expansion usage key

  -- An expansion that is invalid, that the organization or the repository denies, that would write in
  -- inspect mode, or whose tool the session denies.
  abbrev pub IsBlocked : Type 0
  IsBlocked =
      (is_invalid expansion ≡ true)
      ⊎ (expansion_decision e.minimatch e.path_key (document_view organization e.organization)
            expansion
          ≡ deny)
      ⊎ (expansion_decision e.minimatch e.path_key (document_view repository e.repository) expansion
          ≡ deny)
      ⊎ (changes_in_inspect e.session.mode expansion ≡ true)
      ⊎ (session_denies_tool e.session expansion ≡ true)

  layer_deny :
      (view : LayerView)
      → expansion_decision e.minimatch e.path_key view expansion ≡ deny
      → denies (layer_reasons e expansion key view) ≡ true
  unfolding layer_reasons denies
  layer_deny view h = rw (layer_reasons, h) refl

  blocked_reasons : IsBlocked → denies reasons ≡ true
  unfolding expansion_reasons denies
  blocked_reasons (inl h) = rw (expansion_reasons, h) refl
  blocked_reasons (inr (inl h)) =
      simp (denies-append, layer_deny (document_view organization e.organization) h, or_true)
  blocked_reasons (inr (inr (inl h))) =
      simp (denies-append, layer_deny (document_view repository e.repository) h, or_true)
  blocked_reasons (inr (inr (inr (inl h)))) = simp (h, denies-append, or_true)
  blocked_reasons (inr (inr (inr (inr h)))) = simp (h, denies-append, or_true)

  -- A blocked expansion is denied, with the grant that the session had.
  pub blocked_expansion :
      IsBlocked
      → expand_grant is_valid e expansion usage
        ≡ ok
            (record { decision = deny; grant = e.session; reasons = reasons; capability_key = key })
  unfolding expand_grant
  blocked_expansion h =
      let denial : expansion_outcome reasons ≡ deny =
        is_deny-eq _ (outcome_deny reasons ∙ blocked_reasons h) in
      rw denial refl

  -- Where the expansion is not denied, no reason denies it and the grant is the grown one.
  pub granted :
      (r : Expanded)
      → expand_grant is_valid e expansion usage ≡ ok r
      → r.decision ≢ deny
      → (denies reasons ≡ false)
        × (r.grant ≡ apply_expansion e.session expansion key)
        × (r.capability_key ≡ key)
  unfolding expand_grant
  granted r h differ = elim (Bool-cases (denies reasons)) [
    | inl yes_it ↦
        let denial : expansion_outcome reasons ≡ deny =
          is_deny-eq _ (outcome_deny reasons ∙ yes_it) in
        absurd (ground arith)
    | inr fine ↦
        let open_it : is_deny (expansion_outcome reasons) ≡ false = outcome_deny reasons ∙ fine in
        (fine, ground arith, ground arith)
  ]

-- Keys and approvals.
contains_snoc : (k : Text) (xs : List Text) → contains k (xs ++ k ∷ []) ≡ true
unfolding contains
contains_snoc k [] = rw ((text_eq_iff k k).1 refl) refl
contains_snoc k (x ∷ xs) = rw (contains_snoc k xs) (ground arith)

contains_more : (k : Text) (xs ys : List Text) → contains k xs ≡ true → contains k (xs ++ ys) ≡ true
unfolding contains
contains_more k [] ys h = cc
contains_more k (x ∷ xs) ys h = ground (arith, contains_more k xs ys)

any-contains :
    (p : Text → Bool) (k : Text) (xs : List Text)
    → p k ≡ true
    → contains k xs ≡ true
    → any p xs ≡ true
unfolding contains any
any-contains p k [] h c = cc
any-contains p k (x ∷ xs) h c = elim (Bool-cases (text_eq k x)) [
  | inl same ↦ rw (ap p (sym ((text_eq_iff k x).0 same)) ∙ h) refl
  | inr apart ↦ rw (any-contains p k xs h (rw apart at c)) (ground arith)
]

contains-is_approved : (k : Text) (xs : List Text) → contains k xs ≡ true → is_approved xs k ≡ true
unfolding is_approved
contains-is_approved k xs c = elim (Bool-cases (starts_with (text "path:") k)) [
  | inl path ↦ rw (path, is_approved) (any-contains _ k xs ((text_eq_iff k k).1 refl) c)
  | inr apart ↦
      rw (apart, is_approved)
        (any-contains _ k xs (rw ((text_eq_iff (to_lower k) (to_lower k)).1 refl) refl) c)
]

All-contained :
    (xs ys : List Text)
    → ((k : Text) → contains k ys ≡ true → contains k xs ≡ true)
    → All (λ k. contains k xs ≡ true) ys
unfolding contains
All-contained xs [] h = tt
All-contained xs (y ∷ ys) h = (
  h y (rw ((text_eq_iff y y).1 refl) refl),
  All-contained xs ys (λ k c. h k (rw c (ground arith))),
)

apply_expansion-key :
    (grant : SessionGrant) (expansion : Expansion) (k : Text)
    → contains k (apply_expansion grant expansion k).approved_capabilities ≡ true
unfolding apply_expansion
apply_expansion-key grant expansion k = elim (Bool-cases (contains k grant.approved_capabilities)) [
  | inl held ↦ rw (held, apply_expansion) held
  | inr fresh ↦ rw (fresh, apply_expansion) (contains_snoc k grant.approved_capabilities)
]

apply_expansion-kept :
    (grant : SessionGrant) (expansion : Expansion) (k old : Text)
    → contains old grant.approved_capabilities ≡ true
    → contains old (apply_expansion grant expansion k).approved_capabilities ≡ true
unfolding apply_expansion
apply_expansion-kept grant expansion k old h =
    elim (Bool-cases (contains k grant.approved_capabilities)) [
      | inl held ↦ rw (held, apply_expansion) h
      | inr fresh ↦
          rw (fresh, apply_expansion) (contains_more old grant.approved_capabilities (k ∷ []) h)
    ]

-- An expansion that is not denied approves its capability key for the session, and every key that
-- was approved before stays approved.
pub expansion_approves :
    (is_valid : SessionGrant → Bool) (e : PolicyEngine) (expansion : Expansion)
    (usage : BudgetMetric → ℕ) (r : Expanded)
    → expand_grant is_valid e expansion usage ≡ ok r
    → r.decision ≢ deny
    → (is_approved r.grant.approved_capabilities r.capability_key ≡ true)
      × All (λ k. contains k r.grant.approved_capabilities ≡ true) e.session.approved_capabilities
expansion_approves is_valid e expansion usage r h differ =
    let (_, grants, keys) = granted is_valid e expansion usage r h differ in
    let k = expansion_key e.path_key expansion in
    rw (grants, keys)
      (
        contains-is_approved k _ (apply_expansion-key e.session expansion k),
        All-contained _ e.session.approved_capabilities
            (apply_expansion-kept e.session expansion k),
      )
