-- ===== src/Policy/Engine/Disclosure.antt =====
-- The limits of the layers on disclosure, and `getEffectiveDisclosureLimits`.
use cope_code.Common.{
  ℕ, min, ◌≡◌, refl, ap, ◌∙◌, subst, ◌⊎◌, inl, inr, true, false, ◌||◌, Option, none, some, List,
  ◌++◌, arith, concat_map, Bool-cases, leb,
}
use cope_code.Policy.Types.{
  deny, PolicyCheck, PolicyOperation, PolicyCapabilities, PolicyDisclosureContext, Amount, nat,
  other, organization, repository,
}
use cope_code.Policy.Rules.{LayerView, denies, resolve_check}
use cope_code.Policy.Rules.Strictness.{denies-append}
use cope_code.Policy.Layers.{
  over, on_limit, disclosure_limit, disclosure_checks, evaluate_disclosure,
}
use cope_code.Policy.Engine.{
  PolicyEngine, layers, document_view, session_view, checks_of, evaluate, least, least_of_layers,
  effective_disclosure_limits,
}
use cope_code.Policy.Engine.Safety.{or_true, deny_one, disclosure_denies}
use cope_code.Policy.Engine.Budgets.{IsLayer, one_of_three}

over-least :
    (a b : Option ℕ) (x : Amount)
    → over (least a b) x ≡ true
    → (over a x ≡ true) ⊎ (over b x ≡ true)
over-least none b x h = inr h
over-least (some a) none x h = inl h
over-least (some a) (some b) (nat n) h = ground arith
over-least (some a) (some b) (other above) h = elim (Bool-cases (leb a b)) [
  | inl less ↦ inl (subst (λ m. above m ≡ true) (smaller a b less) h)
  | inr more ↦ inr (subst (λ m. above m ≡ true) (larger a b more) h)
]
  where
    smaller : (a b : ℕ) → leb a b ≡ true → min a b ≡ a
    smaller a b h = ground arith

    larger : (a b : ℕ) → leb a b ≡ false → min a b ≡ b
    larger a b h = ground arith

-- A limit of one of the layers is passed.
over-IsLayer :
    (e : PolicyEngine) (limit : PolicyCapabilities → Option ℕ) (x : Amount)
    → over (least_of_layers e limit) x ≡ true
    → (view : LayerView) × IsLayer e view × (over (limit view.capabilities) x ≡ true)
over-IsLayer e limit x h =
    elim (over-least (limit e.organization.capabilities)
      (least (limit e.repository.capabilities) (limit e.session.capabilities)) x h) [
        | inl first ↦ (document_view organization e.organization, inl refl, first)
        | inr later ↦
            elim (over-least (limit e.repository.capabilities) (limit e.session.capabilities) x
              later) [
                | inl second ↦ (document_view repository e.repository, inr (inl refl), second)
                | inr third ↦ (session_view e.session, inr (inr refl), third)
              ]
      ]

append_denies : (xs ys : List PolicyCheck) → denies ys ≡ true → denies (xs ++ ys) ≡ true
append_denies xs ys h = denies-append xs ys ∙ ap (λ b. denies xs || b) h ∙ or_true (denies xs)

-- Every layer denies what passes one of its limits.
abbrev pub IsStrict : PolicyEngine → Type 0
IsStrict e =
    (view : LayerView)
    → IsLayer e view
    → on_limit view.layer view.capabilities.budget_exceeded ≡ deny

module _ (e : PolicyEngine) (op : PolicyOperation) (d : PolicyDisclosureContext)
    (strict : IsStrict e) (discloses : op.disclosure ≡ some d) where
  abbrev IsPassed : LayerView → Type 0
  IsPassed view =
      (over view.capabilities.disclosure.max_bytes_per_operation d.byte_count ≡ true)
      ⊎ (over view.capabilities.disclosure.max_files_per_operation d.file_count ≡ true)

  limit_denies :
      (view : LayerView) (limit : Option ℕ) (x : Amount)
      → IsLayer e view
      → over limit x ≡ true
      → denies
          (disclosure_limit e.minimatch e.path_key e.session.approved_capabilities view limit x)
        ≡ true
  unfolding resolve_check denies
  limit_denies view limit x is passed = rw (passed, strict view is) refl

  layer_denies :
      (view : LayerView)
      → IsLayer e view
      → IsPassed view
      → denies (disclosure_checks e.minimatch e.path_key e.session.approved_capabilities d view)
        ≡ true
  unfolding disclosure_checks denies
  layer_denies view is (inl bytes) = simp (
    denies-append,
    limit_denies view view.capabilities.disclosure.max_bytes_per_operation d.byte_count is bytes,
    or_true,
  )
  layer_denies view is (inr files) = simp (
    denies-append,
    limit_denies view view.capabilities.disclosure.max_files_per_operation d.file_count is files,
    or_true,
  )

  passing :
      (over (effective_disclosure_limits e).max_bytes_per_operation d.byte_count ≡ true)
        ⊎ (over (effective_disclosure_limits e).max_files_per_operation d.file_count ≡ true)
      → (view : LayerView) × IsLayer e view × IsPassed view
  unfolding effective_disclosure_limits
  passing (inl bytes) =
      let (view, is, h) =
        over-IsLayer e (λ c. c.disclosure.max_bytes_per_operation) d.byte_count bytes in
      (view, is, inl h)
  passing (inr files) =
      let (view, is, h) =
        over-IsLayer e (λ c. c.disclosure.max_files_per_operation) d.file_count files in
      (view, is, inr h)

  layers_deny :
      (view : LayerView)
      → IsLayer e view
      → IsPassed view
      → denies
          (evaluate_disclosure e.minimatch e.path_key e.session.approved_capabilities (layers e) d)
        ≡ true
  unfolding evaluate_disclosure
  layers_deny view is h =
      append_denies _
        (concat_map (disclosure_checks e.minimatch e.path_key e.session.approved_capabilities d)
          (layers e))
        (one_of_three (disclosure_checks e.minimatch e.path_key e.session.approved_capabilities d)
          (document_view organization e.organization) (document_view repository e.repository)
          (session_view e.session) view is (layer_denies view is h))

  -- An operation that discloses more bytes or more files than the effective limits is denied, where
  -- every layer denies on excess.
  pub over_disclosure-deny :
      (over (effective_disclosure_limits e).max_bytes_per_operation d.byte_count ≡ true)
        ⊎ (over (effective_disclosure_limits e).max_files_per_operation d.file_count ≡ true)
      → (evaluate e op).decision ≡ deny
  unfolding evaluate
  over_disclosure-deny h =
      let (view, is, passed) = passing h in
      deny_one (checks_of e op) (disclosure_denies e op (rw discloses (layers_deny view is passed)))
