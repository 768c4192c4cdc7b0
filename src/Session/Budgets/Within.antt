-- ===== src/Session/Budgets/Within.antt =====
-- The limits over any sequence of calls of the meter.
use cope_code.Common.{
  ℕ, ◌≤◌, ◌≡◌, refl, sym, ap, ◌∙◌, ◌≢◌, ◌⊎◌, inl, inr, subst, Option, none, some, List, [], ◌∷◌,
  All, Result, ok, err, arith, after, Result-cases, >>=-eq-ok, Number, internal_error,
}
use cope_code.Session.Budgets.{
  BudgetCounter, BudgetLimits, Budgets, limit_of, used, consume, refund, natural_or,
  effective_limit,
}
use cope_code.Session.Budgets.Metering.{
  used-with_used_self, used-with_used_ne, moved, consume-Consumes, refund-ok, LimitIs,
}
use cope_code.Session.Budgets.PostHoc.{
  PostHocCounter, files, lines, output, counter_of, PerCounter, Exceeded, Tally, charge_one,
  apply_post_hoc,
}

BudgetCounter-discrete : Discrete BudgetCounter
BudgetCounter-discrete = hlevel

-- The calls of the meter that change the session.
pub data Call : Type 0 where
  consumes : BudgetCounter → Number → Option Number → Call
  refunds : BudgetCounter → Number → Call
  charges : PerCounter → PerCounter → Call

abbrev charged_or : Budgets → Result (Budgets × List Exceeded) → Budgets
charged_or s (ok (t, exceeded)) = t
charged_or s (err e) = s

-- A call that throws leaves the session as it was.
unfoldable pub perform : Budgets → Call → Budgets
perform s (consumes c amount one_time) = after s (consume s c amount one_time)
perform s (refunds c amount) = after s (refund s c amount)
perform s (charges charge one_time) = charged_or s (apply_post_hoc s charge one_time)

unfoldable pub run : Budgets → List Call → Budgets
run s [] = s
run s (call ∷ calls) = run (perform s call) calls

-- The call gives no one-time limit for the counter, and does not charge it after the fact.
abbrev pub Spares : BudgetCounter → Call → Type 0
Spares c (consumes d amount one_time) = (one_time ≡ none) ⊎ (d ≢ c)
Spares c (refunds d amount) = Unit
Spares c (charges charge one_time) = (k : PostHocCounter) → c ≢ counter_of k

abbrev pub IsWithin : BudgetCounter → Budgets → Type 0
IsWithin c s = used s.budget_usage c ≤ limit_of s.budget_limits c

abbrev Keeps : BudgetCounter → Budgets → Budgets → Type 0
Keeps c s t = (t.budget_limits ≡ s.budget_limits) × IsWithin c t

moved-Keeps :
    (s : Budgets) (d c : BudgetCounter) (n : ℕ)
    → IsWithin c s
    → (d ≡ c → n ≤ limit_of s.budget_limits c)
    → Keeps c s (moved s d n)
moved-Keeps s d c n w h = elim (BudgetCounter-discrete d c) [
  | yes same ↦ (refl, rw same (rw (used-with_used_self s.budget_usage c n) (h same)))
  | no differ ↦ (refl, rw (used-with_used_ne s.budget_usage d c n differ) w)
]

same_tally : {a b : Tally} → ok a ≡ ok b → a ≡ b
same_tally h = cc h

charge_one-kept :
    (limits : BudgetLimits) (charge one_time : PerCounter) (k : PostHocCounter) (c : BudgetCounter)
    (tally t : Tally)
    → c ≢ counter_of k
    → charge_one limits charge one_time k tally ≡ ok t
    → used t.next c ≡ used tally.next c
unfolding charge_one
charge_one-kept limits charge one_time k c tally t differ h =
    let (amount, _, h1) = >>=-eq-ok (natural_or _ internal_error) _ h in
    let (limit, _, h2) =
      >>=-eq-ok (effective_limit (limit_of limits (counter_of k)) (one_time k)) _ h1 in
    ap (λ (made : Tally). used made.next c) (sym (same_tally h2))
    ∙ used-with_used_ne tally.next (counter_of k) c _ (λ same. differ (sym same))

apply_post_hoc-kept :
    (s : Budgets) (charge one_time : PerCounter) (c : BudgetCounter) (t : Budgets)
    (exceeded : List Exceeded)
    → ((k : PostHocCounter) → c ≢ counter_of k)
    → apply_post_hoc s charge one_time ≡ ok (t, exceeded)
    → (t.budget_limits ≡ s.budget_limits) × (used t.budget_usage c ≡ used s.budget_usage c)
unfolding apply_post_hoc
apply_post_hoc-kept s charge one_time c t exceeded apart h =
    let limits = s.budget_limits in
    let begun : Tally = record { next = s.budget_usage; exceeded = [] } in
    let (x, hx, h1) = >>=-eq-ok (charge_one limits charge one_time files begun) _ h in
    let (y, hy, h2) = >>=-eq-ok (charge_one limits charge one_time lines x) _ h1 in
    let (z, hz, h3) = >>=-eq-ok (charge_one limits charge one_time output y) _ h2 in
    let made : record s { budget_usage = z.next } ≡ t = same_session h3 in
    (
      ap (λ (b : Budgets). b.budget_limits) (sym made),
      ap (λ (b : Budgets). used b.budget_usage c) (sym made)
          ∙ charge_one-kept limits charge one_time output c y z (apart output) hz
          ∙ charge_one-kept limits charge one_time lines c x y (apart lines) hy
          ∙ charge_one-kept limits charge one_time files c begun x (apart files) hx,
    )
  where
    same_session : {a b : Budgets × List Exceeded} → ok a ≡ ok b → a.0 ≡ b.0
    same_session {a} {b} e = ap (λ (p : Budgets × List Exceeded). p.0) {x = a} {y = b} (cc e)

persisted_limit :
    (limits : BudgetLimits) (d c : BudgetCounter) (one_time : Option Number) (limit n : ℕ)
    → (one_time ≡ none) ⊎ (d ≢ c)
    → d ≡ c
    → LimitIs (limit_of limits d) one_time limit
    → n ≤ limit
    → n ≤ limit_of limits c
persisted_limit limits d c none limit n spares same lim fits = rw (← same) (omega arith)
persisted_limit limits d c (some x) limit n (inl absent) same lim fits = absurd (cc absent)
persisted_limit limits d c (some x) limit n (inr apart) same lim fits = absurd (apart same)

perform-Keeps :
    (s : Budgets) (call : Call) (c : BudgetCounter)
    → Spares c call
    → IsWithin c s
    → Keeps c s (perform s call)
unfolding perform
perform-Keeps s (consumes d amount one_time) c spares w =
    elim (Result-cases (consume s d amount one_time)) [
      | inl (t, e) ↦
          let (n, limit, _, _, lim, fits, same) = consume-Consumes s d amount one_time t e in
          rw (e, same)
            (moved-Keeps s d c _ w
              (λ at_c. persisted_limit s.budget_limits d c one_time limit _ spares at_c lim fits))
      | inr (_, e) ↦ rw e (refl, w)
    ]
perform-Keeps s (refunds d amount) c spares w = elim (Result-cases (refund s d amount)) [
  | inl (t, e) ↦
      let (n, _, fits, same) = refund-ok s d amount t e in
      rw (e, same) (moved-Keeps s d c _ w (λ at_c. rw at_c (omega arith)))
  | inr (_, e) ↦ rw e (refl, w)
]
perform-Keeps s (charges charge one_time) c spares w =
    elim (Result-cases (apply_post_hoc s charge one_time)) [
      | inl ((t, exceeded), e) ↦
          let (same_limits, same) = apply_post_hoc-kept s charge one_time c t exceeded spares e in
          rw e (same_limits, rw (same, same_limits) w)
      | inr (_, e) ↦ rw e (refl, w)
    ]

-- A counter that starts within its limit stays within it, whatever calls of the meter are made, with
-- whatever amounts, unless a call gives a one-time limit for that counter or charges it after the
-- fact. The limits themselves do not change.
pub run-IsWithin :
    (s : Budgets) (calls : List Call) (c : BudgetCounter)
    → IsWithin c s
    → All (Spares c) calls
    → ((run s calls).budget_limits ≡ s.budget_limits)
      × (used (run s calls).budget_usage c ≤ limit_of s.budget_limits c)
unfolding run
run-IsWithin s [] c w spared = (refl, w)
run-IsWithin s (call ∷ calls) c w (here, later) =
    let (same, within) = perform-Keeps s call c here w in
    let (limits, bound) = run-IsWithin (perform s call) calls c within later in
    (
      limits ∙ same,
      subst (λ l. used (run (perform s call) calls).budget_usage c ≤ limit_of l c) same bound,
    )
