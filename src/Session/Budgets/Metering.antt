-- ===== src/Session/Budgets/Metering.antt =====
-- Consuming and refunding a budget.
use cope_code.Common.{
  ℕ, ◌+◌, ◌-◌, ◌≤◌, ◌≡◌, refl, ◌≢◌, ◌↔◌, Option, none, some, ok, ErrorCode, internal_error, arith,
  >>=-eq-ok, Number, nat, other, max_safe,
}
use cope_code.Session.Budgets.{
  BudgetCounter, BudgetUsage, Budgets, limit_of, used, with_used, consume, refund, turns,
  effective_limit, natural_or, assert_can_consume,
}

pub used-with_used_self :
    (u : BudgetUsage) (c : BudgetCounter) (n : ℕ) → used (with_used u c n) c ≡ n
unfolding used with_used
used-with_used_self u turns n = refl
used-with_used_self u _ n = refl

pub used-with_used_ne :
    (u : BudgetUsage) (c d : BudgetCounter) (n : ℕ) → c ≢ d → used (with_used u c n) d ≡ used u d
unfolding used with_used
used-with_used_ne u c d n h = ground arith

with_used-with_used :
    (u : BudgetUsage) (c : BudgetCounter) (m : ℕ) → with_used (with_used u c m) c (used u c) ≡ u
unfolding used with_used
with_used-with_used u turns m = refl
with_used-with_used u _ m = refl

pub natural_or-ok :
    (amount : Number) (e : ErrorCode) (n : ℕ)
    → natural_or amount e ≡ ok n
    → (amount ≡ nat n) × (n ≤ max_safe)
unfolding natural_or
natural_or-ok (nat m) e n h = ground arith
natural_or-ok other e n h = cc

pub natural_or-nat : (n : ℕ) (e : ErrorCode) → n ≤ max_safe → natural_or (nat n) e ≡ ok n
unfolding natural_or
natural_or-nat n e h = ground arith

-- The limit in force: the persisted one, or a one-time limit that is not below it.
abbrev pub LimitIs : ℕ → Option Number → ℕ → Type 0
LimitIs persisted none limit = limit ≡ persisted
LimitIs persisted (some one_time) limit =
    (one_time ≡ nat limit) × (limit ≤ max_safe) × (persisted ≤ limit)

pub effective_limit-ok :
    (persisted : ℕ) (one_time : Option Number) (limit : ℕ)
    → effective_limit persisted one_time ≡ ok limit
    → LimitIs persisted one_time limit
unfolding effective_limit
effective_limit-ok p none limit h = ground arith
effective_limit-ok p (some (nat m)) limit h = ground arith
effective_limit-ok p (some other) limit h = cc

pub effective_limit-LimitIs :
    (persisted : ℕ) (one_time : Option Number) (limit : ℕ)
    → LimitIs persisted one_time limit
    → effective_limit persisted one_time ≡ ok limit
unfolding effective_limit
effective_limit-LimitIs p none limit h = ground arith
effective_limit-LimitIs p (some (nat m)) limit (same, safe, above) = ground arith
effective_limit-LimitIs p (some other) limit h = cc

-- `s` with the counter moved to `n`.
abbrev pub moved : Budgets → BudgetCounter → ℕ → Budgets
moved s c n = record s { budget_usage = with_used s.budget_usage c n }

-- What a consumption of `amount` does, as a specification.
abbrev pub Consumes : Budgets → BudgetCounter → Number → Option Number → Budgets → Type 0
Consumes s c amount one_time t =
    (n limit : ℕ) × (amount ≡ nat n)
    × (n ≤ max_safe)
    × LimitIs (limit_of s.budget_limits c) one_time limit
    × (used s.budget_usage c + n ≤ limit)
    × (t ≡ moved s c (used s.budget_usage c + n))

pub consume-Consumes :
    (s : Budgets) (c : BudgetCounter) (amount : Number) (one_time : Option Number) (t : Budgets)
    → consume s c amount one_time ≡ ok t
    → Consumes s c amount one_time t
unfolding consume assert_can_consume
consume-Consumes s c amount one_time t h =
    let (n', counted, moves) = >>=-eq-ok (assert_can_consume s c amount one_time) _ h in
    let (n, isnat, h1) = >>=-eq-ok (natural_or amount internal_error) _ counted in
    let (limit, islimit, h2) =
      >>=-eq-ok (effective_limit (limit_of s.budget_limits c) one_time) _ h1 in
    let (value, safe) = natural_or-ok amount internal_error n isnat in
    (n, limit, value, safe, effective_limit-ok _ one_time limit islimit, ground arith, ground arith)

Consumes-consume :
    (s : Budgets) (c : BudgetCounter) (amount : Number) (one_time : Option Number) (t : Budgets)
    → Consumes s c amount one_time t
    → consume s c amount one_time ≡ ok t
unfolding consume assert_can_consume
Consumes-consume s c amount one_time t (n, limit, value, safe, lim, fits, same) =
    rw (value, natural_or-nat n internal_error safe, effective_limit-LimitIs _ one_time limit lim)
      (ground arith)

-- A consumption succeeds exactly when the amount is a safe natural number, the one-time limit, if
-- there is one, is a safe number not below the persisted limit, and usage and amount fit the limit
-- in force; then the counter grows by the amount and nothing else changes.
pub consume_iff :
    (s : Budgets) (c : BudgetCounter) (amount : Number) (one_time : Option Number) (t : Budgets)
    → (consume s c amount one_time ≡ ok t) ↔ Consumes s c amount one_time t
consume_iff s c amount one_time t =
    (consume-Consumes s c amount one_time t, Consumes-consume s c amount one_time t)

pub refund-ok :
    (s : Budgets) (c : BudgetCounter) (amount : Number) (t : Budgets)
    → refund s c amount ≡ ok t
    → (n : ℕ) × (amount ≡ nat n)
      × (n ≤ used s.budget_usage c)
      × (t ≡ moved s c (used s.budget_usage c - n))
unfolding refund
refund-ok s c amount t h =
    let (n, isnat, h1) = >>=-eq-ok (natural_or amount internal_error) _ h in
    (n, (natural_or-ok amount internal_error n isnat).0, ground arith, ground arith)

-- A refund undoes the consumption of the same amount.
pub refund-consume :
    (s : Budgets) (c : BudgetCounter) (amount : Number) (one_time : Option Number) (t : Budgets)
    → consume s c amount one_time ≡ ok t
    → refund t c amount ≡ ok s
unfolding refund
refund-consume s c amount one_time t h =
    let (n, limit, value, safe, _, _, same) = consume-Consumes s c amount one_time t h in
    let back : used s.budget_usage c + n - n ≡ used s.budget_usage c = omega arith in
    rw
      (
        value,
        same,
        natural_or-nat n internal_error safe,
        used-with_used_self s.budget_usage c (used s.budget_usage c + n),
      )
      (rw (back, with_used-with_used s.budget_usage c (used s.budget_usage c + n)) (ground arith))
