-- ===== src/Session/Budgets/PostHoc.antt =====
-- `applyPostHoc` of src/session/budgets.ts: facts that are known only after a terminal operation.
use mathlib.Core.Option.{get_or}
use cope_code.Common.{
  ℕ, ◌+◌, Option, List, [], ◌∷◌, ◌++◌, Result, ok, internal_error, ltb, leb, if◌then◌else◌, Number,
  nat, max_safe, ◌>>=◌,
}
use cope_code.Session.Budgets.{
  BudgetCounter, BudgetLimits, BudgetUsage, Budgets, limit_of, used, with_used, changed_files,
  changed_lines, command_output_bytes, natural_or, effective_limit,
}

pub data PostHocCounter : Type 0 where
  files lines output : PostHocCounter

abbrev pub counter_of : PostHocCounter → BudgetCounter
counter_of files = changed_files
counter_of lines = changed_lines
counter_of output = command_output_bytes

-- `PostHocBudgetCharge`, and the one-time limits, by counter.
abbrev pub PerCounter : Type 0
PerCounter = PostHocCounter → Option Number

pub record Exceeded : Type 0 where
  pub counter : PostHocCounter
  pub previous : ℕ
  pub charged : ℕ
  pub actual : ℕ
  pub persisted_limit : ℕ
  pub effective_limit : ℕ

unfoldable pub saturating_add : ℕ → ℕ → ℕ
saturating_add a b = if leb (a + b) max_safe then a + b else max_safe

-- What the loop carries: `next` and `exceeded`.
pub record Tally : Type 0 where
  pub next : BudgetUsage
  pub exceeded : List Exceeded

-- One round of the loop over the counters.
unfoldable pub charge_one :
    BudgetLimits → PerCounter → PerCounter → PostHocCounter → Tally → Result Tally
charge_one limits charge one_time counter tally = do
  amount ← natural_or (get_or (charge counter) (nat 0)) internal_error
  limit ← effective_limit (limit_of limits (counter_of counter)) (one_time counter)
  let previous = used tally.next (counter_of counter)
  let actual = saturating_add previous amount
  ok (record {
    next = with_used tally.next (counter_of counter) actual;
    exceeded =
        if ltb limit actual
        then tally.exceeded
          ++ record {
            counter = counter;
            previous = previous;
            charged = amount;
            actual = actual;
            persisted_limit = limit_of limits (counter_of counter);
            effective_limit = limit;
          }
            ∷ []
        else tally.exceeded;
  })

unfoldable pub apply_post_hoc : Budgets → PerCounter → PerCounter → Result (Budgets × List Exceeded)
apply_post_hoc s charge one_time = do
  a ←
      charge_one s.budget_limits charge one_time files
        (record { next = s.budget_usage; exceeded = [] })
  b ← charge_one s.budget_limits charge one_time lines a
  c ← charge_one s.budget_limits charge one_time output b
  ok (record s { budget_usage = c.next }, c.exceeded)

-- The same facts without the loop: each counter's saturated sum, and its entry if it is over.
abbrev pub sum_of : Budgets → (PostHocCounter → ℕ) → PostHocCounter → ℕ
sum_of s n k = saturating_add (used s.budget_usage (counter_of k)) (n k)

abbrev pub entry :
    Budgets → (PostHocCounter → ℕ) → (PostHocCounter → ℕ) → PostHocCounter → List Exceeded
entry s n limit k =
    if ltb (limit k) (sum_of s n k)
    then record {
      counter = k;
      previous = used s.budget_usage (counter_of k);
      charged = n k;
      actual = sum_of s n k;
      persisted_limit = limit_of s.budget_limits (counter_of k);
      effective_limit = limit k;
    }
      ∷ []
    else []

abbrev pub charged : Budgets → (PostHocCounter → ℕ) → Budgets
charged s n = record s {
  budget_usage = record s.budget_usage {
    changed_files = sum_of s n files;
    changed_lines = sum_of s n lines;
    command_output_bytes = sum_of s n output;
  };
}
