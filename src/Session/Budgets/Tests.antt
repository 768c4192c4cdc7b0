-- ===== src/Session/Budgets/Tests.antt =====
-- A meter, tried on examples.
use cope_code.Common.{
  All, inl, inr, ◌≢◌, ℕ, ◌≡◌, refl, ◌↔◌, ◌≤◌, none, some, List, [], ◌∷◌, ok, arith, nat,
}
use cope_code.Session.Budgets.{
  with_used, turns, operations, BudgetLimits, BudgetUsage, Budgets, consume, limit_of, used,
}
use cope_code.Session.Budgets.Metering.{Consumes, consume_iff}
use cope_code.Session.Budgets.Within.{Call, consumes, refunds, charges, Spares, run, run-IsWithin}
use cope_code.Session.Budgets.PostHoc.{PostHocCounter, files, lines, output, PerCounter, counter_of}

abbrev limits : BudgetLimits
limits = record {
  max_turns = 5;
  max_operations = 10;
  max_elapsed_ms = 1000;
  max_read_files = 20;
  max_disclosed_bytes = 4096;
  max_changed_files = 3;
  max_changed_lines = 40;
  max_commands = 2;
  max_command_output_bytes = 100;
  max_protocol_repairs = 1;
}

abbrev usage : ℕ → BudgetUsage
usage n = record {
  turns = n;
  operations = 0;
  read_files = 0;
  disclosed_bytes = 0;
  changed_files = 1;
  changed_lines = 30;
  commands = 0;
  command_output_bytes = 0;
  protocol_repairs = 0;
}

abbrev budgets_at : ℕ → Budgets
budgets_at n = record { budget_limits = limits; budget_usage = usage n; started_at = some 7 }

consume_iff_example :
    (consume (budgets_at 3) turns (nat 2) none ≡ ok (budgets_at 5))
    ↔ Consumes (budgets_at 3) turns (nat 2) none (budgets_at 5)
consume_iff_example = consume_iff (budgets_at 3) turns (nat 2) none (budgets_at 5)

consumed : consume (budgets_at 3) turns (nat 2) none ≡ ok (budgets_at 5)
unfolding consume limit_of used with_used
consumed = refl

abbrev charge : PerCounter
charge files = some (nat 1)
charge lines = some (nat 25)
charge output = none

abbrev amounts : PostHocCounter → ℕ
amounts files = 1
amounts lines = 25
amounts output = 0

abbrev one_time : PerCounter
one_time lines = some (nat 50)
one_time _ = none

abbrev in_force : PostHocCounter → ℕ
in_force files = 3
in_force lines = 50
in_force output = 100

-- With a post-hoc charge and a one-time limit on other counters.
abbrev calls : List Call
calls =
    consumes turns (nat 2) none
    ∷ consumes turns (nat 1) none
    ∷ refunds turns (nat 4)
    ∷ consumes operations (nat 11) (some (nat 20))
    ∷ charges charge one_time
    ∷ []

turns_spared : All (Spares turns) calls
turns_spared = (inl refl, (inl refl, (tt, (inr (λ h. cc h), ((λ k. not_charged k), tt)))))
  where
    not_charged : (k : PostHocCounter) → turns ≢ counter_of k
    not_charged files h = cc h
    not_charged lines h = cc h
    not_charged output h = cc h

run-IsWithin_example :
    ((run (budgets_at 3) calls).budget_limits ≡ (budgets_at 3).budget_limits)
    × (used (run (budgets_at 3) calls).budget_usage turns ≤ limit_of limits turns)
unfolding used limit_of
run-IsWithin_example = run-IsWithin (budgets_at 3) calls turns (omega arith) turns_spared
