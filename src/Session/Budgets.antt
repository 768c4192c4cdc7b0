-- ===== src/Session/Budgets.antt =====
-- src/session/budgets.ts, with the budgets of src/session/types.ts. `BudgetMeter` wraps the session
-- state: here each method takes the budgets and returns the new ones.
pub mod Metering
pub mod PostHoc
pub mod Within
mod Tests
use mathlib.Core.Option.{get_or}
use cope_code.Common.{
  ℕ, ◌+◌, ◌-◌, ◌≡◌, Bool, true, false, not, ◌&&◌, ◌||◌, Option, none, some, List, [], ◌∷◌, ◌++◌,
  Result, ok, err, ErrorCode, internal_error, recovery_required, budget_exceeded, if◌then◌else◌,
  fail_if, ◌>>=◌, ◌>>◌, ltb, leb, Number, nat, other, max_safe, safe_natural,
}

pub data BudgetCounter : Type 0 where
  turns operations read_files disclosed_bytes changed_files changed_lines : BudgetCounter
  commands command_output_bytes protocol_repairs : BudgetCounter

pub record BudgetLimits : Type 0 where
  pub max_turns : ℕ
  pub max_operations : ℕ
  pub max_elapsed_ms : ℕ
  pub max_read_files : ℕ
  pub max_disclosed_bytes : ℕ
  pub max_changed_files : ℕ
  pub max_changed_lines : ℕ
  pub max_commands : ℕ
  pub max_command_output_bytes : ℕ
  pub max_protocol_repairs : ℕ

pub record BudgetUsage : Type 0 where
  pub turns : ℕ
  pub operations : ℕ
  pub read_files : ℕ
  pub disclosed_bytes : ℕ
  pub changed_files : ℕ
  pub changed_lines : ℕ
  pub commands : ℕ
  pub command_output_bytes : ℕ
  pub protocol_repairs : ℕ

-- The part of `SessionState` that the meter reads and writes; `started_at` is what `Date.parse` makes
-- of the text, `none` for NaN.
pub record Budgets : Type 0 where
  pub budget_limits : BudgetLimits
  pub budget_usage : BudgetUsage
  pub started_at : Option ℕ

-- `limits[counterToLimit[counter]]`.
unfoldable pub limit_of : BudgetLimits → BudgetCounter → ℕ
limit_of l turns = l.max_turns
limit_of l operations = l.max_operations
limit_of l read_files = l.max_read_files
limit_of l disclosed_bytes = l.max_disclosed_bytes
limit_of l changed_files = l.max_changed_files
limit_of l changed_lines = l.max_changed_lines
limit_of l commands = l.max_commands
limit_of l command_output_bytes = l.max_command_output_bytes
limit_of l protocol_repairs = l.max_protocol_repairs

-- `usage[counter]`, and `{ ...usage, [counter]: n }`.
unfoldable pub used : BudgetUsage → BudgetCounter → ℕ
used u turns = u.turns
used u operations = u.operations
used u read_files = u.read_files
used u disclosed_bytes = u.disclosed_bytes
used u changed_files = u.changed_files
used u changed_lines = u.changed_lines
used u commands = u.commands
used u command_output_bytes = u.command_output_bytes
used u protocol_repairs = u.protocol_repairs

unfoldable pub with_used : BudgetUsage → BudgetCounter → ℕ → BudgetUsage
with_used u turns n = record u { turns = n }
with_used u operations n = record u { operations = n }
with_used u read_files n = record u { read_files = n }
with_used u disclosed_bytes n = record u { disclosed_bytes = n }
with_used u changed_files n = record u { changed_files = n }
with_used u changed_lines n = record u { changed_lines = n }
with_used u commands n = record u { commands = n }
with_used u command_output_bytes n = record u { command_output_bytes = n }
with_used u protocol_repairs n = record u { protocol_repairs = n }

unfoldable pub assert_time : Budgets → ℕ → Result (Unit {0})
assert_time s now_ms = elim s.started_at [
  | none ↦ err recovery_required
  | some start ↦ do
    fail_if (ltb now_ms start) recovery_required
    fail_if (ltb s.budget_limits.max_elapsed_ms (now_ms - start)) budget_exceeded
]

-- A one-time limit replaces the persisted one, and may not be below it.
unfoldable pub effective_limit : ℕ → Option Number → Result ℕ
unfolding safe_natural
effective_limit persisted none = ok persisted
effective_limit persisted (some one_time) = elim (safe_natural one_time) [
  | none ↦ err internal_error
  | some n ↦ if ltb n persisted then err internal_error else ok n
]

unfoldable pub natural_or : Number → ErrorCode → Result ℕ
unfolding safe_natural
natural_or amount e = elim (safe_natural amount) [ none ↦ err e | some n ↦ ok n ]

-- The amount, once the guards have passed.
unfoldable pub assert_can_consume : Budgets → BudgetCounter → Number → Option Number → Result ℕ
unfolding natural_or effective_limit
assert_can_consume s counter amount one_time = do
  n ← natural_or amount internal_error
  limit ← effective_limit (limit_of s.budget_limits counter) one_time
  fail_if (ltb limit (used s.budget_usage counter + n)) budget_exceeded
  ok n

unfoldable pub consume : Budgets → BudgetCounter → Number → Option Number → Result Budgets
unfolding assert_can_consume
consume s counter amount one_time = do
  n ← assert_can_consume s counter amount one_time
  ok (record s {
    budget_usage = with_used s.budget_usage counter (used s.budget_usage counter + n);
  })

unfoldable pub refund : Budgets → BudgetCounter → Number → Result Budgets
unfolding natural_or
refund s counter amount = do
  n ← natural_or amount internal_error
  fail_if (ltb (used s.budget_usage counter) n) internal_error
  ok (record s {
    budget_usage = with_used s.budget_usage counter (used s.budget_usage counter - n);
  })

-- `limits[...] - usage[...]`, a negative number where the usage is above the limit.
pub data Remaining : Type 0 where
  left over : ℕ → Remaining

unfoldable pub remaining : Budgets → BudgetCounter → Remaining
remaining s counter =
    if leb (used s.budget_usage counter) (limit_of s.budget_limits counter)
    then left (limit_of s.budget_limits counter - used s.budget_usage counter)
    else over (used s.budget_usage counter - limit_of s.budget_limits counter)
