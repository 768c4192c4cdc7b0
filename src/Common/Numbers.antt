-- ===== src/Common/Numbers.antt =====
-- JavaScript numbers as the guards of the source tell them apart.
use Prim.Native.Nat.{ℕ}
use mathlib.Core.Bool.{true, false}
use mathlib.Core.Option.{Option, none, some}
use cope_code.Common.Tests.{leb}

-- `other`: a negative, fractional, infinite or undefined number.
pub data Number : Type 0 where
  nat : ℕ → Number
  other : Number

-- `Number.MAX_SAFE_INTEGER`, 2 ^ 53 - 1.
abbrev pub max_safe : ℕ
max_safe = 9_007_199_254_740_991

-- The value where `Number.isSafeInteger(n) && n >= 0`.
unfoldable pub safe_natural : Number → Option ℕ
safe_natural (nat n) = elim (leb n max_safe) [ true ↦ some n | false ↦ none ]
safe_natural other = none
