-- ===== src/Repository/LineDiff/Hunks.antt =====
-- diffHunks: the changes of a diff with lines of context.
use cope_code.Common.{
  ℕ, suc, ◌+◌, ◌-◌, min, max, Bool, true, false, List, [], ◌∷◌, map, if◌then◌else◌, leb, length,
  select, take, drop,
}
use cope_code.Repository.LineDiff.{Change, equal, delete, add, DiffOperation}

pub record PositionedOperation : Type 0 where
  pub operation : DiffOperation
  pub old_line : ℕ
  pub new_line : ℕ

abbrev pub is_change : Change → Bool
is_change equal = false
is_change delete = true
is_change add = true

abbrev pub is_old : Change → Bool
is_old equal = true
is_old delete = true
is_old add = false

abbrev pub is_new : Change → Bool
is_new equal = true
is_new delete = false
is_new add = true

unfoldable pub positioned_from : ℕ → ℕ → List DiffOperation → List PositionedOperation
positioned_from old_line new_line [] = []
positioned_from old_line new_line (o ∷ os) =
    record { operation = o; old_line = old_line; new_line = new_line }
    ∷ positioned_from (if is_old o.kind then suc old_line else old_line)
        (if is_new o.kind then suc new_line else new_line) os

pub record Range : Type 0 where
  pub start : ℕ
  pub end : ℕ

abbrev pub range_at : ℕ → ℕ → ℕ → Range
range_at context total index = record {
  start = index - context;
  end = min (total - 1) (index + context);
}

abbrev pub touches : Range → Range → Bool
touches prior next = leb next.start (prior.end + 1)

abbrev pub widened : Range → Range → Range
widened prior next = record { start = prior.start; end = max prior.end next.end }

-- The loop over the operations. The last range of the list is kept apart, since it may grow.
unfoldable pub ranges_after : ℕ → ℕ → Range → ℕ → List DiffOperation → List Range
ranges_after context total prior index [] = prior ∷ []
ranges_after context total prior index (o ∷ os) =
    let next = range_at context total index in
    let same = ranges_after context total prior (suc index) os in
    let wider = ranges_after context total (widened prior next) (suc index) os in
    let new = ranges_after context total next (suc index) os in
    if is_change o.kind then (if touches prior next then wider else prior ∷ new) else same

unfoldable pub ranges_from : ℕ → ℕ → ℕ → List DiffOperation → List Range
unfolding ranges_after
ranges_from context total index [] = []
ranges_from context total index (o ∷ os) =
    let later = ranges_from context total (suc index) os in
    if is_change o.kind
    then ranges_after context total (range_at context total index) (suc index) os
    else later

pub record Hunk : Type 0 where
  pub old_start : ℕ
  pub old_count : ℕ
  pub new_start : ℕ
  pub new_count : ℕ
  pub operations : List PositionedOperation

-- `oldItems[0]?.oldLine ?? Math.max(0, (first?.oldLine ?? 1) - 1)`
abbrev line_before : (PositionedOperation → ℕ) → List PositionedOperation → ℕ
line_before line [] = 0
line_before line (first ∷ items) = line first - 1

abbrev start_of :
    (PositionedOperation → ℕ) → List PositionedOperation → List PositionedOperation → ℕ
start_of line items [] = line_before line items
start_of line items (o ∷ os) = line o

unfoldable pub hunk_of : List PositionedOperation → Range → Hunk
unfolding take drop select
hunk_of positioned range =
    let items = take (suc range.end - range.start) (drop range.start positioned) in
    let olds = select (λ o. is_old o.operation.kind) items in
    let news = select (λ o. is_new o.operation.kind) items in
    record {
      old_start = start_of (λ o. o.old_line) items olds;
      old_count = length olds;
      new_start = start_of (λ o. o.new_line) items news;
      new_count = length news;
      operations = items;
    }

unfoldable pub diff_hunks : List DiffOperation → ℕ → List Hunk
unfolding ranges_from hunk_of positioned_from
diff_hunks operations context =
    map (hunk_of (positioned_from 1 1 operations))
      (ranges_from context (length operations) 0 operations)

-- The kind of the operation at an index.
unfoldable pub change_at : ℕ → List DiffOperation → Bool
change_at index [] = false
change_at ℕ.zero (o ∷ os) = is_change o.kind
change_at (ℕ.suc index) (o ∷ os) = change_at index os
