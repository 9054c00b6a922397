-- ===== src/Indexer/Planner.antt =====
-- packages/backend/src/indexer/range-planner.ts: the block windows of one indexer pass.
pub mod Cover
pub mod Chained
use strategy_builder_v.Prelude.{
  ℕ, zero, suc, ◌+◌, ◌-◌, ◌/◌, ◌≤◌, ◌<◌, min, ◌≡◌, refl, Bool, List, [], ◌∷◌, arith, ltb, leb,
  if◌then◌else◌,
}
use strategy_builder_v.Prelude.Result.{Result, ok, err}

pub record BlockRange : Type 0 where
  pub from : ℕ
  pub to : ℕ

-- The two configuration values are read by `Number(…)` and may be negative: `negative n` is -(n + 1).
pub data Setting : Type 0 where
  value : ℕ → Setting
  negative : ℕ → Setting

pub data PlanError : Type 0 where
  max_range_too_small negative_confirmations : PlanError

-- The loop of `plan`, on fuel: one unit for each block that is left to scan.
unfoldable pub windows : (fuel start safe_head max_range : ℕ) → List BlockRange
windows zero start safe_head max_range = []
windows (suc fuel) start safe_head max_range =
    let end = min (start + max_range - 1) safe_head in
    let rest = windows fuel (end + 1) safe_head max_range in
    if leb start safe_head then record { from = start; to = end } ∷ rest else []

-- `head - confirmations` below zero is below every start, as 0 is.
plan_from : (head cursor max_range confirmations : ℕ) → List BlockRange
unfolding windows
plan_from head cursor max_range confirmations =
    let safe_head = head - confirmations in
    let from = cursor + 1 in
    if ltb safe_head from then [] else windows (safe_head - cursor) from safe_head max_range

unfoldable pub plan : ℕ → ℕ → Setting → Setting → Result PlanError (List BlockRange)
unfolding plan_from
plan head cursor (negative _) _ = err max_range_too_small
plan head cursor (value zero) _ = err max_range_too_small
plan head cursor (value (suc m)) (negative _) = err negative_confirmations
plan head cursor (value (suc m)) (value c) = ok (plan_from head cursor (suc m) c)

unfoldable pub halve : BlockRange → List BlockRange
halve range =
    let mid = (range.from + range.to) / 2 in
    if leb range.to range.from
    then range ∷ []
    else record { from = range.from; to = mid } ∷ record { from = mid + 1; to = range.to } ∷ []
