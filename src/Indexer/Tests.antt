-- ===== src/Indexer/Tests.antt =====
-- Runs of packages/backend/src/indexer, and the theorems at concrete inputs.
use strategy_builder_v.Prelude.{
  ℕ, String, List, [], ◌∷◌, ◌≡◌, refl, flat_map, interval, All, arith, leb, if◌then◌else◌, ◌-◌, ◌+◌,
}
use strategy_builder_v.Prelude.Result.{ok, err}
use strategy_builder_v.Prelude.Exec.{Exec}
use strategy_builder_v.Indexer.Planner.{
  BlockRange, value, negative, max_range_too_small, plan, halve,
}
use strategy_builder_v.Indexer.Planner.Cover.{blocks, FitsIn, plan_covers}
use strategy_builder_v.Indexer.Fetch.{fetch_logs}
use strategy_builder_v.Indexer.Fetch.Complete.{
  Outcome, fetch_logs_complete, fetch_logs_succeeds, FailsIn,
}

abbrev three_windows : List BlockRange
three_windows =
    record { from = 11; to = 14 }
    ∷ record { from = 15; to = 18 }
    ∷ record { from = 19; to = 20 }
    ∷ []

plan_runs : plan 25 10 (value 4) (value 5) ≡ ok three_windows
unfolding plan
plan_runs = refl

plan_rejects : plan 25 10 (negative 0) (value 5) ≡ err max_range_too_small
unfolding plan
plan_rejects = refl

plan_covers_example :
    (flat_map blocks three_windows ≡ interval 11 10) × All (FitsIn 4) three_windows
plan_covers_example = plan_covers 25 10 4 5 plan_runs

abbrev five : BlockRange
five = record { from = 3; to = 7 }

-- A node that answers for at most two blocks at a time, and counts the calls. Each block has one
-- log, which is its number.
picky : BlockRange → Exec ℕ String (List ℕ)
picky r calls = (
  if leb (r.to - r.from) 1 then ok (flat_map (λ b. b ∷ []) (blocks r)) else err "limit exceeded",
  calls + 1,
)

picky_answers :
    (r : BlockRange) (w w' : ℕ) (logs : List ℕ)
    → picky r w ≡ (ok logs, w')
    → logs ≡ flat_map (λ b. b ∷ []) (blocks r)
unfolding picky
picky_answers r w w' logs h = ground arith

picky_never_fails : (r : BlockRange) (e : String) → ¬ FailsIn picky r e
unfolding picky
picky_never_fails r e (b, w, _, _, h) = ground arith

fetch_runs : fetch_logs picky five 0 ≡ (ok (3 ∷ 4 ∷ 5 ∷ 6 ∷ 7 ∷ []), 5)
unfolding fetch_logs picky halve
fetch_runs = refl

fetch_logs_complete_example : Outcome picky (λ b. b ∷ []) five (fetch_logs picky five 0).0
fetch_logs_complete_example =
    fetch_logs_complete picky (λ b. b ∷ []) picky_answers five 0 (omega arith)

fetch_logs_succeeds_example : (fetch_logs picky five 0).0 ≡ ok (3 ∷ 4 ∷ 5 ∷ 6 ∷ 7 ∷ [])
fetch_logs_succeeds_example =
    fetch_logs_succeeds picky (λ b. b ∷ []) picky_answers five 0 (omega arith)
      (picky_never_fails five)
