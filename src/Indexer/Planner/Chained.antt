-- ===== src/Indexer/Planner/Chained.antt =====
-- The windows of a plan follow on each other.
use strategy_builder_v.Prelude.{
  ℕ, zero, suc, ◌+◌, ◌-◌, ◌≤◌, ◌<◌, min, List, [], ◌∷◌, ◌≡◌, refl, arith, leb, ltb, Bool-cases, inl,
  inr, subst,
}
use strategy_builder_v.Prelude.Result.{ok}
use strategy_builder_v.Indexer.Planner.{
  BlockRange, Setting, value, negative, windows, plan_from, plan,
}

-- The first starts at the block, and each starts where the one before it has ended.
abbrev pub IsChained : ℕ → List BlockRange → Type 0
IsChained start [] = Unit
IsChained start (r ∷ rs) = (r.from ≡ start) × (r.from ≤ r.to) × IsChained (r.to + 1) rs

windows-IsChained : (fuel start safe m : ℕ) → 0 < m → IsChained start (windows fuel start safe m)
unfolding windows
windows-IsChained zero start safe m pos = tt
windows-IsChained (suc f) start safe m pos = elim (Bool-cases (leb start safe)) [
  | inl more ↦
      rw more (refl, ground arith, windows-IsChained f (min (start + m - 1) safe + 1) safe m pos)
  | inr done ↦ rw done tt
]

plan_from-IsChained :
    (head cursor m c : ℕ) → 0 < m → IsChained (cursor + 1) (plan_from head cursor m c)
unfolding plan_from
plan_from-IsChained head cursor m c pos = elim (Bool-cases (ltb (head - c) (cursor + 1))) [
  | inl nothing ↦ rw nothing tt
  | inr some_left ↦
      rw some_left (windows-IsChained (head - c - cursor) (cursor + 1) (head - c) m pos)
]

pub plan-IsChained :
    (head cursor : ℕ) (m c : Setting) (rs : List BlockRange)
    → plan head cursor m c ≡ ok rs
    → IsChained (cursor + 1) rs
unfolding plan
plan-IsChained head cursor (negative n) c rs h = absurd (cc)
plan-IsChained head cursor (value zero) c rs h = absurd (cc)
plan-IsChained head cursor (value (suc m)) (negative n) rs h = absurd (cc)
plan-IsChained head cursor (value (suc m)) (value c) rs h =
    subst (IsChained (cursor + 1)) (cc (h))
      (plan_from-IsChained head cursor (suc m) c (omega arith))
