-- ===== src/Indexer/Planner/Cover.antt =====
-- What the planner of packages/backend/src/indexer/range-planner.ts covers.
use strategy_builder_v.Prelude.{
  ℕ, zero, suc, ◌+◌, ◌-◌, ◌≤◌, ◌<◌, min, ◌≡◌, refl, ap, ◌∙◌, inl, inr, List, append-nil, arith, leb,
  ltb, Bool-cases, flat_map, interval, interval_join, All, false,
}
use strategy_builder_v.Prelude.Result.{ok}
use strategy_builder_v.Indexer.Planner.{BlockRange, value, windows, plan_from, plan, halve}

-- The blocks of a window, in order.
abbrev pub blocks : BlockRange → List ℕ
blocks r = interval r.from (r.to + 1 - r.from)

abbrev pub FitsIn : ℕ → BlockRange → Type 0
FitsIn max_range r = (r.from ≤ r.to) × (r.to + 1 ≤ r.from + max_range)

windows_cover :
    (fuel start safe m : ℕ)
    → 0 < m
    → start ≤ safe + 1
    → safe + 1 - start ≤ fuel
    → flat_map blocks (windows fuel start safe m) ≡ interval start (safe + 1 - start)
unfolding windows
windows_cover zero start safe m pos lo enough = let e : safe + 1 - start ≡ 0 = omega arith in rw e
windows_cover (suc f) start safe m pos lo enough = elim (Bool-cases (leb start safe)) [
  | inl more ↦
      let ih =
        windows_cover f (min (start + m - 1) safe + 1) safe m pos (ground arith) (ground arith) in
      rw (more, ih) (interval_join start _ _ _ _ (ground arith) (ground arith))
  | inr done ↦ let e : safe + 1 - start ≡ 0 = ground arith in rw (done, e)
]

windows-FitsIn : (fuel start safe m : ℕ) → 0 < m → All (FitsIn m) (windows fuel start safe m)
unfolding windows
windows-FitsIn zero start safe m pos = tt
windows-FitsIn (suc f) start safe m pos = elim (Bool-cases (leb start safe)) [
  | inl more ↦
      rw more
        ((ground arith, ground arith), windows-FitsIn f (min (start + m - 1) safe + 1) safe m pos)
  | inr done ↦ rw done tt
]

plan_from_covers :
    (head cursor m c : ℕ)
    → 0 < m
    → (flat_map blocks (plan_from head cursor m c) ≡ interval (cursor + 1) (head - c - cursor))
      × All (FitsIn m) (plan_from head cursor m c)
unfolding plan_from
plan_from_covers head cursor m c pos = elim (Bool-cases (ltb (head - c) (cursor + 1))) [
  | inl nothing ↦ let e : head - c - cursor ≡ 0 = ground arith in rw (nothing, e) (refl, tt)
  | inr some_left ↦
      let e : head - c + 1 - (cursor + 1) ≡ head - c - cursor = omega arith in
      rw some_left (
        windows_cover (head - c - cursor) (cursor + 1) (head - c) m pos (ground arith) (omega arith)
            ∙ ap (interval (cursor + 1)) e,
        windows-FitsIn (head - c - cursor) (cursor + 1) (head - c) m pos,
      )
]

-- A plan that is made covers exactly the blocks after the cursor up to `head - confirmations`, in
-- order and each once, in windows that are not empty and hold at most `max_range` blocks.
pub plan_covers :
    (head cursor m c : ℕ) {rs : List BlockRange}
    → plan head cursor (value m) (value c) ≡ ok rs
    → (flat_map blocks rs ≡ interval (cursor + 1) (head - c - cursor)) × All (FitsIn m) rs
unfolding plan
plan_covers head cursor zero c h = cc
plan_covers head cursor (suc m) c {rs} h =
    let e : plan_from head cursor (suc m) c ≡ rs = cc in
    rw (← e) (plan_from_covers head cursor (suc m) c (omega arith))

-- Halving a window of more than one block gives windows that are not empty, are shorter, and hold
-- its blocks in order and each once.
pub halve_splits :
    (r : BlockRange)
    → r.from < r.to
    → (flat_map blocks (halve r) ≡ blocks r)
      × All (λ h. (h.from ≤ h.to) × (h.to - h.from < r.to - r.from)) (halve r)
unfolding halve
halve_splits r h =
    let wide : leb r.to r.from ≡ false = ground arith in
    rw wide (
      rw append-nil (interval_join _ _ _ _ _ (omega arith) (omega arith)),
      ((omega arith, omega arith), ((omega arith, omega arith), tt)),
    )

pub halve_within :
    (r : BlockRange) → r.from ≤ r.to → All (λ h. (r.from ≤ h.from) × (h.to ≤ r.to)) (halve r)
unfolding halve
halve_within r h = elim (Bool-cases (leb r.to r.from)) [
  | inl single ↦ rw single ((omega arith, omega arith), tt)
  | inr wide ↦ rw wide ((omega arith, omega arith), ((omega arith, omega arith), tt))
]
