-- ===== src/Indexer/Fetch/Complete.antt =====
-- `fetchLogs` returns all logs of its window, and fails only where a single block cannot be read.
use strategy_builder_v.Prelude.{
  ℕ, zero, suc, ◌+◌, ◌-◌, ◌≤◌, ◌<◌, String, ◌≡◌, refl, ap, ◌∙◌, inl, inr, List, [], ◌∷◌, ◌++◌,
  arith, ltb, Bool-cases, flat_map, flat_map-append, All, if◌then◌else◌, sym, All-both, All-map,
}
use strategy_builder_v.Prelude.Result.{Result, ok, err}
use strategy_builder_v.Prelude.Exec.{◌>>=◌, caught, raise, proceed, pure, Exec}
use strategy_builder_v.Indexer.Planner.{BlockRange, halve}
use strategy_builder_v.Indexer.Planner.Cover.{blocks, halve_splits, halve_within}
use strategy_builder_v.Indexer.Fetch.{
  FetchError, rpc, out_of_fuel, each_half, fetch_on_fuel, fetch_logs, pure,
}

module _ {W Log : Type 0} (get_logs : BlockRange → Exec W String (List Log)) where
  -- A call that answers gives exactly the logs of the window, in order.
  abbrev pub Answers : (ℕ → List Log) → Type 0
  Answers chain =
      (r : BlockRange) (w w' : W) (logs : List Log)
      → get_logs r w ≡ (ok logs, w')
      → logs ≡ flat_map chain (blocks r)

  -- Some call for a single block of the window failed with `e`.
  abbrev pub FailsIn : BlockRange → String → Type 0
  FailsIn r e =
      (b : ℕ) × (w : W) × (r.from ≤ b)
      × (b ≤ r.to)
      × ((get_logs (record { from = b; to = b }) w).0 ≡ err e)

  -- What a run of `fetchLogs` on the window `r` may return.
  abbrev pub Outcome : (ℕ → List Log) → BlockRange → Result FetchError (List Log) → Type 0
  Outcome chain r (ok logs) = logs ≡ flat_map chain (blocks r)
  Outcome chain r (err (rpc e)) = FailsIn r e
  Outcome chain r (err out_of_fuel) = ⊥

  module _ (chain : ℕ → List Log) (answers : Answers chain) where
    -- The halves of `outer` are read by `fetch`, which is right on each of them.
    module _ (outer : BlockRange) (fetch : BlockRange → Exec W FetchError (List Log)) (f : ℕ)
        (ih : (h : BlockRange) (w : W)
          → h.from ≤ h.to
          → h.to - h.from < f
          → Outcome chain h (fetch h w).0) where
      abbrev Within : BlockRange → Type 0
      Within h =
          ((h.from ≤ h.to) × (h.to - h.from < f)) × ((outer.from ≤ h.from) × (h.to ≤ outer.to))

      abbrev Joined : List BlockRange → Result FetchError (List Log) → Type 0
      Joined hs (ok logs) = logs ≡ flat_map chain (flat_map blocks hs)
      Joined hs (err (rpc e)) = FailsIn outer e
      Joined hs (err out_of_fuel) = ⊥

      Joined-rest :
          (h : BlockRange) (hs : List BlockRange) (logs : List Log)
          (r : Result FetchError (List Log)) (w : W)
          → logs ≡ flat_map chain (blocks h)
          → Joined hs r
          → Joined (h ∷ hs) (proceed (λ more. pure (logs ++ more)) r w).0
      Joined-rest h hs logs (ok more) w e k =
          rw (e, k) (sym (flat_map-append chain (blocks h) (flat_map blocks hs)))
      Joined-rest h hs logs (err (rpc x)) w e k = k
      Joined-rest h hs logs (err out_of_fuel) w e k = k

      Joined-first :
          (h : BlockRange) (hs : List BlockRange) (r : Result FetchError (List Log)) (w : W)
          → Within h
          → Outcome chain h r
          → ((w' : W) → Joined hs (each_half get_logs fetch hs w').0)
          → Joined
              (h ∷ hs)
              (proceed (λ logs. each_half get_logs fetch hs >>= λ more. pure (logs ++ more)) r w).0
      Joined-first h hs (ok logs) w fits out k =
          Joined-rest h hs logs (each_half get_logs fetch hs w).0 (each_half get_logs fetch hs w).1
            out (k w)
      Joined-first h hs (err (rpc x)) w fits (b, v, lo, hi, fails) k =
          (b, v, omega arith, omega arith, fails)
      Joined-first h hs (err out_of_fuel) w fits out k = out

      each_half-Joined :
          (hs : List BlockRange) (w : W)
          → All Within hs
          → Joined hs (each_half get_logs fetch hs w).0
      unfolding each_half
      each_half-Joined [] w h = refl
      each_half-Joined (x ∷ hs) w h =
          Joined-first x hs (fetch x w).0 (fetch x w).1 h.0 (ih x w h.0.0.0 h.0.0.1)
            (λ w'. each_half-Joined hs w' h.1)

    Outcome-of_Joined :
        (r : BlockRange) (hs : List BlockRange) (f : ℕ)
        (fetch : BlockRange → Exec W FetchError (List Log))
        (ih : (h : BlockRange) (w : W)
          → h.from ≤ h.to
          → h.to - h.from < f
          → Outcome chain h (fetch h w).0)
        (x : Result FetchError (List Log))
        → flat_map blocks hs ≡ blocks r
        → Joined r fetch f ih hs x
        → Outcome chain r x
    Outcome-of_Joined r hs f fetch ih (ok logs) e k = k ∙ ap (flat_map chain) e
    Outcome-of_Joined r hs f fetch ih (err (rpc x)) e k = k
    Outcome-of_Joined r hs f fetch ih (err out_of_fuel) e k = k

    read-Outcome :
        (f : ℕ) (r : BlockRange) (w w' : W) (res : Result String (List Log))
        → ((h : BlockRange) (v : W)
            → h.from ≤ h.to
            → h.to - h.from < f
            → Outcome chain h (fetch_on_fuel get_logs f h v).0)
        → r.from ≤ r.to
        → r.to - r.from < suc f
        → get_logs r w ≡ (res, w')
        → Outcome chain r
            (caught res
              (λ e.
                if ltb r.from r.to
                then each_half get_logs (fetch_on_fuel get_logs f) (halve r)
                else raise (rpc e))
              w').0
    read-Outcome f r w w' (ok logs) ih le lt e = answers r w w' logs e
    read-Outcome f r w w' (err x) ih le lt e = elim (Bool-cases (ltb r.from r.to)) [
      | inl wide ↦
          let (same, shorter) = halve_splits r (ground arith) in
          let fits =
            All-both _ _ (halve r)
              (All-map _ (λ h. (h.from ≤ h.to) × (h.to - h.from < f)) (λ h p. (p.0, omega arith))
                (halve r) shorter)
              (halve_within r le) in
          rw wide (
            Outcome-of_Joined r (halve r) f (fetch_on_fuel get_logs f) ih _ same
              (each_half-Joined r (fetch_on_fuel get_logs f) f ih (halve r) w' fits))
      | inr single ↦
          let one : r.from ≡ r.to = ground arith in
          rw single (
            r.from,
            w,
            omega arith,
            omega arith,
            ap (λ (x : ℕ). (get_logs (record { from = r.from; to = x }) w).0) one ∙ ap (λ p. p.0) e,
          )
    ]

    fetch-Outcome :
        (f : ℕ) (r : BlockRange) (w : W)
        → r.from ≤ r.to
        → r.to - r.from < f
        → Outcome chain r (fetch_on_fuel get_logs f r w).0
    unfolding fetch_on_fuel
    fetch-Outcome zero r w le lt = absurd (omega arith)
    fetch-Outcome (suc f) r w le lt =
        read-Outcome f r w (get_logs r w).1 (get_logs r w).0 (fetch-Outcome f) le lt refl

-- A run of `fetchLogs` on a window that is not empty never exhausts the model's fuel. If it returns,
-- it has returned exactly the logs of the window's blocks, in order and each once; if it throws, the
-- thrown error is one that `getLogs` gave for a single block of the window. The condition is that a
-- call of `getLogs` that answers, gives the logs of the window that it was asked for.
pub fetch_logs_complete :
    {W Log : Type 0} (get_logs : BlockRange → Exec W String (List Log)) (chain : ℕ → List Log)
    → Answers get_logs chain
    → (r : BlockRange) (w : W) → r.from ≤ r.to
    → Outcome get_logs chain r (fetch_logs get_logs r w).0
unfolding fetch_logs
fetch_logs_complete get_logs chain answers r w le =
    fetch-Outcome get_logs chain answers (r.to - r.from + 1) r w le (omega arith)

no_failure :
    {W Log : Type 0} (get_logs : BlockRange → Exec W String (List Log)) (chain : ℕ → List Log)
    (r : BlockRange)
    → ((e : String) → ¬ FailsIn get_logs r e)
    → (x : Result FetchError (List Log)) → Outcome get_logs chain r x
    → x ≡ ok (flat_map chain (blocks r))
no_failure get_logs chain r never (ok logs) k = ap ok k
no_failure get_logs chain r never (err (rpc e)) k = absurd (never e k)
no_failure get_logs chain r never (err out_of_fuel) k = absurd k

-- If `getLogs` always answers for a single block, however often it refuses wider windows, then
-- `fetchLogs` returns, with exactly the logs of the window.
pub fetch_logs_succeeds :
    {W Log : Type 0} (get_logs : BlockRange → Exec W String (List Log)) (chain : ℕ → List Log)
    → Answers get_logs chain
    → (r : BlockRange) (w : W) → r.from ≤ r.to
    → ((e : String) → ¬ FailsIn get_logs r e)
    → (fetch_logs get_logs r w).0 ≡ ok (flat_map chain (blocks r))
fetch_logs_succeeds get_logs chain answers r w le never =
    no_failure get_logs chain r never _ (fetch_logs_complete get_logs chain answers r w le)
