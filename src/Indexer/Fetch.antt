-- ===== src/Indexer/Fetch.antt =====
-- `fetchLogs` of packages/backend/src/indexer/indexer.service.ts: `getLogs` with adaptive halving.
pub mod Complete
use strategy_builder_v.Prelude.{
  ℕ, zero, suc, ◌+◌, ◌-◌, String, List, [], ◌∷◌, ◌++◌, ltb, if◌then◌else◌,
}
use strategy_builder_v.Prelude.Exec.{Exec, pure, raise, recover, ◌>>=◌}
use strategy_builder_v.Indexer.Planner.{BlockRange, halve}

-- What `fetchLogs` throws. `out_of_fuel` is the model's own: the source has no such error.
pub data FetchError : Type 0 where
  rpc : String → FetchError
  out_of_fuel : FetchError

-- The provider's `getLogs` is not the program's code. It may answer differently from call to call,
-- so it acts on a state `W` of its own.
module _ {W Log : Type 0} (get_logs : BlockRange → Exec W String (List Log)) where
  -- The loop over the halves: the logs of each are appended to `out`, and a throw ends it.
  unfoldable pub each_half :
      (BlockRange → Exec W FetchError (List Log)) → List BlockRange → Exec W FetchError (List Log)
  each_half fetch [] = pure []
  each_half fetch (half ∷ rest) = do
    logs ← fetch half
    more ← each_half fetch rest
    pure (logs ++ more)

  unfoldable pub fetch_on_fuel : ℕ → BlockRange → Exec W FetchError (List Log)
  unfolding each_half
  fetch_on_fuel zero range = raise out_of_fuel
  fetch_on_fuel (suc fuel) range = recover (get_logs range) λ e.
      if ltb range.from range.to
      then each_half (fetch_on_fuel fuel) (halve range)
      else raise (rpc e)

  -- Every half is shorter, so the length of the window is enough fuel.
  unfoldable pub fetch_logs : BlockRange → Exec W FetchError (List Log)
  unfolding fetch_on_fuel
  fetch_logs range = fetch_on_fuel (range.to - range.from + 1) range
