-- ===== src/Indexer/Tick/Pass.antt =====
-- What a whole pass of the indexer guarantees.
use strategy_builder_v.Prelude.{ℕ, ◌+◌, ◌-◌, some, List, [], ◌∷◌, ◌≡◌, refl, sym, subst, arith}
use strategy_builder_v.Prelude.Result.{Result, ok, err}
use strategy_builder_v.Prelude.Exec.{proceed}
use strategy_builder_v.Indexer.Planner.{BlockRange, PlanError, plan}
use strategy_builder_v.Indexer.Planner.Chained.{IsChained, plan-IsChained}
use strategy_builder_v.Indexer.Fetch.Complete.{Answers}
use strategy_builder_v.Indexer.Rows.{RawLog}
use strategy_builder_v.Indexer.Persist.{Vaults}
use strategy_builder_v.Indexer.Tick.{
  TickState, TickError, Cursor, Connections, renamed, on_node, vaults_by_address, or_invalid,
  tick_ranges, tick_from, tick,
}
use strategy_builder_v.Indexer.Tick.Kept.{Keeps-on_node}
use strategy_builder_v.Indexer.Tick.Covered.{IsCovered, IsCovered-Grows, process_ranges-IsCovered}

module _ {T F E N : Type 0} (c : Connections T F E N) (chain : ℕ → List RawLog)
    (answers : Answers c.get_logs chain) (vaults : Vaults)
    (known : vaults_by_address c.get_address c.vaults [] ≡ some vaults) where
  -- The cursor ends at some block, up to which all is covered.
  abbrev pub CoversSome : ℕ → TickState T F E N → Type 0
  CoversSome start t = (last : ℕ) × IsCovered c chain answers vaults start last t

  tick_ranges-covers :
      (start : ℕ) (rs : List BlockRange) (s : TickState T F E N)
      → IsChained (start + 1) rs
      → IsCovered c chain answers vaults start start s
      → CoversSome start (tick_ranges c rs s).1
  unfolding tick_ranges or_invalid
  tick_ranges-covers start [] s chained h = (start, h)
  tick_ranges-covers start (r ∷ rs) s chained h =
      rw known (process_ranges-IsCovered c chain answers vaults start start (r ∷ rs) s chained h)

  planned :
      (start : ℕ) (s : TickState T F E N) (res : Result PlanError (List BlockRange))
      → ((rs : List BlockRange) → res ≡ ok rs → IsChained (start + 1) rs)
      → IsCovered c chain answers vaults start start s
      → CoversSome start (proceed (tick_ranges c) (renamed TickError.plan_failed res) s).1
  planned start s (err e) chained h = (start, h)
  planned start s (ok rs) chained h = tick_ranges-covers start rs s (chained rs refl) h

  tick_from-covers :
      (head : ℕ) (cursor : Cursor) (s : TickState T F E N)
      → IsCovered c chain answers vaults cursor.last_processed_block cursor.last_processed_block s
      → CoversSome cursor.last_processed_block (tick_from c head (some cursor) s).1
  unfolding tick_from
  tick_from-covers head cursor s h =
      planned cursor.last_processed_block s
        (plan head cursor.last_processed_block c.max_range c.confirmations)
        (λ rs e. plan-IsChained head cursor.last_processed_block c.max_range c.confirmations rs e) h

  headed :
      (cursor : Cursor) (res : Result TickError ℕ) (s : TickState T F E N)
      → s.cursor ≡ some cursor
      → IsCovered c chain answers vaults cursor.last_processed_block cursor.last_processed_block s
      → CoversSome cursor.last_processed_block
          (proceed (λ head m. tick_from c head m.cursor m) res s).1
  headed cursor (err e) s at h = (cursor.last_processed_block, h)
  headed cursor (ok head) s at h =
      subst (λ o. CoversSome cursor.last_processed_block (tick_from c head o s).1) (sym at)
        (tick_from-covers head cursor s h)

  -- However a pass ends, by an error too: the cursor has not moved back, and every execution of a known vault that
  -- the chain has between the old cursor and the new one is in the table. The conditions are that `getLogs` gives
  -- the logs of the window where it answers, and that the addresses of the vaults are addresses. The database
  -- answers every call.
  pub tick-covers :
      (s : TickState T F E N) (cursor : Cursor)
      → s.cursor ≡ some cursor
      → CoversSome cursor.last_processed_block (tick c s).1
  unfolding tick on_node
  tick-covers s cursor at =
      let opening : IsCovered c chain answers vaults cursor.last_processed_block
          cursor.last_processed_block s =
        record {
          timestamp = cursor.timestamp;
          at = at;
          after = omega arith;
          kept =
              let e : cursor.last_processed_block - cursor.last_processed_block ≡ 0 = omega arith in
              rw e refl;
        } in
      headed cursor _ _ at (
        IsCovered-Grows c chain answers vaults cursor.last_processed_block
          cursor.last_processed_block s _
          ((Keeps-on_node c TickError.node_failed c.get_block_number).grows s) opening)
