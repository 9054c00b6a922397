-- ===== src/Indexer/Tick/Kept.antt =====
-- No part of a pass but the last moves the cursor, and none loses an execution.
use strategy_builder_v.Prelude.{
  ℕ, String, Option, List, [], ◌∷◌, Bool, true, false, map, any, ◌≡◌, refl, ◌∙◌,
}
use strategy_builder_v.Prelude.Result.{Result, ok, err}
use strategy_builder_v.Prelude.Exec.{Exec, lift, proceed, ◌>>=◌}
use strategy_builder_v.Indexer.Planner.{BlockRange}
use strategy_builder_v.Indexer.Fetch.{fetch_logs}
use strategy_builder_v.Indexer.Rows.{
  ParsedVaultLog, ExecutionRow, VaultEventRow, build_execution_rows, build_vault_event_rows,
}
use strategy_builder_v.Indexer.Tables.{Key, has_key}
use strategy_builder_v.Indexer.Tables.Keys.{has_key-kept}
use strategy_builder_v.Indexer.Persist.{
  StoredExecution, stored_key, PersistError, IndexState, Vaults, stored_rows, committed, priced,
  persist_new, persist,
}
use strategy_builder_v.Indexer.Persist.Stored.{table_keys}
use strategy_builder_v.Indexer.Events.{persist_vault_events}
use strategy_builder_v.Indexer.Tick.{
  TickState, TickError, Connections, renamed, on_node, on_index, on_events, run_flows, fee_bps,
  or_not_found, block_timestamp, timestamps_of, distinct, is_deposit, process_parsed, parse_all,
  known_logs, range_body,
}

module _ {T F E N : Type 0} (c : Connections T F E N) where
  -- The keys of the executions in the table.
  abbrev pub keys_in : IndexState T F N → List Key
  keys_in i = table_keys (c.executions.rows i.executions)

  pub record Grows (s t : TickState T F E N) : Type 0 where
    pub cursor : t.cursor ≡ s.cursor
    pub kept : (k : Key) → has_key k (keys_in s.index) ≡ true → has_key k (keys_in t.index) ≡ true

  pub Grows-refl : (s : TickState T F E N) → Grows s s
  Grows-refl s = record { cursor = refl; kept = λ k h. h }

  pub Grows-trans : (s t u : TickState T F E N) → Grows s t → Grows t u → Grows s u
  Grows-trans s t u g h = record {
    cursor = h.cursor ∙ g.cursor;
    kept = λ k m. h.kept k (g.kept k m);
  }

  pub record Keeps {A : Type 0} (call : Exec (TickState T F E N) TickError A) : Type 0 where
    pub grows : (s : TickState T F E N) → Grows s (call s).1

  proceed-Grows :
      {A B : Type 0} (next : A → Exec (TickState T F E N) TickError B) (r : Result TickError A)
      (s t : TickState T F E N)
      → ((a : A) → Keeps (next a))
      → Grows s t
      → Grows s (proceed next r t).1
  proceed-Grows next (err e) s t h g = g
  proceed-Grows next (ok a) s t h g = Grows-trans s t (next a t).1 g ((h a).grows t)

  pub Keeps-bind :
      {A B : Type 0} (call : Exec (TickState T F E N) TickError A)
      (next : A → Exec (TickState T F E N) TickError B)
      → Keeps call
      → ((a : A) → Keeps (next a))
      → Keeps (call >>= next)
  Keeps-bind call next h k = record {
    grows = λ s. proceed-Grows next (call s).0 s (call s).1 k (h.grows s);
  }

  pub Keeps-lift : {A : Type 0} (r : Result TickError A) → Keeps (lift r)
  Keeps-lift r = record { grows = λ s. Grows-refl s }

  pub Keeps-on_node :
      {A X : Type 0} (f : X → TickError) (call : Exec N X A) → Keeps (on_node f call)
  unfolding on_node
  Keeps-on_node f call = record { grows = λ s. record { cursor = refl; kept = λ k h. h } }

  pub Keeps-run_flows : (flows : N → N) → Keeps (run_flows flows)
  unfolding run_flows
  Keeps-run_flows flows = record { grows = λ s. record { cursor = refl; kept = λ k h. h } }

  Keeps-fee_bps : (b : Bool) → Keeps (fee_bps c b)
  unfolding fee_bps
  Keeps-fee_bps false = record { grows = λ s. Grows-refl s }
  Keeps-fee_bps true = record { grows = λ s. record { cursor = refl; kept = λ k h. h } }

  Keeps-on_events :
      (vaults : Vaults) (rows : List VaultEventRow)
      → Keeps (on_events (persist_vault_events c.events c.compute_usd vaults rows))
  unfolding on_events
  Keeps-on_events vaults rows = record { grows = λ s. record { cursor = refl; kept = λ k h. h } }

  committed-kept :
      (k : Key) (vaults : Vaults) (at : ℕ) (rows : List ExecutionRow) (i : IndexState T F N)
      (r : Result PersistError (List StoredExecution))
      → has_key k (keys_in i) ≡ true
      → has_key k (keys_in (committed c.executions c.failures c.compute_usd vaults at rows i r).1)
        ≡ true
  unfolding committed
  committed-kept k vaults at rows i (err e) h = h
  committed-kept k vaults at rows i (ok stored) h =
      rw (c.executions.rows-create_many stored i.executions)
        (has_key-kept stored_key k stored (c.executions.rows i.executions) h)

  priced-kept :
      (k : Key) (vaults : Vaults) (at : ℕ) (rows : List ExecutionRow) (i : IndexState T F N)
      (r : Result String (List (Option String)) × N)
      → has_key k (keys_in i) ≡ true
      → has_key k (keys_in (priced c.executions c.failures c.compute_usd vaults at rows i r).1)
        ≡ true
  unfolding priced
  priced-kept k vaults at rows i (err e, n) h = h
  priced-kept k vaults at rows i (ok usd, n) h =
      committed-kept k vaults at rows (record i { outside = n }) (stored_rows vaults rows usd) h

  persist_new-kept :
      (k : Key) (vaults : Vaults) (at : ℕ) (rows : List ExecutionRow) (i : IndexState T F N)
      → has_key k (keys_in i) ≡ true
      → has_key k (keys_in (persist_new c.executions c.failures c.compute_usd vaults at rows i).1)
        ≡ true
  unfolding persist_new
  persist_new-kept k vaults at [] i h = h
  persist_new-kept k vaults at (r ∷ rows) i h = priced-kept k vaults at (r ∷ rows) i _ h

  pub Keeps-on_index :
      (vaults : Vaults) (rows : List ExecutionRow)
      → Keeps (
          on_index
            (λ i. persist c.executions c.failures c.compute_usd vaults (c.clock i.outside) rows i))
  unfolding on_index persist
  Keeps-on_index vaults rows = record {
    grows = λ s. record {
      cursor = refl;
      kept = λ k h. persist_new-kept k vaults (c.clock s.index.outside) _ s.index h;
    };
  }

  pub Keeps-block_timestamp : (b : ℕ) → Keeps (block_timestamp c b)
  unfolding block_timestamp
  Keeps-block_timestamp b =
      Keeps-bind _ _ (Keeps-on_node TickError.node_failed (c.get_block b))
        (λ found. Keeps-lift (or_not_found b found))

  pub Keeps-timestamps_of : (bs : List ℕ) → Keeps (timestamps_of c bs)
  unfolding timestamps_of
  Keeps-timestamps_of [] = Keeps-lift (ok [])
  Keeps-timestamps_of (b ∷ bs) = Keeps-bind _ _ (Keeps-block_timestamp b) (λ t.
      Keeps-bind _ _ (Keeps-timestamps_of bs)
        (λ rest. Keeps-lift {A = List (ℕ × ℕ)} (ok ((b, t) ∷ rest))))

  -- The rest of the work on the parsed logs, once the executions are persisted.
  pub Keeps-after :
      (vaults : Vaults) (logs : List ParsedVaultLog) (timestamps : List (ℕ × ℕ))
      → Keeps (
          fee_bps c (any (λ l. is_deposit l.event) logs) >>= λ bps.
          lift (renamed TickError.rows_failed (build_vault_event_rows logs timestamps bps))
          >>= λ events. on_events (persist_vault_events c.events c.compute_usd vaults events))
  Keeps-after vaults logs timestamps =
      Keeps-bind _ _ (Keeps-fee_bps (any (λ l. is_deposit l.event) logs)) (λ bps.
        Keeps-bind _ _
          (Keeps-lift (renamed TickError.rows_failed (build_vault_event_rows logs timestamps bps)))
          (λ events. Keeps-on_events vaults events))

  pub Keeps-process_parsed :
      (vaults : Vaults) (logs : List ParsedVaultLog) → Keeps (process_parsed c vaults logs)
  unfolding process_parsed
  Keeps-process_parsed vaults [] = Keeps-lift (ok true)
  Keeps-process_parsed vaults (p ∷ ps) =
      Keeps-bind _ _ (Keeps-timestamps_of (distinct (map (λ l. l.block_number) (p ∷ ps)) []))
        (λ timestamps.
          Keeps-bind _ _
            (Keeps-lift (renamed TickError.rows_failed (build_execution_rows (p ∷ ps) timestamps)))
            (λ rows.
              Keeps-bind _ _ (Keeps-on_index vaults rows)
                (λ done. Keeps-after vaults (p ∷ ps) timestamps)))

  pub Keeps-range_body : (vaults : Vaults) (r : BlockRange) → Keeps (range_body c vaults r)
  unfolding range_body
  Keeps-range_body vaults r =
      Keeps-bind _ _ (Keeps-on_node TickError.fetch_failed (fetch_logs c.get_logs r)) (λ logs.
        Keeps-bind _ _
          (Keeps-lift (
            renamed TickError.rows_failed
              (parse_all c.parse_log c.get_address (known_logs c.get_address vaults logs))))
          (λ parsed. Keeps-bind _ _ (Keeps-process_parsed vaults parsed) (λ done.
            Keeps-bind _ _ (Keeps-run_flows (c.index_flows r vaults))
              (λ ran. Keeps-block_timestamp r.to))))
