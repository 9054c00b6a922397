-- ===== src/Indexer/Failures/Tests.antt =====
-- Runs of the persistence of executions and failures, on tables that are lists.
use strategy_builder_v.Prelude.{
  ℕ, suc, ◌≤◌, String, Option, none, some, List, [], ◌∷◌, true, false, map, ◌≡◌, refl, All,
}
use strategy_builder_v.Prelude.Result.{ok}
use strategy_builder_v.Prelude.Exec.{Exec}
use strategy_builder_v.Indexer.Rows.{
  executed, gas_comp_settled, ParsedVaultLog, ExecutionRow, build_execution_rows, execution_rows,
}
use strategy_builder_v.Indexer.Tables.{UniqueTable, Failure, FailureTable, has_key, count_open}
use strategy_builder_v.Indexer.Persist.{
  StoredExecution, row_key, stored_key, IndexState, Vaults, new_rows, persist,
}
use strategy_builder_v.Indexer.Persist.Stored.{table_keys}
use strategy_builder_v.Indexer.Persist.Kept.{IsCommitted, persist-IsCommitted, persist_twice}
use strategy_builder_v.Indexer.Failures.{FailureIngestDto, ingest}
use strategy_builder_v.Indexer.Failures.Once.{Recorded, one_open_failure}
use strategy_builder_v.Indexer.Tables.Lists.{list_table, list_failures}

abbrev executions : UniqueTable stored_key (List StoredExecution)
executions = list_table stored_key

abbrev failures : FailureTable (List Failure)
failures = list_failures

abbrev no_prices : List (Option (String × ℕ)) → Exec ℕ String (List (Option String))
no_prices items w = (ok (map (λ i. none) items), suc w)

abbrev logs : List ParsedVaultLog
logs =
    record {
      event = executed 7 "0xe";
      address = "0xv";
      tx_hash = "0xt";
      block_number = 5;
      log_index = 1;
    }
    ∷ record {
      event = gas_comp_settled 7 "0xe" "0xg" 12;
      address = "0xv";
      tx_hash = "0xt";
      block_number = 5;
      log_index = 2;
    }
    ∷ []

abbrev row : ExecutionRow
row = record {
  vault_address = "0xv";
  automation_id = 7;
  executor_address = "0xe";
  tx_hash = "0xt";
  block_number = 5;
  log_index = 1;
  block_timestamp = 900;
  gas_comp = some ("0xg", 12);
}

rows_run : build_execution_rows logs ((5, 900) ∷ []) ≡ ok (row ∷ [])
unfolding execution_rows
rows_run = refl

abbrev dto : FailureIngestDto
dto = record {
  vault_address = "0xv";
  automation_id = 7;
  tx_hash = none;
  executor_address = "0xe";
  error_data = none;
  error_message_fallback = none;
  failure_path = "execution";
  timestamp = none;
}

abbrev reported : List Failure
reported = (ingest failures (λ a. some a) (λ a. some "v") (λ d f. "reverted") (λ d. 0) 800 dto []).1

abbrev vaults : Vaults
vaults = ("0xv", "v") ∷ []

abbrev state : IndexState (List StoredExecution) (List Failure) ℕ
state = record { executions = []; failures = reported; outside = 0; sent = [] }

abbrev after : IndexState (List StoredExecution) (List Failure) ℕ
after = (persist executions failures no_prices vaults 1000 (row ∷ []) state).1

persist_runs : persist executions failures no_prices vaults 1000 (row ∷ []) state ≡ (ok true, after)
unfolding persist
persist_runs = refl

resolves_runs : count_open "v" 7 reported ≡ 1
unfolding ingest
resolves_runs = refl

persist-IsCommitted_example :
    IsCommitted executions failures no_prices vaults (new_rows (row ∷ []) []) state after
    × All (λ r. has_key (row_key r) (table_keys after.executions) ≡ true) (row ∷ [])
persist-IsCommitted_example =
    persist-IsCommitted executions failures no_prices vaults 1000 (row ∷ []) state after true tt
      persist_runs

persist_twice_example :
    persist executions failures no_prices vaults 2000 (row ∷ []) after ≡ (ok false, after)
persist_twice_example =
    persist_twice executions failures no_prices vaults 1000 2000 (row ∷ []) state after true tt
      persist_runs

one_open_failure_example : count_open "v" 7 after.failures ≤ 1
one_open_failure_example = one_open_failure executions failures no_prices "v" 7 after.failures (
    Recorded.persisted vaults 1000 (row ∷ []) state (
      Recorded.reported (λ a. some a) (λ a. some "v") (λ d f. "reverted") (λ d. 0) 800 dto
        (Recorded.empty refl)))
