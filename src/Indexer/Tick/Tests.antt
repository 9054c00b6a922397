-- ===== src/Indexer/Tick/Tests.antt =====
-- A pass of the indexer over a small chain.
use strategy_builder_v.Prelude.{
  ℕ, suc, String, none, some, List, [], ◌∷◌, map, flat_map, if◌then◌else◌, ◌==◌, ◌≡◌, refl, ap, sym,
}
use strategy_builder_v.Prelude.Result.{Result, ok}
use strategy_builder_v.Indexer.Fetch.{fetch_logs}
use strategy_builder_v.Indexer.Planner.{plan, value}
use strategy_builder_v.Indexer.Planner.Cover.{blocks}
use strategy_builder_v.Indexer.Fetch.Complete.{Answers}
use strategy_builder_v.Indexer.Rows.{execution_rows, RawLog, executed}
use strategy_builder_v.Indexer.Tables.{Failure}
use strategy_builder_v.Indexer.Tables.Lists.{list_table, list_failures}
use strategy_builder_v.Indexer.Persist.{StoredExecution, stored_key}
use strategy_builder_v.Indexer.Events.{StoredEvent, stored_event_key}
use strategy_builder_v.Indexer.Tick.{TickState, Connections, vaults_by_address, tick}
use strategy_builder_v.Indexer.Tick.Pass.{CoversSome, tick-covers}

-- One execution, in block 6.
abbrev chain : ℕ → List RawLog
chain b =
    if b == 6
    then record {
      address = "0xv";
      transaction_hash = "0xt";
      block_number = 6;
      index = 1;
      topics = [];
      payload = "";
    }
      ∷ []
    else []

abbrev connections : Connections (List StoredExecution) (List Failure) (List StoredEvent) ℕ
connections = record {
  executions = list_table stored_key;
  failures = list_failures;
  events = list_table stored_event_key;
  compute_usd = λ items n. (ok (map (λ i. none) items), n);
  get_block_number = λ n. (ok 12, suc n);
  get_logs = λ r n. (ok (flat_map chain (blocks r)), suc n);
  get_block = λ b n. (ok (some 900), suc n);
  deposit_fee_bps = λ n. (0, n);
  index_flows = λ r vaults n. n;
  parse_log = λ l. ok (some (executed 7 "0xe"));
  get_address = λ a. some a;
  clock = λ n. 1000;
  start_block = none;
  first_vault_block = none;
  vaults = ("0xv", "v") ∷ [];
  max_range = value 3;
  confirmations = value 5;
}

abbrev state : TickState (List StoredExecution) (List Failure) (List StoredEvent) ℕ
state = record {
  index = record { executions = []; failures = []; outside = 0; sent = [] };
  events = [];
  cursor = some (record { last_processed_block = 3; timestamp = none });
}

ok-same : {A : Type 0} {x y : A} → Path (Result String A) (ok x) (ok y) → x ≡ y
ok-same h = cc (h)

answers : Answers connections.get_logs chain
answers r w w' logs h = let same = ap (λ p. p.0) h in sym (ok-same same)

tick_runs :
    (tick connections state).1.cursor
    ≡ some (record { last_processed_block = 7; timestamp = some 900 })
unfolding tick plan fetch_logs execution_rows
tick_runs = refl

known : vaults_by_address connections.get_address connections.vaults [] ≡ some (("0xv", "v") ∷ [])
unfolding vaults_by_address
known = refl

tick-covers_example :
    CoversSome connections chain answers (("0xv", "v") ∷ []) known 3 (tick connections state).1
tick-covers_example =
    tick-covers connections chain answers (("0xv", "v") ∷ []) known state
      (record { last_processed_block = 3; timestamp = none }) refl
