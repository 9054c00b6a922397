-- ===== src/Indexer/Tick.antt =====
-- `tick` of packages/backend/src/indexer/indexer.service.ts with the cursor of indexer-cursor.store.ts: one pass of
-- the indexer. The node, the price service and the tables of protocol flows are the outside world; the indexing of
-- protocol flows, which catches what it throws, is an argument.
pub mod Kept
pub mod Recorded
pub mod Covered
pub mod Pass
mod Tests
use strategy_builder_v.Prelude.{
  ℕ, zero, suc, ◌-◌, max, String, Option, none, some, List, [], ◌∷◌, ◌++◌, Bool, true, false, map,
  filter, any, if◌then◌else◌,
}
use strategy_builder_v.Prelude.Tests.{◌==◌}
use strategy_builder_v.Prelude.Names.{get_key, set_key}
use strategy_builder_v.Prelude.Result.{Result, ok, err}
use strategy_builder_v.Prelude.Exec.{Exec, pure, raise, lift, ◌>>=◌}
use strategy_builder_v.Indexer.Planner.{BlockRange, Setting, PlanError, plan}
use strategy_builder_v.Indexer.Fetch.{FetchError, fetch_logs}
use strategy_builder_v.Indexer.Rows.{
  RawLog, VaultEvent, deposited, executed, gas_comp_settled, withdrawn, other_event, ParsedVaultLog,
  RowError, parse_vault_log, build_execution_rows, execution_rows, build_vault_event_rows,
}
use strategy_builder_v.Indexer.Tables.{UniqueTable, FailureTable}
use strategy_builder_v.Indexer.Persist.{stored_key, PersistError, IndexState, Vaults, persist}
use strategy_builder_v.Indexer.Events.{stored_event_key, persist_vault_events}

pub record Cursor : Type 0 where
  pub last_processed_block : ℕ
  pub timestamp : Option ℕ

pub record TickState (T F E N : Type 0) : Type 0 where
  pub index : IndexState T F N
  pub events : E
  pub cursor : Option Cursor

pub data TickError : Type 0 where
  node_failed : String → TickError
  fetch_failed : FetchError → TickError
  block_not_found : ℕ → TickError
  rows_failed : RowError → TickError
  persist_failed : PersistError → TickError
  plan_failed : PlanError → TickError
  invalid_vault : TickError

abbrev pub renamed : {A E F : Type 0} → (E → F) → Result E A → Result F A
renamed f (ok a) = ok a
renamed f (err e) = err (f e)

-- `[...new Set(blocks)]`
unfoldable pub distinct : List ℕ → List ℕ → List ℕ
distinct [] seen = seen
distinct (b ∷ bs) seen = distinct bs (if any (λ c. c == b) seen then seen else seen ++ b ∷ [])

unfoldable pub is_deposit : VaultEvent → Bool
is_deposit (deposited t n) = true
is_deposit (executed a e) = false
is_deposit (gas_comp_settled a e t n) = false
is_deposit (withdrawn t n f r) = false
is_deposit other_event = false

unfoldable pub known_as : Vaults → Option String → Bool
known_as vaults none = false
known_as vaults (some address) = elim (get_key address vaults) [ none ↦ false | some id ↦ true ]

-- The logs of known vaults.
unfoldable pub known_logs : (String → Option String) → Vaults → List RawLog → List RawLog
unfolding known_as
known_logs get_address vaults logs = filter (λ l. known_as vaults (get_address l.address)) logs

unfoldable pub parsed_before :
    Result RowError (Option ParsedVaultLog)
    → Result RowError (List ParsedVaultLog)
    → Result RowError (List ParsedVaultLog)
parsed_before (err e) rest = err e
parsed_before (ok none) rest = rest
parsed_before (ok (some p)) (err e) = err e
parsed_before (ok (some p)) (ok ps) = ok (p ∷ ps)

unfoldable pub parse_all :
    (RawLog → Result String (Option VaultEvent))
    → (String → Option String)
    → List RawLog
    → Result RowError (List ParsedVaultLog)
unfolding parse_vault_log parsed_before
parse_all parse_log get_address [] = ok []
parse_all parse_log get_address (l ∷ ls) =
    parsed_before (parse_vault_log parse_log get_address l) (parse_all parse_log get_address ls)

-- The map from the checksummed addresses of the vaults to their ids; an address that is none throws.
unfoldable pub vaults_by_address :
    (String → Option String) → List (String × String) → Vaults → Option Vaults
vaults_by_address get_address [] vaults = some vaults
vaults_by_address get_address ((address, id) ∷ rest) vaults = elim (get_address address) [
  | none ↦ none
  | some a ↦ vaults_by_address get_address rest (set_key a id vaults)
]

-- `cursor.initIfMissing`
abbrev init_if_missing : ℕ → Option Cursor → Option Cursor
init_if_missing block none = some (record { last_processed_block = block; timestamp = none })
init_if_missing block (some c) = some c

-- A call of the node, and a change of the tables of executions and failures.
module _ {T F E N : Type 0} where
  unfoldable pub on_node :
      {A X : Type 0} → (X → TickError) → Exec N X A → Exec (TickState T F E N) TickError A
  on_node f call s =
      let (r, n) = call s.index.outside in
      (renamed f r, record s { index = record s.index { outside = n } })

  unfoldable pub on_index :
      (IndexState T F N → Result PersistError Bool × IndexState T F N)
      → Exec (TickState T F E N) TickError Bool
  on_index call s = let (r, i) = call s.index in (renamed persist_failed r, record s { index = i })

  unfoldable pub on_events :
      (E → N → Result PersistError Bool × (E × N)) → Exec (TickState T F E N) TickError Bool
  on_events call s =
      let (r, (e, n)) = call s.events s.index.outside in
      (renamed persist_failed r, record s { events = e; index = record s.index { outside = n } })

  -- The protocol flows: what is thrown is caught.
  unfoldable pub run_flows : (N → N) → Exec (TickState T F E N) TickError Bool
  run_flows flows s =
      (ok true, record s { index = record s.index { outside = flows s.index.outside } })

  -- `cursor.advance`
  unfoldable pub advance : ℕ → ℕ → Exec (TickState T F E N) TickError Bool
  advance block timestamp s = (
    ok true,
    record s {
      cursor = some (record { last_processed_block = block; timestamp = some timestamp });
    },
  )

  unfoldable pub seed : ℕ → Exec (TickState T F E N) TickError Bool
  seed block s = (ok true, record s { cursor = init_if_missing block s.cursor })

unfoldable pub or_not_found : ℕ → Option ℕ → Result TickError ℕ
or_not_found block none = err (block_not_found block)
or_not_found block (some t) = ok t

-- What the indexer is set up with and what it is connected to. The blocks are those of INDEXER_START_BLOCK and of the first vault; the vaults are pairs of address and id.
pub record Connections (T F E N : Type 0) : Type 0 where
  pub executions : UniqueTable stored_key T
  pub failures : FailureTable F
  pub events : UniqueTable stored_event_key E
  pub compute_usd : List (Option (String × ℕ)) → Exec N String (List (Option String))
  pub get_block_number : Exec N String ℕ
  pub get_logs : BlockRange → Exec N String (List RawLog)
  pub get_block : ℕ → Exec N String (Option ℕ)
  pub deposit_fee_bps : N → ℕ × N
  pub index_flows : BlockRange → Vaults → N → N
  pub parse_log : RawLog → Result String (Option VaultEvent)
  pub get_address : String → Option String
  pub clock : N → ℕ
  pub start_block : Option ℕ
  pub first_vault_block : Option ℕ
  pub vaults : List (String × String)
  pub max_range : Setting
  pub confirmations : Setting

module _ {T F E N : Type 0} (c : Connections T F E N) where
  unfoldable pub block_timestamp : ℕ → Exec (TickState T F E N) TickError ℕ
  unfolding on_node or_not_found
  block_timestamp block = do
    found ← on_node node_failed (c.get_block block)
    lift (or_not_found block found)

  unfoldable pub timestamps_of : List ℕ → Exec (TickState T F E N) TickError (List (ℕ × ℕ))
  unfolding block_timestamp
  timestamps_of [] = pure []
  timestamps_of (b ∷ bs) = do t ← block_timestamp b; rest ← timestamps_of bs; pure ((b, t) ∷ rest)

  -- `readDepositFeeBps` where there was a deposit; it catches what it throws.
  unfoldable pub fee_bps : Bool → Exec (TickState T F E N) TickError ℕ
  fee_bps false s = (ok 0, s)
  fee_bps true s =
      let (bps, n) = c.deposit_fee_bps s.index.outside in
      (ok bps, record s { index = record s.index { outside = n } })

  unfoldable pub process_parsed :
      Vaults → List ParsedVaultLog → Exec (TickState T F E N) TickError Bool
  unfolding timestamps_of on_index on_events fee_bps distinct is_deposit build_vault_event_rows
      persist persist_vault_events
  process_parsed vaults [] = pure true
  process_parsed vaults (p ∷ ps) = do
    timestamps ← timestamps_of (distinct (map (λ l. l.block_number) (p ∷ ps)) [])
    rows ← lift (renamed rows_failed (build_execution_rows (p ∷ ps) timestamps))
    _ ←
        on_index
          (λ i. persist c.executions c.failures c.compute_usd vaults (c.clock i.outside) rows i)
    bps ← fee_bps (any (λ l. is_deposit l.event) (p ∷ ps))
    events ← lift (renamed rows_failed (build_vault_event_rows (p ∷ ps) timestamps bps))
    on_events (persist_vault_events c.events c.compute_usd vaults events)

  -- What is done for a range before the cursor advances; the timestamp of its last block.
  unfoldable pub range_body : Vaults → BlockRange → Exec (TickState T F E N) TickError ℕ
  unfolding on_node parse_all known_logs process_parsed run_flows block_timestamp
  range_body vaults range = do
    logs ← on_node fetch_failed (fetch_logs c.get_logs range)
    parsed ← lift (
        renamed rows_failed
          (parse_all c.parse_log c.get_address (known_logs c.get_address vaults logs)))
    _ ← process_parsed vaults parsed
    _ ← run_flows (c.index_flows range vaults)
    block_timestamp range.to

  unfoldable pub process_range : Vaults → BlockRange → Exec (TickState T F E N) TickError Bool
  unfolding range_body advance
  process_range vaults range = range_body vaults range >>= advance range.to

  unfoldable pub process_ranges : Vaults → List BlockRange → Exec (TickState T F E N) TickError Bool
  unfolding process_range
  process_ranges vaults [] = pure true
  process_ranges vaults (r ∷ rs) = do _ ← process_range vaults r; process_ranges vaults rs

  -- Where no start is configured and no vault has a block, the seed is the head.
  seed_block : Option ℕ → Option ℕ → Exec (TickState T F E N) TickError ℕ
  unfolding on_node
  seed_block (some start) first = pure (start - 1)
  seed_block none (some first) = pure (first - 1)
  seed_block none none = on_node node_failed c.get_block_number

  ensure_seeded_from : Option Cursor → Exec (TickState T F E N) TickError Bool
  unfolding seed_block seed
  ensure_seeded_from (some cursor) = pure true
  ensure_seeded_from none = do block ← seed_block c.start_block c.first_vault_block; seed block

  unfoldable pub ensure_cursor_seeded : Exec (TickState T F E N) TickError Bool
  unfolding ensure_seeded_from
  ensure_cursor_seeded s = ensure_seeded_from s.cursor s

  unfoldable pub or_invalid : Option Vaults → Result TickError Vaults
  or_invalid none = err invalid_vault
  or_invalid (some vaults) = ok vaults

  unfoldable pub tick_ranges : List BlockRange → Exec (TickState T F E N) TickError Bool
  unfolding or_invalid vaults_by_address process_ranges
  tick_ranges [] = pure true
  tick_ranges (r ∷ rs) = do
    vaults ← lift (or_invalid (vaults_by_address c.get_address c.vaults []))
    process_ranges vaults (r ∷ rs)

  unfoldable pub tick_from : ℕ → Option Cursor → Exec (TickState T F E N) TickError Bool
  unfolding tick_ranges ensure_cursor_seeded
  tick_from head none = ensure_cursor_seeded
  tick_from head (some cursor) = do
    ranges ←
        lift
          (renamed plan_failed (plan head cursor.last_processed_block c.max_range c.confirmations))
    tick_ranges ranges

  unfoldable pub tick : Exec (TickState T F E N) TickError Bool
  unfolding tick_from on_node
  tick = (on_node node_failed c.get_block_number) >>= λ head s. tick_from head s.cursor s
