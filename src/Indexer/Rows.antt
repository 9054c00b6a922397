-- ===== src/Indexer/Rows.antt =====
-- packages/backend/src/indexer/event-mapper.ts: decoded logs and the rows that they become. `parseLog` and
-- `getAddress` of ethers are arguments; the addresses that parseLog decodes are already in the form of getAddress.
-- Times are Unix seconds, and amounts are numbers, of which the code stores the text.
use strategy_builder_v.Prelude.{
  ℕ, zero, suc, ◌*◌, ◌/◌, String, Option, none, some, List, [], ◌∷◌, Bool, false, ◌&&◌, find,
  if◌then◌else◌,
}
use strategy_builder_v.Prelude.Tests.{◌==◌ as ◌=ℕ◌}
use strategy_builder_v.Prelude.Result.{Result, ok, err, ◌>>=◌}
use text.Mathlib.Text.{◌==◌}

pub record RawLog : Type 0 where
  pub address : String
  pub transaction_hash : String
  pub block_number : ℕ
  pub index : ℕ
  pub topics : List String
  pub payload : String

-- The events of a vault that the indexer reads, with their arguments.
pub data VaultEvent : Type 0 where
  executed : (automation : ℕ) (executor : String) → VaultEvent
  gas_comp_settled : (automation : ℕ) (executor token : String) (amount : ℕ) → VaultEvent
  deposited : (token : String) (amount : ℕ) → VaultEvent
  withdrawn : (token : String) (amount fee : ℕ) (recipient : String) → VaultEvent
  other_event : VaultEvent

pub record ParsedVaultLog : Type 0 where
  pub event : VaultEvent
  pub address : String
  pub tx_hash : String
  pub block_number : ℕ
  pub log_index : ℕ

pub data RowError : Type 0 where
  missing_timestamp : (block : ℕ) → RowError
  invalid_address : RowError

pub record ExecutionRow : Type 0 where
  pub vault_address : String
  pub automation_id : ℕ
  pub executor_address : String
  pub tx_hash : String
  pub block_number : ℕ
  pub log_index : ℕ
  pub block_timestamp : ℕ
  pub gas_comp : Option (String × ℕ)

pub data EventType : Type 0 where
  deposit_event withdraw_event : EventType

pub record VaultEventRow : Type 0 where
  pub vault_address : String
  pub event_type : EventType
  pub token : String
  pub amount : ℕ
  pub fee_amount : ℕ
  pub fee_bps : ℕ
  pub tx_hash : String
  pub block_number : ℕ
  pub log_index : ℕ
  pub block_timestamp : ℕ

unfoldable pub parsed_as :
    RawLog → Option String → VaultEvent → Result RowError (Option ParsedVaultLog)
parsed_as log none event = err invalid_address
parsed_as log (some address) event = ok (
    some (record {
      event = event;
      address = address;
      tx_hash = log.transaction_hash;
      block_number = log.block_number;
      log_index = log.index;
    }))

unfoldable pub decoded_as :
    RawLog
    → Option String
    → Result String (Option VaultEvent)
    → Result RowError (Option ParsedVaultLog)
unfolding parsed_as
decoded_as log address (err thrown) = ok none
decoded_as log address (ok none) = ok none
decoded_as log address (ok (some event)) = parsed_as log address event

-- `get_address` gives nothing where getAddress throws.
unfoldable pub parse_vault_log :
    (RawLog → Result String (Option VaultEvent))
    → (String → Option String)
    → RawLog
    → Result RowError (Option ParsedVaultLog)
unfolding decoded_as
parse_vault_log parse_log get_address log = decoded_as log (get_address log.address) (parse_log log)

abbrev pub timestamp_of : ℕ → List (ℕ × ℕ) → Option ℕ
timestamp_of block [] = none
timestamp_of block ((b, t) ∷ rest) = if b =ℕ block then some t else timestamp_of block rest

abbrev pub or_missing : ℕ → Option ℕ → Result RowError ℕ
or_missing block none = err (missing_timestamp block)
or_missing block (some t) = ok t

-- The compensation of the same transaction, automation and executor.
settles : String → ℕ → String → VaultEvent → String → Bool
settles tx automation executor (gas_comp_settled a e token amount) log_tx =
    log_tx == tx && (a =ℕ automation && e == executor)
settles tx automation executor (executed a e) log_tx = false
settles tx automation executor (deposited t n) log_tx = false
settles tx automation executor (withdrawn t n f r) log_tx = false
settles tx automation executor other_event log_tx = false

settled_amount : VaultEvent → Option (String × ℕ)
settled_amount (gas_comp_settled a e token amount) = some (token, amount)
settled_amount (executed a e) = none
settled_amount (deposited t n) = none
settled_amount (withdrawn t n f r) = none
settled_amount other_event = none

gas_comp_of : Option ParsedVaultLog → Option (String × ℕ)
unfolding settled_amount
gas_comp_of none = none
gas_comp_of (some log) = settled_amount log.event

unfoldable pub execution_row :
    List ParsedVaultLog → List (ℕ × ℕ) → ParsedVaultLog → ℕ → String → Result RowError ExecutionRow
unfolding settles gas_comp_of
execution_row logs timestamps log automation executor = do
  t ← or_missing log.block_number (timestamp_of log.block_number timestamps)
  ok (record {
    vault_address = log.address;
    automation_id = automation;
    executor_address = executor;
    tx_hash = log.tx_hash;
    block_number = log.block_number;
    log_index = log.log_index;
    block_timestamp = t;
    gas_comp =
        gas_comp_of (find (λ l. settles log.tx_hash automation executor l.event l.tx_hash) logs);
  })

-- The row of a log is put in front of the rows of the later logs.
abbrev pub with_row :
    {R : Type 0} → Result RowError R → Result RowError (List R) → Result RowError (List R)
with_row (err e) rest = err e
with_row (ok r) (err e) = err e
with_row (ok r) (ok rows) = ok (r ∷ rows)

unfoldable pub execution_rows_from :
    VaultEvent
    → ParsedVaultLog
    → List ParsedVaultLog
    → List (ℕ × ℕ)
    → Result RowError (List ExecutionRow)
    → Result RowError (List ExecutionRow)
unfolding execution_row
execution_rows_from (executed automation executor) log logs timestamps rest =
    with_row (execution_row logs timestamps log automation executor) rest
execution_rows_from (gas_comp_settled a e t n) log logs timestamps rest = rest
execution_rows_from (deposited t n) log logs timestamps rest = rest
execution_rows_from (withdrawn t n f r) log logs timestamps rest = rest
execution_rows_from other_event log logs timestamps rest = rest

-- The loop over the logs, with all of them to look for compensations in.
unfoldable pub execution_rows :
    List ParsedVaultLog → List (ℕ × ℕ) → List ParsedVaultLog → Result RowError (List ExecutionRow)
unfolding execution_rows_from
execution_rows all_logs timestamps [] = ok []
execution_rows all_logs timestamps (log ∷ logs) =
    execution_rows_from log.event log all_logs timestamps (execution_rows all_logs timestamps logs)

abbrev pub build_execution_rows :
    List ParsedVaultLog → List (ℕ × ℕ) → Result RowError (List ExecutionRow)
build_execution_rows logs timestamps = execution_rows logs timestamps logs

unfoldable pub event_row :
    EventType → String → ℕ → ℕ → ℕ → ParsedVaultLog → List (ℕ × ℕ) → Result RowError VaultEventRow
event_row event_type token amount fee bps log timestamps = do
  t ← or_missing log.block_number (timestamp_of log.block_number timestamps)
  ok (record {
    vault_address = log.address;
    event_type = event_type;
    token = token;
    amount = amount;
    fee_amount = fee;
    fee_bps = bps;
    tx_hash = log.tx_hash;
    block_number = log.block_number;
    log_index = log.log_index;
    block_timestamp = t;
  })

-- `amount > 0n ? Number((feeAmount * 10_000n) / amount) : 0`
abbrev pub bps_back : ℕ → ℕ → ℕ
bps_back zero fee = 0
bps_back (suc n) fee = fee * 10000 / suc n

event_rows_from :
    VaultEvent
    → ParsedVaultLog
    → List (ℕ × ℕ)
    → ℕ
    → Result RowError (List VaultEventRow)
    → Result RowError (List VaultEventRow)
unfolding event_row
event_rows_from (deposited token amount) log timestamps bps rest =
    with_row (event_row deposit_event token amount (amount * bps / 10000) bps log timestamps) rest
event_rows_from (withdrawn token amount fee recipient) log timestamps bps rest =
    with_row (event_row withdraw_event token amount fee (bps_back amount fee) log timestamps) rest
event_rows_from (executed a e) log timestamps bps rest = rest
event_rows_from (gas_comp_settled a e t n) log timestamps bps rest = rest
event_rows_from other_event log timestamps bps rest = rest

unfoldable pub build_vault_event_rows :
    List ParsedVaultLog → List (ℕ × ℕ) → ℕ → Result RowError (List VaultEventRow)
unfolding event_rows_from
build_vault_event_rows [] timestamps bps = ok []
build_vault_event_rows (log ∷ logs) timestamps bps =
    event_rows_from log.event log timestamps bps (build_vault_event_rows logs timestamps bps)
