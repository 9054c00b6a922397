-- ===== src/Indexer/Failures.antt =====
-- packages/backend/src/indexer/failure-ingest.service.ts: the failures that the keeper reports. The checksum of an
-- address (nothing where getAddress throws), the vaults of the database, the decoding of the reason, the reading of
-- a date and the clock are arguments.
pub mod Once
mod Tests
use strategy_builder_v.Prelude.{
  ℕ, suc, ◌+◌, String, Option, none, some, List, [], ◌∷◌, Bool, if◌then◌else◌,
}
use strategy_builder_v.Prelude.Result.{Result, ok, err}
use strategy_builder_v.Indexer.Tables.{Failure, FailureTable}
use text.Mathlib.Text.{◌==◌}

pub record FailureIngestDto : Type 0 where
  pub vault_address : String
  pub automation_id : ℕ
  pub tx_hash : Option String
  pub executor_address : String
  pub error_data : Option String
  pub error_message_fallback : Option String
  pub failure_path : String
  pub timestamp : Option String

pub data IngestError : Type 0 where
  invalid_vault_address vault_not_found : IngestError

or_text : Option String → String → String
or_text none text = text
or_text (some new) text = new

or_hash : Option String → Option String → Option String
or_hash none hash = hash
or_hash (some new) hash = some new

-- `dto.timestamp ? new Date(dto.timestamp) : new Date()`
failed_at : (String → ℕ) → ℕ → Option String → ℕ
failed_at read_date now none = now
failed_at read_date now (some text) = if text == "" then now else read_date text

-- The row of a failure that opens.
unfoldable pub new_failure :
    String → FailureIngestDto → String → ℕ → Option String → String → Failure
unfolding or_text
new_failure vault dto message at executor id = record {
  id = id;
  vault_id = vault;
  automation_id = dto.automation_id;
  executor_address = or_text executor dto.executor_address;
  last_tx_hash = dto.tx_hash;
  error_message = message;
  failure_path = dto.failure_path;
  attempt_count = 1;
  first_failed_at = at;
  last_failed_at = at;
  resolved_at = none;
}

-- One more attempt of the failure that was found open.
unfoldable pub attempted :
    FailureIngestDto → String → ℕ → Option String → Failure → Failure → Failure
unfolding or_text or_hash
attempted dto message at executor open_failure row = record row {
  attempt_count = row.attempt_count + 1;
  last_failed_at = at;
  error_message = message;
  failure_path = dto.failure_path;
  last_tx_hash = or_hash dto.tx_hash open_failure.last_tx_hash;
  executor_address = or_text executor open_failure.executor_address;
}

module _ {F : Type 0} (table : FailureTable F) where
  -- The id and the number of attempts that are returned, and the table after it.
  unfoldable pub recorded :
      String → FailureIngestDto → String → ℕ → Option String → Option Failure → F → (String × ℕ) × F
  unfolding new_failure attempted
  recorded vault dto message at executor (some open_failure) t = (
    (open_failure.id, open_failure.attempt_count + 1),
    table.update open_failure.id (attempted dto message at executor open_failure) t,
  )
  recorded vault dto message at executor none t = (
    (table.new_id t, 1),
    table.create (new_failure vault dto message at executor (table.new_id t)) t,
  )

  unfoldable pub ingest_of :
      (Option String → Option String → String)
      → ℕ
      → FailureIngestDto
      → Option String
      → Option String
      → F
      → Result IngestError (String × ℕ) × F
  unfolding recorded
  ingest_of decode_revert at dto executor none t = (err vault_not_found, t)
  ingest_of decode_revert at dto executor (some vault) t =
      let (answer, after) =
        recorded vault dto (decode_revert dto.error_data dto.error_message_fallback) at executor
          (table.find_open vault dto.automation_id t) t in
      (ok answer, after)

  unfoldable pub ingest_at :
      (String → Option String)
      → (String → Option String)
      → (Option String → Option String → String)
      → ℕ
      → FailureIngestDto
      → Option String
      → F
      → Result IngestError (String × ℕ) × F
  unfolding ingest_of
  ingest_at checksum vault_id decode_revert at dto none t = (err invalid_vault_address, t)
  ingest_at checksum vault_id decode_revert at dto (some address) t =
      ingest_of decode_revert at dto (checksum dto.executor_address) (vault_id address) t

  unfoldable pub ingest :
      (String → Option String)
      → (String → Option String)
      → (Option String → Option String → String)
      → (String → ℕ)
      → ℕ
      → FailureIngestDto
      → F
      → Result IngestError (String × ℕ) × F
  unfolding ingest_at failed_at
  ingest checksum vault_id decode_revert read_date now dto t =
      ingest_at checksum vault_id decode_revert (failed_at read_date now dto.timestamp) dto
        (checksum dto.vault_address) t
