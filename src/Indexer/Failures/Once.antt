-- ===== src/Indexer/Failures/Once.antt =====
-- One open failure for an automation of a vault, whatever the keeper reports and the indexer persists.
use strategy_builder_v.Prelude.{
  ℕ, ◌≤◌, String, Option, none, some, List, [], ◌∷◌, ◌&&◌, ◌≡◌, refl, ap, ◌∙◌, arith, Bool-cases,
  inl, inr,
}
use strategy_builder_v.Prelude.Tests.{◌==◌ as ◌=ℕ◌}
use strategy_builder_v.Prelude.Result.{Result, ok, err}
use strategy_builder_v.Prelude.Exec.{Exec}
use strategy_builder_v.Indexer.Rows.{ExecutionRow}
use strategy_builder_v.Indexer.Tables.{UniqueTable, Failure, FailureTable, count_open}
use strategy_builder_v.Indexer.Tables.Keys.{count_open-updated, count_open-append}
use strategy_builder_v.Indexer.Persist.{
  StoredExecution, stored_key, PersistError, IndexState, Vaults, stored_rows, resolve_pairs,
  committed, priced, persist_new, persist,
}
use strategy_builder_v.Indexer.Persist.Stored.{resolve_each-le}
use strategy_builder_v.Indexer.Failures.{
  FailureIngestDto, recorded, ingest_of, ingest_at, ingest, new_failure, attempted,
}
use text.Mathlib.Text.{◌==◌}
use text.Mathlib.TextEquality.{eq_iff}

module _ {F : Type 0} (table : FailureTable F) where
  -- At most one open failure.
  abbrev pub OneOpen : F → Type 0
  OneOpen t = (vault : String) (automation : ℕ) → count_open vault automation (table.failures t) ≤ 1

  recorded-OneOpen :
      (vault : String) (dto : FailureIngestDto) (message : String) (at : ℕ)
      (executor : Option String) (found : Option Failure) (t : F)
      → table.find_open vault dto.automation_id t ≡ found
      → OneOpen t
      → OneOpen (recorded table vault dto message at executor found t).1
  unfolding recorded new_failure attempted
  recorded-OneOpen vault dto message at executor (some f) t h one v a =
      let change = attempted dto message at executor f in
      let same =
        ap (count_open v a) (table.failures-update f.id change t)
        ∙ count_open-updated v a f.id change (table.failures t) (λ row. refl) in
      omega (arith, same, one v a)
  recorded-OneOpen vault dto message at executor none t h one v a =
      let row : Failure = new_failure vault dto message at executor (table.new_id t) in
      let counted =
        ap (count_open v a) (table.failures-create row t)
        ∙ count_open-append v a (table.failures t) row in
      elim (Bool-cases (vault == v && dto.automation_id =ℕ a)) [
        | inl same ↦
            let own_vault : vault ≡ v = (eq_iff vault v).0 (ground (arith, same)) in
            let own : dto.automation_id ≡ a = ground (arith, same) in
            let none_open : count_open v a (table.failures t) ≡ 0 =
              rw (← own_vault, ← own) (table.find_open-none vault dto.automation_id t h) in
            ground (arith, counted, none_open, same)
        | inr other ↦ ground (arith, counted, one v a, other)
      ]

  ingest_of-OneOpen :
      (decode_revert : Option String → Option String → String) (at : ℕ) (dto : FailureIngestDto)
      (executor vault : Option String) (t : F)
      → OneOpen t
      → OneOpen (ingest_of table decode_revert at dto executor vault t).1
  unfolding ingest_of
  ingest_of-OneOpen decode_revert at dto executor none t one = one
  ingest_of-OneOpen decode_revert at dto executor (some vault) t one =
      recorded-OneOpen vault dto _ at executor (table.find_open vault dto.automation_id t) t refl
        one

  ingest_at-OneOpen :
      (checksum vault_id : String → Option String)
      (decode_revert : Option String → Option String → String) (at : ℕ) (dto : FailureIngestDto)
      (address : Option String) (t : F)
      → OneOpen t
      → OneOpen (ingest_at table checksum vault_id decode_revert at dto address t).1
  unfolding ingest_at
  ingest_at-OneOpen checksum vault_id decode_revert at dto none t one = one
  ingest_at-OneOpen checksum vault_id decode_revert at dto (some address) t one =
      ingest_of-OneOpen decode_revert at dto (checksum dto.executor_address) (vault_id address) t
        one

  ingest-OneOpen :
      (checksum vault_id : String → Option String)
      (decode_revert : Option String → Option String → String) (read_date : String → ℕ) (now : ℕ)
      (dto : FailureIngestDto) (t : F)
      → OneOpen t
      → OneOpen (ingest table checksum vault_id decode_revert read_date now dto t).1
  unfolding ingest
  ingest-OneOpen checksum vault_id decode_revert read_date now dto t one =
      ingest_at-OneOpen checksum vault_id decode_revert _ dto (checksum dto.vault_address) t one

-- Where failures and executions are recorded, in any order.
module _ {T F W : Type 0} (table : UniqueTable stored_key T) (failure_table : FailureTable F)
    (compute_usd : List (Option (String × ℕ)) → Exec W String (List (Option String))) where
  -- The tables of failures that are reached from an empty one.
  pub data Recorded : F → Type 0 where
    empty : {t : F} → failure_table.failures t ≡ [] → Recorded t
    reported :
        {t : F} (checksum vault_id : String → Option String)
        (decode_revert : Option String → Option String → String) (read_date : String → ℕ) (now : ℕ)
        (dto : FailureIngestDto)
        → Recorded t
        → Recorded (ingest failure_table checksum vault_id decode_revert read_date now dto t).1
    persisted :
        (vaults : Vaults) (at : ℕ) (rows : List ExecutionRow) (s : IndexState T F W)
        → Recorded s.failures
        → Recorded (persist table failure_table compute_usd vaults at rows s).1.failures

  committed-fewer :
      (v : String) (a : ℕ) (vaults : Vaults) (at : ℕ) (rows : List ExecutionRow)
      (s : IndexState T F W) (r : Result PersistError (List StoredExecution))
      → count_open v a (
          failure_table.failures
            (committed table failure_table compute_usd vaults at rows s r).1.failures)
        ≤ count_open v a (failure_table.failures s.failures)
  unfolding committed
  committed-fewer v a vaults at rows s (err e) = omega arith
  committed-fewer v a vaults at rows s (ok stored) =
      resolve_each-le failure_table v a at (resolve_pairs stored []) s.failures

  priced-fewer :
      (v : String) (a : ℕ) (vaults : Vaults) (at : ℕ) (rows : List ExecutionRow)
      (s : IndexState T F W) (r : Result String (List (Option String)) × W)
      → count_open v a (
          failure_table.failures
            (priced table failure_table compute_usd vaults at rows s r).1.failures)
        ≤ count_open v a (failure_table.failures s.failures)
  unfolding priced
  priced-fewer v a vaults at rows s (err e, w) = omega arith
  priced-fewer v a vaults at rows s (ok usd, w) =
      committed-fewer v a vaults at rows (record s { outside = w }) (stored_rows vaults rows usd)

  persist_new-fewer :
      (v : String) (a : ℕ) (vaults : Vaults) (at : ℕ) (rows : List ExecutionRow)
      (s : IndexState T F W)
      → count_open v a (
          failure_table.failures
            (persist_new table failure_table compute_usd vaults at rows s).1.failures)
        ≤ count_open v a (failure_table.failures s.failures)
  unfolding persist_new
  persist_new-fewer v a vaults at [] s = omega arith
  persist_new-fewer v a vaults at (r ∷ rows) s = priced-fewer v a vaults at (r ∷ rows) s _

  persist-fewer :
      (v : String) (a : ℕ) (vaults : Vaults) (at : ℕ) (rows : List ExecutionRow)
      (s : IndexState T F W)
      → count_open v a (
          failure_table.failures
            (persist table failure_table compute_usd vaults at rows s).1.failures)
        ≤ count_open v a (failure_table.failures s.failures)
  unfolding persist
  persist-fewer v a vaults at rows s = persist_new-fewer v a vaults at _ s

  -- However reports of failures and executions follow on each other, an automation of a vault has at most one
  -- open failure.
  pub one_open_failure :
      (vault : String) (automation : ℕ) (t : F)
      → Recorded t
      → count_open vault automation (failure_table.failures t) ≤ 1
  one_open_failure vault automation t (Recorded.empty none_there) =
      omega (arith, ap (count_open vault automation) none_there)
  one_open_failure vault automation _
        (Recorded.reported {t} checksum vault_id decode_revert read_date now dto r) =
      ingest-OneOpen failure_table checksum vault_id decode_revert read_date now dto t
        (λ v a. one_open_failure v a t r) vault automation
  one_open_failure vault automation _ (Recorded.persisted vaults at rows s r) = omega (
    arith,
    persist-fewer vault automation vaults at rows s,
    one_open_failure vault automation s.failures r,
  )
