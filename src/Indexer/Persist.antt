-- ===== src/Indexer/Persist.antt =====
-- `persist` of packages/backend/src/indexer/indexer.service.ts: the rows of executions, the failures that they
-- resolve, and the events that are sent. The state is that of the two tables, of the outside world (the price
-- service, which is asked for the values in dollars) and the list of what was sent.
pub mod Stored
pub mod Kept
use strategy_builder_v.Prelude.{
  ℕ, zero, suc, String, Option, none, some, List, [], ◌∷◌, ◌++◌, Bool, true, false, not, ◌&&◌, ◌||◌,
  map, filter, if◌then◌else◌,
}
use strategy_builder_v.Prelude.Tests.{◌==◌ as ◌=ℕ◌}
use strategy_builder_v.Prelude.Names.{get_key, set_key}
use strategy_builder_v.Prelude.Result.{Result, ok, err}
use strategy_builder_v.Prelude.Exec.{Exec}
use strategy_builder_v.Indexer.Rows.{ExecutionRow}
use strategy_builder_v.Indexer.Tables.{Key, has_key, UniqueTable, FailureTable}
use text.Mathlib.Text.{◌==◌}

pub record StoredExecution : Type 0 where
  pub vault_id : String
  pub row : ExecutionRow
  pub gas_comp_usd : Option String

abbrev pub row_key : ExecutionRow → Key
row_key r = (r.tx_hash, r.log_index)

abbrev pub stored_key : StoredExecution → Key
stored_key e = row_key e.row

-- A row of a vault that is not known makes Prisma throw, as its vault id is undefined.
pub data PersistError : Type 0 where
  prices_failed : String → PersistError
  unknown_vault : PersistError

pub record IndexState (T F W : Type 0) : Type 0 where
  pub executions : T
  pub failures : F
  pub outside : W
  pub sent : List (String × List StoredExecution)

-- `vaultByAddress`, from the address to the id.
abbrev pub Vaults : Type 0
Vaults = List (String × String)

-- The rows of the table with one of the keys: `findMany` with `OR`.
unfoldable pub matching : List Key → List StoredExecution → List StoredExecution
matching keys rows = filter (λ e. has_key (stored_key e) keys) rows

unfoldable pub new_rows : List ExecutionRow → List StoredExecution → List ExecutionRow
unfolding matching
new_rows rows table =
    let existing = map stored_key (matching (map row_key rows) table) in
    filter (λ r. not (has_key (row_key r) existing)) rows

unfoldable pub stored_as :
    ExecutionRow → Option String → Option String → Result PersistError StoredExecution
stored_as r usd none = err unknown_vault
stored_as r usd (some vault) = ok (record { vault_id = vault; row = r; gas_comp_usd = usd })

unfoldable pub consed :
    {A : Type 0}
    → Result PersistError A
    → Result PersistError (List A)
    → Result PersistError (List A)
consed (err e) rest = err e
consed (ok a) (err e) = err e
consed (ok a) (ok rest) = ok (a ∷ rest)

-- The rows with the values of the same positions.
unfoldable pub stored_rows :
    Vaults → List ExecutionRow → List (Option String) → Result PersistError (List StoredExecution)
unfolding stored_as consed
stored_rows vaults [] usd = ok []
stored_rows vaults (r ∷ rows) [] =
    consed (stored_as r none (get_key r.vault_address vaults)) (stored_rows vaults rows [])
stored_rows vaults (r ∷ rows) (u ∷ usd) =
    consed (stored_as r u (get_key r.vault_address vaults)) (stored_rows vaults rows usd)

abbrev pub has_pair : String → ℕ → List (String × ℕ) → Bool
has_pair vault automation [] = false
has_pair vault automation ((v, a) ∷ pairs) =
    (v == vault && a =ℕ automation) || has_pair vault automation pairs

-- The vaults and automations of the rows, each once.
unfoldable pub resolve_pairs : List StoredExecution → List (String × ℕ) → List (String × ℕ)
resolve_pairs [] pairs = pairs
resolve_pairs (e ∷ es) pairs = resolve_pairs es (
    if has_pair e.vault_id e.row.automation_id pairs
    then pairs
    else pairs ++ (e.vault_id, e.row.automation_id) ∷ [])

abbrev or_no_rows : Option (List StoredExecution) → List StoredExecution
or_no_rows none = []
or_no_rows (some rows) = rows

-- `byVaultId`
unfoldable pub by_vault :
    List StoredExecution
    → List (String × List StoredExecution)
    → List (String × List StoredExecution)
by_vault [] groups = groups
by_vault (e ∷ es) groups =
    by_vault es (set_key e.vault_id (or_no_rows (get_key e.vault_id groups) ++ e ∷ []) groups)

-- The first address of a vault.
unfoldable pub address_of : String → Vaults → Option String
address_of id [] = none
address_of id ((address, vault) ∷ vaults) =
    if vault == id then some address else address_of id vaults

-- An empty address is not sent to.
sent_to : Option String → List StoredExecution → List (String × List StoredExecution)
sent_to none rows = []
sent_to (some address) rows = if address == "" then [] else (address, rows) ∷ []

unfoldable pub messages :
    Vaults → List (String × List StoredExecution) → List (String × List StoredExecution)
unfolding sent_to address_of
messages vaults [] = []
messages vaults ((vault, rows) ∷ groups) =
    sent_to (address_of vault vaults) rows ++ messages vaults groups

unfoldable pub resolve_each : {F : Type 0} → FailureTable F → List (String × ℕ) → ℕ → F → F
resolve_each table [] at t = t
resolve_each table ((vault, automation) ∷ pairs) at t =
    resolve_each table pairs at (table.resolve vault automation at t)

module _ {T F W : Type 0} (table : UniqueTable stored_key T) (failure_table : FailureTable F)
    (compute_usd : List (Option (String × ℕ)) → Exec W String (List (Option String))) where
  -- The transaction, and what is sent after it.
  unfoldable pub committed :
      Vaults
      → ℕ
      → List ExecutionRow
      → IndexState T F W
      → Result PersistError (List StoredExecution)
      → Result PersistError Bool × IndexState T F W
  unfolding resolve_each resolve_pairs by_vault messages matching
  committed vaults at rows s (err e) = (err e, s)
  committed vaults at rows s (ok stored) =
      let executions = table.create_many stored s.executions in
      (
        ok true,
        record s {
          executions = executions;
          failures = resolve_each failure_table (resolve_pairs stored []) at s.failures;
          sent =
              s.sent
              ++ messages vaults
                  (by_vault (matching (map row_key rows) (table.rows executions)) []);
        },
      )

  unfoldable pub priced :
      Vaults
      → ℕ
      → List ExecutionRow
      → IndexState T F W
      → Result String (List (Option String)) × W
      → Result PersistError Bool × IndexState T F W
  unfolding committed stored_rows
  priced vaults at rows s (err e, w) = (err (prices_failed e), record s { outside = w })
  priced vaults at rows s (ok usd, w) =
      committed vaults at rows (record s { outside = w }) (stored_rows vaults rows usd)

  unfoldable pub persist_new :
      Vaults
      → ℕ
      → List ExecutionRow
      → IndexState T F W
      → Result PersistError Bool × IndexState T F W
  unfolding priced
  persist_new vaults at [] s = (ok false, s)
  persist_new vaults at (r ∷ rows) s =
      priced vaults at (r ∷ rows) s (compute_usd (map (λ r. r.gas_comp) (r ∷ rows)) s.outside)

  -- The result tells whether there was anything new; the code returns nothing.
  unfoldable pub persist :
      Vaults
      → ℕ
      → List ExecutionRow
      → IndexState T F W
      → Result PersistError Bool × IndexState T F W
  unfolding persist_new new_rows
  persist vaults at rows s = persist_new vaults at (new_rows rows (table.rows s.executions)) s
