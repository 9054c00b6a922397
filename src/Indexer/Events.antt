-- ===== src/Indexer/Events.antt =====
-- `persistVaultEvents` of packages/backend/src/indexer/indexer.service.ts: the rows of deposits and withdrawals.
use strategy_builder_v.Prelude.{
  ℕ, String, Option, none, some, List, [], ◌∷◌, Bool, true, false, not, map, filter,
}
use strategy_builder_v.Prelude.Names.{get_key}
use strategy_builder_v.Prelude.Result.{Result, ok, err}
use strategy_builder_v.Prelude.Exec.{Exec}
use strategy_builder_v.Indexer.Rows.{VaultEventRow}
use strategy_builder_v.Indexer.Tables.{Key, has_key, UniqueTable}
use strategy_builder_v.Indexer.Persist.{PersistError, Vaults, consed, unknown_vault, prices_failed}

pub record StoredEvent : Type 0 where
  pub vault_id : String
  pub row : VaultEventRow
  pub amount_usd : Option String

abbrev pub event_key : VaultEventRow → Key
event_key r = (r.tx_hash, r.log_index)

abbrev pub stored_event_key : StoredEvent → Key
stored_event_key e = event_key e.row

unfoldable pub new_events : List VaultEventRow → List StoredEvent → List VaultEventRow
new_events rows table =
    let existing =
      map stored_event_key
        (filter (λ e. has_key (stored_event_key e) (map event_key rows)) table) in
    filter (λ r. not (has_key (event_key r) existing)) rows

event_stored_as : VaultEventRow → Option String → Option String → Result PersistError StoredEvent
event_stored_as r usd none = err unknown_vault
event_stored_as r usd (some vault) = ok (record { vault_id = vault; row = r; amount_usd = usd })

unfoldable pub stored_events :
    Vaults → List VaultEventRow → List (Option String) → Result PersistError (List StoredEvent)
unfolding event_stored_as consed
stored_events vaults [] usd = ok []
stored_events vaults (r ∷ rows) [] =
    consed (event_stored_as r none (get_key r.vault_address vaults)) (stored_events vaults rows [])
stored_events vaults (r ∷ rows) (u ∷ usd) =
    consed (event_stored_as r u (get_key r.vault_address vaults)) (stored_events vaults rows usd)

module _ {E N : Type 0} (table : UniqueTable stored_event_key E)
    (compute_usd : List (Option (String × ℕ)) → Exec N String (List (Option String))) where
  unfoldable pub events_written :
      Result PersistError (List StoredEvent) → E → N → Result PersistError Bool × (E × N)
  events_written (err e) events outside = (err e, (events, outside))
  events_written (ok stored) events outside = (ok true, (table.create_many stored events, outside))

  unfoldable pub events_priced :
      Vaults
      → List VaultEventRow
      → E
      → Result String (List (Option String)) × N
      → Result PersistError Bool × (E × N)
  unfolding events_written stored_events
  events_priced vaults rows events (err e, outside) = (err (prices_failed e), (events, outside))
  events_priced vaults rows events (ok usd, outside) =
      events_written (stored_events vaults rows usd) events outside

  unfoldable pub persist_new_events :
      Vaults → List VaultEventRow → E → N → Result PersistError Bool × (E × N)
  unfolding events_priced
  persist_new_events vaults [] events outside = (ok false, (events, outside))
  persist_new_events vaults (r ∷ rows) events outside =
      events_priced vaults (r ∷ rows) events
        (compute_usd (map (λ r. some (r.token, r.amount)) (r ∷ rows)) outside)

  unfoldable pub persist_vault_events :
      Vaults → List VaultEventRow → E → N → Result PersistError Bool × (E × N)
  unfolding persist_new_events new_events
  persist_vault_events vaults rows events outside =
      persist_new_events vaults (new_events rows (table.rows events)) events outside
