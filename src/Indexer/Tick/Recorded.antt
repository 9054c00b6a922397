-- ===== src/Indexer/Tick/Recorded.antt =====
-- From the logs of a window to the keys of the executions that are persisted for it.
use strategy_builder_v.Prelude.{
  ℕ, String, Option, none, some, List, [], ◌∷◌, Bool, true, false, not, ◌&&◌, ◌||◌, all, ◌≡◌, refl,
  ap, sym, subst, arith, All, Bool-cases, inl, inr,
}
use strategy_builder_v.Prelude.Result.{Result, ok, err, chain-ok}
use strategy_builder_v.Indexer.Rows.{
  RawLog, VaultEvent, deposited, executed, gas_comp_settled, withdrawn, other_event, ParsedVaultLog,
  RowError, ExecutionRow, parse_vault_log, decoded_as, parsed_as, with_row, or_missing,
  timestamp_of, execution_row, execution_rows, execution_rows_from,
}
use strategy_builder_v.Indexer.Tables.{Key, has_key}
use strategy_builder_v.Indexer.Persist.{Vaults, row_key}
use strategy_builder_v.Indexer.Tick.{known_as, known_logs, parsed_before, parse_all}

abbrev pub is_executed : VaultEvent → Bool
is_executed (executed a e) = true
is_executed (deposited t n) = false
is_executed (gas_comp_settled a e t n) = false
is_executed (withdrawn t n f r) = false
is_executed other_event = false

abbrev pub decoded_executed : Result String (Option VaultEvent) → Bool
decoded_executed (err e) = false
decoded_executed (ok none) = false
decoded_executed (ok (some event)) = is_executed event

-- Where a log of a known vault is that of an execution, the key is among the keys.
abbrev pub is_recorded :
    (RawLog → Result String (Option VaultEvent))
    → (String → Option String)
    → Vaults
    → List Key
    → RawLog
    → Bool
is_recorded parse_log get_address vaults keys l =
    not (known_as vaults (get_address l.address) && decoded_executed (parse_log l))
    || has_key (l.transaction_hash, l.index) keys

-- The same of a parsed log.
abbrev pub is_entered : List Key → ParsedVaultLog → Bool
is_entered keys p = not (is_executed p.event) || has_key (p.tx_hash, p.log_index) keys

ok-same : {A : Type 0} {x y : A} → Path (Result RowError A) (ok x) (ok y) → x ≡ y
ok-same h = cc (h)

with_row-eq :
    {R : Type 0} (first : Result RowError R) (rest : Result RowError (List R)) (rows : List R)
    → with_row first rest ≡ ok rows
    → (r : R) × (rs : List R) × (first ≡ ok r) × (rest ≡ ok rs) × (rows ≡ r ∷ rs)
with_row-eq (err e) rest rows h = absurd (cc)
with_row-eq (ok r) (err e) rows h = absurd (cc)
with_row-eq (ok r) (ok rs) rows h = (r, rs, refl, refl, cc (h))

row_key-execution_row :
    (logs : List ParsedVaultLog) (ts : List (ℕ × ℕ)) (log : ParsedVaultLog) (automation : ℕ)
    (executor : String) (r : ExecutionRow)
    → execution_row logs ts log automation executor ≡ ok r
    → row_key r ≡ (log.tx_hash, log.log_index)
unfolding execution_row
row_key-execution_row logs ts log automation executor r h =
    let (t, made, there) =
      chain-ok _ (or_missing log.block_number (timestamp_of log.block_number ts)) h in
    sym (ap row_key (ok-same made))

module _ (keys : List Key) where
  rows_from-entered :
      (e : VaultEvent) (log : ParsedVaultLog) (logs : List ParsedVaultLog) (ts : List (ℕ × ℕ))
      (rest : Result RowError (List ExecutionRow)) (rows : List ExecutionRow)
      → execution_rows_from e log logs ts rest ≡ ok rows
      → All (λ r. has_key (row_key r) keys ≡ true) rows
      → (rs : List ExecutionRow) × (rest ≡ ok rs)
        × All (λ r. has_key (row_key r) keys ≡ true) rs
        × ((not (is_executed e) || has_key (log.tx_hash, log.log_index) keys) ≡ true)
  unfolding execution_rows_from
  rows_from-entered (executed automation executor) log logs ts rest rows h k =
      let (r, rs, first, others, same) =
        with_row-eq (execution_row logs ts log automation executor) rest rows h in
      let both : All (λ r. has_key (row_key r) keys ≡ true) (r ∷ rs) =
        subst (All (λ r. has_key (row_key r) keys ≡ true)) same k in
      (
        rs,
        others,
        both.1,
        rw (← row_key-execution_row logs ts log automation executor r first) both.0,
      )
  rows_from-entered (gas_comp_settled a e t n) log logs ts rest rows h k = (rows, h, k, refl)
  rows_from-entered (deposited t n) log logs ts rest rows h k = (rows, h, k, refl)
  rows_from-entered (withdrawn t n f r) log logs ts rest rows h k = (rows, h, k, refl)
  rows_from-entered other_event log logs ts rest rows h k = (rows, h, k, refl)

  pub execution_rows-entered :
      (all_logs : List ParsedVaultLog) (ts : List (ℕ × ℕ)) (logs : List ParsedVaultLog)
      (rows : List ExecutionRow)
      → execution_rows all_logs ts logs ≡ ok rows
      → All (λ r. has_key (row_key r) keys ≡ true) rows
      → all (is_entered keys) logs ≡ true
  unfolding execution_rows
  execution_rows-entered all_logs ts [] rows h k = refl
  execution_rows-entered all_logs ts (log ∷ logs) rows h k =
      let (rs, rest, others, own) =
        rows_from-entered log.event log all_logs ts (execution_rows all_logs ts logs) rows h k in
      rw (own, execution_rows-entered all_logs ts logs rs rest others) refl

  parsed_step :
      (l : RawLog) (address : Option String) (r : Result String (Option VaultEvent))
      (rest : Result RowError (List ParsedVaultLog)) (parsed : List ParsedVaultLog)
      → parsed_before (decoded_as l address r) rest ≡ ok parsed
      → all (is_entered keys) parsed ≡ true
      → (ps : List ParsedVaultLog) × (rest ≡ ok ps)
        × (all (is_entered keys) ps ≡ true)
        × ((not (decoded_executed r) || has_key (l.transaction_hash, l.index) keys) ≡ true)
  unfolding decoded_as parsed_as parsed_before
  parsed_step l address (err e) rest parsed h k = (parsed, h, k, refl)
  parsed_step l address (ok none) rest parsed h k = (parsed, h, k, refl)
  parsed_step l none (ok (some event)) rest parsed h k = absurd (cc)
  parsed_step l (some a) (ok (some event)) (err e) parsed h k = absurd (cc)
  parsed_step l (some a) (ok (some event)) (ok ps) parsed h k =
      let front : ParsedVaultLog = record {
        event = event;
        address = a;
        tx_hash = l.transaction_hash;
        block_number = l.block_number;
        log_index = l.index;
      } in
      let same : front ∷ ps ≡ parsed = ok-same h in
      let both : all (is_entered keys) (front ∷ ps) ≡ true =
        subst (λ x. all (is_entered keys) x ≡ true) (sym same) k in
      (ps, refl, ground (arith, both), ground (arith, both))

  pub parse_all-recorded :
      (parse_log : RawLog → Result String (Option VaultEvent))
      (get_address : String → Option String) (vaults : Vaults) (logs : List RawLog)
      (parsed : List ParsedVaultLog)
      → parse_all parse_log get_address (known_logs get_address vaults logs) ≡ ok parsed
      → all (is_entered keys) parsed ≡ true
      → all (is_recorded parse_log get_address vaults keys) logs ≡ true
  unfolding parse_all known_logs parse_vault_log
  parse_all-recorded parse_log get_address vaults [] parsed h k = refl
  parse_all-recorded parse_log get_address vaults (l ∷ logs) parsed h k =
      elim (Bool-cases (known_as vaults (get_address l.address))) [
        | inr foreign ↦
            rw
              (
                foreign,
                parse_all-recorded parse_log get_address vaults logs parsed (rw foreign at h) k,
              )
              refl
        | inl known ↦
            let (ps, rest, others, own) =
              parsed_step l (get_address l.address) (parse_log l)
                (parse_all parse_log get_address (known_logs get_address vaults logs)) parsed
                (rw known at h) k in
            rw (known, own, parse_all-recorded parse_log get_address vaults logs ps rest others)
              refl
      ]
