-- ===== src/Indexer/Persist/Kept.antt =====
-- What `persist` leaves behind when it comes back.
use strategy_builder_v.Prelude.{
  ℕ, ◌≤◌, String, Option, some, List, [], ◌∷◌, ◌++◌, Bool, true, false, map, ◌≡◌, refl, ap, ◌∙◌,
  sym, arith, All, All-map, subst, append-nil,
}
use strategy_builder_v.Prelude.Names.{get_key}
use strategy_builder_v.Prelude.Result.{Result, ok, err}
use strategy_builder_v.Prelude.Exec.{Exec, not_ok}
use strategy_builder_v.Indexer.Rows.{ExecutionRow}
use strategy_builder_v.Indexer.Tables.{Key, has_key, UniqueTable, FailureTable, count_open}
use strategy_builder_v.Indexer.Tables.Keys.{
  HasUnique, add_new-has, add_new-kept, add_new-HasUnique, map-append, has_key-append,
}
use strategy_builder_v.Indexer.Persist.{
  StoredExecution, row_key, stored_key, PersistError, IndexState, Vaults, new_rows, stored_rows,
  resolve_pairs, resolve_each, committed, priced, persist_new, persist,
}
use strategy_builder_v.Indexer.Persist.Stored.{
  table_keys, IsStored, stored_rows-IsStored, All-IsStored, resolve_each-le, resolved_all,
  all_known, none_new, keys_of_self,
}

module _ {T F W : Type 0} (table : UniqueTable stored_key T) (failure_table : FailureTable F)
    (compute_usd : List (Option (String × ℕ)) → Exec W String (List (Option String))) where
  -- From `s` to `t`, for the new rows among some rows.
  pub record IsCommitted (vaults : Vaults) (new : List ExecutionRow) (s t : IndexState T F W)
      : Type 0 where
    pub kept :
        (more : List StoredExecution) × (table.rows t.executions ≡ table.rows s.executions ++ more)
    pub there : All (λ r. has_key (row_key r) (table_keys (table.rows t.executions)) ≡ true) new
    pub unique : HasUnique (table_keys (table.rows t.executions))
    pub resolved :
        All
          (λ r.
            (v : String) × (get_key r.vault_address vaults ≡ some v)
            × (count_open v r.automation_id (failure_table.failures t.failures) ≡ 0))
          new
    pub fewer :
        (v : String) (a : ℕ)
        → count_open v a (failure_table.failures t.failures)
          ≤ count_open v a (failure_table.failures s.failures)

  -- What was written from `s` to `t`, where `new` are the new rows.
  pub record IsWritten (vaults : Vaults) (new : List ExecutionRow) (s t : IndexState T F W)
      : Type 0 where
    pub kept :
        (more : List StoredExecution) × (table.rows t.executions ≡ table.rows s.executions ++ more)
    pub there : All (λ r. has_key (row_key r) (table_keys (table.rows t.executions)) ≡ true) new
    pub unique :
        HasUnique (table_keys (table.rows s.executions))
        → HasUnique (table_keys (table.rows t.executions))
    pub resolved :
        All
          (λ r.
            (v : String) × (get_key r.vault_address vaults ≡ some v)
            × (count_open v r.automation_id (failure_table.failures t.failures) ≡ 0))
          new
    pub fewer :
        (v : String) (a : ℕ)
        → count_open v a (failure_table.failures t.failures)
          ≤ count_open v a (failure_table.failures s.failures)

  keys_there :
      (vaults : Vaults) (rows : List ExecutionRow) (stored : List StoredExecution) (keys : List Key)
      → IsStored vaults rows stored
      → All (λ e. has_key (stored_key e) keys ≡ true) stored
      → All (λ r. has_key (row_key r) keys ≡ true) rows
  keys_there vaults rows stored keys h k =
      All-map _ _ (λ r x. x.2) rows
        (All-IsStored vaults (λ v r. has_key (row_key r) keys ≡ true) rows stored h k)

  committed-IsWritten :
      (vaults : Vaults) (at : ℕ) (new rows : List ExecutionRow) (s t : IndexState T F W)
      (r : Result PersistError (List StoredExecution)) (b : Bool)
      → ((stored : List StoredExecution) → r ≡ ok stored → IsStored vaults new stored)
      → committed table failure_table compute_usd vaults at rows s r ≡ (ok b, t)
      → IsWritten vaults new s t
  unfolding committed
  committed-IsWritten vaults at new rows s t (err e) b is_stored h = absurd (not_ok h)
  committed-IsWritten vaults at new rows s t (ok stored) b is_stored h =
      let written = table.rows-create_many stored s.executions in
      let has = is_stored stored refl in
      subst (IsWritten vaults new s) (ap (λ p. p.1) h) (record {
        kept =
            let (more, e) = add_new-kept stored_key stored (table.rows s.executions) in
            (more, written ∙ e);
        there = keys_there vaults new stored _ has (
            subst (λ l. All (λ e. has_key (stored_key e) (table_keys l) ≡ true) stored)
              (sym written) (add_new-has stored_key stored (table.rows s.executions)));
        unique = λ once.
            subst (λ l. HasUnique (table_keys l)) (sym written)
              (add_new-HasUnique stored_key stored (table.rows s.executions) once);
        resolved =
            All-IsStored vaults
              (λ v r.
                count_open v r.automation_id (
                  failure_table.failures
                    (resolve_each failure_table (resolve_pairs stored []) at s.failures))
                ≡ 0)
              new stored has (resolved_all failure_table stored at s.failures);
        fewer = λ v a. resolve_each-le failure_table v a at (resolve_pairs stored []) s.failures;
      })

  priced-IsWritten :
      (vaults : Vaults) (at : ℕ) (new : List ExecutionRow) (s t : IndexState T F W)
      (r : Result String (List (Option String)) × W) (b : Bool)
      → priced table failure_table compute_usd vaults at new s r ≡ (ok b, t)
      → IsWritten vaults new s t
  unfolding priced
  priced-IsWritten vaults at new s t (err e, w) b h = absurd (not_ok h)
  priced-IsWritten vaults at new s t (ok usd, w) b h =
      let c =
        committed-IsWritten vaults at new new (record s { outside = w }) t
          (stored_rows vaults new usd) b (λ stored e. stored_rows-IsStored vaults new usd stored e)
          h in
      record {
        kept = c.kept;
        there = c.there;
        unique = c.unique;
        resolved = c.resolved;
        fewer = c.fewer;
      }

  persist_new-IsWritten :
      (vaults : Vaults) (at : ℕ) (new : List ExecutionRow) (s t : IndexState T F W) (b : Bool)
      → persist_new table failure_table compute_usd vaults at new s ≡ (ok b, t)
      → IsWritten vaults new s t
  unfolding persist_new
  persist_new-IsWritten vaults at [] s t b h =
      subst (IsWritten vaults [] s) (ap (λ p. p.1) h) (record {
        kept = ([], sym (append-nil _));
        there = tt;
        unique = λ once. once;
        resolved = tt;
        fewer = λ v a. omega arith;
      })
  persist_new-IsWritten vaults at (r ∷ rows) s t b h =
      priced-IsWritten vaults at (r ∷ rows) s t _ b h

  pub persist-IsWritten :
      (vaults : Vaults) (at : ℕ) (rows : List ExecutionRow) (s t : IndexState T F W) (b : Bool)
      → persist table failure_table compute_usd vaults at rows s ≡ (ok b, t)
      → IsWritten vaults (new_rows rows (table.rows s.executions)) s t
        × All (λ r. has_key (row_key r) (table_keys (table.rows t.executions)) ≡ true) rows
  unfolding persist new_rows
  persist-IsWritten vaults at rows s t b h =
      let c = persist_new-IsWritten vaults at _ s t b h in
      let (more, e) = c.kept in
      let old : (k : Key)
          → has_key k (table_keys (table.rows s.executions)) ≡ true
          → has_key k (table_keys (table.rows t.executions)) ≡ true =
        λ k m.
          rw
            (
              e,
              map-append stored_key (table.rows s.executions) more,
              has_key-append k (table_keys (table.rows s.executions)) (map stored_key more),
              m,
            )
            refl in
      (c, all_known rows rows (table.rows s.executions) _ (keys_of_self rows) old c.there)

  -- Where `persist` comes back: no row of the table is lost, its keys stay unique, the key of every row is in it,
  -- and no failure of the automation of a new row is open.
  pub persist-IsCommitted :
      (vaults : Vaults) (at : ℕ) (rows : List ExecutionRow) (s t : IndexState T F W) (b : Bool)
      → HasUnique (table_keys (table.rows s.executions))
      → persist table failure_table compute_usd vaults at rows s ≡ (ok b, t)
      → IsCommitted vaults (new_rows rows (table.rows s.executions)) s t
        × All (λ r. has_key (row_key r) (table_keys (table.rows t.executions)) ≡ true) rows
  persist-IsCommitted vaults at rows s t b unique h =
      let (w, all_there) = persist-IsWritten vaults at rows s t b h in
      (
        record {
          kept = w.kept;
          there = w.there;
          unique = w.unique unique;
          resolved = w.resolved;
          fewer = w.fewer;
        },
        all_there,
      )

  nothing_new :
      (vaults : Vaults) (at : ℕ) (rows : List ExecutionRow) (t : IndexState T F W)
      → All (λ r. has_key (row_key r) (table_keys (table.rows t.executions)) ≡ true) rows
      → persist table failure_table compute_usd vaults at rows t ≡ (ok false, t)
  unfolding persist new_rows persist_new
  nothing_new vaults at rows t h =
      rw (none_new rows rows (table.rows t.executions) (keys_of_self rows) h) refl

  -- Persisting the same rows again finds nothing new and changes nothing.
  pub persist_twice :
      (vaults : Vaults) (at later : ℕ) (rows : List ExecutionRow) (s t : IndexState T F W)
      (b : Bool)
      → HasUnique (table_keys (table.rows s.executions))
      → persist table failure_table compute_usd vaults at rows s ≡ (ok b, t)
      → persist table failure_table compute_usd vaults later rows t ≡ (ok false, t)
  persist_twice vaults at later rows s t b unique h =
      nothing_new vaults later rows t (persist-IsCommitted vaults at rows s t b unique h).1
