-- ===== src/Indexer/Tick/Covered.antt =====
-- The cursor never passes an execution that is not persisted.
use strategy_builder_v.Prelude.{
  ℕ, ◌+◌, ◌-◌, ◌≤◌, Option, some, List, [], ◌∷◌, ◌++◌, Bool, true, map, all, flat_map,
  flat_map-append, interval, interval_join, ◌≡◌, refl, ap, ◌∙◌, sym, subst, arith, All, All-map,
  ◌⊎◌, inr, inl,
}
use strategy_builder_v.Prelude.Result.{Result, ok, err}
use strategy_builder_v.Prelude.Exec.{proceed, bind-ok, lift-ok}
use strategy_builder_v.Indexer.Planner.{BlockRange}
use strategy_builder_v.Indexer.Planner.Cover.{blocks}
use strategy_builder_v.Indexer.Planner.Chained.{IsChained}
use strategy_builder_v.Indexer.Fetch.{fetch_logs}
use strategy_builder_v.Indexer.Fetch.Complete.{Answers, Outcome, fetch_logs_complete}
use strategy_builder_v.Indexer.Rows.{RawLog, ParsedVaultLog, build_execution_rows, ExecutionRow}
use strategy_builder_v.Indexer.Tables.{has_key}
use strategy_builder_v.Indexer.Persist.{Vaults, persist, row_key, IndexState, PersistError}
use strategy_builder_v.Indexer.Persist.Kept.{persist-IsWritten}
use strategy_builder_v.Indexer.Tick.{
  TickState, TickError, Connections, renamed, on_node, on_index, run_flows, advance, timestamps_of,
  distinct, process_parsed, parse_all, known_logs, range_body, process_range, process_ranges,
  block_timestamp,
}
use strategy_builder_v.Indexer.Tick.Kept.{
  keys_in, Grows, Keeps-block_timestamp, Keeps-run_flows, Keeps-bind, Keeps-after, Keeps-range_body,
}
use strategy_builder_v.Indexer.Tick.Recorded.{
  is_recorded, is_entered, execution_rows-entered, parse_all-recorded,
}

renamed-ok : {A E F : Type 0} (f : E → F) (r : Result E A) (a : A) → renamed f r ≡ ok a → r ≡ ok a
renamed-ok f (ok x) a h = ap ok (cc (h))
renamed-ok f (err e) a h = absurd (cc)

all-implied :
    {A : Type 0} (p q : A → Bool) (xs : List A)
    → ((x : A) → p x ≡ true → q x ≡ true)
    → all p xs ≡ true
    → all q xs ≡ true
all-implied p q [] f h = refl
all-implied p q (x ∷ xs) f h = ground (arith, all-implied p q xs f, f x, h)

all-append :
    {A : Type 0} (p : A → Bool) (xs ys : List A)
    → all p xs ≡ true
    → all p ys ≡ true
    → all p (xs ++ ys) ≡ true
all-append p [] ys h k = k
all-append p (x ∷ xs) ys h k = ground (arith, all-append p xs ys, h, k)

module _ {T F E N : Type 0} (c : Connections T F E N) where
  on_index-ok :
      (call : IndexState T F N → Result PersistError Bool × IndexState T F N)
      (s t : TickState T F E N) (b : Bool)
      → on_index call s ≡ (ok b, t)
      → call s.index ≡ (ok b, t.index)
  unfolding on_index
  on_index-ok call s t b h =
      let first = renamed-ok TickError.persist_failed (call s.index).0 b (ap (λ p. p.0) h) in
      let second = ap (λ p. p.1.index) h in λ n. (first n, second n)

  -- The keys stay where the rest of the work only adds to the table.
  entered-kept :
      (s t : TickState T F E N) (rows : List ExecutionRow)
      → Grows c s t
      → All (λ r. has_key (row_key r) (keys_in c s.index) ≡ true) rows
      → All (λ r. has_key (row_key r) (keys_in c t.index) ≡ true) rows
  entered-kept s t rows g h = All-map _ _ (λ r k. g.kept (row_key r) k) rows h

  process_parsed-entered :
      (vaults : Vaults) (ps : List ParsedVaultLog) (s t : TickState T F E N) (b : Bool)
      → process_parsed c vaults ps s ≡ (ok b, t)
      → all (is_entered (keys_in c t.index)) ps ≡ true
  unfolding process_parsed
  process_parsed-entered vaults [] s t b h = refl
  process_parsed-entered vaults (p ∷ ps) s t b h =
      let (ts, s₁, e₁, h₁) =
        bind-ok (timestamps_of c (distinct (map (λ l. l.block_number) (p ∷ ps)) [])) _ s h in
      let (rows, e₂, h₂) =
        lift-ok (renamed TickError.rows_failed (build_execution_rows (p ∷ ps) ts)) _ s₁ h₁ in
      let (done, s₂, e₃, h₃) =
        bind-ok
          (on_index
            (λ i. persist c.executions c.failures c.compute_usd vaults (c.clock i.outside) rows i))
          _ s₁ h₂ in
      let written =
        persist-IsWritten c.executions c.failures c.compute_usd vaults (c.clock s₁.index.outside)
          rows s₁.index s₂.index done
          (on_index-ok
            (λ i. persist c.executions c.failures c.compute_usd vaults (c.clock i.outside) rows i)
            s₁ s₂ done e₃) in
      let grown : Grows c s₂ t =
        subst (Grows c s₂) (ap (λ p. p.1) h₃) ((Keeps-after c vaults (p ∷ ps) ts).grows s₂) in
      execution_rows-entered (keys_in c t.index) (p ∷ ps) ts (p ∷ ps) rows
        (renamed-ok TickError.rows_failed (build_execution_rows (p ∷ ps) ts) rows e₂)
        (entered-kept s₂ t rows grown written.1)

  module _ (chain : ℕ → List RawLog) (answers : Answers c.get_logs chain) (vaults : Vaults) where
    -- Where a log is that of an execution of a known vault, the table has it.
    abbrev pub is_kept : TickState T F E N → RawLog → Bool
    is_kept s l = is_recorded c.parse_log c.get_address vaults (keys_in c s.index) l

    fetched :
        (r : BlockRange) (s t : TickState T F E N) (logs : List RawLog)
        → r.from ≤ r.to
        → on_node TickError.fetch_failed (fetch_logs c.get_logs r) s ≡ (ok logs, t)
        → logs ≡ flat_map chain (blocks r)
    unfolding on_node
    fetched r s t logs le h =
        let came =
          renamed-ok TickError.fetch_failed (fetch_logs c.get_logs r s.index.outside).0 logs
            (ap (λ p. p.0) h) in
        subst (Outcome c.get_logs chain r) came
          (fetch_logs_complete c.get_logs chain answers r s.index.outside le)

    range_body-kept :
        (r : BlockRange) (s t : TickState T F E N) (ts : ℕ)
        → r.from ≤ r.to
        → range_body c vaults r s ≡ (ok ts, t)
        → all (is_kept t) (flat_map chain (blocks r)) ≡ true
    unfolding range_body
    range_body-kept r s t ts le h =
        let (logs, s₁, e₁, h₁) =
          bind-ok (on_node TickError.fetch_failed (fetch_logs c.get_logs r)) _ s h in
        let (parsed, e₂, h₂) =
          lift-ok
            (renamed TickError.rows_failed
              (parse_all c.parse_log c.get_address (known_logs c.get_address vaults logs)))
            _ s₁ h₁ in
        let (done, s₂, e₃, h₃) = bind-ok (process_parsed c vaults parsed) _ s₁ h₂ in
        let rest =
          Keeps-bind c (run_flows (c.index_flows r vaults)) (λ ran. block_timestamp c r.to)
            (Keeps-run_flows c (c.index_flows r vaults)) (λ ran. Keeps-block_timestamp c r.to) in
        let grown : Grows c s₂ t = subst (Grows c s₂) (ap (λ p. p.1) h₃) (rest.grows s₂) in
        let entered =
          all-implied (is_entered (keys_in c s₂.index)) (is_entered (keys_in c t.index)) parsed
            (λ p k. ground (arith, k, grown.kept (p.tx_hash, p.log_index)))
            (process_parsed-entered vaults parsed s₁ s₂ done e₃) in
        subst (λ l. all (is_kept t) l ≡ true) (fetched r s s₁ logs le e₁)
          (parse_all-recorded (keys_in c t.index) c.parse_log c.get_address vaults logs parsed
            (renamed-ok TickError.rows_failed _ parsed e₂) entered)

    -- The cursor is at `block`, and the logs after `start` up to it are kept.
    pub record IsCovered (start block : ℕ) (s : TickState T F E N) : Type 0 where
      pub timestamp : Option ℕ
      pub at : s.cursor ≡ some (record { last_processed_block = block; timestamp = timestamp })
      pub after : start ≤ block
      pub kept : all (is_kept s) (flat_map chain (interval (start + 1) (block - start))) ≡ true

    pub IsCovered-Grows :
        (start block : ℕ) (s t : TickState T F E N)
        → Grows c s t
        → IsCovered start block s
        → IsCovered start block t
    IsCovered-Grows start block s t g h = record {
      timestamp = h.timestamp;
      at = g.cursor ∙ h.at;
      after = h.after;
      kept =
          all-implied (is_kept s) (is_kept t) _
            (λ l k. ground (arith, k, g.kept (l.transaction_hash, l.index))) h.kept;
    }

    -- The next window is done, or the cursor stays.
    advanced :
        (start block : ℕ) (r : BlockRange) (s m : TickState T F E N) (res : Result TickError ℕ)
        → r.from ≡ block + 1
        → r.from ≤ r.to
        → IsCovered start block s
        → Grows c s m
        → ((ts : ℕ) → res ≡ ok ts → all (is_kept m) (flat_map chain (blocks r)) ≡ true)
        → ((proceed (advance r.to) res m).0 ≡ ok true)
            × IsCovered start r.to (proceed (advance r.to) res m).1
          ⊎ (e : TickError) × ((proceed (advance r.to) res m).0 ≡ err e)
            × IsCovered start block (proceed (advance r.to) res m).1
    unfolding advance
    advanced start block r s m (err e) next le h g k =
        inr (e, refl, IsCovered-Grows start block s m g h)
    advanced start block r s m (ok ts) next le h g k =
        let before = IsCovered-Grows start block s m g h in
        let after : start ≤ block = h.after in
        let joined : interval (start + 1) (block - start) ++ blocks r
            ≡ interval (start + 1) (r.to - start) =
          interval_join (start + 1) (block - start) (r.to + 1 - r.from) r.from (r.to - start)
            (omega (arith, after, next)) (omega (arith, after, next, le)) in
        inl (
          refl,
          record {
            timestamp = some ts;
            at = refl;
            after = omega (arith, after, next, le);
            kept =
                subst (λ bs. all (is_kept m) (flat_map chain bs) ≡ true) joined
                  (rw (flat_map-append chain (interval (start + 1) (block - start)) (blocks r))
                    (all-append (is_kept m) _ (flat_map chain (blocks r)) before.kept (k ts refl)));
          },
        )

    process_range-IsCovered :
        (start block : ℕ) (r : BlockRange) (s : TickState T F E N)
        → r.from ≡ block + 1
        → r.from ≤ r.to
        → IsCovered start block s
        → ((process_range c vaults r s).0 ≡ ok true)
            × IsCovered start r.to (process_range c vaults r s).1
          ⊎ (e : TickError) × ((process_range c vaults r s).0 ≡ err e)
            × IsCovered start block (process_range c vaults r s).1
    unfolding process_range
    process_range-IsCovered start block r s next le h =
        advanced start block r s (range_body c vaults r s).1 (range_body c vaults r s).0 next le h
          ((Keeps-range_body c vaults r).grows s)
          (λ ts e.
            range_body-kept r s (range_body c vaults r s).1 ts le
              (λ n. (e n, (range_body c vaults r s).1)))

    pub process_ranges-IsCovered :
        (start block : ℕ) (rs : List BlockRange) (s : TickState T F E N)
        → IsChained (block + 1) rs
        → IsCovered start block s
        → (last : ℕ) × IsCovered start last (process_ranges c vaults rs s).1
    unfolding process_ranges
    process_ranges-IsCovered start block [] s chained h = (block, h)
    process_ranges-IsCovered start block (r ∷ rs) s (next, le, rest) h =
        elim (process_range-IsCovered start block r s next le h) [
          | inr (e, stopped, covered) ↦ (
            block,
            subst
                (λ x.
                  IsCovered start block
                    (proceed (λ done. process_ranges c vaults rs) x
                      (process_range c vaults r s).1).1)
                (sym stopped) covered,
          )
          | inl (done, covered) ↦
              let (last, final) =
                process_ranges-IsCovered start r.to rs (process_range c vaults r s).1 rest
                  covered in
              (
                last,
                subst
                    (λ x.
                      IsCovered start last
                        (proceed (λ done. process_ranges c vaults rs) x
                          (process_range c vaults r s).1).1)
                    (sym done) final,
              )
        ]
