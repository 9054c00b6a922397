-- ===== src/Indexer/Persist/Stored.antt =====
-- The rows that `persist` writes, and the failures that they resolve.
use strategy_builder_v.Prelude.{
  ℕ, ◌≤◌, String, Option, none, some, List, [], ◌∷◌, ◌++◌, true, not, ◌&&◌, ◌||◌, map, filter, ◌≡◌,
  refl, ap, ◌∙◌, sym, arith, All, All-map, Bool-cases, inl, inr, subst,
}
use strategy_builder_v.Prelude.Tests.{◌==◌ as ◌=ℕ◌}
use strategy_builder_v.Prelude.Names.{get_key}
use strategy_builder_v.Prelude.Result.{Result, ok, err}
use strategy_builder_v.Indexer.Rows.{ExecutionRow}
use strategy_builder_v.Indexer.Tables.{Key, has_key, FailureTable, count_open}
use strategy_builder_v.Indexer.Tables.Keys.{
  has_key-filter, count_open-resolved, count_open-resolved_zero, same_key_refl,
}
use strategy_builder_v.Indexer.Persist.{
  StoredExecution, row_key, stored_key, PersistError, Vaults, matching, stored_as, consed,
  stored_rows, has_pair, resolve_pairs, resolve_each,
}
use text.Mathlib.Text.{◌==◌}
use text.Mathlib.TextEquality.{eq_iff}
use text.Mathlib.TextPositions.{eq_refl}

abbrev pub table_keys : List StoredExecution → List Key
table_keys rows = map stored_key rows

-- Every stored row is a row that was to be stored, with the id of its vault.
abbrev pub IsStored : Vaults → List ExecutionRow → List StoredExecution → Type 0
IsStored vaults [] [] = Unit
IsStored vaults [] (e ∷ stored) = ⊥
IsStored vaults (r ∷ rows) [] = ⊥
IsStored vaults (r ∷ rows) (e ∷ stored) =
    ((e.row ≡ r) × (get_key r.vault_address vaults ≡ some e.vault_id)) × IsStored vaults rows stored

stored_as-eq :
    (r : ExecutionRow) (u o : Option String) (e : StoredExecution)
    → stored_as r u o ≡ ok e
    → (e.row ≡ r) × (o ≡ some e.vault_id)
unfolding stored_as
stored_as-eq r u none e h = absurd (cc)
stored_as-eq r u (some v) e h =
    let same : record { vault_id = v; row = r; gas_comp_usd = u } ≡ e = cc (h) in
    (sym (ap (λ x. x.row) same), ap (λ x. some x.vault_id) same)

consed-eq :
    {A : Type 0} (first : Result PersistError A) (rest : Result PersistError (List A))
    (all : List A)
    → consed first rest ≡ ok all
    → (a : A) × (as_ : List A) × (first ≡ ok a) × (rest ≡ ok as_) × (all ≡ a ∷ as_)
unfolding consed
consed-eq (err e) rest all h = absurd (cc)
consed-eq (ok a) (err e) all h = absurd (cc)
consed-eq (ok a) (ok as_) all h = (a, as_, refl, refl, cc (h))

pub stored_rows-IsStored :
    (vaults : Vaults) (rows : List ExecutionRow) (usd : List (Option String))
    (stored : List StoredExecution)
    → stored_rows vaults rows usd ≡ ok stored
    → IsStored vaults rows stored
unfolding stored_rows
stored_rows-IsStored vaults [] usd [] h = tt
stored_rows-IsStored vaults [] usd (e ∷ stored) h = cc (h)
stored_rows-IsStored vaults (r ∷ rows) [] stored h =
    let (e, es, first, rest, same) =
      consed-eq (stored_as r none (get_key r.vault_address vaults)) _ stored h in
    subst (IsStored vaults (r ∷ rows)) (sym same)
      (stored_as-eq r none _ e first, stored_rows-IsStored vaults rows [] es rest)
stored_rows-IsStored vaults (r ∷ rows) (u ∷ usd) stored h =
    let (e, es, first, rest, same) =
      consed-eq (stored_as r u (get_key r.vault_address vaults)) _ stored h in
    subst (IsStored vaults (r ∷ rows)) (sym same)
      (stored_as-eq r u _ e first, stored_rows-IsStored vaults rows usd es rest)

-- What holds of the stored rows holds of the rows, with the ids of their vaults.
pub All-IsStored :
    (vaults : Vaults) (P : String → ExecutionRow → Type 0) (rows : List ExecutionRow)
    (stored : List StoredExecution)
    → IsStored vaults rows stored
    → All (λ e. P e.vault_id e.row) stored
    → All (λ r. (v : String) × (get_key r.vault_address vaults ≡ some v) × P v r) rows
All-IsStored vaults P [] stored h k = tt
All-IsStored vaults P (r ∷ rows) [] h k = absurd h
All-IsStored vaults P (r ∷ rows) (e ∷ stored) h k =
    ((e.vault_id, h.0.1, subst (P e.vault_id) h.0.0 k.0), All-IsStored vaults P rows stored h.1 k.1)

has_pair-append :
    (v : String) (a : ℕ) (ps qs : List (String × ℕ))
    → has_pair v a (ps ++ qs) ≡ (has_pair v a ps || has_pair v a qs)
has_pair-append v a [] qs = refl
has_pair-append v a ((w, b) ∷ ps) qs = ground (arith, has_pair-append v a ps qs)

resolve_pairs-kept :
    (v : String) (a : ℕ) (stored : List StoredExecution) (ps : List (String × ℕ))
    → has_pair v a ps ≡ true
    → has_pair v a (resolve_pairs stored ps) ≡ true
unfolding resolve_pairs
resolve_pairs-kept v a [] ps h = h
resolve_pairs-kept v a (e ∷ es) ps h =
    elim (Bool-cases (has_pair e.vault_id e.row.automation_id ps)) [
      | inl there ↦ rw there (resolve_pairs-kept v a es ps h)
      | inr absent ↦ rw absent (
          resolve_pairs-kept v a es (ps ++ (e.vault_id, e.row.automation_id) ∷ [])
            (rw (has_pair-append v a ps ((e.vault_id, e.row.automation_id) ∷ []), h) refl))
    ]

resolve_pairs-all :
    (stored : List StoredExecution) (ps : List (String × ℕ))
    → All (λ e. has_pair e.vault_id e.row.automation_id (resolve_pairs stored ps) ≡ true) stored
unfolding resolve_pairs
resolve_pairs-all [] ps = tt
resolve_pairs-all (e ∷ es) ps = elim (Bool-cases (has_pair e.vault_id e.row.automation_id ps)) [
  | inl there ↦
      let same : resolve_pairs (e ∷ es) ps ≡ resolve_pairs es ps = rw there refl in
      subst (λ qs. All (λ x. has_pair x.vault_id x.row.automation_id qs ≡ true) (e ∷ es)) (sym same)
        (resolve_pairs-kept e.vault_id e.row.automation_id es ps there, resolve_pairs-all es ps)
  | inr absent ↦
      let more = ps ++ (e.vault_id, e.row.automation_id) ∷ [] in
      let same : resolve_pairs (e ∷ es) ps ≡ resolve_pairs es more = rw absent refl in
      let last : has_pair e.vault_id e.row.automation_id more ≡ true =
        rw
          (has_pair-append e.vault_id e.row.automation_id ps
            ((e.vault_id, e.row.automation_id) ∷ []))
          (ground (arith, eq_refl e.vault_id)) in
      subst (λ qs. All (λ x. has_pair x.vault_id x.row.automation_id qs ≡ true) (e ∷ es)) (sym same)
        (resolve_pairs-kept e.vault_id e.row.automation_id es more last, resolve_pairs-all es more)
]

module _ {F : Type 0} (table : FailureTable F) where
  pub resolve_each-le :
      (v : String) (a at : ℕ) (pairs : List (String × ℕ)) (t : F)
      → count_open v a (table.failures (resolve_each table pairs at t))
        ≤ count_open v a (table.failures t)
  unfolding resolve_each
  resolve_each-le v a at [] t = omega arith
  resolve_each-le v a at ((w, b) ∷ pairs) t =
      let rest = resolve_each-le v a at pairs (table.resolve w b at t) in
      let step = count_open-resolved v a w b at (table.failures t) in
      let same = ap (count_open v a) (table.failures-resolve w b at t) in
      omega (arith, rest, step, same)

  pub resolve_each-zero :
      (v : String) (a at : ℕ) (pairs : List (String × ℕ)) (t : F)
      → has_pair v a pairs ≡ true
      → count_open v a (table.failures (resolve_each table pairs at t)) ≡ 0
  unfolding resolve_each
  resolve_each-zero v a at [] t h = absurd (cc)
  resolve_each-zero v a at ((w, b) ∷ pairs) t h = elim (Bool-cases (w == v && b =ℕ a)) [
    | inr other ↦ resolve_each-zero v a at pairs (table.resolve w b at t) (rw other at h)
    | inl here ↦
        let vault : w ≡ v = (eq_iff w v).0 (ground (arith, here)) in
        let automation : b ≡ a = ground (arith, here) in
        let rest = resolve_each-le v a at pairs (table.resolve w b at t) in
        let gone : count_open v a (table.failures (table.resolve w b at t)) ≡ 0 =
          rw (vault, automation)
            (ap (count_open v a) (table.failures-resolve v a at t)
              ∙ count_open-resolved_zero v a at (table.failures t)) in
        omega (arith, rest, gone)
  ]

-- The failures of every stored row are resolved.
pub resolved_all :
    {F : Type 0} (table : FailureTable F) (stored : List StoredExecution) (at : ℕ) (t : F)
    → All
        (λ e.
          count_open e.vault_id e.row.automation_id
            (table.failures (resolve_each table (resolve_pairs stored []) at t))
          ≡ 0)
        stored
resolved_all table stored at t =
    All-map _ _
      (λ e h.
        resolve_each-zero table e.vault_id e.row.automation_id at (resolve_pairs stored []) t h)
      stored (resolve_pairs-all stored [])

-- The rows that are not new have their keys in the table already.
pub all_known :
    (all_rows rows : List ExecutionRow) (table : List StoredExecution) (keys : List Key)
    → All (λ r. has_key (row_key r) (map row_key all_rows) ≡ true) rows
    → ((k : Key) → has_key k (table_keys table) ≡ true → has_key k keys ≡ true)
    → All
        (λ r. has_key (row_key r) keys ≡ true)
        (filter
          (λ r. not (has_key (row_key r) (map stored_key (matching (map row_key all_rows) table))))
          rows)
    → All (λ r. has_key (row_key r) keys ≡ true) rows
unfolding matching
all_known all_rows [] table keys h old new = tt
all_known all_rows (r ∷ rows) table keys h old new =
    let found = has_key-filter stored_key (row_key r) (map row_key all_rows) table h.0 in
    elim (Bool-cases (has_key (row_key r) (table_keys table))) [
      | inl there ↦ (
        old (row_key r) there,
        all_known all_rows rows table keys h.1 old (rw (found, there) at new),
      )
      | inr absent ↦
          let parts = rw (found, absent) at new in
          (parts.0, all_known all_rows rows table keys h.1 old parts.1)
    ]

pub none_new :
    (all_rows rows : List ExecutionRow) (table : List StoredExecution)
    → All (λ r. has_key (row_key r) (map row_key all_rows) ≡ true) rows
    → All (λ r. has_key (row_key r) (table_keys table) ≡ true) rows
    → filter
        (λ r. not (has_key (row_key r) (map stored_key (matching (map row_key all_rows) table))))
        rows
      ≡ []
unfolding matching
none_new all_rows [] table h k = refl
none_new all_rows (r ∷ rows) table h k =
    rw (has_key-filter stored_key (row_key r) (map row_key all_rows) table h.0, k.0)
      (none_new all_rows rows table h.1 k.1)

pub keys_of_self :
    (rows : List ExecutionRow) → All (λ r. has_key (row_key r) (map row_key rows) ≡ true) rows
keys_of_self [] = tt
keys_of_self (r ∷ rows) = (
  ground (arith, same_key_refl (row_key r)),
  All-map _ _ (λ x h. ground (arith, h)) rows (keys_of_self rows),
)
