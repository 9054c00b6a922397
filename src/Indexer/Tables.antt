-- ===== src/Indexer/Tables.antt =====
-- The tables of the database that the indexer writes, as an interface: what Prisma documents of the calls that
-- packages/backend/src/indexer makes, for tables whose contents are lists of rows.
-- A call of the database that fails, which would end a pass of the indexer, is left out.
pub mod Keys
pub mod Lists
use strategy_builder_v.Prelude.{
  ℕ, zero, suc, ◌+◌, String, Option, none, some, List, [], ◌∷◌, ◌++◌, Bool, true, false, ◌&&◌, ◌||◌,
  map, if◌then◌else◌, ◌≡◌,
}
use strategy_builder_v.Prelude.Tests.{◌==◌ as ◌=ℕ◌}
use text.Mathlib.Text.{◌==◌}

-- `(txHash, logIndex)`
abbrev pub Key : Type 0
Key = String × ℕ

abbrev pub same_key : Key → Key → Bool
same_key (t, i) (u, j) = t == u && i =ℕ j

abbrev pub has_key : Key → List Key → Bool
has_key k [] = false
has_key k (l ∷ ls) = same_key l k || has_key k ls

module _ {R : Type 0} (key : R → Key) where
  -- `createMany` with `skipDuplicates`, on a table where keys are unique.
  abbrev pub add_new : List R → List R → List R
  add_new [] rows = rows
  add_new (r ∷ new) rows =
      add_new new (if has_key (key r) (map key rows) then rows else rows ++ r ∷ [])

  pub record UniqueTable (T : Type 0) : Type 0 where
    pub rows : T → List R
    pub create_many : List R → T → T
    pub rows-create_many : (new : List R) (t : T) → rows (create_many new t) ≡ add_new new (rows t)

pub record Failure : Type 0 where
  pub id : String
  pub vault_id : String
  pub automation_id : ℕ
  pub executor_address : String
  pub last_tx_hash : Option String
  pub error_message : String
  pub failure_path : String
  pub attempt_count : ℕ
  pub first_failed_at : ℕ
  pub last_failed_at : ℕ
  pub resolved_at : Option ℕ

abbrev pub is_null : Option ℕ → Bool
is_null none = true
is_null (some at) = false

-- `{ vaultId, automationId, resolvedAt: null }`
abbrev pub is_open : String → ℕ → Failure → Bool
is_open vault automation f =
    f.vault_id == vault && (f.automation_id =ℕ automation && is_null f.resolved_at)

abbrev pub count_open : String → ℕ → List Failure → ℕ
count_open vault automation [] = 0
count_open vault automation (f ∷ fs) =
    if is_open vault automation f
    then suc (count_open vault automation fs)
    else count_open vault automation fs

abbrev pub resolved : String → ℕ → ℕ → Failure → Failure
resolved vault automation at f =
    if is_open vault automation f then record f { resolved_at = some at } else f

abbrev pub updated_at : String → (Failure → Failure) → Failure → Failure
updated_at id f row = if row.id == id then f row else row

pub record FailureTable (T : Type 0) : Type 0 where
  pub failures : T → List Failure
  pub new_id : T → String
  pub find_open : String → ℕ → T → Option Failure
  pub update : String → (Failure → Failure) → T → T
  pub create : Failure → T → T
  pub resolve : String → ℕ → ℕ → T → T
  pub find_open-none :
      (vault : String) (automation : ℕ) (t : T)
      → find_open vault automation t ≡ none
      → count_open vault automation (failures t) ≡ 0
  pub failures-update :
      (id : String) (f : Failure → Failure) (t : T)
      → failures (update id f t) ≡ map (updated_at id f) (failures t)
  pub failures-create : (row : Failure) (t : T) → failures (create row t) ≡ failures t ++ row ∷ []
  pub failures-resolve :
      (vault : String) (automation at : ℕ) (t : T)
      → failures (resolve vault automation at t) ≡ map (resolved vault automation at) (failures t)
