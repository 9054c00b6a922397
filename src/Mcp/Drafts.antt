-- ===== src/Mcp/Drafts.antt =====
-- packages/mcp/src/draft-store.ts: validated drafts, kept until they are deployed or expire.
-- The clock's answer and the random id of a new draft are arguments.
pub mod Once
mod Tests
use strategy_builder_v.Prelude.{
  ℕ, ◌+◌, String, Option, none, some, List, [], ◌∷◌, Bool, ltb, if◌then◌else◌,
}
use text.Mathlib.Text.{◌==◌}

pub record Entry (D : Type 0) : Type 0 where
  pub draft : D
  pub expires_at : ℕ

-- The `Map` of the store; its order is never read.
pub record DraftStore (D : Type 0) : Type 0 where
  pub map : List (String × Entry D)
  pub ttl_ms : ℕ

module _ {D : Type 0} where
  unfoldable pub map_get : String → List (String × Entry D) → Option (Entry D)
  map_get id [] = none
  map_get id ((k, e) ∷ m) = if k == id then some e else map_get id m

  unfoldable pub map_delete : String → List (String × Entry D) → List (String × Entry D)
  map_delete id [] = []
  map_delete id ((k, e) ∷ m) = let rest = map_delete id m in if k == id then rest else (k, e) ∷ rest

  -- `create`: the id is `genId()`, and `now` is `clock()`.
  unfoldable pub create : String → ℕ → D → DraftStore D → DraftStore D
  create id now draft s = record s {
    map = (id, record { draft = draft; expires_at = now + s.ttl_ms }) ∷ map_delete id s.map;
  }

  check_expiry : String → ℕ → DraftStore D → Option (Entry D) → Option D × DraftStore D
  check_expiry id now s none = (none, s)
  check_expiry id now s (some entry) =
      if ltb entry.expires_at now
      then (none, record s { map = map_delete id s.map })
      else (some entry.draft, s)

  unfoldable pub get : String → ℕ → DraftStore D → Option D × DraftStore D
  unfolding check_expiry map_get map_delete
  get id now s = check_expiry id now s (map_get id s.map)

  taken : String → Option D × DraftStore D → Option D × DraftStore D
  taken id (none, s) = (none, s)
  taken id (some draft, s) = (some draft, record s { map = map_delete id s.map })

  unfoldable pub consume : String → ℕ → DraftStore D → Option D × DraftStore D
  unfolding get taken
  consume id now s = taken id (get id now s)
