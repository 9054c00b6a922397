-- ===== src/Mcp/Drafts/Tests.antt =====
-- Runs of the store of drafts.
use strategy_builder_v.Prelude.{ℕ, String, none, some, [], ◌∷◌, ◌≡◌, ◌≢◌, arith, inr}
use strategy_builder_v.Mcp.Drafts.{DraftStore, create, consume}
use strategy_builder_v.Mcp.Drafts.Once.{creates, gets, run, consume_once, consume-create}
use text.Mathlib.TextEquality.{eq_iff}

a_is_not_b : ◌≢◌ {A = String} "b" "a"
a_is_not_b p = let e = (eq_iff "b" "a").1 p in cc

-- The drafts: numbers, in a store where they live for ten milliseconds.
abbrev empty : DraftStore ℕ
empty = record { map = []; ttl_ms = 10 }

consume_once_example :
    (consume "a" 9
      (run (creates "b" 4 8 ∷ gets "a" 5 ∷ []) (consume "a" 3 (create "a" 1 7 empty)).1)).0
    ≡ none
consume_once_example =
    consume_once "a" 3 9 (creates "b" 4 8 ∷ gets "a" 5 ∷ []) (create "a" 1 7 empty) (a_is_not_b, tt)

consume-create_example :
    (consume "a" 11 (run (gets "a" 5 ∷ creates "b" 6 8 ∷ []) (create "a" 1 7 empty))).0 ≡ some 7
consume-create_example =
    consume-create "a" 1 11 7 (gets "a" 5 ∷ creates "b" 6 8 ∷ []) empty
      (inr (omega arith), (a_is_not_b, tt))
