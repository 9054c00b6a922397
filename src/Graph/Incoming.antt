-- ===== src/Graph/Incoming.antt =====
-- How the code counts incoming edges, in packages/frontend/src/features/automation-editor/lib/
-- validate-graph.ts, in the store beside it, and in packages/backend/src/automation/
-- encoding.service.ts.
pub mod Exact
use strategy_builder_v.Prelude.{
  ℕ, zero, suc, ◌+◌, String, Option, none, some, List, [], ◌∷◌, Bool, true, false,
}
use strategy_builder_v.Prelude.Names.{get_key, set_key}
use strategy_builder_v.Graph.{GraphEdge}

count_of : Option ℕ → ℕ
count_of none = 0
count_of (some c) = c

-- One more for the target of every edge.
bumped : List GraphEdge → List (String × ℕ) → List (String × ℕ)
unfolding count_of
bumped [] counts = counts
bumped (e ∷ edges) counts =
    bumped edges (set_key e.target (count_of (get_key e.target counts) + 1) counts)

abbrev is_zero : Option ℕ → Bool
is_zero none = false
is_zero (some zero) = true
is_zero (some (suc c)) = false

-- First zero for every node.
zeros : List String → List (String × ℕ) → List (String × ℕ)
zeros [] counts = counts
zeros (id ∷ ids) counts = zeros ids (set_key id 0 counts)

-- `incomingCount.get(id) === 0`
unfoldable pub is_unlinked : List String → List GraphEdge → String → Bool
unfolding zeros bumped
is_unlinked ids edges id = is_zero (get_key id (bumped edges (zeros ids [])))
