-- ===== src/Graph/Connect.antt =====
-- packages/frontend/src/features/automation-editor/lib/is-valid-connection.ts: whether the editor
-- lets the user draw an edge.
pub mod Acyclic
pub mod Search
use strategy_builder_v.Prelude.{
  ℕ, zero, suc, ◌+◌, String, Option, none, some, List, [], ◌∷◌, ◌++◌, Bool, true, false, map, not,
  all, length, if◌then◌else◌,
}
use strategy_builder_v.Prelude.Names.{mem}
use strategy_builder_v.Prelude.Result.{Result, ok, err}
use strategy_builder_v.Graph.{GraphNode, GraphEdge, targets}
use text.Mathlib.Text.{◌==◌}

-- The handle that the edge would leave from is not read.
pub record Connection : Type 0 where
  pub source : String
  pub target : String

-- `adj.get(edge.source)!` is undefined, and `push` throws.
pub data ConnectError : Type 0 where
  unknown_source : ConnectError

-- `stack.push` of each neighbour: the last one is on top.
unfoldable pub push_all : List String → List String → List String
push_all [] stack = stack
push_all (x ∷ xs) stack = push_all xs (x ∷ stack)

-- The loop, on fuel, with the top of the stack at the front: whether `goal` is never popped.
unfoldable pub search : ℕ → List GraphEdge → String → List String → List String → Bool
unfolding push_all
search zero edges goal visited stack = true
search (suc fuel) edges goal visited [] = true
search (suc fuel) edges goal visited (id ∷ stack) =
    let again = search fuel edges goal visited stack in
    let onward = search fuel edges goal (id ∷ visited) (push_all (targets edges id) stack) in
    if id == goal then false else if mem id visited then again else onward

-- Every round takes an entry off the stack, and every edge puts one on it at most once.
abbrev pub search_from : List GraphEdge → String → String → Bool
search_from edges goal start = search (suc (suc (length edges))) edges goal [] (start ∷ [])

unfoldable pub is_valid_connection :
    {P : Type 0} → Connection → List (GraphNode P) → List GraphEdge → Result ConnectError Bool
unfolding search
is_valid_connection connection nodes edges =
    if connection.source == connection.target
    then ok false
    else if all (λ e. mem e.source (map (λ n. n.id) nodes)) edges
    then ok (search_from edges connection.source connection.target)
    else err unknown_source
