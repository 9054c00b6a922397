-- ===== src/Encoding/Tests.antt =====
-- Runs of the encoder.
use strategy_builder_v.Prelude.{ℕ, String, some, List, [], ◌∷◌, true, ◌≡◌, refl, filter, find, ◌↔◌}
use strategy_builder_v.Prelude.Result.{ok}
use strategy_builder_v.Graph.{StepCategory, action, GraphEdge, out}
use strategy_builder_v.Graph.Bfs.{bfs_order}
use strategy_builder_v.Graph.Incoming.{is_unlinked}
use strategy_builder_v.Graph.Bfs.Order.{IsNumbering}
use strategy_builder_v.Encoding.{EditorNode, start_nodes, infer_owner_only, bfs}
use strategy_builder_v.Encoding.Start.{
  from_nowhere, start_nodes-no_incoming, bfs-IsNumbering, infer_owner_only-IsSingleAction,
  IsSingleAction,
}

abbrev node : String → StepCategory → EditorNode ℕ
node id category = record { id = id; category = category; step_type_id = "t"; params = 0 }

abbrev nodes : List (EditorNode ℕ)
nodes = node "b" action ∷ node "a" action ∷ []

abbrev edges : List GraphEdge
edges = record { id = "e"; source = "a"; target = "b"; source_handle = out } ∷ []

start_nodes-no_incoming_example : start_nodes nodes edges ≡ filter (from_nowhere edges) nodes
start_nodes-no_incoming_example = start_nodes-no_incoming nodes edges

bfs_runs : bfs nodes edges ≡ ok ("a" ∷ "b" ∷ [])
unfolding bfs bfs_order is_unlinked
bfs_runs = refl

bfs-IsNumbering_example :
    (n : EditorNode ℕ) × (find (from_nowhere edges) nodes ≡ some n)
    × IsNumbering edges n.id ("a" ∷ "b" ∷ [])
bfs-IsNumbering_example = bfs-IsNumbering nodes edges ("a" ∷ "b" ∷ []) bfs_runs

owner_runs : infer_owner_only nodes edges ≡ true
unfolding infer_owner_only is_unlinked
owner_runs = refl

infer_owner_only-IsSingleAction_example :
    (infer_owner_only nodes edges ≡ true) ↔ IsSingleAction (filter (from_nowhere edges) nodes)
infer_owner_only-IsSingleAction_example = infer_owner_only-IsSingleAction nodes edges
