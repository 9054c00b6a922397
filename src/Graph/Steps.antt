-- ===== src/Graph/Steps.antt =====
-- packages/frontend/src/features/automation-editor/lib/graph-to-steps.ts: the list of steps of a
-- graph, for the contract.
pub mod Wired
use strategy_builder_v.Prelude.{ℕ, String, Option, none, some, List, [], ◌∷◌, map}
use strategy_builder_v.Prelude.Names.{map_get}
use strategy_builder_v.Prelude.Result.{◌>>=◌, Result, ok, err, map_result}
use strategy_builder_v.Graph.{StepCategory, GraphNode, GraphEdge, out_edges}
use strategy_builder_v.Graph.Bfs.{bfs_order}
use strategy_builder_v.Graph.Wiring.{numbered, next_steps}

pub record StepOutput (P : Type 0) : Type 0 where
  pub step_type : StepCategory
  pub target : String
  pub selector : String
  pub next_on_true : ℕ
  pub next_on_false : ℕ
  pub params : P

-- `nodeMap.get(nodeId)!` is undefined, and the read of `node.type` throws.
pub data StepError : Type 0 where
  not_a_node : String → StepError

module _ {P : Type 0} where
  abbrev pub node_map : List (GraphNode P) → List (String × GraphNode P)
  node_map nodes = map (λ n. (n.id, n)) nodes

  step_output : String → GraphNode P → List (String × ℕ) → List GraphEdge → StepOutput P
  step_output id node index_map edges =
      let (on_true, on_false) = next_steps node.category index_map (out_edges edges id) in
      record {
        step_type = node.category;
        target = node.info.contract_address;
        selector = node.info.selector;
        next_on_true = on_true;
        next_on_false = on_false;
        params = node.info.params;
      }

  or_not_a_node : String → Option (GraphNode P) → Result StepError (GraphNode P)
  or_not_a_node id none = err (not_a_node id)
  or_not_a_node id (some node) = ok node

  step_at :
      List (GraphNode P)
      → List GraphEdge
      → List (String × ℕ)
      → String
      → Result StepError (StepOutput P)
  unfolding step_output or_not_a_node
  step_at nodes edges index_map id = do
    node ← or_not_a_node id (map_get id (node_map nodes))
    ok (step_output id node index_map edges)

  unfoldable pub graph_to_steps :
      List (GraphNode P) → List GraphEdge → String → Result StepError (List (StepOutput P))
  unfolding step_at
  graph_to_steps [] edges start = ok []
  graph_to_steps nodes edges start =
      let order = bfs_order edges start in map_result (step_at nodes edges (numbered 0 order)) order
