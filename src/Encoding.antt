-- ===== src/Encoding.antt =====
-- packages/backend/src/automation/encoding.service.ts: where the encoder starts. The numbering of the
-- steps is the one of the editor, so `bfs_order` stands for the loop of `bfs`.
pub mod Start
mod Tests
use strategy_builder_v.Prelude.{
  ℕ, zero, suc, ◌+◌, String, Option, none, some, List, [], ◌∷◌, Bool, true, false, filter, find,
  map,
}
use strategy_builder_v.Prelude.Result.{Result, ok, err}
use strategy_builder_v.Graph.{StepCategory, condition, action, GraphEdge}
use strategy_builder_v.Graph.Bfs.{bfs_order}
use strategy_builder_v.Graph.Incoming.{is_unlinked}

pub record EditorNode (P : Type 0) : Type 0 where
  pub id : String
  pub category : StepCategory
  pub step_type_id : String
  pub params : P

pub data EncodeError : Type 0 where
  no_start_node : EncodeError

module _ {P : Type 0} where
  unfoldable pub is_start : List (EditorNode P) → List GraphEdge → EditorNode P → Bool
  is_start nodes edges n = is_unlinked (map (λ n. n.id) nodes) edges n.id

  unfoldable pub start_nodes : List (EditorNode P) → List GraphEdge → List (EditorNode P)
  unfolding is_start
  start_nodes nodes edges = filter (is_start nodes edges) nodes

  owner_only_of : List (EditorNode P) → Bool
  owner_only_of [] = false
  owner_only_of (n ∷ []) = elim n.category [ condition ↦ false | action ↦ true ]
  owner_only_of (n ∷ m ∷ rest) = false

  unfoldable pub infer_owner_only : List (EditorNode P) → List GraphEdge → Bool
  unfolding start_nodes owner_only_of
  infer_owner_only nodes edges = owner_only_of (start_nodes nodes edges)

  order_from : List GraphEdge → Option (EditorNode P) → Result EncodeError (List String)
  order_from edges none = err no_start_node
  order_from edges (some n) = ok (bfs_order edges n.id)

  unfoldable pub bfs : List (EditorNode P) → List GraphEdge → Result EncodeError (List String)
  unfolding order_from is_start
  bfs nodes edges = order_from edges (find (is_start nodes edges) nodes)
