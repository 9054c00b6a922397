-- ===== src/Graph/Validate.antt =====
-- packages/frontend/src/features/automation-editor/lib/validate-graph.ts: what the editor checks of
-- a graph before it is encoded.
pub mod Cycle
pub mod Sound
mod Tests
use strategy_builder_v.Prelude.{
  ℕ, String, Option, none, some, List, [], ◌∷◌, ◌++◌, Bool, true, false, ◌&&◌, not, map, filter,
  length, if◌then◌else◌, ◌<◌, ltb,
}
use strategy_builder_v.Prelude.Names.{mem}
use strategy_builder_v.Prelude.Result.{Result, ok, err}
use strategy_builder_v.Graph.{GraphNode, GraphEdge, StepCategory, condition, action, out_edges}
use strategy_builder_v.Graph.Bfs.{reachable}
use strategy_builder_v.Graph.Incoming.{is_unlinked}
use strategy_builder_v.Graph.Connect.{ConnectError}
use strategy_builder_v.Graph.Validate.Cycle.{has_cycle}

pub record ValidationError : Type 0 where
  pub message : String
  pub node_id : Option String
  pub field_name : Option String

abbrev pub max_steps : ℕ
max_steps = 256

unfoldable pub error : String → ValidationError
error message = record { message = message; node_id = none; field_name = none }

unfoldable pub error_at : String → String → ValidationError
error_at message id = record { message = message; node_id = some id; field_name = none }

unfoldable pub public_error : Bool → String → StepCategory → List ValidationError
unfolding error_at
public_error true id action = error_at "Public automation must start with a Condition" id ∷ []
public_error true id condition = []
public_error false id category = []

unfoldable pub cycle_errors : Bool → List ValidationError
unfolding error
cycle_errors cyclic = if cyclic then error "Graph contains a cycle" ∷ [] else []

unfoldable pub arity_errors : StepCategory → String → List GraphEdge → List ValidationError
unfolding error_at
arity_errors condition id [] = error_at "Condition must have at least one outgoing edge" id ∷ []
arity_errors condition id (e ∷ es) = []
arity_errors action id [] = []
arity_errors action id (e ∷ []) = []
arity_errors action id (e ∷ f ∷ es) = error_at "Action must have at most one outgoing edge" id ∷ []

module _ {P : Type 0} where
  unfoldable pub start_errors : List (GraphNode P) → List ValidationError
  unfolding error error_at
  start_errors [] = error "No start node found (all nodes have incoming edges)" ∷ []
  start_errors (n ∷ []) = []
  start_errors (n ∷ m ∷ rest) =
      map (λ n. error_at "Multiple start nodes detected" n.id) (n ∷ m ∷ rest)

  -- Where the start node is the only one.
  unfoldable pub public_errors : Bool → List (GraphNode P) → List ValidationError
  unfolding public_error
  public_errors is_public [] = []
  public_errors is_public (n ∷ []) = public_error is_public n.id n.category
  public_errors is_public (n ∷ m ∷ rest) = []

  unfoldable pub all_arity_errors : List GraphEdge → List (GraphNode P) → List ValidationError
  unfolding arity_errors
  all_arity_errors edges [] = []
  all_arity_errors edges (n ∷ nodes) =
      arity_errors n.category n.id (out_edges edges n.id) ++ all_arity_errors edges nodes

  unfoldable pub unreached : List String → List (GraphNode P) → List ValidationError
  unfolding error_at
  unreached names [] = []
  unreached names (n ∷ nodes) =
      let rest = unreached names nodes in
      if mem n.id names then rest else error_at "Node is unreachable from start" n.id ∷ rest

  -- Where the start node is the only one.
  unfoldable pub reach_errors :
      List GraphEdge → List (GraphNode P) → List (GraphNode P) → List ValidationError
  unfolding unreached
  reach_errors edges nodes [] = []
  reach_errors edges nodes (n ∷ []) = unreached (reachable edges n.id) nodes
  reach_errors edges nodes (n ∷ m ∷ rest) = []

  -- What follows the two checks of the number of nodes.
  unfoldable pub all_errors :
      List (GraphNode P)
      → List GraphEdge
      → Bool
      → List (GraphNode P)
      → Result ConnectError Bool
      → Result ConnectError (List ValidationError)
  unfolding start_errors public_errors cycle_errors all_arity_errors reach_errors
  all_errors nodes edges is_public starts (err e) = err e
  all_errors nodes edges is_public starts (ok cyclic) = ok (
      start_errors starts
      ++ (public_errors is_public starts
          ++ (cycle_errors cyclic
              ++ (all_arity_errors edges nodes ++ reach_errors edges nodes starts))))

  abbrev pub starts_of : List (GraphNode P) → List GraphEdge → List (GraphNode P)
  starts_of nodes edges = filter (λ n. is_unlinked (map (λ n. n.id) nodes) edges n.id) nodes

  -- A missing source node, at which the code throws, is an error value.
  unfoldable pub validate_graph :
      List (GraphNode P) → List GraphEdge → Bool → Result ConnectError (List ValidationError)
  unfolding error all_errors
  validate_graph [] edges is_public = ok (error "Graph must have at least one node" ∷ [])
  validate_graph (n ∷ nodes) edges is_public =
      if ltb max_steps (length (n ∷ nodes))
      then ok (error "Graph exceeds maximum of 256 steps" ∷ [])
      else all_errors (n ∷ nodes) edges is_public (starts_of (n ∷ nodes) edges)
          (has_cycle (n ∷ nodes) edges)
