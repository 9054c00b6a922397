-- ===== src/Graph/Validate/Tests.antt =====
-- Runs of the check of a graph.
use strategy_builder_v.Prelude.{ℕ, String, List, [], ◌∷◌, true, false, ◌≡◌, ◌↔◌, ◌⊎◌, refl}
use strategy_builder_v.Prelude.Result.{ok}
use strategy_builder_v.Graph.{GraphNode, GraphEdge, StepCategory, condition, action, on_true, out}
use strategy_builder_v.Graph.Bfs.{reachable}
use strategy_builder_v.Graph.Incoming.{is_unlinked}
use strategy_builder_v.Graph.Connect.Acyclic.{Acyclic}
use strategy_builder_v.Graph.Validate.{validate_graph}
use strategy_builder_v.Graph.Validate.Cycle.{has_cycle}
use strategy_builder_v.Graph.Validate.Cycle.Search.{Cycle}
use strategy_builder_v.Graph.Validate.Cycle.Acyclic.{has_cycle-Acyclic}
use strategy_builder_v.Graph.Validate.Sound.{IsWellFormed, validate_graph-IsWellFormed}

abbrev node : String → StepCategory → GraphNode ℕ
node id category = record {
  id = id;
  category = category;
  info = record {
    step_type_id = "t";
    label = "l";
    contract_address = "c";
    selector = "s";
    params = 0;
  };
}

abbrev nodes : List (GraphNode ℕ)
nodes = node "a" condition ∷ node "b" action ∷ []

abbrev edges : List GraphEdge
edges = record { id = "e"; source = "a"; target = "b"; source_handle = on_true } ∷ []

abbrev loop_edges : List GraphEdge
loop_edges = record { id = "f"; source = "b"; target = "a"; source_handle = out } ∷ edges

has_cycle_runs : has_cycle nodes loop_edges ≡ ok true
unfolding has_cycle
has_cycle_runs = refl

validate_graph_runs : validate_graph nodes edges true ≡ ok []
unfolding validate_graph has_cycle is_unlinked reachable
validate_graph_runs = refl

has_cycle-Acyclic_example :
    ((has_cycle nodes loop_edges ≡ ok false) × Acyclic loop_edges)
    ⊎ ((has_cycle nodes loop_edges ≡ ok true) × Cycle loop_edges)
has_cycle-Acyclic_example = has_cycle-Acyclic nodes loop_edges refl

validate_graph-IsWellFormed_example :
    validate_graph nodes edges true ≡ ok [] ↔ IsWellFormed nodes edges true
validate_graph-IsWellFormed_example = validate_graph-IsWellFormed nodes edges true
