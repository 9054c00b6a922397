-- ===== src/Graph/Tests.antt =====
-- Runs on a small graph, and the theorems at concrete inputs.
use strategy_builder_v.Prelude.{
  ℕ, String, List, [], ◌∷◌, ◌≡◌, refl, get_elem?, length, some, ap, true, false, ◌⊎◌,
}
use strategy_builder_v.Prelude.Result.{ok, err}
use strategy_builder_v.Graph.{
  StepCategory, condition, action, Handle, on_true, on_false, out, GraphNode, GraphEdge,
}
use strategy_builder_v.Graph.Bfs.{bfs_order}
use strategy_builder_v.Graph.Bfs.Order.{IsNumbering, bfs_order-IsNumbering, Reach}
use strategy_builder_v.Graph.Wiring.{done, next_steps, next_index}
use strategy_builder_v.Graph.Steps.{StepOutput, not_a_node, graph_to_steps}
use strategy_builder_v.Graph.Steps.Wired.{IsStepOf, graph_to_steps-IsStepOf, graph_to_steps_total}
use strategy_builder_v.Graph.Connect.{is_valid_connection}
use strategy_builder_v.Graph.Connect.Acyclic.{
  Acyclic, is_valid_connection-Acyclic, is_valid_connection-Reach,
}

abbrev node : String → StepCategory → GraphNode ℕ
node id category = record {
  id = id;
  category = category;
  info = record {
    step_type_id = "t";
    label = id;
    contract_address = "0x1";
    selector = "0x2";
    params = 0;
  };
}

abbrev edge : String → Handle → String → GraphEdge
edge source handle target = record {
  id = source;
  source = source;
  target = target;
  source_handle = handle;
}

abbrev nodes : List (GraphNode ℕ)
nodes = node "a" condition ∷ node "b" action ∷ node "c" action ∷ node "d" action ∷ []

abbrev edges : List GraphEdge
edges = edge "a" on_false "c" ∷ edge "a" on_true "b" ∷ edge "b" out "d" ∷ edge "c" out "d" ∷ []

abbrev step : StepCategory → ℕ → ℕ → StepOutput ℕ
step category t f = record {
  step_type = category;
  target = "0x1";
  selector = "0x2";
  next_on_true = t;
  next_on_false = f;
  params = 0;
}

abbrev steps : List (StepOutput ℕ)
steps = step condition 2 1 ∷ step action 3 done ∷ step action 3 done ∷ step action done done ∷ []

order_runs : bfs_order edges "a" ≡ "a" ∷ "c" ∷ "b" ∷ "d" ∷ []
unfolding bfs_order
order_runs = refl

steps_run : graph_to_steps nodes edges "a" ≡ ok steps
unfolding graph_to_steps bfs_order next_steps next_index
steps_run = refl

dangling : graph_to_steps nodes (edge "a" on_true "z" ∷ []) "a" ≡ err (not_a_node "z")
unfolding graph_to_steps bfs_order next_steps next_index
dangling = refl

bfs_order-IsNumbering_example : IsNumbering edges "a" (bfs_order edges "a")
bfs_order-IsNumbering_example = bfs_order-IsNumbering edges "a"

graph_to_steps-IsStepOf_example :
    (length steps ≡ length (bfs_order edges "a"))
    × ((s : StepOutput ℕ) × (get_elem? steps 2 ≡ some s)
        × IsStepOf nodes edges (bfs_order edges "a") "b" s)
graph_to_steps-IsStepOf_example =
    graph_to_steps-IsStepOf nodes edges "a" steps 2 "b" (λ e. cc) steps_run
      (ap (λ l. get_elem? l 2) order_runs)

graph_to_steps_total_example : (ss : List (StepOutput ℕ)) × (graph_to_steps nodes edges "a" ≡ ok ss)
graph_to_steps_total_example =
    graph_to_steps_total nodes edges "a" refl (refl, (refl, (refl, (refl, tt))))

abbrev b_to_c : GraphEdge
b_to_c = edge "b" out "c"

connection_runs :
    (is_valid_connection (record { source = "b"; target = "c" }) nodes edges ≡ ok true)
    × (is_valid_connection (record { source = "d"; target = "a" }) nodes edges ≡ ok false)
unfolding is_valid_connection
connection_runs = (refl, refl)

is_valid_connection-Reach_example :
    ((is_valid_connection (record { source = "d"; target = "a" }) nodes edges ≡ ok true)
      × ¬ Reach edges "a" "d")
    ⊎ ((is_valid_connection (record { source = "d"; target = "a" }) nodes edges ≡ ok false)
        × Reach edges "a" "d")
is_valid_connection-Reach_example =
    is_valid_connection-Reach (record { source = "d"; target = "a" }) nodes edges refl

no_edges_Acyclic : Acyclic []
no_edges_Acyclic s t m r = absurd (cc)

b_to_c_valid : is_valid_connection (record { source = "b"; target = "c" }) nodes [] ≡ ok true
unfolding is_valid_connection
b_to_c_valid = refl

is_valid_connection-Acyclic_example : Acyclic (b_to_c ∷ [])
is_valid_connection-Acyclic_example =
    is_valid_connection-Acyclic nodes [] b_to_c refl no_edges_Acyclic b_to_c_valid
