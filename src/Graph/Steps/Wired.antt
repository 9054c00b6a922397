-- ===== src/Graph/Steps/Wired.antt =====
-- What `graphToSteps` returns.
use strategy_builder_v.Prelude.{
  ℕ, zero, suc, String, Option, none, some, List, [], ◌∷◌, ◌≡◌, refl, get_elem?, length, arith, map,
  All, true, ◌≢◌, subst, Option-cases, All-map, inr, inl, Bool-cases,
}
use strategy_builder_v.Prelude.Names.{map_get, mem, All_of_mem}
use strategy_builder_v.Prelude.Result.{
  ◌>>=◌, ok, get_elem?-map_result, length-map_result, map_result-total,
}
use strategy_builder_v.Graph.{GraphNode, GraphEdge, out_edges}
use strategy_builder_v.Graph.Bfs.{bfs_order}
use strategy_builder_v.Graph.Wiring.{numbered}
use strategy_builder_v.Graph.Wiring.Leads.{IsWired, numbering-IsWired}
use strategy_builder_v.Graph.Steps.{
  StepOutput, node_map, step_output, or_not_a_node, step_at, graph_to_steps,
}
use text.Mathlib.TextPositions.{eq_refl}
use strategy_builder_v.Graph.Bfs.Order.{Reach, bfs_order-IsNumbering, mem-targets}

mem_of_get_elem? :
    (xs : List String) (i : ℕ) (x : String) → get_elem? xs i ≡ some x → mem x xs ≡ true
mem_of_get_elem? [] i x h = absurd (cc)
mem_of_get_elem? (y ∷ xs) zero x h = let e : y ≡ x = cc in rw e (ground (arith, eq_refl x))
mem_of_get_elem? (y ∷ xs) (suc i) x h = ground (arith, mem_of_get_elem? xs i x h)

module _ {P : Type 0} where
  -- The step for the name `id` carries what its node holds, and goes on along the node's edges.
  pub record IsStepOf (nodes : List (GraphNode P)) (edges : List GraphEdge) (order : List String)
      (id : String) (step : StepOutput P) : Type 0 where
    pub node : GraphNode P
    pub found : map_get id (node_map nodes) ≡ some node
    pub step_type : step.step_type ≡ node.category
    pub target : step.target ≡ node.info.contract_address
    pub selector : step.selector ≡ node.info.selector
    pub params : step.params ≡ node.info.params
    pub wired :
        IsWired order node.category (out_edges edges id) step.next_on_true step.next_on_false

  step_output-IsStepOf :
      (nodes : List (GraphNode P)) (edges : List GraphEdge) (start id : String)
      (found : Option (GraphNode P)) (step : StepOutput P)
      → mem id (bfs_order edges start) ≡ true
      → map_get id (node_map nodes) ≡ found
      → (or_not_a_node id found >>= λ node.
          ok (step_output id node (numbered 0 (bfs_order edges start)) edges))
        ≡ ok step
      → IsStepOf nodes edges (bfs_order edges start) id step
  unfolding or_not_a_node step_output
  step_output-IsStepOf nodes edges start id none step m f h = absurd (cc)
  step_output-IsStepOf nodes edges start id (some node) step m f h =
      let e : step_output id node (numbered 0 (bfs_order edges start)) edges ≡ step = cc in
      subst (IsStepOf nodes edges (bfs_order edges start) id) e (record {
        node = node;
        found = f;
        step_type = refl;
        target = refl;
        selector = refl;
        params = refl;
        wired = numbering-IsWired edges start id node.category m;
      })

  -- `graphToSteps` of a graph with nodes gives one step for each name of the numbering, in its order:
  -- with what the node of that name holds, and with indices that lead to the steps of the nodes at
  -- the other ends of its edges.
  pub graph_to_steps-IsStepOf :
      (nodes : List (GraphNode P)) (edges : List GraphEdge) (start : String)
      (steps : List (StepOutput P)) (i : ℕ) (id : String)
      → nodes ≢ []
      → graph_to_steps nodes edges start ≡ ok steps
      → get_elem? (bfs_order edges start) i ≡ some id
      → (length steps ≡ length (bfs_order edges start))
        × ((step : StepOutput P) × (get_elem? steps i ≡ some step)
            × IsStepOf nodes edges (bfs_order edges start) id step)
  unfolding graph_to_steps step_at
  graph_to_steps-IsStepOf [] edges start steps i id ne h k = absurd (ne refl)
  graph_to_steps-IsStepOf (n ∷ nodes) edges start steps i id ne h k =
      let order = bfs_order edges start in
      let f = step_at (n ∷ nodes) edges (numbered 0 order) in
      let (step, at, made) = get_elem?-map_result f order steps i id h k in
      (
        length-map_result f order steps h,
        (
          step,
          at,
          step_output-IsStepOf (n ∷ nodes) edges start id _ step (mem_of_get_elem? order i id k)
              refl made,
        ),
      )

map_get_of_mem :
    {P : Type 0} (x : String) (nodes : List (GraphNode P))
    → mem x (map (λ n. n.id) nodes) ≡ true
    → (node : GraphNode P) × (map_get x (node_map nodes) ≡ some node)
map_get_of_mem x [] h = absurd (cc)
map_get_of_mem x (n ∷ nodes) h = elim (Option-cases (map_get x (node_map nodes))) [
  | inr (node, e) ↦ (node, rw e refl)
  | inl e ↦ elim (Bool-cases (mem x (map (λ n. n.id) nodes))) [
    | inl later ↦ let (node, e') = map_get_of_mem x nodes later in absurd (cc)
    | inr now ↦ (n, ground (arith, e))
  ]
]

Reach-inside :
    (P : String → Type 0) (edges : List GraphEdge) (start : String)
    → P start
    → ((x : String) → mem x (map (λ e. e.target) edges) ≡ true → P x)
    → {x : String} → Reach edges start x
    → P x
Reach-inside P edges start first others Reach.here = first
Reach-inside P edges start first others (Reach.next {t} {u} r m) =
    others u (mem-targets edges t u m)

-- `graphToSteps` returns, and does not throw, where the start node and the target of every edge are
-- nodes of the graph.
pub graph_to_steps_total :
    {P : Type 0} (nodes : List (GraphNode P)) (edges : List GraphEdge) (start : String)
    → mem start (map (λ n. n.id) nodes) ≡ true
    → All (λ x. mem x (map (λ n. n.id) nodes) ≡ true) (map (λ e. e.target) edges)
    → (steps : List (StepOutput P)) × (graph_to_steps nodes edges start ≡ ok steps)
unfolding graph_to_steps step_at or_not_a_node
graph_to_steps_total [] edges start m a = ([], refl)
graph_to_steps_total {P} (n ∷ nodes) edges start m a =
    let num = bfs_order-IsNumbering edges start in
    map_result-total (step_at (n ∷ nodes) edges (numbered 0 (bfs_order edges start)))
      (bfs_order edges start)
      (All-map (Reach edges start) _
        (λ x r.
          let (node, e) = map_get_of_mem x (n ∷ nodes) (
            Reach-inside (λ y. mem y (map (λ n. n.id) (n ∷ nodes)) ≡ true) edges start m
              (λ y k. All_of_mem _ y _ a k) r) in
          (step_output x node (numbered 0 (bfs_order edges start)) edges, rw e refl))
        (bfs_order edges start) num.reached)
