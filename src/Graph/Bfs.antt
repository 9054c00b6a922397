-- ===== src/Graph/Bfs.antt =====
-- The breadth-first numbering of packages/frontend/src/features/automation-editor/lib/
-- graph-to-steps.ts, which packages/backend/src/automation/encoding.service.ts repeats in `bfs`.
pub mod Order
use strategy_builder_v.Prelude.{
  ℕ, zero, suc, String, List, [], ◌∷◌, ◌++◌, Bool, true, false, length, if◌then◌else◌,
}
use strategy_builder_v.Prelude.Names.{mem}
use strategy_builder_v.Graph.{GraphEdge, out_edges}

pub record Search : Type 0 where
  pub order : List String
  pub visited : List String
  pub queue : List String

-- The inner loop: each target that is not visited yet is visited and queued.
unfoldable pub scan : List GraphEdge → Search → Search
scan [] s = s
scan (edge ∷ edges) s = scan edges (
    if mem edge.target s.visited
    then s
    else record s { visited = s.visited ++ edge.target ∷ []; queue = s.queue ++ edge.target ∷ [] })

-- One round of the outer loop, with the head of the queue taken off.
unfoldable pub visit : List GraphEdge → String → List String → Search → Search
unfolding scan
visit edges id queue s =
    scan (out_edges edges id) (record s { order = s.order ++ id ∷ []; queue = queue })

unfoldable pub loop : ℕ → List GraphEdge → List String → Search → Search
unfolding visit
loop zero edges queue s = s
loop (suc fuel) edges [] s = s
loop (suc fuel) edges (id ∷ queue) s =
    let s' = visit edges id queue s in loop fuel edges s'.queue s'

-- A name is queued only once, and all but the first are targets of edges.
unfoldable pub search_all : List GraphEdge → String → Search
unfolding loop
search_all edges start =
    let s : Search = record { order = []; visited = start ∷ []; queue = start ∷ [] } in
    loop (suc (suc (length edges))) edges s.queue s

unfoldable pub bfs_order : List GraphEdge → String → List String
unfolding search_all
bfs_order edges start = (search_all edges start).order

-- validate-graph.ts runs the same loop, for the set of names that it visits.
unfoldable pub reachable : List GraphEdge → String → List String
unfolding search_all
reachable edges start = (search_all edges start).visited
