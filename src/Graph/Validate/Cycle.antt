-- ===== src/Graph/Validate/Cycle.antt =====
-- `hasCycle` of validate-graph.ts: a depth-first search with colours.
pub mod Colours
pub mod Search
pub mod Visit
pub mod Acyclic
use strategy_builder_v.Prelude.{
  ℕ, zero, suc, String, Option, none, some, List, [], ◌∷◌, Bool, true, false, map, all, length,
  if◌then◌else◌,
}
use strategy_builder_v.Prelude.Names.{mem, get_key, set_key}
use strategy_builder_v.Prelude.Result.{Result, ok, err}
use strategy_builder_v.Graph.{GraphNode, GraphEdge, targets}
use strategy_builder_v.Graph.Connect.{ConnectError, unknown_source}

pub data Colour : Type 0 where
  white gray black : Colour

abbrev pub Colours : Type 0
Colours = List (String × Colour)

unfoldable pub all_white : List String → Colours → Colours
all_white [] colours = colours
all_white (id ∷ ids) colours = all_white ids (set_key id white colours)

-- The rest of the loop over the neighbours, after the visit of one.
abbrev pub or_go_on : (Colours → Bool × Colours) → Bool × Colours → Bool × Colours
or_go_on go_on (true, colours) = (true, colours)
or_go_on go_on (false, colours) = go_on colours

-- One neighbour, by its colour.
abbrev pub neighbour :
    (String → Colours → Bool × Colours)
    → (Colours → Bool × Colours)
    → String
    → Option Colour
    → Colours
    → Bool × Colours
neighbour visit go_on id none colours = go_on colours
neighbour visit go_on id (some gray) colours = (true, colours)
neighbour visit go_on id (some white) colours = or_go_on go_on (visit id colours)
neighbour visit go_on id (some black) colours = go_on colours

unfoldable pub neighbours :
    (String → Colours → Bool × Colours) → List String → Colours → Bool × Colours
neighbours visit [] colours = (false, colours)
neighbours visit (id ∷ ids) colours =
    neighbour visit (neighbours visit ids) id (get_key id colours) colours

abbrev pub blacken : String → Bool × Colours → Bool × Colours
blacken id (true, colours) = (true, colours)
blacken id (false, colours) = (false, set_key id black colours)

-- On fuel: every visit takes a white node.
unfoldable pub dfs : ℕ → List GraphEdge → String → Colours → Bool × Colours
unfolding neighbours
dfs zero edges id colours = (false, colours)
dfs (suc fuel) edges id colours =
    blacken id (neighbours (dfs fuel edges) (targets edges id) (set_key id gray colours))

-- The outer loop: nodes that are still white are visited.
abbrev pub root :
    (String → Colours → Bool × Colours)
    → (Colours → Bool × Colours)
    → String
    → Option Colour
    → Colours
    → Bool × Colours
root visit go_on id none colours = go_on colours
root visit go_on id (some white) colours = or_go_on go_on (visit id colours)
root visit go_on id (some gray) colours = go_on colours
root visit go_on id (some black) colours = go_on colours

unfoldable pub roots : (String → Colours → Bool × Colours) → List String → Colours → Bool × Colours
roots visit [] colours = (false, colours)
roots visit (id ∷ ids) colours = root visit (roots visit ids) id (get_key id colours) colours

unfoldable pub has_cycle :
    {P : Type 0} → List (GraphNode P) → List GraphEdge → Result ConnectError Bool
unfolding roots dfs all_white
has_cycle nodes edges =
    let ids = map (λ n. n.id) nodes in
    if all (λ e. mem e.source ids) edges
    then ok ((roots (dfs (length ids) edges) ids (all_white ids [])).0)
    else err unknown_source
