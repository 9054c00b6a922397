-- ===== src/Graph/Wiring.antt =====
-- Where a step goes on: lines 36 to 54 of packages/frontend/src/features/automation-editor/lib/
-- graph-to-steps.ts, which packages/backend/src/automation/encoding.service.ts repeats.
pub mod Leads
use strategy_builder_v.Prelude.{
  ℕ, suc, ◌+◌, ◌-◌, ◌^◌, String, Option, none, some, List, [], ◌∷◌, Bool, true, false, find,
}
use strategy_builder_v.Prelude.Names.{map_get}
use strategy_builder_v.Graph.{
  StepCategory, condition, action, Handle, on_true, on_false, out, GraphEdge, out_edges,
}

-- `0xffffffff`: the automation ends here.
abbrev pub done : ℕ
done = 2 ^ 32 - 1

abbrev pub same_handle : Handle → Handle → Bool
same_handle on_true on_true = true
same_handle on_false on_false = true
same_handle out out = true
same_handle _ _ = false

-- `new Map(order.map((id, i) => [id, i]))`, counted from `i`.
abbrev pub numbered : ℕ → List String → List (String × ℕ)
numbered i [] = []
numbered i (id ∷ order) = (id, i) ∷ numbered (i + 1) order

-- `outEdges.find((e) => e.sourceHandle === handle)`
abbrev pub edge_at : List GraphEdge → Handle → Option GraphEdge
edge_at edges handle = find (λ e. same_handle e.source_handle handle) edges

or_done : Option ℕ → ℕ
or_done none = done
or_done (some i) = i

-- `if (edge) next = indexMap.get(edge.target) ?? DONE`, where `next` was `DONE`
unfoldable pub next_index : List (String × ℕ) → Option GraphEdge → ℕ
unfolding or_done
next_index index_map none = done
next_index index_map (some edge) = or_done (map_get edge.target index_map)

-- `nextOnTrue` and `nextOnFalse` of a node, from the edges that leave it.
unfoldable pub next_steps : StepCategory → List (String × ℕ) → List GraphEdge → ℕ × ℕ
next_steps condition index_map edges =
    (next_index index_map (edge_at edges on_true), next_index index_map (edge_at edges on_false))
next_steps action index_map edges = (next_index index_map (edge_at edges out), done)
