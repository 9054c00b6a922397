-- ===== src/Graph/Wiring/Leads.antt =====
-- Following a step's indices is following the graph's edges.
use strategy_builder_v.Prelude.{
  ℕ, suc, ◌+◌, String, Option, none, some, List, [], ◌∷◌, true, false, ◌≡◌, refl, get_elem?, arith,
  map, inl, inr, Bool-cases, ap,
}
use strategy_builder_v.Prelude.Names.{map_get, mem, All_of_mem}
use strategy_builder_v.Graph.{
  condition, action, Handle, on_true, on_false, out, StepCategory, GraphEdge, out_edges,
}
use strategy_builder_v.Graph.Bfs.{bfs_order}
use strategy_builder_v.Graph.Bfs.Order.{Reach, bfs_order-IsNumbering}
use strategy_builder_v.Graph.Wiring.{done, numbered, edge_at, next_index, next_steps}
use text.Mathlib.TextEquality.{eq_iff}
use text.Mathlib.TextPositions.{eq_refl}

-- The name numbered `next` is the target of the edge; with no edge the automation ends.
abbrev pub Leads : List String → Option GraphEdge → ℕ → Type 0
Leads order none next = next ≡ done
Leads order (some edge) next = get_elem? order next ≡ some edge.target

-- The two indices lead along the edges of the node's kind.
abbrev pub IsWired : List String → StepCategory → List GraphEdge → ℕ → ℕ → Type 0
IsWired order condition edges t f =
    Leads order (edge_at edges on_true) t × Leads order (edge_at edges on_false) f
IsWired order action edges t f = Leads order (edge_at edges out) t × (f ≡ done)

map_get-numbered-none :
    (x : String) (i : ℕ) (order : List String)
    → mem x order ≡ false
    → map_get x (numbered i order) ≡ none
map_get-numbered-none x i [] h = refl
map_get-numbered-none x i (y ∷ order) h = ground (arith, map_get-numbered-none x (i + 1) order)

map_get-numbered :
    (x : String) (i : ℕ) (order : List String)
    → mem x order ≡ true
    → (n : ℕ) × (map_get x (numbered i order) ≡ some (i + n)) × (get_elem? order n ≡ some x)
map_get-numbered x i [] h = absurd (cc)
map_get-numbered x i (y ∷ order) h = elim (Bool-cases (mem x order)) [
  | inl later ↦
      let (n, got, at) = map_get-numbered x (i + 1) order later in
      (suc n, rw got (ap some (omega arith)), at)
  | inr last ↦
      (0, ground (arith, map_get-numbered-none x (i + 1) order last), ground (arith, eq_iff y x))
]

mem-targets_of_edge_at :
    (edges : List GraphEdge) (handle : Handle) (e : GraphEdge)
    → edge_at edges handle ≡ some e
    → mem e.target (map (λ d. d.target) edges) ≡ true
mem-targets_of_edge_at [] handle e h = cc
mem-targets_of_edge_at (d ∷ edges) handle e h =
    ground (arith, mem-targets_of_edge_at edges handle e, eq_refl e.target)

next_index-Leads :
    (order : List String) (edges : List GraphEdge) (handle : Handle) (found : Option GraphEdge)
    → edge_at edges handle ≡ found
    → ((u : String) → mem u (map (λ e. e.target) edges) ≡ true → mem u order ≡ true)
    → Leads order found (next_index (numbered 0 order) found)
unfolding next_index
next_index-Leads order edges handle none h closed = refl
next_index-Leads order edges handle (some e) h closed =
    let (n, got, at) =
      map_get-numbered e.target 0 order
        (closed e.target (mem-targets_of_edge_at edges handle e h)) in
    let same : 0 + n ≡ n = omega arith in rw (got, same) at

next_steps-IsWired :
    (order : List String) (category : StepCategory) (edges : List GraphEdge)
    → ((u : String) → mem u (map (λ e. e.target) edges) ≡ true → mem u order ≡ true)
    → IsWired order category edges
        (next_steps category (numbered 0 order) edges).0
        (next_steps category (numbered 0 order) edges).1
unfolding next_steps
next_steps-IsWired order condition edges closed = (
  next_index-Leads order edges on_true _ refl closed,
  next_index-Leads order edges on_false _ refl closed,
)
next_steps-IsWired order action edges closed =
    (next_index-Leads order edges out _ refl closed, refl)

-- A name that the numbering holds is wired to names that the numbering holds.
pub numbering-IsWired :
    (edges : List GraphEdge) (start id : String) (category : StepCategory)
    → mem id (bfs_order edges start) ≡ true
    → IsWired
        (bfs_order edges start)
        category
        (out_edges edges id)
        (next_steps category (numbered 0 (bfs_order edges start)) (out_edges edges id)).0
        (next_steps category (numbered 0 (bfs_order edges start)) (out_edges edges id)).1
numbering-IsWired edges start id category m =
    let num = bfs_order-IsNumbering edges start in
    next_steps-IsWired (bfs_order edges start) category (out_edges edges id)
      (λ u h. num.complete u (Reach.next (All_of_mem (Reach edges start) id _ num.reached m) h))
