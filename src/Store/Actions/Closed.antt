-- ===== src/Store/Actions/Closed.antt =====
-- The edges of the editor join nodes of the editor.
pub mod Graphs
pub mod Kept
pub mod Invariant
use strategy_builder_v.Prelude.{
  ℕ, String, Option, none, some, List, [], ◌∷◌, Bool, true, false, ◌&&◌, ◌≡◌, map, all, any, All,
  ◌||◌,
}
use text.Mathlib.Text.{◌==◌}
use strategy_builder_v.Prelude.Names.{mem}
use strategy_builder_v.Store.Steps.{Change, select, position, add, remove, other}
use strategy_builder_v.Store.{FlowNode, FlowEdge, Snapshot, EditorState}

abbrev pub joins : List String → FlowEdge → Bool
joins ids e = mem e.source ids && mem e.target ids

-- The edge starts or ends at the node.
abbrev pub touches : String → FlowEdge → Bool
touches id e = e.source == id || e.target == id

abbrev pub same_ends : FlowEdge → FlowEdge → Bool
same_ends e f = f.source == e.source && f.target == e.target

-- The changes remove this id.
abbrev pub removes : String → List Change → Bool
removes id [] = false
removes id (remove gone ∷ changes) = gone == id || removes id changes
removes id (select name on ∷ changes) = removes id changes
removes id (position dragging ∷ changes) = removes id changes
removes id (add ∷ changes) = removes id changes
removes id (other ∷ changes) = removes id changes

-- Each edge has the ends of an edge that was there before.
abbrev pub KeepsEnds : List FlowEdge → List FlowEdge → Type 0
KeepsEnds before after = All (λ e. any (same_ends e) before ≡ true) after

module _ {P : Type 0} where
  abbrev pub ids_of : List (FlowNode P) → List String
  ids_of nodes = map (λ n. n.id) nodes

  -- Both ends of every edge are nodes.
  abbrev pub IsClosedGraph : List (FlowNode P) → List FlowEdge → Type 0
  IsClosedGraph nodes edges = all (joins (ids_of nodes)) edges ≡ true

  abbrev pub IsClosedClip : Option (Snapshot P) → Type 0
  IsClosedClip none = Unit
  IsClosedClip (some clip) = IsClosedGraph clip.nodes clip.edges

  -- The same of the graph, of every snapshot and of what was copied.
  pub record IsClosed (s : EditorState P) : Type 0 where
    pub graph : IsClosedGraph s.nodes s.edges
    pub past : All (λ (p : Snapshot P). IsClosedGraph p.nodes p.edges) s.past
    pub future : All (λ (p : Snapshot P). IsClosedGraph p.nodes p.edges) s.future
    pub clip : IsClosedClip s.clipboard
