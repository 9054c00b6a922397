-- ===== src/Encoding/Start.antt =====
-- The nodes that the encoder takes for start nodes, and what follows from them.
use strategy_builder_v.Prelude.{
  String, Option, none, some, List, [], ◌∷◌, Bool, true, filter, find, map, ◌≡◌, refl, arith, All,
  ap, sym, ◌∙◌, subst, ◌↔◌,
}
use strategy_builder_v.Prelude.Result.{ok}
use strategy_builder_v.Graph.{GraphEdge, action}
use strategy_builder_v.Graph.Bfs.{bfs_order}
use strategy_builder_v.Graph.Bfs.Order.{IsNumbering, bfs_order-IsNumbering}
use strategy_builder_v.Encoding.{
  EditorNode, is_start, start_nodes, owner_only_of, infer_owner_only, order_from, bfs,
}
use strategy_builder_v.Graph.Incoming.Exact.{
  no_incoming, is_unlinked-no_incoming, filter-same, find-same, All_of_map,
}

-- No edge leads to the node.
abbrev pub from_nowhere : {P : Type 0} → List GraphEdge → EditorNode P → Bool
from_nowhere edges n = no_incoming edges n.id

module _ {P : Type 0} where
  is_start-no_incoming :
      (nodes : List (EditorNode P)) (edges : List GraphEdge)
      → All (λ n. is_start nodes edges n ≡ from_nowhere edges n) nodes
  unfolding is_start
  is_start-no_incoming nodes edges =
      All_of_map _ (λ n. n.id) nodes (is_unlinked-no_incoming (map (λ n. n.id) nodes) edges)

  -- The start nodes are the nodes that no edge leads to, in their order.
  pub start_nodes-no_incoming :
      (nodes : List (EditorNode P)) (edges : List GraphEdge)
      → start_nodes nodes edges ≡ filter (from_nowhere edges) nodes
  unfolding start_nodes
  start_nodes-no_incoming nodes edges =
      filter-same (is_start nodes edges) (from_nowhere edges) nodes
        (is_start-no_incoming nodes edges)

  order_from-IsNumbering :
      (edges : List GraphEdge) (found : Option (EditorNode P)) (order : List String)
      → order_from edges found ≡ ok order
      → (n : EditorNode P) × (found ≡ some n) × IsNumbering edges n.id order
  unfolding order_from
  order_from-IsNumbering edges none order h = absurd (cc)
  order_from-IsNumbering edges (some n) order h =
      let same : bfs_order edges n.id ≡ order = cc in
      (n, refl, subst (IsNumbering edges n.id) same (bfs_order-IsNumbering edges n.id))

  -- The encoder's order, where it gives one, numbers what can be reached from the first node that no
  -- edge leads to.
  pub bfs-IsNumbering :
      (nodes : List (EditorNode P)) (edges : List GraphEdge) (order : List String)
      → bfs nodes edges ≡ ok order
      → (n : EditorNode P) × (find (from_nowhere edges) nodes ≡ some n)
        × IsNumbering edges n.id order
  unfolding bfs
  bfs-IsNumbering nodes edges order h =
      order_from-IsNumbering edges (find (from_nowhere edges) nodes) order (
        ap (order_from edges) (
          sym (
            find-same (is_start nodes edges) (from_nowhere edges) nodes
              (is_start-no_incoming nodes edges)))
        ∙ h)

  -- Exactly one of the nodes is in the list, and that is an action.
  abbrev pub IsSingleAction : List (EditorNode P) → Type 0
  IsSingleAction starts = (n : EditorNode P) × (starts ≡ n ∷ []) × (n.category ≡ action)

  owner_only_of-IsSingleAction :
      (starts : List (EditorNode P)) → (owner_only_of starts ≡ true) ↔ IsSingleAction starts
  unfolding owner_only_of
  owner_only_of-IsSingleAction [] = (λ h. absurd (cc), λ (n, h, k). absurd (cc))
  owner_only_of-IsSingleAction (n ∷ m ∷ rest) = (λ h. absurd (cc), λ (o, h, k). absurd (cc))
  owner_only_of-IsSingleAction (n ∷ []) =
      (λ h. (n, refl, ground (arith, h)), λ (o, h, k). let e : n ≡ o = cc in rw (e, k) refl)

  -- A graph is for the owner alone exactly where a single node has no edge that leads to it, and that node
  -- is an action.
  pub infer_owner_only-IsSingleAction :
      (nodes : List (EditorNode P)) (edges : List GraphEdge)
      → (infer_owner_only nodes edges ≡ true) ↔ IsSingleAction (filter (from_nowhere edges) nodes)
  unfolding infer_owner_only
  infer_owner_only-IsSingleAction nodes edges =
      subst (λ starts. (infer_owner_only nodes edges ≡ true) ↔ IsSingleAction starts)
        (start_nodes-no_incoming nodes edges)
        (owner_only_of-IsSingleAction (start_nodes nodes edges))
