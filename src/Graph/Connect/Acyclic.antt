-- ===== src/Graph/Connect/Acyclic.antt =====
-- What is-valid-connection.ts allows: an edge that keeps the graph free of cycles.
use strategy_builder_v.Prelude.{
  String, List, ◌∷◌, true, false, ◌≡◌, refl, map, all, ◌⊎◌, inl, inr, Bool-cases, sym, subst,
}
use strategy_builder_v.Prelude.Names.{mem}
use strategy_builder_v.Prelude.Result.{ok}
use strategy_builder_v.Graph.{GraphNode, GraphEdge, targets}
use strategy_builder_v.Graph.Bfs.Order.{Reach, here}
use strategy_builder_v.Graph.Connect.{Connection, is_valid_connection}
use strategy_builder_v.Graph.Connect.Search.{search_from-Reach}
use text.Mathlib.Text.{◌==◌}
use text.Mathlib.TextEquality.{eq_iff}

-- No edge closes a path of edges.
abbrev pub Acyclic : List GraphEdge → Type 0
Acyclic edges = (s t : String) → mem t (targets edges s) ≡ true → ¬ Reach edges t s

-- Every edge leaves a node.
abbrev pub HasSources : {P : Type 0} → List (GraphNode P) → List GraphEdge → Type 0
HasSources nodes edges = all (λ e. mem e.source (map (λ n. n.id) nodes)) edges ≡ true

Reach-append :
    (edges : List GraphEdge) (a b c : String) → Reach edges a b → Reach edges b c → Reach edges a c
Reach-append edges a b c r here = r
Reach-append edges a b c r (Reach.next {t} q m) = Reach.next (Reach-append edges a b t r q) m

Reach-from :
    (edges : List GraphEdge) (a b a' : String) → a' ≡ a → Reach edges a b → Reach edges a' b
Reach-from edges a b a' e r = subst (λ x. Reach edges x b) (sym e) r

-- An edge of the longer list is the new one, or one of the old.
edge_cases :
    (e : GraphEdge) (edges : List GraphEdge) (s t : String)
    → mem t (targets (e ∷ edges) s) ≡ true
    → ((e.source ≡ s) × (e.target ≡ t)) ⊎ (mem t (targets edges s) ≡ true)
edge_cases e edges s t m = elim (Bool-cases (e.source == s)) [
  | inr other ↦ inr (rw other at m)
  | inl same ↦ elim (Bool-cases (e.target == t)) [
    | inl hit ↦ inl ((eq_iff e.source s).0 same, (eq_iff e.target t).0 hit)
    | inr miss ↦ inr (rw (same, miss) at m)
  ]
]

-- A path of the longer list runs along old edges, or it first gets to the new edge and last leaves it.
Reach-split :
    (e : GraphEdge) (edges : List GraphEdge) (a b : String)
    → Reach (e ∷ edges) a b
    → Reach edges a b ⊎ (Reach edges a e.source × Reach edges e.target b)
Reach-split e edges a b here = inl here
Reach-split e edges a b (Reach.next {t} r m) = elim (edge_cases e edges t b m) [
  | inr old ↦ elim (Reach-split e edges a t r) [
    | inl q ↦ inl (Reach.next q old)
    | inr (p, q) ↦ inr (p, Reach.next q old)
  ]
  | inl (s_eq, t_eq) ↦
      let end : Reach edges e.target b = subst (Reach edges e.target) t_eq here in
      elim (Reach-split e edges a t r) [
        | inl q ↦ inr (subst (Reach edges a) (sym s_eq) q, end)
        | inr (p, q) ↦ inr (p, end)
      ]
]

-- Where every edge leaves a node, the check answers; it answers true exactly where no path leads
-- from the target of the new edge to its source, the empty path included.
pub is_valid_connection-Reach :
    {P : Type 0} (connection : Connection) (nodes : List (GraphNode P)) (edges : List GraphEdge)
    → HasSources nodes edges
    → ((is_valid_connection connection nodes edges ≡ ok true)
        × ¬ Reach edges connection.target connection.source)
      ⊎ ((is_valid_connection connection nodes edges ≡ ok false)
          × Reach edges connection.target connection.source)
unfolding is_valid_connection
is_valid_connection-Reach connection nodes edges h =
    elim (Bool-cases (connection.source == connection.target)) [
      | inl same ↦ inr (
        rw same refl,
        subst (Reach edges connection.target)
            (sym ((eq_iff connection.source connection.target).0 same)) here,
      )
      | inr differ ↦ elim (search_from-Reach edges connection.source connection.target) [
        | inl (answer, apart) ↦ inl (rw (differ, h, answer) refl, apart)
        | inr (answer, path) ↦ inr (rw (differ, h, answer) refl, path)
      ]
    ]

-- An edge that the check allows keeps an acyclic graph acyclic.
pub is_valid_connection-Acyclic :
    {P : Type 0} (nodes : List (GraphNode P)) (edges : List GraphEdge) (e : GraphEdge)
    → HasSources nodes edges
    → Acyclic edges
    → is_valid_connection (record { source = e.source; target = e.target }) nodes edges ≡ ok true
    → Acyclic (e ∷ edges)
is_valid_connection-Acyclic nodes edges e h acyclic valid s t m r =
    elim (is_valid_connection-Reach (record { source = e.source; target = e.target }) nodes edges
      h) [
        | inr (invalid, path) ↦ absurd (cc)
        | inl (allowed, apart) ↦ elim (edge_cases e edges s t m) [
          | inl (s_eq, t_eq) ↦ elim (Reach-split e edges t s r) [
            | inl q ↦
                apart
                  (subst (Reach edges e.target) (sym s_eq) (Reach-from edges t s e.target t_eq q))
            | inr (p, q) ↦ apart (Reach-from edges t e.source e.target t_eq p)
          ]
          | inr old ↦ elim (Reach-split e edges t s r) [
            | inl q ↦ acyclic s t old q
            | inr (p, q) ↦ apart (Reach-append edges e.target t e.source (Reach.next q old) p)
          ]
        ]
      ]
