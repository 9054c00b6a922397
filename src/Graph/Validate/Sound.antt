-- ===== src/Graph/Validate/Sound.antt =====
-- When `validateGraph` finds no error.
use strategy_builder_v.Prelude.{
  ◌≤◌, String, List, [], ◌∷◌, ◌++◌, Bool, true, false, ◌≡◌, ◌↔◌, ◌⊎◌, refl, arith, length, inl, inr,
  Bool-cases, sym, ◌∙◌, ap, all, map, filter, All, All-map, ltb, ltb→lt,
}
use strategy_builder_v.Prelude.Result.{Result, ok, err}
use strategy_builder_v.Prelude.Names.{mem, All_of_mem}
use strategy_builder_v.Graph.{GraphNode, GraphEdge, StepCategory, condition, action, out_edges}
use strategy_builder_v.Graph.Bfs.{reachable, bfs_order}
use strategy_builder_v.Graph.Bfs.Order.{Reach, bfs_order-IsNumbering, reachable-bfs_order}
use strategy_builder_v.Graph.Incoming.Exact.{
  no_incoming, is_unlinked-no_incoming, filter-same, All_of_map,
}
use strategy_builder_v.Graph.Connect.{ConnectError}
use strategy_builder_v.Graph.Connect.Acyclic.{Acyclic, HasSources}
use strategy_builder_v.Graph.Validate.{
  public_error, start_errors, public_errors, cycle_errors, arity_errors, all_arity_errors,
  unreached, reach_errors, all_errors, starts_of, validate_graph, max_steps,
}
use strategy_builder_v.Graph.Validate.Cycle.{has_cycle}
use strategy_builder_v.Graph.Validate.Cycle.Acyclic.{has_cycle-Acyclic}

-- The number of edges that may leave a step.
abbrev pub HasArity : StepCategory → List GraphEdge → Type 0
HasArity condition es = 1 ≤ length es
HasArity action es = length es ≤ 1

append-none : {A : Type 0} (xs ys : List A) → xs ++ ys ≡ [] → (xs ≡ []) × (ys ≡ [])
append-none [] ys h = (refl, h)
append-none (x ∷ xs) ys h = absurd (cc)

arity_errors-none :
    (category : StepCategory) (id : String) (es : List GraphEdge)
    → arity_errors category id es ≡ [] ↔ HasArity category es
unfolding arity_errors
arity_errors-none condition id [] = (λ h. absurd (cc), λ h. absurd (omega (arith, h)))
arity_errors-none condition id (e ∷ es) = (λ h. omega arith, λ h. refl)
arity_errors-none action id [] = (λ h. omega arith, λ h. refl)
arity_errors-none action id (e ∷ []) = (λ h. omega arith, λ h. refl)
arity_errors-none action id (e ∷ f ∷ es) = (λ h. absurd (cc), λ h. absurd (omega (arith, h)))

public_error-none :
    (is_public : Bool) (id : String) (category : StepCategory)
    → public_error is_public id category ≡ [] ↔ ((is_public ≡ false) ⊎ (category ≡ condition))
unfolding public_error
public_error-none true id action =
    (λ h. absurd (cc), λ h. absurd (elim h [ inl a ↦ cc | inr b ↦ cc ]))
public_error-none true id condition = (λ h. inr refl, λ h. refl)
public_error-none false id category = (λ h. inl refl, λ h. refl)

cycle_errors-none : (cyclic : Bool) → cycle_errors cyclic ≡ [] → cyclic ≡ false
unfolding cycle_errors
cycle_errors-none true h = absurd (cc)
cycle_errors-none false h = refl

ok-same : {A : Type 0} {x y : A} → Path (Result ConnectError A) (ok x) (ok y) → x ≡ y
ok-same h = cc (h)

module _ {P : Type 0} where
  all_arity_errors-none :
      (edges : List GraphEdge) (nodes : List (GraphNode P))
      → all_arity_errors edges nodes ≡ []
        ↔ All (λ n. HasArity n.category (out_edges edges n.id)) nodes
  unfolding all_arity_errors
  all_arity_errors-none edges [] = (λ h. tt, λ h. refl)
  all_arity_errors-none edges (n ∷ nodes) = (
    λ h.
        let (a, b) = append-none _ (all_arity_errors edges nodes) h in
        (
          (arity_errors-none n.category n.id (out_edges edges n.id)).0 a,
          (all_arity_errors-none edges nodes).0 b,
        ),
    λ h.
        rw ((arity_errors-none n.category n.id (out_edges edges n.id)).1 h.0)
          ((all_arity_errors-none edges nodes).1 h.1),
  )

  unreached-none :
      (names : List String) (nodes : List (GraphNode P))
      → unreached names nodes ≡ [] ↔ All (λ n. mem n.id names ≡ true) nodes
  unfolding unreached
  unreached-none names [] = (λ h. tt, λ h. refl)
  unreached-none names (n ∷ nodes) = elim (Bool-cases (mem n.id names)) [
    | inl there ↦ (
      λ h. (there, (unreached-none names nodes).0 (rw there at h)),
      λ h. rw there ((unreached-none names nodes).1 h.1),
    )
    | inr missing ↦ (λ h. absurd (ground (arith, missing, h)), λ h. absurd (cc))
  ]

  reach_errors-none :
      (edges : List GraphEdge) (nodes : List (GraphNode P)) (start : GraphNode P)
      → reach_errors edges nodes (start ∷ []) ≡ [] ↔ All (λ n. Reach edges start.id n.id) nodes
  unfolding reach_errors
  reach_errors-none edges nodes start =
      let numbering = bfs_order-IsNumbering edges start.id in
      let names : reachable edges start.id ≡ bfs_order edges start.id =
        reachable-bfs_order edges start.id in
      (
        λ h.
            All-map _ _
              (λ n m.
                All_of_mem (Reach edges start.id) n.id (bfs_order edges start.id) numbering.reached
                  (rw names at m))
              nodes ((unreached-none (reachable edges start.id) nodes).0 h),
        λ h.
            (unreached-none (reachable edges start.id) nodes).1
              (All-map _ _ (λ n r. rw names (numbering.complete n.id r)) nodes h),
      )

  start_errors-none :
      (starts : List (GraphNode P))
      → start_errors starts ≡ []
      → (n : GraphNode P) × (starts ≡ n ∷ [])
  unfolding start_errors
  start_errors-none [] h = absurd (cc)
  start_errors-none (n ∷ []) h = (n, refl)
  start_errors-none (n ∷ m ∷ rest) h = absurd (cc)

  public_errors-none :
      (is_public : Bool) (n : GraphNode P)
      → public_errors is_public (n ∷ []) ≡ [] ↔ ((is_public ≡ false) ⊎ (n.category ≡ condition))
  unfolding public_errors
  public_errors-none is_public n = public_error-none is_public n.id n.category

  starts_of-no_incoming :
      (nodes : List (GraphNode P)) (edges : List GraphEdge)
      → starts_of nodes edges ≡ filter (λ n. no_incoming edges n.id) nodes
  starts_of-no_incoming nodes edges =
      filter-same _ (λ n. no_incoming edges n.id) nodes
        (All_of_map _ (λ n. n.id) nodes (is_unlinked-no_incoming (map (λ n. n.id) nodes) edges))

-- A graph that passes the checks of the editor. That the targets of its edges are nodes is not among them.
pub record IsWellFormed {P : Type 0} (nodes : List (GraphNode P)) (edges : List GraphEdge)
    (is_public : Bool) : Type 0 where
  pub few : length nodes ≤ max_steps
  pub sources : HasSources nodes edges
  pub start : GraphNode P
  pub only_start : filter (λ n. no_incoming edges n.id) nodes ≡ start ∷ []
  pub opening : (is_public ≡ false) ⊎ (start.category ≡ condition)
  pub acyclic : Acyclic edges
  pub arities : All (λ n. HasArity n.category (out_edges edges n.id)) nodes
  pub reached : All (λ n. Reach edges start.id n.id) nodes

module _ {P : Type 0} where
  -- What the checks after those of the number of nodes found, where they found nothing.
  record IsClean (nodes starts : List (GraphNode P)) (edges : List GraphEdge) (is_public : Bool)
      (r : Result ConnectError Bool) : Type 0 where
    answer : r ≡ ok false
    start : GraphNode P
    single : starts ≡ start ∷ []
    opening : public_errors is_public (start ∷ []) ≡ []
    arities : all_arity_errors edges nodes ≡ []
    reached : reach_errors edges nodes (start ∷ []) ≡ []

  all_errors-IsClean :
      (nodes : List (GraphNode P)) (edges : List GraphEdge) (is_public : Bool)
      (starts : List (GraphNode P)) (r : Result ConnectError Bool)
      → all_errors nodes edges is_public starts r ≡ ok []
      → IsClean nodes starts edges is_public r
  unfolding all_errors
  all_errors-IsClean nodes edges is_public starts (err e) h = absurd (cc)
  all_errors-IsClean nodes edges is_public starts (ok cyclic) h =
      let (a, b) = append-none (start_errors starts) _ (ok-same h) in
      let (c, d) = append-none (public_errors is_public starts) _ b in
      let (e, f) = append-none (cycle_errors cyclic) _ d in
      let (g, k) = append-none (all_arity_errors edges nodes) _ f in
      let (n, single) = start_errors-none starts a in
      record {
        answer = ap ok (cycle_errors-none cyclic e);
        start = n;
        single = single;
        opening = rw single at c;
        arities = g;
        reached = rw single at k;
      }

  has_cycle-HasSources :
      (nodes : List (GraphNode P)) (edges : List GraphEdge) (cyclic : Bool)
      → has_cycle nodes edges ≡ ok cyclic
      → HasSources nodes edges
  unfolding has_cycle
  has_cycle-HasSources nodes edges cyclic h =
      elim (Bool-cases (all (λ e. mem e.source (map (λ n. n.id) nodes)) edges)) [
        | inl sources ↦ sources
        | inr missing ↦ absurd (ground (arith, missing, h))
      ]

  all_errors-IsWellFormed :
      (nodes : List (GraphNode P)) (edges : List GraphEdge) (is_public : Bool)
      → length nodes ≤ max_steps
      → all_errors nodes edges is_public (starts_of nodes edges) (has_cycle nodes edges) ≡ ok []
      → IsWellFormed nodes edges is_public
  all_errors-IsWellFormed nodes edges is_public few h =
      let clean = all_errors-IsClean nodes edges is_public _ _ h in
      let sources = has_cycle-HasSources nodes edges false clean.answer in
      elim (has_cycle-Acyclic nodes edges sources) [
        | inr (answer, cycle) ↦ absurd (ground (arith, answer, clean.answer))
        | inl (answer, acyclic) ↦ record {
          few = few;
          sources = sources;
          start = clean.start;
          only_start = sym (starts_of-no_incoming nodes edges) ∙ clean.single;
          opening = (public_errors-none is_public clean.start).0 clean.opening;
          acyclic = acyclic;
          arities = (all_arity_errors-none edges nodes).0 clean.arities;
          reached = (reach_errors-none edges nodes clean.start).0 clean.reached;
        }
      ]

  all_errors-of_IsWellFormed :
      (nodes : List (GraphNode P)) (edges : List GraphEdge) (is_public : Bool)
      → IsWellFormed nodes edges is_public
      → all_errors nodes edges is_public (starts_of nodes edges) (has_cycle nodes edges) ≡ ok []
  unfolding all_errors start_errors
  all_errors-of_IsWellFormed nodes edges is_public w =
      elim (has_cycle-Acyclic nodes edges w.sources) [
        | inr (cyclic, cycle) ↦ absurd (w.acyclic cycle.source cycle.target cycle.edge cycle.path)
        | inl (answer, acyclic) ↦
            let starts : starts_of nodes edges ≡ w.start ∷ [] =
              starts_of-no_incoming nodes edges ∙ w.only_start in
            rw
              (
                answer,
                starts,
                (public_errors-none is_public w.start).1 w.opening,
                (all_arity_errors-none edges nodes).1 w.arities,
                (reach_errors-none edges nodes w.start).1 w.reached,
              )
              refl
      ]

-- `validateGraph` returns no error exactly for the well-formed graphs: at most 256 steps, every edge leaves a
-- node, exactly one node without an incoming edge, which is a condition where the automation is public, no
-- cycle, at least one edge out of a condition and at most one out of an action, and every node can be reached
-- from the start node.
pub validate_graph-IsWellFormed :
    {P : Type 0} (nodes : List (GraphNode P)) (edges : List GraphEdge) (is_public : Bool)
    → validate_graph nodes edges is_public ≡ ok [] ↔ IsWellFormed nodes edges is_public
unfolding validate_graph
validate_graph-IsWellFormed [] edges is_public =
    (λ h. absurd (cc), λ w. absurd (ground (arith, w.only_start)))
validate_graph-IsWellFormed (n ∷ nodes) edges is_public =
    elim (Bool-cases (ltb max_steps (length (n ∷ nodes)))) [
      | inl many ↦ (
        λ h. absurd (ground (arith, many, h)),
        λ w. absurd (omega (arith, ltb→lt max_steps (length (n ∷ nodes)) many, w.few)),
      )
      | inr few ↦ (
        λ h.
            all_errors-IsWellFormed (n ∷ nodes) edges is_public (ground (arith, few)) (rw few at h),
        λ w. rw few (all_errors-of_IsWellFormed (n ∷ nodes) edges is_public w),
      )
    ]
