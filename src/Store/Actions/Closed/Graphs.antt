-- ===== src/Store/Actions/Closed/Graphs.antt =====
-- What the edits do to the nodes and edges of a closed graph.
use strategy_builder_v.Prelude.{
  String, none, some, List, [], ◌∷◌, ◌++◌, Bool, true, false, not, ◌&&◌, ◌≡◌, refl, ap, ◌∙◌, arith,
  map, all, filter, Bool-cases, inl, inr, any, sym,
}
use strategy_builder_v.Prelude.Names.{mem, mem-append_left, mem-append_right, map_get}
use strategy_builder_v.Prelude.Strings.{concat}
use strategy_builder_v.Shared.Schema.{Params}
use strategy_builder_v.Store.{FlowNode, FlowEdge}
use strategy_builder_v.Store.Edits.{with_params, pasted_nodes, pasted_edges, id_map}
use strategy_builder_v.Store.Actions.Closed.{
  KeepsEnds, same_ends, touches, joins, ids_of, IsClosedGraph,
}
use text.Mathlib.Text.{◌==◌}
use text.Mathlib.TextEquality.{eq_iff}
use text.Mathlib.TextPositions.{eq_refl}

pub all-append :
    {A : Type 0} (p : A → Bool) (xs ys : List A)
    → all p xs ≡ true
    → all p ys ≡ true
    → all p (xs ++ ys) ≡ true
all-append p [] ys h k = k
all-append p (x ∷ xs) ys h k = ground (arith, all-append p xs ys, h, k)

pub all-implied :
    {A : Type 0} (p q : A → Bool) (xs : List A)
    → ((x : A) → p x ≡ true → q x ≡ true)
    → all p xs ≡ true
    → all q xs ≡ true
all-implied p q [] f h = refl
all-implied p q (x ∷ xs) f h = ground (arith, all-implied p q xs f, f x, h)

-- More nodes.
pub all-joins :
    (ids more : List String) (edges : List FlowEdge)
    → ((id : String) → mem id ids ≡ true → mem id more ≡ true)
    → all (joins ids) edges ≡ true
    → all (joins more) edges ≡ true
all-joins ids more edges f h =
    all-implied (joins ids) (joins more) edges (λ e k. ground (arith, f e.source, f e.target, k)) h

-- An edge with the ends of an edge that joins two of the nodes.
joins-same_ends :
    (ids : List String) (e : FlowEdge) (edges : List FlowEdge)
    → any (same_ends e) edges ≡ true
    → all (joins ids) edges ≡ true
    → joins ids e ≡ true
joins-same_ends ids e [] h k = absurd (cc)
joins-same_ends ids e (f ∷ edges) h k = elim (Bool-cases (same_ends e f)) [
  | inl same ↦
      let from : f.source ≡ e.source = (eq_iff f.source e.source).0 (ground (arith, same)) in
      let to : f.target ≡ e.target = (eq_iff f.target e.target).0 (ground (arith, same)) in
      let m : mem f.source ids ≡ true = ground (arith, k) in
      let n : mem f.target ids ≡ true = ground (arith, k) in rw (sym from, sym to, m, n) refl
  | inr differ ↦ joins-same_ends ids e edges (ground (arith, h, differ)) (ground (arith, k))
]

pub all-joins-KeepsEnds :
    (ids : List String) (before after : List FlowEdge)
    → KeepsEnds before after
    → all (joins ids) before ≡ true
    → all (joins ids) after ≡ true
all-joins-KeepsEnds ids before [] h k = refl
all-joins-KeepsEnds ids before (e ∷ after) h k =
    rw (joins-same_ends ids e before h.0 k) (all-joins-KeepsEnds ids before after h.1 k)

-- Other nodes, among them all that an edge starts or ends at.
pub all-joins_touched :
    (ids more : List String) (edges : List FlowEdge)
    → ((id : String) → mem id ids ≡ true → any (touches id) edges ≡ true → mem id more ≡ true)
    → all (joins ids) edges ≡ true
    → all (joins more) edges ≡ true
all-joins_touched ids more [] f h = refl
all-joins_touched ids more (e ∷ edges) f h =
    let from : mem e.source more ≡ true =
      f e.source (ground (arith, h)) (rw (eq_refl e.source) refl) in
    let to : mem e.target more ≡ true =
      f e.target (ground (arith, h)) (ground (arith, eq_refl e.target)) in
    rw (from, to)
      (all-joins_touched ids more edges (λ id m t. f id m (ground (arith, t))) (ground (arith, h)))

-- Fewer nodes, and none of the edges that lost an end.
mem-kept :
    {P : Type 0} (gone : List String) (id : String) (nodes : List (FlowNode P))
    → mem id gone ≡ false
    → mem id (ids_of nodes) ≡ true
    → mem id (ids_of (filter (λ n. not (mem n.id gone)) nodes)) ≡ true
mem-kept gone id [] h k = k
mem-kept gone id (n ∷ nodes) h k = elim (Bool-cases (n.id == id)) [
  | inl same ↦
      let eq : mem n.id gone ≡ false = ap (λ x. mem x gone) ((eq_iff n.id id).0 same) ∙ h in
      rw (eq, same) refl
  | inr differ ↦ ground (arith, mem-kept gone id nodes, h, k, differ)
]

pub IsClosedGraph-removed :
    {P : Type 0} (gone gone_edges : List String) (nodes : List (FlowNode P)) (edges : List FlowEdge)
    → IsClosedGraph nodes edges
    → IsClosedGraph (filter (λ n. not (mem n.id gone)) nodes) (
        filter
          (λ e. not (mem e.id gone_edges) && (not (mem e.source gone) && not (mem e.target gone)))
          edges)
IsClosedGraph-removed gone gone_edges nodes [] h = refl
IsClosedGraph-removed gone gone_edges nodes (e ∷ edges) h = ground (
  arith,
  IsClosedGraph-removed gone gone_edges nodes edges,
  mem-kept gone e.source nodes,
  mem-kept gone e.target nodes,
  h,
)

module _ {P : Type 0} where
  pub ids_of-same :
      (f : FlowNode P → FlowNode P) (nodes : List (FlowNode P))
      → ((n : FlowNode P) → (f n).id ≡ n.id)
      → ids_of (map f nodes) ≡ ids_of nodes
  ids_of-same f [] h = refl
  ids_of-same f (n ∷ nodes) h = rw (h n, ids_of-same f nodes h) refl

  pub id-with_params :
      (id : String) (params : Params) (n : FlowNode P) → (with_params id params n).id ≡ n.id
  unfolding with_params
  id-with_params id params n = ground arith

  id_map-none :
      (suffix id : String) (nodes : List (FlowNode P))
      → mem id (ids_of nodes) ≡ false
      → map_get id (id_map suffix nodes) ≡ none
  id_map-none suffix id [] h = refl
  id_map-none suffix id (n ∷ nodes) h =
      let rest = id_map-none suffix id nodes (ground (arith, h)) in
      let differ : (n.id == id) ≡ false = ground (arith, h) in rw (rest, differ) refl

  id_map-get :
      (suffix id : String) (nodes : List (FlowNode P))
      → mem id (ids_of nodes) ≡ true
      → map_get id (id_map suffix nodes) ≡ some (concat id suffix)
  id_map-get suffix id [] h = absurd (cc)
  id_map-get suffix id (n ∷ nodes) h = elim (Bool-cases (mem id (ids_of nodes))) [
    | inl later ↦ rw (id_map-get suffix id nodes later) refl
    | inr top_of ↦
        let same : (n.id == id) ≡ true = ground (arith, h, top_of) in
        let eq : concat n.id suffix ≡ concat id suffix =
          ap (λ x. concat x suffix) ((eq_iff n.id id).0 same) in
        rw (id_map-none suffix id nodes top_of, same) (ap some eq)
  ]

  mem-pasted :
      (shift : P → P) (suffix id : String) (nodes : List (FlowNode P))
      → mem id (ids_of nodes) ≡ true
      → mem (concat id suffix) (ids_of (pasted_nodes shift suffix nodes)) ≡ true
  unfolding pasted_nodes
  mem-pasted shift suffix id [] h = h
  mem-pasted shift suffix id (n ∷ nodes) h = elim (Bool-cases (n.id == id)) [
    | inl same ↦
        let eq : (concat n.id suffix == concat id suffix) ≡ true =
          rw ((eq_iff n.id id).0 same) (eq_refl (concat id suffix)) in
        ground (arith, eq)
    | inr differ ↦ ground (arith, mem-pasted shift suffix id nodes, h, differ)
  ]

  joins-pasted :
      (shift : P → P) (suffix : String) (nodes : List (FlowNode P)) (edges : List FlowEdge)
      → all (joins (ids_of nodes)) edges ≡ true
      → all
          (joins (ids_of (pasted_nodes shift suffix nodes)))
          (pasted_edges suffix (id_map suffix nodes) edges)
        ≡ true
  joins-pasted shift suffix nodes [] h = refl
  joins-pasted shift suffix nodes (e ∷ edges) h =
      let from : mem e.source (ids_of nodes) ≡ true = ground (arith, h) in
      let to : mem e.target (ids_of nodes) ≡ true = ground (arith, h) in
      rw
        (
          id_map-get suffix e.source nodes from,
          id_map-get suffix e.target nodes to,
          mem-pasted shift suffix e.source nodes from,
          mem-pasted shift suffix e.target nodes to,
        )
        (joins-pasted shift suffix nodes edges (ground (arith, h)))

  pub ids_of-append : (xs ys : List (FlowNode P)) → ids_of (xs ++ ys) ≡ ids_of xs ++ ids_of ys
  ids_of-append [] ys = refl
  ids_of-append (x ∷ xs) ys = ap (λ l. x.id ∷ l) (ids_of-append xs ys)

  pub IsClosedGraph-append :
      (xs ys : List (FlowNode P)) (es fs : List FlowEdge)
      → IsClosedGraph xs es
      → IsClosedGraph ys fs
      → IsClosedGraph (xs ++ ys) (es ++ fs)
  IsClosedGraph-append xs ys es fs h k = rw (ids_of-append xs ys) (
      all-append (joins (ids_of xs ++ ids_of ys)) es fs
        (all-joins (ids_of xs) (ids_of xs ++ ids_of ys) es
          (λ id m. mem-append_left id (ids_of xs) (ids_of ys) m) h)
        (all-joins (ids_of ys) (ids_of xs ++ ids_of ys) fs
          (λ id m. mem-append_right id (ids_of xs) (ids_of ys) m) k))

  pub IsClosedGraph-pasted :
      (shift : P → P) (suffix : String) (old nodes : List (FlowNode P))
      (old_edges edges : List FlowEdge)
      → IsClosedGraph old old_edges
      → IsClosedGraph nodes edges
      → IsClosedGraph
          (map (λ (m : FlowNode P). record m { selected = false }) old
            ++ pasted_nodes shift suffix nodes)
          (old_edges ++ pasted_edges suffix (id_map suffix nodes) edges)
  IsClosedGraph-pasted shift suffix old nodes old_edges edges h k =
      IsClosedGraph-append _ (pasted_nodes shift suffix nodes) old_edges
        (pasted_edges suffix (id_map suffix nodes) edges)
        (rw (ids_of-same (λ m. record m { selected = false }) old (λ n. refl)) h)
        (joins-pasted shift suffix nodes edges k)

  -- What was copied: the chosen nodes, and the edges between them.
  pub IsClosedGraph-copied :
      (nodes : List (FlowNode P)) (edges : List FlowEdge)
      → IsClosedGraph nodes (filter (joins (ids_of nodes)) edges)
  IsClosedGraph-copied nodes [] = refl
  IsClosedGraph-copied nodes (e ∷ edges) = ground (arith, IsClosedGraph-copied nodes edges)
