-- ===== src/Graph/Bfs/Order.antt =====
-- What the breadth-first numbering returns.
use strategy_builder_v.Prelude.{
  zero, suc, ap, [], ◌∷◌, ◌++◌, All-map, arith, Bool-cases, inl, inr, ◌∙◌, sym, append_assoc,
  append-nil, true, false, String, List, ◌≡◌, All, refl, All-append, get_elem?, some, subst, ◌+◌,
  ◌<◌, length-append, ◌≤◌, length-map,
}
use strategy_builder_v.Prelude.Names.{
  length-le_of_Nodup, mem, mem-append_left, Nodup, Nodup-last, mem-last, mem-append_right,
  All_of_mem,
}
use strategy_builder_v.Graph.{GraphEdge, targets, map, ◌∷◌, out_edges, ℕ}
use strategy_builder_v.Graph.Bfs.{
  true, Search, scan, visit, length, loop, bfs_order, suc, search_all, reachable,
}
use text.Mathlib.TextPositions.{eq_refl}

-- The names that can be reached from `start` along edges.
pub data Reach (edges : List GraphEdge) (start : String) : String → Type 0 where
  here : Reach edges start start
  next : {t u : String} → Reach edges start t → mem u (targets edges t) ≡ true → Reach edges start u

-- What the inner loop adds to the visited names and to the queue.
record IsScanned (es : List GraphEdge) (s t : Search) : Type 0 where
  new : List String
  visited : t.visited ≡ s.visited ++ new
  queue : t.queue ≡ s.queue ++ new
  order : t.order ≡ s.order
  nodup : Nodup s.visited → Nodup t.visited
  from_edges : All (λ x. mem x (map (λ e. e.target) es) ≡ true) new
  taken : All (λ x. mem x t.visited ≡ true) (map (λ e. e.target) es)

IsScanned-skip :
    (e : GraphEdge) (es : List GraphEdge) (s t : Search)
    → mem e.target s.visited ≡ true
    → IsScanned es s t
    → IsScanned (e ∷ es) s t
IsScanned-skip e es s t old r = record {
  new = r.new;
  visited = r.visited;
  queue = r.queue;
  order = r.order;
  nodup = r.nodup;
  from_edges = All-map _ _ (λ x h. ground (arith, h)) r.new r.from_edges;
  taken = (rw r.visited (mem-append_left e.target s.visited r.new old), r.taken);
}

IsScanned-push :
    (e : GraphEdge) (es : List GraphEdge) (s t : Search)
    → mem e.target s.visited ≡ false
    → IsScanned es
        (record s { visited = s.visited ++ e.target ∷ []; queue = s.queue ++ e.target ∷ [] })
        t
    → IsScanned (e ∷ es) s t
IsScanned-push e es s t fresh r = record {
  new = e.target ∷ r.new;
  visited = r.visited ∙ append_assoc s.visited (e.target ∷ []) r.new;
  queue = r.queue ∙ append_assoc s.queue (e.target ∷ []) r.new;
  order = r.order;
  nodup = λ d. r.nodup (Nodup-last e.target s.visited d fresh);
  from_edges =
      (ground (arith, eq_refl e.target), All-map _ _ (λ x h. ground (arith, h)) r.new r.from_edges);
  taken = (
    rw r.visited
        (mem-append_left e.target (s.visited ++ e.target ∷ []) r.new (mem-last e.target s.visited)),
    r.taken,
  );
}

scan-IsScanned : (es : List GraphEdge) (s : Search) → IsScanned es s (scan es s)
unfolding scan
scan-IsScanned [] s = record {
  new = [];
  visited = sym (append-nil s.visited);
  queue = sym (append-nil s.queue);
  order = refl;
  nodup = λ d. d;
  from_edges = tt;
  taken = tt;
}
scan-IsScanned (e ∷ es) s = elim (Bool-cases (mem e.target s.visited)) [
  | inl old ↦ rw old (IsScanned-skip e es s (scan es s) old (scan-IsScanned es s))
  | inr fresh ↦ rw fresh (IsScanned-push e es s _ fresh (scan-IsScanned es _))
]

-- The invariant of the outer loop.
record Inv (edges : List GraphEdge) (start : String) (s : Search) : Type 0 where
  same : s.visited ≡ s.order ++ s.queue
  nodup : Nodup s.visited
  reached : All (Reach edges start) s.visited
  inside : All (λ x. mem x (start ∷ map (λ e. e.target) edges) ≡ true) s.visited
  closed : All (λ x. All (λ u. mem u s.visited ≡ true) (targets edges x)) s.order
  first : (rest : List String) × (s.visited ≡ start ∷ rest)

pub mem-targets :
    (edges : List GraphEdge) (id x : String)
    → mem x (targets edges id) ≡ true
    → mem x (map (λ e. e.target) edges) ≡ true
mem-targets [] id x h = h
mem-targets (e ∷ edges) id x h = ground (arith, mem-targets edges id x)

regroup :
    (order : List String) (id : String) (queue new : List String)
    → (order ++ id ∷ queue) ++ new ≡ (order ++ id ∷ []) ++ (queue ++ new)
regroup order id queue new = simp append_assoc

visit-Inv :
    (edges : List GraphEdge) (start id : String) (queue : List String) (s : Search)
    → s.queue ≡ id ∷ queue
    → Inv edges start s
    → Inv edges start (visit edges id queue s)
unfolding visit
visit-Inv edges start id queue s q inv =
    let s₁ : Search = record s { order = s.order ++ id ∷ []; queue = queue } in
    let r = scan-IsScanned (out_edges edges id) s₁ in
    let here_ : mem id s.visited ≡ true =
      rw (inv.same, q) (mem-append_right id s.order (id ∷ queue) (ground (arith, eq_refl id))) in
    let grown : (x : String)
        → mem x s.visited ≡ true
        → mem x (scan (out_edges edges id) s₁).visited ≡ true =
      λ x m. rw r.visited (mem-append_left x s.visited r.new m) in
    record {
      same =
          rw (r.order, r.queue)
            (r.visited
              ∙ ap (λ l. l ++ r.new) (inv.same ∙ ap (λ l. s.order ++ l) q)
              ∙ regroup s.order id queue r.new);
      nodup = r.nodup inv.nodup;
      reached = rw r.visited (
          All-append _ s.visited r.new inv.reached (
            All-map _ _
              (λ x m. next (All_of_mem (Reach edges start) id s.visited inv.reached here_) m) r.new
              r.from_edges));
      inside = rw r.visited (
          All-append _ s.visited r.new inv.inside
            (All-map _ _ (λ x m. ground (arith, mem-targets edges id x m)) r.new r.from_edges));
      closed = rw r.order (
          All-append _ s.order (id ∷ [])
            (All-map _ _ (λ x c. All-map _ _ grown _ c) s.order inv.closed) (r.taken, tt));
      first = (inv.first.0 ++ r.new, r.visited ∙ ap (λ l. l ++ r.new) inv.first.1);
    }

order-visit :
    (edges : List GraphEdge) (id : String) (queue : List String) (s : Search)
    → (visit edges id queue s).order ≡ s.order ++ id ∷ []
unfolding visit
order-visit edges id queue s =
    (scan-IsScanned (out_edges edges id)
      (record s { order = s.order ++ id ∷ []; queue = queue })).order

-- No more names are numbered than there are edges, and one.
length_bound :
    (edges : List GraphEdge) (start : String) (s : Search)
    → Inv edges start s
    → length s.order + length s.queue ≤ suc (length edges)
length_bound edges start s inv = omega (
  arith,
  length-append s.order s.queue,
  ap length inv.same,
  length-map (λ (e : GraphEdge). e.target) edges,
  length-le_of_Nodup s.visited (start ∷ map (λ e. e.target) edges) inv.nodup inv.inside,
)

loop-Inv :
    (fuel : ℕ) (edges : List GraphEdge) (start : String) (queue : List String) (s : Search)
    → s.queue ≡ queue
    → Inv edges start s
    → suc (length edges) < fuel + length s.order
    → Inv edges start (loop fuel edges queue s) × ((loop fuel edges queue s).queue ≡ [])
unfolding loop
loop-Inv zero edges start queue s q inv enough =
    absurd (omega (arith, length_bound edges start s inv))
loop-Inv (suc fuel) edges start [] s q inv enough = (inv, q)
loop-Inv (suc fuel) edges start (id ∷ queue) s q inv enough =
    loop-Inv fuel edges start (visit edges id queue s).queue (visit edges id queue s) refl
      (visit-Inv edges start id queue s q inv)
      (omega (arith, ap length (order-visit edges id queue s), length-append s.order (id ∷ [])))

-- What the numbering promises of its names.
pub record IsNumbering (edges : List GraphEdge) (start : String) (order : List String)
    : Type 0 where
  pub first : get_elem? order 0 ≡ some start
  pub nodup : Nodup order
  pub reached : All (Reach edges start) order
  pub complete : (x : String) → Reach edges start x → mem x order ≡ true

Reach-mem :
    (edges : List GraphEdge) (start : String) (order : List String)
    → mem start order ≡ true
    → All (λ x. All (λ u. mem u order ≡ true) (targets edges x)) order
    → {x : String} → Reach edges start x
    → mem x order ≡ true
Reach-mem edges start order m c here = m
Reach-mem edges start order m c (next {t} {u} r e) =
    All_of_mem (λ u. mem u order ≡ true) u (targets edges t)
      (All_of_mem _ t order c (Reach-mem edges start order m c r)) e

IsNumbering-of_Inv :
    (edges : List GraphEdge) (start : String) (s : Search)
    → Inv edges start s
    → s.queue ≡ []
    → IsNumbering edges start s.order
IsNumbering-of_Inv edges start s inv q =
    let whole : s.order ≡ s.visited = simp (inv.same, q, append-nil) in
    let begins : s.order ≡ start ∷ inv.first.0 = whole ∙ inv.first.1 in
    record {
      first = rw begins;
      nodup = rw whole inv.nodup;
      reached = rw whole inv.reached;
      complete = λ x r.
          Reach-mem edges start s.order (rw begins (ground (arith, eq_refl start)))
            (subst (λ l. All (λ x. All (λ u. mem u l ≡ true) (targets edges x)) s.order) (sym whole)
              inv.closed)
            r;
    }

search_all-Inv :
    (edges : List GraphEdge) (start : String)
    → Inv edges start (search_all edges start) × ((search_all edges start).queue ≡ [])
unfolding search_all
search_all-Inv edges start =
    let s : Search = record { order = []; visited = start ∷ []; queue = start ∷ [] } in
    let begin : Inv edges start s = record {
      same = refl;
      nodup = (refl, tt);
      reached = (here, tt);
      inside = (ground (arith, eq_refl start), tt);
      closed = tt;
      first = ([], refl);
    } in
    loop-Inv (suc (suc (length edges))) edges start (start ∷ []) s refl begin (omega arith)

-- The numbering starts with the start node, names no node twice, and its names are exactly those
-- that can be reached from the start node along edges. (Its fuel is never exhausted before that.)
pub bfs_order-IsNumbering :
    (edges : List GraphEdge) (start : String) → IsNumbering edges start (bfs_order edges start)
unfolding bfs_order
bfs_order-IsNumbering edges start =
    let (inv, q) = search_all-Inv edges start in IsNumbering-of_Inv edges start _ inv q

pub reachable-bfs_order :
    (edges : List GraphEdge) (start : String) → reachable edges start ≡ bfs_order edges start
unfolding reachable bfs_order
reachable-bfs_order edges start =
    let (inv, q) = search_all-Inv edges start in
    inv.same ∙ ap (λ l. (search_all edges start).order ++ l) q ∙ append-nil _
