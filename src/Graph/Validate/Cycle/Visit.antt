-- ===== src/Graph/Validate/Cycle/Visit.antt =====
-- What a visit of the depth-first search finds out.
use strategy_builder_v.Prelude.{
  ℕ, zero, suc, ◌≤◌, String, Option, none, some, List, [], ◌∷◌, Bool, true, false, ◌≡◌, ◌⊎◌, refl,
  arith, inl, inr, Bool-cases, all, All, All-map, subst,
}
use strategy_builder_v.Prelude.Names.{mem, get_key, set_key, get_key-set_key}
use strategy_builder_v.Graph.{GraphEdge, targets}
use strategy_builder_v.Graph.Bfs.Order.{Reach, here}
use strategy_builder_v.Graph.Validate.Cycle.{
  Colour, white, gray, black, Colours, neighbour, neighbours, dfs, blacken, or_go_on,
}
use strategy_builder_v.Graph.Validate.Cycle.Colours.{
  IsMoved, IsMoved-trans, whites, IsMoved-gray_back, IsMoved-none, IsMoved-black, IsMoved-gray,
  whites-set_key,
}
use strategy_builder_v.Graph.Validate.Cycle.Search.{
  Cycle, IsDone, IsSafe, IsSafe-gray, IsSafe-black,
}
use text.Mathlib.Text.{◌==◌}
use text.Mathlib.TextEquality.{eq_iff}
use text.Mathlib.TextPositions.{eq_refl}

-- All gray nodes lead to `id`.
abbrev pub GraysReach : List GraphEdge → Colours → String → Type 0
GraysReach edges colours id = (x : String) → get_key x colours ≡ some gray → Reach edges x id

pub record IsVisited (ids : List String) (edges : List GraphEdge) (c d : Colours) : Type 0 where
  pub moved : (x : String) → IsMoved c d x
  pub safe : IsSafe ids edges d
  pub fewer : whites d ≤ whites c

-- A search from the colours `c` has found a cycle, or it has come to colours for which `Q` holds.
abbrev pub Outcome :
    List String → List GraphEdge → Colours → (Colours → Type 0) → Bool × Colours → Type 0
Outcome ids edges c Q r =
    ((r.0 ≡ true) × Cycle edges) ⊎ ((r.0 ≡ false) × IsVisited ids edges c r.1 × Q r.1)

-- What the search relies on when it visits a white node, with `fuel` white nodes at most.
abbrev pub Visits : List String → List GraphEdge → ℕ → (String → Colours → Bool × Colours) → Type 0
Visits ids edges fuel visit =
    (id : String) (c : Colours)
    → get_key id c ≡ some white
    → whites c ≤ fuel
    → IsSafe ids edges c
    → GraysReach edges c id
    → Outcome ids edges c (λ d. get_key id d ≡ some black) (visit id c)

pub mem_self : (xs : List String) → All (λ x. mem x xs ≡ true) xs
mem_self [] = tt
mem_self (x ∷ xs) =
    (ground (arith, eq_refl x), All-map _ _ (λ y h. ground (arith, h)) xs (mem_self xs))

module _ (ids : List String) (edges : List GraphEdge) where
  pub IsVisited-refl : (c : Colours) → IsSafe ids edges c → IsVisited ids edges c c
  IsVisited-refl c safe = record { moved = λ x. inl refl; safe = safe; fewer = omega arith }

  pub IsVisited-trans :
      (c d e : Colours)
      → IsVisited ids edges c d
      → IsVisited ids edges d e
      → IsVisited ids edges c e
  IsVisited-trans c d e h k = record {
    moved = λ x. IsMoved-trans c d e x (h.moved x) (k.moved x);
    safe = k.safe;
    fewer = omega (arith, h.fewer, k.fewer);
  }

  -- What is known of the colours after a first part is known after the whole.
  pub Outcome-after :
      (c d : Colours) (P Q : Colours → Type 0) (r : Bool × Colours)
      → IsVisited ids edges c d
      → ((e : Colours) → ((x : String) → IsMoved d e x) → P e → Q e)
      → Outcome ids edges d P r
      → Outcome ids edges c Q r
  Outcome-after c d P Q r h f o = elim o [
    | inl found ↦ inl found
    | inr (no_cycle, visited, p) ↦
        inr (no_cycle, IsVisited-trans c d r.1 h visited, f r.1 visited.moved p)
  ]

  GraysReach-moved :
      (c d : Colours) (id : String)
      → ((x : String) → IsMoved c d x)
      → GraysReach edges c id
      → GraysReach edges d id
  GraysReach-moved c d id moved grays x g = grays x (IsMoved-gray_back c d x (moved x) g)

  IsDone-moved : (c d : Colours) (x : String) → IsMoved c d x → IsDone c x → IsDone d x
  IsDone-moved c d x h done = elim done [
    | inl a ↦ inl (IsMoved-none c d x h a)
    | inr b ↦ inr (IsMoved-black c d x h b)
  ]

  pub or_go_on-Outcome :
      (c : Colours) (P Q R : Colours → Type 0) (go_on : Colours → Bool × Colours)
      (r : Bool × Colours)
      → Outcome ids edges c P r
      → ((d : Colours) → IsVisited ids edges c d → Outcome ids edges d Q (go_on d))
      → ((d e : Colours) → ((x : String) → IsMoved d e x) → P d → Q e → R e)
      → Outcome ids edges c R (or_go_on go_on r)
  or_go_on-Outcome c P Q R go_on (true, d) o rest f = elim o [
    | inl found ↦ inl found
    | inr (no_cycle, visited, p) ↦ absurd (cc)
  ]
  or_go_on-Outcome c P Q R go_on (false, d) o rest f = elim o [
    | inl (found, more) ↦ absurd (cc)
    | inr (no_cycle, visited, p) ↦
        Outcome-after c d Q R (go_on d) visited (λ e moved q. f d e moved p q) (rest d visited)
  ]

  neighbour-Outcome :
      (visit : String → Colours → Bool × Colours) (go_on : Colours → Bool × Colours) (id n : String)
      (ns : List String) (c : Colours) (colour : Option Colour)
      → get_key n c ≡ colour
      → mem n (targets edges id) ≡ true
      → GraysReach edges c id
      → IsSafe ids edges c
      → (get_key n c ≡ some white → Outcome ids edges c (λ d. get_key n d ≡ some black) (visit n c))
      → ((d : Colours)
          → IsVisited ids edges c d
          → Outcome ids edges d (λ e. All (IsDone e) ns) (go_on d))
      → Outcome ids edges c (λ d. All (IsDone d) (n ∷ ns)) (neighbour visit go_on n colour c)
  neighbour-Outcome visit go_on id n ns c none eq edge grays safe v rest =
      Outcome-after c c (λ e. All (IsDone e) ns) (λ e. All (IsDone e) (n ∷ ns)) (go_on c)
        (IsVisited-refl c safe) (λ e moved p. (IsDone-moved c e n (moved n) (inl eq), p))
        (rest c (IsVisited-refl c safe))
  neighbour-Outcome visit go_on id n ns c (some gray) eq edge grays safe v rest =
      inl (refl, record { source = id; target = n; edge = edge; path = grays n eq })
  neighbour-Outcome visit go_on id n ns c (some white) eq edge grays safe v rest =
      or_go_on-Outcome c (λ d. get_key n d ≡ some black) (λ e. All (IsDone e) ns)
        (λ e. All (IsDone e) (n ∷ ns)) go_on (visit n c) (v eq) rest
        (λ d e moved p q. (inr (IsMoved-black d e n (moved n) p), q))
  neighbour-Outcome visit go_on id n ns c (some black) eq edge grays safe v rest =
      Outcome-after c c (λ e. All (IsDone e) ns) (λ e. All (IsDone e) (n ∷ ns)) (go_on c)
        (IsVisited-refl c safe) (λ e moved p. (IsDone-moved c e n (moved n) (inr eq), p))
        (rest c (IsVisited-refl c safe))

  GraysReach-next :
      (c : Colours) (id n : String)
      → mem n (targets edges id) ≡ true
      → GraysReach edges c id
      → GraysReach edges c n
  GraysReach-next c id n edge grays x g = Reach.next (grays x g) edge

  neighbours-Outcome :
      (fuel : ℕ) (visit : String → Colours → Bool × Colours) (id : String) (ns : List String)
      (c : Colours)
      → Visits ids edges fuel visit
      → All (λ n. mem n (targets edges id) ≡ true) ns
      → whites c ≤ fuel
      → IsSafe ids edges c
      → GraysReach edges c id
      → Outcome ids edges c (λ d. All (IsDone d) ns) (neighbours visit ns c)
  unfolding neighbours
  neighbours-Outcome fuel visit id [] c visits ns_in few safe grays =
      inr (refl, IsVisited-refl c safe, tt)
  neighbours-Outcome fuel visit id (n ∷ ns) c visits ns_in few safe grays =
      neighbour-Outcome visit (neighbours visit ns) id n ns c (get_key n c) refl ns_in.0 grays safe
        (λ was. visits n c was few safe (GraysReach-next c id n ns_in.0 grays))
        (λ d visited.
          neighbours-Outcome fuel visit id ns d visits ns_in.1 (omega (arith, few, visited.fewer))
            visited.safe (GraysReach-moved c d id visited.moved grays))

  IsMoved-blacken :
      (c d : Colours) (id x : String)
      → get_key id c ≡ some white
      → IsMoved (set_key id gray c) d x
      → IsMoved c (set_key id black d) x
  IsMoved-blacken c d id x was h = elim (Bool-cases (id == x)) [
    | inl same ↦ inr (
      subst (λ i. get_key i c ≡ some white) ((eq_iff id x).0 same) was,
      rw (get_key-set_key id x black d, same) refl,
    )
    | inr differ ↦
        rw (get_key-set_key id x black d, differ) (rw (get_key-set_key id x gray c, differ) at h)
  ]

  gray-set_key : (c : Colours) (id : String) → get_key id (set_key id gray c) ≡ some gray
  gray-set_key c id = rw (get_key-set_key id id gray c, eq_refl id) refl

  GraysReach-gray :
      (c : Colours) (id : String) → GraysReach edges c id → GraysReach edges (set_key id gray c) id
  GraysReach-gray c id grays x g = elim (Bool-cases (id == x)) [
    | inl same ↦ subst (λ y. Reach edges y id) ((eq_iff id x).0 same) here
    | inr differ ↦ grays x (rw (get_key-set_key id x gray c, differ) at g)
  ]

  blacken-Outcome :
      (c : Colours) (id : String) (r : Bool × Colours)
      → all (λ e. mem e.source ids) edges ≡ true
      → get_key id c ≡ some white
      → Outcome ids edges (set_key id gray c) (λ d. All (IsDone d) (targets edges id)) r
      → Outcome ids edges c (λ d. get_key id d ≡ some black) (blacken id r)
  blacken-Outcome c id (true, d) sources was o = elim o [
    | inl found ↦ inl found
    | inr (no_cycle, visited, p) ↦ absurd (cc)
  ]
  blacken-Outcome c id (false, d) sources was o = elim o [
    | inl (found, more) ↦ absurd (cc)
    | inr (no_cycle, visited, done) ↦
        let open_ : get_key id d ≡ some gray =
          IsMoved-gray (set_key id gray c) d id (visited.moved id) (gray-set_key c id) in
        inr (
          refl,
          record {
            moved = λ x. IsMoved-blacken c d id x was (visited.moved x);
            safe = IsSafe-black ids edges d id sources open_ done visited.safe;
            fewer = omega (
              arith,
              visited.fewer,
              whites-set_key id white gray c was,
              whites-set_key id gray black d open_,
            );
          },
          rw (get_key-set_key id id black d, eq_refl id) refl,
        )
  ]

  pub dfs-Visits :
      (fuel : ℕ) → all (λ e. mem e.source ids) edges ≡ true → Visits ids edges fuel (dfs fuel edges)
  unfolding dfs
  dfs-Visits zero sources id c was few safe grays =
      absurd (omega (arith, few, whites-set_key id white gray c was))
  dfs-Visits (suc fuel) sources id c was few safe grays =
      blacken-Outcome c id (neighbours (dfs fuel edges) (targets edges id) (set_key id gray c))
        sources was
        (neighbours-Outcome fuel (dfs fuel edges) id (targets edges id) (set_key id gray c)
          (dfs-Visits fuel sources) (mem_self (targets edges id))
          (omega (arith, few, whites-set_key id white gray c was))
          (IsSafe-gray ids edges c id was safe) (GraysReach-gray c id grays))
