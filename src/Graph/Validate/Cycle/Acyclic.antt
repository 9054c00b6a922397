-- ===== src/Graph/Validate/Cycle/Acyclic.antt =====
-- What `hasCycle` answers.
use strategy_builder_v.Prelude.{
  ℕ, ◌≤◌, String, Option, none, some, List, [], ◌∷◌, Bool, true, false, ◌≡◌, ◌⊎◌, refl, arith,
  length, inl, inr, all, map, All,
}
use strategy_builder_v.Prelude.Result.{ok}
use strategy_builder_v.Prelude.Names.{mem, get_key, All_of_mem}
use strategy_builder_v.Graph.{GraphNode, GraphEdge}
use strategy_builder_v.Graph.Connect.Acyclic.{Acyclic, HasSources}
use strategy_builder_v.Graph.Validate.Cycle.{
  Colour, white, gray, black, Colours, root, roots, dfs, has_cycle, all_white,
}
use strategy_builder_v.Graph.Validate.Cycle.Colours.{
  IsMoved, whites, whites-all_white, get_key-all_white, IsMoved-black, IsMoved-gray_back,
}
use strategy_builder_v.Graph.Validate.Cycle.Search.{Cycle, IsSafe, mem-source}
use strategy_builder_v.Graph.Validate.Cycle.Visit.{
  Visits, Outcome, Outcome-after, or_go_on-Outcome, IsVisited, IsVisited-refl, dfs-Visits, mem_self,
}

abbrev NoGray : Colours → Type 0
NoGray c = (x : String) → ¬ (get_key x c ≡ some gray)

NoGray-all_white : (ids : List String) → NoGray (all_white ids [])
NoGray-all_white ids x g = ground (arith, get_key-all_white ids x [], g)

module _ (ids : List String) (edges : List GraphEdge) where
  root-Outcome :
      (visit : String → Colours → Bool × Colours) (go_on : Colours → Bool × Colours) (id : String)
      (rest_ids : List String) (c : Colours) (colour : Option Colour)
      → get_key id c ≡ colour
      → NoGray c
      → mem id ids ≡ true
      → IsSafe ids edges c
      → (get_key id c ≡ some white
          → Outcome ids edges c (λ d. get_key id d ≡ some black) (visit id c))
      → ((d : Colours)
          → IsVisited ids edges c d
          → Outcome ids edges d (λ e. All (λ x. get_key x e ≡ some black) rest_ids) (go_on d))
      → Outcome ids edges c
          (λ d. All (λ x. get_key x d ≡ some black) (id ∷ rest_ids))
          (root visit go_on id colour c)
  root-Outcome visit go_on id rest_ids c none eq plain known safe v rest =
      absurd (safe.known id known eq)
  root-Outcome visit go_on id rest_ids c (some gray) eq plain known safe v rest =
      absurd (plain id eq)
  root-Outcome visit go_on id rest_ids c (some black) eq plain known safe v rest =
      Outcome-after ids edges c c (λ e. All (λ x. get_key x e ≡ some black) rest_ids)
        (λ e. All (λ x. get_key x e ≡ some black) (id ∷ rest_ids)) (go_on c)
        (IsVisited-refl ids edges c safe) (λ e moved p. (IsMoved-black c e id (moved id) eq, p))
        (rest c (IsVisited-refl ids edges c safe))
  root-Outcome visit go_on id rest_ids c (some white) eq plain known safe v rest =
      or_go_on-Outcome ids edges c (λ d. get_key id d ≡ some black)
        (λ e. All (λ x. get_key x e ≡ some black) rest_ids)
        (λ e. All (λ x. get_key x e ≡ some black) (id ∷ rest_ids)) go_on (visit id c) (v eq) rest
        (λ d e moved p q. (IsMoved-black d e id (moved id) p, q))

  NoGray-moved : (c d : Colours) → ((x : String) → IsMoved c d x) → NoGray c → NoGray d
  NoGray-moved c d moved plain x g = plain x (IsMoved-gray_back c d x (moved x) g)

  roots-Outcome :
      (fuel : ℕ) (visit : String → Colours → Bool × Colours) (rest_ids : List String) (c : Colours)
      → Visits ids edges fuel visit
      → All (λ x. mem x ids ≡ true) rest_ids
      → whites c ≤ fuel
      → NoGray c
      → IsSafe ids edges c
      → Outcome ids edges c
          (λ d. All (λ x. get_key x d ≡ some black) rest_ids)
          (roots visit rest_ids c)
  unfolding roots
  roots-Outcome fuel visit [] c visits known few plain safe =
      inr (refl, IsVisited-refl ids edges c safe, tt)
  roots-Outcome fuel visit (id ∷ rest_ids) c visits known few plain safe =
      root-Outcome visit (roots visit rest_ids) id rest_ids c (get_key id c) refl plain known.0 safe
        (λ was. visits id c was few safe (λ x g. absurd (plain x g)))
        (λ d visited.
          roots-Outcome fuel visit rest_ids d visits known.1 (omega (arith, few, visited.fewer))
            (NoGray-moved c d visited.moved plain) visited.safe)

  IsSafe-all_white : IsSafe ids edges (all_white ids [])
  IsSafe-all_white = record {
    known = λ x m e. ground (arith, get_key-all_white ids x [], m, e);
    closed = λ x t b m. absurd (ground (arith, get_key-all_white ids x [], b));
    apart = λ x t b m r. ground (arith, get_key-all_white ids x [], b);
  }

  -- All nodes are black in the end, so no edge closes a path.
  Acyclic-of_IsSafe :
      (c : Colours)
      → all (λ e. mem e.source ids) edges ≡ true
      → All (λ x. get_key x c ≡ some black) ids
      → IsSafe ids edges c
      → Acyclic edges
  Acyclic-of_IsSafe c sources done safe s t m r =
      safe.apart s t
        (All_of_mem (λ x. get_key x c ≡ some black) s ids done (mem-source ids edges s t sources m))
        m r

-- Where every edge leaves a node, `hasCycle` answers; it answers false exactly where no edge closes a path of
-- edges, and true where one does.
pub has_cycle-Acyclic :
    {P : Type 0} (nodes : List (GraphNode P)) (edges : List GraphEdge)
    → HasSources nodes edges
    → ((has_cycle nodes edges ≡ ok false) × Acyclic edges)
      ⊎ ((has_cycle nodes edges ≡ ok true) × Cycle edges)
unfolding has_cycle
has_cycle-Acyclic nodes edges sources =
    let ids : List String = map (λ n. n.id) nodes in
    let start : Colours = all_white ids [] in
    let few : whites start ≤ length ids = omega (arith, whites-all_white ids []) in
    elim (roots-Outcome ids edges (length ids) (dfs (length ids) edges) ids start
      (dfs-Visits ids edges (length ids) sources) (mem_self ids) few (NoGray-all_white ids)
      (IsSafe-all_white ids edges)) [
        | inl (found, cycle) ↦ inr (rw (sources, found) refl, cycle)
        | inr (none_found, visited, done) ↦
            inl (
              rw (sources, none_found) refl,
              Acyclic-of_IsSafe ids edges _ sources done visited.safe,
            )
      ]
