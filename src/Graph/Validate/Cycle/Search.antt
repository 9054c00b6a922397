-- ===== src/Graph/Validate/Cycle/Search.antt =====
-- What the colours say of the cycles.
use strategy_builder_v.Prelude.{
  String, none, some, List, [], ◌∷◌, true, ◌≡◌, ◌⊎◌, refl, arith, inl, inr, Bool-cases, sym, ap,
  all, All, subst,
}
use strategy_builder_v.Prelude.Names.{mem, get_key, set_key, get_key-set_key, All_of_mem}
use strategy_builder_v.Graph.{GraphEdge, targets}
use strategy_builder_v.Graph.Bfs.Order.{Reach, here}
use strategy_builder_v.Graph.Validate.Cycle.{white, gray, black, Colours}
use text.Mathlib.Text.{◌==◌}
use text.Mathlib.TextEquality.{eq_iff}

-- An edge that closes a path of edges.
pub record Cycle (edges : List GraphEdge) : Type 0 where
  pub source : String
  pub target : String
  pub edge : mem target (targets edges source) ≡ true
  pub path : Reach edges target source

abbrev pub IsDone : Colours → String → Type 0
IsDone colours x = (get_key x colours ≡ none) ⊎ (get_key x colours ≡ some black)

-- No path of edges returns to a black node, and black nodes lead to black nodes.
pub record IsSafe (ids : List String) (edges : List GraphEdge) (colours : Colours) : Type 0 where
  pub known : (x : String) → mem x ids ≡ true → ¬ (get_key x colours ≡ none)
  pub closed :
      (x t : String)
      → get_key x colours ≡ some black
      → mem t (targets edges x) ≡ true
      → IsDone colours t
  pub apart :
      (x t : String)
      → get_key x colours ≡ some black
      → mem t (targets edges x) ≡ true
      → ¬ Reach edges t x

pub mem-source :
    (ids : List String) (edges : List GraphEdge) (x t : String)
    → all (λ e. mem e.source ids) edges ≡ true
    → mem t (targets edges x) ≡ true
    → mem x ids ≡ true
mem-source ids [] x t h m = absurd (cc)
mem-source ids (e ∷ edges) x t h m = elim (Bool-cases (e.source == x)) [
  | inl same ↦ ground (arith, h, (eq_iff e.source x).0 same)
  | inr differ ↦ mem-source ids edges x t (ground (arith, h)) (rw differ at m)
]

module _ (ids : List String) (edges : List GraphEdge) where
  -- Everything that a finished node leads to is finished.
  IsDone-Reach :
      (colours : Colours) (s y : String)
      → all (λ e. mem e.source ids) edges ≡ true
      → IsSafe ids edges colours
      → IsDone colours s
      → Reach edges s y
      → IsDone colours y
  IsDone-Reach colours s y sources safe h here = h
  IsDone-Reach colours s y sources safe h (Reach.next {t} r m) =
      elim (IsDone-Reach colours s t sources safe h r) [
        | inl absent ↦ absurd (safe.known t (mem-source ids edges t y sources m) absent)
        | inr done ↦ safe.closed t y done m
      ]

  IsSafe-moved :
      (c d : Colours)
      → ((x : String) → get_key x d ≡ none → get_key x c ≡ none)
      → ((x : String) → get_key x d ≡ some black → get_key x c ≡ some black)
      → ((x : String) → IsDone c x → IsDone d x)
      → IsSafe ids edges c
      → IsSafe ids edges d
  IsSafe-moved c d absent black_back done safe = record {
    known = λ x m e. safe.known x m (absent x e);
    closed = λ x t b m. done t (safe.closed x t (black_back x b) m);
    apart = λ x t b m. safe.apart x t (black_back x b) m;
  }

  pub IsSafe-gray :
      (colours : Colours) (id : String)
      → get_key id colours ≡ some white
      → IsSafe ids edges colours
      → IsSafe ids edges (set_key id gray colours)
  IsSafe-gray colours id was safe =
      IsSafe-moved colours (set_key id gray colours)
        (λ x e. ground (arith, get_key-set_key id x gray colours, e))
        (λ x e. ground (arith, get_key-set_key id x gray colours, e))
        (λ x done. elim (Bool-cases (id == x)) [
          | inl same ↦
              let eq : get_key id colours ≡ get_key x colours =
                ap (λ i. get_key i colours) ((eq_iff id x).0 same) in
              absurd (elim done [ inl a ↦ cc | inr b ↦ cc ])
          | inr differ ↦ elim done [
            | inl a ↦ inl (rw (get_key-set_key id x gray colours, differ) a)
            | inr b ↦ inr (rw (get_key-set_key id x gray colours, differ) b)
          ]
        ])
        safe

  pub IsDone-blacken :
      (colours : Colours) (id x : String) → IsDone colours x → IsDone (set_key id black colours) x
  IsDone-blacken colours id x done = elim (Bool-cases (id == x)) [
    | inl same ↦ inr (rw (get_key-set_key id x black colours, same) refl)
    | inr differ ↦ elim done [
      | inl a ↦ inl (rw (get_key-set_key id x black colours, differ) a)
      | inr b ↦ inr (rw (get_key-set_key id x black colours, differ) b)
    ]
  ]

  -- A node that has just become black, or an older one.
  black_cases :
      (colours : Colours) (id x : String)
      → get_key x (set_key id black colours) ≡ some black
      → (id ≡ x) ⊎ (get_key x colours ≡ some black)
  black_cases colours id x b = elim (Bool-cases (id == x)) [
    | inl same ↦ inl ((eq_iff id x).0 same)
    | inr differ ↦ inr (rw (get_key-set_key id x black colours, differ) at b)
  ]

  pub IsSafe-black :
      (colours : Colours) (id : String)
      → all (λ e. mem e.source ids) edges ≡ true
      → get_key id colours ≡ some gray
      → All (IsDone colours) (targets edges id)
      → IsSafe ids edges colours
      → IsSafe ids edges (set_key id black colours)
  IsSafe-black colours id sources was done safe = record {
    known = λ x m e. safe.known x m (ground (arith, get_key-set_key id x black colours, e));
    closed = λ x t b m. IsDone-blacken colours id t (elim (black_cases colours id x b) [
      | inl eq ↦ All_of_mem (IsDone colours) t (targets edges id) done (rw eq m)
      | inr older ↦ safe.closed x t older m
    ]);
    apart = λ x t b m r. elim (black_cases colours id x b) [
      | inl eq ↦
          let back : Reach edges t id = subst (Reach edges t) (sym eq) r in
          let own : IsDone colours t =
            All_of_mem (IsDone colours) t (targets edges id) done (rw eq m) in
          elim (IsDone-Reach colours t id sources safe own back) [ inl a ↦ cc | inr a ↦ cc ]
      | inr older ↦ safe.apart x t older m r
    ];
  }
