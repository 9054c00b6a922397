-- ===== src/Graph/Connect/Search.antt =====
-- What the search of is-valid-connection.ts finds.
use strategy_builder_v.Prelude.{
  ℕ, zero, suc, ◌+◌, ◌<◌, String, List, [], ◌∷◌, true, false, ◌≡◌, refl, arith, length, ◌⊎◌, inl,
  inr, Bool-cases, ap, sym, ◌∙◌, if◌then◌else◌, ◌||◌, subst,
}
use strategy_builder_v.Prelude.Names.{mem}
use strategy_builder_v.Graph.{GraphEdge, targets}
use strategy_builder_v.Graph.Bfs.Order.{Reach, here}
use strategy_builder_v.Graph.Connect.{push_all, search, search_from}
use text.Mathlib.Text.{◌==◌}
use text.Mathlib.TextEquality.{eq_iff}
use text.Mathlib.TextPositions.{eq_refl}

-- The edges whose source is not visited yet.
unfoldable waiting : List String → List GraphEdge → ℕ
waiting visited [] = 0
waiting visited (e ∷ es) =
    let rest = waiting visited es in if mem e.source visited then rest else suc rest

waiting-visit :
    (id : String) (visited : List String) (es : List GraphEdge)
    → mem id visited ≡ false
    → waiting (id ∷ visited) es + length (targets es id) ≡ waiting visited es
unfolding waiting
waiting-visit id visited [] h = refl
waiting-visit id visited (e ∷ es) h = elim (Bool-cases (e.source == id)) [
  | inl same ↦
      let e_id : e.source ≡ id = (eq_iff e.source id).0 same in
      let fresh : mem e.source visited ≡ false = ap (λ x. mem x visited) e_id ∙ h in
      let same' : (id == e.source) ≡ true = (eq_iff id e.source).1 (sym e_id) in
      rw (same, same', fresh) (omega (arith, waiting-visit id visited es h))
  | inr other ↦
      let other' : (id == e.source) ≡ false =
        ground (arith, eq_iff id e.source, eq_iff e.source id) in
      elim (Bool-cases (mem e.source visited)) [
        | inl old ↦ rw (other, other', old) (waiting-visit id visited es h)
        | inr fresh ↦ rw (other, other', fresh) (omega (arith, waiting-visit id visited es h))
      ]
]

length-push_all : (xs stack : List String) → length (push_all xs stack) ≡ length xs + length stack
unfolding push_all
length-push_all [] stack = omega arith
length-push_all (x ∷ xs) stack = omega (arith, length-push_all xs (x ∷ stack))

mem-push_all :
    (a : String) (xs stack : List String) → mem a (push_all xs stack) ≡ (mem a xs || mem a stack)
unfolding push_all
mem-push_all a [] stack = refl
mem-push_all a (x ∷ xs) stack = ground (arith, mem-push_all a xs (x ∷ stack))

-- The goal that the search has met can be reached.
search-found :
    (fuel : ℕ) (edges : List GraphEdge) (goal start : String) (visited stack : List String)
    → ((x : String) → mem x stack ≡ true → Reach edges start x)
    → search fuel edges goal visited stack ≡ false
    → Reach edges start goal
unfolding search
search-found zero edges goal start visited stack h none_met =
    absurd (let e : true ≡ false = none_met in cc)
search-found (suc fuel) edges goal start visited [] h none_met =
    absurd (let e : true ≡ false = none_met in cc)
search-found (suc fuel) edges goal start visited (id ∷ stack) h none_met =
    let known : Reach edges start id = h id (rw (eq_refl id) refl) in
    elim (Bool-cases (id == goal)) [
      | inl met ↦ subst (Reach edges start) ((eq_iff id goal).0 met) known
      | inr further ↦ elim (Bool-cases (mem id visited)) [
        | inl old ↦
            search-found fuel edges goal start visited stack (λ x m. h x (ground arith))
              (rw (further, old) at none_met)
        | inr fresh ↦
            search-found fuel edges goal start (id ∷ visited) (push_all (targets edges id) stack)
              (λ x m. elim (Bool-cases (mem x (targets edges id))) [
                | inl t ↦ Reach.next known t
                | inr other ↦ h x (ground (arith, mem-push_all x (targets edges id) stack))
              ])
              (rw (further, fresh) at none_met)
      ]
    ]

-- Where an edge leads from a visited name is visited or on the stack.
abbrev Frontier : List GraphEdge → List String → List String → Type 0
Frontier edges visited stack =
    (v t : String)
    → mem v visited ≡ true
    → mem t (targets edges v) ≡ true
    → (mem t visited || mem t stack) ≡ true

Frontier-visit :
    (edges : List GraphEdge) (id : String) (visited stack : List String)
    → Frontier edges visited (id ∷ stack)
    → Frontier edges (id ∷ visited) (push_all (targets edges id) stack)
Frontier-visit edges id visited stack f v t m n = elim (Bool-cases (id == v)) [
  | inl same ↦
      let from_id : mem t (targets edges id) ≡ true =
        ap (λ x. mem t (targets edges x)) ((eq_iff id v).0 same) ∙ n in
      ground (arith, mem-push_all t (targets edges id) stack, from_id)
  | inr other ↦
      let seen : (mem t visited || mem t (id ∷ stack)) ≡ true = f v t (ground arith) n in
      ground (arith, mem-push_all t (targets edges id) stack, seen)
]

-- Names that no edge leads out of, without the goal.
record Separates (edges : List GraphEdge) (goal : String) (names : List String) : Type 0 where
  closed : (v t : String) → mem v names ≡ true → mem t (targets edges v) ≡ true → mem t names ≡ true
  apart : mem goal names ≡ false

-- With enough fuel, a search that does not meet the goal ends with names that hold all that was
-- visited or on the stack.
search-Separates :
    (fuel : ℕ) (edges : List GraphEdge) (goal : String) (visited stack : List String)
    → length stack + waiting visited edges < fuel
    → Frontier edges visited stack
    → mem goal visited ≡ false
    → search fuel edges goal visited stack ≡ true
    → (names : List String) × Separates edges goal names
      × ((x : String) → (mem x visited || mem x stack) ≡ true → mem x names ≡ true)
unfolding search
search-Separates zero edges goal visited stack enough f apart h = absurd (omega arith)
search-Separates (suc fuel) edges goal visited [] enough f apart h = (
  visited,
  record { closed = λ v t m n. ground (arith, f v t m n); apart = apart },
  λ x m. ground arith,
)
search-Separates (suc fuel) edges goal visited (id ∷ stack) enough f apart h =
    elim (Bool-cases (id == goal)) [
      | inl met ↦ absurd (let k : false ≡ true = rw met at h in cc)
      | inr further ↦ elim (Bool-cases (mem id visited)) [
        | inl old ↦
            let (names, s, all_in) =
              search-Separates fuel edges goal visited stack (omega arith)
                (λ v t m n. ground (arith, f v t m n, eq_iff id t)) apart
                (rw (further, old) at h) in
            (names, s, λ x m. all_in x (ground (arith, eq_iff id x)))
        | inr fresh ↦
            let (names, s, all_in) =
              search-Separates fuel edges goal (id ∷ visited) (push_all (targets edges id) stack)
                (omega (
                  arith,
                  waiting-visit id visited edges fresh,
                  length-push_all (targets edges id) stack,
                ))
                (Frontier-visit edges id visited stack f) (ground (arith, further))
                (rw (further, fresh) at h) in
            (names, s, λ x m. all_in x (ground (arith, mem-push_all x (targets edges id) stack)))
      ]
    ]

Separates-Reach :
    (edges : List GraphEdge) (goal start x : String) (names : List String)
    → Separates edges goal names
    → mem start names ≡ true
    → Reach edges start x
    → mem x names ≡ true
Separates-Reach edges goal start x names s m here = m
Separates-Reach edges goal start x names s m (Reach.next {t} r n) =
    s.closed t x (Separates-Reach edges goal start t names s m r) n

waiting-none : (es : List GraphEdge) → waiting [] es ≡ length es
unfolding waiting
waiting-none [] = refl
waiting-none (e ∷ es) = omega (arith, waiting-none es)

-- The search answers true exactly where no path leads from its start to the goal.
pub search_from-Reach :
    (edges : List GraphEdge) (goal start : String)
    → ((search_from edges goal start ≡ true) × ¬ Reach edges start goal)
      ⊎ ((search_from edges goal start ≡ false) × Reach edges start goal)
search_from-Reach edges goal start = elim (Bool-cases (search_from edges goal start)) [
  | inl none_met ↦
      let (names, s, all_in) =
        search-Separates (suc (suc (length edges))) edges goal [] (start ∷ [])
          (omega (arith, waiting-none edges)) (λ v t m n. absurd (cc)) refl none_met in
      inl (
        none_met,
        λ r. absurd (
            let met =
              Separates-Reach edges goal start goal names s
                (all_in start (ground (arith, eq_refl start))) r in
            let out = s.apart in cc),
      )
  | inr met ↦ inr (
    met,
    search-found (suc (suc (length edges))) edges goal start [] (start ∷ [])
        (λ x m. subst (Reach edges start) ((eq_iff start x).0 (ground arith)) here) met,
  )
]
