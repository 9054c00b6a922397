-- ===== src/Graph/Incoming/Exact.antt =====
-- Counting finds exactly the nodes that no edge leads to.
use strategy_builder_v.Prelude.{
  ℕ, suc, ◌+◌, String, some, List, [], ◌∷◌, Bool, false, not, filter, find, map, ◌≡◌, refl, arith,
  All, All-map, Bool-cases, inl, inr, ap, ◌∙◌,
}
use strategy_builder_v.Prelude.Names.{mem, get_key, set_key, get_key-set_key}
use strategy_builder_v.Graph.{GraphEdge}
use strategy_builder_v.Graph.Incoming.{zeros, bumped, count_of, is_zero, is_unlinked}
use text.Mathlib.Text.{◌==◌}
use text.Mathlib.TextEquality.{eq_iff}
use text.Mathlib.TextPositions.{eq_refl}

-- No edge leads to the name.
abbrev pub no_incoming : List GraphEdge → String → Bool
no_incoming edges id = not (mem id (map (λ e. e.target) edges))

zeros-kept :
    (ids : List String) (id : String) (counts : List (String × ℕ))
    → get_key id counts ≡ some 0
    → get_key id (zeros ids counts) ≡ some 0
unfolding zeros
zeros-kept [] id counts h = h
zeros-kept (n ∷ ids) id counts h =
    zeros-kept ids id (set_key n 0 counts) (ground (arith, get_key-set_key n id 0 counts, h))

zeros-node :
    (ids : List String) (counts : List (String × ℕ))
    → All (λ n. get_key n (zeros ids counts) ≡ some 0) ids
unfolding zeros
zeros-node [] counts = tt
zeros-node (n ∷ ids) counts = (
  zeros-kept ids n (set_key n 0 counts) (rw (get_key-set_key n n 0 counts, eq_refl n) refl),
  zeros-node ids (set_key n 0 counts),
)

-- A count that has left zero stays away from it.
bumped-positive :
    (edges : List GraphEdge) (id : String) (c : ℕ) (counts : List (String × ℕ))
    → get_key id counts ≡ some (suc c)
    → is_zero (get_key id (bumped edges counts)) ≡ false
unfolding bumped count_of
bumped-positive [] id c counts h = rw h refl
bumped-positive (e ∷ edges) id c counts h = elim (Bool-cases (e.target == id)) [
  | inl same ↦
      let now : count_of (get_key e.target counts) ≡ suc c =
        ap (λ x. count_of (get_key x counts)) ((eq_iff e.target id).0 same) ∙ ap count_of h in
      let next : count_of (get_key e.target counts) + 1 ≡ suc (suc c) = omega (arith, now) in
      bumped-positive edges id (suc c)
        (set_key e.target (count_of (get_key e.target counts) + 1) counts)
        (rw (get_key-set_key e.target id (count_of (get_key e.target counts) + 1) counts, same)
          (ap some next))
  | inr differ ↦
      bumped-positive edges id c (set_key e.target (count_of (get_key e.target counts) + 1) counts)
        (rw (get_key-set_key e.target id (count_of (get_key e.target counts) + 1) counts, differ) h)
]

bumped-zero :
    (edges : List GraphEdge) (id : String) (counts : List (String × ℕ))
    → get_key id counts ≡ some 0
    → is_zero (get_key id (bumped edges counts)) ≡ not (mem id (map (λ e. e.target) edges))
unfolding bumped count_of
bumped-zero [] id counts h = rw h refl
bumped-zero (e ∷ edges) id counts h = elim (Bool-cases (e.target == id)) [
  | inl same ↦
      let now : count_of (get_key e.target counts) ≡ 0 =
        ap (λ x. count_of (get_key x counts)) ((eq_iff e.target id).0 same) ∙ ap count_of h in
      let next : count_of (get_key e.target counts) + 1 ≡ suc 0 = omega (arith, now) in
      bumped-positive edges id 0 (set_key e.target (count_of (get_key e.target counts) + 1) counts)
        (rw (get_key-set_key e.target id (count_of (get_key e.target counts) + 1) counts, same)
          (ap some next))
      ∙ rw same refl
  | inr differ ↦
      bumped-zero edges id (set_key e.target (count_of (get_key e.target counts) + 1) counts)
        (rw (get_key-set_key e.target id (count_of (get_key e.target counts) + 1) counts, differ) h)
      ∙ rw differ refl
]

pub is_unlinked-no_incoming :
    (ids : List String) (edges : List GraphEdge)
    → All (λ id. is_unlinked ids edges id ≡ no_incoming edges id) ids
unfolding is_unlinked
is_unlinked-no_incoming ids edges =
    All-map _ _ (λ id h. bumped-zero edges id (zeros ids []) h) ids (zeros-node ids [])

pub filter-same :
    {A : Type 0} (p q : A → Bool) (xs : List A)
    → All (λ x. p x ≡ q x) xs
    → filter p xs ≡ filter q xs
filter-same p q [] h = refl
filter-same p q (x ∷ xs) h = ground (arith, filter-same p q xs h.1, h.0)

pub find-same :
    {A : Type 0} (p q : A → Bool) (xs : List A) → All (λ x. p x ≡ q x) xs → find p xs ≡ find q xs
find-same p q [] h = refl
find-same p q (x ∷ xs) h = ground (arith, find-same p q xs h.1, h.0)

pub All_of_map {ℓ κ} :
    {A : Type ℓ} {B : Type ℓ} (P : B → Type κ) (f : A → B) (xs : List A)
    → All P (map f xs)
    → All (λ x. P (f x)) xs
All_of_map P f [] h = tt
All_of_map P f (x ∷ xs) h = (h.0, All_of_map P f xs h.1)
