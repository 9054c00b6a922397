-- ===== src/Context/Expand/Kept.antt =====
-- What `buildExpandedContext` promises.
use strategy_builder_v.Prelude.{
  ℕ, zero, suc, ◌+◌, ◌<◌, ◌≤◌, String, none, some, List, [], ◌∷◌, true, false, ltb, map, length,
  length-map, find, get_elem?, interval, ◌==◌, ◌≡◌, refl, arith, All, All-map, ◌∙◌, sym, ap,
  Bool-cases, inl, inr, subst, ◌⊎◌,
}
use strategy_builder_v.Prelude.{if◌then◌else◌}
use strategy_builder_v.Context.Expand.{
  NewSlot, get_index, index_overrides, larger, size_over, or_empty, initial_of, old_or_new,
  override_or, value_at, build_expanded_context, expanded_context, Option, any, finds_member,
  own_slots,
}

get_elem?-map_interval :
    (f : ℕ → String) (start n i : ℕ)
    → i < n
    → get_elem? (map f (interval start n)) i ≡ some (f (start + i))
get_elem?-map_interval f start zero i h = absurd (omega arith)
get_elem?-map_interval f start (suc n) zero h = let e : start + 0 ≡ start = omega arith in rw e refl
get_elem?-map_interval f start (suc n) (suc i) h =
    let e : start + 1 + i ≡ start + suc i = omega arith in
    get_elem?-map_interval f (start + 1) n i (omega arith) ∙ ap (λ k. some (f k)) e

length-interval : (start n : ℕ) → length (interval start n) ≡ n
length-interval start zero = refl
length-interval start (suc n) = ap suc (length-interval (start + 1) n)

size_over-le : (indices : List ℕ) (size : ℕ) → size ≤ size_over indices size
size_over-le [] size = omega arith
size_over-le (i ∷ indices) size =
    let h = size_over-le indices (larger size (i + 1)) in ground (arith, h)

size_over-above : (indices : List ℕ) (size : ℕ) → All (λ i. i < size_over indices size) indices
size_over-above [] size = tt
size_over-above (i ∷ indices) size =
    let h = size_over-le indices (larger size (i + 1)) in
    (ground (arith, h), size_over-above indices (larger size (i + 1)))

get_index-below :
    (i n : ℕ) (v : String) (table : List (ℕ × String))
    → All (λ k. k < n) (map (λ p. p.0) table)
    → get_index i table ≡ some v
    → i < n
get_index-below i n v [] h found = absurd (cc)
get_index-below i n v ((j, x) ∷ table) h found = elim (Bool-cases (j == i)) [
  | inl here ↦ let first = h.0 in ground arith
  | inr later ↦ get_index-below i n v table h.1 (sym (rw later refl) ∙ found)
]

find-below :
    (i n : ℕ) (s : NewSlot) (slots : List NewSlot)
    → All (λ k. k < n) (map (λ s. s.index) slots)
    → find (λ s. s.index == i) slots ≡ some s
    → i < n
find-below i n s [] h found = absurd (cc)
find-below i n s (t ∷ slots) h found = elim (Bool-cases (t.index == i)) [
  | inl here ↦ let first = h.0 in ground arith
  | inr later ↦ find-below i n s slots h.1 (sym (rw later refl) ∙ found)
]

get_elem?-some :
    (xs : List String) (i : ℕ) → i < length xs → some (or_empty (get_elem? xs i)) ≡ get_elem? xs i
unfolding or_empty
get_elem?-some [] i h = absurd (omega arith)
get_elem?-some (x ∷ xs) zero h = refl
get_elem?-some (x ∷ xs) (suc i) h = get_elem?-some xs i (omega arith)

-- The new context is at least as long as the old one. An index with an override has the override's
-- value; of the others, an old index has its old value, and a new one its slot's initial value.
pub record IsExpanded (current : List String) (new_slots : List NewSlot)
    (by_index : List (ℕ × String)) (result : List String) : Type 0 where
  pub longer : length current ≤ length result
  pub overridden :
      (i : ℕ) (v : String) → get_index i by_index ≡ some v → get_elem? result i ≡ some v
  pub kept :
      (i : ℕ)
      → get_index i by_index ≡ none
      → i < length current
      → get_elem? result i ≡ get_elem? current i
  pub added :
      (i : ℕ) (s : NewSlot)
      → get_index i by_index ≡ none
      → length current ≤ i
      → find (λ s. s.index == i) new_slots ≡ some s
      → get_elem? result i ≡ some s.initial_value

module _ (current : List String) (new_slots : List NewSlot) (by_index : List (ℕ × String))
    (size : ℕ) (over_current : length current ≤ size)
    (over_index : All (λ k. k < size) (map (λ p. p.0) by_index))
    (over_slots : All (λ k. k < size) (map (λ s. s.index) new_slots)) where
  read_at :
      (i : ℕ)
      → i < size
      → get_elem? (map (value_at current new_slots by_index) (interval 0 size)) i
        ≡ some (value_at current new_slots by_index i)
  read_at i h =
      get_elem?-map_interval (value_at current new_slots by_index) 0 size i h
      ∙ ap (λ k. some (value_at current new_slots by_index k))
          (let e : 0 + i ≡ i = omega arith in e)

  expanded :
      IsExpanded current new_slots by_index
        (map (value_at current new_slots by_index) (interval 0 size))
  unfolding value_at old_or_new override_or initial_of
  expanded = record {
    longer = omega (
      arith,
      length-map (value_at current new_slots by_index) (interval 0 size),
      length-interval 0 size,
    );
    overridden = λ i v h. read_at i (get_index-below i size v by_index over_index h) ∙ rw h refl;
    kept = λ i h old.
        let inside : ltb i (length current) ≡ true = ground arith in
        read_at i (omega arith) ∙ rw (h, inside) (get_elem?-some current i old);
    added = λ i s h fresh found.
        let outside : ltb i (length current) ≡ false = ground arith in
        read_at i (find-below i size s new_slots over_slots found) ∙ rw (h, outside, found) refl;
  }

expanded_context-IsExpanded :
    (current : List String) (new_slots : List NewSlot) (by_index : List (ℕ × String))
    → IsExpanded current new_slots by_index (expanded_context current new_slots by_index)
unfolding expanded_context
expanded_context-IsExpanded current new_slots by_index =
    let inner = size_over (map (λ s. s.index) new_slots) (length current) in
    let size = size_over (map (λ p. p.0) by_index) inner in
    let over_inner : inner ≤ size = size_over-le (map (λ p. p.0) by_index) inner in
    let over_length : length current ≤ inner =
      size_over-le (map (λ s. s.index) new_slots) (length current) in
    expanded current new_slots by_index size (omega arith)
      (size_over-above (map (λ p. p.0) by_index) inner)
      (All-map _ _ (λ k h. omega (arith, h, over_inner)) (map (λ s. s.index) new_slots)
        (size_over-above (map (λ s. s.index) new_slots) (length current)))

pub build_expanded_context-numbers :
    (current : List String) (new_slots : List NewSlot) (overrides : List (String × String))
    (mapping : Option (List (String × ℕ)))
    → any (λ p. finds_member mapping p.0) overrides ≡ false
    → IsExpanded current new_slots
        (index_overrides (own_slots mapping) overrides [])
        (build_expanded_context current new_slots overrides mapping)
unfolding build_expanded_context
build_expanded_context-numbers current new_slots overrides mapping h =
    subst
      (λ b. IsExpanded current new_slots (index_overrides (own_slots mapping) overrides []) (
        if b
        then []
        else expanded_context current new_slots (index_overrides (own_slots mapping) overrides [])))
      (sym h)
      (expanded_context-IsExpanded current new_slots
        (index_overrides (own_slots mapping) overrides []))

build_expanded_context-lost :
    (current : List String) (new_slots : List NewSlot) (overrides : List (String × String))
    (mapping : Option (List (String × ℕ)))
    → any (λ p. finds_member mapping p.0) overrides ≡ true
    → build_expanded_context current new_slots overrides mapping ≡ []
unfolding build_expanded_context
build_expanded_context-lost current new_slots overrides mapping h = rw h refl

-- The context that is sent keeps the values on the chain, except where an override names a slot, and gives
-- each new slot its initial value; no value on the chain is lost. But where an override has the name of a
-- member of Object.prototype, for which the mapping has no slot, the context is empty.
pub build_expanded_context-IsExpanded :
    (current : List String) (new_slots : List NewSlot) (overrides : List (String × String))
    (mapping : Option (List (String × ℕ)))
    → ((any (λ p. finds_member mapping p.0) overrides ≡ false)
        × IsExpanded current new_slots
            (index_overrides (own_slots mapping) overrides [])
            (build_expanded_context current new_slots overrides mapping))
      ⊎ ((any (λ p. finds_member mapping p.0) overrides ≡ true)
          × (build_expanded_context current new_slots overrides mapping ≡ []))
build_expanded_context-IsExpanded current new_slots overrides mapping =
    elim (Bool-cases (any (λ p. finds_member mapping p.0) overrides)) [
      | inl found ↦
          inr (found, build_expanded_context-lost current new_slots overrides mapping found)
      | inr plain ↦
          inl (plain, build_expanded_context-numbers current new_slots overrides mapping plain)
    ]
