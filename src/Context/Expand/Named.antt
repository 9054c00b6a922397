-- ===== src/Context/Expand/Named.antt =====
-- An override is given by a name, and reaches the slot that the name is mapped to.
use strategy_builder_v.Prelude.{
  ℕ, String, Option, none, some, List, [], ◌∷◌, true, false, map, ◌==◌, if◌then◌else◌, ◌≡◌, ◌≢◌,
  refl, arith, Bool-cases, inl, inr, ap, ◌∙◌, sym, get_elem?, subst,
}
use strategy_builder_v.Prelude.Names.{mem, Nodup, get_key}
use strategy_builder_v.Context.Expand.{
  NewSlot, get_index, set_index, override, index_overrides, build_expanded_context, any,
  finds_member,
}
use strategy_builder_v.Context.Expand.Kept.{build_expanded_context-numbers}
use text.Mathlib.TextEquality.{eq_iff}

get_index-set_index :
    (i j : ℕ) (value : String) (table : List (ℕ × String))
    → get_index j (set_index i value table) ≡ (if i == j then some value else get_index j table)
get_index-set_index i j value [] = refl
get_index-set_index i j value ((k, v) ∷ table) = ground (arith, get_index-set_index i j value table)

-- Two names never share an index.
abbrev pub IsInjective : List (String × ℕ) → Type 0
IsInjective mapping =
    (a b : String) (i : ℕ) → get_key a mapping ≡ some i → get_key b mapping ≡ some i → a ≡ b

override_other :
    (i : ℕ) (value : String) (found : Option ℕ) (table : List (ℕ × String))
    → found ≢ some i
    → get_index i (override found value table) ≡ get_index i table
unfolding override
override_other i value none table h = refl
override_other i value (some k) table h = elim (Bool-cases (k == i)) [
  | inl same ↦ absurd (h (ap some (let e : k ≡ i = ground arith in e)))
  | inr differ ↦ get_index-set_index k i value table ∙ rw differ refl
]

override_here :
    (i : ℕ) (value : String) (found : Option ℕ) (table : List (ℕ × String))
    → found ≡ some i
    → get_index i (override found value table) ≡ some value
unfolding override
override_here i value none table h = absurd (cc)
override_here i value (some k) table h =
    let e : k ≡ i = cc in
    let same : (k == i) ≡ true = ground arith in get_index-set_index k i value table ∙ rw same refl

module _ (mapping : List (String × ℕ)) (injective : IsInjective mapping) (name : String) (i : ℕ)
    (mapped : get_key name mapping ≡ some i) where
  other_name : (other : String) → other ≢ name → get_key other mapping ≢ some i
  other_name other differ h = differ (injective other name i h mapped)

  index_overrides-absent :
      (overrides : List (String × String)) (table : List (ℕ × String))
      → mem name (map (λ p. p.0) overrides) ≡ false
      → get_index i (index_overrides mapping overrides table) ≡ get_index i table
  unfolding index_overrides
  index_overrides-absent [] table h = refl
  index_overrides-absent ((other, value) ∷ overrides) table h =
      index_overrides-absent overrides (override (get_key other mapping) value table) (ground arith)
      ∙ override_other i value (get_key other mapping) table (
          other_name other
            (λ e. let same = (eq_iff other name).1 e in absurd (ground (arith, same, h))))

  index_overrides-named :
      (overrides : List (String × String)) (table : List (ℕ × String)) (value : String)
      → Nodup (map (λ p. p.0) overrides)
      → get_key name overrides ≡ some value
      → get_index i (index_overrides mapping overrides table) ≡ some value
  unfolding index_overrides
  index_overrides-named [] table value distinct h = absurd (cc)
  index_overrides-named ((other, first) ∷ overrides) table value distinct h =
      elim (Bool-cases (text.Mathlib.Text.◌==◌ other name)) [
        | inl same ↦
            let e : other ≡ name = (eq_iff other name).0 same in
            let found : some first ≡ some value = sym (rw same refl) ∙ h in
            let first_value : first ≡ value = cc in
            index_overrides-absent overrides (override (get_key other mapping) first table)
              (subst (λ n. mem n (map (λ p. p.0) overrides) ≡ false) e distinct.0)
            ∙ override_here i first (get_key other mapping) table
                (ap (λ n. get_key n mapping) e ∙ mapped)
            ∙ ap some first_value
        | inr differ ↦
            index_overrides-named overrides (override (get_key other mapping) first table) value
              distinct.1 (sym (rw differ refl) ∙ h)
      ]

-- Where the override names are distinct, none of them is an unmapped name of a member of Object.prototype, and
-- no two names share a slot, the value that overrides a name stands in the new context at the slot of that
-- name.
pub build_expanded_context-override :
    (current : List String) (new_slots : List NewSlot) (overrides : List (String × String))
    (mapping : List (String × ℕ)) (name value : String) (i : ℕ)
    → Nodup (map (λ p. p.0) overrides)
    → any (λ p. finds_member (some mapping) p.0) overrides ≡ false
    → IsInjective mapping
    → get_key name overrides ≡ some value
    → get_key name mapping ≡ some i
    → get_elem? (build_expanded_context current new_slots overrides (some mapping)) i ≡ some value
build_expanded_context-override current new_slots overrides mapping name value i distinct plain
      injective given mapped =
    let r = build_expanded_context-numbers current new_slots overrides (some mapping) plain in
    r.overridden i value
      (index_overrides-named mapping injective name i mapped overrides [] value distinct given)
