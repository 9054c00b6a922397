-- ===== src/Context/Slots/Table.antt =====
-- Reads and writes of the tables of context.service.ts.
use strategy_builder_v.Prelude.{
  ℕ, ◌<◌, String, Option, none, some, List, [], ◌∷◌, ◌++◌, true, false, ltb, leb, ◌&&◌, ◌≡◌, refl,
  arith, All, All-map, All-append, All-both, Bool-cases, inl, sym, inr, ◌∙◌, ap, subst, ◌⊎◌,
}
use strategy_builder_v.Prelude.Names.{get_key, set_key, get_key-set_key}
use strategy_builder_v.Context.Slots.{
  SlotMeta, Slots, slot_at, put_slot, assign, next_free, index_names, Hint, new_meta,
}
use text.Mathlib.Text.{◌==◌}
use text.Mathlib.TextEquality.{eq_iff}
use text.Mathlib.TextPositions.{eq_refl}

-- The order in which JavaScript lists the indices of an object.
abbrev pub Ascending : Slots → Type 0
Ascending [] = Unit
Ascending ((i, m) ∷ slots) = All (λ p. i < p.0) slots × Ascending slots

abbrev pub AllBelow : ℕ → Slots → Type 0
AllBelow n slots = All (λ p. p.0 < n) slots

pub put_slot-AllBelow :
    (i : ℕ) (meta : SlotMeta) (slots : Slots)
    → AllBelow i slots
    → put_slot i meta slots ≡ slots ++ (i, meta) ∷ []
put_slot-AllBelow i meta [] h = refl
put_slot-AllBelow i meta ((j, m) ∷ slots) h =
    let later : ltb i j ≡ false = ground (arith, h.0) in
    let earlier : ltb j i ≡ true = ground (arith, h.0) in
    rw (later, earlier, put_slot-AllBelow i meta slots h.1) refl

pub Ascending-last :
    (i : ℕ) (meta : SlotMeta) (slots : Slots)
    → AllBelow i slots
    → Ascending slots
    → Ascending (slots ++ (i, meta) ∷ [])
Ascending-last i meta [] h k = (tt, tt)
Ascending-last i meta ((j, m) ∷ slots) h k =
    (All-append _ slots ((i, meta) ∷ []) k.0 (h.0, tt), Ascending-last i meta slots h.1 k.1)

pub slot_at-kept :
    (i k : ℕ) (meta : SlotMeta) (m : SlotMeta) (slots : Slots)
    → slot_at k slots ≡ some m
    → slot_at k (slots ++ (i, meta) ∷ []) ≡ some m
slot_at-kept i k meta m [] h = absurd (cc)
slot_at-kept i k meta m ((j, x) ∷ slots) h = ground (arith, slot_at-kept i k meta m slots)

pub slot_at-last :
    (i : ℕ) (meta : SlotMeta) (slots : Slots)
    → AllBelow i slots
    → slot_at i (slots ++ (i, meta) ∷ []) ≡ some meta
slot_at-last i meta [] h = ground arith
slot_at-last i meta ((j, x) ∷ slots) h = ground (arith, slot_at-last i meta slots h.1, h.0)

pub next_free-AllBelow : (slots : Slots) → AllBelow (next_free slots) slots
next_free-AllBelow [] = tt
next_free-AllBelow ((i, m) ∷ slots) =
    (ground arith, All-map _ _ (λ p h. ground (arith, h)) slots (next_free-AllBelow slots))

-- In an ascending table each entry is found at its index.
pub Ascending-slot_at :
    (slots : Slots) → Ascending slots → All (λ p. slot_at p.0 slots ≡ some p.1) slots
Ascending-slot_at [] h = tt
Ascending-slot_at ((i, m) ∷ slots) h = (
  ground arith,
  All-map _ _ (λ p b. let less = b.0 in let found = b.1 in ground (arith, less, found)) slots
      (All-both _ _ slots h.0 (Ascending-slot_at slots h.1)),
)

pub new_meta-name :
    (automation name : String) (hint : Option Hint) → (new_meta automation name hint).name ≡ name
unfolding new_meta
new_meta-name automation name none = refl
new_meta-name automation name (some hint) = refl

pub set_key_self :
    (name : String) (i : ℕ) (table : List (String × ℕ))
    → get_key name (set_key name i table) ≡ some i
set_key_self name i table = rw (get_key-set_key name name i table, eq_refl name) refl

pub assign_self :
    (name : String) (i : ℕ) (table : List (String × ℕ))
    → (name == "__proto__") ≡ false
    → get_key name (assign name i table) ≡ some i
unfolding assign
assign_self name i table h = rw h (set_key_self name i table)

-- What is assigned under a name, or what was there.
pub assign-cases :
    (name other : String) (i k : ℕ) (table : List (String × ℕ))
    → get_key other (assign name i table) ≡ some k
    → (get_key other (set_key name i table) ≡ some k) ⊎ (get_key other table ≡ some k)
unfolding assign
assign-cases name other i k table h = elim (Bool-cases (name == "__proto__")) [
  | inl proto ↦ inr (sym (rw proto refl) ∙ h)
  | inr plain ↦ inl (sym (rw plain refl) ∙ h)
]

pub set_key-some :
    (name other : String) (i k : ℕ) (table : List (String × ℕ))
    → get_key other table ≡ some k
    → (j : ℕ) × (get_key other (set_key name i table) ≡ some j)
set_key-some name other i k table h = elim (Bool-cases (name == other)) [
  | inl same ↦ (i, rw (get_key-set_key name other i table, same) refl)
  | inr differ ↦ (k, rw (get_key-set_key name other i table, differ) h)
]

pub assign-some :
    (name other : String) (i k : ℕ) (table : List (String × ℕ))
    → get_key other table ≡ some k
    → (j : ℕ) × (get_key other (assign name i table) ≡ some j)
unfolding assign
assign-some name other i k table h = elim (Bool-cases (name == "__proto__")) [
  | inl proto ↦ rw proto (k, h)
  | inr plain ↦ rw plain (set_key-some name other i k table h)
]

pub set_key-kept :
    (name other : String) (i k : ℕ) (table : List (String × ℕ))
    → get_key name table ≡ none
    → get_key other table ≡ some k
    → get_key other (set_key name i table) ≡ some k
set_key-kept name other i k table fresh h = elim (Bool-cases (name == other)) [
  | inl same ↦ absurd (
      let e : none ≡ some k =
        sym fresh ∙ ap (λ x. get_key x table) ((eq_iff name other).0 same) ∙ h in
      cc)
  | inr differ ↦ rw (get_key-set_key name other i table, differ) h
]

index_names-kept :
    (rest : Slots) (name : String) (k : ℕ) (table : List (String × ℕ))
    → get_key name table ≡ some k
    → (j : ℕ) × (get_key name (index_names rest table) ≡ some j)
index_names-kept [] name k table h = (k, h)
index_names-kept ((i, meta) ∷ rest) name k table h =
    let (j, h') = set_key-some meta.name name i k table h in
    index_names-kept rest name j (set_key meta.name i table) h'

-- The name of every slot is indexed.
pub index_names-known :
    (slots : Slots) (k : ℕ) (meta : SlotMeta) (table : List (String × ℕ))
    → slot_at k slots ≡ some meta
    → (j : ℕ) × (get_key meta.name (index_names slots table) ≡ some j)
index_names-known [] k meta table h = absurd (cc)
index_names-known ((i, m) ∷ slots) k meta table h = elim (Bool-cases (leb i k && leb k i)) [
  | inl here ↦
      let found : some m ≡ some meta = sym (rw here refl) ∙ h in
      let same : m.name ≡ meta.name = ap (λ x. x.name) (let e : m ≡ meta = cc in e) in
      let (j, h') =
        index_names-kept slots m.name i (set_key m.name i table) (set_key_self m.name i table) in
      (j, subst (λ n. get_key n (index_names slots (set_key m.name i table)) ≡ some j) same h')
  | inr elsewhere ↦
      index_names-known slots k meta (set_key m.name i table) (sym (rw elsewhere refl) ∙ h)
]
