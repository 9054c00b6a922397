-- ===== src/Store/Variables/Merge.antt =====
-- Merging context variables: the result has every slot once, in order, with the value of the overlay first.
use strategy_builder_v.Prelude.{
  ℕ, ◌<◌, Option, none, some, List, [], ◌∷◌, false, leb, if◌then◌else◌, ◌==◌, ◌≡◌, refl, ap, ◌∙◌,
  sym, arith, All, All-map, Bool-cases, inl, inr,
}
use strategy_builder_v.Store.{ContextVariable, EditorState}
use strategy_builder_v.Store.Variables.{
  set_slot, set_slots, insert_slot, sort_slots, merge_context_variables,
  merge_editor_context_variables, merge_vault_context_slots,
}

abbrev or_else : {A : Type 0} → Option A → Option A → Option A
or_else none o = o
or_else (some x) o = some x

-- The variable of a slot.
abbrev pub slot : ℕ → List ContextVariable → Option ContextVariable
slot i [] = none
slot i (v ∷ vs) = if v.slot_index == i then some v else slot i vs

-- The last variable of a slot.
abbrev pub last_slot : ℕ → List ContextVariable → Option ContextVariable → Option ContextVariable
last_slot i [] o = o
last_slot i (v ∷ vs) o = last_slot i vs (if v.slot_index == i then some v else o)

-- Slots in ascending order, each once.
abbrev pub Above : ℕ → List ContextVariable → Type 0
Above i vs = All (λ v. i < v.slot_index) vs

abbrev pub IsSorted : List ContextVariable → Type 0
IsSorted [] = Unit
IsSorted (v ∷ vs) = Above v.slot_index vs × IsSorted vs

-- No slot twice.
abbrev HasOnce : List ContextVariable → Type 0
HasOnce [] = Unit
HasOnce (v ∷ vs) = (slot v.slot_index vs ≡ none) × HasOnce vs

slot-set_slot :
    (i : ℕ) (v : ContextVariable) (vs : List ContextVariable)
    → slot i (set_slot v vs) ≡ (if v.slot_index == i then some v else slot i vs)
slot-set_slot i v [] = refl
slot-set_slot i v (w ∷ vs) = ground (arith, slot-set_slot i v vs)

HasOnce-set_slot :
    (v : ContextVariable) (vs : List ContextVariable) → HasOnce vs → HasOnce (set_slot v vs)
HasOnce-set_slot v [] h = (refl, tt)
HasOnce-set_slot v (w ∷ vs) h = elim (Bool-cases (w.slot_index == v.slot_index)) [
  | inl same ↦
      let eq : w.slot_index ≡ v.slot_index = ground (arith, same) in
      rw same (ap (λ i. slot i vs) (sym eq) ∙ h.0, h.1)
  | inr differ ↦
      let differ' : (v.slot_index == w.slot_index) ≡ false = ground (arith, differ) in
      rw differ (rw (slot-set_slot w.slot_index v vs, differ') h.0, HasOnce-set_slot v vs h.1)
]

slot-set_slots :
    (i : ℕ) (vs by_slot : List ContextVariable)
    → slot i (set_slots vs by_slot) ≡ last_slot i vs (slot i by_slot)
slot-set_slots i [] by_slot = refl
slot-set_slots i (v ∷ vs) by_slot =
    slot-set_slots i vs (set_slot v by_slot) ∙ ap (last_slot i vs) (slot-set_slot i v by_slot)

HasOnce-set_slots :
    (vs by_slot : List ContextVariable) → HasOnce by_slot → HasOnce (set_slots vs by_slot)
HasOnce-set_slots [] by_slot h = h
HasOnce-set_slots (v ∷ vs) by_slot h =
    HasOnce-set_slots vs (set_slot v by_slot) (HasOnce-set_slot v by_slot h)

Above-insert :
    (i : ℕ) (v : ContextVariable) (vs : List ContextVariable)
    → i < v.slot_index
    → Above i vs
    → Above i (insert_slot v vs)
Above-insert i v [] h k = (h, tt)
Above-insert i v (w ∷ vs) h k = elim (Bool-cases (leb v.slot_index w.slot_index)) [
  | inl low ↦ rw low (h, k)
  | inr high ↦ rw high (k.0, Above-insert i v vs h k.1)
]

slot-insert :
    (i : ℕ) (v : ContextVariable) (vs : List ContextVariable)
    → slot v.slot_index vs ≡ none
    → slot i (insert_slot v vs) ≡ (if v.slot_index == i then some v else slot i vs)
slot-insert i v [] h = refl
slot-insert i v (w ∷ vs) h = ground (arith, slot-insert i v vs, h)

IsSorted-insert :
    (v : ContextVariable) (vs : List ContextVariable)
    → slot v.slot_index vs ≡ none
    → IsSorted vs
    → IsSorted (insert_slot v vs)
IsSorted-insert v [] h k = (tt, tt)
IsSorted-insert v (w ∷ vs) h k =
    let differ : (w.slot_index == v.slot_index) ≡ false = ground (arith, h) in
    elim (Bool-cases (leb v.slot_index w.slot_index)) [
      | inl low ↦
          let lt : v.slot_index < w.slot_index = ground (arith, low, differ) in
          rw low ((lt, All-map _ _ (λ x m. omega (arith, lt, m)) vs k.0), k)
      | inr high ↦ rw high (
        Above-insert w.slot_index v vs (ground (arith, high)) k.0,
        IsSorted-insert v vs (ground (arith, h, differ)) k.1,
      )
    ]

slot-sort : (i : ℕ) (vs : List ContextVariable) → HasOnce vs → slot i (sort_slots vs) ≡ slot i vs
slot-sort i [] h = refl
slot-sort i (v ∷ vs) h =
    slot-insert i v (sort_slots vs) (slot-sort v.slot_index vs h.1 ∙ h.0)
    ∙ ap (λ o. if v.slot_index == i then some v else o) (slot-sort i vs h.1)

IsSorted-sort : (vs : List ContextVariable) → HasOnce vs → IsSorted (sort_slots vs)
IsSorted-sort [] h = tt
IsSorted-sort (v ∷ vs) h =
    IsSorted-insert v (sort_slots vs) (slot-sort v.slot_index vs h.1 ∙ h.0) (IsSorted-sort vs h.1)

slot-Above : (i : ℕ) (vs : List ContextVariable) → Above i vs → slot i vs ≡ none
slot-Above i [] h = refl
slot-Above i (v ∷ vs) h = ground (arith, slot-Above i vs h.1, h.0)

HasOnce-of_IsSorted : (vs : List ContextVariable) → IsSorted vs → HasOnce vs
HasOnce-of_IsSorted [] h = tt
HasOnce-of_IsSorted (v ∷ vs) h = (slot-Above v.slot_index vs h.0, HasOnce-of_IsSorted vs h.1)

-- The smallest slots of two sorted lists with the same slots are the same.
no_smaller :
    (x y : ContextVariable) (xs ys : List ContextVariable)
    → Above y.slot_index ys
    → slot x.slot_index (y ∷ ys) ≡ some x
    → ¬ (x.slot_index < y.slot_index)
no_smaller x y xs ys h k lt =
    let gone : slot x.slot_index (y ∷ ys) ≡ none =
      slot-Above x.slot_index (y ∷ ys) (lt, All-map _ _ (λ z m. omega (arith, lt, m)) ys h) in
    cc (gone, k)

slot-head : (v : ContextVariable) (vs : List ContextVariable) → slot v.slot_index (v ∷ vs) ≡ some v
slot-head v vs = ground arith

-- What is left of two such lists.
tail_same :
    (x y : ContextVariable) (xs ys : List ContextVariable) (i : ℕ)
    → x.slot_index ≡ y.slot_index
    → Above x.slot_index xs
    → Above y.slot_index ys
    → slot i (x ∷ xs) ≡ slot i (y ∷ ys)
    → slot i xs ≡ slot i ys
tail_same x y xs ys i index h k same = elim (Bool-cases (x.slot_index == i)) [
  | inl here ↦
      let at_x : x.slot_index ≡ i = ground (arith, here) in
      let at_y : y.slot_index ≡ i = sym index ∙ at_x in
      ap (λ j. slot j xs) (sym at_x)
      ∙ slot-Above x.slot_index xs h
      ∙ sym (slot-Above y.slot_index ys k)
      ∙ ap (λ j. slot j ys) at_y
  | inr differ ↦
      let differ' : (y.slot_index == i) ≡ false = ground (arith, differ, index) in
      rw (differ, differ') at same
]

or_else_assoc : {A : Type 0} (a b c : Option A) → or_else (or_else a b) c ≡ or_else a (or_else b c)
or_else_assoc none b c = refl
or_else_assoc (some x) b c = refl

some_first :
    (a : Option ContextVariable) (v : ContextVariable) (o : Option ContextVariable)
    → or_else a (some v) ≡ or_else (or_else a (some v)) o
some_first none v o = refl
some_first (some x) v o = refl

-- Sorted lists with the same variable in every slot are the same.
IsSorted-same :
    (xs ys : List ContextVariable)
    → IsSorted xs
    → IsSorted ys
    → ((i : ℕ) → slot i xs ≡ slot i ys)
    → xs ≡ ys
IsSorted-same [] [] h k same = refl
IsSorted-same [] (y ∷ ys) h k same = absurd (cc (same y.slot_index, slot-head y ys))
IsSorted-same (x ∷ xs) [] h k same = absurd (cc (same x.slot_index, slot-head x xs))
IsSorted-same (x ∷ xs) (y ∷ ys) h k same =
    let x_there : slot x.slot_index (y ∷ ys) ≡ some x = sym (same x.slot_index) ∙ slot-head x xs in
    let y_there : slot y.slot_index (x ∷ xs) ≡ some y = same y.slot_index ∙ slot-head y ys in
    let index : x.slot_index ≡ y.slot_index =
      omega (arith, no_smaller x y xs ys k.0 x_there, no_smaller y x ys xs h.0 y_there) in
    let found : slot x.slot_index (y ∷ ys) ≡ some y =
      ap (λ i. slot i (y ∷ ys)) index ∙ slot-head y ys in
    let head : x ≡ y = cc (x_there, found) in
    let tails : (i : ℕ) → slot i xs ≡ slot i ys =
      λ i. tail_same x y xs ys i index h.0 k.0 (same i) in
    ap (λ z. z ∷ xs) head ∙ ap (λ l. y ∷ l) (IsSorted-same xs ys h.1 k.1 tails)

-- What a slot has after the merge: what the overlay last says, or else what the base last says.
last_slot-or :
    (i : ℕ) (vs : List ContextVariable) (o : Option ContextVariable)
    → last_slot i vs o ≡ or_else (last_slot i vs none) o
last_slot-or i [] o = refl
last_slot-or i (v ∷ vs) o = elim (Bool-cases (v.slot_index == i)) [
  | inl same ↦ rw same (
      last_slot-or i vs (some v)
      ∙ some_first (last_slot i vs none) v o
      ∙ ap (λ p. or_else p o) (sym (last_slot-or i vs (some v))))
  | inr differ ↦ rw differ (last_slot-or i vs o)
]

last_slot-once : (i : ℕ) (vs : List ContextVariable) → HasOnce vs → last_slot i vs none ≡ slot i vs
last_slot-once i [] h = refl
last_slot-once i (v ∷ vs) h = elim (Bool-cases (v.slot_index == i)) [
  | inl same ↦
      let eq : v.slot_index ≡ i = ground (arith, same) in
      let later : last_slot i vs none ≡ none =
        last_slot-once i vs h.1 ∙ ap (λ j. slot j vs) (sym eq) ∙ h.0 in
      rw same (last_slot-or i vs (some v) ∙ ap (λ p. or_else p (some v)) later)
  | inr differ ↦ rw differ (last_slot-once i vs h.1)
]

merged_once :
    (base overlay : List ContextVariable) → HasOnce (set_slots overlay (set_slots base []))
merged_once base overlay =
    HasOnce-set_slots overlay (set_slots base []) (HasOnce-set_slots base [] tt)

pub merge_context_variables-IsSorted :
    (base overlay : List ContextVariable) → IsSorted (merge_context_variables base overlay)
unfolding merge_context_variables
merge_context_variables-IsSorted base overlay =
    IsSorted-sort (set_slots overlay (set_slots base [])) (merged_once base overlay)

pub slot-merge_context_variables :
    (i : ℕ) (base overlay : List ContextVariable)
    → slot i (merge_context_variables base overlay)
      ≡ or_else (last_slot i overlay none) (last_slot i base none)
unfolding merge_context_variables
slot-merge_context_variables i base overlay =
    slot-sort i (set_slots overlay (set_slots base [])) (merged_once base overlay)
    ∙ slot-set_slots i overlay (set_slots base [])
    ∙ ap (last_slot i overlay) (slot-set_slots i base [])
    ∙ last_slot-or i overlay (last_slot i base none)

last_slot-merge :
    (i : ℕ) (base overlay : List ContextVariable)
    → last_slot i (merge_context_variables base overlay) none
      ≡ or_else (last_slot i overlay none) (last_slot i base none)
last_slot-merge i base overlay =
    last_slot-once i (merge_context_variables base overlay) (
      HasOnce-of_IsSorted (merge_context_variables base overlay)
        (merge_context_variables-IsSorted base overlay))
    ∙ slot-merge_context_variables i base overlay

-- The slots of the vault and the draft variables of the editor may arrive in either order: the store ends up in
-- the same state.
pub merge_commutes :
    {P : Type 0} (slots variables : List ContextVariable) (s : EditorState P)
    → merge_vault_context_slots slots (merge_editor_context_variables variables s)
      ≡ merge_editor_context_variables variables (merge_vault_context_slots slots s)
unfolding merge_vault_context_slots merge_editor_context_variables
merge_commutes slots variables s =
    ap (λ (vs : List ContextVariable). record s { context_variables = vs })
      (IsSorted-same _ _
        (merge_context_variables-IsSorted slots
          (merge_context_variables s.context_variables variables))
        (merge_context_variables-IsSorted (merge_context_variables slots s.context_variables)
          variables)
        (λ i.
          slot-merge_context_variables i slots
            (merge_context_variables s.context_variables variables)
          ∙ ap (λ o. or_else o (last_slot i slots none))
              (last_slot-merge i s.context_variables variables)
          ∙ or_else_assoc (last_slot i variables none) (last_slot i s.context_variables none)
              (last_slot i slots none)
          ∙ ap (or_else (last_slot i variables none))
              (sym (last_slot-merge i slots s.context_variables))
          ∙ sym (
              slot-merge_context_variables i (merge_context_variables slots s.context_variables)
                variables)))
