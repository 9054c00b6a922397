-- ===== src/Store/Variables.antt =====
-- The context variables of editor-store.ts.
pub mod Merge
use strategy_builder_v.Prelude.{
  ℕ, zero, suc, ◌+◌, String, Option, none, some, List, [], ◌∷◌, ◌++◌, Bool, true, false, map, ltb,
  leb, if◌then◌else◌, ◌==◌,
}
use strategy_builder_v.Store.{ContextVariable, EditorState}

-- `bySlot.set(v.slotIndex, v)`: an old slot keeps its place.
abbrev pub set_slot : ContextVariable → List ContextVariable → List ContextVariable
set_slot v [] = v ∷ []
set_slot v (w ∷ rest) =
    let others = set_slot v rest in if w.slot_index == v.slot_index then v ∷ rest else w ∷ others

abbrev pub set_slots : List ContextVariable → List ContextVariable → List ContextVariable
set_slots [] by_slot = by_slot
set_slots (v ∷ vs) by_slot = set_slots vs (set_slot v by_slot)

-- `sort` by the index of the slot.
abbrev pub insert_slot : ContextVariable → List ContextVariable → List ContextVariable
insert_slot v [] = v ∷ []
insert_slot v (w ∷ rest) =
    let others = insert_slot v rest in
    if leb v.slot_index w.slot_index then v ∷ w ∷ rest else w ∷ others

abbrev pub sort_slots : List ContextVariable → List ContextVariable
sort_slots [] = []
sort_slots (v ∷ vs) = insert_slot v (sort_slots vs)

unfoldable pub merge_context_variables :
    List ContextVariable → List ContextVariable → List ContextVariable
merge_context_variables base overlay = sort_slots (set_slots overlay (set_slots base []))

-- `Math.max(...indices)`, from the first index on.
abbrev pub max_index : ℕ → List ContextVariable → ℕ
max_index m [] = m
max_index m (v ∷ vs) = max_index (if ltb m v.slot_index then v.slot_index else m) vs

next_slot : List ContextVariable → ℕ
next_slot [] = 0
next_slot (v ∷ vs) = max_index v.slot_index vs + 1

-- `Partial<ContextVariable>`
pub record VariableUpdates : Type 0 where
  pub slot_index : Option ℕ
  pub name : Option String
  pub type_name : Option String
  pub description : Option String
  pub created_by : Option String

or_old : {A : Type 0} → Option A → A → A
or_old none old = old
or_old (some new) old = new

or_old_option : Option String → Option String → Option String
or_old_option none old = old
or_old_option (some new) old = some new

updated : VariableUpdates → ContextVariable → ContextVariable
unfolding or_old or_old_option
updated u v = record {
  slot_index = or_old u.slot_index v.slot_index;
  name = or_old u.name v.name;
  type_name = or_old u.type_name v.type_name;
  description = or_old u.description v.description;
  created_by = or_old_option u.created_by v.created_by;
}

module _ {P : Type 0} where
  unfoldable pub merge_editor_context_variables :
      List ContextVariable → EditorState P → EditorState P
  unfolding merge_context_variables
  merge_editor_context_variables variables s = record s {
    context_variables = merge_context_variables s.context_variables variables;
  }

  unfoldable pub merge_vault_context_slots : List ContextVariable → EditorState P → EditorState P
  unfolding merge_context_variables
  merge_vault_context_slots slots s = record s {
    context_variables = merge_context_variables slots s.context_variables;
  }

  -- The index that the variable comes with is not read.
  unfoldable pub add_context_variable : ContextVariable → EditorState P → EditorState P
  unfolding next_slot
  add_context_variable variable s = record s {
    context_variables =
        s.context_variables
        ++ (record variable { slot_index = next_slot s.context_variables }) ∷ [];
    is_dirty = true;
  }

  unfoldable pub update_context_variable : ℕ → VariableUpdates → EditorState P → EditorState P
  unfolding updated
  update_context_variable slot_index updates s = record s {
    context_variables =
        map (λ v. if v.slot_index == slot_index then updated updates v else v) s.context_variables;
    is_dirty = true;
  }
