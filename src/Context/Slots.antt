-- ===== src/Context/Slots.antt =====
-- `allocateSlots` of packages/backend/src/automation/context.service.ts. The slots of the vault's row
-- in the database are an argument, and they come back as they are stored.
pub mod Table
pub mod Rounds
pub mod Allocated
use strategy_builder_v.Prelude.{
  ℕ, suc, ◌+◌, String, Option, none, some, List, [], ◌∷◌, Bool, ltb, leb, if◌then◌else◌, ◌&&◌,
}
use text.Mathlib.Text.{◌==◌}
use strategy_builder_v.Prelude.Names.{set_key, get_key}

pub record SlotMeta : Type 0 where
  pub name : String
  pub slot_type : String
  pub description : String
  pub created_by : String

-- `ContextSlotsJson`: an object whose keys are indices, which JavaScript lists in ascending order.
abbrev pub Slots : Type 0
Slots = List (ℕ × SlotMeta)

-- What the caller may say about a new slot.
pub record Hint : Type 0 where
  pub slot_type : Option String
  pub description : Option String

-- `slots[String(i)]`, and its assignment.
abbrev pub slot_at : ℕ → Slots → Option SlotMeta
slot_at i [] = none
slot_at i ((j, m) ∷ slots) = if leb j i && leb i j then some m else slot_at i slots

abbrev pub put_slot : ℕ → SlotMeta → Slots → Slots
put_slot i meta [] = (i, meta) ∷ []
put_slot i meta ((j, m) ∷ slots) =
    let rest = put_slot i meta slots in
    if ltb i j
    then (i, meta) ∷ (j, m) ∷ slots
    else if ltb j i
    then (j, m) ∷ rest
    else (i, meta) ∷ slots

-- `existingByName`
abbrev pub index_names : Slots → List (String × ℕ) → List (String × ℕ)
index_names [] by_name = by_name
index_names ((i, meta) ∷ slots) by_name = index_names slots (set_key meta.name i by_name)

-- The greatest index and one, or zero.
abbrev pub next_free : Slots → ℕ
next_free [] = 0
next_free ((i, meta) ∷ slots) = let rest = next_free slots in if ltb i rest then rest else i + 1

pub record Allocation : Type 0 where
  pub slots : Slots
  pub by_name : List (String × ℕ)
  pub next_index : ℕ
  pub mapping : List (String × ℕ)

-- `mapping[name] = index`: an object takes no number for its prototype.
unfoldable pub assign : String → ℕ → List (String × ℕ) → List (String × ℕ)
assign name index mapping = if name == "__proto__" then mapping else set_key name index mapping

or_else : Option String → String → String
or_else none fallback = fallback
or_else (some value) fallback = value

pub new_meta : String → String → Option Hint → SlotMeta
new_meta automation name none = record {
  name = name;
  slot_type = "uint256";
  description = "";
  created_by = automation;
}
new_meta automation name (some hint) = record {
  name = name;
  slot_type = or_else hint.slot_type "uint256";
  description = or_else hint.description "";
  created_by = automation;
}

-- One round of the loop, with what `existingByName` has for the name.
allocate_found : String → List (String × Hint) → String → Option ℕ → Allocation → Allocation
unfolding new_meta or_else assign
allocate_found automation hints name (some i) s = record s { mapping = assign name i s.mapping }
allocate_found automation hints name none s = record {
  slots = put_slot s.next_index (new_meta automation name (get_key name hints)) s.slots;
  by_name = set_key name s.next_index s.by_name;
  next_index = s.next_index + 1;
  mapping = assign name s.next_index s.mapping;
}

pub allocate_all : String → List (String × Hint) → List String → Allocation → Allocation
unfolding allocate_found
allocate_all automation hints [] s = s
allocate_all automation hints (name ∷ names) s =
    allocate_all automation hints names
      (allocate_found automation hints name (get_key name s.by_name) s)

abbrev pub opening : Slots → Allocation
opening slots = record {
  slots = slots;
  by_name = index_names slots [];
  next_index = next_free slots;
  mapping = [];
}

unfoldable pub allocate_slots :
    List String → String → List (String × Hint) → Slots → List (String × ℕ) × Slots
unfolding allocate_all
allocate_slots slot_names automation hints slots =
    let s = allocate_all automation hints slot_names (opening slots) in (s.mapping, s.slots)
