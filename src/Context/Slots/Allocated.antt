-- ===== src/Context/Slots/Allocated.antt =====
-- What `allocateSlots` promises.
use strategy_builder_v.Prelude.{ℕ, String, some, List, [], true, ◌≡◌, ◌∙◌, sym, false}
use strategy_builder_v.Prelude.Names.{mem, get_key}
use strategy_builder_v.Context.Slots.{
  SlotMeta, Slots, Hint, slot_at, Allocation, allocate_all, opening, allocate_slots,
}
use text.Mathlib.Text.{◌==◌}
use strategy_builder_v.Context.Slots.Table.{Ascending, index_names-known}
use strategy_builder_v.Context.Slots.Rounds.{
  IsSlotOf, opening-IsAllocating, allocate_all-IsFinished,
}

-- The new table keeps every slot of the old one, and every name but `__proto__` is mapped to a slot of that name;
-- to one of the old table, where that has one.
pub record IsAllocated (names : List String) (old : Slots) (mapping : List (String × ℕ))
    (new : Slots) : Type 0 where
  pub ascending : Ascending new
  pub kept : (i : ℕ) (meta : SlotMeta) → slot_at i old ≡ some meta → slot_at i new ≡ some meta
  pub named :
      (name : String)
      → mem name names ≡ true
      → (name == "__proto__") ≡ false
      → (i : ℕ) × (get_key name mapping ≡ some i) × IsSlotOf new name i
  pub reused :
      (i : ℕ) (meta : SlotMeta)
      → slot_at i old ≡ some meta
      → mem meta.name names ≡ true
      → (meta.name == "__proto__") ≡ false
      → (j : ℕ) × (get_key meta.name mapping ≡ some j) × IsSlotOf old meta.name j

-- Allocating names in a table whose indices ascend gives a table whose indices ascend, with all old slots
-- at their places; every name but `__proto__`, under which an object keeps no number, is mapped to a slot
-- that has this name, and the name of an old slot to an old slot that has it.
pub allocate_slots-IsAllocated :
    (names : List String) (automation : String) (hints : List (String × Hint)) (slots : Slots)
    → Ascending slots
    → IsAllocated names slots
        (allocate_slots names automation hints slots).0
        (allocate_slots names automation hints slots).1
unfolding allocate_slots
allocate_slots-IsAllocated names automation hints slots h =
    let start = opening-IsAllocating slots h in
    let t : Allocation = allocate_all automation hints names (opening slots) in
    let done = allocate_all-IsFinished automation hints names (opening slots) start in
    record {
      ascending = done.allocating.ascending;
      kept = done.grown.slots;
      named = λ name m plain.
          let (j, at) = done.mapped name m plain in
          (j, at, done.allocating.sound name j (done.allocating.agrees name j at));
      reused = λ k meta here m plain.
          let name = meta.name in
          let (i, known) = index_names-known slots k meta [] here in
          let (j, at) = done.mapped name m plain in
          let same : some j ≡ some i =
            sym (done.allocating.agrees name j at) ∙ done.grown.by_name name i known in
          (i, at ∙ same, start.sound name i known);
    }
