-- ===== src/Context/Slots/Rounds.antt =====
-- What a round of `allocateSlots` keeps, and what the loop reaches.
use strategy_builder_v.Prelude.{
  ℕ, String, Option, none, some, List, [], ◌∷◌, ◌++◌, true, ◌≡◌, refl, arith, All, All-map,
  All-append, Bool-cases, inl, inr, ◌∙◌, sym, subst, false,
}
use strategy_builder_v.Prelude.Names.{mem, get_key, set_key, get_key-set_key}
use strategy_builder_v.Context.Slots.{
  SlotMeta, Slots, Hint, slot_at, index_names, Allocation, new_meta, allocate_found, allocate_all,
  opening,
}
use strategy_builder_v.Context.Slots.Table.{
  Ascending, AllBelow, put_slot-AllBelow, Ascending-last, slot_at-kept, slot_at-last,
  next_free-AllBelow, Ascending-slot_at, new_meta-name, assign-some, assign_self, assign-cases,
  set_key-kept,
}
use text.Mathlib.Text.{◌==◌}
use text.Mathlib.TextEquality.{eq_iff}

-- The table gives the name this index, and the slot at the index has the name.
abbrev pub IsSlotOf : Slots → String → ℕ → Type 0
IsSlotOf slots name i = (meta : SlotMeta) × (slot_at i slots ≡ some meta) × (meta.name ≡ name)

abbrev pub IsSound : Slots → List (String × ℕ) → Type 0
IsSound slots table = (name : String) (i : ℕ) → get_key name table ≡ some i → IsSlotOf slots name i

IsSound-set_key :
    (slots : Slots) (table : List (String × ℕ)) (name : String) (i : ℕ)
    → IsSlotOf slots name i
    → IsSound slots table
    → IsSound slots (set_key name i table)
IsSound-set_key slots table name i here sound other k h = elim (Bool-cases (name == other)) [
  | inl same ↦
      let found : some i ≡ some k = sym (rw (get_key-set_key name other i table, same) refl) ∙ h in
      let i_k : i ≡ k = cc in
      subst (λ x. IsSlotOf slots x k) ((eq_iff name other).0 same)
        (subst (λ x. IsSlotOf slots name x) i_k here)
  | inr differ ↦ sound other k (sym (rw (get_key-set_key name other i table, differ) refl) ∙ h)
]

-- All entries of `rest` are slots of the table: their names may be indexed.
index_names-IsSound :
    (slots rest : Slots) (table : List (String × ℕ))
    → All (λ p. slot_at p.0 slots ≡ some p.1) rest
    → IsSound slots table
    → IsSound slots (index_names rest table)
index_names-IsSound slots [] table h sound = sound
index_names-IsSound slots ((i, meta) ∷ rest) table h sound =
    index_names-IsSound slots rest (set_key meta.name i table) h.1
      (IsSound-set_key slots table meta.name i (meta, h.0, refl) sound)

-- The state between two rounds.
pub record IsAllocating (s : Allocation) : Type 0 where
  pub ascending : Ascending s.slots
  pub below : AllBelow s.next_index s.slots
  pub sound : IsSound s.slots s.by_name
  pub agrees :
      (name : String) (i : ℕ) → get_key name s.mapping ≡ some i → get_key name s.by_name ≡ some i

-- What a round keeps.
pub record IsGrown (s t : Allocation) : Type 0 where
  pub slots :
      (i : ℕ) (meta : SlotMeta) → slot_at i s.slots ≡ some meta → slot_at i t.slots ≡ some meta
  pub by_name :
      (name : String) (i : ℕ) → get_key name s.by_name ≡ some i → get_key name t.by_name ≡ some i
  pub mapping :
      (name : String) (i : ℕ)
      → get_key name s.mapping ≡ some i
      → (j : ℕ) × (get_key name t.mapping ≡ some j)

pub opening-IsAllocating : (slots : Slots) → Ascending slots → IsAllocating (opening slots)
opening-IsAllocating slots h = record {
  ascending = h;
  below = next_free-AllBelow slots;
  sound =
      index_names-IsSound slots slots [] (Ascending-slot_at slots h)
        (λ name i none_there. absurd (cc));
  agrees = λ name i none_there. absurd (cc);
}

-- A table with a new slot at its end.
IsSlotOf-last :
    (slots : Slots) (n : ℕ) (fresh : SlotMeta) (name : String) (i : ℕ)
    → IsSlotOf slots name i
    → IsSlotOf (slots ++ (n, fresh) ∷ []) name i
IsSlotOf-last slots n fresh name i (meta, at, named) =
    (meta, slot_at-kept n i fresh meta slots at, named)

found-IsAllocating :
    (automation : String) (hints : List (String × Hint)) (name : String) (i : ℕ) (s : Allocation)
    → get_key name s.by_name ≡ some i
    → IsAllocating s
    → IsAllocating (allocate_found automation hints name (some i) s)
unfolding allocate_found
found-IsAllocating automation hints name i s found r = record {
  ascending = r.ascending;
  below = r.below;
  sound = r.sound;
  agrees = λ other k h. elim (assign-cases name other i k s.mapping h) [
    | inl now ↦
        ground
          (arith, get_key-set_key name other i s.mapping, eq_iff name other, r.agrees other k, now)
    | inr before ↦ r.agrees other k before
  ];
}

fresh-IsAllocating :
    (automation : String) (hints : List (String × Hint)) (name : String) (s : Allocation)
    → get_key name s.by_name ≡ none
    → IsAllocating s
    → IsAllocating (allocate_found automation hints name none s)
unfolding allocate_found
fresh-IsAllocating automation hints name s fresh r =
    let fresh_meta = new_meta automation name (get_key name hints) in
    let grown = put_slot-AllBelow s.next_index fresh_meta s.slots r.below in
    record {
      ascending = rw grown (Ascending-last s.next_index fresh_meta s.slots r.below r.ascending);
      below = rw grown (
          All-append _ s.slots ((s.next_index, fresh_meta) ∷ [])
            (All-map _ _ (λ p h. omega (arith, h)) s.slots r.below) (omega arith, tt));
      sound = rw grown (
          IsSound-set_key (s.slots ++ (s.next_index, fresh_meta) ∷ []) s.by_name name s.next_index
            (
              fresh_meta,
              slot_at-last s.next_index fresh_meta s.slots r.below,
              new_meta-name automation name (get_key name hints),
            )
            (λ other k h.
              IsSlotOf-last s.slots s.next_index fresh_meta other k (r.sound other k h)));
      agrees = λ other k h. elim (assign-cases name other s.next_index k s.mapping h) [
        | inl now ↦ ground (
          arith,
          get_key-set_key name other s.next_index s.mapping,
          get_key-set_key name other s.next_index s.by_name,
          r.agrees other k,
          now,
        )
        | inr before ↦
            set_key-kept name other s.next_index k s.by_name fresh (r.agrees other k before)
      ];
    }

allocate_found-IsGrown :
    (automation : String) (hints : List (String × Hint)) (name : String) (found : Option ℕ)
    (s : Allocation)
    → get_key name s.by_name ≡ found
    → IsAllocating s
    → IsGrown s (allocate_found automation hints name found s)
unfolding allocate_found
allocate_found-IsGrown automation hints name (some i) s h r = record {
  slots = λ k meta e. e;
  by_name = λ other k e. e;
  mapping = λ other k e. assign-some name other i k s.mapping e;
}
allocate_found-IsGrown automation hints name none s h r =
    let fresh_meta = new_meta automation name (get_key name hints) in
    record {
      slots = λ k meta e.
          rw (put_slot-AllBelow s.next_index fresh_meta s.slots r.below)
            (slot_at-kept s.next_index k fresh_meta meta s.slots e);
      by_name = λ other k e. set_key-kept name other s.next_index k s.by_name h e;
      mapping = λ other k e. assign-some name other s.next_index k s.mapping e;
    }

allocate_found-IsAllocating :
    (automation : String) (hints : List (String × Hint)) (name : String) (found : Option ℕ)
    (s : Allocation)
    → get_key name s.by_name ≡ found
    → IsAllocating s
    → IsAllocating (allocate_found automation hints name found s)
allocate_found-IsAllocating automation hints name (some i) s h r =
    found-IsAllocating automation hints name i s h r
allocate_found-IsAllocating automation hints name none s h r =
    fresh-IsAllocating automation hints name s h r

allocate_found-mapping :
    (automation : String) (hints : List (String × Hint)) (name : String) (found : Option ℕ)
    (s : Allocation)
    → (name == "__proto__") ≡ false
    → (j : ℕ) × (get_key name (allocate_found automation hints name found s).mapping ≡ some j)
unfolding allocate_found
allocate_found-mapping automation hints name (some i) s h = (i, assign_self name i s.mapping h)
allocate_found-mapping automation hints name none s h =
    (s.next_index, assign_self name s.next_index s.mapping h)

IsGrown-trans : (s t u : Allocation) → IsGrown s t → IsGrown t u → IsGrown s u
IsGrown-trans s t u p q = record {
  slots = λ i meta h. q.slots i meta (p.slots i meta h);
  by_name = λ name i h. q.by_name name i (p.by_name name i h);
  mapping = λ name i h. let (j, h') = p.mapping name i h in q.mapping name j h';
}

-- What the loop reaches from a state.
pub record IsFinished (names : List String) (s t : Allocation) : Type 0 where
  pub allocating : IsAllocating t
  pub grown : IsGrown s t
  pub mapped :
      (name : String)
      → mem name names ≡ true
      → (name == "__proto__") ≡ false
      → (j : ℕ) × (get_key name t.mapping ≡ some j)

pub allocate_all-IsFinished :
    (automation : String) (hints : List (String × Hint)) (names : List String) (s : Allocation)
    → IsAllocating s
    → IsFinished names s (allocate_all automation hints names s)
unfolding allocate_all
allocate_all-IsFinished automation hints [] s r = record {
  allocating = r;
  grown = record { slots = λ i m h. h; by_name = λ n i h. h; mapping = λ n i h. (i, h) };
  mapped = λ name h plain. absurd (cc);
}
allocate_all-IsFinished automation hints (name ∷ names) s r =
    let found = get_key name s.by_name in
    let t : Allocation = allocate_found automation hints name found s in
    let done =
      allocate_all-IsFinished automation hints names t
        (allocate_found-IsAllocating automation hints name found s refl r) in
    record {
      allocating = done.allocating;
      grown =
          IsGrown-trans s t (allocate_all automation hints names t)
            (allocate_found-IsGrown automation hints name found s refl r) done.grown;
      mapped = λ other h plain. elim (Bool-cases (name == other)) [
        | inl same ↦
            let e = (eq_iff name other).0 same in
            let (j, at) =
              allocate_found-mapping automation hints name found s
                (subst (λ x. (x == "__proto__") ≡ false) (sym e) plain) in
            subst
              (λ x. (k : ℕ) × (get_key x (allocate_all automation hints names t).mapping ≡ some k))
              e (done.grown.mapping name j at)
        | inr differ ↦ done.mapped other (rw differ at h) plain
      ];
    }
