-- ===== src/Context/Tests.antt =====
-- Runs of context.service.ts.
use strategy_builder_v.Prelude.{
  ℕ, String, some, List, [], ◌∷◌, any, false, ◌⊎◌, ◌≡◌, refl, arith, Bool, true, get_elem?, sym,
  ◌∙◌,
}
use text.Mathlib.Text.{◌==◌}
use text.Mathlib.TextEquality.{eq_iff}
use strategy_builder_v.Context.Expand.{build_expanded_context, index_overrides, finds_member}
use strategy_builder_v.Context.Expand.Kept.{IsExpanded, build_expanded_context-IsExpanded}
use strategy_builder_v.Context.Expand.Named.{IsInjective, build_expanded_context-override}
use strategy_builder_v.Context.Slots.{SlotMeta, Slots, allocate_slots}
use strategy_builder_v.Context.Slots.Allocated.{IsAllocated, allocate_slots-IsAllocated}

abbrev slot : String → SlotMeta
slot name = record { name = name; slot_type = "uint256"; description = ""; created_by = "a1" }

-- Slot 1 has been given up.
abbrev slots : Slots
slots = (0, slot "last_run") ∷ (2, slot "limit") ∷ []

allocate_runs : allocate_slots ("limit" ∷ "next" ∷ []) "a1" [] slots ≡ (
  ("limit", 2) ∷ ("next", 3) ∷ [],
  (0, slot "last_run") ∷ (2, slot "limit") ∷ (3, slot "next") ∷ [],
)
unfolding allocate_slots
allocate_runs = refl

allocate_slots-IsAllocated_example :
    IsAllocated
      ("limit" ∷ "next" ∷ [])
      slots
      (allocate_slots ("limit" ∷ "next" ∷ []) "a1" [] slots).0
      (allocate_slots ("limit" ∷ "next" ∷ []) "a1" [] slots).1
allocate_slots-IsAllocated_example =
    allocate_slots-IsAllocated ("limit" ∷ "next" ∷ []) "a1" [] slots ((omega arith, tt), (tt, tt))

-- Two values on the chain; "limit" at index 0 is overridden, and index 2 is new.
abbrev limit_only : List (String × ℕ)
limit_only = ("limit", 0) ∷ []

expand_runs :
    build_expanded_context
      ("0x01" ∷ "0x02" ∷ [])
      (record { index = 2; initial_value = "0x07" } ∷ [])
      (("limit", "0x09") ∷ [])
      (some limit_only)
    ≡ "0x09" ∷ "0x02" ∷ "0x07" ∷ []
unfolding build_expanded_context
expand_runs = refl

abbrev given : List (String × String)
given = ("limit", "0x09") ∷ []

-- All is lost for an override with the name of a method that every object has.
lost_runs :
    build_expanded_context ("0x01" ∷ []) [] (("toString", "0x09") ∷ []) (some limit_only) ≡ []
unfolding build_expanded_context
lost_runs = refl

build_expanded_context-IsExpanded_example :
    ((any (λ p. finds_member (some limit_only) p.0) given ≡ false)
      × IsExpanded
          ("0x01" ∷ "0x02" ∷ [])
          (record { index = 2; initial_value = "0x07" } ∷ [])
          (index_overrides limit_only given [])
          (build_expanded_context
            ("0x01" ∷ "0x02" ∷ [])
            (record { index = 2; initial_value = "0x07" } ∷ [])
            given
            (some limit_only)))
    ⊎ ((any (λ p. finds_member (some limit_only) p.0) given ≡ true)
        × (build_expanded_context
              ("0x01" ∷ "0x02" ∷ [])
              (record { index = 2; initial_value = "0x07" } ∷ [])
              given
              (some limit_only)
            ≡ []))
build_expanded_context-IsExpanded_example =
    build_expanded_context-IsExpanded ("0x01" ∷ "0x02" ∷ [])
      (record { index = 2; initial_value = "0x07" } ∷ []) given (some limit_only)

no_member : any (λ p. finds_member (some limit_only) p.0) given ≡ false
unfolding finds_member
no_member = refl

limit_only-IsInjective : IsInjective limit_only
limit_only-IsInjective a b i h k =
    let l : ◌≡◌ {A = Bool} ("limit" == a) true = ground (arith, h) in
    let m : ◌≡◌ {A = Bool} ("limit" == b) true = ground (arith, k) in
    sym ((eq_iff "limit" a).0 l) ∙ (eq_iff "limit" b).0 m

build_expanded_context-override_example :
    get_elem? (build_expanded_context ("0x01" ∷ "0x02" ∷ []) [] given (some limit_only)) 0
    ≡ some "0x09"
build_expanded_context-override_example =
    build_expanded_context-override ("0x01" ∷ "0x02" ∷ []) [] given limit_only "limit" "0x09" 0
      (refl, tt) no_member limit_only-IsInjective refl refl
