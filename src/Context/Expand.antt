-- ===== src/Context/Expand.antt =====
-- `buildExpandedContext` of packages/backend/src/automation/context.service.ts. Values are hexadecimal
-- strings that are passed through. The slot mapping may be absent, and it is a plain object, so that
-- `slotMapping?.[name]` also finds what every object has from Object.prototype.
pub mod Kept
pub mod Named
use strategy_builder_v.Prelude.{
  ℕ, zero, suc, ◌+◌, String, Option, none, some, List, [], ◌∷◌, Bool, ltb, map, length, find, any,
  get_elem?, interval, if◌then◌else◌, ◌==◌, false,
}
use strategy_builder_v.Prelude.Names.{mem, get_key}

pub record NewSlot : Type 0 where
  pub index : ℕ
  pub initial_value : String

-- `indexOverrides[i]`, and its assignment.
abbrev pub get_index : ℕ → List (ℕ × String) → Option String
get_index i [] = none
get_index i ((j, v) ∷ rest) = if j == i then some v else get_index i rest

abbrev pub set_index : ℕ → String → List (ℕ × String) → List (ℕ × String)
set_index i value [] = (i, value) ∷ []
set_index i value ((j, v) ∷ rest) =
    let others = set_index i value rest in if j == i then (j, value) ∷ rest else (j, v) ∷ others

override : Option ℕ → String → List (ℕ × String) → List (ℕ × String)
override none value done = done
override (some i) value done = set_index i value done

-- The overrides by index; a name that is not mapped is passed over.
unfoldable pub index_overrides :
    List (String × ℕ) → List (String × String) → List (ℕ × String) → List (ℕ × String)
unfolding override
index_overrides mapping [] done = done
index_overrides mapping ((name, value) ∷ overrides) done =
    index_overrides mapping overrides (override (get_key name mapping) value done)

abbrev pub larger : ℕ → ℕ → ℕ
larger a b = if ltb a b then b else a

-- The names of the members of Object.prototype.
abbrev pub object_members : List String
object_members =
    "constructor" ∷ "__defineGetter__" ∷ "__defineSetter__" ∷ "hasOwnProperty" ∷ "__lookupGetter__"
    ∷ "__lookupSetter__" ∷ "isPrototypeOf" ∷ "propertyIsEnumerable" ∷ "toString" ∷ "valueOf"
    ∷ "__proto__" ∷ "toLocaleString" ∷ []

unowned_member : String → Option ℕ → Bool
unowned_member name none = mem name object_members
unowned_member name (some i) = false

-- `slotMapping?.[name]` is a member of Object.prototype, and no number.
unfoldable pub finds_member : Option (List (String × ℕ)) → String → Bool
unfolding unowned_member
finds_member none name = false
finds_member (some mapping) name = unowned_member name (get_key name mapping)

-- The slots that the mapping has itself.
abbrev pub own_slots : Option (List (String × ℕ)) → List (String × ℕ)
own_slots none = []
own_slots (some mapping) = mapping

-- `maxIndex + 1`
abbrev pub size_over : List ℕ → ℕ → ℕ
size_over [] size = size
size_over (i ∷ indices) size = size_over indices (larger size (i + 1))

or_empty : Option String → String
or_empty none = "0x"
or_empty (some value) = value

initial_of : Option NewSlot → String
initial_of none = "0x"
initial_of (some s) = s.initial_value

old_or_new : List String → List NewSlot → ℕ → String
unfolding or_empty initial_of
old_or_new current new_slots i =
    if ltb i (length current)
    then or_empty (get_elem? current i)
    else initial_of (find (λ s. s.index == i) new_slots)

override_or : Option String → String → String
override_or none other = other
override_or (some value) other = value

-- One round of the loop.
unfoldable pub value_at : List String → List NewSlot → List (ℕ × String) → ℕ → String
unfolding old_or_new override_or
value_at current new_slots by_index i =
    override_or (get_index i by_index) (old_or_new current new_slots i)

-- With the overrides by index.
unfoldable pub expanded_context : List String → List NewSlot → List (ℕ × String) → List String
unfolding value_at
expanded_context current new_slots by_index =
    let size =
      size_over (map (λ p. p.0) by_index)
        (size_over (map (λ s. s.index) new_slots) (length current)) in
    map (value_at current new_slots by_index) (interval 0 size)

-- A member of Object.prototype becomes a key that is no number: then `maxIndex` is NaN, which is neither less
-- than 0 nor reached by the loop.
unfoldable pub build_expanded_context :
    List String → List NewSlot → List (String × String) → Option (List (String × ℕ)) → List String
unfolding index_overrides expanded_context finds_member
build_expanded_context current new_slots overrides mapping =
    if any (λ p. finds_member mapping p.0) overrides
    then []
    else expanded_context current new_slots (index_overrides (own_slots mapping) overrides [])
