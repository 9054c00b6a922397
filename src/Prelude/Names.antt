-- ===== src/Prelude/Names.antt =====
-- Lists of names used as JavaScript sets, and JavaScript's `Map` with names as keys.
use text.Mathlib.Text.{◌==◌}
use text.Mathlib.TextEquality.{eq_iff}
use text.Mathlib.TextPositions.{eq_refl}
use Prim.Native.Nat.{suc, ◌≤◌}
use Prim.Native.String.{String}
use mathlib.Core.Path.{◌≡◌, refl}
use mathlib.Core.Logic.{inl, inr}
use mathlib.Core.Bool.{Bool, true, false, ◌||◌}
use mathlib.Core.Option.{Option, none, some}
use mathlib.Core.List.{List, [], ◌∷◌, ◌++◌}
use native.Mathlib.Omega.{arith}
use strategy_builder_v.Prelude.Tests.{if◌then◌else◌, Bool-cases}
use strategy_builder_v.Prelude.Lists.{length, All}

-- `set.has(a)`
abbrev pub mem : String → List String → Bool
mem a [] = false
mem a (x ∷ xs) = x == a || mem a xs

abbrev pub Nodup : List String → Type 0
Nodup [] = Unit
Nodup (x ∷ xs) = (mem x xs ≡ false) × Nodup xs

pub mem-append : (a : String) (xs ys : List String) → mem a (xs ++ ys) ≡ (mem a xs || mem a ys)
mem-append a [] ys = refl
mem-append a (x ∷ xs) ys = ground (arith, mem-append a xs ys)

pub mem-append_left : (a : String) (xs ys : List String) → mem a xs ≡ true → mem a (xs ++ ys) ≡ true
mem-append_left a xs ys h = ground (arith, mem-append a xs ys)

pub mem-append_right :
    (a : String) (xs ys : List String) → mem a ys ≡ true → mem a (xs ++ ys) ≡ true
mem-append_right a xs ys h = ground (arith, mem-append a xs ys)

pub mem-last : (a : String) (xs : List String) → mem a (xs ++ a ∷ []) ≡ true
mem-last a xs = ground (arith, mem-append a xs (a ∷ []), eq_refl a)

pub Nodup-last :
    (a : String) (xs : List String) → Nodup xs → mem a xs ≡ false → Nodup (xs ++ a ∷ [])
Nodup-last a [] h k = (refl, tt)
Nodup-last a (x ∷ xs) h k = (
  ground (arith, mem-append x xs (a ∷ []), eq_iff x a, eq_iff a x),
  Nodup-last a xs h.1 (ground arith),
)

pub All_of_mem {ℓ} :
    (P : String → Type ℓ) (a : String) (xs : List String) → All P xs → mem a xs ≡ true → P a
All_of_mem P a [] h m = absurd (cc)
All_of_mem P a (x ∷ xs) h m = elim (Bool-cases (x == a)) [
  | inl e ↦ ground (arith, (eq_iff x a).0 e)
  | inr e ↦ All_of_mem P a xs h.1 (ground arith)
]

remove : String → List String → List String
remove a [] = []
remove a (x ∷ xs) = if x == a then xs else x ∷ remove a xs

length-remove :
    (a : String) (xs : List String) → mem a xs ≡ true → suc (length (remove a xs)) ≡ length xs
unfolding remove
length-remove a [] h = absurd (cc)
length-remove a (x ∷ xs) h = ground (arith, length-remove a xs)

mem-remove :
    (a b : String) (xs : List String)
    → (a == b) ≡ false
    → mem b xs ≡ true
    → mem b (remove a xs) ≡ true
unfolding remove
mem-remove a b [] n h = h
mem-remove a b (x ∷ xs) n h = ground (arith, mem-remove a b xs, eq_iff x a, eq_iff x b, eq_iff a b)

All-remove :
    (a : String) (xs ys : List String)
    → mem a xs ≡ false
    → All (λ x. mem x ys ≡ true) xs
    → All (λ x. mem x (remove a ys) ≡ true) xs
All-remove a [] ys n h = tt
All-remove a (x ∷ xs) ys n h = (
  mem-remove a x ys (ground (arith, eq_iff a x, eq_iff x a)) h.0,
  All-remove a xs ys (ground arith) h.1,
)

-- A list with no repetition is no longer than one that has all its members.
pub length-le_of_Nodup :
    (xs ys : List String) → Nodup xs → All (λ x. mem x ys ≡ true) xs → length xs ≤ length ys
length-le_of_Nodup [] ys d h = omega arith
length-le_of_Nodup (x ∷ xs) ys d h = omega (
  arith,
  length-remove x ys h.0,
  length-le_of_Nodup xs (remove x ys) d.1 (All-remove x xs ys d.0 h.1),
)

-- `new Map(pairs).get(key)`: a later pair replaces an earlier one with its key.
module _ {ℓ} {V : Type ℓ} where
  abbrev or_else : Option V → Option V → Option V
  or_else none o = o
  or_else (some v) o = some v

  abbrev pub map_get : String → List (String × V) → Option V
  map_get key [] = none
  map_get key ((k, v) ∷ pairs) = or_else (map_get key pairs) (if k == key then some v else none)

-- `map.get(key)` and `map.set(key, value)`, and the same of an object.
abbrev pub get_key : {V : Type 0} → String → List (String × V) → Option V
get_key key [] = none
get_key key ((k, v) ∷ m) = if k == key then some v else get_key key m

abbrev pub set_key : {V : Type 0} → String → V → List (String × V) → List (String × V)
set_key key value [] = (key, value) ∷ []
set_key key value ((k, v) ∷ m) =
    let rest = set_key key value m in if k == key then (k, value) ∷ m else (k, v) ∷ rest

pub get_key-set_key :
    {V : Type 0} (key other : String) (value : V) (m : List (String × V))
    → get_key other (set_key key value m) ≡ (if key == other then some value else get_key other m)
get_key-set_key key other value [] = refl
get_key-set_key key other value ((k, v) ∷ m) =
    ground
      (arith, get_key-set_key key other value m, eq_iff k key, eq_iff k other, eq_iff key other)
