-- ===== src/Shared/Schema.antt =====
-- The schemas of the parameters of a step, of packages/shared/src/validation.ts, and the values that
-- parameters have. A JavaScript number is an exact decimal, or not finite; the fields of an object are no
-- objects; `undefined` is the absence of a value.
use strategy_builder_v.Prelude.{ℕ, String, Option, List, Bool}

pub record Decimal : Type 0 where
  pub negative : Bool
  pub mantissa : ℕ
  pub places : ℕ

pub data Scalar : Type 0 where
  null not_a_number : Scalar
  truth infinite : Bool → Scalar
  number : Decimal → Scalar
  str : String → Scalar

pub data Value : Type 0 where
  scalar : Scalar → Value
  object : List (String × Scalar) → Value

abbrev pub Params : Type 0
Params = List (String × Value)

-- `zero_toggle` is the `default` of the toggle where there is a toggle.
pub record FieldSchema : Type 0 where
  pub title : Option String
  pub default_value : Option Value
  pub widget : Option String
  pub slot_access : Option String
  pub zero_toggle : Option (Option Bool)

pub record ParamSchema : Type 0 where
  pub properties : Option (List (String × FieldSchema))
  pub required : Option (List String)

pub record ParamValidationError : Type 0 where
  pub field : String
  pub message : String
