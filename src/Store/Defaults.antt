-- ===== src/Store/Defaults.antt =====
-- `materializeDefaultParams` of editor-store.ts: the parameters of a new node.
use strategy_builder_v.Prelude.{
  ℕ, ◌/◌, String, Option, none, some, List, [], ◌∷◌, Bool, true, false, ◌&&◌, not, if◌then◌else◌,
}
use strategy_builder_v.Prelude.Names.{set_key}
use strategy_builder_v.Prelude.Strings.{concat}
use strategy_builder_v.Shared.Schema.{
  Value, scalar, truth, number, str, Params, FieldSchema, ParamSchema,
}
use text.Mathlib.Text.{◌==◌}

-- `${field}_useZero`
abbrev pub zero_toggle_field : String → String
zero_toggle_field field = concat field "_useZero"

-- `schema['x-ui-widget'] === name`
abbrev pub is_named : Option String → String → Bool
is_named none name = false
is_named (some widget) name = widget == name

abbrev with_default : String → Option Value → Params → Params
with_default name none params = params
with_default name (some value) params = set_key name value params

abbrev has_default : Option Value → Bool
has_default none = false
has_default (some value) = true

with_slot : String → String → FieldSchema → Params → Params
with_slot node_id name field params =
    if is_named field.widget "context-slot" && is_named field.slot_access "read-write"
    then set_key name (scalar (str (concat "__time_" node_id))) params
    else params

-- `now` is `Date.now()`, in milliseconds.
with_start : ℕ → String → FieldSchema → Params → Params
with_start now name field params =
    if is_named field.widget "start-time" && not (has_default field.default_value)
    then set_key name
        (scalar (number (record { negative = false; mantissa = now / 1000; places = 0 }))) params
    else params

with_account : Option String → String → FieldSchema → Params → Params
with_account none name field params = params
with_account (some address) name field params =
    if is_named field.widget "account-selector" && not (address == "")
    then set_key name (scalar (str address)) params
    else params

abbrev or_off : Option Bool → Bool
or_off none = false
or_off (some on) = on

with_toggle : String → FieldSchema → Option (Option Bool) → Params → Params
with_toggle name field none params = params
with_toggle name field (some toggle) params =
    if is_named field.widget "token-amount"
    then set_key (zero_toggle_field name) (scalar (truth (or_off toggle))) params
    else params

unfoldable pub with_fields :
    ℕ → String → Option String → List (String × FieldSchema) → Params → Params
unfolding with_slot with_start with_account with_toggle
with_fields now node_id vault [] params = params
with_fields now node_id vault ((name, field) ∷ fields) params =
    with_fields now node_id vault fields (
      with_toggle name field field.zero_toggle (
        with_account vault name field (
          with_start now name field
            (with_slot node_id name field (with_default name field.default_value params)))))

properties_of : Option ParamSchema → List (String × FieldSchema)
properties_of none = []
properties_of (some schema) = elim schema.properties [ none ↦ [] | some properties ↦ properties ]

unfoldable pub materialize_default_params : ℕ → Option ParamSchema → String → Option String → Params
unfolding with_fields properties_of
materialize_default_params now schema node_id vault =
    with_fields now node_id vault (properties_of schema) []
