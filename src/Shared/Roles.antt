-- ===== src/Shared/Roles.antt =====
-- `resolveFieldRole` of packages/shared/src/step-roles.ts: what a field of a step stands for. An
-- annotation that is absent or is no string is `none`.
use strategy_builder_v.Prelude.{Option, none, some, if◌then◌else◌}
use strategy_builder_v.Shared.Text.{Text, text, same_text}

pub data FieldRole : Type 0 where
  token amount recipient direction : FieldRole

pub record FieldSchema : Type 0 where
  pub ui_role : Option Text
  pub ui_widget : Option Text

-- `isFieldRole`, with the role.
explicit_role : Text → Option FieldRole
explicit_role s =
    if same_text s (text "token")
    then some token
    else if same_text s (text "amount")
    then some amount
    else if same_text s (text "recipient")
    then some recipient
    else if same_text s (text "direction")
    then some direction
    else none

-- `WIDGET_ROLE[widget]`
widget_role : Text → Option FieldRole
widget_role s =
    if same_text s (text "token-selector")
    then some token
    else if same_text s (text "token-amount")
    then some amount
    else if same_text s (text "aave-amount-mode")
    then some direction
    else none

role_of : (Text → Option FieldRole) → Option Text → Option FieldRole
role_of f none = none
role_of f (some s) = f s

or_role : Option FieldRole → Option FieldRole → Option FieldRole
or_role (some role) other = some role
or_role none other = other

unfoldable pub resolve_field_role : FieldSchema → Option FieldRole
unfolding explicit_role widget_role role_of or_role
resolve_field_role field =
    or_role (role_of explicit_role field.ui_role) (role_of widget_role field.ui_widget)
