-- ===== src/Mcp/Inspect.antt =====
-- `inspectGraph` of packages/mcp/src/tools/deploy-automation.ts, and packages/mcp/src/graph-utils.ts.
pub mod Clean
use strategy_builder_v.Prelude.{
  Option, none, some, List, [], ◌∷◌, ◌++◌, Bool, true, false, ◌&&◌, any, filter, map, flat_map,
  if◌then◌else◌,
}
use strategy_builder_v.Shared.Text.{Text, text, same_text, to_lower}
use strategy_builder_v.Shared.Roles.{
  FieldRole, token, amount, recipient, direction, FieldSchema, resolve_field_role,
}
use strategy_builder_v.Graph.{StepCategory, Handle, on_true, on_false}
use strategy_builder_v.Graph.Wiring.{same_handle}
use strategy_builder_v.Mcp.Tokens.{lookup}

-- The value of a parameter; `shown` is what `String` makes of a value that is no string.
pub data Param : Type 0 where
  undefined null : Param
  str : Text → Param
  other : (shown : Text) → Param

-- `properties` is `paramSchema?.properties ?? {}`.
pub record CatalogStep : Type 0 where
  pub name : Text
  pub properties : List (Text × FieldSchema)

pub record RawNode : Type 0 where
  pub id : Text
  pub category : StepCategory
  pub step_type_id : Text
  pub params : List (Text × Param)

pub record RawEdge : Type 0 where
  pub source : Text
  pub target : Text
  pub source_handle : Handle

pub record RawGraph : Type 0 where
  pub nodes : List RawNode
  pub edges : List RawEdge

-- `DeployConfig`; the owner's address is not read.
pub record DeployConfig : Type 0 where
  pub address_allowlist : List Text
  pub enabled_sensitive_steps : List Text

abbrev pub has : List Text → Text → Bool
has set x = any (λ a. same_text a x) set

is_recipient_role : Option FieldRole → Bool
is_recipient_role none = false
is_recipient_role (some token) = false
is_recipient_role (some amount) = false
is_recipient_role (some recipient) = true
is_recipient_role (some direction) = false

unfoldable pub is_recipient : Text × FieldSchema → Bool
unfolding is_recipient_role
is_recipient field = is_recipient_role (resolve_field_role field.1)

missing : Text → Text → List Text
missing name field =
    (name ++ text ": Empfänger-Feld „" ++ field ++ text "\" ist leer/fehlt — abgelehnt.") ∷ []

unlisted : Text → Text → List Text
unlisted name raw =
    (name ++ text ": Empfänger " ++ raw ++ text " ist nicht in der Adress-Allowlist — abgelehnt.")
    ∷ []

checked_address : DeployConfig → Text → Text → List Text
unfolding unlisted
checked_address config name raw =
    if has config.address_allowlist (to_lower raw) then [] else unlisted name raw

-- What is found at a money target.
target_errors : DeployConfig → Text → Text → Option Param → List Text
unfolding missing checked_address
target_errors config name field none = missing name field
target_errors config name field (some undefined) = missing name field
target_errors config name field (some null) = missing name field
target_errors config name field (some (str [])) = missing name field
target_errors config name field (some (str (c ∷ s))) = checked_address config name (c ∷ s)
target_errors config name field (some (other shown)) = checked_address config name shown

field_errors : DeployConfig → Text → List (Text × Param) → Text × FieldSchema → List Text
unfolding target_errors is_recipient
field_errors config name params field =
    if is_recipient field then target_errors config name field.0 (lookup field.0 params) else []

capability_errors : DeployConfig → Text → List Text
capability_errors config name =
    if has config.enabled_sensitive_steps name
    then []
    else (name
        ++ text
            ": sensibler Step nicht freigeschaltet (Capability-Opt-in fehlt) — nicht verbaubar.")
      ∷ []

step_errors : DeployConfig → List (Text × Param) → Option CatalogStep → List Text
unfolding field_errors capability_errors
step_errors config params none = []
step_errors config params (some step) =
    flat_map (field_errors config step.name params) step.properties
    ++ (if any is_recipient step.properties then capability_errors config step.name else [])

step_sensitive : Option CatalogStep → Bool
unfolding is_recipient
step_sensitive none = false
step_sensitive (some step) = any is_recipient step.properties

-- The messages that the loops push, in their order.
unfoldable pub graph_errors : DeployConfig → List (Text × CatalogStep) → RawGraph → List Text
unfolding step_errors
graph_errors config catalog graph =
    flat_map (λ node. step_errors config node.params (lookup node.step_type_id catalog)) graph.nodes

unfoldable pub graph_sensitive : List (Text × CatalogStep) → RawGraph → Bool
unfolding step_sensitive
graph_sensitive catalog graph =
    any (λ node. step_sensitive (lookup node.step_type_id catalog)) graph.nodes

abbrev handles : List RawEdge → Text → List Handle
handles edges id = map (λ e. e.source_handle) (filter (λ e. same_text e.source id) edges)

-- `isBranched`
unfoldable pub is_branched : RawGraph → Bool
is_branched graph =
    any
      (λ node.
        any (same_handle on_true) (handles graph.edges node.id)
        && any (same_handle on_false) (handles graph.edges node.id))
      graph.nodes
