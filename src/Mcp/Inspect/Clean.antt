-- ===== src/Mcp/Inspect/Clean.antt =====
-- What a graph without errors guarantees.
use strategy_builder_v.Prelude.{
  Option, none, some, List, [], ◌∷◌, ◌++◌, true, any, flat_map, ◌≡◌, refl, arith, All, All-map, ap,
  sym, ◌∙◌,
}
use strategy_builder_v.Shared.Text.{Text, to_lower}
use strategy_builder_v.Shared.Roles.{FieldSchema}
use strategy_builder_v.Mcp.Tokens.{lookup}
use strategy_builder_v.Mcp.Inspect.{
  Param, undefined, null, str, other, CatalogStep, RawGraph, DeployConfig, has, is_recipient,
  target_errors, checked_address, missing, unlisted, field_errors, capability_errors, step_errors,
  graph_errors,
}

-- What `String` makes of the value, where it is not empty.
abbrev pub address_of : Option Param → Option Text
address_of none = none
address_of (some undefined) = none
address_of (some null) = none
address_of (some (str [])) = none
address_of (some (str (c ∷ s))) = some (c ∷ s)
address_of (some (other shown)) = some shown

-- A money target is given, and on the allowlist.
abbrev pub Listed : DeployConfig → Option Param → Type 0
Listed config value =
    (address : Text) × (address_of value ≡ some address)
    × (has config.address_allowlist (to_lower address) ≡ true)

append-nil_inv : (xs ys : List Text) → xs ++ ys ≡ [] → (xs ≡ []) × (ys ≡ [])
append-nil_inv [] ys h = (refl, h)
append-nil_inv (x ∷ xs) ys h = absurd (cc)

flat_map-nil :
    {A : Type 0} (f : A → List Text) (xs : List A) → flat_map f xs ≡ [] → All (λ x. f x ≡ []) xs
flat_map-nil f [] h = tt
flat_map-nil f (x ∷ xs) h =
    let (first, rest) = append-nil_inv (f x) (flat_map f xs) h in (first, flat_map-nil f xs rest)

checked_address-nil :
    (config : DeployConfig) (name raw : Text)
    → checked_address config name raw ≡ []
    → has config.address_allowlist (to_lower raw) ≡ true
unfolding checked_address unlisted
checked_address-nil config name raw h = ground (arith, h)

target_errors-nil :
    (config : DeployConfig) (name field : Text) (value : Option Param)
    → target_errors config name field value ≡ []
    → Listed config value
unfolding target_errors missing
target_errors-nil config name field none h = absurd (cc)
target_errors-nil config name field (some undefined) h = absurd (cc)
target_errors-nil config name field (some null) h = absurd (cc)
target_errors-nil config name field (some (str [])) h = absurd (cc)
target_errors-nil config name field (some (str (c ∷ s))) h =
    (c ∷ s, refl, checked_address-nil config name (c ∷ s) h)
target_errors-nil config name field (some (other shown)) h =
    (shown, refl, checked_address-nil config name shown h)

-- Every money target of the step is listed, and the step is enabled if it has one.
abbrev pub SafeStep : DeployConfig → List (Text × Param) → CatalogStep → Type 0
SafeStep config params step =
    All (λ field. is_recipient field ≡ true → Listed config (lookup field.0 params)) step.properties
    × (any is_recipient step.properties ≡ true
        → has config.enabled_sensitive_steps step.name ≡ true)

capability_errors-nil :
    (config : DeployConfig) (name : Text)
    → capability_errors config name ≡ []
    → has config.enabled_sensitive_steps name ≡ true
unfolding capability_errors
capability_errors-nil config name h = ground (arith, h)

field_errors-nil :
    (config : DeployConfig) (name : Text) (params : List (Text × Param))
    (field : Text × FieldSchema)
    → field_errors config name params field ≡ []
    → is_recipient field ≡ true
    → Listed config (lookup field.0 params)
unfolding field_errors
field_errors-nil config name params field h r =
    target_errors-nil config name field.0 (lookup field.0 params) (rw r at h)

step_errors-nil :
    (config : DeployConfig) (params : List (Text × Param)) (step : CatalogStep)
    → step_errors config params (some step) ≡ []
    → SafeStep config params step
unfolding step_errors
step_errors-nil config params step h =
    let (fields, capability) =
      append-nil_inv (flat_map (field_errors config step.name params) step.properties) _ h in
    (
      All-map _ _ (λ field e. field_errors-nil config step.name params field e) step.properties
          (flat_map-nil (field_errors config step.name params) step.properties fields),
      λ r. capability_errors-nil config step.name (rw r at capability),
    )

-- A graph that is inspected without an error: in every node whose step is in the catalog, each money
-- target is given and on the allowlist, and the step is enabled if it has a money target.
pub graph_errors-SafeStep :
    (config : DeployConfig) (catalog : List (Text × CatalogStep)) (graph : RawGraph)
    → graph_errors config catalog graph ≡ []
    → All
        (λ node.
          (step : CatalogStep)
          → lookup node.step_type_id catalog ≡ some step
          → SafeStep config node.params step)
        graph.nodes
unfolding graph_errors
graph_errors-SafeStep config catalog graph h =
    All-map _ _
      (λ node e step found.
        step_errors-nil config node.params step
          (ap (step_errors config node.params) (sym found) ∙ e))
      graph.nodes (flat_map-nil _ graph.nodes h)
