-- ===== src/Mcp/Deploy/Tests.antt =====
-- Runs of a deployment: a transfer to a listed recipient. The world counts the calls.
use strategy_builder_v.Prelude.{
  ℕ, ◌+◌, some, none, List, [], ◌∷◌, Bool, true, false, ◌≡◌, refl, All,
}
use strategy_builder_v.Prelude.Result.{ok}
use strategy_builder_v.Prelude.Exec.{Exec}
use strategy_builder_v.Shared.Text.{Text, text}
use strategy_builder_v.Shared.Roles.{resolve_field_role}
use strategy_builder_v.Graph.{action}
use strategy_builder_v.Mcp.Tokens.{lookup}
use strategy_builder_v.Mcp.Gate.{AuditEntry, ConfirmationRequest, Fault, guard}
use strategy_builder_v.Mcp.Drafts.{DraftStore, create, consume, map_get}
use strategy_builder_v.Mcp.Inspect.{
  CatalogStep, DeployConfig, RawGraph, str, graph_errors, graph_sensitive,
}
use strategy_builder_v.Mcp.Inspect.Clean.{SafeStep, graph_errors-SafeStep}
use strategy_builder_v.Mcp.Deploy.{Draft, Details, DeployResult, deploy_automation}
use strategy_builder_v.Mcp.Deploy.Safe.{IsDeployed, deploy_automation-IsDeployed}

noted : AuditEntry Details → Exec ℕ Fault (Unit {0})
noted e n = (ok tt, n + 1)

agrees : ConfirmationRequest Details → Exec ℕ Fault Bool
agrees req n = (ok true, n + 1)

deploys : Draft → Exec ℕ Fault (ℕ × List Text)
deploys draft n = (ok (5, text "0x1" ∷ []), n + 1)

abbrev config : DeployConfig
config = record {
  address_allowlist = text "0xee" ∷ [];
  enabled_sensitive_steps = text "Transfer" ∷ [];
}

abbrev catalog : List (Text × CatalogStep)
catalog =
    (
      text "t1",
      record {
        name = text "Transfer";
        properties =
            (text "recipient", record { ui_role = some (text "recipient"); ui_widget = none }) ∷ [];
      },
    )
    ∷ []

abbrev graph : RawGraph
graph = record {
  nodes =
      record {
        id = text "n1";
        category = action;
        step_type_id = text "t1";
        params = (text "recipient", str (text "0xEE")) ∷ [];
      }
      ∷ [];
  edges = [];
}

abbrev draft : Draft
draft = record {
  vault_address = text "0xab";
  automation_id = text "a1";
  raw_graph = graph;
  context_overrides = [];
  owner_only = true;
  summary = record { steps = []; warnings = [] };
  catalog = catalog;
}

abbrev store : DraftStore Draft
store = create "d1" 1 draft (record { map = []; ttl_ms = 10 })

abbrev result : DeployResult
result = record { on_chain_id = 5; tx_hashes = text "0x1" ∷ []; automation_id = text "a1" }

no_errors : graph_errors config catalog graph ≡ []
unfolding graph_errors resolve_field_role
no_errors = refl

graph_errors-SafeStep_example :
    All
      (λ node.
        (step : CatalogStep)
        → lookup node.step_type_id catalog ≡ some step
        → SafeStep config node.params step)
      graph.nodes
graph_errors-SafeStep_example = graph_errors-SafeStep config catalog graph no_errors

deploy_runs :
    (deploy_automation false noted agrees config deploys "d1" 4 store 0).0 ≡ (ok result, 5)
unfolding deploy_automation noted agrees deploys graph_errors resolve_field_role consume create
    guard graph_sensitive
deploy_runs = refl

deploy_automation-IsDeployed_example :
    ((d : Draft) × ((consume "d1" 4 store).0 ≡ some d)
      × IsDeployed false noted agrees config deploys "d1" d 0 result)
    × (map_get "d1" (deploy_automation false noted agrees config deploys "d1" 4 store 0).1.map
        ≡ none)
deploy_automation-IsDeployed_example =
    deploy_automation-IsDeployed false noted agrees config deploys "d1" 4 store 0 5 result
      deploy_runs
