-- ===== src/Mcp/Deploy/Safe.antt =====
-- What a deployment that came back has passed through.
use strategy_builder_v.Prelude.{
  ℕ, String, Option, none, some, List, [], ◌∷◌, Bool, false, ◌≡◌, refl, All, ap,
}
use strategy_builder_v.Prelude.Result.{Result, ok}
use strategy_builder_v.Prelude.Exec.{Exec, bind-ok, not_ok}
use strategy_builder_v.Shared.Text.{Text}
use strategy_builder_v.Mcp.Tokens.{lookup}
use strategy_builder_v.Mcp.Gate.{ConfirmationRequest, AuditEntry, Fault}
use strategy_builder_v.Mcp.Gate.Approval.{Cleared, guard-Cleared}
use strategy_builder_v.Mcp.Drafts.{DraftStore, consume, map_get}
use strategy_builder_v.Mcp.Drafts.Once.{consumed-none}
use strategy_builder_v.Mcp.Inspect.{CatalogStep, DeployConfig, graph_errors, graph_sensitive}
use strategy_builder_v.Mcp.Inspect.Clean.{SafeStep, graph_errors-SafeStep}
use strategy_builder_v.Mcp.Deploy.{
  Draft, DeployResult, Details, deploy_action, deployed, send, deploy_inspected, deploy_found,
  deploy_automation,
}

came_back :
    {A B W : Type 0} (a a' : A) (b b' : B) (s t : W)
    → ◌≡◌ {A = Result Fault (A × B) × W} (ok (a, b), s) (ok (a', b'), t)
    → a' ≡ a
came_back {A} {B} a a' b b' s t h =
    let e : ◌≡◌ {A = Result Fault (A × B)} (ok (a, b)) (ok (a', b')) = ap (λ p. p.0) h in cc

module _ {W : Type 0} (read_only : Bool) (audit : AuditEntry Details → Exec W Fault (Unit {0}))
    (request_approval : ConfirmationRequest Details → Exec W Fault Bool) (config : DeployConfig)
    (deploy_on_chain : Draft → Exec W Fault (ℕ × List Text)) where
  -- Every money target of the draft's graph is listed, and every step with one is enabled; if there is
  -- one, the user approved the deployment; then the draft was sent, and the result is what came of it.
  pub record IsDeployed (id : String) (draft : Draft) (w : W) (result : DeployResult) : Type 0 where
    pub writable : read_only ≡ false
    pub safe :
        All
          (λ node.
            (step : CatalogStep)
            → lookup node.step_type_id draft.catalog ≡ some step
            → SafeStep config node.params step)
          draft.raw_graph.nodes
    pub told : W
    pub cleared :
        Cleared audit request_approval
          (graph_sensitive draft.catalog draft.raw_graph)
          (deploy_action read_only audit request_approval config deploy_on_chain id draft)
          w
          told
    pub done : ℕ × List Text
    pub left : W
    pub ran : deploy_on_chain draft told ≡ (ok done, left)
    pub result_of :
        result ≡ deployed read_only audit request_approval config deploy_on_chain draft done

  inspected-IsDeployed :
      (id : String) (draft : Draft) (errors : List Text) (w w' : W) (result : DeployResult)
      → graph_errors config draft.catalog draft.raw_graph ≡ errors
      → deploy_inspected read_only audit request_approval config deploy_on_chain id draft errors w
        ≡ (ok result, w')
      → IsDeployed id draft w result
  unfolding deploy_inspected send deploy_action
  inspected-IsDeployed id draft (e ∷ errors) w w' result clean h = absurd (not_ok h)
  inspected-IsDeployed id draft [] w w' result clean h =
      let (writable, (told, cleared, (hash, m, ran, noted))) =
        guard-Cleared audit request_approval read_only
          (deploy_action read_only audit request_approval config deploy_on_chain id draft)
          (send read_only audit request_approval config deploy_on_chain draft) w w' result h in
      let (done, left, went, h₁) = bind-ok (deploy_on_chain draft) _ told ran in
      record {
        writable = writable;
        safe = graph_errors-SafeStep config draft.catalog draft.raw_graph clean;
        told = told;
        cleared = cleared;
        done = done;
        left = left;
        ran = went;
        result_of = came_back _ result _ hash left m h₁;
      }

  found-IsDeployed :
      (id : String) (found : Option Draft) (w w' : W) (result : DeployResult)
      → deploy_found read_only audit request_approval config deploy_on_chain id found w
        ≡ (ok result, w')
      → (draft : Draft) × (found ≡ some draft) × IsDeployed id draft w result
  unfolding deploy_found
  found-IsDeployed id none w w' result h = absurd (not_ok h)
  found-IsDeployed id (some draft) w w' result h =
      (draft, refl, inspected-IsDeployed id draft _ w w' result refl h)

  -- A deployment that came back with a result has taken a stored draft out of the store, which has nothing
  -- under its id any more, and deployed that draft as it was stored: outside read-only mode, with every
  -- money target of its graph on the allowlist and every step that has one enabled; and where there is a
  -- money target, after the user approved a summary made from that draft.
  pub deploy_automation-IsDeployed :
      (id : String) (now : ℕ) (store : DraftStore Draft) (w w' : W) (result : DeployResult)
      → (deploy_automation read_only audit request_approval config deploy_on_chain id now store w).0
        ≡ (ok result, w')
      → ((draft : Draft) × ((consume id now store).0 ≡ some draft) × IsDeployed id draft w result)
        × (map_get id
              (deploy_automation read_only audit request_approval config deploy_on_chain id now
                store w).1.map
            ≡ none)
  unfolding deploy_automation
  deploy_automation-IsDeployed id now store w w' result h =
      (found-IsDeployed id (consume id now store).0 w w' result h, consumed-none id now store)
