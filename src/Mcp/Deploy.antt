-- ===== src/Mcp/Deploy.antt =====
-- packages/mcp/src/tools/deploy-automation.ts: the deployment of a draft.
pub mod Safe
mod Tests
use strategy_builder_v.Prelude.{
  ℕ, String, Option, none, some, List, [], ◌∷◌, ◌++◌, Bool, true, false, map, if◌then◌else◌,
}
use strategy_builder_v.Prelude.Result.{Result, ok, err}
use strategy_builder_v.Prelude.Exec.{Exec, pure, raise, ◌>>=◌}
use strategy_builder_v.Shared.Text.{Text, text}
use strategy_builder_v.Graph.{StepCategory}
use strategy_builder_v.Mcp.Gate.{
  GuardedAction, ConfirmationRequest, AuditEntry, Fault, thrown, guard,
}
use strategy_builder_v.Mcp.Drafts.{DraftStore, consume}
use strategy_builder_v.Mcp.Inspect.{
  CatalogStep, RawGraph, DeployConfig, graph_errors, graph_sensitive, is_branched,
}

pub record DecodedStep : Type 0 where
  pub step_type : Text
  pub category : StepCategory
  pub token : Option Text
  pub amount : Option Text
  pub amount_raw : Option Text
  pub recipient : Option Text
  pub direction : Option Text

pub record DecodedSummary : Type 0 where
  pub steps : List DecodedStep
  pub warnings : List Text

pub record Draft : Type 0 where
  pub vault_address : Text
  pub automation_id : Text
  pub raw_graph : RawGraph
  pub context_overrides : List (Text × Text)
  pub owner_only : Bool
  pub summary : DecodedSummary
  pub catalog : List (Text × CatalogStep)

pub record DeployResult : Type 0 where
  pub on_chain_id : ℕ
  pub tx_hashes : List Text
  pub automation_id : Text

pub record Details : Type 0 where
  pub draft_id : String
  pub vault : Text
  pub owner_only : Bool

-- `items.join(separator)`
join : Text → List Text → Text
join separator [] = []
join separator (s ∷ []) = s
join separator (s ∷ t ∷ rest) = s ++ separator ++ join separator (t ∷ rest)

-- `if (value) parts.push(prefix + value)`: an empty string is passed over.
part : Text → Option Text → List Text
part prefix none = []
part prefix (some []) = []
part prefix (some (c ∷ s)) = (prefix ++ c ∷ s) ∷ []

direction_part : Option Text → List Text
direction_part none = []
direction_part (some d) = (text "Richtung " ++ d) ∷ []

step_line : DecodedStep → Text
unfolding join part direction_part
step_line step =
    text "  • "
    ++ join (text ", ") (
        step.step_type ∷ part (text "Betrag ") step.amount
        ++ part (text "Token ") step.token
        ++ part (text "→ ") step.recipient
        ++ direction_part step.direction)

-- `formatSummary`
format_summary : Draft → Bool → Text
unfolding join step_line
format_summary draft branched = join (text "\n") (
    ((text "Automation deployen ("
        ++ (if draft.owner_only then text "Owner-only" else text "Public — feuert autonom")
        ++ text "):")
      ∷ map step_line draft.summary.steps)
    ++ (if branched
        then (text "  ⚠ Verzweigter Graph — NICHT voll cross-checkbar, bitte besonders prüfen.")
          ∷ []
        else [])
    ++ map (λ w. text "  ⚠ " ++ w) draft.summary.warnings)

-- `txHashes.at(-1)`
last : List Text → Option Text
last [] = none
last (h ∷ []) = some h
last (h ∷ k ∷ rest) = last (k ∷ rest)

refused : List Text → Fault
unfolding join
refused errors = thrown (text "Deploy abgelehnt:\n- " ++ join (text "\n- ") errors)

abbrev unknown_draft : Fault
unknown_draft = thrown (
    text
      "Draft-ID unbekannt oder bereits verwendet/abgelaufen — bitte propose_automation erneut ausführen.")

module _ {W : Type 0} (read_only : Bool) (audit : AuditEntry Details → Exec W Fault (Unit {0}))
    (request_approval : ConfirmationRequest Details → Exec W Fault Bool) (config : DeployConfig)
    (deploy_on_chain : Draft → Exec W Fault (ℕ × List Text)) where
  pub deploy_action : String → Draft → GuardedAction Details
  unfolding format_summary
  deploy_action id draft = record {
    tool = "deploy_automation";
    sensitive = graph_sensitive draft.catalog draft.raw_graph;
    summary = format_summary draft (is_branched draft.raw_graph);
    details = record { draft_id = id; vault = draft.vault_address; owner_only = draft.owner_only };
  }

  abbrev pub deployed : Draft → ℕ × List Text → DeployResult
  deployed draft done = record {
    on_chain_id = done.0;
    tx_hashes = done.1;
    automation_id = draft.automation_id;
  }

  send : Draft → Exec W Fault (DeployResult × Option Text)
  unfolding last
  send draft = deploy_on_chain draft >>= λ done. pure (deployed draft done, last done.1)

  -- The graph has been inspected.
  deploy_inspected : String → Draft → List Text → Exec W Fault DeployResult
  unfolding refused deploy_action send
  deploy_inspected id draft (e ∷ errors) = raise (refused (e ∷ errors))
  deploy_inspected id draft [] =
      guard read_only audit request_approval (deploy_action id draft) (send draft)

  deploy_found : String → Option Draft → Exec W Fault DeployResult
  unfolding deploy_inspected
  deploy_found id none = raise unknown_draft
  deploy_found id (some draft) =
      deploy_inspected id draft (graph_errors config draft.catalog draft.raw_graph)

  -- The store has given the draft away, whatever comes of it.
  unfoldable pub deploy_automation :
      String → ℕ → DraftStore Draft → W → (Result Fault DeployResult × W) × DraftStore Draft
  unfolding deploy_found
  deploy_automation id now store w =
      let (found, left) = consume id now store in (deploy_found id found w, left)
