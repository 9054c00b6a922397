-- ===== src/Store.antt =====
-- packages/frontend/src/features/automation-editor/stores/editor-store.ts: the state of the editor.
-- `P` is the type of positions on the canvas.
pub mod Defaults
pub mod History
pub mod Edits
pub mod Variables
pub mod Validation
pub mod Steps
pub mod Actions
mod Tests
use strategy_builder_v.Prelude.{
  ℕ, zero, suc, String, Option, none, some, List, [], ◌∷◌, Bool, true, false,
}
use strategy_builder_v.Graph.{StepCategory, Handle}
use strategy_builder_v.Graph.Validate.{ValidationError}
use strategy_builder_v.Shared.Schema.{Params, ParamSchema}

-- `EditorNodeData`
pub record NodeInfo : Type 0 where
  pub step_type_id : String
  pub step_type_name : String
  pub category : StepCategory
  pub contract_address : String
  pub selector : String
  pub params : Params

pub record StepTypeOption : Type 0 where
  pub id : String
  pub name : String
  pub category : StepCategory
  pub contract_address : String
  pub selector : String
  pub param_schema : Option ParamSchema

pub record FlowEdge : Type 0 where
  pub id : String
  pub source : String
  pub target : String
  pub source_handle : Option Handle
  pub label : Option String
  pub stroke : Option String
  pub selected : Bool

pub data SaveStatus : Type 0 where
  idle saving saved failed : SaveStatus

pub data Tab : Type 0 where
  config_tab context_tab : Tab

pub record ContextVariable : Type 0 where
  pub slot_index : ℕ
  pub name : String
  pub type_name : String
  pub description : String
  pub created_by : Option String

module _ (P : Type 0) where
  -- `category` is the type of the node on the canvas, which is optional there.
  pub record FlowNode : Type 0 where
    pub id : String
    pub category : Option StepCategory
    pub position : P
    pub info : NodeInfo
    pub selected : Bool

  pub record Snapshot : Type 0 where
    pub nodes : List FlowNode
    pub edges : List FlowEdge

  -- The fields of the store, the counter of new nodes, whether a validation is due when the timer fires, and
  -- how many validations are due after a load.
  pub record EditorState : Type 0 where
    pub nodes : List FlowNode
    pub edges : List FlowEdge
    pub selected_node_id : Option String
    pub label : String
    pub description : String
    pub validation_errors : List ValidationError
    pub owner_only : Bool
    pub is_dirty : Bool
    pub save_status : SaveStatus
    pub past : List Snapshot
    pub future : List Snapshot
    pub clipboard : Option Snapshot
    pub context_variables : List ContextVariable
    pub active_tab : Tab
    pub step_schemas : List (String × Option ParamSchema)
    pub token_decimals : List (String × ℕ)
    pub vault_address : String
    pub external_errors : List ValidationError
    pub node_counter : ℕ
    pub scheduled : Bool
    pub load_runs : ℕ

  unfoldable pub initial : EditorState
  initial = record {
    nodes = [];
    edges = [];
    selected_node_id = none;
    label = "";
    description = "";
    validation_errors = [];
    owner_only = false;
    is_dirty = false;
    save_status = idle;
    past = [];
    future = [];
    clipboard = none;
    context_variables = [];
    active_tab = config_tab;
    step_schemas = [];
    token_decimals = [];
    vault_address = "";
    external_errors = [];
    node_counter = 0;
    scheduled = false;
    load_runs = 0;
  }
