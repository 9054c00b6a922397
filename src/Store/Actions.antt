-- ===== src/Store/Actions.antt =====
-- The actions of editor-store.ts as one type, and the states that they lead to.
pub mod Bounded
pub mod Reverted
pub mod Closed
use strategy_builder_v.Prelude.{ℕ, String, Option, List, Bool}
use strategy_builder_v.Graph.Validate.{ValidationError}
use strategy_builder_v.Shared.Schema.{Params, ParamSchema}
use strategy_builder_v.Store.{
  StepTypeOption, FlowEdge, FlowNode, SaveStatus, Tab, ContextVariable, EditorState, initial,
}
use strategy_builder_v.Store.History.{push_snapshot, undo, redo}
use strategy_builder_v.Store.Edits.{
  FlowConnection, on_connect, add_node, remove_selected, update_node_params, copy_selected, paste,
  apply_auto_layout,
}
use strategy_builder_v.Store.Validation.{
  ValidateParams, run_validation, fire_timer, set_external_errors,
}
use strategy_builder_v.Store.Variables.{
  VariableUpdates, merge_editor_context_variables, merge_vault_context_slots, add_context_variable,
  update_context_variable,
}
use strategy_builder_v.Store.Steps.{
  Change, on_nodes_change, on_edges_change, set_selected_node_id, set_label, set_description,
  mark_dirty, set_save_status, load_editor_state, set_active_tab, set_context_variables,
  set_step_schemas, set_token_decimals, set_vault_address,
}

-- With what each action gets from its caller, from React Flow, from the layout and from the clock.
pub data Action (P : Type 0) : Type 0 where
  change_nodes : (List (FlowNode P) → List (FlowNode P)) → List Change → Action P
  change_edges : (List FlowEdge → List FlowEdge) → List Change → Action P
  connect : (FlowEdge → List FlowEdge → List FlowEdge) → FlowConnection → Action P
  add : ℕ → StepTypeOption → P → Action P
  update_params : String → Params → Action P
  paste_copy : (P → P) → ℕ → Action P
  lay_out : (List (FlowNode P) → List FlowEdge → List (String × P)) → Action P
  remove push undone redone copy dirty : Action P
  validate timer : ValidateParams → Action P
  external_errors : ValidateParams → List ValidationError → Action P
  choose : Option String → Action P
  label description vault_address : String → Action P
  save_status : SaveStatus → Action P
  load : List (FlowNode P) → List FlowEdge → Option String → Option String → Action P
  tab : Tab → Action P
  variables merge_editor merge_vault : List ContextVariable → Action P
  schemas : List (String × Option ParamSchema) → Action P
  decimals : List (String × ℕ) → Action P
  add_variable : ContextVariable → Action P
  update_variable : ℕ → VariableUpdates → Action P

module _ {P : Type 0} where
  abbrev pub act : Action P → EditorState P → EditorState P
  act (change_nodes apply changes) s = on_nodes_change apply changes s
  act (change_edges apply changes) s = on_edges_change apply changes s
  act (connect add_edge c) s = on_connect add_edge c s
  act (add now step position) s = add_node now step position s
  act (update_params id params) s = update_node_params id params s
  act (paste_copy shift now) s = paste shift now s
  act (lay_out layout) s = apply_auto_layout layout s
  act remove s = remove_selected s
  act push s = push_snapshot s
  act undone s = undo s
  act redone s = redo s
  act copy s = copy_selected s
  act dirty s = mark_dirty s
  act (validate v) s = run_validation v s
  act (timer v) s = fire_timer v s
  act (external_errors v errors) s = set_external_errors v errors s
  act (choose id) s = set_selected_node_id id s
  act (label l) s = set_label l s
  act (description d) s = set_description d s
  act (vault_address a) s = set_vault_address a s
  act (save_status status) s = set_save_status status s
  act (load nodes edges l d) s = load_editor_state nodes edges l d s
  act (tab t) s = set_active_tab t s
  act (variables vs) s = set_context_variables vs s
  act (merge_editor vs) s = merge_editor_context_variables vs s
  act (merge_vault vs) s = merge_vault_context_slots vs s
  act (schemas ss) s = set_step_schemas ss s
  act (decimals ds) s = set_token_decimals ds s
  act (add_variable v) s = add_context_variable v s
  act (update_variable i u) s = update_context_variable i u s

-- The states that the store gets to, one action after the other.
pub data Reachable (P : Type 0) : EditorState P → Type 0 where
  opened : Reachable P (initial P)
  acted : {s : EditorState P} (a : Action P) → Reachable P s → Reachable P (act a s)
