-- ===== src/Store/Steps.antt =====
-- The rest of the actions of editor-store.ts, and the steps from one state of the store to the next.
use strategy_builder_v.Prelude.{
  ℕ, ◌+◌, String, Option, none, some, List, [], ◌∷◌, Bool, true, false, not, any, if◌then◌else◌,
}
use strategy_builder_v.Shared.Schema.{ParamSchema}
use strategy_builder_v.Store.{
  FlowEdge, FlowNode, SaveStatus, idle, saving, saved, failed, Tab, config_tab, ContextVariable,
  EditorState,
}
use strategy_builder_v.Store.History.{push_snapshot}

-- React Flow's changes: of a selection, of a position while it is dragged or after, an addition, the removal of
-- an id, or another.
pub data Change : Type 0 where
  select : String → Bool → Change
  position : (dragging : Bool) → Change
  add other : Change
  remove : String → Change

-- The node that the first selecting change selects.
unfoldable pub selected_of : List Change → Option String
selected_of [] = none
selected_of (select id true ∷ changes) = some id
selected_of (select id false ∷ changes) = selected_of changes
selected_of (position dragging ∷ changes) = selected_of changes
selected_of (add ∷ changes) = selected_of changes
selected_of (remove id ∷ changes) = selected_of changes
selected_of (other ∷ changes) = selected_of changes

unfoldable pub is_structural : Change → Bool
is_structural add = true
is_structural (remove id) = true
is_structural (select id on) = false
is_structural (position dragging) = false
is_structural other = false

unfoldable pub is_drop : Change → Bool
is_drop (position dragging) = not dragging
is_drop (select id on) = false
is_drop add = false
is_drop (remove id) = false
is_drop other = false

is_saved : SaveStatus → Bool
is_saved saved = true
is_saved idle = false
is_saved saving = false
is_saved failed = false

abbrev or_blank : Option String → String
or_blank none = ""
or_blank (some text) = text

module _ {P : Type 0} where
  unfoldable pub show_selected : Option String → EditorState P → EditorState P
  show_selected none s = s
  show_selected (some id) s = record s { selected_node_id = some id; active_tab = config_tab }

  unfoldable pub mark_structural : Bool → EditorState P → EditorState P
  mark_structural false s = s
  mark_structural true s = record s { is_dirty = true; scheduled = true }

  unfoldable pub mark_dropped : Bool → EditorState P → EditorState P
  unfolding push_snapshot
  mark_dropped false s = s
  mark_dropped true s = push_snapshot (record s { is_dirty = true })

  -- `apply` is what applyNodeChanges makes of the nodes.
  unfoldable pub on_nodes_change :
      (List (FlowNode P) → List (FlowNode P)) → List Change → EditorState P → EditorState P
  unfolding show_selected mark_structural mark_dropped selected_of is_structural is_drop
  on_nodes_change apply changes s = mark_dropped (any is_drop changes) (
      mark_structural (any is_structural changes)
        (show_selected (selected_of changes) (record s { nodes = apply s.nodes })))

  unfoldable pub on_edges_change :
      (List FlowEdge → List FlowEdge) → List Change → EditorState P → EditorState P
  unfolding mark_structural is_structural
  on_edges_change apply changes s =
      mark_structural (any is_structural changes) (record s { edges = apply s.edges })

  unfoldable pub set_selected_node_id : Option String → EditorState P → EditorState P
  set_selected_node_id id s = record s { selected_node_id = id }

  unfoldable pub set_label : String → EditorState P → EditorState P
  set_label label s = record s { label = label; is_dirty = true }

  unfoldable pub set_description : String → EditorState P → EditorState P
  set_description description s = record s { description = description; is_dirty = true }

  unfoldable pub mark_dirty : EditorState P → EditorState P
  mark_dirty s = record s { is_dirty = true }

  unfoldable pub set_save_status : SaveStatus → EditorState P → EditorState P
  unfolding is_saved
  set_save_status status s = record s {
    save_status = status;
    is_dirty = if is_saved status then false else s.is_dirty;
  }

  unfoldable pub load_editor_state :
      List (FlowNode P)
      → List FlowEdge
      → Option String
      → Option String
      → EditorState P
      → EditorState P
  load_editor_state nodes edges label description s = record s {
    nodes = nodes;
    edges = edges;
    label = or_blank label;
    description = or_blank description;
    is_dirty = false;
    save_status = idle;
    past = [];
    future = [];
    load_runs = s.load_runs + 1;
  }

  unfoldable pub set_active_tab : Tab → EditorState P → EditorState P
  set_active_tab tab s = record s { active_tab = tab }

  unfoldable pub set_context_variables : List ContextVariable → EditorState P → EditorState P
  set_context_variables variables s = record s { context_variables = variables }

  unfoldable pub set_step_schemas :
      List (String × Option ParamSchema) → EditorState P → EditorState P
  set_step_schemas schemas s = record s { step_schemas = schemas; scheduled = true }

  unfoldable pub set_token_decimals : List (String × ℕ) → EditorState P → EditorState P
  set_token_decimals decimals s = record s { token_decimals = decimals; scheduled = true }

  unfoldable pub set_vault_address : String → EditorState P → EditorState P
  set_vault_address address s = record s { vault_address = address }
