-- ===== src/Store/Edits.antt =====
-- What the user does to the graph, in editor-store.ts. React Flow's addEdge, the layout of dagre and the move
-- of a position by 50 are arguments, and so is the clock.
use strategy_builder_v.Prelude.{
  ℕ, ◌+◌, String, Option, none, some, List, [], ◌∷◌, ◌++◌, true, false, not, ◌&&◌, map, filter,
  find, if◌then◌else◌,
}
use strategy_builder_v.Prelude.Names.{mem, map_get, set_key}
use strategy_builder_v.Prelude.Strings.{concat, decimal}
use strategy_builder_v.Graph.{StepCategory, condition, Handle, on_true, on_false, out}
use strategy_builder_v.Shared.Schema.{Params}
use strategy_builder_v.Store.{StepTypeOption, FlowEdge, FlowNode, Snapshot, EditorState}
use strategy_builder_v.Store.Defaults.{materialize_default_params}
use strategy_builder_v.Store.History.{push_snapshot}
use text.Mathlib.Text.{◌==◌}

-- The connection that the user draws.
pub record FlowConnection : Type 0 where
  pub source : String
  pub target : String
  pub source_handle : Option Handle

handle_text : Option Handle → String
handle_text none = "null"
handle_text (some on_true) = "true"
handle_text (some on_false) = "false"
handle_text (some out) = "out"

-- The label and the colour of an edge, by the type of the node it leaves.
edge_look : Option StepCategory → Option Handle → String × String
edge_look (some condition) (some on_true) = ("True", "#22c55e")
edge_look (some condition) (some on_false) = ("False", "#ef4444")
edge_look _ _ = ("Next", "#9ca3af")

-- `{ ...params, ...updates }`
abbrev pub overlay : Params → Params → Params
overlay params [] = params
overlay params ((name, value) ∷ updates) = overlay (set_key name value params) updates

abbrev pub or_same : Option String → String → String
or_same none id = id
or_same (some new) id = new

-- The ids of the selected edges.
abbrev pub selected_edges : List FlowEdge → List String
selected_edges edges = map (λ e. e.id) (filter (λ e. e.selected) edges)

abbrev pub pasted_edges : String → List (String × String) → List FlowEdge → List FlowEdge
pasted_edges suffix ids edges =
    map
      (λ (e : FlowEdge). record e {
        id = concat e.id suffix;
        source = or_same (map_get e.source ids) e.source;
        target = or_same (map_get e.target ids) e.target;
      })
      edges

module _ {P : Type 0} where
  category_of : Option (FlowNode P) → Option StepCategory
  category_of none = none
  category_of (some n) = n.category

  unfoldable pub drawn_edge : FlowConnection → List (FlowNode P) → FlowEdge
  unfolding handle_text edge_look category_of
  drawn_edge c nodes =
      let (label, stroke) =
        edge_look (category_of (find (λ n. n.id == c.source) nodes)) c.source_handle in
      record {
        id = concat "e-" (
            concat c.source
              (concat "-" (concat (handle_text c.source_handle) (concat "-" c.target))));
        source = c.source;
        target = c.target;
        source_handle = c.source_handle;
        label = some label;
        stroke = some stroke;
        selected = false;
      }

  unfoldable pub on_connect :
      (FlowEdge → List FlowEdge → List FlowEdge) → FlowConnection → EditorState P → EditorState P
  unfolding push_snapshot drawn_edge
  on_connect add_edge c state =
      let s = push_snapshot state in
      record s {
        edges = add_edge (drawn_edge c s.nodes) s.edges;
        is_dirty = true;
        scheduled = true;
      }

  unfoldable pub new_node : ℕ → String → StepTypeOption → P → String → FlowNode P
  unfolding materialize_default_params
  new_node now id step position vault = record {
    id = id;
    category = some step.category;
    position = position;
    selected = false;
    info = record {
      step_type_id = step.id;
      step_type_name = step.name;
      category = step.category;
      contract_address = step.contract_address;
      selector = step.selector;
      params = materialize_default_params now step.param_schema id (some vault);
    };
  }

  unfoldable pub add_node : ℕ → StepTypeOption → P → EditorState P → EditorState P
  unfolding push_snapshot new_node
  add_node now step position state =
      let s = push_snapshot state in
      let count = s.node_counter + 1 in
      record s {
        node_counter = count;
        nodes =
            s.nodes
            ++ new_node now (concat "node-" (decimal count)) step position s.vault_address ∷ [];
        is_dirty = true;
        scheduled = true;
      }

  -- The ids of the selected nodes.
  abbrev pub selected_nodes : List (FlowNode P) → List String
  selected_nodes nodes = map (λ n. n.id) (filter (λ n. n.selected) nodes)

  unfoldable pub remove_ids : List String → List String → EditorState P → EditorState P
  unfolding push_snapshot
  remove_ids [] [] s = s
  remove_ids node_ids edge_ids state =
      let s = push_snapshot state in
      record s {
        nodes = filter (λ n. not (mem n.id node_ids)) s.nodes;
        edges =
            filter
              (λ e.
                not (mem e.id edge_ids)
                && (not (mem e.source node_ids) && not (mem e.target node_ids)))
              s.edges;
        selected_node_id = none;
        is_dirty = true;
        scheduled = true;
      }

  unfoldable pub remove_selected : EditorState P → EditorState P
  unfolding remove_ids
  remove_selected s = remove_ids (selected_nodes s.nodes) (selected_edges s.edges) s

  unfoldable pub with_params : String → Params → FlowNode P → FlowNode P
  with_params node_id params n =
      if n.id == node_id
      then record n { info = record n.info { params = overlay n.info.params params } }
      else n

  unfoldable pub update_node_params : String → Params → EditorState P → EditorState P
  unfolding push_snapshot with_params
  update_node_params node_id params state =
      let s = push_snapshot state in
      record s {
        nodes = map (with_params node_id params) s.nodes;
        is_dirty = true;
        scheduled = true;
      }

  unfoldable pub copy_nodes : List (FlowNode P) → EditorState P → EditorState P
  copy_nodes [] s = s
  copy_nodes (n ∷ chosen) s =
      let ids = map (λ n. n.id) (n ∷ chosen) in
      record s {
        clipboard = some (record {
          nodes = n ∷ chosen;
          edges = filter (λ e. mem e.source ids && mem e.target ids) s.edges;
        });
      }

  unfoldable pub copy_selected : EditorState P → EditorState P
  unfolding copy_nodes
  copy_selected s = copy_nodes (filter (λ n. n.selected) s.nodes) s

  unfoldable pub pasted_nodes : (P → P) → String → List (FlowNode P) → List (FlowNode P)
  pasted_nodes shift suffix nodes =
      map
        (λ (n : FlowNode P). record n {
          id = concat n.id suffix;
          position = shift n.position;
          selected = true;
        })
        nodes

  -- `idMap`
  abbrev pub id_map : String → List (FlowNode P) → List (String × String)
  id_map suffix nodes = map (λ n. (n.id, concat n.id suffix)) nodes

  unfoldable pub paste_nodes :
      (P → P) → ℕ → List (FlowNode P) → List FlowEdge → EditorState P → EditorState P
  unfolding push_snapshot pasted_nodes
  paste_nodes shift now [] edges s = s
  paste_nodes shift now (n ∷ nodes) edges state =
      let s = push_snapshot state in
      let suffix = concat "-copy-" (decimal now) in
      record s {
        nodes =
            map (λ (m : FlowNode P). record m { selected = false }) s.nodes
            ++ pasted_nodes shift suffix (n ∷ nodes);
        edges = s.edges ++ pasted_edges suffix (id_map suffix (n ∷ nodes)) edges;
        is_dirty = true;
        scheduled = true;
      }

  unfoldable pub paste_clip : (P → P) → ℕ → Option (Snapshot P) → EditorState P → EditorState P
  unfolding paste_nodes
  paste_clip shift now none s = s
  paste_clip shift now (some clip) s = paste_nodes shift now clip.nodes clip.edges s

  unfoldable pub paste : (P → P) → ℕ → EditorState P → EditorState P
  unfolding paste_clip
  paste shift now s = paste_clip shift now s.clipboard s

  abbrev pub or_position : Option P → P → P
  or_position none p = p
  or_position (some q) p = q

  -- `posMap`, as the layout gives it.
  unfoldable pub apply_auto_layout :
      (List (FlowNode P) → List FlowEdge → List (String × P)) → EditorState P → EditorState P
  unfolding push_snapshot
  apply_auto_layout layout state =
      let s = push_snapshot state in
      let positions = layout s.nodes s.edges in
      record s {
        nodes =
            map
              (λ (n : FlowNode P). record n {
                position = or_position (map_get n.id positions) n.position;
              })
              s.nodes;
        is_dirty = true;
      }
