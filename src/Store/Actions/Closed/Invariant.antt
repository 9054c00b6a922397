-- ===== src/Store/Actions/Closed/Invariant.antt =====
-- Every action keeps the graph of the editor closed.
use strategy_builder_v.Prelude.{
  String, List, [], ◌∷◌, ◌++◌, true, ◌≡◌, refl, any, filter, Bool-cases, inl, inr,
}
use strategy_builder_v.Prelude.Names.{mem, map_get, mem-append_left}
use strategy_builder_v.Store.{FlowNode, FlowEdge, EditorState}
use strategy_builder_v.Store.History.{push_snapshot, top_of, undo, redo}
use strategy_builder_v.Store.Edits.{
  FlowConnection, with_params, or_position, drawn_edge, on_connect, add_node, remove_selected,
  update_node_params, copy_selected, paste, apply_auto_layout,
}
use strategy_builder_v.Store.Validation.{fire_timer, set_external_errors}
use strategy_builder_v.Store.Variables.{
  merge_editor_context_variables, merge_vault_context_slots, add_context_variable,
  update_context_variable,
}
use strategy_builder_v.Store.Steps.{
  on_nodes_change, on_edges_change, selected_of, is_structural, is_drop, set_selected_node_id,
  set_label, set_description, mark_dirty, set_save_status, load_editor_state, set_active_tab,
  set_context_variables, set_step_schemas, set_token_decimals, set_vault_address,
}
use strategy_builder_v.Store.Actions.{Action, act}
use strategy_builder_v.Store.Actions.Closed.{
  touches, joins, ids_of, IsClosedGraph, IsClosed, removes,
}
use strategy_builder_v.Store.Actions.Closed.Graphs.{
  all-joins-KeepsEnds, all-joins_touched, ids_of-same, ids_of-append, id-with_params, all-joins,
}
use strategy_builder_v.Store.Actions.Closed.Kept.{
  IsTame, IsClosed-pushed, IsClosed-same, undo_to-IsClosed, redo_to-IsClosed, remove_ids-IsClosed,
  copy_nodes-IsClosed, paste_clip-IsClosed, show_selected-IsClosed, mark_structural-IsClosed,
  mark_dropped-IsClosed, run_validation-IsClosed,
}

module _ {P : Type 0} where
  joins-drawn :
      (c : FlowConnection) (ids : List String) (nodes : List (FlowNode P))
      → mem c.source ids ≡ true
      → mem c.target ids ≡ true
      → joins ids (drawn_edge c nodes) ≡ true
  unfolding drawn_edge
  joins-drawn c ids nodes h k = rw (h, k) refl

  IsClosedGraph-added :
      (nodes : List (FlowNode P)) (n : FlowNode P) (edges : List FlowEdge)
      → IsClosedGraph nodes edges
      → IsClosedGraph (nodes ++ n ∷ []) edges
  IsClosedGraph-added nodes n edges h = rw (ids_of-append nodes (n ∷ [])) (
      all-joins (ids_of nodes) (ids_of nodes ++ n.id ∷ []) edges
        (λ id m. mem-append_left id (ids_of nodes) (n.id ∷ []) m) h)

  changed-IsClosed :
      (apply : List (FlowNode P) → List (FlowNode P)) (s : EditorState P)
      → ((id : String)
          → mem id (ids_of s.nodes) ≡ true
          → any (touches id) s.edges ≡ true
          → mem id (ids_of (apply s.nodes)) ≡ true)
      → IsClosed s
      → IsClosed (record s { nodes = apply s.nodes })
  changed-IsClosed apply s tame c = record {
    graph = all-joins_touched (ids_of s.nodes) (ids_of (apply s.nodes)) s.edges tame c.graph;
    past = c.past;
    future = c.future;
    clip = c.clip;
  }

  -- A closed state: all edges join nodes of the graph, in the graph that is shown, in every snapshot and in what was
  -- copied. Every action leads from a closed state to a closed state, where React Flow's functions only select,
  -- move and remove as its changes say, a node is removed by React Flow only when no edge is left at it, a
  -- connection is drawn between nodes, and the graph that is loaded is closed.
  pub act-IsClosed :
      (a : Action P) (s : EditorState P) → IsTame a s → IsClosed s → IsClosed (act a s)
  unfolding push_snapshot undo redo on_nodes_change on_edges_change on_connect add_node
      remove_selected update_node_params copy_selected paste apply_auto_layout fire_timer
      set_external_errors set_selected_node_id set_label set_description mark_dirty set_save_status
      load_editor_state set_active_tab set_context_variables set_step_schemas set_token_decimals
      set_vault_address merge_editor_context_variables merge_vault_context_slots
      add_context_variable update_context_variable
  act-IsClosed (Action.change_nodes apply changes) s (applied, unlinked) c =
      let stays : (id : String)
          → mem id (ids_of s.nodes) ≡ true
          → any (touches id) s.edges ≡ true
          → mem id (ids_of (apply s.nodes)) ≡ true =
        λ id m t. elim (Bool-cases (removes id changes)) [
          | inl gone ↦ let none_left = unlinked id gone in absurd (cc)
          | inr kept ↦ applied s.nodes id m kept
        ] in
      mark_dropped-IsClosed (any is_drop changes) _ (
        mark_structural-IsClosed (any is_structural changes) _ (
          show_selected-IsClosed (selected_of changes) (record s { nodes = apply s.nodes })
            (changed-IsClosed apply s stays c)))
  act-IsClosed (Action.change_edges apply changes) s tame c =
      mark_structural-IsClosed (any is_structural changes) (record s { edges = apply s.edges })
        (record {
          graph =
              all-joins-KeepsEnds (ids_of s.nodes) s.edges (apply s.edges) (tame s.edges) c.graph;
          past = c.past;
          future = c.future;
          clip = c.clip;
        })
  act-IsClosed (Action.connect add_edge c) s (adds, from, to) closed =
      IsClosed-pushed s _ closed refl refl refl (
        all-joins-KeepsEnds (ids_of s.nodes) (drawn_edge c s.nodes ∷ s.edges)
          (add_edge (drawn_edge c s.nodes) s.edges) (adds (drawn_edge c s.nodes) s.edges)
          (rw (joins-drawn c (ids_of s.nodes) s.nodes from to) closed.graph))
  act-IsClosed (Action.add now step position) s tame c =
      IsClosed-pushed s _ c refl refl refl (IsClosedGraph-added s.nodes _ s.edges c.graph)
  act-IsClosed (Action.update_params id params) s tame c =
      IsClosed-pushed s _ c refl refl refl
        (rw (ids_of-same (with_params id params) s.nodes (id-with_params id params)) c.graph)
  act-IsClosed (Action.lay_out layout) s tame c = IsClosed-pushed s _ c refl refl refl (
      rw
        (ids_of-same
          (λ n. record n {
            position = or_position (map_get n.id (layout s.nodes s.edges)) n.position;
          })
          s.nodes (λ n. refl))
        c.graph)
  act-IsClosed (Action.paste_copy shift now) s tame c =
      paste_clip-IsClosed shift now s.clipboard s c.clip c
  act-IsClosed Action.remove s tame c = remove_ids-IsClosed _ _ s c
  act-IsClosed Action.push s tame c = IsClosed-pushed s _ c refl refl refl c.graph
  act-IsClosed Action.undone s tame c = undo_to-IsClosed (top_of s.past) s refl c
  act-IsClosed Action.redone s tame c = redo_to-IsClosed (top_of s.future) s refl c
  act-IsClosed Action.copy s tame c = copy_nodes-IsClosed (filter (λ n. n.selected) s.nodes) s c
  act-IsClosed (Action.load nodes edges l d) s tame c = record {
    graph = tame;
    past = tt;
    future = tt;
    clip = c.clip;
  }
  act-IsClosed (Action.validate v) s tame c = run_validation-IsClosed v s c
  act-IsClosed (Action.timer v) s tame c =
      run_validation-IsClosed v _ (IsClosed-same s _ c refl refl refl refl refl)
  act-IsClosed (Action.external_errors v errors) s tame c =
      run_validation-IsClosed v _ (IsClosed-same s _ c refl refl refl refl refl)
  act-IsClosed _ s tame c = IsClosed-same s _ c refl refl refl refl refl
