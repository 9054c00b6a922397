-- ===== src/Store/Actions/Bounded.antt =====
-- The history of the editor is bounded.
use strategy_builder_v.Prelude.{
  ℕ, ◌+◌, ◌≤◌, String, Option, none, some, List, [], ◌∷◌, Bool, true, false, length, ◌≡◌, refl, any,
  filter, arith,
}
use strategy_builder_v.Prelude.Result.{Result, ok, err}
use strategy_builder_v.Graph.Connect.{ConnectError}
use strategy_builder_v.Graph.Validate.{ValidationError}
use strategy_builder_v.Store.{FlowNode, FlowEdge, Snapshot, EditorState, initial}
use strategy_builder_v.Store.History.{max_history}
use strategy_builder_v.Store.History.Laws.{history_size, push_snapshot-bound, undo-size, redo-size}
use strategy_builder_v.Store.Edits.{
  on_connect, add_node, remove_selected, remove_ids, update_node_params, copy_selected, copy_nodes,
  paste, paste_clip, apply_auto_layout, paste_nodes,
}
use strategy_builder_v.Store.Validation.{run_validation, fire_timer, set_external_errors, validated}
use strategy_builder_v.Store.Variables.{
  merge_editor_context_variables, merge_vault_context_slots, add_context_variable,
  update_context_variable,
}
use strategy_builder_v.Store.Steps.{
  on_nodes_change, on_edges_change, show_selected, mark_structural, mark_dropped,
  set_selected_node_id, set_label, set_description, mark_dirty, set_save_status, load_editor_state,
  set_active_tab, set_context_variables, set_step_schemas, set_token_decimals, set_vault_address,
  is_structural, selected_of, is_drop,
}
use strategy_builder_v.Store.Actions.{Action, act, Reachable, opened, acted, ValidateParams}

module _ {P : Type 0} where
  show_selected-size :
      (o : Option String) (s : EditorState P) → history_size (show_selected o s) ≡ history_size s
  unfolding show_selected
  show_selected-size none s = refl
  show_selected-size (some id) s = refl

  mark_structural-size :
      (b : Bool) (s : EditorState P) → history_size (mark_structural b s) ≡ history_size s
  unfolding mark_structural
  mark_structural-size true s = refl
  mark_structural-size false s = refl

  mark_dropped-bound :
      (b : Bool) (s : EditorState P)
      → history_size s ≤ max_history
      → history_size (mark_dropped b s) ≤ max_history
  unfolding mark_dropped
  mark_dropped-bound true s h = push_snapshot-bound (record s { is_dirty = true }) h
  mark_dropped-bound false s h = h

  validated-size :
      (b : Bool) (es : List ValidationError) (r : Result ConnectError (List ValidationError))
      (s : EditorState P)
      → history_size (validated b es r s) ≡ history_size s
  unfolding validated
  validated-size b es (err e) s = refl
  validated-size b es (ok errors) s = refl

  run_validation-size :
      (v : ValidateParams) (s : EditorState P) → history_size (run_validation v s) ≡ history_size s
  unfolding run_validation
  run_validation-size v s = validated-size _ _ _ s

  remove_ids-bound :
      (ns es : List String) (s : EditorState P)
      → history_size s ≤ max_history
      → history_size (remove_ids ns es s) ≤ max_history
  unfolding remove_ids
  remove_ids-bound [] [] s h = h
  remove_ids-bound [] (e ∷ es) s h = push_snapshot-bound s h
  remove_ids-bound (n ∷ ns) es s h = push_snapshot-bound s h

  copy_nodes-size :
      (ns : List (FlowNode P)) (s : EditorState P) → history_size (copy_nodes ns s) ≡ history_size s
  unfolding copy_nodes
  copy_nodes-size [] s = refl
  copy_nodes-size (n ∷ ns) s = refl

  paste_nodes-bound :
      (shift : P → P) (now : ℕ) (ns : List (FlowNode P)) (es : List FlowEdge) (s : EditorState P)
      → history_size s ≤ max_history
      → history_size (paste_nodes shift now ns es s) ≤ max_history
  unfolding paste_nodes
  paste_nodes-bound shift now [] es s h = h
  paste_nodes-bound shift now (n ∷ ns) es s h = push_snapshot-bound s h

  paste_clip-bound :
      (shift : P → P) (now : ℕ) (o : Option (Snapshot P)) (s : EditorState P)
      → history_size s ≤ max_history
      → history_size (paste_clip shift now o s) ≤ max_history
  unfolding paste_clip
  paste_clip-bound shift now none s h = h
  paste_clip-bound shift now (some clip) s h = paste_nodes-bound shift now clip.nodes clip.edges s h

  act-bound :
      (a : Action P) (s : EditorState P)
      → history_size s ≤ max_history
      → history_size (act a s) ≤ max_history
  unfolding on_nodes_change on_edges_change on_connect add_node remove_selected update_node_params
      copy_selected paste apply_auto_layout run_validation fire_timer set_external_errors
      set_selected_node_id set_label set_description mark_dirty set_save_status load_editor_state
      set_active_tab set_context_variables set_step_schemas set_token_decimals set_vault_address
      merge_editor_context_variables merge_vault_context_slots add_context_variable
      update_context_variable
  act-bound (Action.change_nodes apply changes) s h =
      let chosen = show_selected (selected_of changes) (record s { nodes = apply s.nodes }) in
      mark_dropped-bound (any is_drop changes) (mark_structural (any is_structural changes) chosen)
        (omega (
          arith,
          h,
          mark_structural-size (any is_structural changes) chosen,
          show_selected-size (selected_of changes) (record s { nodes = apply s.nodes }),
        ))
  act-bound (Action.change_edges apply changes) s h = omega (arith, h, mark_structural-size _ _)
  act-bound (Action.connect add_edge c) s h = push_snapshot-bound s h
  act-bound (Action.add now step position) s h = push_snapshot-bound s h
  act-bound (Action.update_params id params) s h = push_snapshot-bound s h
  act-bound (Action.paste_copy shift now) s h = paste_clip-bound shift now s.clipboard s h
  act-bound (Action.lay_out layout) s h = push_snapshot-bound s h
  act-bound Action.remove s h = remove_ids-bound _ _ s h
  act-bound Action.push s h = push_snapshot-bound s h
  act-bound Action.undone s h = omega (arith, h, undo-size s)
  act-bound Action.redone s h = omega (arith, h, redo-size s)
  act-bound Action.copy s h = omega (arith, h, copy_nodes-size (filter (λ n. n.selected) s.nodes) s)
  act-bound (Action.load nodes edges l d) s h = omega arith
  act-bound (Action.validate v) s h = omega (arith, h, run_validation-size v s)
  act-bound (Action.timer v) s h =
      omega (arith, h, run_validation-size v (record s { scheduled = false }))
  act-bound (Action.external_errors v errors) s h =
      omega (arith, h, run_validation-size v (record s { external_errors = errors }))
  act-bound _ s h = h

-- In every state that the editor gets to, the snapshots to undo and those to redo are together no more than
-- MAX_HISTORY.
pub history_bounded :
    {P : Type 0} (s : EditorState P) → Reachable P s → length s.past + length s.future ≤ max_history
unfolding initial
history_bounded s opened = omega arith
history_bounded _ (acted {s} a r) = act-bound a s (history_bounded s r)
