-- ===== src/Store/Actions/Reverted.antt =====
-- Undo takes an edit of the graph back.
use strategy_builder_v.Prelude.{
  ℕ, String, some, List, [], ◌∷◌, ◌≡◌, ◌⊎◌, inl, inr, refl, ap, ◌∙◌, any, Option, Bool, true, false,
  none,
}
use strategy_builder_v.Store.{FlowNode, FlowEdge, Snapshot, EditorState}
use strategy_builder_v.Store.History.{push_snapshot, undo}
use strategy_builder_v.Store.History.Laws.{undo-pushed}
use strategy_builder_v.Store.Edits.{
  on_connect, add_node, remove_selected, remove_ids, selected_nodes, selected_edges,
  update_node_params, paste, paste_clip, paste_nodes, apply_auto_layout,
}
use strategy_builder_v.Store.Actions.{Action, act}
use strategy_builder_v.Store.Steps.{
  show_selected, mark_structural, mark_dropped, is_drop, is_structural, selected_of,
  on_nodes_change,
}

-- Something is selected.
abbrev IsSome : {A : Type 0} → List A → Type 0
IsSome xs = ¬ (xs ≡ [])

-- The edits that the history knows: a connection, a new node, new parameters, the layout, the end of a drag, the
-- removal of what is selected and the pasting of what was copied; the last two where there is something.
abbrev pub IsEdit : {P : Type 0} → Action P → EditorState P → Type 0
IsEdit (Action.connect add_edge c) s = Unit
IsEdit (Action.add now step position) s = Unit
IsEdit (Action.update_params id params) s = Unit
IsEdit (Action.lay_out layout) s = Unit
IsEdit (Action.change_nodes apply changes) s = any is_drop changes ≡ true
IsEdit Action.remove s = IsSome (selected_nodes s.nodes) ⊎ IsSome (selected_edges s.edges)
IsEdit (Action.paste_copy shift now) s =
    (clip : Snapshot _) × (s.clipboard ≡ some clip) × IsSome clip.nodes
IsEdit _ s = ⊥

-- The nodes that undo goes back to. The snapshot of a drag is taken when React Flow has moved the nodes already.
abbrev pub nodes_before : {P : Type 0} → Action P → EditorState P → List (FlowNode P)
nodes_before (Action.change_nodes apply changes) s = apply s.nodes
nodes_before _ s = s.nodes

module _ {P : Type 0} where
  show_selected-graph :
      (o : Option String) (s : EditorState P)
      → ((show_selected o s).nodes ≡ s.nodes) × ((show_selected o s).edges ≡ s.edges)
  unfolding show_selected
  show_selected-graph none s = (refl, refl)
  show_selected-graph (some id) s = (refl, refl)

  mark_structural-graph :
      (b : Bool) (s : EditorState P)
      → ((mark_structural b s).nodes ≡ s.nodes) × ((mark_structural b s).edges ≡ s.edges)
  unfolding mark_structural
  mark_structural-graph true s = (refl, refl)
  mark_structural-graph false s = (refl, refl)

  undo-dropped :
      (s : EditorState P)
      → ((undo (mark_dropped true s)).nodes ≡ s.nodes)
        × ((undo (mark_dropped true s)).edges ≡ s.edges)
  unfolding mark_dropped
  undo-dropped s = undo-pushed (record s { is_dirty = true }) _ refl

  remove_ids-past :
      (ns es : List String) (s : EditorState P)
      → IsSome ns ⊎ IsSome es
      → (remove_ids ns es s).past ≡ (push_snapshot s).past
  unfolding remove_ids
  remove_ids-past [] [] s h = absurd (elim h [ inl a ↦ a refl | inr b ↦ b refl ])
  remove_ids-past [] (e ∷ es) s h = refl
  remove_ids-past (n ∷ ns) es s h = refl

  paste_nodes-past :
      (shift : P → P) (now : ℕ) (ns : List (FlowNode P)) (es : List FlowEdge) (s : EditorState P)
      → IsSome ns
      → (paste_nodes shift now ns es s).past ≡ (push_snapshot s).past
  unfolding paste_nodes
  paste_nodes-past shift now [] es s h = absurd (h refl)
  paste_nodes-past shift now (n ∷ ns) es s h = refl

  -- Undo after an edit gives the edges back as they were before it, and the nodes too; but after the end of a
  -- drag it leaves the nodes where they were dragged to.
  pub undo-act :
      (a : Action P) (s : EditorState P)
      → IsEdit a s
      → ((undo (act a s)).nodes ≡ nodes_before a s) × ((undo (act a s)).edges ≡ s.edges)
  unfolding on_connect add_node remove_selected update_node_params paste paste_clip
      apply_auto_layout on_nodes_change
  undo-act (Action.change_nodes apply changes) s h =
      let shown = show_selected (selected_of changes) (record s { nodes = apply s.nodes }) in
      let marked = mark_structural (any is_structural changes) shown in
      let (nodes, edges) = undo-dropped marked in
      let (ns, es) = mark_structural-graph (any is_structural changes) shown in
      let (ns', es') =
        show_selected-graph (selected_of changes) (record s { nodes = apply s.nodes }) in
      (
        ap (λ b. (undo (mark_dropped b marked)).nodes) h ∙ nodes ∙ ns ∙ ns',
        ap (λ b. (undo (mark_dropped b marked)).edges) h ∙ edges ∙ es ∙ es',
      )
  undo-act (Action.connect add_edge c) s h = undo-pushed s _ refl
  undo-act (Action.add now step position) s h = undo-pushed s _ refl
  undo-act (Action.update_params id params) s h = undo-pushed s _ refl
  undo-act (Action.lay_out layout) s h = undo-pushed s _ refl
  undo-act Action.remove s h =
      undo-pushed s _ (remove_ids-past (selected_nodes s.nodes) (selected_edges s.edges) s h)
  undo-act (Action.paste_copy shift now) s (clip, there, full) = undo-pushed s _ (
      ap (λ o. (paste_clip shift now o s).past) there
      ∙ paste_nodes-past shift now clip.nodes clip.edges s full)
  undo-act _ s h = absurd h
