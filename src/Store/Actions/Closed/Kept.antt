-- ===== src/Store/Actions/Closed/Kept.antt =====
-- Steps of the store that keep the graph of the editor closed.
use strategy_builder_v.Prelude.{
  ℕ, String, Option, none, some, List, [], ◌∷◌, ◌++◌, Bool, true, false, ◌≡◌, refl, All, Bool-cases,
  inl, inr, ltb, length, All-append, subst, any,
}
use strategy_builder_v.Prelude.Names.{mem}
use strategy_builder_v.Prelude.Result.{Result, ok, err}
use strategy_builder_v.Graph.Connect.{ConnectError}
use strategy_builder_v.Graph.Validate.{ValidationError}
use strategy_builder_v.Store.{FlowNode, FlowEdge, Snapshot, EditorState}
use strategy_builder_v.Store.History.{
  max_history, push_snapshot, top_of, but_last, shifted, snapshot, undo_to, redo_to,
}
use strategy_builder_v.Store.Edits.{remove_ids, copy_nodes, paste_clip, paste_nodes}
use strategy_builder_v.Store.Validation.{ValidateParams, run_validation, validated}
use strategy_builder_v.Store.Steps.{Change, show_selected, mark_structural, mark_dropped}
use strategy_builder_v.Store.Actions.{Action}
use strategy_builder_v.Store.Actions.Closed.{
  ids_of, IsClosedGraph, IsClosedClip, IsClosed, touches, KeepsEnds, removes,
}
use strategy_builder_v.Store.Actions.Closed.Graphs.{
  IsClosedGraph-removed, IsClosedGraph-pasted, IsClosedGraph-copied,
}

-- React Flow's addEdge adds an edge with these ends, or it leaves the edges as they are.
abbrev pub IsAddEdge : (FlowEdge → List FlowEdge → List FlowEdge) → Type 0
IsAddEdge add_edge =
    (e : FlowEdge) (edges : List FlowEdge) → KeepsEnds (e ∷ edges) (add_edge e edges)

-- React Flow's applyNodeChanges takes away only the nodes that a change removes.
abbrev pub IsNodeChange :
    {P : Type 0} → (List (FlowNode P) → List (FlowNode P)) → List Change → Type 0
IsNodeChange {P} apply changes =
    (nodes : List (FlowNode P)) (id : String)
    → mem id (ids_of nodes) ≡ true
    → removes id changes ≡ false
    → mem id (ids_of (apply nodes)) ≡ true

-- What an action gets from outside is sound: applyNodeChanges, applyEdgeChanges and addEdge do as they say, where
-- no edge is added by a change; before React Flow removes a node it removes the edges at it; a connection is
-- drawn between nodes; a loaded graph is closed.
abbrev pub IsTame : {P : Type 0} → Action P → EditorState P → Type 0
IsTame (Action.change_nodes apply changes) s =
    IsNodeChange apply changes
    × ((id : String) → removes id changes ≡ true → any (touches id) s.edges ≡ false)
IsTame (Action.change_edges apply changes) s =
    (edges : List FlowEdge) → KeepsEnds edges (apply edges)
IsTame (Action.connect add_edge c) s =
    IsAddEdge add_edge
    × (mem c.source (ids_of s.nodes) ≡ true)
    × (mem c.target (ids_of s.nodes) ≡ true)
IsTame (Action.load nodes edges l d) s = IsClosedGraph nodes edges
IsTame _ s = Unit

module _ {A : Type 0} (Q : A → Type 0) where
  All-shifted : (xs : List A) → All Q xs → All Q (shifted xs)
  All-shifted [] h = h
  All-shifted (x ∷ xs) h = elim (Bool-cases (ltb max_history (length (x ∷ xs)))) [
    | inl many ↦ rw many h.1
    | inr few ↦ rw few h
  ]

  All-top_of : (xs : List A) (x : A) → top_of xs ≡ some x → All Q xs → Q x
  unfolding top_of
  All-top_of [] x h k = absurd (cc)
  All-top_of (y ∷ []) x h k = subst Q (cc (h)) k.0
  All-top_of (y ∷ z ∷ xs) x h k = All-top_of (z ∷ xs) x h k.1

  All-but_last : (xs : List A) → All Q xs → All Q (but_last xs)
  unfolding but_last
  All-but_last [] k = k
  All-but_last (y ∷ []) k = tt
  All-but_last (y ∷ z ∷ xs) k = (k.0, All-but_last (z ∷ xs) k.1)

module _ {P : Type 0} where
  abbrev IsClosedSnapshot : Snapshot P → Type 0
  IsClosedSnapshot p = IsClosedGraph p.nodes p.edges

  -- A step that pushes a snapshot and replaces the graph.
  pub IsClosed-pushed :
      (s t : EditorState P)
      → IsClosed s
      → t.past ≡ shifted (s.past ++ snapshot s ∷ [])
      → t.future ≡ []
      → t.clipboard ≡ s.clipboard
      → IsClosedGraph t.nodes t.edges
      → IsClosed t
  IsClosed-pushed s t c past future clip graph = record {
    graph = graph;
    past = rw past (
        All-shifted IsClosedSnapshot (s.past ++ snapshot s ∷ [])
          (All-append IsClosedSnapshot s.past (snapshot s ∷ []) c.past (c.graph, tt)));
    future = rw future tt;
    clip = rw clip c.clip;
  }

  -- A step that changes none of what the property is about.
  pub IsClosed-same :
      (s t : EditorState P)
      → IsClosed s
      → t.past ≡ s.past
      → t.future ≡ s.future
      → t.clipboard ≡ s.clipboard
      → t.nodes ≡ s.nodes
      → t.edges ≡ s.edges
      → IsClosed t
  IsClosed-same s t c past future clip nodes edges = record {
    graph = rw (nodes, edges) c.graph;
    past = rw past c.past;
    future = rw future c.future;
    clip = rw clip c.clip;
  }

  pub undo_to-IsClosed :
      (o : Option (Snapshot P)) (s : EditorState P)
      → top_of s.past ≡ o
      → IsClosed s
      → IsClosed (undo_to o s)
  unfolding undo_to
  undo_to-IsClosed none s h c = c
  undo_to-IsClosed (some prev) s h c = record {
    graph = All-top_of IsClosedSnapshot s.past prev h c.past;
    past = All-but_last IsClosedSnapshot s.past c.past;
    future = All-append IsClosedSnapshot s.future (snapshot s ∷ []) c.future (c.graph, tt);
    clip = c.clip;
  }

  pub redo_to-IsClosed :
      (o : Option (Snapshot P)) (s : EditorState P)
      → top_of s.future ≡ o
      → IsClosed s
      → IsClosed (redo_to o s)
  unfolding redo_to
  redo_to-IsClosed none s h c = c
  redo_to-IsClosed (some next) s h c = record {
    graph = All-top_of IsClosedSnapshot s.future next h c.future;
    future = All-but_last IsClosedSnapshot s.future c.future;
    past = All-append IsClosedSnapshot s.past (snapshot s ∷ []) c.past (c.graph, tt);
    clip = c.clip;
  }

  pub remove_ids-IsClosed :
      (ns es : List String) (s : EditorState P) → IsClosed s → IsClosed (remove_ids ns es s)
  unfolding remove_ids push_snapshot
  remove_ids-IsClosed [] [] s c = c
  remove_ids-IsClosed [] (e ∷ es) s c =
      IsClosed-pushed s _ c refl refl refl
        (IsClosedGraph-removed [] (e ∷ es) s.nodes s.edges c.graph)
  remove_ids-IsClosed (n ∷ ns) es s c =
      IsClosed-pushed s _ c refl refl refl
        (IsClosedGraph-removed (n ∷ ns) es s.nodes s.edges c.graph)

  pub copy_nodes-IsClosed :
      (ns : List (FlowNode P)) (s : EditorState P) → IsClosed s → IsClosed (copy_nodes ns s)
  unfolding copy_nodes
  copy_nodes-IsClosed [] s c = c
  copy_nodes-IsClosed (n ∷ ns) s c = record {
    graph = c.graph;
    past = c.past;
    future = c.future;
    clip = IsClosedGraph-copied (n ∷ ns) s.edges;
  }

  paste_nodes-IsClosed :
      (shift : P → P) (now : ℕ) (ns : List (FlowNode P)) (es : List FlowEdge) (s : EditorState P)
      → IsClosedGraph ns es
      → IsClosed s
      → IsClosed (paste_nodes shift now ns es s)
  unfolding paste_nodes push_snapshot
  paste_nodes-IsClosed shift now [] es s k c = c
  paste_nodes-IsClosed shift now (n ∷ ns) es s k c =
      IsClosed-pushed s _ c refl refl refl
        (IsClosedGraph-pasted shift _ s.nodes (n ∷ ns) s.edges es c.graph k)

  pub paste_clip-IsClosed :
      (shift : P → P) (now : ℕ) (o : Option (Snapshot P)) (s : EditorState P)
      → IsClosedClip o
      → IsClosed s
      → IsClosed (paste_clip shift now o s)
  unfolding paste_clip
  paste_clip-IsClosed shift now none s k c = c
  paste_clip-IsClosed shift now (some clip) s k c =
      paste_nodes-IsClosed shift now clip.nodes clip.edges s k c

  pub show_selected-IsClosed :
      (o : Option String) (s : EditorState P) → IsClosed s → IsClosed (show_selected o s)
  unfolding show_selected
  show_selected-IsClosed none s c = c
  show_selected-IsClosed (some id) s c = IsClosed-same s _ c refl refl refl refl refl

  pub mark_structural-IsClosed :
      (b : Bool) (s : EditorState P) → IsClosed s → IsClosed (mark_structural b s)
  unfolding mark_structural
  mark_structural-IsClosed true s c = IsClosed-same s _ c refl refl refl refl refl
  mark_structural-IsClosed false s c = c

  pub mark_dropped-IsClosed :
      (b : Bool) (s : EditorState P) → IsClosed s → IsClosed (mark_dropped b s)
  unfolding mark_dropped push_snapshot
  mark_dropped-IsClosed true s c = IsClosed-pushed s _ c refl refl refl c.graph
  mark_dropped-IsClosed false s c = c

  validated-IsClosed :
      (b : Bool) (es : List ValidationError) (r : Result ConnectError (List ValidationError))
      (s : EditorState P)
      → IsClosed s
      → IsClosed (validated b es r s)
  unfolding validated
  validated-IsClosed b es (err e) s c = c
  validated-IsClosed b es (ok errors) s c = IsClosed-same s _ c refl refl refl refl refl

  pub run_validation-IsClosed :
      (v : ValidateParams) (s : EditorState P) → IsClosed s → IsClosed (run_validation v s)
  unfolding run_validation
  run_validation-IsClosed v s c = validated-IsClosed _ _ _ s c
