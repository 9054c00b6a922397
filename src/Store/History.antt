-- ===== src/Store/History.antt =====
-- Undo and redo of editor-store.ts. A copy of a value is the value.
pub mod Laws
use strategy_builder_v.Prelude.{
  ℕ, zero, suc, String, Option, none, some, List, [], ◌∷◌, ◌++◌, Bool, true, false, length, drop,
  ltb, if◌then◌else◌,
}
use strategy_builder_v.Store.{Snapshot, EditorState}

abbrev pub max_history : ℕ
max_history = 50

-- The last element, and the list without it: `xs[xs.length - 1]` and `xs.slice(0, -1)`.
unfoldable pub top_of : {A : Type 0} → List A → Option A
top_of [] = none
top_of (x ∷ []) = some x
top_of (x ∷ y ∷ xs) = top_of (y ∷ xs)

unfoldable pub but_last : {A : Type 0} → List A → List A
but_last [] = []
but_last (x ∷ []) = []
but_last (x ∷ y ∷ xs) = x ∷ but_last (y ∷ xs)

-- `if (list.length > MAX_HISTORY) list.shift()`
abbrev pub shifted : {A : Type 0} → List A → List A
shifted xs = if ltb max_history (length xs) then drop 1 xs else xs

module _ {P : Type 0} where
  abbrev pub snapshot : EditorState P → Snapshot P
  snapshot s = record { nodes = s.nodes; edges = s.edges }

  unfoldable pub push_snapshot : EditorState P → EditorState P
  push_snapshot s = record s { past = shifted (s.past ++ snapshot s ∷ []); future = [] }

  unfoldable pub undo_to : Option (Snapshot P) → EditorState P → EditorState P
  unfolding but_last
  undo_to none s = s
  undo_to (some prev) s = record s {
    past = but_last s.past;
    future = s.future ++ snapshot s ∷ [];
    nodes = prev.nodes;
    edges = prev.edges;
    is_dirty = true;
    scheduled = true;
  }

  unfoldable pub undo : EditorState P → EditorState P
  unfolding undo_to top_of
  undo s = undo_to (top_of s.past) s

  unfoldable pub redo_to : Option (Snapshot P) → EditorState P → EditorState P
  unfolding but_last
  redo_to none s = s
  redo_to (some next) s = record s {
    future = but_last s.future;
    past = s.past ++ snapshot s ∷ [];
    nodes = next.nodes;
    edges = next.edges;
    is_dirty = true;
    scheduled = true;
  }

  unfoldable pub redo : EditorState P → EditorState P
  unfolding redo_to top_of
  redo s = redo_to (top_of s.future) s
