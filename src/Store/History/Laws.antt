-- ===== src/Store/History/Laws.antt =====
-- The history that undo and redo walk along.
use strategy_builder_v.Prelude.{
  ℕ, suc, ◌+◌, ◌≤◌, Option, none, some, List, [], ◌∷◌, ◌++◌, true, length, drop, ltb, ◌≡◌, refl, ap,
  ◌∙◌, inl, inr, Bool-cases, arith, length-append,
}
use strategy_builder_v.Store.{Snapshot, EditorState}
use strategy_builder_v.Store.History.{
  max_history, top_of, but_last, shifted, snapshot, push_snapshot, undo_to, undo, redo_to, redo,
}

module _ {A : Type 0} where
  top_of-append : (xs : List A) (x : A) → top_of (xs ++ x ∷ []) ≡ some x
  unfolding top_of
  top_of-append [] x = refl
  top_of-append (y ∷ []) x = refl
  top_of-append (y ∷ z ∷ xs) x = top_of-append (z ∷ xs) x

  but_top_of-append : (xs : List A) (x : A) → but_last (xs ++ x ∷ []) ≡ xs
  unfolding but_last
  but_top_of-append [] x = refl
  but_top_of-append (y ∷ []) x = refl
  but_top_of-append (y ∷ z ∷ xs) x = ap (λ l. y ∷ l) (but_top_of-append (z ∷ xs) x)

  append-top_of : (xs : List A) (x : A) → top_of xs ≡ some x → but_last xs ++ x ∷ [] ≡ xs
  unfolding top_of but_last
  append-top_of [] x h = absurd (cc)
  append-top_of (y ∷ []) x h = ap (λ z. z ∷ []) (cc (h))
  append-top_of (y ∷ z ∷ xs) x h = ap (λ l. y ∷ l) (append-top_of (z ∷ xs) x h)

  length-but_last :
      (xs : List A) (x : A) → top_of xs ≡ some x → suc (length (but_last xs)) ≡ length xs
  length-but_last xs x h =
      omega (arith, length-append (but_last xs) (x ∷ []), ap length (append-top_of xs x h))

  drop-append : (x : A) (xs ys : List A) → drop 1 ((x ∷ xs) ++ ys) ≡ xs ++ ys
  drop-append x xs ys = refl

  -- The snapshot that was pushed last is on top, also where the oldest one was dropped.
  top_of-shifted : (xs : List A) (x : A) → top_of (shifted (xs ++ x ∷ [])) ≡ some x
  top_of-shifted [] x = top_of-append [] x
  top_of-shifted (y ∷ xs) x = elim (Bool-cases (ltb max_history (length ((y ∷ xs) ++ x ∷ [])))) [
    | inl many ↦ rw many (top_of-append xs x)
    | inr few ↦ rw few (top_of-append (y ∷ xs) x)
  ]

  length-shifted :
      (xs : List A) (x : A)
      → length xs ≤ max_history
      → length (shifted (xs ++ x ∷ [])) ≤ max_history
  length-shifted [] x h = omega arith
  length-shifted (y ∷ xs) x h = elim (Bool-cases (ltb max_history (length ((y ∷ xs) ++ x ∷ [])))) [
    | inl many ↦ rw many (omega (arith, h, length-append xs (x ∷ [])))
    | inr few ↦ rw few (ground (arith, few))
  ]

module _ {P : Type 0} where
  -- The number of snapshots.
  abbrev pub history_size : EditorState P → ℕ
  history_size s = length s.past + length s.future

  pub push_snapshot-bound :
      (s : EditorState P)
      → history_size s ≤ max_history
      → history_size (push_snapshot s) ≤ max_history
  unfolding push_snapshot
  push_snapshot-bound s h = omega (arith, length-shifted s.past (snapshot s) (omega (arith, h)))

  undo_to-size :
      (o : Option (Snapshot P)) (s : EditorState P)
      → top_of s.past ≡ o
      → history_size (undo_to o s) ≡ history_size s
  unfolding undo_to
  undo_to-size none s h = refl
  undo_to-size (some prev) s h =
      omega (arith, length-but_last s.past prev h, length-append s.future (snapshot s ∷ []))

  pub undo-size : (s : EditorState P) → history_size (undo s) ≡ history_size s
  unfolding undo
  undo-size s = undo_to-size (top_of s.past) s refl

  redo_to-size :
      (o : Option (Snapshot P)) (s : EditorState P)
      → top_of s.future ≡ o
      → history_size (redo_to o s) ≡ history_size s
  unfolding redo_to
  redo_to-size none s h = refl
  redo_to-size (some prev) s h =
      omega (arith, length-but_last s.future prev h, length-append s.past (snapshot s ∷ []))

  pub redo-size : (s : EditorState P) → history_size (redo s) ≡ history_size s
  unfolding redo
  redo-size s = redo_to-size (top_of s.future) s refl

  -- Undo goes back to the snapshot that was pushed last.
  pub undo-pushed :
      (s t : EditorState P)
      → t.past ≡ (push_snapshot s).past
      → ((undo t).nodes ≡ s.nodes) × ((undo t).edges ≡ s.edges)
  unfolding undo undo_to push_snapshot
  undo-pushed s t h =
      let top : top_of t.past ≡ some (snapshot s) =
        ap top_of h ∙ top_of-shifted s.past (snapshot s) in
      (rw top refl, rw top refl)

  -- Where something can be undone, undo and then redo only mark the state as changed and schedule a validation.
  pub redo-undo :
      (s : EditorState P) (prev : Snapshot P)
      → top_of s.past ≡ some prev
      → redo (undo s) ≡ record s { is_dirty = true; scheduled = true }
  unfolding undo undo_to redo redo_to
  redo-undo s prev h =
      rw
        (
          h,
          top_of-append s.future (snapshot s),
          but_top_of-append s.future (snapshot s),
          append-top_of s.past prev h,
        )
        refl

  -- Where something can be redone, so do redo and then undo.
  pub undo-redo :
      (s : EditorState P) (next : Snapshot P)
      → top_of s.future ≡ some next
      → undo (redo s) ≡ record s { is_dirty = true; scheduled = true }
  unfolding undo undo_to redo redo_to
  undo-redo s next h =
      rw
        (
          h,
          top_of-append s.past (snapshot s),
          but_top_of-append s.past (snapshot s),
          append-top_of s.future next h,
        )
        refl
