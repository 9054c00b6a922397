-- ===== src/Mcp/Drafts/Once.antt =====
-- A draft is deployed as it was proposed, and at most once.
use strategy_builder_v.Prelude.{
  ℕ, ◌+◌, ◌≤◌, String, none, some, List, [], ◌∷◌, ltb, if◌then◌else◌, ◌≡◌, ◌≢◌, arith, ◌⊎◌,
}
use strategy_builder_v.Mcp.Drafts.{Entry, DraftStore, map_get, map_delete, create, get, consume}
use text.Mathlib.Text.{◌==◌}
use text.Mathlib.TextEquality.{eq_iff}
use text.Mathlib.TextPositions.{eq_refl}

-- What the server does with its store.
pub data Op (D : Type 0) : Type 0 where
  creates : (id : String) (now : ℕ) (draft : D) → Op D
  gets : (id : String) (now : ℕ) → Op D
  consumes : (id : String) (now : ℕ) → Op D

module _ {D : Type 0} where
  abbrev pub step : Op D → DraftStore D → DraftStore D
  step (creates id now draft) s = create id now draft s
  step (gets id now) s = (get id now s).1
  step (consumes id now) s = (consume id now s).1

  abbrev pub run : List (Op D) → DraftStore D → DraftStore D
  run [] s = s
  run (op ∷ ops) s = run ops (step op s)

  -- No operation of the list creates a draft under `id`.
  abbrev pub Uncreated : String → List (Op D) → Type 0
  Uncreated id [] = Unit
  Uncreated id (creates j now draft ∷ ops) = (j ≢ id) × Uncreated id ops
  Uncreated id (_ ∷ ops) = Uncreated id ops

  map_get-map_delete :
      (id j : String) (m : List (String × Entry D))
      → map_get j (map_delete id m) ≡ (if id == j then none else map_get j m)
  unfolding map_get map_delete
  map_get-map_delete id j [] = ground arith
  map_get-map_delete id j ((k, e) ∷ m) =
      ground (arith, map_get-map_delete id j m, eq_iff k id, eq_iff k j, eq_iff id j)

  -- Once a name is gone from the store, it stays away until it is created again.
  get-none :
      (id j : String) (now : ℕ) (s : DraftStore D)
      → map_get j s.map ≡ none
      → map_get j (get id now s).1.map ≡ none
  unfolding get
  get-none id j now s h = ground (arith, map_get-map_delete id j s.map)

  consume-none :
      (id j : String) (now : ℕ) (s : DraftStore D)
      → map_get j s.map ≡ none
      → map_get j (consume id now s).1.map ≡ none
  unfolding consume
  consume-none id j now s h =
      ground (arith, map_get-map_delete id j s.map, map_get-map_delete id j (map_delete id s.map))

  run-none :
      (j : String) (ops : List (Op D)) (s : DraftStore D)
      → Uncreated j ops
      → map_get j s.map ≡ none
      → map_get j (run ops s).map ≡ none
  unfolding create map_get
  run-none j [] s u h = h
  run-none j (creates id now d ∷ ops) s u h =
      run-none j ops (create id now d s) u.1
        (ground (arith, map_get-map_delete id j s.map, eq_iff id j, u.0))
  run-none j (gets id now ∷ ops) s u h = run-none j ops _ u (get-none id j now s h)
  run-none j (consumes id now ∷ ops) s u h = run-none j ops _ u (consume-none id j now s h)

  pub consumed-none :
      (id : String) (now : ℕ) (s : DraftStore D) → map_get id (consume id now s).1.map ≡ none
  unfolding consume
  consumed-none id now s = ground (arith, map_get-map_delete id id s.map, eq_refl id)

  consume_of_none :
      (id : String) (later : ℕ) (s : DraftStore D)
      → map_get id s.map ≡ none
      → (consume id later s).0 ≡ none
  unfolding consume
  consume_of_none id later s h = ground arith

  -- After `consume` of an id, whatever it returned, `consume` of that id returns nothing, at any
  -- time and after any operations that do not create a draft under that id.
  pub consume_once :
      (id : String) (now later : ℕ) (ops : List (Op D)) (s : DraftStore D)
      → Uncreated id ops
      → (consume id later (run ops (consume id now s).1)).0 ≡ none
  consume_once id now later ops s u =
      consume_of_none id later (run ops (consume id now s).1)
        (run-none id ops (consume id now s).1 u (consumed-none id now s))

  -- The operations leave the draft under `id` alone, if it is alive until `deadline`.
  abbrev pub Undisturbed : String → ℕ → List (Op D) → Type 0
  Undisturbed id deadline [] = Unit
  Undisturbed id deadline (creates j now draft ∷ ops) = (j ≢ id) × Undisturbed id deadline ops
  Undisturbed id deadline (gets j now ∷ ops) =
      ((j ≢ id) ⊎ (now ≤ deadline)) × Undisturbed id deadline ops
  Undisturbed id deadline (consumes j now ∷ ops) = (j ≢ id) × Undisturbed id deadline ops

  get-kept :
      (j id : String) (now : ℕ) (s : DraftStore D) (e : Entry D)
      → (j ≢ id) ⊎ (now ≤ e.expires_at)
      → map_get id s.map ≡ some e
      → map_get id (get j now s).1.map ≡ some e
  unfolding get
  get-kept j id now s e c h = ground (arith, map_get-map_delete j id s.map, eq_iff j id)

  consume-kept :
      (j id : String) (now : ℕ) (s : DraftStore D) (e : Entry D)
      → j ≢ id
      → map_get id s.map ≡ some e
      → map_get id (consume j now s).1.map ≡ some e
  unfolding consume
  consume-kept j id now s e c h = ground (arith, map_get-map_delete j id s.map, eq_iff j id)

  run-kept :
      (id : String) (ops : List (Op D)) (s : DraftStore D) (e : Entry D)
      → Undisturbed id e.expires_at ops
      → map_get id s.map ≡ some e
      → map_get id (run ops s).map ≡ some e
  unfolding create map_get
  run-kept id [] s e u h = h
  run-kept id (creates j now d ∷ ops) s e u h =
      run-kept id ops (create j now d s) e u.1
        (ground (arith, map_get-map_delete j id s.map, eq_iff j id, u.0))
  run-kept id (gets j now ∷ ops) s e u h = run-kept id ops _ e u.1 (get-kept j id now s e u.0 h)
  run-kept id (consumes j now ∷ ops) s e u h =
      run-kept id ops _ e u.1 (consume-kept j id now s e u.0 h)

  created-entry :
      (id : String) (now : ℕ) (draft : D) (s : DraftStore D)
      → map_get id (create id now draft s).map
        ≡ some (record { draft = draft; expires_at = now + s.ttl_ms })
  unfolding create map_get
  created-entry id now draft s = ground (arith, eq_refl id)

  consume_of_some :
      (id : String) (later : ℕ) (s : DraftStore D) (e : Entry D)
      → map_get id s.map ≡ some e
      → (consume id later s).0 ≡ (if ltb e.expires_at later then none else some e.draft)
  unfolding consume
  consume_of_some id later s e h = ground arith

  -- A draft that was created is what `consume` of its id returns, unchanged, up to the end of its time
  -- to live, and nothing after that; whatever is done in between under other ids, and however often
  -- the draft is read in its lifetime.
  pub consume-create :
      (id : String) (now later : ℕ) (draft : D) (ops : List (Op D)) (s : DraftStore D)
      → Undisturbed id (now + s.ttl_ms) ops
      → (consume id later (run ops (create id now draft s))).0
        ≡ (if ltb (now + s.ttl_ms) later then none else some draft)
  consume-create id now later draft ops s u =
      consume_of_some id later (run ops (create id now draft s)) _
        (run-kept id ops (create id now draft s) _ u (created-entry id now draft s))
