-- ===== src/Indexer/Tables/Keys.antt =====
-- Unique keys, and the open failures of a table.
use strategy_builder_v.Prelude.{
  ℕ, ◌+◌, ◌≤◌, String, List, [], ◌∷◌, ◌++◌, true, false, ◌||◌, map, filter, if◌then◌else◌, ◌≡◌,
  refl, ap, ◌∙◌, sym, arith, All, Bool-cases, inl, inr, append-nil, append_assoc, subst,
}
use strategy_builder_v.Indexer.Tables.{
  Key, same_key, has_key, add_new, Failure, is_open, count_open, resolved, updated_at,
}
use text.Mathlib.Text.{◌==◌}
use text.Mathlib.TextEquality.{eq_iff}
use text.Mathlib.TextPositions.{eq_refl}

-- No key stands twice.
abbrev pub HasUnique : List Key → Type 0
HasUnique [] = Unit
HasUnique (k ∷ ks) = (has_key k ks ≡ false) × HasUnique ks

pub same_key_refl : (k : Key) → same_key k k ≡ true
same_key_refl (t, i) = ground (arith, eq_refl t)

same_key-sym : (k l : Key) → same_key k l ≡ false → same_key l k ≡ false
same_key-sym (t, i) (u, j) h = ground (arith, eq_iff t u, eq_iff u t, h)

same_key→eq : (k l : Key) → same_key k l ≡ true → k ≡ l
same_key→eq (t, i) (u, j) h =
    let same : t ≡ u = (eq_iff t u).0 (ground (arith, h)) in
    let index : i ≡ j = ground (arith, h) in λ n. (same n, index n)

has_key-same : (k l : Key) (ks : List Key) → same_key k l ≡ true → has_key k ks ≡ has_key l ks
has_key-same k l ks h = ap (λ x. has_key x ks) (same_key→eq k l h)

pub has_key-append :
    (k : Key) (ks ls : List Key) → has_key k (ks ++ ls) ≡ (has_key k ks || has_key k ls)
has_key-append k [] ls = refl
has_key-append k (x ∷ ks) ls = ground (arith, has_key-append k ks ls)

HasUnique-last :
    (k : Key) (ks : List Key) → HasUnique ks → has_key k ks ≡ false → HasUnique (ks ++ k ∷ [])
HasUnique-last k [] h absent = (refl, tt)
HasUnique-last k (x ∷ ks) h absent = (
  ground (arith, has_key-append x ks (k ∷ []), same_key-sym x k, h.0, absent),
  HasUnique-last k ks h.1 (ground (arith, absent)),
)

module _ {R : Type 0} (key : R → Key) where
  pub map-append : (xs ys : List R) → map key (xs ++ ys) ≡ map key xs ++ map key ys
  map-append [] ys = refl
  map-append (x ∷ xs) ys = ap (λ l. key x ∷ l) (map-append xs ys)

  -- Only new rows are appended.
  pub add_new-kept : (new rows : List R) → (more : List R) × (add_new key new rows ≡ rows ++ more)
  add_new-kept [] rows = ([], sym (append-nil rows))
  add_new-kept (r ∷ new) rows = elim (Bool-cases (has_key (key r) (map key rows))) [
    | inl there ↦ let (more, e) = add_new-kept new rows in (more, rw there e)
    | inr absent ↦
        let (more, e) = add_new-kept new (rows ++ r ∷ []) in
        (r ∷ more, rw absent (e ∙ append_assoc rows (r ∷ []) more))
  ]

  pub has_key-kept :
      (k : Key) (new rows : List R)
      → has_key k (map key rows) ≡ true
      → has_key k (map key (add_new key new rows)) ≡ true
  has_key-kept k new rows h =
      let (more, e) = add_new-kept new rows in
      rw (e, map-append rows more, has_key-append k (map key rows) (map key more), h) refl

  -- Every row that was to be added is there.
  pub add_new-has :
      (new rows : List R) → All (λ r. has_key (key r) (map key (add_new key new rows)) ≡ true) new
  add_new-has [] rows = tt
  add_new-has (r ∷ new) rows = elim (Bool-cases (has_key (key r) (map key rows))) [
    | inl there ↦
        let same : add_new key (r ∷ new) rows ≡ add_new key new rows = rw there refl in
        subst (λ t. All (λ x. has_key (key x) (map key t) ≡ true) (r ∷ new)) (sym same)
          (has_key-kept (key r) new rows there, add_new-has new rows)
    | inr absent ↦
        let same : add_new key (r ∷ new) rows ≡ add_new key new (rows ++ r ∷ []) = rw absent refl in
        let last : has_key (key r) (map key (rows ++ r ∷ [])) ≡ true =
          rw (map-append rows (r ∷ []), has_key-append (key r) (map key rows) (key r ∷ []))
            (ground (arith, same_key_refl (key r))) in
        subst (λ t. All (λ x. has_key (key x) (map key t) ≡ true) (r ∷ new)) (sym same)
          (has_key-kept (key r) new (rows ++ r ∷ []) last, add_new-has new (rows ++ r ∷ []))
  ]

  pub add_new-HasUnique :
      (new rows : List R) → HasUnique (map key rows) → HasUnique (map key (add_new key new rows))
  add_new-HasUnique [] rows h = h
  add_new-HasUnique (r ∷ new) rows h = elim (Bool-cases (has_key (key r) (map key rows))) [
    | inl there ↦ rw there (add_new-HasUnique new rows h)
    | inr absent ↦ rw absent (
        add_new-HasUnique new (rows ++ r ∷ [])
          (rw (map-append rows (r ∷ [])) (HasUnique-last (key r) (map key rows) h absent)))
  ]

  -- Asking for the rows with one of the keys does not lose a row with such a key.
  pub has_key-filter :
      (k : Key) (ks : List Key) (rows : List R)
      → has_key k ks ≡ true
      → has_key k (map key (filter (λ r. has_key (key r) ks) rows)) ≡ has_key k (map key rows)
  has_key-filter k ks [] h = refl
  has_key-filter k ks (r ∷ rows) h = elim (Bool-cases (has_key (key r) ks)) [
    | inl there ↦ rw there (ap (λ b. same_key (key r) k || b) (has_key-filter k ks rows h))
    | inr absent ↦
        let differ : same_key (key r) k ≡ false = elim (Bool-cases (same_key (key r) k)) [
          | inr no_match ↦ no_match
          | inl match_ ↦ absurd (cc (has_key-same (key r) k ks match_, absent, h))
        ] in
        rw (absent, differ) (has_key-filter k ks rows h)
  ]

-- Rows that are open after a change were open before it.
pub count_open-updated :
    (vault : String) (automation : ℕ) (id : String) (f : Failure → Failure) (rows : List Failure)
    → ((row : Failure) → is_open vault automation (f row) ≡ is_open vault automation row)
    → count_open vault automation (map (updated_at id f) rows) ≡ count_open vault automation rows
count_open-updated vault automation id f [] h = refl
count_open-updated vault automation id f (row ∷ rows) h =
    let rest = count_open-updated vault automation id f rows h in
    elim (Bool-cases (row.id == id)) [
      | inl same ↦ rw (same, h row, rest) refl
      | inr other ↦ rw (other, rest) refl
    ]

pub count_open-append :
    (vault : String) (automation : ℕ) (rows : List Failure) (row : Failure)
    → count_open vault automation (rows ++ row ∷ [])
      ≡ count_open vault automation rows + (if is_open vault automation row then 1 else 0)
count_open-append vault automation [] row = ground arith
count_open-append vault automation (r ∷ rows) row =
    ground (arith, count_open-append vault automation rows row)

pub count_open-resolved :
    (vault : String) (automation : ℕ) (v : String) (a at : ℕ) (rows : List Failure)
    → count_open vault automation (map (resolved v a at) rows) ≤ count_open vault automation rows
count_open-resolved vault automation v a at [] = omega arith
count_open-resolved vault automation v a at (r ∷ rows) =
    ground (arith, count_open-resolved vault automation v a at rows)

-- The failures of the automation itself are all resolved.
pub count_open-resolved_zero :
    (vault : String) (automation at : ℕ) (rows : List Failure)
    → count_open vault automation (map (resolved vault automation at) rows) ≡ 0
count_open-resolved_zero vault automation at [] = refl
count_open-resolved_zero vault automation at (r ∷ rows) =
    ground (arith, count_open-resolved_zero vault automation at rows)
