-- ===== src/Indexer/Tables/Lists.antt =====
-- Tables that are lists of rows: the interfaces of the tables can be filled.
use strategy_builder_v.Prelude.{String, List, [], ◌∷◌, ◌++◌, ℕ, none, map, find, ◌≡◌, refl, arith}
use strategy_builder_v.Indexer.Tables.{
  Key, UniqueTable, add_new, Failure, FailureTable, is_open, count_open, resolved, updated_at,
}

abbrev pub list_table : {R : Type 0} → (key : R → Key) → UniqueTable key (List R)
list_table key = record {
  rows = λ t. t;
  create_many = add_new key;
  rows-create_many = λ new t. refl;
}

pub count_open-find :
    (vault : String) (automation : ℕ) (t : List Failure)
    → find (is_open vault automation) t ≡ none
    → count_open vault automation t ≡ 0
count_open-find vault automation [] h = refl
count_open-find vault automation (f ∷ t) h = ground (arith, count_open-find vault automation t, h)

abbrev pub list_failures : FailureTable (List Failure)
list_failures = record {
  failures = λ t. t;
  new_id = λ t. "f";
  find_open = λ vault automation t. find (is_open vault automation) t;
  update = λ id f t. map (updated_at id f) t;
  create = λ row t. t ++ row ∷ [];
  resolve = λ vault automation at t. map (resolved vault automation at) t;
  find_open-none = count_open-find;
  failures-update = λ id f t. refl;
  failures-create = λ row t. refl;
  failures-resolve = λ vault automation at t. refl;
}
