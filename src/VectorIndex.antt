-- ===== src/VectorIndex.antt =====
-- `NumpyVectorIndex` of heartwood/index.py: a dictionary of vectors, and a matrix that is built from it
-- when a search finds it out of date. The vectors are of one dimension.
pub mod Coherent
pub mod Exact
use heartwood_memory.Prelude.{
  ℕ, zero, suc, Bool, true, false, not, ◌&&◌, Option, none, some, List, [], ◌∷◌, String, str_eq,
  elem, any, map, filter, take, if◌then◌else◌, Result, ok, raise, index_error, ◌>>=◌,
}

-- An entry of the dictionary `_v`, which keeps the order of the first insertions.
pub record Item (V : Type 0) : Type 0 where
  pub mem_id : String
  pub tenant : String
  pub vector : V

pub record Index (V : Type 0) : Type 0 where
  pub items : List (Item V)
  pub matrix_dirty : Bool
  pub matrix_ids : List String
  pub matrix_tenants : List String
  pub matrix : Option (List V)

-- `xs[k]` for each offset, in their order.
abbrev pub get_elem {ℓ} : {A : Type ℓ} → List A → ℕ → Result A
get_elem [] k = raise index_error
get_elem (x ∷ xs) zero = ok x
get_elem (x ∷ xs) (suc k) = get_elem xs k

abbrev pub get_elems {ℓ} : {A : Type ℓ} → List A → List ℕ → Result (List A)
get_elems xs [] = ok []
get_elems xs (k ∷ ks) = do x ← get_elem xs k; rest ← get_elems xs ks; ok (x ∷ rest)

abbrev pub is_allowed : Option (List String) → String → Bool
is_allowed none id = true
is_allowed (some ids) id = elem id ids

-- The offsets of the rows of the tenant that are allowed, from `k` on.
unfoldable pub select :
    String → Option (List String) → ℕ → List String → List String → Result (List ℕ)
select tenant allowed k [] tenants = ok []
select tenant allowed k (id ∷ ids) [] = raise index_error
select tenant allowed k (id ∷ ids) (t ∷ tenants) = do
  rest ← select tenant allowed (suc k) ids tenants
  ok (if str_eq t tenant && is_allowed allowed id then k ∷ rest else rest)

abbrev pub pairs : {S : Type 0} → List String → List S → List (String × S)
pairs [] sims = []
pairs (id ∷ ids) [] = []
pairs (id ∷ ids) (s ∷ sims) = (id, s) ∷ pairs ids sims

module _ {V : Type 0} where
  abbrev pub has_id : String → Item V → Bool
  has_id id x = str_eq x.mem_id id

  -- `self._v[mem_id] = …`
  unfoldable pub set_item : String → String → V → List (Item V) → List (Item V)
  set_item id tenant v [] = record { mem_id = id; tenant = tenant; vector = v } ∷ []
  set_item id tenant v (x ∷ items) =
      let rest = set_item id tenant v items in
      if has_id id x
      then record { mem_id = x.mem_id; tenant = tenant; vector = v } ∷ items
      else x ∷ rest

  unfoldable pub new_index : Index V
  new_index = record {
    items = [];
    matrix_dirty = true;
    matrix_ids = [];
    matrix_tenants = [];
    matrix = none;
  }

  unfoldable pub remove : String → Index V → Index V
  remove id x =
      if any (has_id id) x.items
      then record x { items = filter (λ i. not (has_id id i)) x.items; matrix_dirty = true }
      else x

  -- What `all_embeddings` of the store gives, row by row.
  unfoldable pub set_all : List (Item V) → List (Item V) → List (Item V)
  unfolding set_item
  set_all [] items = items
  set_all (r ∷ rows) items = set_all rows (set_item r.mem_id r.tenant r.vector items)

  unfoldable pub rebuild : List (Item V) → Index V → Index V
  unfolding set_all
  rebuild rows x = record x { items = set_all rows []; matrix_dirty = true }

  module _ (as_float32 : V → V) where
    unfoldable pub add : String → String → Option V → Index V → Index V
    unfolding set_item
    add id tenant none x = x
    add id tenant (some v) x = record x {
      items = set_item id tenant (as_float32 v) x.items;
      matrix_dirty = true;
    }

    -- `np.vstack`, of no rows `None`
    abbrev pub stacked : List (Item V) → Option (List V)
    stacked [] = none
    stacked (x ∷ items) = some (map (λ i. as_float32 i.vector) (x ∷ items))

    unfoldable pub refresh_matrix : Index V → Index V
    refresh_matrix x =
        if x.matrix_dirty
        then record x {
          matrix_dirty = false;
          matrix_ids = map (λ i. i.mem_id) x.items;
          matrix_tenants = map (λ i. i.tenant) x.items;
          matrix = stacked x.items;
        }
        else x

  module _ {S : Type 0} (as_float32 : V → V) (dot : V → V → S)
      (argsort_descending : List S → List ℕ) where
    -- The scores of the selected rows, and the best of them.
    unfoldable pub rank_rows : V → ℕ → List String → List V → List ℕ → Result (List (String × S))
    rank_rows query n matrix_ids rows [] = ok []
    rank_rows query n matrix_ids rows (k ∷ selected) = do
      ids ← get_elems matrix_ids (k ∷ selected)
      vectors ← get_elems rows (k ∷ selected)
      let sims = map (λ v. dot v query) vectors
      get_elems (pairs ids sims) (take n (argsort_descending sims))

    unfoldable pub search_matrix :
        String
        → V
        → ℕ
        → Option (List String)
        → Index V
        → Option (List V)
        → Result (List (String × S))
    unfolding select rank_rows
    search_matrix tenant query n allowed x none = ok []
    search_matrix tenant query n allowed x (some rows) = do
      selected ← select tenant allowed 0 x.matrix_ids x.matrix_tenants
      rank_rows query n x.matrix_ids rows selected

    -- The hits, and the index, whose matrix is then up to date.
    unfoldable pub search :
        String → V → ℕ → Option (List String) → Index V → Result (List (String × S)) × Index V
    unfolding refresh_matrix search_matrix
    search tenant query n allowed x =
        let y = refresh_matrix as_float32 x in
        (search_matrix tenant (as_float32 query) n allowed y y.matrix, y)
