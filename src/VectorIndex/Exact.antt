-- ===== src/VectorIndex/Exact.antt =====
-- A search of heartwood/index.py answers as one that has no matrix.
use heartwood_memory.Prelude.{
  take, ℕ, ◌≡◌, refl, ap, ◌∙◌, inl, Option, List, [], ◌∷◌, String, map, filter, Result, ok, ◌>>=◌,
  >>=-eq-ok, ok_injective,
}
use heartwood_memory.VectorIndex.{
  Item, Index, get_elem, get_elems, pairs, new_index, select, stacked, refresh_matrix, rank_rows,
  search_matrix, search,
}
use heartwood_memory.VectorIndex.Coherent.{
  IndexOp, offsets, keeps, select-offsets, get_elems-offsets, map-map, score, search_rows,
  search_items, items_after_all, apply_all, IsBuilt, refresh-IsBuilt, apply_all-IsCoherent,
}

some-elems : {A : Type 0} (xs : List A) (k : ℕ) (ks : List ℕ) → get_elems xs (k ∷ ks) ≡ ok [] → ⊥
some-elems xs k ks h =
    let (x, _, h1) = >>=-eq-ok (get_elem xs k) _ h in
    let (rest, _, h2) = >>=-eq-ok (get_elems xs ks) (λ r. ok (x ∷ r)) h1 in
    cc (ok_injective (x ∷ rest) [] h2)

module _ {V S : Type 0} (as_float32 : V → V) (dot : V → V → S)
    (argsort_descending : List S → List ℕ) where
  pairs-map :
      (query : V) (rows : List (Item V))
      → pairs (map (λ i. i.mem_id) rows) (map (score as_float32 dot argsort_descending query) rows)
        ≡ map (λ i. (i.mem_id, score as_float32 dot argsort_descending query i)) rows
  pairs-map query [] = refl
  pairs-map query (x ∷ rows) =
      ap (λ l. (x.mem_id, score as_float32 dot argsort_descending query x) ∷ l)
        (pairs-map query rows)

  abbrev ranked : V → ℕ → Result (List String) → Result (List V) → Result (List (String × S))
  ranked query n ids rows = do
    found ← ids
    vectors ← rows
    let sims = map (λ v. dot v query) vectors
    get_elems (pairs found sims) (take n (argsort_descending sims))

  best :
      (query : V) (n : ℕ) (rows : List (Item V))
      → ranked query n (ok (map (λ i. i.mem_id) rows)) (ok (map (λ i. as_float32 i.vector) rows))
        ≡ get_elems
            (map (λ i. (i.mem_id, score as_float32 dot argsort_descending query i)) rows)
            (take n (argsort_descending (map (score as_float32 dot argsort_descending query) rows)))
  best query n rows =
      rw
        (
          map-map (λ (i : Item V). as_float32 i.vector) (λ (v : V). dot v query) rows,
          pairs-map query rows,
        )
        refl

  rank_rows-search_rows :
      (query : V) (n : ℕ) (ids : List String) (vectors : List V) (ks : List ℕ)
      (rows : List (Item V))
      → get_elems ids ks ≡ ok (map (λ i. i.mem_id) rows)
      → get_elems vectors ks ≡ ok (map (λ i. as_float32 i.vector) rows)
      → rank_rows as_float32 dot argsort_descending query n ids vectors ks
        ≡ search_rows as_float32 dot argsort_descending query n rows
  unfolding rank_rows search_rows
  rank_rows-search_rows query n ids vectors [] [] a b = refl
  rank_rows-search_rows query n ids vectors [] (x ∷ rows) a b =
      cc (ok_injective [] (x.mem_id ∷ map (λ i. i.mem_id) rows) a)
  rank_rows-search_rows query n ids vectors (k ∷ ks) [] a b = absurd (some-elems ids k ks a)
  rank_rows-search_rows query n ids vectors (k ∷ ks) (x ∷ rows) a b =
      ap (λ r. ranked query n r (get_elems vectors (k ∷ ks))) a
      ∙ (ap (λ r. ranked query n (ok (map (λ i. i.mem_id) (x ∷ rows))) r) b
          ∙ best query n (x ∷ rows))

  abbrev found :
      String
      → V
      → ℕ
      → Option (List String)
      → List V
      → List String
      → List String
      → Result (List (String × S))
  found tenant query n allowed rows ids tenants = do
    selected ← select tenant allowed 0 ids tenants
    rank_rows as_float32 dot argsort_descending query n ids rows selected

  found-search_items :
      (tenant : String) (query : V) (n : ℕ) (allowed : Option (List String)) (items : List (Item V))
      → found tenant query n allowed
          (map (λ i. as_float32 i.vector) items)
          (map (λ i. i.mem_id) items)
          (map (λ i. i.tenant) items)
        ≡ search_items as_float32 dot argsort_descending tenant query n allowed items
  unfolding search_items keeps
  found-search_items tenant query n allowed items =
      let p = keeps tenant allowed in
      rw (select-offsets tenant allowed 0 items) (
        rank_rows-search_rows query n (map (λ i. i.mem_id) items)
          (map (λ i. as_float32 i.vector) items) (offsets p 0 items) (filter p items)
          (get_elems-offsets p (λ (i : Item V). i.mem_id) items)
          (get_elems-offsets p (λ (i : Item V). as_float32 i.vector) items))

  stacked-Exact :
      (tenant : String) (query : V) (n : ℕ) (allowed : Option (List String)) (y : Index V)
      (items : List (Item V))
      → y.matrix_ids ≡ map (λ i. i.mem_id) items
      → y.matrix_tenants ≡ map (λ i. i.tenant) items
      → search_matrix as_float32 dot argsort_descending tenant query n allowed y
          (stacked as_float32 items)
        ≡ search_items as_float32 dot argsort_descending tenant query n allowed items
  unfolding search_matrix
  stacked-Exact tenant query n allowed y [] a b = none_found
    where
      none_found : ok [] ≡ search_items as_float32 dot argsort_descending tenant query n allowed []
      none_found = unfold search_items search_rows in refl
  stacked-Exact tenant query n allowed y (x ∷ items) a b =
      let rows = map (λ (i : Item V). as_float32 i.vector) (x ∷ items) in
      ap (λ ids. found tenant query n allowed rows ids y.matrix_tenants) a
      ∙ (ap (found tenant query n allowed rows (map (λ i. i.mem_id) (x ∷ items))) b
          ∙ found-search_items tenant query n allowed (x ∷ items))

  built-Exact :
      (tenant : String) (query : V) (n : ℕ) (allowed : Option (List String)) (y : Index V)
      → IsBuilt as_float32 dot argsort_descending y
      → search_matrix as_float32 dot argsort_descending tenant query n allowed y y.matrix
        ≡ search_items as_float32 dot argsort_descending tenant query n allowed y.items
  built-Exact tenant query n allowed y built =
      ap (search_matrix as_float32 dot argsort_descending tenant query n allowed y) built.are_rows
      ∙ stacked-Exact tenant query n allowed y y.items built.are_ids built.are_tenants

  -- After any use of a new index, a search answers as one that looks at the dictionary alone: it scores
  -- the rows of the tenant that are allowed, and returns the best of them.
  pub search-Exact :
      (ops : List (IndexOp V)) (tenant : String) (query : V) (n : ℕ)
      (allowed : Option (List String))
      → (search as_float32 dot argsort_descending tenant query n allowed
          (apply_all as_float32 dot argsort_descending ops new_index)).0
        ≡ search_items as_float32 dot argsort_descending tenant
            (as_float32 query)
            n
            allowed
            (items_after_all as_float32 dot argsort_descending ops [])
  unfolding search new_index
  search-Exact ops tenant query n allowed =
      let x = apply_all as_float32 dot argsort_descending ops new_index in
      let y = refresh_matrix as_float32 x in
      let (coherent, items) =
        apply_all-IsCoherent as_float32 dot argsort_descending ops new_index (inl refl) in
      let (built, same) = refresh-IsBuilt as_float32 dot argsort_descending x coherent in
      built-Exact tenant (as_float32 query) n allowed y built
      ∙ ap (search_items as_float32 dot argsort_descending tenant (as_float32 query) n allowed)
          (same ∙ items)
