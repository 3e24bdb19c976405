-- ===== src/Tests/Finding.antt =====
-- A vector index over numbers, which multiply to scores.
use heartwood_memory.Prelude.{
  ℕ, suc, ◌*◌, ◌≡◌, refl, ltb, none, some, List, [], ◌∷◌, if◌then◌else◌, ok, map,
}
use heartwood_memory.VectorIndex.{
  new_index, add, remove, set_item, select, refresh_matrix, rank_rows, search_matrix, search,
}
use heartwood_memory.VectorIndex.Coherent.{
  IndexOp, added, removed, searched, search_items, items_after_all, apply, apply_all,
}
use heartwood_memory.VectorIndex.Exact.{search-Exact}

abbrev same : ℕ → ℕ
same v = v

abbrev times : ℕ → ℕ → ℕ
times v w = v * w

abbrev insert_score : ℕ → ℕ → List (ℕ × ℕ) → List (ℕ × ℕ)
insert_score s k [] = (s, k) ∷ []
insert_score s k ((t, j) ∷ rest) =
    let later = insert_score s k rest in if ltb s t then (t, j) ∷ later else (s, k) ∷ (t, j) ∷ rest

abbrev scored : ℕ → List ℕ → List (ℕ × ℕ)
scored k [] = []
scored k (s ∷ sims) = insert_score s k (scored (suc k) sims)

abbrev argsort : List ℕ → List ℕ
argsort sims = map (λ p. p.1) (scored 0 sims)

-- A row is replaced after a search has built the matrix, and another one is removed.
abbrev uses : List (IndexOp ℕ)
uses =
    added "a" "acme" (some 3)
    ∷ added "b" "acme" (some 1)
    ∷ added "c" "other" (some 9)
    ∷ added "d" "acme" (some 8)
    ∷ searched "acme" 1 5 none
    ∷ added "b" "acme" (some 5)
    ∷ removed "d"
    ∷ []

search_test :
    (search same times argsort "acme" 2 5 none (apply_all same times argsort uses new_index)).0
    ≡ ok (("b", 10) ∷ ("a", 6) ∷ [])
unfolding search apply_all apply new_index add remove set_item select refresh_matrix rank_rows
    search_matrix
search_test = refl

search-Exact_example :
    (search same times argsort "acme" 2 5 none (apply_all same times argsort uses new_index)).0
    ≡ search_items same times argsort "acme" 2 5 none (items_after_all same times argsort uses [])
search-Exact_example = search-Exact same times argsort uses "acme" 2 5 none
