-- ===== src/VectorIndex/Coherent.antt =====
-- The cached matrix of heartwood/index.py never shows: a search answers as one over the dictionary.
use heartwood_memory.Prelude.{
  take, ℕ, suc, ◌≡◌, refl, sym, ap, ◌∙◌, ◌⊎◌, inl, inr, Bool, true, false, not, ◌&&◌, Option, none,
  some, List, [], ◌∷◌, String, str_eq, any, map, filter, arith, if◌then◌else◌, Bool-cases, Result,
  ok,
}
use heartwood_memory.VectorIndex.{
  Item, Index, get_elems, has_id, is_allowed, set_item, set_all, add, remove, rebuild, select,
  stacked, refresh_matrix, search,
}

-- What a process does with the index.
pub data IndexOp (V : Type 0) : Type 0 where
  added : String → String → Option V → IndexOp V
  removed : String → IndexOp V
  rebuilt : List (Item V) → IndexOp V
  searched : String → V → ℕ → Option (List String) → IndexOp V

-- The offsets of the rows that pass a test, from `k` on.
unfoldable pub offsets : {A : Type 0} → (A → Bool) → ℕ → List A → List ℕ
offsets p k [] = []
offsets p k (x ∷ xs) = let rest = offsets p (suc k) xs in if p x then k ∷ rest else rest

offsets-suc :
    {A : Type 0} (p : A → Bool) (k : ℕ) (xs : List A)
    → offsets p (suc k) xs ≡ map (λ n. suc n) (offsets p k xs)
unfolding offsets
offsets-suc p k [] = refl
offsets-suc p k (x ∷ xs) = elim (Bool-cases (p x)) [
  | inl e ↦ rw e (ap (λ l. suc k ∷ l) (offsets-suc p (suc k) xs))
  | inr e ↦ rw e (offsets-suc p (suc k) xs)
]

get_elems-suc :
    {A : Type 0} (x : A) (xs : List A) (ks : List ℕ)
    → get_elems (x ∷ xs) (map (λ n. suc n) ks) ≡ get_elems xs ks
get_elems-suc x xs [] = refl
get_elems-suc x xs (k ∷ ks) = rw (get_elems-suc x xs ks) refl

-- Picking the rows at the offsets is filtering.
pub get_elems-offsets :
    {A B : Type 0} (p : A → Bool) (f : A → B) (xs : List A)
    → get_elems (map f xs) (offsets p 0 xs) ≡ ok (map f (filter p xs))
unfolding offsets
get_elems-offsets p f [] = refl
get_elems-offsets p f (x ∷ xs) =
    let rest : get_elems (f x ∷ map f xs) (offsets p 1 xs) ≡ ok (map f (filter p xs)) =
      rw (offsets-suc p 0 xs)
        (get_elems-suc (f x) (map f xs) (offsets p 0 xs) ∙ get_elems-offsets p f xs) in
    elim (Bool-cases (p x)) [ inl e ↦ rw (e, rest) refl | inr e ↦ rw (e, rest) refl ]

pub map-map :
    {A B C : Type 0} (f : A → B) (g : B → C) (xs : List A)
    → map g (map f xs) ≡ map (λ x. g (f x)) xs
map-map f g [] = refl
map-map f g (x ∷ xs) = ap (λ l. g (f x) ∷ l) (map-map f g xs)

pub filter-all :
    {A : Type 0} (p : A → Bool) (xs : List A) → any p xs ≡ false → filter (λ x. not (p x)) xs ≡ xs
filter-all p [] h = refl
filter-all p (x ∷ xs) h = elim (Bool-cases (p x)) [
  | inl e ↦ absurd (ground (arith, e, h))
  | inr e ↦ rw e (ap (λ l. x ∷ l) (filter-all p xs (ground (arith, e, h))))
]

module _ {V : Type 0} where
  unfoldable pub keeps : String → Option (List String) → Item V → Bool
  keeps tenant allowed x = str_eq x.tenant tenant && is_allowed allowed x.mem_id

  pub select-offsets :
      (tenant : String) (allowed : Option (List String)) (k : ℕ) (items : List (Item V))
      → select tenant allowed k (map (λ i. i.mem_id) items) (map (λ i. i.tenant) items)
        ≡ ok (offsets (keeps tenant allowed) k items)
  unfolding select offsets keeps
  select-offsets tenant allowed k [] = refl
  select-offsets tenant allowed k (x ∷ items) =
      rw (select-offsets tenant allowed (suc k) items) refl

  module _ {S : Type 0} (as_float32 : V → V) (dot : V → V → S)
      (argsort_descending : List S → List ℕ) where
    -- The score of a row.
    abbrev pub score : V → Item V → S
    score query x = dot (as_float32 x.vector) query

    -- A search without a matrix, of the rows that may be found.
    unfoldable pub search_rows : V → ℕ → List (Item V) → Result (List (String × S))
    search_rows query n [] = ok []
    search_rows query n (x ∷ rows) =
        get_elems (map (λ i. (i.mem_id, score query i)) (x ∷ rows))
          (take n (argsort_descending (map (score query) (x ∷ rows))))

    unfoldable pub search_items :
        String → V → ℕ → Option (List String) → List (Item V) → Result (List (String × S))
    unfolding search_rows
    search_items tenant query n allowed items =
        search_rows query n
          (filter (λ x. str_eq x.tenant tenant && is_allowed allowed x.mem_id) items)

    -- The dictionary after an operation, with no matrix.
    unfoldable pub items_after : IndexOp V → List (Item V) → List (Item V)
    items_after (added id tenant none) items = items
    items_after (added id tenant (some v)) items = set_item id tenant (as_float32 v) items
    items_after (removed id) items = filter (λ i. not (has_id id i)) items
    items_after (rebuilt rows) items = set_all rows []
    items_after (searched tenant query n allowed) items = items

    unfoldable pub items_after_all : List (IndexOp V) → List (Item V) → List (Item V)
    unfolding items_after
    items_after_all [] items = items
    items_after_all (op ∷ ops) items = items_after_all ops (items_after op items)

    unfoldable pub apply : IndexOp V → Index V → Index V
    apply (added id tenant v) x = add as_float32 id tenant v x
    apply (removed id) x = remove id x
    apply (rebuilt rows) x = rebuild rows x
    apply (searched tenant query n allowed) x =
        (search as_float32 dot argsort_descending tenant query n allowed x).1

    unfoldable pub apply_all : List (IndexOp V) → Index V → Index V
    unfolding apply
    apply_all [] x = x
    apply_all (op ∷ ops) x = apply_all ops (apply op x)

    -- The matrix is that of the dictionary.
    pub record IsBuilt (x : Index V) : Type 0 where
      pub are_ids : x.matrix_ids ≡ map (λ i. i.mem_id) x.items
      pub are_tenants : x.matrix_tenants ≡ map (λ i. i.tenant) x.items
      pub are_rows : x.matrix ≡ stacked as_float32 x.items

    abbrev pub IsCoherent : Index V → Type 0
    IsCoherent x = (x.matrix_dirty ≡ true) ⊎ IsBuilt x

    pub refresh-IsBuilt :
        (x : Index V)
        → IsCoherent x
        → IsBuilt (refresh_matrix as_float32 x) × ((refresh_matrix as_float32 x).items ≡ x.items)
    unfolding refresh_matrix
    refresh-IsBuilt x h = elim (Bool-cases x.matrix_dirty) [
      | inl e ↦ rw e (record { are_ids = refl; are_tenants = refl; are_rows = refl }, refl)
      | inr e ↦ elim h [
        | inl k ↦ absurd (ground (arith, e, k))
        | inr b ↦ rw e (
          record { are_ids = b.are_ids; are_tenants = b.are_tenants; are_rows = b.are_rows },
          refl,
        )
      ]
    ]

    pub apply-IsCoherent :
        (op : IndexOp V) (x : Index V)
        → IsCoherent x
        → IsCoherent (apply op x) × ((apply op x).items ≡ items_after op x.items)
    unfolding apply items_after add remove rebuild search
    apply-IsCoherent (added id tenant none) x h = (h, refl)
    apply-IsCoherent (added id tenant (some v)) x h = (inl refl, refl)
    apply-IsCoherent (rebuilt rows) x h = (inl refl, refl)
    apply-IsCoherent (searched tenant query n allowed) x h =
        let (built, same) = refresh-IsBuilt x h in (inr built, same)
    apply-IsCoherent (removed id) x h = elim (Bool-cases (any (has_id id) x.items)) [
      | inl e ↦ rw e (inl refl, refl)
      | inr e ↦ rw e (h, sym (filter-all (has_id id) x.items e))
    ]

    pub apply_all-IsCoherent :
        (ops : List (IndexOp V)) (x : Index V)
        → IsCoherent x
        → IsCoherent (apply_all ops x) × ((apply_all ops x).items ≡ items_after_all ops x.items)
    unfolding apply_all items_after_all
    apply_all-IsCoherent [] x h = (h, refl)
    apply_all-IsCoherent (op ∷ ops) x h =
        let (coherent, same) = apply-IsCoherent op x h in
        let (last, items) = apply_all-IsCoherent ops (apply op x) coherent in
        (last, items ∙ ap (items_after_all ops) same)
