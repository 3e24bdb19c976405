-- ===== src/Store/Purge/Deletes.antt =====
-- What `_delete_memory_rows` and `_delete_vectors` of heartwood/store.py leave.
use heartwood_memory.Prelude.{
  ◌≡◌, ◌↔◌, refl, inl, inr, Bool, true, false, not, ◌||◌, Option, none, some, List, [], ◌∷◌, String,
  arith, str_eq, str_eq_iff, elem, elem_of_In, In, All, All-map, All-filter, filter_sound,
  In-filter, In-filter_only, Bool-cases, filter, ok,
}
use heartwood_memory.Envelope.{Meta}
use heartwood_memory.Store.{Store, emb_id}
use heartwood_memory.Store.Purge.{delete_memory_rows, delete_all_rows, delete_vectors}

-- The rows that are left after a list of ids was deleted, one after the other.
pub delete_all-memories :
    (ids : List String) (s : Store) (m : Meta)
    → In m (delete_all_rows ids s).memories ↔ (In m s.memories × (elem m.id ids ≡ false))
unfolding delete_all_rows delete_memory_rows
delete_all-memories [] s m = ((λ h. (h, refl)), (λ h. h.0))
delete_all-memories (id ∷ ids) s m =
    let t = delete_memory_rows id s in
    let keep : Meta → Bool = λ x. not (str_eq x.id id) in
    let rest = delete_all-memories ids t m in
    (
      (λ h.
          let (stayed, other) = rest.0 h in
          let (was, kept) = In-filter_only keep m s.memories stayed in
          (was, ground (arith, other, kept))),
      (λ h. rest.1 (In-filter keep m s.memories h.0 (ground (arith, h.1)), ground (arith, h.1))),
    )

-- An id that no row of a store mentions: as a memory, at either end of an edge, or in the lineage.
abbrev pub IsGone : Store → String → Type 0
IsGone s id =
    All (λ m. str_eq m.id id ≡ false) s.memories
    × All (λ e. (str_eq e.child id || str_eq e.parent id) ≡ false) s.edges
    × All (λ l. (str_eq l.artifact_id id || str_eq l.artifact_id (emb_id id)) ≡ false) s.lineage

IsGone-delete :
    (id other : String) (s : Store) → IsGone s id → IsGone (delete_memory_rows other s) id
unfolding delete_memory_rows
IsGone-delete id other s (m, e, l) =
    (All-filter _ _ s.memories m, All-filter _ _ s.edges e, All-filter _ _ s.lineage l)

IsGone-delete_all :
    (ids : List String) (id : String) (s : Store) → IsGone s id → IsGone (delete_all_rows ids s) id
unfolding delete_all_rows
IsGone-delete_all [] id s h = h
IsGone-delete_all (other ∷ ids) id s h =
    IsGone-delete_all ids id (delete_memory_rows other s) (IsGone-delete id other s h)

pub filtered_out :
    {A : Type 0} (p : A → Bool) (xs : List A) → All (λ x. p x ≡ false) (filter (λ x. not (p x)) xs)
filtered_out p xs =
    All-map (λ x. not (p x) ≡ true) (λ x. p x ≡ false) (filter (λ x. not (p x)) xs)
      (λ x h. ground (arith, h)) (filter_sound (λ x. not (p x)) xs)

pub delete-IsGone : (id : String) (s : Store) → IsGone (delete_memory_rows id s) id
unfolding delete_memory_rows
delete-IsGone id s = (filtered_out _ s.memories, filtered_out _ s.edges, filtered_out _ s.lineage)

pub delete_all-IsGone :
    (ids : List String) (s : Store) (id : String) → In id ids → IsGone (delete_all_rows ids s) id
unfolding delete_all_rows
delete_all-IsGone [] s id h = absurd h
delete_all-IsGone (x ∷ ids) s id (inr h) = delete_all-IsGone ids (delete_memory_rows x s) id h
delete_all-IsGone (x ∷ ids) s id (inl e) =
    rw e (IsGone-delete_all ids x (delete_memory_rows x s) (delete-IsGone x s))

abbrev pub vectors_of : Option (List String) → List String
vectors_of none = []
vectors_of (some vs) = vs

not_filtered :
    (ids vs : List String) (x : String)
    → elem x ids ≡ true
    → elem x (filter (λ v. not (elem v ids)) vs) ≡ false
not_filtered ids [] x h = refl
not_filtered ids (v ∷ vs) x h = elim (Bool-cases (elem v ids)) [
  | inl k ↦ rw k (not_filtered ids vs x h)
  | inr k ↦
      let differs : str_eq x v ≡ false = elim (Bool-cases (str_eq x v)) [
        | inr e ↦ e
        | inl e ↦ absurd (ground (arith, rw ((str_eq_iff x v).0 e) at h, k))
      ] in
      rw k (ground (arith, differs, not_filtered ids vs x h))
]

pub delete_vectors-gone :
    (can_load : Bool) (ids : List String) (vectors left : Option (List String)) (x : String)
    → delete_vectors can_load ids vectors ≡ ok left
    → In x ids
    → elem x (vectors_of left) ≡ false
unfolding delete_vectors
delete_vectors-gone can_load [] vectors left x h k = absurd k
delete_vectors-gone can_load (id ∷ ids) none left x h k =
    let same : none ≡ left = cc in rw (← same) refl
delete_vectors-gone false (id ∷ ids) (some vs) left x h k = cc
delete_vectors-gone true (id ∷ ids) (some vs) left x h k =
    let same : some (filter (λ v. not (elem v (id ∷ ids))) vs) ≡ left = cc in
    rw (← same) (not_filtered (id ∷ ids) vs x (elem_of_In x (id ∷ ids) k))

pub delete_all-frame :
    (ids : List String) (s : Store)
    → ((delete_all_rows ids s).keys ≡ s.keys) × ((delete_all_rows ids s).log ≡ s.log)
unfolding delete_all_rows delete_memory_rows
delete_all-frame [] s = (refl, refl)
delete_all-frame (id ∷ ids) s = delete_all-frame ids (delete_memory_rows id s)
