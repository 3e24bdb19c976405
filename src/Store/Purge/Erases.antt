-- ===== src/Store/Purge/Erases.antt =====
-- `purge_subject` of heartwood/store.py: which rows it deletes, and that it leaves nothing else of
-- the subject.
use text.Mathlib.TextEquality.{path_by_compare}
use heartwood_memory.Prelude.{
  ◌≡◌, ◌↔◌, ◌⊎◌, inl, inr, Bool, true, false, not, Option, List, [], ◌∷◌, ◌++◌, String, arith, elem,
  elem_of_In, In_of_elem, In, All, All-of_In, All-filter, In-filter, In-map, In-append_left,
  In-append_right, Bool-cases, filter, compare_text, sorted_set_keeps, sorted_set_only, ok,
  >>=-eq-ok,
}
use heartwood_memory.Envelope.{Meta}
use heartwood_memory.Store.{Edge, Store}
use heartwood_memory.Store.Purge.{
  check_aliases, descendants, is_named, subject_ids, selected, purged_ids, delete_all_rows,
  delete_vectors, purge_subject, is_lineage_of,
}
use heartwood_memory.Store.Purge.Deletes.{
  delete_all-memories, IsGone, delete_all-IsGone, filtered_out, vectors_of, delete_vectors-gone,
  delete_all-frame,
}
use heartwood_memory.Store.Purge.Closure.{Derived, seed}
use heartwood_memory.Store.Purge.Descendants.{descendants_iff}

In-append_cases : (x : String) (xs ys : List String) → In x (xs ++ ys) → In x xs ⊎ In x ys
In-append_cases x [] ys h = inr h
In-append_cases x (z ∷ xs) ys (inl e) = inl (inl e)
In-append_cases x (z ∷ xs) ys (inr h) = elim (In-append_cases x xs ys h) [
  | inl k ↦ inl (inr k)
  | inr k ↦ inr k
]

Derived_of_elem :
    (edges : List Edge) (seeds : List String) (x : String)
    → (elem x seeds ≡ true) ⊎ (elem x seeds ≡ false)
    → Derived edges seeds x
    → In x seeds ⊎ In x (descendants edges seeds)
Derived_of_elem edges seeds x (inl h) d = inl (In_of_elem x seeds h)
Derived_of_elem edges seeds x (inr h) d = inr ((descendants_iff edges seeds x).1 (d, h))

module _ (s : Store) (tenant subject : String) (seeds : List String) where
  -- The ids that `purge_subject` deletes are those derived from the selected ones.
  pub purged_ids_iff :
      (x : String)
      → In x (purged_ids s tenant subject seeds)
        ↔ Derived s.edges (selected s tenant subject seeds) x
  unfolding purged_ids
  purged_ids_iff x =
      let ids = selected s tenant subject seeds in
      let below = descendants s.edges ids in
      (
        (λ h.
            elim (In-append_cases x ids below
              (sorted_set_only compare_text path_by_compare x (ids ++ below) h)) [
                | inl k ↦ seed x k
                | inr k ↦ ((descendants_iff s.edges ids x).0 k).0
              ]),
        (λ d.
            sorted_set_keeps compare_text path_by_compare x (ids ++ below)
              (elim (Derived_of_elem s.edges ids x (Bool-cases (elem x ids)) d) [
                | inl k ↦ In-append_left x ids below k
                | inr k ↦ In-append_right x ids below k
              ])),
      )

  -- A row that names the subject is selected.
  selected-named :
      (m : Meta)
      → In m s.memories
      → is_named tenant subject m ≡ true
      → In m.id (selected s tenant subject seeds)
  unfolding selected subject_ids
  selected-named m h named =
      let picked = filter (is_named tenant subject) s.memories in
      sorted_set_keeps compare_text path_by_compare m.id _ (
        In-append_right m.id seeds _ (
          In-append_left m.id _ _ (
            In-map (λ x. x.id) m picked
              (In-filter (is_named tenant subject) m s.memories h named))))

abbrev purged_store : Store → String → String → List String → Option (List String) → Store
purged_store s tenant subject ids vectors =
    let t = delete_all_rows ids s in
    record t {
      vectors = vectors;
      lineage = filter (λ l. not (is_lineage_of tenant subject l)) t.lineage;
    }

module _ (can_load : Bool) (s : Store) (tenant subject : String) (seeds : List String) where
  purge_subject-ok :
      (ids : List String × List String) (t : Store)
      → purge_subject can_load s tenant subject seeds ≡ ok (ids, t)
      → (vectors : Option (List String)) × (delete_vectors can_load
            (purged_ids s tenant subject seeds)
            s.vectors
          ≡ ok vectors)
        × (t ≡ purged_store s tenant subject (purged_ids s tenant subject seeds) vectors)
  unfolding purge_subject
  purge_subject-ok ids t h =
      let (_, _, readable) = >>=-eq-ok (check_aliases s.memories tenant) _ h in
      let (vectors, done, same) =
        >>=-eq-ok (delete_vectors can_load (purged_ids s tenant subject seeds) s.vectors) _
          readable in
      (vectors, done, cc)

  -- What a purge keeps, and that the row of the subject is not among it.
  abbrev IsExact : Store → Type 0
  IsExact t =
      ((m : Meta)
        → In m t.memories
          ↔ (In m s.memories × ¬ Derived s.edges (selected s tenant subject seeds) m.id))
      × All (λ m. is_named tenant subject m ≡ false) t.memories
      × (t.keys ≡ s.keys)
      × (t.log ≡ s.log)

  purged-unnamed :
      (m : Meta)
      → In m (delete_all_rows (purged_ids s tenant subject seeds) s).memories
      → is_named tenant subject m ≡ false
  purged-unnamed m h = elim (Bool-cases (is_named tenant subject m)) [
    | inr k ↦ k
    | inl k ↦
        let ids = purged_ids s tenant subject seeds in
        let (was, kept) = (delete_all-memories ids s m).0 h in
        let hit =
          (purged_ids_iff s tenant subject seeds m.id).1
            (seed m.id (selected-named s tenant subject seeds m was k)) in
        absurd (ground (arith, kept, elem_of_In m.id ids hit))
  ]

  purged-IsExact :
      (vectors : Option (List String))
      → IsExact (purged_store s tenant subject (purged_ids s tenant subject seeds) vectors)
  purged-IsExact vectors =
      let ids = purged_ids s tenant subject seeds in
      let (keys, log) = delete_all-frame ids s in
      (
        (λ m. (
          (λ h.
              let (was, kept) = (delete_all-memories ids s m).0 h in
              (
                was,
                λ d. absurd (
                    ground (
                      arith,
                      kept,
                      elem_of_In m.id ids ((purged_ids_iff s tenant subject seeds m.id).1 d),
                    )),
              )),
          (λ h. (delete_all-memories ids s m).1 (
            h.0,
            elim (Bool-cases (elem m.id ids)) [
              | inr k ↦ k
              | inl k ↦
                  absurd
                    (h.1 ((purged_ids_iff s tenant subject seeds m.id).0 (In_of_elem m.id ids k)))
            ],
          )),
        )),
        All-of_In _ (delete_all_rows ids s).memories purged-unnamed,
        keys,
        log,
      )

module _ (can_load : Bool) (s : Store) (tenant subject : String) (seeds : List String)
    (ids : List String × List String) (t : Store) where
  -- An erasure that succeeds deletes exactly the memories that are derived, along any number of
  -- provenance edges, from the rows it selected: it keeps every other row and adds none. Of the
  -- rows that are left none names the subject, as its own or as a secondary one. The keys and the
  -- audit log are not touched.
  pub purge_subject_exact :
      purge_subject can_load s tenant subject seeds ≡ ok (ids, t)
      → ((m : Meta)
          → In m t.memories
            ↔ (In m s.memories × ¬ Derived s.edges (selected s tenant subject seeds) m.id))
        × All (λ m. is_named tenant subject m ≡ false) t.memories
        × (t.keys ≡ s.keys)
        × (t.log ≡ s.log)
  purge_subject_exact h =
      let (vectors, done, same) = purge_subject-ok can_load s tenant subject seeds ids t h in
      rw same (purged-IsExact can_load s tenant subject seeds vectors)

  -- An erasure that succeeds leaves no row that mentions an id derived from the rows it selected:
  -- as a memory, at an end of a provenance edge or in the deletion lineage. It leaves no vector of
  -- one either, and no lineage of the subject.
  pub purge_subject_traceless :
      purge_subject can_load s tenant subject seeds ≡ ok (ids, t)
      → ((x : String)
          → Derived s.edges (selected s tenant subject seeds) x
          → IsGone t x × (elem x (vectors_of t.vectors) ≡ false))
        × All (λ l. is_lineage_of tenant subject l ≡ false) t.lineage
  purge_subject_traceless h =
      let (vectors, done, same) = purge_subject-ok can_load s tenant subject seeds ids t h in
      let gone_ids = purged_ids s tenant subject seeds in
      rw same (
        (λ x d.
            let hit = (purged_ids_iff s tenant subject seeds x).1 d in
            let (m, e, l) = delete_all-IsGone gone_ids s x hit in
            (
              (m, e, All-filter _ _ (delete_all_rows gone_ids s).lineage l),
              delete_vectors-gone can_load gone_ids s.vectors vectors x done hit,
            )),
        filtered_out (is_lineage_of tenant subject) (delete_all_rows gone_ids s).lineage,
      )
