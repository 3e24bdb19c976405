-- ===== src/Store/Final/Forgotten.antt =====
-- No transaction of heartwood/store.py names an erased subject again.
use heartwood_memory.Prelude.{
  ℕ, ◌==◌, count_p, ◌≡◌, refl, inl, inr, Bool, true, false, Option, none, some, List, [], ◌∷◌, ◌++◌,
  String, arith, str_eq, str_eq_iff, elem, any, All, All-append, All-filter, All-In, All-of_In,
  Bool-cases, Result, ok, raise, ◌>>=◌, >>=-eq-ok,
}
use heartwood_memory.Envelope.{Meta, Epistemic, TruthStatus}
use heartwood_memory.Keys.{KeyRow, same_key, get_key, is_shredded}
use heartwood_memory.Keys.Tombstone.{IsErased, apply-IsErased}
use heartwood_memory.Audit.{Codec}
use heartwood_memory.Store.{
  Store, Target, Insertion, still_matches, is_erased_row, refuse_erased_subjects,
  refuse_missing_parents, insert_memory_row, insert_rows, insert_memory_superseding, inserted,
  supersede_rows, supersede_audited, superseded_store, update_where, set_superseded, has_row,
  audit_supersedes,
}
use heartwood_memory.Store.Purge.{
  is_named, delete_memory, delete_memory_rows, purge_subject, drop_orphan_vectors, drop_orphans,
}
use heartwood_memory.Store.Purge.Erases.{purge_subject_exact}
use heartwood_memory.Store.Updates.{
  in_state, is_indexed, update_review_state, update_indexed, update_epistemic, set_epistemic,
}
use heartwood_memory.Store.Transact.{
  StoreOp, insert, supersede, set_review, set_indexed, set_trust, link, trace, delete, purge,
  drop_orphan, on_keys, audit, committed, transact, transact_all,
}

-- No row of the tenant names the subject.
abbrev pub IsUnnamed : String → String → List Meta → Type 0
IsUnnamed tenant subject memories = All (λ m. is_named tenant subject m ≡ false) memories

-- An update that leaves the tenant and the subjects of each row.
update_where-IsUnnamed :
    (tenant subject : String) (p : Meta → Bool) (f : Meta → Meta) (memories : List Meta)
    → ((m : Meta) → is_named tenant subject (f m) ≡ is_named tenant subject m)
    → IsUnnamed tenant subject memories
    → IsUnnamed tenant subject (update_where p f memories)
update_where-IsUnnamed tenant subject p f [] same h = tt
update_where-IsUnnamed tenant subject p f (m ∷ memories) same h = (
  elim (Bool-cases (p m)) [ inl k ↦ rw (k, same m) h.0 | inr k ↦ rw k h.0 ],
  update_where-IsUnnamed tenant subject p f memories same h.1,
)

module _ (tenant subject : String) where
  supersede_rows-IsUnnamed :
      (t : String) (targets : List Target) (memories left : List Meta)
      → supersede_rows t targets memories ≡ some left
      → IsUnnamed tenant subject memories
      → IsUnnamed tenant subject left
  unfolding supersede_rows
  supersede_rows-IsUnnamed t [] memories left h u = let same : memories ≡ left = cc in rw (← same) u
  supersede_rows-IsUnnamed t (x ∷ targets) memories left h u =
      elim (Bool-cases (count_p (still_matches t x) memories == 1)) [
        | inr k ↦ absurd (ground (arith, rw k at h))
        | inl k ↦
            supersede_rows-IsUnnamed t targets
              (update_where (still_matches t x) set_superseded memories) left (rw k at h)
              (update_where-IsUnnamed tenant subject (still_matches t x) set_superseded memories
                (λ m. refl) u)
      ]

  -- An erased subject is found among the shredded rows.
  IsErased-any :
      (keys : List KeyRow) (subjects : List String)
      → IsErased keys tenant subject
      → elem subject subjects ≡ true
      → any (is_erased_row tenant subjects) keys ≡ true
  unfolding get_key
  IsErased-any [] subjects (r, found, dead, empty) h = cc
  IsErased-any (k ∷ keys) subjects (r, found, dead, empty) h =
      elim (Bool-cases (same_key tenant subject k)) [
        | inl here ↦
            let was : some k ≡ some r = rw here at found in
            let gone : is_shredded k.state ≡ true = ground (arith, was, dead) in
            let hit : elem k.subject subjects ≡ true =
              rw ((str_eq_iff k.subject subject).0 (ground (arith, here))) h in
            ground (arith, here, gone, hit)
        | inr there ↦
            ground (arith, IsErased-any keys subjects (r, rw there at found, dead, empty) h)
      ]

  -- A memory that is not refused does not name an erased subject.
  refused-named :
      (keys : List KeyRow) (m : Meta) {u : Unit}
      → IsErased keys tenant subject
      → refuse_erased_subjects keys m.tenant (m.subject ∷ m.subject_ids) ≡ ok u
      → is_named tenant subject m ≡ false
  unfolding refuse_erased_subjects
  refused-named keys m erased h = elim (Bool-cases (is_named tenant subject m)) [
    | inr k ↦ k
    | inl k ↦
        let same : m.tenant ≡ tenant = (str_eq_iff m.tenant tenant).0 (ground (arith, k)) in
        let hit =
          IsErased-any keys (m.subject ∷ m.subject_ids) erased
            (ground (arith, k, str_eq_iff m.subject subject, str_eq_iff subject m.subject)) in
        let refused : any (is_erased_row m.tenant (m.subject ∷ m.subject_ids)) keys ≡ true =
          rw same hit in
        absurd (ground (arith, rw refused at h))
  ]

  inserted-IsUnnamed :
      (memories rows : List Meta) (m : Meta)
      → insert_memory_row memories m ≡ ok rows
      → is_named tenant subject m ≡ false
      → IsUnnamed tenant subject memories
      → IsUnnamed tenant subject rows
  unfolding insert_memory_row
  inserted-IsUnnamed memories rows m h fresh u = elim (Bool-cases (has_row memories m.id)) [
    | inl k ↦ absurd (ground (arith, rw k at h))
    | inr k ↦
        let added : memories ++ m ∷ [] ≡ rows = ground (arith, rw k at h) in
        rw (← added) (All-append _ memories (m ∷ []) u (fresh, tt))
  ]

  insert_rows-IsUnnamed :
      (s : Store) (i : Insertion) (left : List Meta)
      → IsErased s.keys tenant subject
      → insert_rows s i ≡ ok (some left)
      → IsUnnamed tenant subject s.memories
      → IsUnnamed tenant subject left
  unfolding insert_rows refuse_erased_subjects insert_memory_row
  insert_rows-IsUnnamed s i left erased h u =
      let m = i.meta in
      let (_, live, after) =
        >>=-eq-ok (refuse_erased_subjects s.keys m.tenant (m.subject ∷ m.subject_ids)) _ h in
      let (_, parents, inserted_ok) =
        >>=-eq-ok (refuse_missing_parents s.memories i.live_parents) _ after in
      let (rows, added, swapped) = >>=-eq-ok (insert_memory_row s.memories m) _ inserted_ok in
      let fresh : is_named tenant subject m ≡ false = refused-named s.keys m erased live in
      let grown : IsUnnamed tenant subject rows =
        inserted-IsUnnamed s.memories rows m added fresh u in
      supersede_rows-IsUnnamed m.tenant i.superseded rows left (ground (arith, swapped)) grown

  -- The subject is erased, and no row of the tenant names it.
  abbrev pub IsForgotten : Store → Type 0
  IsForgotten s = IsErased s.keys tenant subject × IsUnnamed tenant subject s.memories

  insert-IsForgotten :
      (c : Codec) (s : Store) (i : Insertion)
      → IsForgotten s
      → (r : Result (Option (List Meta))) → insert_rows s i ≡ r
      → IsForgotten (committed s (r >>= λ rows. ok (inserted c s i rows)))
  insert-IsForgotten c s i h (raise e) same = h
  insert-IsForgotten c s i h (ok none) same = h
  insert-IsForgotten c s i h (ok (some rows)) same =
      (h.0, insert_rows-IsUnnamed s i rows h.0 same h.1)

  supersede-IsForgotten :
      (c : Codec) (s : Store) (t principal : String) (ts : ℕ) (targets : List Target)
      (bodies : List (List ℕ))
      → IsForgotten s
      → (r : Option (List Meta)) → supersede_rows t targets s.memories ≡ r
      → IsForgotten (committed s (superseded_store c s t principal ts targets bodies r))
  supersede-IsForgotten c s t principal ts targets bodies h none same = h
  supersede-IsForgotten c s t principal ts targets bodies h (some rows) same =
      elim (audit_supersedes c t principal ts targets bodies s.log)
        as (λ r.
          IsForgotten
            (committed s (r >>= λ log. ok (true, record s { memories = rows; log = log })))) [
              | ok log ↦ (h.0, supersede_rows-IsUnnamed t targets s.memories rows same h.1)
              | raise e ↦ h
            ]

  purge-IsForgotten :
      (can_load : Bool) (s : Store) (t other : String) (seeds : List String)
      → IsForgotten s
      → (r : Result ((List String × List String) × Store))
      → purge_subject can_load s t other seeds ≡ r
      → IsForgotten (committed s r)
  purge-IsForgotten can_load s t other seeds h (raise e) same = h
  purge-IsForgotten can_load s t other seeds h (ok (ids, left)) same =
      let (rows, unnamed, keys, log) = purge_subject_exact can_load s t other seeds ids left same in
      (rw keys h.0, All-of_In _ left.memories (λ m k. All-In _ s.memories m h.1 ((rows m).0 k).0))

  orphans-IsForgotten :
      (can_load : Bool) (s : Store) (vectors : Option (List String))
      → IsForgotten s
      → IsForgotten (committed s (drop_orphans can_load s vectors))
  unfolding drop_orphans
  orphans-IsForgotten can_load s none h = h
  orphans-IsForgotten true s (some vs) h = h
  orphans-IsForgotten false s (some vs) h = h

  set_epistemic-named :
      (e : Epistemic) (created_by : Option String) (truth : Option TruthStatus) (m : Meta)
      → is_named tenant subject (set_epistemic e created_by truth m) ≡ is_named tenant subject m
  set_epistemic-named e none none m = refl
  set_epistemic-named e none (some t) m = refl
  set_epistemic-named e (some p) none m = refl
  set_epistemic-named e (some p) (some t) m = refl

  transact-IsForgotten :
      (c : Codec) (s : Store) (op : StoreOp) → IsForgotten s → IsForgotten (transact c s op)
  unfolding transact insert_memory_superseding supersede_audited update_review_state update_indexed
      update_epistemic delete_memory delete_memory_rows drop_orphan_vectors
  transact-IsForgotten c s (insert i) h = insert-IsForgotten c s i h (insert_rows s i) refl
  transact-IsForgotten c s (supersede t targets principal bodies ts) h =
      supersede-IsForgotten c s t principal ts targets bodies h
        (supersede_rows t targets s.memories) refl
  transact-IsForgotten c s (set_review id to expected) h = (
    h.0,
    update_where-IsUnnamed tenant subject (in_state id expected)
        (λ m. record m { review_state = some to }) s.memories (λ m. refl) h.1,
  )
  transact-IsForgotten c s (set_indexed id indexed expected) h = (
    h.0,
    update_where-IsUnnamed tenant subject (is_indexed id expected)
        (λ m. record m { indexed = indexed }) s.memories (λ m. refl) h.1,
  )
  transact-IsForgotten c s (set_trust id e created_by truth) h = (
    h.0,
    update_where-IsUnnamed tenant subject (λ m. str_eq m.id id) (set_epistemic e created_by truth)
        s.memories (set_epistemic-named e created_by truth) h.1,
  )
  transact-IsForgotten c s (link e) h = h
  transact-IsForgotten c s (trace l) h = h
  transact-IsForgotten c s (delete id) h = (h.0, All-filter _ _ s.memories h.1)
  transact-IsForgotten c s (purge can_load t other seeds) h =
      purge-IsForgotten can_load s t other seeds h (purge_subject can_load s t other seeds) refl
  transact-IsForgotten c s (drop_orphan can_load) h = orphans-IsForgotten can_load s s.vectors h
  transact-IsForgotten c s (on_keys op) h = (apply-IsErased tenant subject s.keys op h.0, h.1)
  transact-IsForgotten c s (audit t principal action target body ts) h = h

  pub transact_all-IsForgotten :
      (c : Codec) (s : Store) (ops : List StoreOp)
      → IsForgotten s
      → IsForgotten (transact_all c s ops)
  unfolding transact_all
  transact_all-IsForgotten c s [] h = h
  transact_all-IsForgotten c s (op ∷ ops) h =
      transact_all-IsForgotten c (transact c s op) ops (transact-IsForgotten c s op h)
