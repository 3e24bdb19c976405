-- ===== src/Store/Final/Kept.antt =====
-- No transaction of heartwood/store.py revives a shredded key.
use heartwood_memory.Prelude.{
  ℕ, ◌≡◌, refl, Bool, true, false, Option, none, some, List, [], ◌∷◌, String, Result, ok, raise,
  ◌>>=◌,
}
use heartwood_memory.Envelope.{Meta}
use heartwood_memory.Keys.Tombstone.{IsErased, apply-IsErased}
use heartwood_memory.Audit.{Codec}
use heartwood_memory.Store.{
  Store, Target, Insertion, insert_rows, insert_memory_superseding, inserted, supersede_rows,
  supersede_audited, superseded_store, audit_supersedes,
}
use heartwood_memory.Store.Purge.{
  delete_memory, delete_memory_rows, purge_subject, drop_orphan_vectors, drop_orphans,
}
use heartwood_memory.Store.Purge.Erases.{purge_subject_exact}
use heartwood_memory.Store.Updates.{update_review_state, update_indexed, update_epistemic}
use heartwood_memory.Store.Transact.{
  StoreOp, insert, supersede, set_review, set_indexed, set_trust, link, trace, delete, purge,
  drop_orphan, on_keys, audit, committed, transact, transact_all,
}

module _ (tenant subject : String) where
  -- The keys change by key operations only.
  abbrev pub IsKept : Store → Store → Type 0
  IsKept s t = IsErased s.keys tenant subject → IsErased t.keys tenant subject

  insert-IsKept :
      (c : Codec) (s : Store) (i : Insertion) (r : Result (Option (List Meta)))
      → IsKept s (committed s (r >>= λ rows. ok (inserted c s i rows)))
  insert-IsKept c s i (raise e) h = h
  insert-IsKept c s i (ok none) h = h
  insert-IsKept c s i (ok (some rows)) h = h

  supersede-IsKept :
      (c : Codec) (s : Store) (t principal : String) (ts : ℕ) (targets : List Target)
      (bodies : List (List ℕ)) (r : Option (List Meta))
      → IsKept s (committed s (superseded_store c s t principal ts targets bodies r))
  supersede-IsKept c s t principal ts targets bodies none h = h
  supersede-IsKept c s t principal ts targets bodies (some rows) h =
      elim (audit_supersedes c t principal ts targets bodies s.log)
        as (λ r.
          IsErased
            (committed s (r >>= λ log. ok (true, record s { memories = rows; log = log }))).keys
            tenant subject) [ ok log ↦ h | raise e ↦ h ]

  purge-IsKept :
      (can_load : Bool) (s : Store) (t other : String) (seeds : List String)
      (r : Result ((List String × List String) × Store))
      → purge_subject can_load s t other seeds ≡ r
      → IsKept s (committed s r)
  purge-IsKept can_load s t other seeds (raise e) same h = h
  purge-IsKept can_load s t other seeds (ok (ids, left)) same h =
      let (rows, unnamed, keys, log) = purge_subject_exact can_load s t other seeds ids left same in
      rw keys h

  orphans-IsKept :
      (can_load : Bool) (s : Store) (vectors : Option (List String))
      → IsKept s (committed s (drop_orphans can_load s vectors))
  unfolding drop_orphans
  orphans-IsKept can_load s none h = h
  orphans-IsKept true s (some vs) h = h
  orphans-IsKept false s (some vs) h = h

  transact-IsKept : (c : Codec) (s : Store) (op : StoreOp) → IsKept s (transact c s op)
  unfolding transact insert_memory_superseding supersede_audited update_review_state update_indexed
      update_epistemic delete_memory delete_memory_rows drop_orphan_vectors
  transact-IsKept c s (insert i) h = insert-IsKept c s i (insert_rows s i) h
  transact-IsKept c s (supersede t targets principal bodies ts) h =
      supersede-IsKept c s t principal ts targets bodies (supersede_rows t targets s.memories) h
  transact-IsKept c s (set_review id to expected) h = h
  transact-IsKept c s (set_indexed id indexed expected) h = h
  transact-IsKept c s (set_trust id e created_by truth) h = h
  transact-IsKept c s (link e) h = h
  transact-IsKept c s (trace l) h = h
  transact-IsKept c s (delete id) h = h
  transact-IsKept c s (purge can_load t other seeds) h =
      purge-IsKept can_load s t other seeds (purge_subject can_load s t other seeds) refl h
  transact-IsKept c s (drop_orphan can_load) h = orphans-IsKept can_load s s.vectors h
  transact-IsKept c s (on_keys op) h = apply-IsErased tenant subject s.keys op h
  transact-IsKept c s (audit t principal action target body ts) h = h

  pub transact_all-IsKept :
      (c : Codec) (s : Store) (ops : List StoreOp) → IsKept s (transact_all c s ops)
  unfolding transact_all
  transact_all-IsKept c s [] h = h
  transact_all-IsKept c s (op ∷ ops) h =
      transact_all-IsKept c (transact c s op) ops (transact-IsKept c s op h)
