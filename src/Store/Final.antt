-- ===== src/Store/Final.antt =====
-- A hard erasure against the other processes that write to heartwood/store.py.
mod Forgotten
mod Kept
use heartwood_memory.Prelude.{
  ℕ, ◌==◌, count_p, ◌≡◌, ◌↔◌, refl, sym, ◌⊎◌, inl, inr, Bool, true, false, not, ◌&&◌, ◌||◌, Option,
  none, some, List, [], ◌∷◌, ◌++◌, String, arith, str_eq, str_eq_iff, elem, any, In, All, All-map,
  All-append, All-filter, All-In, All-of_In, Bool-cases, Result, ok, raise, ◌>>=◌, >>=-eq-ok,
  Option-cases,
}
use heartwood_memory.Envelope.{Meta, Epistemic, ReviewState, TruthStatus}
use heartwood_memory.Keys.{KeyRow, same_key, get_key, is_shredded, shredded, shred_key}
use heartwood_memory.Keys.Tombstone.{
  KeyOp, shred, apply, IsErased, apply-IsErased, shred_key-IsErased,
}
use heartwood_memory.Audit.{Codec, append_audit}
use heartwood_memory.Store.{
  Store, Edge, LineageRow, Target, Insertion, names, still_matches, is_erased_row,
  refuse_erased_subjects, refuse_missing_parents, insert_memory_row, insert_rows,
  insert_memory_superseding, inserted, supersede_rows, supersede_audited, superseded_store,
  update_where, set_superseded, has_row, add_edge, register_lineage, audit_supersedes,
}
use heartwood_memory.Store.Purge.{
  is_named, delete_memory, delete_memory_rows, delete_all_rows, purge_subject, drop_orphan_vectors,
  drop_orphans,
}
use heartwood_memory.Store.Purge.Erases.{purge_subject_exact}
use heartwood_memory.Store.Updates.{
  in_state, is_indexed, update_review_state, update_indexed, update_epistemic, set_epistemic,
}
use heartwood_memory.Store.Transact.{
  StoreOp, insert, supersede, set_review, set_indexed, set_trust, link, trace, delete, purge,
  drop_orphan, on_keys, audit, committed, transact, transact_all,
}
use heartwood_memory.Store.Final.Forgotten.{transact_all-IsForgotten}
use heartwood_memory.Store.Final.Kept.{transact_all-IsKept}

module _ (tenant subject : String) where
  shred-erases :
      (c : Codec) (s : Store)
      → IsErased (transact c s (on_keys (shred tenant subject))).keys tenant subject
  unfolding transact apply
  shred-erases c s = shred_key-IsErased tenant subject s.keys

  -- The order of a hard erasure: the key of the subject is shredded, other processes commit any
  -- transactions in between, and the purge succeeds. From then on the key is a tombstone and no row
  -- of the tenant names the subject, whatever transactions any process commits afterwards.
  pub forget_final :
      (c : Codec) (s : Store) (between later : List StoreOp) (can_load : Bool) (seeds : List String)
      (ids : List String × List String) (t : Store)
      → purge_subject can_load
          (transact_all c (transact c s (on_keys (shred tenant subject))) between)
          tenant
          subject
          seeds
        ≡ ok (ids, t)
      → IsErased (transact_all c t later).keys tenant subject
        × All (λ m. is_named tenant subject m ≡ false) (transact_all c t later).memories
  forget_final c s between later can_load seeds ids t h =
      let shredded_store = transact c s (on_keys (shred tenant subject)) in
      let busy = transact_all c shredded_store between in
      let (rows, unnamed, keys, log) =
        purge_subject_exact can_load busy tenant subject seeds ids t h in
      let erased = transact_all-IsKept tenant subject c shredded_store between (shred-erases c s) in
      transact_all-IsForgotten tenant subject c t later (rw keys erased, unnamed)
