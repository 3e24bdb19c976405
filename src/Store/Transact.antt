-- ===== src/Store/Transact.antt =====
-- The transactions of `Store` in heartwood/store.py as steps, each committed by whichever process.
use heartwood_memory.Prelude.{ℕ, Bool, Option, List, [], ◌∷◌, String, Result, ok, raise}
use heartwood_memory.Envelope.{Epistemic, ReviewState, TruthStatus}
use heartwood_memory.Keys.Tombstone.{KeyOp, apply}
use heartwood_memory.Audit.{Codec, append_audit}
use heartwood_memory.Store.{
  Store, Edge, LineageRow, Target, Insertion, insert_memory_superseding, supersede_audited,
  add_edge, register_lineage,
}
use heartwood_memory.Store.Purge.{delete_memory, purge_subject, drop_orphan_vectors}
use heartwood_memory.Store.Updates.{update_review_state, update_indexed, update_epistemic}

pub data StoreOp : Type 0 where
  insert : Insertion → StoreOp
  supersede : String → List Target → String → List (List ℕ) → ℕ → StoreOp
  set_review : String → ReviewState → Option ReviewState → StoreOp
  set_indexed : String → Bool → Bool → StoreOp
  set_trust : String → Epistemic → Option String → Option TruthStatus → StoreOp
  link : Edge → StoreOp
  trace : LineageRow → StoreOp
  delete : String → StoreOp
  purge : Bool → String → String → List String → StoreOp
  drop_orphan : Bool → StoreOp
  on_keys : KeyOp → StoreOp
  audit : String → String → String → String → List ℕ → ℕ → StoreOp

-- The store after a call that may raise: a rollback leaves it as it was.
abbrev pub committed {ℓ} : {A : Type ℓ} → Store → Result (A × Store) → Store
committed s (ok r) = r.1
committed s (raise e) = s

unfoldable pub transact : Codec → Store → StoreOp → Store
transact c s (insert i) = committed s (insert_memory_superseding c s i)
transact c s (supersede tenant targets principal bodies ts) =
    committed s (supersede_audited c s tenant targets principal bodies ts)
transact c s (set_review id to expected) = (update_review_state s id to expected).1
transact c s (set_indexed id indexed expected) = (update_indexed s id indexed expected).1
transact c s (set_trust id e created_by truth) = update_epistemic s id e created_by truth
transact c s (link e) = record s { edges = add_edge s.edges e }
transact c s (trace l) = record s { lineage = register_lineage s.lineage l }
transact c s (delete id) = delete_memory s id
transact c s (purge can_load tenant subject seeds) =
    committed s (purge_subject can_load s tenant subject seeds)
transact c s (drop_orphan can_load) = committed s (drop_orphan_vectors can_load s)
transact c s (on_keys op) = record s { keys = apply s.keys op }
transact c s (audit tenant principal action target body ts) = record s {
  log = append_audit c s.log tenant principal action target body ts;
}

unfoldable pub transact_all : Codec → Store → List StoreOp → Store
transact_all c s [] = s
transact_all c s (op ∷ ops) = transact_all c (transact c s op) ops
