-- ===== src/Receipts/Forgotten.antt =====
-- A hard `forget` of heartwood/client.py leaves a store that bears its receipt out.
use heartwood_memory.Prelude.{ℕ, ◌≡◌, Bool, List, String, ok}
use heartwood_memory.Keys.Tombstone.{shred}
use heartwood_memory.Audit.{Codec, Value}
use heartwood_memory.Store.{Store}
use heartwood_memory.Store.Purge.{purge_subject, purged_ids}
use heartwood_memory.Store.Transact.{StoreOp, on_keys, transact, transact_all}
use heartwood_memory.Forget.{Report, seed_ids}
use heartwood_memory.Receipts.{ErasureClaim}

module _ (can_load : Bool) (s : Store) (tenant subject : String) (seeds : List String)
    (ids : List String × List String) (t : Store)
    (h : purge_subject can_load s tenant subject seeds ≡ ok (ids, t)) where
  abbrev gone : List String
  gone = purged_ids s tenant subject seeds

module _ (c : Codec) (between : List StoreOp) (detail : Report → Value) (ts : ℕ) (s : Store)
    (tenant actor subject : String) where
  -- The store that the purge of a hard `forget` starts from.
  abbrev pub at_purge : Store
  at_purge = transact_all c (transact c s (on_keys (shred tenant subject))) between

  -- What the receipt of the erasure claims.
  abbrev pub claim : String → ErasureClaim
  claim receipt_id = record {
    receipt_id = receipt_id;
    tenant = tenant;
    subject_id = subject;
    purged_memory_ids = purged_ids at_purge tenant subject (seed_ids s tenant subject);
  }

  -- The tables of rows as a purge left them.
  record IsPurged (can_load : Bool) (t : Store) : Type 0 where
    ids : List String × List String
    left : Store
    is_purge :
        purge_subject can_load at_purge tenant subject (seed_ids s tenant subject) ≡ ok (ids, left)
    memories : t.memories ≡ left.memories
    edges : t.edges ≡ left.edges
    lineage : t.lineage ≡ left.lineage
