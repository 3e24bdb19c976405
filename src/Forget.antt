-- ===== src/Forget.antt =====
-- `forget` of heartwood/client.py without an anchor writer: soft, or hard with the key destroyed
-- first and the rows purged after. What it removes from the caches and the in-memory index after the
-- purge is left out.
pub mod Complete
use heartwood_memory.Prelude.{
  ℕ, Bool, true, false, not, ◌&&◌, Option, none, some, List, [], ◌∷◌, ◌++◌, String, length,
  sorted_set, compare_text, if◌then◌else◌, Result, ok, raise, runtime_error, ◌>>=◌, ◌>>◌, require,
}
use heartwood_memory.Keys.{KeyRow, get_key, shred_key, is_shredded}
use heartwood_memory.Keys.Tombstone.{shred}
use heartwood_memory.Audit.{Codec, Value, audit_fields}
use heartwood_memory.Store.{Store}
use heartwood_memory.Store.Purge.{check_aliases, subject_ids, lineage_memory_ids, purge_subject}
use heartwood_memory.Store.Transact.{StoreOp, on_keys, audit, transact, transact_all}

-- What `forget` returns, of which the counts are the sizes of two sets.
pub record Report : Type 0 where
  pub purged : ℕ
  pub cascade : ℕ
  pub key_shredded : Bool

abbrev pub is_some : {A : Type 0} → Option A → Bool
is_some none = false
is_some (some x) = true

-- `require_vector_erasure`
unfoldable pub require_vector_erasure : Bool → Store → Result (Unit {0})
require_vector_erasure can_load s = require (not (is_some s.vectors && not can_load)) runtime_error

-- `envelope is not None or key_state != "shredded"`, of the row read back.
abbrev pub is_tombstone : Option KeyRow → Bool
is_tombstone none = false
is_tombstone (some r) = not (is_some r.dek) && is_shredded r.state

-- The seed that is resolved before the key is shredded, once `check_aliases` has passed.
unfoldable pub seed_ids : Store → String → String → List String
unfolding subject_ids lineage_memory_ids
seed_ids s tenant subject =
    sorted_set compare_text
      (subject_ids s.memories tenant subject ++ lineage_memory_ids s.lineage tenant subject)

-- The audit row of an event, as a transaction.
abbrev pub event : Codec → String → String → String → Value → ℕ → StoreOp
event c tenant actor subject detail ts =
    audit tenant actor "forget" subject
      (c.dumps (audit_fields tenant actor "forget" subject detail)) ts

-- `between` is what other processes commit after the shred and before the purge; `detail` is what
-- the audit row tells.
unfoldable pub forget_hard :
    Codec
    → Bool
    → List StoreOp
    → (Report → Value)
    → ℕ
    → Store
    → String
    → String
    → String
    → Result (Report × Store)
unfolding require_vector_erasure check_aliases seed_ids
forget_hard c can_load between detail ts s tenant actor subject = do
  require_vector_erasure can_load s
  check_aliases s.memories tenant
  let shredded_store = transact c s (on_keys (shred tenant subject))
  require (is_tombstone (get_key shredded_store.keys tenant subject)) runtime_error
  done ←
      purge_subject can_load (transact_all c shredded_store between) tenant subject
        (seed_ids s tenant subject)
  let report : Report = record {
    purged = length done.0.0;
    cascade = length done.0.1;
    key_shredded = true;
  }
  ok (report, transact c done.1 (event c tenant actor subject (detail report) ts))

abbrev pub nothing_erased : Report
nothing_erased = record { purged = 0; cascade = 0; key_shredded = false }

unfoldable pub forget :
    Codec
    → Bool
    → List StoreOp
    → (Report → Value)
    → ℕ
    → Store
    → String
    → String
    → String
    → Bool
    → Result (Report × Store)
unfolding forget_hard
forget c can_load between detail ts s tenant actor subject false =
    ok (nothing_erased, transact c s (event c tenant actor subject (detail nothing_erased) ts))
forget c can_load between detail ts s tenant actor subject true =
    forget_hard c can_load between detail ts s tenant actor subject
