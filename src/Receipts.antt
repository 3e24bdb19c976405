-- ===== src/Receipts.antt =====
-- `verify_erasure_store` of heartwood/receipts.py: the claims of an erasure receipt, checked against
-- a store. The tables and columns that the code looks for first are those of the model's store, and
-- the rows hold their lists of aliases as the code wrote them.
pub mod Erased
pub mod Forgotten
use heartwood_memory.Prelude.{
  Bool, true, false, not, ◌&&◌, ◌||◌, Option, none, some, List, [], ◌∷◌, String, str_eq, elem, any,
  filter, if◌then◌else◌,
}
use heartwood_memory.Keys.{KeyRow, same_key, is_shredded, Blob, KeyState}
use heartwood_memory.Keys.Lifecycle.Proof.{prove_crypto_erase_store}
use heartwood_memory.Envelope.{Meta}
use heartwood_memory.Store.{Store, Edge, LineageRow}
use heartwood_memory.Store.Purge.{is_named, is_lineage_of}

-- What of a receipt is checked against the store.
pub record ErasureClaim : Type 0 where
  pub receipt_id : String
  pub tenant : String
  pub subject_id : String
  pub purged_memory_ids : List String

pub data StoreFailure : Type 0 where
  key_not_shredded receipt_named_memory_present receipt_named_provenance_edge_present : StoreFailure
  subject_rows_present subject_lineage_present receipt_named_lineage_present : StoreFailure
  tenant_raw_dek_present : StoreFailure

-- The last two are `None` in the code until they are checked, which is `false` here.
pub record Checked : Type 0 where
  pub key_shredded : Bool
  pub purged_ids_absent : Bool
  pub provenance_edges_absent : Bool
  pub subject_rows_absent : Bool
  pub lineage_rows_absent : Bool
  pub root_absence_asserted : Bool
  pub tenant_no_raw_deks : Bool

pub record StoreCheck : Type 0 where
  pub is_pass : Bool
  pub first_failure : Option StoreFailure
  pub checked : Checked

abbrev nothing_checked : Checked
nothing_checked = record {
  key_shredded = false;
  purged_ids_absent = false;
  provenance_edges_absent = false;
  subject_rows_absent = false;
  lineage_rows_absent = false;
  root_absence_asserted = false;
  tenant_no_raw_deks = false;
}

-- `_fail`
abbrev fail_check : Checked → StoreFailure → StoreCheck
fail_check checked why = record { is_pass = false; first_failure = some why; checked = checked }

abbrev pass_check : Checked → StoreCheck
pass_check checked = record { is_pass = true; first_failure = none; checked = checked }

abbrev pub is_null : Option Blob → Bool
is_null none = true
is_null (some b) = false

-- The one row of the key is a tombstone.
unfoldable pub is_sole_tombstone : List KeyRow → Bool
is_sole_tombstone [] = false
is_sole_tombstone (r ∷ []) = is_shredded r.state && is_null r.dek
is_sole_tombstone (r ∷ x ∷ rows) = false

-- The last check, of the whole tenant, is made when the root is said to be gone.
unfoldable pub check_root : ErasureClaim → Store → Option Bool → Checked → StoreCheck
check_root r s none checked = pass_check checked
check_root r s (some true) checked = pass_check checked
check_root r s (some false) checked =
    if (prove_crypto_erase_store s.keys r.tenant false).content_unrecoverable
    then pass_check (record checked { root_absence_asserted = true; tenant_no_raw_deks = true })
    else fail_check checked tenant_raw_dek_present

unfoldable pub check_lineage : ErasureClaim → Store → Option Bool → Checked → StoreCheck
unfolding check_root
check_lineage r s root_present checked =
    if any (is_lineage_of r.tenant r.subject_id) s.lineage
    then fail_check checked subject_lineage_present
    else if any (λ l. elem l.artifact_id r.purged_memory_ids) s.lineage
    then fail_check checked receipt_named_lineage_present
    else check_root r s root_present (record checked { lineage_rows_absent = true })

unfoldable pub check_subject : ErasureClaim → Store → Option Bool → Checked → StoreCheck
unfolding check_lineage
check_subject r s root_present checked =
    if any (is_named r.tenant r.subject_id) s.memories
    then fail_check checked subject_rows_present
    else check_lineage r s root_present (record checked { subject_rows_absent = true })

unfoldable pub check_purged : ErasureClaim → Store → Option Bool → Checked → StoreCheck
unfolding check_subject
check_purged r s root_present checked =
    if any (λ m. elem m.id r.purged_memory_ids) s.memories
    then fail_check checked receipt_named_memory_present
    else if any (λ e. elem e.child r.purged_memory_ids || elem e.parent r.purged_memory_ids) s.edges
    then fail_check checked receipt_named_provenance_edge_present
    else check_subject r s root_present
        (record checked { purged_ids_absent = true; provenance_edges_absent = true })

unfoldable pub verify_erasure_store : ErasureClaim → Store → Option Bool → StoreCheck
unfolding is_sole_tombstone check_purged
verify_erasure_store r s root_present =
    if is_sole_tombstone (filter (same_key r.tenant r.subject_id) s.keys)
    then check_purged r s root_present (record nothing_checked { key_shredded = true })
    else fail_check nothing_checked key_not_shredded
