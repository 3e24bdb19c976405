-- ===== src/Keys/Lifecycle.antt =====
-- heartwood/key_lifecycle.py: wrapping all of a tenant's keys under a new root, in bounded runs, and
-- the proof of erasure that counts what is left.
pub mod Accounts
pub mod Proof
use Prim.Native.Nat.{Ordering}
use heartwood_memory.Prelude.{
  ℕ, ◌+◌, Bool, true, false, not, ◌&&◌, ◌==◌, leb, Option, none, some, List, [], ◌∷◌, String,
  str_eq, opt_str_eq, filter, count_p, compare_text, if◌then◌else◌, Result, ok, ◌>>=◌,
}
use heartwood_memory.Keys.{
  Bytes, Blob, is_wrapped_key, envelope_key_id, Crypto, Custodian, local_kms, wrap, unwrap, KeyRow,
  is_shredded, put_key,
}

insert_by_subject : KeyRow → List KeyRow → List KeyRow
insert_by_subject r [] = r ∷ []
insert_by_subject r (x ∷ xs) = elim (compare_text r.subject x.subject) [
  | Ordering.gt ↦ x ∷ insert_by_subject r xs
  | _ ↦ r ∷ x ∷ xs
]

order_by_subject : List KeyRow → List KeyRow
unfolding insert_by_subject
order_by_subject [] = []
order_by_subject (r ∷ rows) = insert_by_subject r (order_by_subject rows)

-- `iter_keys`: the rows of a tenant, listed at once, ordered by subject.
unfoldable pub iter_keys : List KeyRow → String → List KeyRow
unfolding order_by_subject
iter_keys rows tenant = order_by_subject (filter (λ r. str_eq r.tenant tenant) rows)

-- The counters of `rewrap_tenant_keys`.
pub record Counters : Type 0 where
  pub scanned : ℕ
  pub migrated : ℕ
  pub raw_migrated : ℕ
  pub rewrapped : ℕ
  pub already : ℕ
  pub skipped_shredded : ℕ
  pub skipped_missing : ℕ
  pub updates : ℕ
  pub limit_reached : Bool

abbrev pub no_counts : Counters
no_counts = record {
  scanned = 0;
  migrated = 0;
  raw_migrated = 0;
  rewrapped = 0;
  already = 0;
  skipped_shredded = 0;
  skipped_missing = 0;
  updates = 0;
  limit_reached = false;
}

-- `max_updates is not None and updates >= max_updates`
abbrev pub at_limit : Option ℕ → ℕ → Bool
at_limit none updates = false
at_limit (some n) updates = leb n updates

-- The envelope names the new custodian's key.
unfoldable pub is_current : String → Blob → Bool
is_current key_id b = is_wrapped_key b && opt_str_eq (envelope_key_id b) (some key_id)

pub record Rewrap : Type 0 where
  pub crypto : Crypto
  pub bytes : Blob → Bytes
  pub old : Custodian
  pub root : Bytes
  pub key_id : String
  pub tenant : String
  pub max_updates : Option ℕ

abbrev pub new_custodian : Rewrap → Custodian
new_custodian w = local_kms w.root w.key_id

unfoldable pub count_update : Bool → Counters → Counters
count_update was_wrapped n =
    if was_wrapped
    then record n {
      updates = n.updates + 1;
      migrated = n.migrated + 1;
      rewrapped = n.rewrapped + 1;
    }
    else record n {
      updates = n.updates + 1;
      migrated = n.migrated + 1;
      raw_migrated = n.raw_migrated + 1;
    }

-- The end of a turn: the envelope is opened with the old custodian and stored under the new one,
-- unless the subject was erased after the rows were listed.
unfoldable pub migrate :
    Rewrap → String → Blob → List KeyRow → Counters → Result (Counters × List KeyRow)
unfolding count_update
migrate w subject envelope t n = do
  dek ← unwrap w.crypto w.old w.bytes w.tenant subject envelope
  let stored = put_key t w.tenant subject (wrap w.crypto (new_custodian w) w.tenant subject dek)
  ok (
      if stored.1
      then (count_update (is_wrapped_key envelope) n, stored.0)
      else (record n { skipped_shredded = n.skipped_shredded + 1 }, stored.0))

unfoldable pub rewrap_row :
    Rewrap → KeyRow → Option Blob → List KeyRow → Counters → Result (Counters × List KeyRow)
unfolding migrate
rewrap_row w r none t n =
    if is_shredded r.state
    then ok (record n { skipped_shredded = n.skipped_shredded + 1 }, t)
    else ok (record n { skipped_missing = n.skipped_missing + 1 }, t)
rewrap_row w r (some envelope) t n =
    if is_shredded r.state
    then ok (record n { skipped_shredded = n.skipped_shredded + 1 }, t)
    else if is_current w.key_id envelope
    then (do
      opened ← unwrap w.crypto (new_custodian w) w.bytes w.tenant r.subject envelope
      ok (record n { already = n.already + 1 }, t))
    else migrate w r.subject envelope t n

-- The loop over the listed rows.
unfoldable pub rewrap_rows :
    Rewrap → List KeyRow → List KeyRow → Counters → Result (Counters × List KeyRow)
unfolding rewrap_row
rewrap_rows w [] t n = ok (n, t)
rewrap_rows w (r ∷ rows) t n =
    if at_limit w.max_updates n.updates then ok (record n { limit_reached = true }, t) else do
      next ← rewrap_row w r r.dek t (record n { scanned = n.scanned + 1 })
      rewrap_rows w rows next.1 next.0

abbrev pub is_remaining : String → KeyRow → Option Blob → Bool
is_remaining key_id r none = false
is_remaining key_id r (some b) = not (is_shredded r.state) && not (is_current key_id b)

-- `_remaining_rewrap_count`
unfoldable pub remaining_rewrap_count : String → String → List KeyRow → ℕ
remaining_rewrap_count key_id tenant t =
    count_p (λ r. is_remaining key_id r r.dek) (iter_keys t tenant)

pub record RewrapReport : Type 0 where
  pub counts : Counters
  pub remaining : ℕ

unfoldable pub complete : RewrapReport → Bool
complete r = r.remaining == 0 && not r.counts.limit_reached

unfoldable pub rewrap_tenant_keys : Rewrap → List KeyRow → Result (RewrapReport × List KeyRow)
unfolding rewrap_rows remaining_rewrap_count
rewrap_tenant_keys w t = do
  done ← rewrap_rows w (iter_keys t w.tenant) t no_counts
  ok (
    record { counts = done.0; remaining = remaining_rewrap_count w.key_id w.tenant done.1 },
    done.1,
  )
