-- ===== src/Tests/Keeping.antt =====
-- Key custody at concrete tables.
use heartwood_memory.Prelude.{All, false}
use heartwood_memory.Keys.Lifecycle.{complete}
use heartwood_memory.Keys.Lifecycle.Proof.{
  prove_crypto_erase_store, IsWrapped, rewrap_tenant_keys-proved,
}
use heartwood_memory.Prelude.{Result, true, false, ◌⊎◌}
use heartwood_memory.Keys.{is_wrapped_key, unwrap, wrap, envelope_key_id}
use heartwood_memory.Keys.Lifecycle.{
  is_current, Counters, Rewrap, RewrapReport, rewrap_tenant_keys, iter_keys,
}
use heartwood_memory.Keys.Lifecycle.Accounts.{IsBalanced, rewrap_tenant_keys-IsBalanced}
use heartwood_memory.Prelude.{◌≡◌, refl, none, some, [], ◌∷◌, ok, raise, key_error}
use heartwood_memory.Keys.{
  get_key, put_key, is_shredded, Blob, raw, wrapped, raw_local, local_kms, shred_key,
}
use heartwood_memory.Keys.Tombstone.{IsErased, shred_key-IsErased}
use heartwood_memory.Keys.Custody.{get, get_or_create}
use heartwood_memory.Keys.Custody.Erased.{erased_key_refused}
use heartwood_memory.Keys.Custody.Shared.{get-get_or_create}
use heartwood_memory.Keys.{Bytes, KeyRow}
use heartwood_memory.Tests.Samples.{crypto, sample_keys}
use heartwood_memory.Prelude.{List}

abbrev bytes_of : Blob → Bytes
bytes_of (raw b) = b
bytes_of (wrapped alg key_id dek) = dek

-- A raw key that is wrapped on its first access under a KMS custodian.
abbrev wrapped_keys : List KeyRow
wrapped_keys =
    (get_or_create crypto (local_kms (1 ∷ []) "k1") bytes_of "acme" "alice" (5 ∷ []) (λ x. x)
      sample_keys).1

get-get_or_create_example :
    (get crypto (local_kms (1 ∷ []) "k1") bytes_of "acme" "alice" wrapped_keys).0
    ≡ ok (some (7 ∷ []))
unfolding get_or_create get_key put_key
get-get_or_create_example =
    get-get_or_create crypto (local_kms (1 ∷ []) "k1") bytes_of "acme" "alice" (5 ∷ []) (7 ∷ [])
      sample_keys wrapped_keys refl

-- Alice has a key when the writer looks, and is erased right after: the writer goes on with the key
-- that it read, and the tombstone stays.
abbrev erasing : List KeyRow → List KeyRow
erasing t = shred_key t "acme" "alice"

late_test :
    (get_or_create crypto raw_local bytes_of "acme" "alice" (5 ∷ []) erasing sample_keys).0
    ≡ ok (7 ∷ [])
unfolding get_or_create get_key
late_test = refl

erased_key_refused_example :
    IsErased
      (get_or_create crypto raw_local bytes_of "acme" "alice" (5 ∷ []) erasing sample_keys).1
      "acme"
      "alice"
    × (((get_or_create crypto raw_local bytes_of "acme" "alice" (5 ∷ []) erasing sample_keys).0
          ≡ raise key_error)
        ⊎ ((r : KeyRow) × (b : Blob) × (get_key sample_keys "acme" "alice" ≡ some r)
            × (is_shredded r.state ≡ false)
            × (r.dek ≡ some b)))
    × (get crypto raw_local bytes_of "acme" "alice" (erasing sample_keys)
        ≡ (ok none, erasing sample_keys))
erased_key_refused_example =
    erased_key_refused crypto raw_local bytes_of "acme" "alice" (5 ∷ []) erasing sample_keys
      (shred_key-IsErased "acme" "alice" sample_keys)

-- The keys of the tenant move to a new root, one update in this run.
abbrev moved : Rewrap
moved = record {
  crypto = crypto;
  bytes = bytes_of;
  old = local_kms (1 ∷ []) "k1";
  root = 2 ∷ [];
  key_id = "k2";
  tenant = "acme";
  max_updates = some 1;
}

abbrev moved_keys : Result (RewrapReport × List KeyRow) → List KeyRow
moved_keys (ok out) = out.1
moved_keys (raise e) = []

abbrev moved_counts : Counters
moved_counts = record {
  scanned = 1;
  migrated = 1;
  raw_migrated = 1;
  rewrapped = 0;
  already = 0;
  skipped_shredded = 0;
  skipped_missing = 0;
  updates = 1;
  limit_reached = true;
}

rewrap_tenant_keys-IsBalanced_example : IsBalanced (some 1) moved_counts
unfolding rewrap_tenant_keys iter_keys is_current is_wrapped_key unwrap put_key wrap envelope_key_id
rewrap_tenant_keys-IsBalanced_example =
    rewrap_tenant_keys-IsBalanced moved sample_keys
      (moved_keys (rewrap_tenant_keys moved sample_keys))
      (record { counts = moved_counts; remaining = 1 }) refl

-- The same move with no limit.
abbrev moved_whole : Rewrap
moved_whole = record moved { max_updates = none }

abbrev whole_report : Result (RewrapReport × List KeyRow) → RewrapReport
whole_report (ok out) = out.0
whole_report (raise e) = record { counts = moved_counts; remaining = 1 }

rewrap_tenant_keys-proved_example :
    ((prove_crypto_erase_store
        (moved_keys (rewrap_tenant_keys moved_whole sample_keys))
        "acme"
        false).proved
      ≡ true)
    × All IsWrapped (iter_keys (moved_keys (rewrap_tenant_keys moved_whole sample_keys)) "acme")
    × ((prove_crypto_erase_store
          (moved_keys (rewrap_tenant_keys moved_whole sample_keys))
          "acme"
          true).proved
        ≡ false)
unfolding rewrap_tenant_keys iter_keys is_current is_wrapped_key unwrap put_key wrap envelope_key_id
    complete
rewrap_tenant_keys-proved_example =
    rewrap_tenant_keys-proved moved_whole sample_keys
      (moved_keys (rewrap_tenant_keys moved_whole sample_keys))
      (whole_report (rewrap_tenant_keys moved_whole sample_keys)) refl refl
