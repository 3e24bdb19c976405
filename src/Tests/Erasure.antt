-- ===== src/Tests/Erasure.antt =====
-- Erasure at a concrete store: alice's row, and the row derived from it.
use heartwood_memory.Prelude.{any, raise, value_error}
use heartwood_memory.Receipts.{ErasureClaim}
use heartwood_memory.Prelude.{
  ◌≡◌, ◌↔◌, refl, true, false, some, List, [], ◌∷◌, String, In, All, elem, ok, Result, sorted_set,
}
use heartwood_memory.Envelope.{Meta}
use heartwood_memory.Keys.Tombstone.{IsErased, shred, apply}
use heartwood_memory.Keys.{get_key, shred_key}
use heartwood_memory.Store.{Store, Insertion}
use heartwood_memory.Store.Updates.{update_indexed}
use heartwood_memory.Store.Purge.{
  check_aliases, is_malformed, descendants, is_named, is_lineage_of, selected, purge_subject,
}
use heartwood_memory.Store.Purge.Closure.{Derived}
use heartwood_memory.Store.Purge.Descendants.{descendants_iff}
use heartwood_memory.Store.Purge.Deletes.{IsGone, vectors_of}
use heartwood_memory.Store.Purge.Erases.{purge_subject_exact, purge_subject_traceless}
use heartwood_memory.Store.Transact.{StoreOp, insert, set_indexed, on_keys, transact, transact_all}
use heartwood_memory.Store.Final.{forget_final}
use heartwood_memory.Audit.{Value}
use heartwood_memory.Forget.{Report, event, forget}
use heartwood_memory.Forget.Complete.{forget_lasts, forget_returns}
use heartwood_memory.Tests.Samples.{
  sample_detail, sample_row, m1, m2, codec, sample_store, sample_edges, sample_keys,
}

-- The store that the purge of alice leaves.
abbrev purged : Store
purged = record {
  memories = m2 ∷ [];
  edges = [];
  lineage = [];
  keys = sample_keys;
  vectors = some ("m2" ∷ []);
  log = sample_store.log;
}

purge_test :
    purge_subject true sample_store "acme" "alice" [] ≡ ok (("m1" ∷ "m3" ∷ [], "m3" ∷ []), purged)
unfolding purge_subject sorted_set
purge_test = refl

descendants_iff_example :
    In "m3" (descendants sample_edges ("m1" ∷ []))
    ↔ (Derived sample_edges ("m1" ∷ []) "m3" × (elem "m3" ("m1" ∷ []) ≡ false))
descendants_iff_example = descendants_iff sample_edges ("m1" ∷ []) "m3"

purge_subject_exact_example :
    ((m : Meta)
      → In m purged.memories ↔ (
          In m sample_store.memories
          × ¬ Derived sample_store.edges (selected sample_store "acme" "alice" []) m.id))
    × All (λ m. is_named "acme" "alice" m ≡ false) purged.memories
    × (purged.keys ≡ sample_store.keys)
    × (purged.log ≡ sample_store.log)
purge_subject_exact_example =
    purge_subject_exact true sample_store "acme" "alice" [] ("m1" ∷ "m3" ∷ [], "m3" ∷ []) purged
      purge_test

purge_subject_traceless_example :
    ((x : String)
      → Derived sample_store.edges (selected sample_store "acme" "alice" []) x
      → IsGone purged x × (elem x (vectors_of purged.vectors) ≡ false))
    × All (λ l. is_lineage_of "acme" "alice" l ≡ false) purged.lineage
purge_subject_traceless_example =
    purge_subject_traceless true sample_store "acme" "alice" [] ("m1" ∷ "m3" ∷ [], "m3" ∷ []) purged
      purge_test

-- Another process writes a row of bob between the shred and the purge.
abbrev m5 : Meta
m5 = sample_row "m5" "bob" m2.classification []

abbrev write : Meta → Insertion
write m = record {
  meta = m;
  superseded = [];
  derived_from = [];
  principal = "ann";
  audit_body = [];
  live_parents = [];
  ts = 1;
}

abbrev between : List StoreOp
between = set_indexed "m2" false true ∷ []

abbrev shredded_store : Store
shredded_store =
    transact_all codec (transact codec sample_store (on_keys (shred "acme" "alice"))) between

abbrev finished : Result ((List String × List String) × Store) → Store
finished (ok r) = r.1
finished _ = sample_store

abbrev forgotten : Store
forgotten = record purged {
  memories = record m2 { indexed = false } ∷ [];
  keys = shred_key sample_keys "acme" "alice";
}

forget_test :
    purge_subject true shredded_store "acme" "alice" []
    ≡ ok (("m1" ∷ "m3" ∷ [], "m3" ∷ []), forgotten)
unfolding purge_subject sorted_set transact_all transact update_indexed apply shred_key
forget_test = refl

-- Afterwards a process tries to write about alice again.
abbrev later : List StoreOp
later = insert (write (sample_row "m6" "alice" m1.classification [])) ∷ insert (write m5) ∷ []

forget_final_example :
    IsErased (transact_all codec forgotten later).keys "acme" "alice"
    × All (λ m. is_named "acme" "alice" m ≡ false) (transact_all codec forgotten later).memories
forget_final_example =
    forget_final "acme" "alice" codec sample_store between later true []
      ("m1" ∷ "m3" ∷ [], "m3" ∷ []) forgotten forget_test

-- `forget` of alice, with the same transaction in between.
abbrev telling : Report → Value
telling r = sample_detail

abbrev reported : Report
reported = record { purged = 2; cascade = 1; key_shredded = true }

abbrev forgotten_logged : Store
forgotten_logged = transact codec forgotten (event codec "acme" "ann" "alice" sample_detail 5)

forget_run_test :
    forget codec true between telling 5 sample_store "acme" "ann" "alice" true
    ≡ ok (reported, forgotten_logged)
unfolding forget purge_subject sorted_set transact_all transact update_indexed apply shred_key
    get_key
forget_run_test = refl

forget_lasts_example :
    IsErased (transact_all codec forgotten_logged later).keys "acme" "alice"
    × All
        (λ m. is_named "acme" "alice" m ≡ false)
        (transact_all codec forgotten_logged later).memories
forget_lasts_example =
    forget_lasts codec between telling 5 sample_store "acme" "ann" "alice" true reported
      forgotten_logged later forget_run_test

abbrev found_at_purge : Store
found_at_purge =
    transact_all codec (transact codec sample_store (on_keys (shred "acme" "alice"))) between

forget_returns_example :
    ((r : Report) × (t : Store) × (forget codec true between telling 5 sample_store "acme" "ann"
          "alice" true
        ≡ ok (r, t)))
    ↔ ((any (is_malformed "acme") sample_store.memories ≡ false)
        × (any (is_malformed "acme") found_at_purge.memories ≡ false))
forget_returns_example = forget_returns codec between telling 5 sample_store "acme" "ann" "alice"

-- A row of another subject that is malformed stops the erasure.
malformed_test :
    forget codec true between telling 5
      (record sample_store { memories = m1 ∷ record m2 { has_readable_aliases = false } ∷ [] })
      "acme"
      "ann"
      "alice"
      true
    ≡ raise value_error
unfolding forget check_aliases
malformed_test = refl

abbrev claimed : ErasureClaim
claimed = record {
  receipt_id = "r1";
  tenant = "acme";
  subject_id = "alice";
  purged_memory_ids = "m1" ∷ "m3" ∷ [];
}
