-- ===== src/Tests/Changing.antt =====
-- A transition, a change of the index and a purge at the sample store.
use heartwood_memory.Prelude.{
  true, ℕ, String, ◌≡◌, refl, Bool, false, Option, some, List, [], ◌∷◌, arith, str_eq, elem, All,
  ok, raise, runtime_error,
}
use heartwood_memory.Envelope.{Meta, accepted, disputed, rejected, ReviewState, gates}
use heartwood_memory.Policy.{Principal, allowed_view, visible, passes_gates, attr_missing}
use heartwood_memory.Review.{validate_transition, legal}
use heartwood_memory.Audit.{Value}
use heartwood_memory.Audit.Chain.{append}
use heartwood_memory.Recall.{recall_view}
use heartwood_memory.Retirement.{get_meta}
use heartwood_memory.Store.{Store}
use heartwood_memory.Store.Updates.{update_review_state, update_indexed}
use heartwood_memory.Verbs.{Caches, owned, transition_review, set_indexed, Left, not_foreign, purge}
use heartwood_memory.Verbs.Purged.{IsPurged, purge-IsPurged}
use heartwood_memory.VectorIndex.{Item, Index, remove}
use heartwood_memory.Store.Purge.{delete_memory}
use heartwood_memory.Verbs.Moved.{IsMoved, transition_review-IsMoved}
use heartwood_memory.Verbs.Hidden.{set_indexed-hides}
use heartwood_memory.Tests.Samples.{codec, m1, m2, m3, reader, sample_store, sample_detail, no_log}
use heartwood_memory.Tests.Querying.{no_filters}

abbrev reviewer : Principal
reviewer = record reader { id = "eve"; roles = "reviewer" ∷ [] }

abbrev told : Option ReviewState → ReviewState → Value
told frm to = sample_detail

abbrev disputed_store : Store
disputed_store = record sample_store {
  memories = m1 ∷ record m2 { review_state = some disputed } ∷ m3 ∷ [];
  log = append codec no_log "acme" "eve" "review_transition" "m2" sample_detail 5;
}

transition_test :
    transition_review codec (λ s. s) sample_store "acme" reviewer (some "disputed") told 5 "m2"
    ≡ ok disputed_store
unfolding transition_review validate_transition get_meta owned update_review_state legal
transition_test = refl

transition_review-IsMoved_example :
    IsMoved codec sample_store sample_store disputed_store "acme" reviewer
      (some "disputed")
      told
      5
      "m2"
transition_review-IsMoved_example =
    transition_review-IsMoved codec (λ s. s) sample_store disputed_store "acme" reviewer
      (some "disputed") told 5 "m2" transition_test

-- Another reviewer rejects the record between the read and the update.
abbrev reject : Store → Store
reject s = (update_review_state s "m2" rejected (some accepted)).1

transition_race_test :
    transition_review codec reject sample_store "acme" reviewer (some "disputed") told 5 "m2"
    ≡ raise runtime_error
unfolding transition_review validate_transition get_meta owned update_review_state legal
transition_race_test = refl

abbrev warm : Caches
warm = record { texts = "m1" ∷ "m2" ∷ []; tokens = "m2" ∷ []; corpora = [] }

abbrev noted : Bool → Bool → Value
noted frm to = sample_detail

abbrev hidden_store : Store
hidden_store = record sample_store {
  memories = m1 ∷ record m2 { indexed = false } ∷ m3 ∷ [];
  log = append codec no_log "acme" "eve" "index_state" "m2" sample_detail 5;
}

hide_test :
    set_indexed codec (λ s. s) sample_store warm "acme" "eve" (some false) noted 5 "m2"
    ≡ ok (hidden_store, record { texts = "m1" ∷ []; tokens = []; corpora = [] })
unfolding set_indexed get_meta owned update_indexed
hide_test = refl

view_test : recall_view 9 reader no_filters hidden_store.memories ≡ ok (m1 ∷ [], 1)
unfolding recall_view allowed_view visible passes_gates gates attr_missing
view_test = refl

set_indexed-hides_example :
    All (λ (m : Meta). str_eq m.id "m2" ≡ false) (m1 ∷ [])
    × (elem "m2" ("m1" ∷ []) ≡ false)
    × (elem "m2" [] ≡ false)
    × (◌≡◌ {A = List (List String)} [] [])
set_indexed-hides_example =
    set_indexed-hides codec (λ s. s) sample_store hidden_store warm
      (record { texts = "m1" ∷ []; tokens = []; corpora = [] }) "acme" "eve" noted 5 "m2" 9 reader
      no_filters (m1 ∷ []) 1 hide_test (omega arith) view_test

abbrev entry : String → Item ℕ
entry id = record { mem_id = id; tenant = "acme"; vector = 7 }

abbrev vectors : Index ℕ
vectors = record {
  items = entry "m1" ∷ entry "m2" ∷ [];
  matrix_dirty = false;
  matrix_ids = "m1" ∷ "m2" ∷ [];
  matrix_tenants = "acme" ∷ "acme" ∷ [];
  matrix = some (7 ∷ 7 ∷ []);
}

abbrev purged : Left ℕ
purged = record {
  existed = true;
  store = record (delete_memory sample_store "m2") {
    log = append codec no_log "acme" "eve" "purge" "m2" sample_detail 5;
  };
  caches = record { texts = "m1" ∷ []; tokens = []; corpora = [] };
  index = record vectors { items = entry "m1" ∷ []; matrix_dirty = true };
}

purge_test :
    purge codec (λ s. s) sample_store warm vectors "acme" "eve" sample_detail 5 "m2" ≡ ok purged
unfolding purge get_meta not_foreign remove delete_memory
purge_test = refl

purge-IsPurged_example :
    IsPurged sample_store sample_store
      (append codec no_log "acme" "eve" "purge" "m2" sample_detail 5)
      "acme"
      "m2"
      purged
purge-IsPurged_example =
    purge-IsPurged codec (λ s. s) sample_store warm vectors "acme" "eve" sample_detail 5 "m2" purged
      purge_test
