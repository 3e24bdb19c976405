-- ===== src/Verbs.antt =====
-- heartwood/client.py: `transition_review` and `set_indexed`, which change one column of one row by a
-- guarded update and log it, and `purge`, which deletes one row. `meanwhile` is what other processes
-- commit between the read and the update.
pub mod Moved
pub mod Hidden
pub mod Purged
use heartwood_memory.Prelude.{
  ℕ, Bool, true, false, not, ◌&&◌, Option, none, some, List, [], String, str_eq, filter,
  if◌then◌else◌, Result, ok, raise, type_error, key_error, permission_error, runtime_error, ◌>>=◌,
  ◌>>◌, require,
}
use heartwood_memory.Envelope.{
  Meta, is_contract, ReviewState, proposed, accepted, rejected, superseded, disputed,
}
use heartwood_memory.Policy.{Principal}
use heartwood_memory.Review.{validate_transition}
use heartwood_memory.Audit.{Codec, Value}
use heartwood_memory.Audit.Chain.{append}
use heartwood_memory.Retirement.{get_meta}
use heartwood_memory.Store.{Store}
use heartwood_memory.Store.Purge.{delete_memory}
use heartwood_memory.VectorIndex.{Index, remove}
use heartwood_memory.Store.Updates.{update_review_state, update_indexed}

-- The text in which the column holds a state.
unfoldable pub state_text : Option ReviewState → Option String
state_text none = none
state_text (some proposed) = some "proposed"
state_text (some accepted) = some "accepted"
state_text (some rejected) = some "rejected"
state_text (some superseded) = some "superseded"
state_text (some disputed) = some "disputed"

-- A record of another tenant is refused like an unknown one.
unfoldable pub owned : String → Option Meta → Result Meta
owned tenant none = raise key_error
owned tenant (some m) = if str_eq m.tenant tenant then ok m else raise key_error

abbrev pub changed : Bool × Store → Result Store
changed (true, s) = ok s
changed (false, s) = raise runtime_error

-- `detail` is the change that the audit row tells of.
unfoldable pub transition_review :
    Codec
    → (Store → Store)
    → Store
    → String
    → Principal
    → Option String
    → (Option ReviewState → ReviewState → Value)
    → ℕ
    → String
    → Result Store
unfolding state_text owned update_review_state
transition_review c meanwhile s tenant p to detail ts id = do
  m ← owned tenant (get_meta s.memories id)
  next ← validate_transition (state_text m.review_state) to p.roles
  t ← changed (update_review_state (meanwhile s) id next m.review_state)
  ok (record t {
    log = append c t.log tenant p.id "review_transition" id (detail m.review_state next) ts;
  })

-- The ids whose texts and tokens the process holds in its caches, and the lists of ids for which it
-- holds a BM25 corpus.
pub record Caches : Type 0 where
  pub texts : List String
  pub tokens : List String
  pub corpora : List (List String)

abbrev pub without : String → List String → List String
without id ids = filter (λ x. not (str_eq x id)) ids

abbrev pub dropped : Bool → String → Caches → Caches
dropped true id k = k
dropped false id k = record k { texts = without id k.texts; tokens = without id k.tokens }

-- `none` is a value that is neither a `bool` nor 0 or 1.
abbrev pub flag_of : Option Bool → Result Bool
flag_of none = raise type_error
flag_of (some b) = ok b

unfoldable pub set_indexed :
    Codec
    → (Store → Store)
    → Store
    → Caches
    → String
    → String
    → Option Bool
    → (Bool → Bool → Value)
    → ℕ
    → String
    → Result (Store × Caches)
unfolding owned update_indexed
set_indexed c meanwhile s caches tenant actor indexed detail ts id = do
  target ← flag_of indexed
  m ← owned tenant (get_meta s.memories id)
  require (not (target && (is_contract m.kind && str_eq m.policy_scope "continuity-privileged")))
      permission_error
  t ← changed (update_indexed (meanwhile s) id target m.indexed)
  ok (
    record t { log = append c t.log tenant actor "index_state" id (detail m.indexed target) ts },
    dropped target id caches,
  )

abbrev pub was_stored : Option Meta → Bool
was_stored none = false
was_stored (some m) = true

-- Only a record that is stored for another tenant is refused.
unfoldable pub not_foreign : String → Option Meta → Result (Unit {0})
not_foreign tenant none = ok tt
not_foreign tenant (some m) = require (str_eq m.tenant tenant) key_error

-- Whether there was a row, and what is left of the store, the caches and the index.
pub record Left (V : Type 0) : Type 0 where
  pub existed : Bool
  pub store : Store
  pub caches : Caches
  pub index : Index V

unfoldable pub purge :
    {V : Type 0}
    → Codec
    → (Store → Store)
    → Store
    → Caches
    → Index V
    → String
    → String
    → Value
    → ℕ
    → String
    → Result (Left V)
unfolding not_foreign
purge c meanwhile s caches index tenant actor detail ts id = do
  not_foreign tenant (get_meta s.memories id)
  let t = delete_memory (meanwhile s) id
  ok (record {
    existed = was_stored (get_meta s.memories id);
    store = record t { log = append c t.log tenant actor "purge" id detail ts };
    caches = record (dropped false id caches) { corpora = [] };
    index = remove id index;
  })
