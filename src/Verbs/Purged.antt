-- ===== src/Verbs/Purged.antt =====
-- What `purge` of heartwood/client.py leaves of a memory.
use heartwood_memory.Prelude.{
  ℕ, ◌≡◌, refl, sym, subst, inl, inr, false, not, Option, none, some, [], String, str_eq,
  str_eq_iff, elem, any, filter, All, Bool-cases, ok, >>=-eq-ok, ok_injective, require-eq-ok,
  key_error,
}
use heartwood_memory.Envelope.{Meta}
use heartwood_memory.Audit.{Codec, Value, Log}
use heartwood_memory.Audit.Chain.{append}
use heartwood_memory.Retirement.{get_meta}
use heartwood_memory.Store.{Store}
use heartwood_memory.Store.Purge.{delete_memory}
use heartwood_memory.Store.Purge.Deletes.{IsGone, delete-IsGone, filtered_out}
use heartwood_memory.VectorIndex.{Item, Index, has_id, remove}
use heartwood_memory.VectorIndex.Coherent.{filter-all}
use heartwood_memory.Verbs.{Caches, Left, was_stored, not_foreign, purge}
use heartwood_memory.Verbs.Hidden.{without-elem}

remove-items :
    {V : Type 0} (id : String) (x : Index V)
    → (remove id x).items ≡ filter (λ i. not (has_id id i)) x.items
unfolding remove
remove-items id x = elim (Bool-cases (any (has_id id) x.items)) [
  | inl e ↦ rw e refl
  | inr e ↦ rw e (sym (filter-all (has_id id) x.items e))
]

not_foreign-ok :
    (tenant : String) (found : Option Meta) {u : Unit {0}} (m : Meta)
    → not_foreign tenant found ≡ ok u
    → found ≡ some m
    → m.tenant ≡ tenant
unfolding not_foreign
not_foreign-ok tenant none m h e = cc
not_foreign-ok tenant (some row) m h e =
    let same : row ≡ m = cc (e) in
    rw (← same)
      ((str_eq_iff row.tenant tenant).0 (require-eq-ok (str_eq row.tenant tenant) key_error h))

-- What is left of the id when `s` was read and `now` is the store that the purge deletes from; `log`
-- is the audit log it leaves.
pub record IsPurged {V : Type 0} (s now : Store) (log : Log) (tenant id : String) (r : Left V)
    : Type 0 where
  pub is_gone : IsGone r.store id
  pub same_vectors : r.store.vectors ≡ now.vectors
  pub same_keys : r.store.keys ≡ now.keys
  pub is_logged : r.store.log ≡ log
  pub no_text : elem id r.caches.texts ≡ false
  pub no_tokens : elem id r.caches.tokens ≡ false
  pub no_corpora : r.caches.corpora ≡ []
  pub no_vector : All (λ (i : Item V). str_eq i.mem_id id ≡ false) r.index.items
  pub is_owned : (m : Meta) → get_meta s.memories id ≡ some m → m.tenant ≡ tenant
  pub is_told : r.existed ≡ was_stored (get_meta s.memories id)

-- A purge that succeeds leaves no row, edge or lineage of the id in the store, no text and no tokens
-- of it in the caches, no corpus at all, and no vector of it in the in-memory index, whatever other
-- processes did before it. The audit log gains one row, which names the id; the stored vectors and the
-- keys are as they were. It says whether the row was there when it was read, and then it was the
-- tenant's own.
pub purge-IsPurged :
    {V : Type 0} (c : Codec) (meanwhile : Store → Store) (s : Store) (caches : Caches)
    (index : Index V) (tenant actor : String) (detail : Value) (ts : ℕ) (id : String) (r : Left V)
    → purge c meanwhile s caches index tenant actor detail ts id ≡ ok r
    → IsPurged s
        (meanwhile s)
        (append c (meanwhile s).log tenant actor "purge" id detail ts)
        tenant
        id
        r
unfolding purge
purge-IsPurged {V} c meanwhile s caches index tenant actor detail ts id r h =
    let (_, checked, last) = >>=-eq-ok (not_foreign tenant (get_meta s.memories id)) _ h in
    subst
      (IsPurged s (meanwhile s) (append c (meanwhile s).log tenant actor "purge" id detail ts)
        tenant id)
      (ok_injective _ r last)
      (record {
        is_gone = gone;
        same_vectors = unfold delete_memory in refl;
        same_keys = unfold delete_memory in refl;
        is_logged = unfold delete_memory in refl;
        no_text = without-elem id caches.texts;
        no_tokens = without-elem id caches.tokens;
        no_corpora = refl;
        no_vector = rw (remove-items id index) (filtered_out (has_id id) index.items);
        is_owned = λ m e. not_foreign-ok tenant (get_meta s.memories id) m checked e;
        is_told = refl;
      })
  where
    left : Store
    left = delete_memory (meanwhile s) id

    gone : IsGone (record left { log = append c left.log tenant actor "purge" id detail ts }) id
    gone = unfold delete_memory in delete-IsGone id (meanwhile s)
