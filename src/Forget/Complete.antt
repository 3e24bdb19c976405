-- ===== src/Forget/Complete.antt =====
-- A hard `forget` of heartwood/client.py comes to its end, and what it has erased stays erased.
use heartwood_memory.Prelude.{
  ℕ, ◌≡◌, ◌↔◌, refl, Bool, any, not, value_error, require-eq-ok, true, false, ◌&&◌, Option, none,
  some, List, [], ◌∷◌, String, arith, length, All, Result, ok, raise, runtime_error, require, ◌>>=◌,
  >>=-eq-ok,
}
use heartwood_memory.Envelope.{Meta}
use heartwood_memory.Keys.{get_key}
use heartwood_memory.Keys.Tombstone.{IsErased, shred, apply, shred_key-IsErased}
use heartwood_memory.Audit.{Codec, Value}
use heartwood_memory.Store.{Store}
use heartwood_memory.Store.Purge.{
  is_malformed, check_aliases, is_named, purge_subject, purged_ids, delete_vectors,
}
use heartwood_memory.Store.Transact.{StoreOp, on_keys, transact, transact_all}
use heartwood_memory.Store.Final.{forget_final}
use heartwood_memory.Forget.{
  Report, require_vector_erasure, is_some, is_tombstone, seed_ids, event, forget_hard, forget,
}

delete_returns :
    (ids : List String) (vectors : Option (List String))
    → (left : Option (List String)) × (delete_vectors true ids vectors ≡ ok left)
unfolding delete_vectors
delete_returns [] vectors = (vectors, refl)
delete_returns (id ∷ ids) none = (none, refl)
delete_returns (id ∷ ids) (some vs) = (_, refl)

continues :
    {A B : Type 0} (m : Result A) (f : A → B) {a : A}
    → m ≡ ok a
    → (b : B) × ((m >>= λ x. ok (f x)) ≡ ok b)
continues (raise e) f h = cc
continues (ok x) f h = (f x, refl)

-- The check of the aliases passes only where no row of the tenant is malformed.
check_aliases-ok :
    (memories : List Meta) (tenant : String) {u : Unit {0}}
    → check_aliases memories tenant ≡ ok u
    → any (is_malformed tenant) memories ≡ false
unfolding check_aliases
check_aliases-ok memories tenant h =
    ground (arith, require-eq-ok (not (any (is_malformed tenant) memories)) value_error h)

purge_returns :
    (s : Store) (tenant subject : String) (seeds : List String)
    → any (is_malformed tenant) s.memories ≡ false
    → (done : (List String × List String) × Store) × (purge_subject true s tenant subject seeds
        ≡ ok done)
unfolding purge_subject check_aliases
purge_returns s tenant subject seeds h =
    let (left, gone) = delete_returns (purged_ids s tenant subject seeds) s.vectors in
    rw h (continues (delete_vectors true (purged_ids s tenant subject seeds) s.vectors) _ gone)

purge-readable :
    (can_load : Bool) (s : Store) (tenant subject : String) (seeds : List String)
    (done : (List String × List String) × Store)
    → purge_subject can_load s tenant subject seeds ≡ ok done
    → any (is_malformed tenant) s.memories ≡ false
unfolding purge_subject
purge-readable can_load s tenant subject seeds done h =
    let (_, checked, _) = >>=-eq-ok (check_aliases s.memories tenant) _ h in
    check_aliases-ok s.memories tenant checked

shred-is_tombstone :
    (c : Codec) (s : Store) (tenant subject : String)
    → is_tombstone (get_key (transact c s (on_keys (shred tenant subject))).keys tenant subject)
      ≡ true
unfolding transact apply
shred-is_tombstone c s tenant subject =
    let (r, found, dead, empty) = shred_key-IsErased tenant subject s.keys in
    rw found (ground (arith, dead, empty))

module _ (c : Codec) (between : List StoreOp) (detail : Report → Value) (ts : ℕ) (s : Store)
    (tenant actor subject : String) where
  -- A hard erasure that succeeds leaves the subject's key a tombstone and no row of the tenant that
  -- names the subject, whatever other processes committed between its two transactions and commit
  -- after it.
  pub forget_lasts :
      (can_load : Bool) (r : Report) (t : Store) (later : List StoreOp)
      → forget c can_load between detail ts s tenant actor subject true ≡ ok (r, t)
      → IsErased (transact_all c t later).keys tenant subject
        × All (λ m. is_named tenant subject m ≡ false) (transact_all c t later).memories
  unfolding forget forget_hard transact_all
  forget_lasts can_load r t later h =
      let shredded_store = transact c s (on_keys (shred tenant subject)) in
      let busy = transact_all c shredded_store between in
      let (_, _, loaded) = >>=-eq-ok (require_vector_erasure can_load s) _ h in
      let (_, _, a) = >>=-eq-ok (check_aliases s.memories tenant) _ loaded in
      let (_, _, b) =
        >>=-eq-ok
          (require (is_tombstone (get_key shredded_store.keys tenant subject)) runtime_error) _ a in
      let (done, purged, e) =
        >>=-eq-ok (purge_subject can_load busy tenant subject (seed_ids s tenant subject)) _ b in
      let ev =
        event c tenant actor subject
          (detail
            (record { purged = length done.0.0; cascade = length done.0.1; key_shredded = true }))
          ts in
      let same : transact c done.1 ev ≡ t = cc in
      rw (← same) (
        forget_final tenant subject c s between (ev ∷ later) can_load (seed_ids s tenant subject)
          done.0 done.1 purged)

  -- The store that the purge of this erasure finds.
  abbrev at_purge : Store
  at_purge = transact_all c (transact c s (on_keys (shred tenant subject))) between

  comes_to_end :
      any (is_malformed tenant) s.memories ≡ false
      → any (is_malformed tenant) at_purge.memories ≡ false
      → (r : Report) × (t : Store) × (forget c true between detail ts s tenant actor subject true
          ≡ ok (r, t))
  unfolding forget forget_hard require_vector_erasure check_aliases
  comes_to_end readable still =
      let (done, purged) =
        purge_returns at_purge tenant subject (seed_ids s tenant subject) still in
      let loaded : (is_some s.vectors && false) ≡ false = ground arith in
      let report : Report = record {
        purged = length done.0.0;
        cascade = length done.0.1;
        key_shredded = true;
      } in
      (
        report,
        transact c done.1 (event c tenant actor subject (detail report) ts),
        rw (loaded, readable, shred-is_tombstone c s tenant subject, purged) refl,
      )

  ended :
      (r : Report) (t : Store)
      → forget c true between detail ts s tenant actor subject true ≡ ok (r, t)
      → (any (is_malformed tenant) s.memories ≡ false)
        × (any (is_malformed tenant) at_purge.memories ≡ false)
  unfolding forget forget_hard
  ended r t h =
      let (_, _, a) = >>=-eq-ok (require_vector_erasure true s) _ h in
      let (_, checked, b) = >>=-eq-ok (check_aliases s.memories tenant) _ a in
      let (_, _, e) =
        >>=-eq-ok
          (require
            (is_tombstone
              (get_key (transact c s (on_keys (shred tenant subject))).keys tenant subject))
            runtime_error)
          _ b in
      let (done, purged, _) =
        >>=-eq-ok (purge_subject true at_purge tenant subject (seed_ids s tenant subject)) _ e in
      (
        check_aliases-ok s.memories tenant checked,
        purge-readable true at_purge tenant subject (seed_ids s tenant subject) done purged,
      )

  -- A hard erasure by a process that can load sqlite-vec returns exactly if no row of the tenant has a
  -- malformed column of aliases, neither in the store that it starts from nor, after what other
  -- processes commit in between, in the store that it purges.
  pub forget_returns :
      ((r : Report) × (t : Store) × (forget c true between detail ts s tenant actor subject true
          ≡ ok (r, t)))
      ↔ ((any (is_malformed tenant) s.memories ≡ false)
          × (any (is_malformed tenant) at_purge.memories ≡ false))
  forget_returns = (λ k. ended k.0 k.1 k.2, λ k. comes_to_end k.0 k.1)
