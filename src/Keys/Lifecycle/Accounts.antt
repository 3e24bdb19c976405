-- ===== src/Keys/Lifecycle/Accounts.antt =====
-- The counters of `rewrap_tenant_keys` in heartwood/key_lifecycle.py.
use heartwood_memory.Prelude.{
  ℕ, suc, ◌+◌, ◌≤◌, ◌≡◌, refl, inl, inr, Bool, true, false, Option, none, some, List, [], ◌∷◌,
  String, arith, Bool-cases, if◌then◌else◌, ok, ◌>>=◌, >>=-eq-ok,
}
use heartwood_memory.Keys.{Blob, KeyRow, is_wrapped_key, is_shredded, put_key, wrap, unwrap}
use heartwood_memory.Keys.Lifecycle.{
  Counters, no_counts, at_limit, is_current, Rewrap, new_custodian, count_update, migrate,
  rewrap_row, rewrap_rows, iter_keys, RewrapReport, rewrap_tenant_keys,
}

-- Each listed row that was looked at is in one account, and the updates are within the limit.
pub record IsBalanced (limit : Option ℕ) (n : Counters) : Type 0 where
  pub rows : n.scanned ≡ n.migrated + (n.already + (n.skipped_shredded + n.skipped_missing))
  pub kinds : n.migrated ≡ n.raw_migrated + n.rewrapped
  pub writes : n.updates ≡ n.migrated
  pub within : (most : ℕ) → limit ≡ some most → n.updates ≤ most

-- A row that is about to be accounted for.
record IsPending (limit : Option ℕ) (n : Counters) : Type 0 where
  rows : n.scanned ≡ suc (n.migrated + (n.already + (n.skipped_shredded + n.skipped_missing)))
  kinds : n.migrated ≡ n.raw_migrated + n.rewrapped
  writes : n.updates ≡ n.migrated
  within : (most : ℕ) → limit ≡ some most → suc n.updates ≤ most

pending :
    (limit : Option ℕ) (n : Counters)
    → at_limit limit n.updates ≡ false
    → IsBalanced limit n
    → IsPending limit (record n { scanned = n.scanned + 1 })
pending limit n room b = record {
  rows = omega (arith, b.rows);
  kinds = b.kinds;
  writes = b.writes;
  within = λ most e. ground (arith, rw e at room);
}

shredded_counted :
    (limit : Option ℕ) (n : Counters)
    → IsPending limit n
    → IsBalanced limit (record n { skipped_shredded = n.skipped_shredded + 1 })
shredded_counted limit n b = record {
  rows = omega (arith, b.rows);
  kinds = b.kinds;
  writes = b.writes;
  within = λ most e. omega (arith, b.within most e);
}

missing_counted :
    (limit : Option ℕ) (n : Counters)
    → IsPending limit n
    → IsBalanced limit (record n { skipped_missing = n.skipped_missing + 1 })
missing_counted limit n b = record {
  rows = omega (arith, b.rows);
  kinds = b.kinds;
  writes = b.writes;
  within = λ most e. omega (arith, b.within most e);
}

already_counted :
    (limit : Option ℕ) (n : Counters)
    → IsPending limit n
    → IsBalanced limit (record n { already = n.already + 1 })
already_counted limit n b = record {
  rows = omega (arith, b.rows);
  kinds = b.kinds;
  writes = b.writes;
  within = λ most e. omega (arith, b.within most e);
}

update_counted :
    (limit : Option ℕ) (was_wrapped : Bool) (n : Counters)
    → IsPending limit n
    → IsBalanced limit (count_update was_wrapped n)
unfolding count_update
update_counted limit true n b = record {
  rows = omega (arith, b.rows);
  kinds = omega (arith, b.kinds);
  writes = omega (arith, b.writes);
  within = λ most e. omega (arith, b.within most e);
}
update_counted limit false n b = record {
  rows = omega (arith, b.rows);
  kinds = omega (arith, b.kinds);
  writes = omega (arith, b.writes);
  within = λ most e. omega (arith, b.within most e);
}

module _ (w : Rewrap) where
  abbrev Balanced : Counters × List KeyRow → Type 0
  Balanced out = IsBalanced w.max_updates out.0

  stored-Balanced :
      (done : Bool) (was_wrapped : Bool) (n : Counters) (t t' : List KeyRow)
      (out : Counters × List KeyRow)
      → IsPending w.max_updates n
      → ok (
          if done
          then (count_update was_wrapped n, t)
          else (record n { skipped_shredded = n.skipped_shredded + 1 }, t'))
        ≡ ok out
      → Balanced out
  stored-Balanced true was_wrapped n t t' out b h =
      let same : count_update was_wrapped n ≡ out.0 = cc in
      rw (← same) (update_counted w.max_updates was_wrapped n b)
  stored-Balanced false was_wrapped n t t' out b h =
      let same : (record n { skipped_shredded = n.skipped_shredded + 1 }) ≡ out.0 = cc in
      rw (← same) (shredded_counted w.max_updates n b)

  migrate-Balanced :
      (subject : String) (envelope : Blob) (t : List KeyRow) (n : Counters)
      (out : Counters × List KeyRow)
      → IsPending w.max_updates n
      → migrate w subject envelope t n ≡ ok out
      → Balanced out
  unfolding migrate
  migrate-Balanced subject envelope t n out b h =
      let (dek, opened, after) =
        >>=-eq-ok (unwrap w.crypto w.old w.bytes w.tenant subject envelope) _ h in
      let stored =
        put_key t w.tenant subject (wrap w.crypto (new_custodian w) w.tenant subject dek) in
      stored-Balanced stored.1 (is_wrapped_key envelope) n stored.0 stored.0 out b after

  skipped-Balanced :
      (erased : Bool) (n : Counters) (t : List KeyRow) (out : Counters × List KeyRow)
      → IsPending w.max_updates n
      → (if erased
          then ok (record n { skipped_shredded = n.skipped_shredded + 1 }, t)
          else ok (record n { skipped_missing = n.skipped_missing + 1 }, t))
        ≡ ok out
      → Balanced out
  skipped-Balanced true n t out b h =
      let same : (record n { skipped_shredded = n.skipped_shredded + 1 }) ≡ out.0 = cc in
      rw (← same) (shredded_counted w.max_updates n b)
  skipped-Balanced false n t out b h =
      let same : (record n { skipped_missing = n.skipped_missing + 1 }) ≡ out.0 = cc in
      rw (← same) (missing_counted w.max_updates n b)

  present-Balanced :
      (erased current : Bool) (subject : String) (envelope : Blob) (n : Counters) (t : List KeyRow)
      (out : Counters × List KeyRow)
      → IsPending w.max_updates n
      → (if erased
          then ok (record n { skipped_shredded = n.skipped_shredded + 1 }, t)
          else if current
          then (do
            opened ← unwrap w.crypto (new_custodian w) w.bytes w.tenant subject envelope
            ok (record n { already = n.already + 1 }, t))
          else migrate w subject envelope t n)
        ≡ ok out
      → Balanced out
  present-Balanced true current subject envelope n t out b h =
      let same : (record n { skipped_shredded = n.skipped_shredded + 1 }) ≡ out.0 = cc in
      rw (← same) (shredded_counted w.max_updates n b)
  present-Balanced false true subject envelope n t out b h =
      let (dek, opened, after) =
        >>=-eq-ok (unwrap w.crypto (new_custodian w) w.bytes w.tenant subject envelope) _ h in
      let same : (record n { already = n.already + 1 }) ≡ out.0 = cc in
      rw (← same) (already_counted w.max_updates n b)
  present-Balanced false false subject envelope n t out b h =
      migrate-Balanced subject envelope t n out b h

  rewrap_row-Balanced :
      (r : KeyRow) (dek : Option Blob) (t : List KeyRow) (n : Counters)
      (out : Counters × List KeyRow)
      → IsPending w.max_updates n
      → rewrap_row w r dek t n ≡ ok out
      → Balanced out
  unfolding rewrap_row
  rewrap_row-Balanced r none t n out b h = skipped-Balanced (is_shredded r.state) n t out b h
  rewrap_row-Balanced r (some envelope) t n out b h =
      present-Balanced (is_shredded r.state) (is_current w.key_id envelope) r.subject envelope n t
        out b h

  rewrap_rows-Balanced :
      (rows t : List KeyRow) (n : Counters) (out : Counters × List KeyRow)
      → IsBalanced w.max_updates n
      → rewrap_rows w rows t n ≡ ok out
      → Balanced out
  unfolding rewrap_rows
  rewrap_rows-Balanced [] t n out b h = let same : n ≡ out.0 = cc in rw (← same) b
  rewrap_rows-Balanced (r ∷ rows) t n out b h =
      elim (Bool-cases (at_limit w.max_updates n.updates)) [
        | inl full ↦
            let stopped : ok (record n { limit_reached = true }, t) ≡ ok out = rw full at h in
            let same : (record n { limit_reached = true }) ≡ out.0 = cc in
            rw (← same)
              (record { rows = b.rows; kinds = b.kinds; writes = b.writes; within = b.within })
        | inr room ↦
            let counted : Counters = record n { scanned = n.scanned + 1 } in
            let going = rw room at h in
            let (next, done, after) = >>=-eq-ok (rewrap_row w r r.dek t counted) _ going in
            rewrap_rows-Balanced rows next.1 next.0 out
              (rewrap_row-Balanced r r.dek t counted next (pending w.max_updates n room b) done)
              after
      ]

no_counts-IsBalanced : (limit : Option ℕ) → IsBalanced limit no_counts
no_counts-IsBalanced limit = record {
  rows = refl;
  kinds = refl;
  writes = refl;
  within = λ most e. omega arith;
}

-- A run of `rewrap_tenant_keys` that succeeds, whatever the key table, the custodians and the limit,
-- reports counters that balance: each row that was looked at is counted once, as migrated, as already
-- under the new key, as erased or as missing its key; the migrated ones are the raw keys and the
-- rewrapped ones together; each migration is one update; and when a limit on the updates was given,
-- they do not exceed it.
pub rewrap_tenant_keys-IsBalanced :
    (w : Rewrap) (t t' : List KeyRow) (report : RewrapReport)
    → rewrap_tenant_keys w t ≡ ok (report, t')
    → IsBalanced w.max_updates report.counts
unfolding rewrap_tenant_keys
rewrap_tenant_keys-IsBalanced w t t' report h =
    let (done, ran, after) = >>=-eq-ok (rewrap_rows w (iter_keys t w.tenant) t no_counts) _ h in
    let same : done.0 ≡ report.counts = cc in
    rw (← same) (
      rewrap_rows-Balanced w (iter_keys t w.tenant) t no_counts done
        (no_counts-IsBalanced w.max_updates) ran)
