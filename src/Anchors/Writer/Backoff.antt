-- ===== src/Anchors/Writer/Backoff.antt =====
-- What a failed call of `anchor` in heartwood/anchors.py leaves, and what `maybe_anchor` does next.
use heartwood_memory.Prelude.{
  ℕ, zero, suc, ◌+◌, ◌*◌, ◌<◌, ◌≤◌, ◌≡◌, refl, sym, ap, ◌∙◌, min, true, ltb, some, arith, String,
  Bool-cases, inl, inr, Result, ok, raise,
}
use heartwood_memory.Anchors.Verify.{Failure, Receipt, Head, audit_head_snapshot}
use heartwood_memory.Anchors.Writer.{
  Deployment, World, Moments, Others, Step, Anchoring, failed, verify, read_back, write_anchor,
  reuse_anchor, anchor_latest, anchor_steps, or_write_error, write_error, anchor, retry_delay,
  power_of_2,
}
use heartwood_memory.Anchors.Cadence.{maybe_anchor, after_status, status_of, MaybeAnchored}

module _ (d : Deployment) (at : Moments) (head : Head) where
  -- A step that raises leaves the count of failures.
  abbrev Keeps : World → Step Anchoring → Type 0
  Keeps w (raise why, x) = x.consecutive_failures ≡ w.consecutive_failures
  Keeps w (ok done, x) = Unit

  steps_keep :
      (id : String) (others : Others) (w : World) → Keeps w (anchor_steps d at id others head w)
  unfolding anchor_steps anchor_latest write_anchor reuse_anchor read_back verify
  steps_keep id others w = ground arith

power_pos : (n : ℕ) → 1 ≤ power_of_2 n
power_pos zero = omega arith
power_pos (suc n) = omega (arith, power_pos n)

le-mul_pos : (b p : ℕ) → 1 ≤ p → b ≤ b * p
le-mul_pos b p h = grind arith

mul_double : (b p : ℕ) → b * (2 * p) ≡ 2 * (b * p)
mul_double b p = grind arith

-- Between the first delay and the longest one, and not shorter after one more failure.
pub record IsBackoff (d : Deployment) (n delay : ℕ) : Type 0 where
  pub exact : delay ≡ min (d.retry_backoff_s * power_of_2 n) d.retry_backoff_max_s
  pub at_most : delay ≤ d.retry_backoff_max_s
  pub at_least : min d.retry_backoff_s d.retry_backoff_max_s ≤ delay
  pub grows : delay ≤ retry_delay d (suc n)

retry_delay-IsBackoff : (d : Deployment) (n : ℕ) → IsBackoff d n (retry_delay d n)
unfolding retry_delay
retry_delay-IsBackoff d n =
    let b = d.retry_backoff_s in
    let p = power_of_2 n in
    let grown = le-mul_pos b p (power_pos n) in
    let doubled = mul_double b p in
    record {
      exact = refl;
      at_most = omega arith;
      at_least = omega (arith, grown);
      grows = omega (arith, doubled);
    }

-- What a failed call leaves.
record IsFailed (d : Deployment) (at : Moments) (w : World) (f : Failure) (w' : World)
    : Type 0 where
  is_stored : w'.tables.anchor_failure ≡ some f
  is_counted : w'.consecutive_failures ≡ suc w.consecutive_failures
  is_delay : f.retry_after_seconds ≡ retry_delay d w.consecutive_failures
  retries : w'.next_retry_at ≡ at.failed + f.retry_after_seconds

anchor-IsFailed :
    (d : Deployment) (at : Moments) (id : String) (others : Others) (w w' : World) (f : Failure)
    → anchor d at id others w ≡ (failed f, w')
    → IsFailed d at w f w'
unfolding anchor or_write_error write_error
anchor-IsFailed d at id others w w' f h =
    finish (anchor_steps d at id others (audit_head_snapshot w.tables.log) w)
      (steps_keep d at (audit_head_snapshot w.tables.log) id others w) h
  where
    finish :
        (out : Step Anchoring)
        → Keeps d at (audit_head_snapshot w.tables.log) w out
        → or_write_error d at (audit_head_snapshot w.tables.log).seq out ≡ (failed f, w')
        → IsFailed d at w f w'
    finish (raise why, x) k e =
        let (f0, w0) = write_error d at.failed (audit_head_snapshot w.tables.log).seq why x in
        let same : f0 ≡ f = cc in
        let world : w' ≡ w0 = cc in
        record {
          is_stored = ap (λ y. y.tables.anchor_failure) world ∙ ap some same;
          is_counted = ap World.consecutive_failures world ∙ ap suc k;
          is_delay = ap Failure.retry_after_seconds (sym same) ∙ ap (retry_delay d) k;
          retries =
              ap World.next_retry_at world
              ∙ ap (λ y. at.failed + y) (ap Failure.retry_after_seconds same);
        }
    finish (ok made, x) k e = cc

-- Before the time of the next try the database and the sink are left alone.
abbrev SameTables : World → Result MaybeAnchored × World → Type 0
SameTables w (out, w') = (w'.tables ≡ w.tables) × (w'.sink ≡ w.sink)

early_status :
    (d : Deployment) (at : Moments) (id : String) (others : Others) (checked : Result Receipt)
    (w : World)
    → at.tried < w.next_retry_at
    → SameTables w (after_status d at id others checked w)
unfolding after_status
early_status d at id others (raise why) w early = (refl, refl)
early_status d at id others (ok status) w early = elim (Bool-cases status.anchor_due) [
  | inr k ↦ rw (k, after_status) (refl, refl)
  | inl k ↦
      let soon : ltb at.tried w.next_retry_at ≡ true = ground (arith, early) in
      rw (k, soon, after_status) (refl, refl)
]

early_leaves :
    (d : Deployment) (at : Moments) (id : String) (others : Others) (w : World)
    → at.tried < w.next_retry_at
    → SameTables w (maybe_anchor d at id others w)
unfolding maybe_anchor
early_leaves d at id others w early =
    early_status d at id others (status_of d.scope d.cadence w.tables w.sink at.checked)
      (record w { last_failure = w.tables.anchor_failure }) early

-- What a failed call of `anchor` promises.
pub record BacksOff (d : Deployment) (at : Moments) (w : World) (f : Failure) (w' : World)
    : Type 0 where
  pub is_stored : w'.tables.anchor_failure ≡ some f
  pub is_counted : w'.consecutive_failures ≡ suc w.consecutive_failures
  pub is_backoff : IsBackoff d w.consecutive_failures f.retry_after_seconds
  pub waits_out :
      (later : Moments) (id : String) (others : Others)
      → later.tried < at.failed + f.retry_after_seconds
      → SameTables w' (maybe_anchor d later id others w')

-- A call of `anchor` that fails, for whatever reason, stores its failure in the database and counts
-- it. The delay is the first one doubled for each failure before it in a row, within the longest
-- delay, so that it is never shorter than the one before. Until the delay is over, `maybe_anchor`
-- writes neither the database nor the sink, whatever it finds.
pub anchor-BacksOff :
    (d : Deployment) (at : Moments) (id : String) (others : Others) (w w' : World) (f : Failure)
    → anchor d at id others w ≡ (failed f, w')
    → BacksOff d at w f w'
anchor-BacksOff d at id others w w' f h =
    let x = anchor-IsFailed d at id others w w' f h in
    record {
      is_stored = x.is_stored;
      is_counted = x.is_counted;
      is_backoff = rw x.is_delay (retry_delay-IsBackoff d w.consecutive_failures);
      waits_out = λ later id' others' early.
          early_leaves d later id' others' w' (omega (arith, early, x.retries));
    }
