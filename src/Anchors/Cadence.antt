-- ===== src/Anchors/Cadence.antt =====
-- `_cadence_status`, `maybe_anchor` and `close` of heartwood/anchors.py. Timers are left out.
use heartwood_memory.Prelude.{
  ℕ, ◌-◌, Bool, true, false, not, ◌||◌, ◌==◌, leb, ltb, Option, none, some, List, [], ◌∷◌, String,
  elem, length, if◌then◌else◌, Result, ok, raise, ◌>>=◌,
}
use heartwood_memory.Audit.{codes_eq}
use heartwood_memory.Anchors.{
  AnchorRecord, SinkRecord, Scope, anchors_of, last_of, last?, record_digest, parse_utc,
}
use heartwood_memory.Anchors.Sink.{Sink}
use heartwood_memory.Anchors.Verify.{
  Tables, Head, Receipt, Cadence, FirstFailure, unreadable, audit_head_snapshot, base_receipt,
  read_valid, check_head, is_due, is_none, or_else, anchor_sink_rollback_or_divergence,
  duplicate_or_reordered_anchor, no_anchors, latest_anchor_stale, prior_anchor_write_failed,
}
use heartwood_memory.Anchors.Writer.{
  Deployment, World, Moments, Others, Outcome, Step, error_class, anchor, verify,
}

-- The loop over the ids and sequence numbers, with one failure for both.
unfoldable pub check_anchor_order : ℕ → List String → List AnchorRecord → Option FirstFailure
check_anchor_order previous_seq seen_ids [] = none
check_anchor_order previous_seq seen_ids (r ∷ anchors) =
    if elem r.anchor_id seen_ids || leb r.seq previous_seq
    then some duplicate_or_reordered_anchor
    else check_anchor_order r.seq (r.anchor_id ∷ seen_ids) anchors

unfoldable pub check_recorded_head :
    Scope → Option (List ℕ) → Option SinkRecord → Option FirstFailure
check_recorded_head s none last = some anchor_sink_rollback_or_divergence
check_recorded_head s (some head) none = some anchor_sink_rollback_or_divergence
check_recorded_head s (some head) (some last) =
    if codes_eq head (record_digest s.formats last)
    then none
    else some anchor_sink_rollback_or_divergence

unfoldable pub cadence_problem :
    Scope → Tables → Head → List SinkRecord → AnchorRecord → List AnchorRecord → Option FirstFailure
unfolding check_anchor_order check_recorded_head check_head
cadence_problem s t head valid a anchors = or_else (check_anchor_order 0 [] (a ∷ anchors)) (
    or_else (check_recorded_head s t.anchor_sink_head (last? valid))
      (check_head head (last_of a anchors)))

abbrev fails_now : Receipt → FirstFailure → Receipt
fails_now receipt why = record receipt { is_ok = some false; first_failure = some why }

-- The end of the function. `None` as `ok` says that nothing is due, and that no chain was scanned.
unfoldable pub judge_cadence : Cadence → Bool → Receipt → Head → AnchorRecord → ℕ → Receipt
unfolding is_due
judge_cadence cadence clean receipt head latest seconds =
    let rows = head.seq - latest.seq in
    let due = is_due cadence rows seconds in
    let degraded = due || not clean in
    record receipt {
      is_ok = if degraded then some false else none;
      is_healthy = not degraded;
      anchor_fresh = not due;
      last_success = some latest;
      rows_since_success = rows;
      seconds_since_success = some seconds;
      anchor_due = due;
      undetectable_window_rows = rows;
      first_failure =
          if due
          then some latest_anchor_stale
          else if clean
          then none
          else some prior_anchor_write_failed;
    }

unfoldable pub check_cadence :
    Scope → Cadence → Tables → ℕ → Receipt → List SinkRecord → List AnchorRecord → Result Receipt
unfolding cadence_problem judge_cadence
check_cadence s cadence t now receipt valid [] = ok (fails_now receipt no_anchors)
check_cadence s cadence t now receipt valid (a ∷ anchors) =
    let head = audit_head_snapshot t.log in
    elim (cadence_problem s t head valid a anchors) [
      | some why ↦ ok (fails_now receipt why)
      | none ↦ do
        created ← parse_utc s.formats (last_of a anchors).signed.created_at_utc
        ok (
            judge_cadence cadence (is_none t.anchor_failure) receipt head (last_of a anchors)
              (now - created))
    ]

unfoldable pub status_of : Scope → Cadence → Tables → Sink → ℕ → Result Receipt
unfolding check_cadence read_valid unreadable base_receipt
status_of s cadence t sink now =
    let head = audit_head_snapshot t.log in
    let base = base_receipt none none none head (error_class t.anchor_failure) in
    elim (read_valid s sink) [
      | raise why ↦ ok (unreadable (record base { is_ok = some false }) why)
      | ok valid ↦
          let anchors = anchors_of valid in
          check_cadence s cadence t now
            (record base { sink_healthy = true; anchors_checked = length anchors }) valid anchors
    ]

-- `_cadence_status`
unfoldable pub cadence_status : Deployment → ℕ → World → Step Receipt
unfolding status_of
cadence_status d now w = (
  status_of d.scope d.cadence w.tables w.sink now,
  record w { last_failure = w.tables.anchor_failure },
)

-- What `maybe_anchor` returns: the status, the status with the time to wait, or what `anchor` did.
pub data MaybeAnchored : Type 0 where
  not_due : Receipt → MaybeAnchored
  waits : Receipt → ℕ → MaybeAnchored
  tried : Outcome → MaybeAnchored

-- The end of `maybe_anchor`, once the status is known.
unfoldable pub after_status :
    Deployment → Moments → String → Others → Result Receipt → World → Result MaybeAnchored × World
unfolding anchor
after_status d at id others (raise why) w = (raise why, w)
after_status d at id others (ok status) w =
    if not status.anchor_due
    then (ok (not_due status), w)
    else if ltb at.tried w.next_retry_at
    then (
      ok (
          waits (record status { is_ok = some false; is_healthy = false })
            (w.next_retry_at - at.tried)),
      w,
    )
    else (let (done, w') = anchor d at id others w in (ok (tried done), w'))

unfoldable pub maybe_anchor :
    Deployment → Moments → String → Others → World → Result MaybeAnchored × World
unfolding cadence_status after_status
maybe_anchor d at id others w =
    let (checked, w') = cadence_status d at.checked w in after_status d at id others checked w'

-- `close`: a last anchor, if the log has rows.
unfoldable pub close : Deployment → Moments → String → Others → World → Result MaybeAnchored × World
unfolding anchor verify
close d at id others w =
    if (audit_head_snapshot w.tables.log).seq == 0
    then (let (checked, w') = verify d at.verified true w in
        (checked >>= λ receipt. ok (not_due receipt), w'))
    else (let (done, w') = anchor d at id others w in (ok (tried done), w'))
