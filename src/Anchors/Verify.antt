-- ===== src/Anchors/Verify.antt =====
-- `verify_chain_against_anchors` of heartwood/anchors.py, and the rows of `store_metadata` in
-- heartwood/store.py that anchoring keeps. Times are natural numbers.
use heartwood_memory.Prelude.{
  ℕ, ◌-◌, Bool, true, false, not, ◌&&◌, ◌||◌, ◌==◌, leb, ltb, Option, none, some, List, [], ◌∷◌,
  String, elem, length, if◌then◌else◌, Result, Error, ok, raise, ◌>>=◌, file_not_found_error,
}
use heartwood_memory.Audit.{Row, Log, genesis, codes_eq}
use heartwood_memory.Audit.Chain.{verify_chain}
use heartwood_memory.Anchors.{
  AnchorRecord, SinkRecord, Scope, anchors_of, last_of, last?, record_digest, parse_utc,
  validate_sink_records,
}
use heartwood_memory.Anchors.Sink.{Sink, read_records}

-- `set_anchor_failure` stores the class of the error and the time to wait.
pub record Failure : Type 0 where
  pub error_class : Error
  pub failed_at : ℕ
  pub current_seq : ℕ
  pub retry_after_seconds : ℕ

-- The audit table, and the metadata rows of one sink.
pub record Tables : Type 0 where
  pub log : Log
  pub anchor_sink_head : Option (List ℕ)
  pub anchor_failure : Option Failure

pub record Head : Type 0 where
  pub seq : ℕ
  pub row_hash : List ℕ

abbrev pub head_from : Head → List Row → Head
head_from h [] = h
head_from h (r ∷ rows) = head_from (record { seq = r.seq; row_hash = r.row_hash }) rows

-- `audit_head_snapshot`
unfoldable pub audit_head_snapshot : Log → Head
audit_head_snapshot log = head_from (record { seq = 0; row_hash = genesis }) log.rows

-- `audit_row`
unfoldable pub audit_row : List Row → ℕ → Option Row
audit_row [] seq = none
audit_row (r ∷ rows) seq = let rest = audit_row rows seq in if r.seq == seq then some r else rest

pub data FirstFailure : Type 0 where
  anchor_sink_missing anchor_sink_unhealthy no_anchors duplicate_anchor_id : FirstFailure
  duplicate_or_reordered_anchor_seq duplicate_or_reordered_anchor : FirstFailure
  anchor_sink_head_unrecorded anchor_sink_rollback_or_divergence : FirstFailure
  anchored_row_missing anchored_row_hash_mismatch current_head_precedes_anchor :
      String → FirstFailure
  audit_chain_invalid latest_anchor_stale prior_anchor_write_failed : FirstFailure

-- The receipt; `none` stands for Python's `None`.
pub record Receipt : Type 0 where
  pub is_ok : Option Bool
  pub is_healthy : Bool
  pub chain_ok : Option Bool
  pub anchors_ok : Option Bool
  pub anchor_fresh : Bool
  pub sink_healthy : Bool
  pub anchors_checked : ℕ
  pub last_success : Option AnchorRecord
  pub current_seq : ℕ
  pub rows_since_success : ℕ
  pub seconds_since_success : Option ℕ
  pub anchor_due : Bool
  pub undetectable_window_rows : ℕ
  pub first_failure : Option FirstFailure
  pub last_sanitized_error_class : Option Error

pub record Cadence : Type 0 where
  pub interval_s : ℕ
  pub every_n_rows : ℕ

abbrev pub fails : Receipt → FirstFailure → Receipt
fails receipt why = record receipt { first_failure = some why }

-- `except FileNotFoundError` and `except Exception`
unfoldable pub unreadable : Receipt → Error → Receipt
unreadable base file_not_found_error = fails base anchor_sink_missing
unreadable base why = record base {
  first_failure = some anchor_sink_unhealthy;
  last_sanitized_error_class = some why;
}

-- `sink.read_records()` and `_validate_sink_records`
unfoldable pub read_valid : Scope → Sink → Result (List SinkRecord)
read_valid s sink = do records ← read_records sink; validate_sink_records s records

-- The first of two checks that fails.
abbrev pub or_else {ℓ} : {A : Type ℓ} → Option A → Option A → Option A
or_else (some x) next = some x
or_else none next = next

-- The loop over the ids and sequence numbers.
unfoldable pub check_order : ℕ → List String → List AnchorRecord → Option FirstFailure
check_order previous_seq seen_ids [] = none
check_order previous_seq seen_ids (r ∷ anchors) =
    if elem r.anchor_id seen_ids
    then some duplicate_anchor_id
    else if leb r.seq previous_seq
    then some duplicate_or_reordered_anchor_seq
    else check_order r.seq (r.anchor_id ∷ seen_ids) anchors

-- The head that the database recorded, against the last record of the sink.
unfoldable pub check_sink_head : Scope → Option (List ℕ) → Option SinkRecord → Option FirstFailure
check_sink_head s none last = some anchor_sink_head_unrecorded
check_sink_head s (some head) none = some anchor_sink_head_unrecorded
check_sink_head s (some head) (some last) =
    if codes_eq head (record_digest s.formats last)
    then none
    else some anchor_sink_rollback_or_divergence

abbrev check_row : AnchorRecord → Option Row → Option FirstFailure
check_row r none = some (anchored_row_missing r.anchor_id)
check_row r (some row) =
    if codes_eq row.row_hash r.row_hash then none else some (anchored_row_hash_mismatch r.anchor_id)

-- The loop over the anchored rows.
unfoldable pub check_rows : List Row → List AnchorRecord → Option FirstFailure
unfolding audit_row
check_rows rows [] = none
check_rows rows (r ∷ anchors) =
    or_else (check_row r (audit_row rows r.seq)) (check_rows rows anchors)

unfoldable pub check_head : Head → AnchorRecord → Option FirstFailure
check_head head latest =
    if ltb head.seq latest.seq then some (current_head_precedes_anchor latest.anchor_id) else none

-- `rows_since > 0 and (rows_since >= row_cadence or seconds_since >= interval)`
unfoldable pub is_due : Cadence → ℕ → ℕ → Bool
is_due cadence rows seconds =
    ltb 0 rows && (leb cadence.every_n_rows rows || leb cadence.interval_s seconds)

abbrev pub is_none {ℓ} : {A : Type ℓ} → Option A → Bool
is_none none = true
is_none (some x) = false

-- The end of the function, which judges how fresh the latest anchor is.
unfoldable pub judge : Cadence → Bool → Receipt → Head → AnchorRecord → ℕ → Receipt
unfolding is_due
judge cadence chain_ok receipt head latest seconds =
    let rows = head.seq - latest.seq in
    let due = is_due cadence rows seconds in
    let good = chain_ok && (not due && is_none receipt.last_sanitized_error_class) in
    record receipt {
      is_ok = some good;
      is_healthy = good;
      anchors_ok = some true;
      anchor_fresh = not due;
      last_success = some latest;
      rows_since_success = rows;
      seconds_since_success = some seconds;
      anchor_due = due;
      undetectable_window_rows = rows;
      first_failure =
          if not chain_ok
          then some audit_chain_invalid
          else if due
          then some latest_anchor_stale
          else if is_none receipt.last_sanitized_error_class
          then none
          else some prior_anchor_write_failed;
    }

-- The receipt before anything of the sink is known.
unfoldable pub base_receipt :
    Option Bool → Option Bool → Option Bool → Head → Option Error → Receipt
base_receipt good chain_ok anchors_ok head last_error_class = record {
  is_ok = good;
  is_healthy = false;
  chain_ok = chain_ok;
  anchors_ok = anchors_ok;
  anchor_fresh = false;
  sink_healthy = false;
  anchors_checked = 0;
  last_success = none;
  current_seq = head.seq;
  rows_since_success = head.seq;
  seconds_since_success = none;
  anchor_due = ltb 0 head.seq;
  undetectable_window_rows = head.seq;
  first_failure = none;
  last_sanitized_error_class = last_error_class;
}

-- The checks of the anchors of a valid sink, in their order.
unfoldable pub first_problem :
    Scope → Tables → Head → List SinkRecord → AnchorRecord → List AnchorRecord → Option FirstFailure
unfolding check_order check_sink_head check_rows check_head
first_problem s t head valid a anchors = or_else (check_order 0 [] (a ∷ anchors)) (
    or_else (check_sink_head s t.anchor_sink_head (last? valid))
      (or_else (check_rows t.log.rows (a ∷ anchors)) (check_head head (last_of a anchors))))

unfoldable pub check_anchors :
    Scope
    → Cadence
    → Tables
    → ℕ
    → Bool
    → Receipt
    → List SinkRecord
    → List AnchorRecord
    → Result Receipt
unfolding first_problem judge
check_anchors s cadence t now chain_ok receipt valid [] = ok (fails receipt no_anchors)
check_anchors s cadence t now chain_ok receipt valid (a ∷ anchors) =
    let head = audit_head_snapshot t.log in
    elim (first_problem s t head valid a anchors) [
      | some why ↦ ok (fails receipt why)
      | none ↦ do
        created ← parse_utc s.formats (last_of a anchors).signed.created_at_utc
        ok (judge cadence chain_ok receipt head (last_of a anchors) (now - created))
    ]

unfoldable pub verify_chain_against_anchors :
    Scope → Cadence → Tables → Sink → ℕ → Option Error → Result Receipt
unfolding read_valid unreadable base_receipt check_anchors
verify_chain_against_anchors s cadence t sink now last_error_class =
    let chain_ok = verify_chain s.formats.codec (some s.chain_id) t.log in
    let base =
      base_receipt (some false) (some chain_ok) (some false) (audit_head_snapshot t.log)
        last_error_class in
    elim (read_valid s sink) [
      | raise why ↦ ok (unreadable base why)
      | ok valid ↦
          let anchors = anchors_of valid in
          check_anchors s cadence t now chain_ok
            (record base { sink_healthy = true; anchors_checked = length anchors }) valid anchors
    ]
