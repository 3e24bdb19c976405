-- ===== src/Anchors/Writer.antt =====
-- `AnchorWriter` of heartwood/anchors.py: writing an anchor with read-back, the cadence, and the
-- back-off after a failure. A step returns its result or the exception together with the world that
-- it leaves, since a write that fails after the append leaves the record in the sink. Timers are left
-- out, and the clock is read where the code reads it (`Moments`).
pub mod Backoff
pub mod Confirmed
use heartwood_memory.Prelude.{
  ℕ, zero, suc, ◌+◌, ◌-◌, ◌*◌, ◌≡◌, min, Bool, true, false, not, ◌&&◌, ◌||◌, ◌==◌, leb, ltb, Option,
  none, some, List, [], ◌∷◌, ◌++◌, map, String, str_eq, opt_str_eq, elem, filter, length,
  if◌then◌else◌, Result, Error, ok, raise, ◌>>=◌, ◌>>◌, require, anchor_sink_error,
  anchor_configuration_error, file_not_found_error, key_error,
}
use heartwood_memory.Audit.{Log, codes, codes_eq}
use heartwood_memory.Anchors.{
  Signed, AnchorRecord, PinRecord, SinkRecord, anchored, pinned, unsupported, Formats, Scope,
  anchors_of, pins_of, last_of, last?, record_digest, fingerprint, parse_utc, validate_sink_records,
  anchor_domain, manifest_pin_domain, anchor_signature_domain, manifest_pin_signature_domain,
  is_token,
}
use heartwood_memory.Anchors.Sink.{Sink, read_records, append}
use heartwood_memory.Anchors.Verify.{
  Tables, Head, Failure, Receipt, Cadence, FirstFailure, fails, unreadable, audit_head_snapshot,
  base_receipt, read_valid, check_order, check_head, is_due, or_else, verify_chain_against_anchors,
  anchor_sink_rollback_or_divergence, duplicate_or_reordered_anchor, no_anchors,
  latest_anchor_stale, prior_anchor_write_failed,
}

-- The configuration of a writer, with its derived key.
pub record Deployment : Type 0 where
  pub scope : Scope
  pub cadence : Cadence
  pub public_key : List ℕ
  pub sign : List ℕ → List ℕ
  pub key_id : String
  pub retry_backoff_s : ℕ
  pub retry_backoff_max_s : ℕ

-- The database, the sink, and the writer's own fields.
pub record World : Type 0 where
  pub tables : Tables
  pub sink : Sink
  pub last_failure : Option Failure
  pub consecutive_failures : ℕ
  pub next_retry_at : ℕ

-- The readings of the clock in one call.
pub record Moments : Type 0 where
  pub checked : ℕ
  pub tried : ℕ
  pub signed : ℕ
  pub verified : ℕ
  pub failed : ℕ

-- What other processes do to the database and the sink.
abbrev pub Others : Type 0
Others = Tables × Sink → Tables × Sink

abbrev pub Step : Type 0 → Type 0
Step A = Result A × World

abbrev pub error_class : Option Failure → Option Error
error_class none = none
error_class (some f) = some f.error_class

-- `AnchorWriter.verify`
unfoldable pub verify : Deployment → ℕ → Bool → World → Step Receipt
verify d now true w =
    let w' : World = record w { last_failure = w.tables.anchor_failure } in
    (
      verify_chain_against_anchors d.scope d.cadence w'.tables w'.sink now
          (error_class w'.last_failure),
      w',
    )
verify d now false w = (verify_chain_against_anchors d.scope d.cadence w.tables w.sink now none, w)

-- `_records_for_write`
unfoldable pub records_for_write :
    Scope → Option (List ℕ) → Result (List SinkRecord) → Result (List SinkRecord)
records_for_write s head (raise file_not_found_error) = ok []
records_for_write s head (raise why) = raise why
records_for_write s head (ok []) = ok []
records_for_write s none (ok (r ∷ records)) = raise anchor_sink_error
records_for_write s (some head) (ok (r ∷ records)) = do
  require (codes_eq head (record_digest s.formats (last_of r records))) anchor_sink_error
  ok (r ∷ records)

-- `_clear_failure`
unfoldable pub clear_failure : World → World
clear_failure w = record {
  tables = record {
    log = w.tables.log;
    anchor_sink_head = w.tables.anchor_sink_head;
    anchor_failure = none;
  };
  sink = w.sink;
  last_failure = none;
  consecutive_failures = 0;
  next_retry_at = 0;
}

abbrev pub power_of_2 : ℕ → ℕ
power_of_2 zero = 1
power_of_2 (suc n) = 2 * power_of_2 n

-- The delay after `n` earlier failures in a row.
unfoldable pub retry_delay : Deployment → ℕ → ℕ
retry_delay d n = min (d.retry_backoff_s * power_of_2 n) d.retry_backoff_max_s

-- `_write_error`
unfoldable pub write_error : Deployment → ℕ → ℕ → Error → World → Failure × World
unfolding retry_delay
write_error d now current_seq why w =
    let delay = retry_delay d w.consecutive_failures in
    let failure : Failure = record {
      error_class = why;
      failed_at = now;
      current_seq = current_seq;
      retry_after_seconds = delay;
    } in
    (
      failure,
      record {
        tables = record {
          log = w.tables.log;
          anchor_sink_head = w.tables.anchor_sink_head;
          anchor_failure = some failure;
        };
        sink = w.sink;
        last_failure = some failure;
        consecutive_failures = suc w.consecutive_failures;
        next_retry_at = now + delay;
      },
    )

-- The fields of a record that is to be signed; the signature is put in afterwards.
abbrev pub unsigned_fields : Deployment → ℕ → String → Signed
unsigned_fields d now domain = record {
  domain = domain;
  schema_version = 1;
  chain_id = d.scope.chain_id;
  created_at_utc = d.scope.formats.to_iso now;
  sink_id = d.scope.sink_id;
  signing_key_id = d.key_id;
  signing_public_key = d.scope.formats.b64e d.public_key;
  verification_root_fingerprint = fingerprint d.scope.formats d.public_key;
  signature = "";
}

-- `_signed_record`
unfoldable pub signed_anchor : Deployment → ℕ → String → Head → AnchorRecord
signed_anchor d now id head =
    let draft : AnchorRecord = record {
      signed = unsigned_fields d now anchor_domain;
      anchor_id = id;
      seq = head.seq;
      row_hash = head.row_hash;
    } in
    record draft {
      signed = record (unsigned_fields d now anchor_domain) {
        signature =
            d.scope.formats.b64e
              (d.sign (anchor_signature_domain ++ d.scope.formats.unsigned (anchored draft)));
      };
    }

unfoldable pub set_anchor_sink_head : Scope → SinkRecord → Tables → Tables
set_anchor_sink_head s r t = record {
  log = t.log;
  anchor_sink_head = some (record_digest s.formats r);
  anchor_failure = t.anchor_failure;
}

-- What `anchor` returns: the receipt, whether it wrote, and the id of the anchor.
pub record Anchoring : Type 0 where
  pub receipt : Receipt
  pub wrote_anchor : Bool
  pub anchor_id : String

-- The read-back found the record that was persisted, and nothing wrong.
unfoldable pub confirms : Receipt → AnchorRecord → Head → Option AnchorRecord → Bool
confirms receipt persisted head none = false
confirms receipt persisted head (some last) = elim receipt.is_ok [
  | some true ↦ str_eq last.anchor_id persisted.anchor_id && (last.seq == head.seq)
  | _ ↦ false
]

-- The code after the append: the head is recorded, and the sink is read back.
unfoldable pub read_back :
    Deployment → Moments → Head → AnchorRecord → SinkRecord → World → Step Anchoring
unfolding verify confirms clear_failure set_anchor_sink_head
read_back d at head r (anchored persisted) w =
    let w' : World = record w {
      tables = set_anchor_sink_head d.scope (anchored persisted) w.tables;
    } in
    elim (verify d at.verified false w').0 [
      | raise why ↦ (raise why, w')
      | ok receipt ↦
          if confirms receipt persisted head receipt.last_success
          then (
            ok (record {
              receipt = receipt;
              wrote_anchor = str_eq persisted.anchor_id r.anchor_id;
              anchor_id = persisted.anchor_id;
            }),
            clear_failure w',
          )
          else (raise anchor_sink_error, w')
    ]
read_back d at head r other w = (raise key_error, w)

-- A new record is signed and appended.
unfoldable pub write_anchor : Deployment → Moments → String → Others → Head → World → Step Anchoring
unfolding signed_anchor read_back
write_anchor d at id others head w =
    let (tables, sink) = others (w.tables, w.sink) in
    let r = signed_anchor d at.signed id head in
    elim (append sink (anchored r)) [
      | raise why ↦ (raise why, record w { tables = tables; sink = sink })
      | ok (persisted, sink') ↦
          read_back d at head r persisted (record w { tables = tables; sink = sink' })
    ]

-- The head is anchored already.
unfoldable pub reuse_anchor : Deployment → Moments → AnchorRecord → World → Step Anchoring
unfolding verify clear_failure
reuse_anchor d at latest w =
    let (checked, w') = verify d at.verified true w in
    elim checked [
      | raise why ↦ (raise why, w')
      | ok receipt ↦ (
        ok (record { receipt = receipt; wrote_anchor = false; anchor_id = latest.anchor_id }),
        elim receipt.is_ok [ some true ↦ clear_failure w' | _ ↦ w' ],
      )
    ]

unfoldable pub is_anchored_head : Head → AnchorRecord → Bool
is_anchored_head head latest = (latest.seq == head.seq) && codes_eq latest.row_hash head.row_hash

unfoldable pub anchor_latest :
    Deployment → Moments → String → Others → Head → Option AnchorRecord → World → Step Anchoring
unfolding is_anchored_head reuse_anchor write_anchor
anchor_latest d at id others head none w = write_anchor d at id others head w
anchor_latest d at id others head (some latest) w =
    if is_anchored_head head latest
    then reuse_anchor d at latest w
    else write_anchor d at id others head w

-- The body of `anchor`, before its exceptions become an `AnchorWriteError`.
unfoldable pub anchor_steps : Deployment → Moments → String → Others → Head → World → Step Anchoring
unfolding records_for_write anchor_latest
anchor_steps d at id others head w =
    if head.seq == 0
    then (raise anchor_configuration_error, w)
    else elim (records_for_write d.scope w.tables.anchor_sink_head (read_records w.sink)
        >>= validate_sink_records d.scope) [
          | raise why ↦ (raise why, w)
          | ok valid ↦ anchor_latest d at id others head (last? (anchors_of valid)) w
        ]

-- A call returns, or raises an `AnchorWriteError` that carries the failure.
pub data Outcome : Type 0 where
  returned : Anchoring → Outcome
  failed : Failure → Outcome

unfoldable pub or_write_error : Deployment → Moments → ℕ → Step Anchoring → Outcome × World
unfolding write_error
or_write_error d at seq (ok done, w) = (returned done, w)
or_write_error d at seq (raise why, w) =
    let (failure, w') = write_error d at.failed seq why w in (failed failure, w')

-- `anchor`; `id` is the random id of a new anchor.
unfoldable pub anchor : Deployment → Moments → String → Others → World → Outcome × World
unfolding anchor_steps or_write_error
anchor d at id others w =
    let head = audit_head_snapshot w.tables.log in
    or_write_error d at head.seq (anchor_steps d at id others head w)
