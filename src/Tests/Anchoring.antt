-- ===== src/Tests/Anchoring.antt =====
-- The anchors of a log at concrete records.
use heartwood_memory.Prelude.{
  ℕ, ◌≡◌, refl, true, false, ◌&&◌, ◌==◌, none, some, List, [], ◌∷◌, ◌++◌, str_eq, length,
  if◌then◌else◌, Result, ok, raise, inl, ◌⊎◌,
}
use heartwood_memory.Audit.{Log, codes, codes_eq, audit_fields, append_audit}
use heartwood_memory.Audit.Chain.{verify_chain, append}
use heartwood_memory.Audit.Tamper.{Collides}
use heartwood_memory.Anchors.{
  Formats, Scope, AnchorRecord, SinkRecord, anchored, pinned, unsupported, fingerprint,
}
use heartwood_memory.Anchors.Verify.{
  Receipt, Failure, audit_head_snapshot, verify_chain_against_anchors,
}
use heartwood_memory.Anchors.Writer.{
  Deployment, World, Moments, Anchoring, Outcome, returned, failed, anchor,
}
use heartwood_memory.Anchors.Writer.Confirmed.{IsConfirmed, anchor-IsConfirmed}
use heartwood_memory.Anchors.Writer.{signed_anchor}
use heartwood_memory.Anchors.Writer.Backoff.{BacksOff, anchor-BacksOff}
use heartwood_memory.Anchors.Verify.{base_receipt}
use heartwood_memory.Anchors.Anchored.{IsAnchored, verify_chain_against_anchors-IsAnchored}
use heartwood_memory.Anchors.Rollback.{Extends, anchor_protects}
use heartwood_memory.Anchors.Sink.{append as append_record}
use heartwood_memory.Anchors.Sink.Appended.{IsAppended, append-IsAppended}
use heartwood_memory.Anchors.Agreement.{Agrees, cadence-Agrees}
use heartwood_memory.Anchors.Cadence.{status_of}
use heartwood_memory.Anchors.Pins.{
  PinOutcome, pin_returned, Pinning, pin_manifest, resolve_manifest_digest,
}
use heartwood_memory.Anchors.Pins.Resolved.{resolve-pin_manifest}
use heartwood_memory.Prelude.{key_error}
use heartwood_memory.Anchors.{is_token, validate_sink_records}
use heartwood_memory.Anchors.Sink.{read_records, read_file}
use heartwood_memory.Anchors.Verify.{audit_row}
use heartwood_memory.Audit.Chain.{display_columns_match_body}
use heartwood_memory.Tests.Samples.{codec, no_log, sample_detail, repeat, digit}

abbrev record_codes : SinkRecord → List ℕ
record_codes (anchored r) = r.seq ∷ r.row_hash
record_codes (pinned p) = codes p.manifest_id ++ p.manifest_digest
record_codes unsupported = []

-- A toy encoding with one key and one signature.
abbrev formats : Formats
formats = record {
  codec = codec;
  b64d = λ s. some (if str_eq s "key" then repeat 32 7 else repeat 64 9);
  b64e = λ xs. if length xs == 32 then "key" else "signature";
  from_iso = λ s. some (some 5);
  to_iso = λ t. "1970-01-01T00:00:05+00:00";
  canonical = record_codes;
  unsigned = record_codes;
  ed25519_verify =
      λ key signature message. codes_eq key (repeat 32 7) && codes_eq signature (repeat 64 9);
}

abbrev scope : Scope
scope = record {
  formats = formats;
  chain_id = "chain_00000000000000000000000000000001";
  sink_id = "sink";
  trusted_root_fingerprints = fingerprint formats (repeat 32 7) ∷ [];
}

abbrev deployment : Deployment
deployment = record {
  scope = scope;
  cadence = record { interval_s = 300; every_n_rows = 10 };
  public_key = repeat 32 7;
  sign = λ message. repeat 64 9;
  key_id = "k1";
  retry_backoff_s = 1;
  retry_backoff_max_s = 60;
}

abbrev moments : Moments
moments = record { checked = 5; tried = 5; signed = 5; verified = 6; failed = 6 }

abbrev one : Log
one = append codec no_log "acme" "ann" "remember" "m1" sample_detail 5

abbrev world : World
world = record {
  tables = record { log = one; anchor_sink_head = none; anchor_failure = none };
  sink = none;
  last_failure = none;
  consecutive_failures = 0;
  next_retry_at = 0;
}

abbrev first_anchor : Outcome × World
first_anchor = anchor deployment moments "anc_000000000000000000000001" (λ x. x) world

abbrev no_receipt : Receipt
no_receipt = base_receipt none none none (audit_head_snapshot no_log) none

abbrev receipt_of : Result Receipt → Receipt
receipt_of (ok receipt) = receipt
receipt_of (raise why) = no_receipt

abbrev anchoring_of : Outcome → Anchoring
anchoring_of (returned done) = done
anchoring_of (failed f) = record { receipt = no_receipt; wrote_anchor = false; anchor_id = "" }

abbrev failure_of : Outcome → Failure
failure_of (returned done) = record {
  error_class = key_error;
  failed_at = 0;
  current_seq = 0;
  retry_after_seconds = 0;
}
failure_of (failed f) = f

abbrev anchored_world : World
anchored_world = first_anchor.1

anchor-IsConfirmed_example : IsConfirmed deployment moments (audit_head_snapshot one) anchored_world
unfolding anchor verify_chain_against_anchors status_of pin_manifest resolve_manifest_digest
    audit_head_snapshot append append_audit append_record read_records read_file
    validate_sink_records verify_chain display_columns_match_body audit_fields audit_row is_token
    digit
anchor-IsConfirmed_example =
    anchor-IsConfirmed deployment moments "anc_000000000000000000000001" (λ x. x) world
      anchored_world (anchoring_of first_anchor.0) refl refl

abbrev full_receipt : Receipt
full_receipt = receipt_of (
    verify_chain_against_anchors scope deployment.cadence anchored_world.tables anchored_world.sink
      6 none)

verify_chain_against_anchors-IsAnchored_example :
    IsAnchored scope deployment.cadence anchored_world.tables anchored_world.sink 6
unfolding anchor verify_chain_against_anchors status_of pin_manifest resolve_manifest_digest
    audit_head_snapshot append append_audit append_record read_records read_file
    validate_sink_records verify_chain display_columns_match_body audit_fields audit_row is_token
    digit
verify_chain_against_anchors-IsAnchored_example =
    verify_chain_against_anchors-IsAnchored scope deployment.cadence anchored_world.tables
      anchored_world.sink 6 none full_receipt refl refl

abbrev stored : AnchorRecord
stored = signed_anchor deployment 5 "anc_000000000000000000000001" (audit_head_snapshot one)

one_verifies : verify_chain codec (some scope.chain_id) one ≡ true
unfolding anchor verify_chain_against_anchors status_of pin_manifest resolve_manifest_digest
    audit_head_snapshot append append_audit append_record read_records read_file
    validate_sink_records verify_chain display_columns_match_body audit_fields audit_row is_token
    digit
one_verifies = refl

anchor_protects_example : Extends scope one one ⊎ Collides codec one.rows one.rows
unfolding anchor verify_chain_against_anchors status_of pin_manifest resolve_manifest_digest
    audit_head_snapshot append append_audit append_record read_records read_file
    validate_sink_records verify_chain display_columns_match_body audit_fields audit_row is_token
    digit
anchor_protects_example =
    anchor_protects scope deployment.cadence anchored_world.tables anchored_world.sink 6 none
      full_receipt (anchored stored ∷ []) stored one refl refl refl (inl refl) refl one_verifies

append-IsAppended_example :
    IsAppended []
      (anchored stored)
      (anchored stored)
      (some (record { owner_only = true; complete = true; lines = some (anchored stored) ∷ [] }))
unfolding anchor verify_chain_against_anchors status_of pin_manifest resolve_manifest_digest
    audit_head_snapshot append append_audit append_record read_records read_file
    validate_sink_records verify_chain display_columns_match_body audit_fields audit_row is_token
    digit
append-IsAppended_example =
    append-IsAppended none (anchored stored) (anchored stored)
      (some (record { owner_only = true; complete = true; lines = some (anchored stored) ∷ [] })) []
      refl refl

-- The last line of the sink was not written whole.
abbrev torn_world : World
torn_world = record world {
  sink = some (record { owner_only = true; complete = false; lines = [] });
}

abbrev torn_anchor : Outcome × World
torn_anchor = anchor deployment moments "anc_000000000000000000000002" (λ x. x) torn_world

anchor-BacksOff_example :
    BacksOff deployment moments torn_world (failure_of torn_anchor.0) torn_anchor.1
unfolding anchor verify_chain_against_anchors status_of pin_manifest resolve_manifest_digest
    audit_head_snapshot append append_audit append_record read_records read_file
    validate_sink_records verify_chain display_columns_match_body audit_fields audit_row is_token
    digit
anchor-BacksOff_example =
    anchor-BacksOff deployment moments "anc_000000000000000000000002" (λ x. x) torn_world
      torn_anchor.1 (failure_of torn_anchor.0) refl

cadence-Agrees_example :
    Agrees scope deployment.cadence anchored_world.tables 6
      (anchored stored ∷ [])
      full_receipt
      (receipt_of (status_of scope deployment.cadence anchored_world.tables anchored_world.sink 6))
      (stored ∷ [])
unfolding anchor verify_chain_against_anchors status_of pin_manifest resolve_manifest_digest
    audit_head_snapshot append append_audit append_record read_records read_file
    validate_sink_records verify_chain display_columns_match_body audit_fields audit_row is_token
    digit
cadence-Agrees_example =
    cadence-Agrees scope deployment.cadence anchored_world.tables anchored_world.sink 6
      (anchored stored ∷ []) full_receipt
      (receipt_of (status_of scope deployment.cadence anchored_world.tables anchored_world.sink 6))
      refl refl refl

abbrev manifest_digest : List ℕ
manifest_digest = codes "sha256:" ++ repeat 64 48

abbrev pinning : PinOutcome × World
pinning =
    pin_manifest deployment moments "pin_000000000000000000000001" (λ x. x)
      "sct_000000000000000000000001" manifest_digest world

abbrev pinning_of : PinOutcome → Pinning
pinning_of (pin_returned done) = done
pinning_of other = record { pin_id = ""; wrote_pin = false }

resolve-pin_manifest_example :
    resolve_manifest_digest scope pinning.1.tables pinning.1.sink "sct_000000000000000000000001"
    ≡ ok manifest_digest
unfolding anchor verify_chain_against_anchors status_of pin_manifest resolve_manifest_digest
    audit_head_snapshot append append_audit append_record read_records read_file
    validate_sink_records verify_chain display_columns_match_body audit_fields audit_row is_token
    digit
resolve-pin_manifest_example =
    resolve-pin_manifest deployment moments "pin_000000000000000000000001" (λ x. x)
      "sct_000000000000000000000001" manifest_digest world pinning.1 (pinning_of pinning.0) refl
