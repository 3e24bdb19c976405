-- ===== src/Anchors/Pins.antt =====
-- `pin_manifest` and `resolve_manifest_digest` of heartwood/anchors.py.
pub mod Resolved
use heartwood_memory.Prelude.{
  ℕ, suc, Bool, true, false, not, ◌&&◌, ◌==◌, Option, none, some, List, [], ◌∷◌, ◌++◌, String,
  str_eq, length, if◌then◌else◌, Result, Error, ok, raise, ◌>>=◌, ◌>>◌, require, key_error,
  anchor_sink_error, anchor_configuration_error,
}
use heartwood_memory.Audit.{codes, codes_eq}
use heartwood_memory.Anchors.{
  Signed, PinRecord, SinkRecord, anchored, pinned, unsupported, Scope, last_of, last?,
  record_digest, validate_sink_records, is_token, manifest_pin_domain,
  manifest_pin_signature_domain,
}
use heartwood_memory.Anchors.Sink.{Sink, read_records, append}
use heartwood_memory.Anchors.Verify.{Tables, Failure, audit_head_snapshot, read_valid}
use heartwood_memory.Anchors.Writer.{
  Deployment, World, Moments, Others, Step, records_for_write, set_anchor_sink_head, write_error,
  unsigned_fields,
}

-- The pins of one manifest.
abbrev pub pins_for : String → List SinkRecord → List PinRecord
pins_for id [] = []
pins_for id (pinned p ∷ records) =
    let rest = pins_for id records in if str_eq p.manifest_id id then p ∷ rest else rest
pins_for id (anchored r ∷ records) = pins_for id records
pins_for id (unsupported ∷ records) = pins_for id records

unfoldable pub is_recorded_head : Scope → Option (List ℕ) → Option SinkRecord → Bool
is_recorded_head s none last = false
is_recorded_head s (some head) none = false
is_recorded_head s (some head) (some last) = codes_eq head (record_digest s.formats last)

-- A manifest has one pin.
unfoldable pub the_digest : List PinRecord → Result (List ℕ)
the_digest [] = raise anchor_sink_error
the_digest (p ∷ []) = ok p.manifest_digest
the_digest (p ∷ q ∷ pins) = raise anchor_sink_error

-- `resolve_manifest_digest`
unfoldable pub resolve_manifest_digest : Scope → Tables → Sink → String → Result (List ℕ)
unfolding read_valid is_recorded_head the_digest
resolve_manifest_digest s t sink id = do
  valid ← read_valid s sink
  require (is_recorded_head s t.anchor_sink_head (last? valid)) anchor_sink_error
  the_digest (pins_for id valid)

-- What `pin_manifest` returns, less the arguments that it repeats.
pub record Pinning : Type 0 where
  pub pin_id : String
  pub wrote_pin : Bool

unfoldable pub signed_pin : Deployment → ℕ → String → String → List ℕ → PinRecord
signed_pin d now pin_id manifest_id manifest_digest =
    let draft : PinRecord = record {
      signed = unsigned_fields d now manifest_pin_domain;
      pin_id = pin_id;
      manifest_id = manifest_id;
      manifest_digest = manifest_digest;
    } in
    record draft {
      signed = record (unsigned_fields d now manifest_pin_domain) {
        signature =
            d.scope.formats.b64e
              (d.sign (manifest_pin_signature_domain ++ d.scope.formats.unsigned (pinned draft)));
      };
    }

-- The code after the append: the head is recorded, and the pin is resolved again.
unfoldable pub read_pin_back : Deployment → PinRecord → SinkRecord → World → Step Pinning
unfolding set_anchor_sink_head resolve_manifest_digest
read_pin_back d p (pinned persisted) w =
    let w' : World = record w {
      tables = set_anchor_sink_head d.scope (pinned persisted) w.tables;
    } in
    elim (resolve_manifest_digest d.scope w'.tables w'.sink p.manifest_id) [
      | raise why ↦ (raise why, w')
      | ok digest ↦
          if codes_eq digest p.manifest_digest
          then (
            ok (record { pin_id = persisted.pin_id; wrote_pin = str_eq persisted.pin_id p.pin_id }),
            w',
          )
          else (raise anchor_sink_error, w')
    ]
read_pin_back d p other w = (raise key_error, w)

unfoldable pub write_pin : Deployment → Others → PinRecord → World → Step Pinning
unfolding read_pin_back
write_pin d others p w =
    let (tables, sink) = others (w.tables, w.sink) in
    elim (append sink (pinned p)) [
      | raise why ↦ (raise why, record w { tables = tables; sink = sink })
      | ok (persisted, sink') ↦
          read_pin_back d p persisted (record w { tables = tables; sink = sink' })
    ]

-- A pin that is there already must say the same.
unfoldable pub pin_latest :
    Deployment → Others → PinRecord → Option PinRecord → World → Step Pinning
unfolding write_pin
pin_latest d others p none w = write_pin d others p w
pin_latest d others p (some existing) w =
    if codes_eq existing.manifest_digest p.manifest_digest
    then (ok (record { pin_id = existing.pin_id; wrote_pin = false }), w)
    else (raise anchor_sink_error, w)

unfoldable pub pin_steps : Deployment → Others → PinRecord → World → Step Pinning
unfolding records_for_write pin_latest
pin_steps d others p w =
    elim (records_for_write d.scope w.tables.anchor_sink_head (read_records w.sink)
      >>= validate_sink_records d.scope) [
        | raise why ↦ (raise why, w)
        | ok valid ↦ pin_latest d others p (last? (pins_for p.manifest_id valid)) w
      ]

-- A call is refused, returns, or raises an `AnchorWriteError` that carries the failure.
pub data PinOutcome : Type 0 where
  refused : Error → PinOutcome
  pin_returned : Pinning → PinOutcome
  pin_failed : Failure → PinOutcome

unfoldable pub or_pin_error : Deployment → ℕ → Step Pinning → PinOutcome × World
unfolding write_error
or_pin_error d now (ok done, w) = (pin_returned done, w)
or_pin_error d now (raise why, w) =
    let (failure, w') = write_error d now (audit_head_snapshot w.tables.log).seq why w in
    (pin_failed failure, w')

-- `pin_manifest`; `pin_id` is the random id of a new pin.
unfoldable pub pin_manifest :
    Deployment → Moments → String → Others → String → List ℕ → World → PinOutcome × World
unfolding is_token signed_pin pin_steps or_pin_error
pin_manifest d at pin_id others manifest_id manifest_digest w =
    if not (is_token (codes "sct_") 24 (codes manifest_id))
    then (refused anchor_configuration_error, w)
    else if not (is_token (codes "sha256:") 64 manifest_digest)
    then (refused anchor_configuration_error, w)
    else or_pin_error d at.failed
        (pin_steps d others (signed_pin d at.signed pin_id manifest_id manifest_digest) w)
