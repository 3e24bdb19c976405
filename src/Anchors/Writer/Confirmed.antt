-- ===== src/Anchors/Writer/Confirmed.antt =====
-- What a call of `anchor` in heartwood/anchors.py that returns an ok receipt has done.
use heartwood_memory.Prelude.{
  ℕ, ◌≡◌, refl, sym, ap, ◌∙◌, ◌⊎◌, inl, inr, Bool, true, false, ◌&&◌, ◌==◌, Option, none, some,
  List, [], ◌∷◌, String, str_eq, arith, Bool-cases, if◌then◌else◌, Result, Error, ok, raise, ◌>>=◌,
  >>=-eq-ok, ok_injective, file_not_found_error, require, anchor_sink_error,
}
use heartwood_memory.Audit.{codes_eq}
use heartwood_memory.Anchors.{
  AnchorRecord, SinkRecord, anchored, pinned, unsupported, Scope, anchors_of, last?, last_of,
  record_digest, validate_sink_records, validate_records,
}
use heartwood_memory.Anchors.Sink.{Sink, read_records, append}
use heartwood_memory.Anchors.Verify.{
  Tables, Head, Receipt, audit_head_snapshot, verify_chain_against_anchors,
}
use heartwood_memory.Anchors.Anchored.{IsAnchored, Shown, verify_chain_against_anchors_shows}
use heartwood_memory.Anchors.Writer.{
  Deployment, World, Moments, Others, Step, Anchoring, returned, confirms, clear_failure, read_back,
  write_anchor, reuse_anchor, is_anchored_head, anchor_latest, anchor_steps, or_write_error, anchor,
  records_for_write, signed_anchor, set_anchor_sink_head, error_class,
}

-- The world that is left is anchored up to the head, and no failure is recorded.
pub record IsConfirmed (d : Deployment) (at : Moments) (head : Head) (w : World) : Type 0 where
  pub proof : IsAnchored d.scope d.cadence w.tables w.sink at.verified
  pub reaches : proof.latest.seq ≡ head.seq
  pub is_cleared : w.tables.anchor_failure ≡ none
  pub is_reset : (w.consecutive_failures ≡ 0) × (w.next_retry_at ≡ 0)

-- Clearing a failure keeps what the receipt showed.
cleared :
    (d : Deployment) (at : Moments) (head : Head) (w : World)
    (p : IsAnchored d.scope d.cadence w.tables w.sink at.verified)
    → p.latest.seq ≡ head.seq
    → IsConfirmed d at head (clear_failure w)
unfolding clear_failure
cleared d at head w p e = record {
  proof = record {
    records = p.records;
    is_read = p.is_read;
    is_chain = p.is_chain;
    is_valid = p.is_valid;
    latest = p.latest;
    is_latest = p.is_latest;
    is_rising = p.is_rising;
    is_matched = p.is_matched;
    is_recorded = p.is_recorded;
    created_at = p.created_at;
    is_created = p.is_created;
    is_behind = p.is_behind;
    is_fresh = p.is_fresh;
  };
  reaches = e;
  is_cleared = refl;
  is_reset = (refl, refl);
}

-- The test of the read-back, on the parts of the receipt.
confirms_parts :
    (good : Option Bool) (b : Bool)
    → elim good as (λ x. Bool) [ some g ↦ elim g [ true ↦ b | false ↦ false ] | none ↦ false ]
      ≡ true
    → (good ≡ some true) × (b ≡ true)
confirms_parts (some true) b h = (refl, h)
confirms_parts (some false) b h = cc
confirms_parts none b h = cc

confirms_ok :
    (receipt : Receipt) (persisted : AnchorRecord) (head : Head) (last : Option AnchorRecord)
    → confirms receipt persisted head last ≡ true
    → (receipt.is_ok ≡ some true) × ((r : AnchorRecord) × (last ≡ some r) × (r.seq ≡ head.seq))
unfolding confirms
confirms_ok receipt persisted head none h = cc
confirms_ok receipt persisted head (some r) h =
    let (good, same) =
      confirms_parts receipt.is_ok (str_eq r.anchor_id persisted.anchor_id && (r.seq == head.seq))
        h in
    (good, (r, refl, ground (arith, same)))

validate_keeps :
    (s : Scope) (records valid : List SinkRecord)
    → validate_sink_records s records ≡ ok valid
    → records ≡ valid
unfolding validate_sink_records
validate_keeps s records valid h =
    let (_, _, same) = >>=-eq-ok (validate_records s [] [] records) _ h in
    ok_injective records valid same

-- The records for a write are those of the sink, unless there are none.
records_read :
    (s : Scope) (recorded : Option (List ℕ)) (read : Result (List SinkRecord))
    (records : List SinkRecord)
    → records_for_write s recorded read ≡ ok records
    → (read ≡ ok records) ⊎ (records ≡ [])
unfolding records_for_write
records_read s recorded (raise file_not_found_error) records h =
    inr (sym (ok_injective [] records h))
records_read s recorded (raise why) records h = cc
records_read s recorded (ok []) records h = inl h
records_read s none (ok (r ∷ rest)) records h = cc
records_read s (some x) (ok (r ∷ rest)) records h =
    inl
      (>>=-eq-ok (require (codes_eq x (record_digest s.formats (last_of r rest))) anchor_sink_error)
        _ h).2

latest_read :
    (s : Scope) (recorded : Option (List ℕ)) (read : Result (List SinkRecord))
    (valid : List SinkRecord) (latest : AnchorRecord)
    → (records_for_write s recorded read >>= validate_sink_records s) ≡ ok valid
    → last? (anchors_of valid) ≡ some latest
    → read ≡ ok valid
latest_read s recorded read valid latest h e =
    let (records, got, checked) = >>=-eq-ok (records_for_write s recorded read) _ h in
    let same = validate_keeps s records valid checked in
    elim (records_read s recorded read records got) [
      | inl k ↦ k ∙ ap ok same
      | inr k ↦ absurd (cc (ap (λ x. last? (anchors_of x)) (sym k ∙ same), e))
    ]

is_anchored_head-reached :
    (head : Head) (latest : AnchorRecord)
    → is_anchored_head head latest ≡ true
    → latest.seq ≡ head.seq
unfolding is_anchored_head
is_anchored_head-reached head latest h = ground (arith, h)

module _ (d : Deployment) (at : Moments) (head : Head) where
  -- What follows of a step that returns an ok receipt.
  abbrev Confirms : Step Anchoring → Type 0
  Confirms (raise why, w) = Unit
  Confirms (ok done, w) = done.receipt.is_ok ≡ some true → IsConfirmed d at head w

  abbrev Proves : World → Result Receipt → Type 0
  Proves w (raise why) = Unit
  Proves w (ok receipt) =
      receipt.is_ok ≡ some true → Shown d.scope d.cadence w.tables w.sink at.verified receipt

  verify-Proves :
      (w : World) (e : Option Error)
      → Proves w (verify_chain_against_anchors d.scope d.cadence w.tables w.sink at.verified e)
  verify-Proves w e =
      go (verify_chain_against_anchors d.scope d.cadence w.tables w.sink at.verified e) refl
    where
      go :
          (out : Result Receipt)
          → verify_chain_against_anchors d.scope d.cadence w.tables w.sink at.verified e ≡ out
          → Proves w out
      go (raise why) h = tt
      go (ok receipt) h =
          verify_chain_against_anchors_shows d.scope d.cadence w.tables w.sink at.verified e receipt
            h

  decided :
      (receipt : Receipt) (persisted : AnchorRecord) (done : Anchoring) (why : Error) (w : World)
      (b : Bool)
      → confirms receipt persisted head receipt.last_success ≡ b
      → Proves w (ok receipt)
      → Confirms (if b then (ok done, clear_failure w) else (raise why, w))
  decided receipt persisted done why w true h p = λ _.
      let (good, (r, named, reached)) = confirms_ok receipt persisted head receipt.last_success h in
      let (proof, latest) = p good in
      let same : r ≡ proof.latest = cc (sym named ∙ latest) in
      cleared d at head w proof (rw same at reached)
  decided receipt persisted done why w false h p = tt

  read_back-Confirms :
      (r : AnchorRecord) (persisted : SinkRecord) (w : World)
      → Confirms (read_back d at head r persisted w)
  unfolding read_back
  read_back-Confirms r (pinned p) w = tt
  read_back-Confirms r unsupported w = tt
  read_back-Confirms r (anchored persisted) w =
      let w' : World = record w {
        tables = set_anchor_sink_head d.scope (anchored persisted) w.tables;
      } in
      go (verify_chain_against_anchors d.scope d.cadence w'.tables w'.sink at.verified none)
        (verify-Proves w' none)
    where
      w' : World
      w' = record w { tables = set_anchor_sink_head d.scope (anchored persisted) w.tables }

      go :
          (out : Result Receipt)
          → Proves w' out
          → Confirms (elim out as (λ x. Step Anchoring) [
            | raise why ↦ (raise why, w')
            | ok receipt ↦
                if confirms receipt persisted head receipt.last_success
                then (
                  ok (record {
                    receipt = receipt;
                    wrote_anchor = str_eq persisted.anchor_id r.anchor_id;
                    anchor_id = persisted.anchor_id;
                  }),
                  clear_failure w',
                )
                else (raise anchor_sink_error, w')
          ])
      go (raise why) p = tt
      go (ok receipt) p =
          decided receipt persisted _ anchor_sink_error w'
            (confirms receipt persisted head receipt.last_success) refl p

  write_anchor-Confirms :
      (id : String) (others : Others) (w : World) → Confirms (write_anchor d at id others head w)
  unfolding write_anchor
  write_anchor-Confirms id others w =
      go (others (w.tables, w.sink)).0 (others (w.tables, w.sink)).1
        (append (others (w.tables, w.sink)).1 (anchored r))
    where
      r : AnchorRecord
      r = signed_anchor d at.signed id head

      go :
          (tables : Tables) (sink : Sink) (out : Result (SinkRecord × Sink))
          → Confirms (elim out as (λ x. Step Anchoring) [
            | raise why ↦ (raise why, record w { tables = tables; sink = sink })
            | ok (persisted, sink') ↦
                read_back d at head r persisted (record w { tables = tables; sink = sink' })
          ])
      go tables sink (raise why) = tt
      go tables sink (ok (persisted, sink')) =
          read_back-Confirms r persisted (record w { tables = tables; sink = sink' })

  reuse_anchor-Confirms :
      (latest : AnchorRecord) (valid : List SinkRecord) (w : World)
      → read_records w.sink ≡ ok valid
      → last? (anchors_of valid) ≡ some latest
      → latest.seq ≡ head.seq
      → Confirms (reuse_anchor d at latest w)
  unfolding reuse_anchor
  reuse_anchor-Confirms latest valid w is_read is_last reached =
      go (verify_chain_against_anchors d.scope d.cadence w'.tables w'.sink at.verified e)
        (verify-Proves w' e)
    where
      w' : World
      w' = record w { last_failure = w.tables.anchor_failure }

      e : Option Error
      e = error_class w.tables.anchor_failure

      finish :
          (receipt : Receipt) (good : Option Bool)
          → receipt.is_ok ≡ good
          → Proves w' (ok receipt)
          → Confirms (
            ok (record { receipt = receipt; wrote_anchor = false; anchor_id = latest.anchor_id }),
            elim good as (λ x. World) [
              | some g ↦ elim g [ true ↦ clear_failure w' | false ↦ w' ]
              | none ↦ w'
            ],
          )
      finish receipt (some true) k p = λ good.
          let (proof, named) = p good in
          let same = ok_injective valid proof.records (sym is_read ∙ proof.is_read) in
          let last_same : latest ≡ proof.latest =
            cc (sym is_last, ap (λ x. last? (anchors_of x)) same, proof.is_latest) in
          cleared d at head w' proof (rw last_same at reached)
      finish receipt (some false) k p = λ good. absurd (cc (k, good))
      finish receipt none k p = λ good. absurd (cc (k, good))

      go :
          (out : Result Receipt)
          → Proves w' out
          → Confirms (elim out as (λ x. Step Anchoring) [
            | raise why ↦ (raise why, w')
            | ok receipt ↦ (
              ok (record { receipt = receipt; wrote_anchor = false; anchor_id = latest.anchor_id }),
              elim receipt.is_ok [ some true ↦ clear_failure w' | _ ↦ w' ],
            )
          ])
      go (raise why) p = tt
      go (ok receipt) p = finish receipt receipt.is_ok refl p

  latest_Confirms :
      (id : String) (others : Others) (valid : List SinkRecord) (last : Option AnchorRecord)
      (w : World)
      → ((latest : AnchorRecord) → last ≡ some latest → read_records w.sink ≡ ok valid)
      → last? (anchors_of valid) ≡ last
      → Confirms (anchor_latest d at id others head last w)
  unfolding anchor_latest
  latest_Confirms id others valid none w r e = write_anchor-Confirms id others w
  latest_Confirms id others valid (some latest) w r e =
      elim (Bool-cases (is_anchored_head head latest)) [
        | inl k ↦
            rw (k, anchor_latest)
              (reuse_anchor-Confirms latest valid w (r latest refl) e
                (is_anchored_head-reached head latest k))
        | inr k ↦ rw (k, anchor_latest) (write_anchor-Confirms id others w)
      ]

  anchor_steps-Confirms :
      (id : String) (others : Others) (w : World) → Confirms (anchor_steps d at id others head w)
  unfolding anchor_steps
  anchor_steps-Confirms id others w = elim (Bool-cases (head.seq == 0)) [
    | inl k ↦ rw (k, anchor_steps) tt
    | inr k ↦
        rw (k, anchor_steps)
          (go
            (records_for_write d.scope w.tables.anchor_sink_head (read_records w.sink)
              >>= validate_sink_records d.scope)
            refl)
  ]
    where
      go :
          (out : Result (List SinkRecord))
          → (records_for_write d.scope w.tables.anchor_sink_head (read_records w.sink)
              >>= validate_sink_records d.scope)
            ≡ out
          → Confirms (elim out as (λ x. Step Anchoring) [
            | raise why ↦ (raise why, w)
            | ok valid ↦ anchor_latest d at id others head (last? (anchors_of valid)) w
          ])
      go (raise why) h = tt
      go (ok valid) h =
          latest_Confirms id others valid (last? (anchors_of valid)) w
            (λ latest e.
              latest_read d.scope w.tables.anchor_sink_head (read_records w.sink) valid latest h e)
            refl

-- Whatever the sink and the database held, and whatever other processes wrote before the append: if
-- `anchor` returns a receipt that says ok, then the sink and the database that it leaves are in
-- order in the sense of a full verification, the latest anchor has the sequence number of the head
-- that the log had when the call began, and the stored failure and the back-off are cleared.
pub anchor-IsConfirmed :
    (d : Deployment) (at : Moments) (id : String) (others : Others) (w w' : World)
    (done : Anchoring)
    → anchor d at id others w ≡ (returned done, w')
    → done.receipt.is_ok ≡ some true
    → IsConfirmed d at (audit_head_snapshot w.tables.log) w'
unfolding anchor or_write_error
anchor-IsConfirmed d at id others w w' done h good =
    finish (anchor_steps d at id others head w) (anchor_steps-Confirms d at head id others w) h
  where
    head : Head
    head = audit_head_snapshot w.tables.log

    finish :
        (out : Step Anchoring)
        → Confirms d at head out
        → or_write_error d at head.seq out ≡ (returned done, w')
        → IsConfirmed d at head w'
    finish (raise why, x) c e = cc
    finish (ok made, x) c e =
        let same : made ≡ done = cc in
        let same_world : x ≡ w' = cc in rw same_world at (c (rw (← same) at good))
