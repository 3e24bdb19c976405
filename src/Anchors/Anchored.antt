-- ===== src/Anchors/Anchored.antt =====
-- What a receipt of `verify_chain_against_anchors` that says ok shows of the log and the sink.
use heartwood_memory.Prelude.{
  ℕ, ◌-◌, ◌<◌, ◌≤◌, ◌≡◌, refl, sym, ap, ◌∙◌, ◌⊎◌, inl, inr, Bool, true, false, ltb, Option, none,
  some, List, [], ◌∷◌, String, arith, length, All, Bool-cases, Option-cases, Result-cases,
  ok_injective, file_not_found_error, Error, ok, >>=-eq-ok,
}
use heartwood_memory.Audit.{Row, codes_eq}
use heartwood_memory.Audit.Chain.{verify_chain, codes_eq→eq}
use heartwood_memory.Anchors.{
  AnchorRecord, SinkRecord, Scope, anchors_of, last_of, last?, record_digest, parse_utc,
  validate_sink_records, validate_records,
}
use heartwood_memory.Anchors.Signatures.{IsValid, validate_records-IsValid}
use heartwood_memory.Anchors.Sink.{Sink, read_records}
use heartwood_memory.Anchors.Sink.Ordered.{Rising}
use heartwood_memory.Anchors.Verify.{
  Tables, Head, Receipt, Cadence, audit_row, audit_head_snapshot, check_order, check_rows,
  check_head, check_sink_head, first_problem, or_else, judge, check_anchors,
  verify_chain_against_anchors, read_valid, is_due, unreadable, base_receipt,
}

check_order-Rising :
    (n : ℕ) (seen : List String) (anchors : List AnchorRecord)
    → check_order n seen anchors ≡ none
    → Rising n anchors
unfolding check_order
check_order-Rising n seen [] h = tt
check_order-Rising n seen (r ∷ anchors) h =
    (ground (arith, h), check_order-Rising r.seq (r.anchor_id ∷ seen) anchors (ground (arith, h)))

-- The row with the sequence number of the anchor is there, and has its hash.
pub record IsMatched (rows : List Row) (r : AnchorRecord) : Type 0 where
  pub row : Row
  pub is_stored : audit_row rows r.seq ≡ some row
  pub has_hash : row.row_hash ≡ r.row_hash

pub check_rows-IsMatched :
    (rows : List Row) (anchors : List AnchorRecord)
    → check_rows rows anchors ≡ none
    → All (IsMatched rows) anchors
unfolding check_rows
check_rows-IsMatched rows [] h = tt
check_rows-IsMatched rows (r ∷ anchors) h = elim (Option-cases (audit_row rows r.seq)) [
  | inl e ↦ absurd (ground (arith, rw (e, check_rows) at h))
  | inr (row, e) ↦ elim (Bool-cases (codes_eq row.row_hash r.row_hash)) [
    | inr k ↦ absurd (ground (arith, rw (e, k, check_rows) at h))
    | inl k ↦ (
      record { row = row; is_stored = e; has_hash = codes_eq→eq row.row_hash r.row_hash k },
      check_rows-IsMatched rows anchors (rw (e, k, check_rows) at h),
    )
  ]
]

-- The head that the database keeps is the digest of the last record.
pub record IsRecorded (s : Scope) (head : Option (List ℕ)) (records : List SinkRecord)
    : Type 0 where
  pub last : SinkRecord
  pub is_last : last? records ≡ some last
  pub is_head : head ≡ some (record_digest s.formats last)

check_sink_head-IsRecorded :
    (s : Scope) (head : Option (List ℕ)) (records : List SinkRecord)
    → check_sink_head s head (last? records) ≡ none
    → IsRecorded s head records
unfolding check_sink_head
check_sink_head-IsRecorded s none records h = cc
check_sink_head-IsRecorded s (some head) [] h = cc
check_sink_head-IsRecorded s (some head) (r ∷ records) h =
    elim (Bool-cases (codes_eq head (record_digest s.formats (last_of r records)))) [
      | inr k ↦ absurd (ground (arith, rw (k, check_sink_head) at h))
      | inl k ↦ record {
        last = last_of r records;
        is_last = refl;
        is_head = cc (codes_eq→eq head (record_digest s.formats (last_of r records)) k);
      }
    ]

abbrev pub Fresh : Cadence → Head → AnchorRecord → ℕ → Type 0
Fresh cadence head latest seconds =
    (head.seq ≡ latest.seq)
    ⊎ ((head.seq - latest.seq < cadence.every_n_rows) × (seconds < cadence.interval_s))

-- The log, the sink and the recorded head fit together, and the latest anchor is fresh.
pub record IsAnchored (s : Scope) (cadence : Cadence) (t : Tables) (sink : Sink) (now : ℕ)
    : Type 0 where
  pub records : List SinkRecord
  pub is_read : read_records sink ≡ ok records
  pub is_chain : verify_chain s.formats.codec (some s.chain_id) t.log ≡ true
  pub is_valid : All (IsValid s) records
  pub latest : AnchorRecord
  pub is_latest : last? (anchors_of records) ≡ some latest
  pub is_rising : Rising 0 (anchors_of records)
  pub is_matched : All (IsMatched t.log.rows) (anchors_of records)
  pub is_recorded : IsRecorded s t.anchor_sink_head records
  pub created_at : ℕ
  pub is_created : parse_utc s.formats latest.signed.created_at_utc ≡ ok created_at
  pub is_behind : latest.seq ≤ (audit_head_snapshot t.log).seq
  pub is_fresh : Fresh cadence (audit_head_snapshot t.log) latest (now - created_at)

pub or_else-none {ℓ} : {A : Type ℓ} (x y : Option A) → or_else x y ≡ none → (x ≡ none) × (y ≡ none)
or_else-none none y h = (refl, h)
or_else-none (some x) y h = cc

due-Fresh :
    (cadence : Cadence) (head : Head) (latest : AnchorRecord) (seconds : ℕ)
    → latest.seq ≤ head.seq
    → is_due cadence (head.seq - latest.seq) seconds ≡ false
    → Fresh cadence head latest seconds
unfolding is_due
due-Fresh cadence head latest seconds b h = elim (Bool-cases (ltb 0 (head.seq - latest.seq))) [
  | inr k ↦ inl (ground (arith, k, b))
  | inl k ↦ inr (ground (arith, k, h), ground (arith, k, h))
]

judged :
    (cadence : Cadence) (chain_ok : Bool) (receipt : Receipt) (head : Head) (latest : AnchorRecord)
    (seconds : ℕ)
    → (judge cadence chain_ok receipt head latest seconds).is_ok ≡ some true
    → (chain_ok ≡ true) × (is_due cadence (head.seq - latest.seq) seconds ≡ false)
unfolding judge
judged cadence true receipt head latest seconds h = (
  refl,
  elim (Bool-cases (is_due cadence (head.seq - latest.seq) seconds)) [
    | inl k ↦ absurd (ground (arith, rw (k, judge) at h))
    | inr k ↦ k
  ],
)
judged cadence false receipt head latest seconds h = cc

judged_latest :
    (cadence : Cadence) (chain_ok : Bool) (receipt : Receipt) (head : Head) (latest : AnchorRecord)
    (seconds : ℕ) (out : Receipt)
    → judge cadence chain_ok receipt head latest seconds ≡ out
    → out.last_success ≡ some latest
unfolding judge
judged_latest cadence chain_ok receipt head latest seconds out h = sym (ap Receipt.last_success h)

-- Also, the receipt names the latest anchor.
abbrev pub Shown : Scope → Cadence → Tables → Sink → ℕ → Receipt → Type 0
Shown s cadence t sink now receipt =
    (w : IsAnchored s cadence t sink now) × (receipt.last_success ≡ some w.latest)

module _ (s : Scope) (cadence : Cadence) (t : Tables) (sink : Sink) (now : ℕ)
    (records : List SinkRecord) (is_read : read_records sink ≡ ok records)
    (is_valid : All (IsValid s) records) where
  no_problem :
      (a : AnchorRecord) (anchors : List AnchorRecord)
      → first_problem s t (audit_head_snapshot t.log) records a anchors ≡ none
      → Rising 0 (a ∷ anchors)
        × IsRecorded s t.anchor_sink_head records
        × All (IsMatched t.log.rows) (a ∷ anchors)
        × ((last_of a anchors).seq ≤ (audit_head_snapshot t.log).seq)
  unfolding first_problem check_head
  no_problem a anchors h =
      let (order, x) = or_else-none (check_order 0 [] (a ∷ anchors)) _ h in
      let (recorded, y) = or_else-none (check_sink_head s t.anchor_sink_head (last? records)) _ x in
      let (rows, z) = or_else-none (check_rows t.log.rows (a ∷ anchors)) _ y in
      (
        check_order-Rising 0 [] (a ∷ anchors) order,
        check_sink_head-IsRecorded s t.anchor_sink_head records recorded,
        check_rows-IsMatched t.log.rows (a ∷ anchors) rows,
        ground (arith, z),
      )

  checked-IsAnchored :
      (chain_ok : Bool) (base receipt : Receipt)
      → base.is_ok ≡ some false
      → chain_ok ≡ verify_chain s.formats.codec (some s.chain_id) t.log
      → (anchors : List AnchorRecord) → anchors_of records ≡ anchors
      → check_anchors s cadence t now chain_ok base records anchors ≡ ok receipt
      → receipt.is_ok ≡ some true
      → Shown s cadence t sink now receipt
  unfolding check_anchors
  checked-IsAnchored chain_ok base receipt b same [] e h good = cc
  checked-IsAnchored chain_ok base receipt b same (a ∷ anchors) e h good =
      let head = audit_head_snapshot t.log in
      let latest = last_of a anchors in
      elim (Option-cases (first_problem s t head records a anchors)) [
        | inr (why, k) ↦ absurd (cc (rw (k, check_anchors) at h))
        | inl k ↦
            let (created, parsed, judgement) =
              >>=-eq-ok (parse_utc s.formats latest.signed.created_at_utc) _
                (rw (k, check_anchors) at h) in
            let (rising, recorded, matched, behind) = no_problem a anchors k in
            let (chained, prompt) =
              judged cadence chain_ok base head latest (now - created)
                (ap Receipt.is_ok (ok_injective _ _ judgement) ∙ good) in
            (
              record {
                records = records;
                is_read = is_read;
                is_chain = cc;
                is_valid = is_valid;
                latest = latest;
                is_latest = rw e;
                is_rising = rw e rising;
                is_matched = rw e matched;
                is_recorded = recorded;
                created_at = created;
                is_created = parsed;
                is_behind = behind;
                is_fresh = due-Fresh cadence head latest (now - created) behind prompt;
              },
              judged_latest cadence chain_ok base head latest (now - created) receipt
                  (ok_injective _ _ judgement),
            )
      ]

pub unreadable_fails : (base : Receipt) (e : Error) → (unreadable base e).is_ok ≡ base.is_ok
unfolding unreadable
unreadable_fails base file_not_found_error = refl
unreadable_fails base e = refl

pub verify_chain_against_anchors_shows :
    (s : Scope) (cadence : Cadence) (t : Tables) (sink : Sink) (now : ℕ) (last_error : Option Error)
    (receipt : Receipt)
    → verify_chain_against_anchors s cadence t sink now last_error ≡ ok receipt
    → receipt.is_ok ≡ some true
    → Shown s cadence t sink now receipt
unfolding verify_chain_against_anchors read_valid validate_sink_records base_receipt
verify_chain_against_anchors_shows s cadence t sink now last_error receipt h good =
    let chain_ok = verify_chain s.formats.codec (some s.chain_id) t.log in
    elim (Result-cases (read_valid s sink)) [
      | inl (why, e) ↦
          let base =
            base_receipt (some false) (some chain_ok) (some false) (audit_head_snapshot t.log)
              last_error in
          let same =
            ok_injective (unreadable base why) receipt
              (rw (e, verify_chain_against_anchors) at h) in
          absurd (cc (same, unreadable_fails base why, good))
      | inr (valid, e) ↦
          let base =
            base_receipt (some false) (some chain_ok) (some false) (audit_head_snapshot t.log)
              last_error in
          let (records, is_read, rest) = >>=-eq-ok (read_records sink) _ e in
          let (_, checked, same) = >>=-eq-ok (validate_records s [] [] records) _ rest in
          let same_records : records ≡ valid = cc in
          checked-IsAnchored s cadence t sink now valid (rw same_records at is_read)
            (rw same_records at (validate_records-IsValid s [] [] records checked)) chain_ok
            (record base { sink_healthy = true; anchors_checked = length (anchors_of valid) })
            receipt refl refl (anchors_of valid) refl (rw (e, verify_chain_against_anchors) at h)
            good
    ]

-- A receipt of `verify_chain_against_anchors` that says ok shows, whatever the log, the sink and the
-- recorded head: the log verifies; the sink was read whole, and each of its records is signed under
-- a trusted root; the sequence numbers of the anchors rise; the row with the number of each anchor
-- is in the log and has its hash; the recorded head is the digest of the last record; and no row
-- was written after the latest anchor, or fewer than the row cadence within less than the interval.
pub verify_chain_against_anchors-IsAnchored :
    (s : Scope) (cadence : Cadence) (t : Tables) (sink : Sink) (now : ℕ) (last_error : Option Error)
    (receipt : Receipt)
    → verify_chain_against_anchors s cadence t sink now last_error ≡ ok receipt
    → receipt.is_ok ≡ some true
    → IsAnchored s cadence t sink now
verify_chain_against_anchors-IsAnchored s cadence t sink now last_error receipt h good =
    (verify_chain_against_anchors_shows s cadence t sink now last_error receipt h good).0
