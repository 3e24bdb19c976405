-- ===== src/Anchors/Rollback.antt =====
-- What an anchor protects: the part of the log that was there when it was made.
use heartwood_memory.Prelude.{
  ℕ, ◌≡◌, refl, sym, ◌∙◌, ◌⊎◌, inl, inr, true, ◌==◌, Bool-cases, Option, some, List, [], ◌∷◌, ◌++◌,
  map, append_assoc, arith, In, In-append_left, All-In, Error, ok, ok_injective,
}
use heartwood_memory.Audit.{Row, Log, genesis, head_hash}
use heartwood_memory.Audit.Chain.{verify_chain, verify_chain-truncated}
use heartwood_memory.Audit.Tamper.{bound, Collides, tamper_evident}
use heartwood_memory.Anchors.{
  AnchorRecord, SinkRecord, anchored, pinned, unsupported, Scope, anchors_of,
}
use heartwood_memory.Anchors.Sink.{Sink, read_records}
use heartwood_memory.Anchors.Verify.{
  Tables, Head, Receipt, Cadence, head_from, audit_row, audit_head_snapshot,
  verify_chain_against_anchors,
}
use heartwood_memory.Anchors.Anchored.{IsMatched, verify_chain_against_anchors-IsAnchored}

In-anchors_of :
    (r : AnchorRecord) (records : List SinkRecord)
    → In (anchored r) records
    → In r (anchors_of records)
In-anchors_of r (anchored x ∷ records) (inl e) = inl cc
In-anchors_of r (anchored x ∷ records) (inr h) = inr (In-anchors_of r records h)
In-anchors_of r (pinned x ∷ records) (inl e) = cc
In-anchors_of r (pinned x ∷ records) (inr h) = In-anchors_of r records h
In-anchors_of r (unsupported ∷ records) (inl e) = cc
In-anchors_of r (unsupported ∷ records) (inr h) = In-anchors_of r records h
In-anchors_of r [] h = absurd h

audit_row-split :
    (rows : List Row) (seq : ℕ) (row : Row)
    → audit_row rows seq ≡ some row
    → (earlier later : List Row) × (rows ≡ earlier ++ row ∷ later)
unfolding audit_row
audit_row-split [] seq row h = cc
audit_row-split (r ∷ rows) seq row h = elim (Bool-cases (r.seq == seq)) [
  | inl k ↦ ([], rows, ground (arith, rw (k, audit_row) at h))
  | inr k ↦
      let (earlier, later, e) = audit_row-split rows seq row (rw (k, audit_row) at h) in
      (r ∷ earlier, later, cc)
]

head_hash-append :
    (prev : List ℕ) (rows : List Row) (row : Row) → head_hash prev (rows ++ row ∷ []) ≡ row.row_hash
unfolding head_hash
head_hash-append prev [] row = refl
head_hash-append prev (r ∷ rows) row = head_hash-append r.row_hash rows row

head_from-hash :
    (h : Head) (rows : List Row) → (head_from h rows).row_hash ≡ head_hash h.row_hash rows
unfolding head_hash
head_from-hash h [] = refl
head_from-hash h (r ∷ rows) = head_from-hash (record { seq = r.seq; row_hash = r.row_hash }) rows

-- The rows of the log up to some point are, row by row, those of the earlier log as far as the hash
-- chain binds them.
abbrev pub Extends : Scope → Log → Log → Type 0
Extends s now earlier =
    (kept added : List Row) × (now.rows ≡ kept ++ added)
    × (map (bound s.formats.codec) kept ≡ map (bound s.formats.codec) earlier.rows)

verify_chain-rows :
    (s : Scope) (log : Log) (rows : List Row)
    → log.rows ≡ rows
    → verify_chain s.formats.codec (some s.chain_id) log ≡ true
    → verify_chain s.formats.codec
        (some s.chain_id)
        (record { rows = rows; last_seq = log.last_seq })
      ≡ true
verify_chain-rows s log rows e h = rw (← e) h

matched_protects :
    (s : Scope) (log : Log) (r : AnchorRecord) (earlier : Log)
    → verify_chain s.formats.codec (some s.chain_id) log ≡ true
    → IsMatched log.rows r
    → r.row_hash ≡ (audit_head_snapshot earlier).row_hash
    → verify_chain s.formats.codec (some s.chain_id) earlier ≡ true
    → Extends s log earlier ⊎ Collides s.formats.codec log.rows earlier.rows
unfolding audit_head_snapshot
matched_protects s log r earlier chained m made verified =
    let (kept, added, e) = audit_row-split log.rows r.seq m.row m.is_stored in
    let until = kept ++ m.row ∷ [] in
    let whole : log.rows ≡ until ++ added = e ∙ sym (append_assoc kept (m.row ∷ []) added) in
    let still =
      verify_chain-truncated s.formats.codec (some s.chain_id) until added log.last_seq
        (verify_chain-rows s log (until ++ added) whole chained) in
    let heads : head_hash genesis until ≡ head_hash genesis earlier.rows =
      head_hash-append genesis kept m.row
      ∙ m.has_hash
      ∙ made
      ∙ head_from-hash (record { seq = 0; row_hash = genesis }) earlier.rows in
    elim (tamper_evident s.formats.codec (some s.chain_id) (some s.chain_id)
      (record { rows = until; last_seq = log.last_seq }) earlier still verified heads) [
        | inl same_rows ↦ inl (until, added, whole, same_rows)
        | inr (x, y, there, here, unlike, one) ↦
            inr (x, y, rw whole (In-append_left x until added there), here, unlike, one)
      ]

-- Let an anchor in the sink have the hash of the head of an earlier log that verified. If a later
-- receipt says ok, then the log of that time starts with the rows of the earlier log, row by row
-- with the same hashes and hashed contents, so no row of it was cut off, edited, dropped or moved;
-- or else a row of the log and a row of the earlier one are given whose hashed texts differ and have
-- the same digest.
pub anchor_protects :
    (s : Scope) (cadence : Cadence) (t : Tables) (sink : Sink) (now : ℕ) (last_error : Option Error)
    (receipt : Receipt) (records : List SinkRecord) (r : AnchorRecord) (earlier : Log)
    → verify_chain_against_anchors s cadence t sink now last_error ≡ ok receipt
    → receipt.is_ok ≡ some true
    → read_records sink ≡ ok records
    → In (anchored r) records
    → r.row_hash ≡ (audit_head_snapshot earlier).row_hash
    → verify_chain s.formats.codec (some s.chain_id) earlier ≡ true
    → Extends s t.log earlier ⊎ Collides s.formats.codec t.log.rows earlier.rows
anchor_protects s cadence t sink now last_error receipt records r earlier h good is_read there made
      verified =
    let w =
      verify_chain_against_anchors-IsAnchored s cadence t sink now last_error receipt h good in
    let same = ok_injective records w.records (sym is_read ∙ w.is_read) in
    matched_protects s t.log r earlier w.is_chain
      (All-In (IsMatched t.log.rows) (anchors_of w.records) r w.is_matched
        (In-anchors_of r w.records (rw same at there)))
      made verified
