-- ===== src/Anchors/Agreement.antt =====
-- The cheap check of the cadence in heartwood/anchors.py against the full verification.
use heartwood_memory.Prelude.{
  ℕ, ◌-◌, ◌≡◌, ◌↔◌, refl, sym, ap, ◌∙◌, inl, inr, Bool, true, false, leb, Option, none, some, List,
  [], ◌∷◌, String, elem, length, arith, All, Bool-cases, Option-cases, Result-cases, Result, ok,
  raise, ◌>>=◌, >>=-eq-ok, ok_injective,
}
use heartwood_memory.Audit.{Row}
use heartwood_memory.Audit.Chain.{verify_chain, codes_eq_refl}
use heartwood_memory.Anchors.{
  AnchorRecord, SinkRecord, Scope, anchors_of, last_of, last?, parse_utc, validate_sink_records,
  validate_records,
}
use heartwood_memory.Anchors.Sink.{Sink, read_records}
use heartwood_memory.Anchors.Verify.{
  Tables, Head, Failure, Receipt, Cadence, audit_head_snapshot, check_order, check_rows,
  check_sink_head, first_problem, judge, check_anchors, verify_chain_against_anchors, read_valid,
  is_due, is_none, unreadable, base_receipt, fails,
}
use heartwood_memory.Anchors.Anchored.{
  IsMatched, check_rows-IsMatched, or_else-none, unreadable_fails,
}
use heartwood_memory.Anchors.Writer.{error_class}
use heartwood_memory.Anchors.Cadence.{
  check_anchor_order, check_recorded_head, cadence_problem, judge_cadence, check_cadence, status_of,
}

check_order_iff :
    (n : ℕ) (seen : List String) (anchors : List AnchorRecord)
    → (check_order n seen anchors ≡ none) ↔ (check_anchor_order n seen anchors ≡ none)
unfolding check_order check_anchor_order
check_order_iff n seen [] = (λ h. refl, λ h. refl)
check_order_iff n seen (r ∷ anchors) =
    let ih = check_order_iff r.seq (r.anchor_id ∷ seen) anchors in
    elim (Bool-cases (elem r.anchor_id seen)) [
      | inl k ↦ (λ h. absurd (ground (arith, k, h)), λ h. absurd (ground (arith, k, h)))
      | inr k ↦ elim (Bool-cases (leb r.seq n)) [
        | inl l ↦ (λ h. absurd (ground (arith, k, l, h)), λ h. absurd (ground (arith, k, l, h)))
        | inr l ↦ (
          λ h. rw (k, l, check_anchor_order) (ih.0 (rw (k, l, check_order) at h)),
          λ h. rw (k, l, check_order) (ih.1 (rw (k, l, check_anchor_order) at h)),
        )
      ]
    ]

check_head_iff :
    (s : Scope) (head : Option (List ℕ)) (last : Option SinkRecord)
    → (check_sink_head s head last ≡ none) ↔ (check_recorded_head s head last ≡ none)
unfolding check_sink_head check_recorded_head
check_head_iff s none last = (λ h. cc, λ h. cc)
check_head_iff s (some head) none = (λ h. cc, λ h. cc)
check_head_iff s (some head) (some last) = (λ h. h, λ h. h)

check_rows-of_All :
    (rows : List Row) (anchors : List AnchorRecord)
    → All (IsMatched rows) anchors
    → check_rows rows anchors ≡ none
unfolding check_rows
check_rows-of_All rows [] h = refl
check_rows-of_All rows (r ∷ anchors) h =
    rw (h.0.is_stored, h.0.has_hash, codes_eq_refl r.row_hash, check_rows)
      (check_rows-of_All rows anchors h.1)

first_problem_iff :
    (s : Scope) (t : Tables) (head : Head) (valid : List SinkRecord) (a : AnchorRecord)
    (anchors : List AnchorRecord)
    → (first_problem s t head valid a anchors ≡ none) ↔ (
        (cadence_problem s t head valid a anchors ≡ none)
        × All (IsMatched t.log.rows) (a ∷ anchors))
unfolding first_problem cadence_problem
first_problem_iff s t head valid a anchors = (forth, back)
  where
    forth :
        first_problem s t head valid a anchors ≡ none
        → (cadence_problem s t head valid a anchors ≡ none)
          × All (IsMatched t.log.rows) (a ∷ anchors)
    forth h =
        let (order, x) = or_else-none (check_order 0 [] (a ∷ anchors)) _ h in
        let (recorded, y) = or_else-none (check_sink_head s t.anchor_sink_head (last? valid)) _ x in
        let (rows, z) = or_else-none (check_rows t.log.rows (a ∷ anchors)) _ y in
        (
          rw
              (
                (check_order_iff 0 [] (a ∷ anchors)).0 order,
                (check_head_iff s t.anchor_sink_head (last? valid)).0 recorded,
              )
              z,
          check_rows-IsMatched t.log.rows (a ∷ anchors) rows,
        )

    back :
        (cadence_problem s t head valid a anchors ≡ none) × All (IsMatched t.log.rows) (a ∷ anchors)
        → first_problem s t head valid a anchors ≡ none
    back (h, m) =
        let (order, x) = or_else-none (check_anchor_order 0 [] (a ∷ anchors)) _ h in
        let (recorded, z) =
          or_else-none (check_recorded_head s t.anchor_sink_head (last? valid)) _ x in
        rw
          (
            (check_order_iff 0 [] (a ∷ anchors)).1 order,
            (check_head_iff s t.anchor_sink_head (last? valid)).1 recorded,
            check_rows-of_All t.log.rows (a ∷ anchors) m,
          )
          z

is_none-error_class : (f : Option Failure) → is_none (error_class f) ≡ is_none f
is_none-error_class none = refl
is_none-error_class (some f) = refl

judge_iff :
    (cadence : Cadence) (chain_ok clean : Bool) (full cheap : Receipt) (head : Head)
    (latest : AnchorRecord) (seconds : ℕ)
    → is_none full.last_sanitized_error_class ≡ clean
    → ((judge cadence chain_ok full head latest seconds).is_ok ≡ some true)
      ↔ ((chain_ok ≡ true) × ((judge_cadence cadence clean cheap head latest seconds).is_ok ≡ none))
unfolding judge judge_cadence
judge_iff cadence false clean full cheap head latest seconds e = (λ h. cc, λ h. cc (h.0))
judge_iff cadence true clean full cheap head latest seconds e =
    elim (Bool-cases (is_due cadence (head.seq - latest.seq) seconds)) [
      | inl k ↦
          (λ h. absurd (cc (rw (k, judge) at h)), λ h. absurd (cc (rw (k, judge_cadence) at h.1)))
      | inr k ↦ go clean e k
    ]
  where
    go :
        (b : Bool)
        → is_none full.last_sanitized_error_class ≡ b
        → is_due cadence (head.seq - latest.seq) seconds ≡ false
        → ((judge cadence true full head latest seconds).is_ok ≡ some true) ↔ (
            (◌≡◌ {A = Bool} true true)
            × ((judge_cadence cadence b cheap head latest seconds).is_ok ≡ none))
    go true e k = (λ h. (refl, rw (k, judge_cadence) refl), λ h. rw (k, e, judge) refl)
    go false e k =
        (λ h. absurd (cc (rw (k, e, judge) at h)), λ h. absurd (cc (rw (k, judge_cadence) at h.1)))

module _ (s : Scope) (cadence : Cadence) (t : Tables) (now : ℕ) (valid : List SinkRecord)
    (full cheap : Receipt) where
  -- The two judgements of the anchors of one sink.
  abbrev pub Agrees : List AnchorRecord → Type 0
  Agrees anchors = (full.is_ok ≡ some true) ↔ (
      (cheap.is_ok ≡ none)
      × (verify_chain s.formats.codec (some s.chain_id) t.log ≡ true)
      × All (IsMatched t.log.rows) anchors)

  judged_Agrees :
      (full_base cheap_base : Receipt) (a : AnchorRecord) (anchors : List AnchorRecord)
      (created : Result ℕ)
      → full_base.last_sanitized_error_class ≡ error_class t.anchor_failure
      → All (IsMatched t.log.rows) (a ∷ anchors)
      → (created >>= λ at. ok (
          judge cadence
            (verify_chain s.formats.codec (some s.chain_id) t.log)
            full_base
            (audit_head_snapshot t.log)
            (last_of a anchors)
            (now - at)))
        ≡ ok full
      → (created >>= λ at. ok (
          judge_cadence cadence
            (is_none t.anchor_failure)
            cheap_base
            (audit_head_snapshot t.log)
            (last_of a anchors)
            (now - at)))
        ≡ ok cheap
      → Agrees (a ∷ anchors)
  judged_Agrees full_base cheap_base a anchors (raise why) e m h k = cc
  judged_Agrees full_base cheap_base a anchors (ok at) e m h k =
      let latest = last_of a anchors in
      let head = audit_head_snapshot t.log in
      let same_full = ap Receipt.is_ok (ok_injective _ full h) in
      let same_cheap = ap Receipt.is_ok (ok_injective _ cheap k) in
      let both =
        judge_iff cadence (verify_chain s.formats.codec (some s.chain_id) t.log)
          (is_none t.anchor_failure) full_base cheap_base head latest (now - at)
          (ap is_none e ∙ is_none-error_class t.anchor_failure) in
      (
        (λ good.
            let (chained, quiet) = both.0 (same_full ∙ good) in
            (sym same_cheap ∙ quiet, chained, m)),
        (λ r. sym same_full ∙ both.1 (r.1, same_cheap ∙ r.0)),
      )

  checked_Agrees :
      (full_base cheap_base : Receipt) (anchors : List AnchorRecord)
      → full_base.last_sanitized_error_class ≡ error_class t.anchor_failure
      → full_base.is_ok ≡ some false
      → check_anchors s cadence t now
          (verify_chain s.formats.codec (some s.chain_id) t.log)
          full_base
          valid
          anchors
        ≡ ok full
      → check_cadence s cadence t now cheap_base valid anchors ≡ ok cheap
      → Agrees anchors
  unfolding check_anchors check_cadence
  checked_Agrees full_base cheap_base [] e b h k = (
    (λ good. absurd (cc (h, b, good))),
    (λ r. absurd (cc (ap Receipt.is_ok (ok_injective _ cheap k), r.0))),
  )
  checked_Agrees full_base cheap_base (a ∷ anchors) e b h k =
      let head = audit_head_snapshot t.log in
      let problems = first_problem_iff s t head valid a anchors in
      elim (Option-cases (cadence_problem s t head valid a anchors)) [
        | inr (why, p) ↦ elim (Option-cases (first_problem s t head valid a anchors)) [
          | inl q ↦ absurd (cc (p, (problems.0 q).0))
          | inr (what, q) ↦
              let full_same =
                ap Receipt.is_ok
                  (ok_injective (fails full_base what) full (rw (q, check_anchors) at h)) in
              let cheap_same =
                ap Receipt.is_ok (ok_injective _ cheap (rw (p, check_cadence) at k)) in
              ((λ good. absurd (cc (full_same, b, good))), (λ r. absurd (cc (cheap_same, r.0))))
        ]
        | inl p ↦ elim (Option-cases (first_problem s t head valid a anchors)) [
          | inl q ↦
              judged_Agrees full_base cheap_base a anchors
                (parse_utc s.formats (last_of a anchors).signed.created_at_utc) e (problems.0 q).1
                (rw (q, check_anchors) at h) (rw (p, check_cadence) at k)
          | inr (what, q) ↦
              let full_same =
                ap Receipt.is_ok
                  (ok_injective (fails full_base what) full (rw (q, check_anchors) at h)) in
              (
                (λ good. absurd (cc (full_same, b, good))),
                (λ r. absurd (cc (q, problems.1 (p, r.2)))),
              )
        ]
      ]

-- The full verification and the cheap check of the cadence agree, when both are made of one sink and
-- one database at one time, with the stored failure: the full receipt says ok exactly when the cheap
-- one has nothing to report, the hash chain of the whole log verifies, and each anchor matches the
-- row of its number. So the cheap check leaves out those two things and nothing else.
pub cadence-Agrees :
    (s : Scope) (cadence : Cadence) (t : Tables) (sink : Sink) (now : ℕ) (records : List SinkRecord)
    (full cheap : Receipt)
    → read_records sink ≡ ok records
    → verify_chain_against_anchors s cadence t sink now (error_class t.anchor_failure) ≡ ok full
    → status_of s cadence t sink now ≡ ok cheap
    → Agrees s cadence t now records full cheap (anchors_of records)
unfolding verify_chain_against_anchors status_of read_valid validate_sink_records base_receipt
cadence-Agrees s cadence t sink now records full cheap is_read h k =
    let chain_ok = verify_chain s.formats.codec (some s.chain_id) t.log in
    let head = audit_head_snapshot t.log in
    let base =
      base_receipt (some false) (some chain_ok) (some false) head (error_class t.anchor_failure) in
    let cheap_base = base_receipt none none none head (error_class t.anchor_failure) in
    elim (Result-cases (read_valid s sink)) [
      | inl (why, e) ↦
          let full_same =
            ok_injective (unreadable base why) full (rw (e, verify_chain_against_anchors) at h) in
          let cheap_same =
            ok_injective (unreadable (record cheap_base { is_ok = some false }) why) cheap
              (rw (e, status_of) at k) in
          (
            (λ good. absurd (cc (full_same, unreadable_fails base why, good))),
            (λ r. absurd (
                cc (
                  cheap_same,
                  unreadable_fails (record cheap_base { is_ok = some false }) why,
                  r.0,
                ))),
          )
      | inr (valid, e) ↦
          let (got, read, rest) = >>=-eq-ok (read_records sink) _ e in
          let (_, _, same) = >>=-eq-ok (validate_records s [] [] got) _ rest in
          let same_records : valid ≡ records =
            sym (ok_injective got valid same) ∙ ok_injective got records (sym read ∙ is_read) in
          rw (← same_records) (
            checked_Agrees s cadence t now valid full cheap
              (record base { sink_healthy = true; anchors_checked = length (anchors_of valid) })
              (record cheap_base {
                sink_healthy = true;
                anchors_checked = length (anchors_of valid);
              })
              (anchors_of valid) refl refl (rw (e, verify_chain_against_anchors) at h)
              (rw (e, status_of) at k))
    ]
