-- ===== src/Anchors/Sink/Appended.antt =====
-- What an append to the local file sink of heartwood/anchors.py leaves.
use heartwood_memory.Prelude.{
  ◌≡◌, refl, sym, ap, subst, ◌∙◌, ◌⊎◌, inl, inr, ◌==◌, ltb, Option, none, some, List, [], ◌∷◌, ◌++◌,
  arith, In, In-append_right, Bool-cases, ok, >>=-eq-ok, ok_injective,
}
use heartwood_memory.Audit.{codes_eq}
use heartwood_memory.Audit.Chain.{codes_eq→eq}
use heartwood_memory.Anchors.{
  AnchorRecord, PinRecord, SinkRecord, anchored, pinned, unsupported, anchors_of, pins_of, last?,
  last_of,
}
use heartwood_memory.Anchors.Sink.{
  Sink, SinkFile, opened, read_file, read_records, parse_record_lines, existing_anchor,
  existing_pin, last_pin, idempotent_existing_record, write_or_keep, append,
}
use heartwood_memory.Anchors.Sink.Ordered.{
  IsOrdered, Ascending, SaysSame, Rising-append, anchors_of-append, anchors_of-append_pin,
  pins_of-append, pins_of-append_anchor, In-of_anchors, In-last_of, last_pin-In, UniquePins-append,
}

-- The cases of an append that does not raise.
abbrev Outcome : List SinkRecord → SinkRecord → Option SinkRecord → Type 0
Outcome before r (some kept) = In kept before × SaysSame kept r
Outcome before r none = IsOrdered before → IsOrdered (before ++ r ∷ [])

IsOrdered-anchored :
    (before : List SinkRecord) (r : AnchorRecord)
    → (Ascending (anchors_of before) → Ascending (anchors_of before ++ r ∷ []))
    → IsOrdered before
    → IsOrdered (before ++ anchored r ∷ [])
IsOrdered-anchored before r grow o = record {
  is_ascending = rw (anchors_of-append before r) (grow o.is_ascending);
  is_unique = rw (pins_of-append_anchor before r) o.is_unique;
}

IsOrdered-pinned :
    (before : List SinkRecord) (p : PinRecord)
    → last_pin p.manifest_id (pins_of before) ≡ none
    → IsOrdered before
    → IsOrdered (before ++ pinned p ∷ [])
IsOrdered-pinned before p new o = record {
  is_ascending = rw (anchors_of-append_pin before p) o.is_ascending;
  is_unique = rw (pins_of-append before p) (UniquePins-append p (pins_of before) new o.is_unique);
}

existing_anchor-Outcome :
    (before : List SinkRecord) (anchors : List AnchorRecord) (r : AnchorRecord)
    (found : Option SinkRecord)
    → anchors_of before ≡ anchors
    → existing_anchor (last? anchors) r ≡ ok found
    → Outcome before (anchored r) found
unfolding existing_anchor
existing_anchor-Outcome before [] r found e h =
    let same = ok_injective none found h in rw (← same) (IsOrdered-anchored before r (λ a. rw e tt))
existing_anchor-Outcome before (x ∷ xs) r found e h =
    let latest = last_of x xs in
    elim (Bool-cases (ltb r.seq latest.seq)) [
      | inl k ↦ absurd (ground (arith, rw (k, existing_anchor) at h))
      | inr k ↦ elim (Bool-cases (r.seq == latest.seq)) [
        | inl d ↦ elim (Bool-cases (codes_eq r.row_hash latest.row_hash)) [
          | inr f ↦ absurd (ground (arith, rw (k, d, f, existing_anchor) at h))
          | inl f ↦
              let same : some (anchored latest) ≡ found =
                ok_injective _ _ (rw (k, d, f, existing_anchor) at h) in
              rw (← same) (
                In-of_anchors latest before (rw e (In-last_of x xs)),
                (ground (arith, d), sym (codes_eq→eq r.row_hash latest.row_hash f)),
              )
        ]
        | inr d ↦
            let same : none ≡ found = ok_injective _ _ (rw (k, d, existing_anchor) at h) in
            rw (← same) (
              IsOrdered-anchored before r
                (λ a. rw e (Rising-append x xs r (rw e at a) (ground (arith, k, d)))))
      ]
    ]

existing_pin-Outcome :
    (before : List SinkRecord) (last : Option PinRecord) (p : PinRecord) (found : Option SinkRecord)
    → last_pin p.manifest_id (pins_of before) ≡ last
    → existing_pin last p ≡ ok found
    → Outcome before (pinned p) found
unfolding existing_pin
existing_pin-Outcome before none p found e h =
    let same = ok_injective none found h in rw (← same) (IsOrdered-pinned before p e)
existing_pin-Outcome before (some q) p found e h =
    let (there, id) = last_pin-In p.manifest_id before q e in
    elim (Bool-cases (codes_eq q.manifest_digest p.manifest_digest)) [
      | inr f ↦ absurd (ground (arith, rw (f, existing_pin) at h))
      | inl f ↦
          let same : some (pinned q) ≡ found = ok_injective _ _ (rw (f, existing_pin) at h) in
          rw (← same) (there, (id, codes_eq→eq q.manifest_digest p.manifest_digest f))
    ]

anchors_of-append_other :
    (xs : List SinkRecord) → anchors_of (xs ++ unsupported ∷ []) ≡ anchors_of xs
anchors_of-append_other [] = refl
anchors_of-append_other (anchored x ∷ xs) = ap (λ l. x ∷ l) (anchors_of-append_other xs)
anchors_of-append_other (pinned x ∷ xs) = anchors_of-append_other xs
anchors_of-append_other (unsupported ∷ xs) = anchors_of-append_other xs

pins_of-append_other : (xs : List SinkRecord) → pins_of (xs ++ unsupported ∷ []) ≡ pins_of xs
pins_of-append_other [] = refl
pins_of-append_other (pinned x ∷ xs) = ap (λ l. x ∷ l) (pins_of-append_other xs)
pins_of-append_other (anchored x ∷ xs) = pins_of-append_other xs
pins_of-append_other (unsupported ∷ xs) = pins_of-append_other xs

found-Outcome :
    (before : List SinkRecord) (r : SinkRecord) (found : Option SinkRecord)
    → idempotent_existing_record before r ≡ ok found
    → Outcome before r found
unfolding idempotent_existing_record
found-Outcome before (anchored r) found h =
    existing_anchor-Outcome before (anchors_of before) r found refl h
found-Outcome before (pinned p) found h =
    existing_pin-Outcome before (last_pin p.manifest_id (pins_of before)) p found refl h
found-Outcome before unsupported found h =
    let same = ok_injective none found h in
    rw (← same) (λ o. record {
      is_ascending = rw (anchors_of-append_other before) o.is_ascending;
      is_unique = rw (pins_of-append_other before) o.is_unique;
    })

parse_record_lines-append :
    (lines : List (Option SinkRecord)) (records : List SinkRecord) (r : SinkRecord)
    → parse_record_lines lines ≡ ok records
    → parse_record_lines (lines ++ some r ∷ []) ≡ ok (records ++ r ∷ [])
unfolding parse_record_lines
parse_record_lines-append [] records r h = let e = ok_injective [] records h in rw (← e)
parse_record_lines-append (none ∷ lines) records r h = cc
parse_record_lines-append (some x ∷ lines) records r h =
    let (rest, parsed, e) = >>=-eq-ok (parse_record_lines lines) _ h in
    let same = ok_injective (x ∷ rest) records e in
    rw (← same, parse_record_lines-append lines rest r parsed)

read_file-append :
    (file : SinkFile) (records : List SinkRecord) (r : SinkRecord)
    → read_file file ≡ ok records
    → read_file (record file { lines = file.lines ++ some r ∷ [] }) ≡ ok (records ++ r ∷ [])
unfolding read_file
read_file-append file records r h = elim (Bool-cases file.owner_only) [
  | inr a ↦ absurd (ground (arith, rw (a, read_file) at h))
  | inl a ↦ elim (Bool-cases file.complete) [
    | inr b ↦ absurd (ground (arith, rw (a, b, read_file) at h))
    | inl b ↦ rw (a, b) (parse_record_lines-append file.lines records r (rw (a, b, read_file) at h))
  ]
]

SaysSame-refl : (r : SinkRecord) → SaysSame r r
SaysSame-refl (anchored r) = (refl, refl)
SaysSame-refl (pinned p) = (refl, refl)
SaysSame-refl unsupported = tt

-- What the sink holds after an append.
pub record IsAppended (before : List SinkRecord) (r kept : SinkRecord) (sink : Sink) : Type 0 where
  pub after : List SinkRecord
  pub is_read : read_records sink ≡ ok after
  pub is_kept : In kept after
  pub says_same : SaysSame kept r
  pub only_adds : (after ≡ before) ⊎ ((after ≡ before ++ r ∷ []) × (kept ≡ r))
  pub is_ordered : IsOrdered before → IsOrdered after

appended :
    (file : SinkFile) (before : List SinkRecord) (r : SinkRecord) (found : Option SinkRecord)
    → read_file file ≡ ok before
    → Outcome before r found
    → IsAppended before r (write_or_keep file r found).0 (write_or_keep file r found).1
unfolding write_or_keep read_records
appended file before r (some kept) h o = record {
  after = before;
  is_read = h;
  is_kept = o.0;
  says_same = o.1;
  only_adds = inl refl;
  is_ordered = λ x. x;
}
appended file before r none h o = record {
  after = before ++ r ∷ [];
  is_read = read_file-append file before r h;
  is_kept = In-append_right r before (r ∷ []) (inl refl);
  says_same = SaysSame-refl r;
  only_adds = inr (refl, refl);
  is_ordered = o;
}

-- An append that returns leaves a sink that is read whole and holds the record that it returned,
-- which says the same of the log or the manifest as the incoming one. It has added the incoming
-- record at the end or nothing. And if the sequence numbers of the anchors rose and no manifest had
-- two pins before, so it is after.
pub append-IsAppended :
    (sink : Sink) (r kept : SinkRecord) (sink' : Sink) (before : List SinkRecord)
    → read_file (opened sink) ≡ ok before
    → append sink r ≡ ok (kept, sink')
    → IsAppended before r kept sink'
unfolding append
append-IsAppended sink r kept sink' before is_read h =
    let (existing, read, a) = >>=-eq-ok (read_file (opened sink)) _ h in
    let same : existing ≡ before = ok_injective _ _ (sym read ∙ is_read) in
    let (found, e, b) = >>=-eq-ok (idempotent_existing_record existing r) _ a in
    let pair : write_or_keep (opened sink) r found ≡ (kept, sink') = ok_injective _ _ b in
    let w =
      appended (opened sink) before r found is_read (found-Outcome before r found (rw same at e)) in
    subst (λ (p : SinkRecord × Sink). IsAppended before r p.0 p.1) pair w
