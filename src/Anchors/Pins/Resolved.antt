-- ===== src/Anchors/Pins/Resolved.antt =====
-- A manifest that was pinned resolves to its digest.
use heartwood_memory.Prelude.{
  ℕ, ◌≡◌, refl, sym, ap, ◌∙◌, ◌⊎◌, inl, inr, Bool, true, false, ◌||◌, Bool-cases, Option, none,
  some, List, [], ◌∷◌, String, str_eq, str_eq_iff, elem, arith, if◌then◌else◌, Result, ok, raise,
  ◌>>=◌, >>=-eq-ok, ok_injective, require-eq-ok, require, anchor_sink_error, file_not_found_error,
}
use heartwood_memory.Audit.{codes, codes_eq}
use heartwood_memory.Audit.Chain.{codes_eq→eq}
use heartwood_memory.Anchors.{
  PinRecord, SinkRecord, anchored, pinned, unsupported, Scope, last_of, last?, record_digest,
  validate_sink_records, validate_records, validate_anchor_record, validate_manifest_pin_record,
  is_token,
}
use heartwood_memory.Anchors.Sink.{Sink, read_records, append}
use heartwood_memory.Anchors.Verify.{Tables}
use heartwood_memory.Anchors.Writer.{
  Deployment, World, Moments, Others, Step, records_for_write, set_anchor_sink_head,
}
use heartwood_memory.Anchors.Pins.{
  pins_for, is_recorded_head, resolve_manifest_digest, Pinning, signed_pin, read_pin_back,
  write_pin, pin_latest, pin_steps, pin_returned, or_pin_error, pin_manifest,
}

-- Valid records have no pin of a manifest that was seen before.
seen_pins :
    (s : Scope) (pin_ids manifest_ids : List String) (records : List SinkRecord) (id : String)
    {u : Unit {0}}
    → validate_records s pin_ids manifest_ids records ≡ ok u
    → elem id manifest_ids ≡ true
    → pins_for id records ≡ []
unfolding validate_records
seen_pins s pin_ids manifest_ids [] id h e = refl
seen_pins s pin_ids manifest_ids (anchored r ∷ records) id h e =
    seen_pins s pin_ids manifest_ids records id (>>=-eq-ok (validate_anchor_record s r) _ h).2 e
seen_pins s pin_ids manifest_ids (unsupported ∷ records) id h e = cc
seen_pins s pin_ids manifest_ids (pinned p ∷ records) id h e =
    let (_, _, a) = >>=-eq-ok (validate_manifest_pin_record s p) _ h in
    elim (Bool-cases (elem p.pin_id pin_ids || elem p.manifest_id manifest_ids)) [
      | inl k ↦ absurd (ground (arith, rw k at a))
      | inr k ↦
          let rest =
            seen_pins s (p.pin_id ∷ pin_ids) (p.manifest_id ∷ manifest_ids) records id (rw k at a)
              (ground (arith, e)) in
          elim (Bool-cases (str_eq p.manifest_id id)) [
            | inr m ↦ rw m rest
            | inl m ↦ absurd (
                ground
                  (arith, k, e, ap (λ x. elem x manifest_ids) ((str_eq_iff p.manifest_id id).0 m)))
          ]
    ]

one_pin :
    (s : Scope) (pin_ids manifest_ids : List String) (records : List SinkRecord) (id : String)
    {u : Unit {0}}
    → validate_records s pin_ids manifest_ids records ≡ ok u
    → (pins_for id records ≡ []) ⊎ ((p : PinRecord) × (pins_for id records ≡ p ∷ []))
unfolding validate_records
one_pin s pin_ids manifest_ids [] id h = inl refl
one_pin s pin_ids manifest_ids (anchored r ∷ records) id h =
    one_pin s pin_ids manifest_ids records id (>>=-eq-ok (validate_anchor_record s r) _ h).2
one_pin s pin_ids manifest_ids (unsupported ∷ records) id h = cc
one_pin s pin_ids manifest_ids (pinned p ∷ records) id h =
    let (_, _, a) = >>=-eq-ok (validate_manifest_pin_record s p) _ h in
    elim (Bool-cases (elem p.pin_id pin_ids || elem p.manifest_id manifest_ids)) [
      | inl k ↦ absurd (ground (arith, rw k at a))
      | inr k ↦ elim (Bool-cases (str_eq p.manifest_id id)) [
        | inr m ↦
            rw m
              (one_pin s (p.pin_id ∷ pin_ids) (p.manifest_id ∷ manifest_ids) records id (rw k at a))
        | inl m ↦
            let rest =
              seen_pins s (p.pin_id ∷ pin_ids) (p.manifest_id ∷ manifest_ids) records id (rw k at a)
                (ground (arith, m, str_eq_iff p.manifest_id id, str_eq_iff id p.manifest_id)) in
            rw (m, rest) (inr (p, refl))
      ]
    ]

-- The manifest resolves to the digest in the world that is left.
abbrev pub Resolves : Deployment → String → List ℕ → World → Type 0
Resolves d id digest w = resolve_manifest_digest d.scope w.tables w.sink id ≡ ok digest

module _ (d : Deployment) (p : PinRecord) where
  abbrev Pinned : Step Pinning → Type 0
  Pinned (raise why, w) = Unit
  Pinned (ok done, w) = Resolves d p.manifest_id p.manifest_digest w

  decided :
      (digest : List ℕ) (done : Pinning) (w : World) (b : Bool)
      → codes_eq digest p.manifest_digest ≡ b
      → Resolves d p.manifest_id digest w
      → Pinned (if b then (ok done, w) else (raise anchor_sink_error, w))
  decided digest done w true e r = r ∙ ap ok (codes_eq→eq digest p.manifest_digest e)
  decided digest done w false e r = tt

  read_pin_back-Pinned :
      (persisted : SinkRecord) (w : World) → Pinned (read_pin_back d p persisted w)
  unfolding read_pin_back
  read_pin_back-Pinned (anchored r) w = tt
  read_pin_back-Pinned unsupported w = tt
  read_pin_back-Pinned (pinned persisted) w =
      go (resolve_manifest_digest d.scope w'.tables w'.sink p.manifest_id) refl
    where
      w' : World
      w' = record w { tables = set_anchor_sink_head d.scope (pinned persisted) w.tables }

      go :
          (out : Result (List ℕ))
          → resolve_manifest_digest d.scope w'.tables w'.sink p.manifest_id ≡ out
          → Pinned (elim out as (λ x. Step Pinning) [
            | raise why ↦ (raise why, w')
            | ok digest ↦
                if codes_eq digest p.manifest_digest
                then (
                  ok (record {
                    pin_id = persisted.pin_id;
                    wrote_pin = str_eq persisted.pin_id p.pin_id;
                  }),
                  w',
                )
                else (raise anchor_sink_error, w')
          ])
      go (raise why) h = tt
      go (ok digest) h = decided digest _ w' (codes_eq digest p.manifest_digest) refl h

  write_pin-Pinned : (others : Others) (w : World) → Pinned (write_pin d others p w)
  unfolding write_pin
  write_pin-Pinned others w =
      go (others (w.tables, w.sink)).0 (others (w.tables, w.sink)).1
        (append (others (w.tables, w.sink)).1 (pinned p))
    where
      go :
          (tables : Tables) (sink : Sink) (out : Result (SinkRecord × Sink))
          → Pinned (elim out as (λ x. Step Pinning) [
            | raise why ↦ (raise why, record w { tables = tables; sink = sink })
            | ok (persisted, sink') ↦
                read_pin_back d p persisted (record w { tables = tables; sink = sink' })
          ])
      go tables sink (raise why) = tt
      go tables sink (ok (persisted, sink')) =
          read_pin_back-Pinned persisted (record w { tables = tables; sink = sink' })

  existing-Resolves :
      (valid : List SinkRecord) (q : PinRecord) (w : World) {u : Unit {0}}
      → read_records w.sink ≡ ok valid
      → validate_records d.scope [] [] valid ≡ ok u
      → is_recorded_head d.scope w.tables.anchor_sink_head (last? valid) ≡ true
      → last? (pins_for p.manifest_id valid) ≡ some q
      → Resolves d p.manifest_id q.manifest_digest w
  unfolding resolve_manifest_digest validate_sink_records
  existing-Resolves valid q w is_read checked recorded found =
      elim (one_pin d.scope [] [] valid p.manifest_id checked) [
        | inl k ↦ absurd (cc (ap last? k, found))
        | inr (one, k) ↦
            let same : one ≡ q = cc (ap last? k, found) in rw (is_read, checked, recorded, k, same)
      ]

-- What the records for a write are.
pub record IsCurrent (s : Scope) (recorded : Option (List ℕ)) (read : Result (List SinkRecord))
    (valid : List SinkRecord) : Type 0 where
  pub is_read : read ≡ ok valid
  pub is_checked : validate_records s [] [] valid ≡ ok tt
  pub is_recorded : is_recorded_head s recorded (last? valid) ≡ true

for_write :
    (s : Scope) (recorded : Option (List ℕ)) (read : Result (List SinkRecord))
    (records : List SinkRecord)
    → records_for_write s recorded read ≡ ok records
    → (records ≡ []) ⊎ ((read ≡ ok records) × (is_recorded_head s recorded (last? records) ≡ true))
unfolding records_for_write is_recorded_head
for_write s recorded (raise file_not_found_error) records h = inl (sym (ok_injective [] records h))
for_write s recorded (raise why) records h = cc
for_write s recorded (ok []) records h = inl (sym (ok_injective [] records h))
for_write s none (ok (r ∷ rest)) records h = cc
for_write s (some x) (ok (r ∷ rest)) records h =
    let (_, good, same) =
      >>=-eq-ok (require (codes_eq x (record_digest s.formats (last_of r rest))) anchor_sink_error)
        _ h in
    let e = ok_injective (r ∷ rest) records same in
    inr (
      ap ok e,
      rw (← e) (
          require-eq-ok (codes_eq x (record_digest s.formats (last_of r rest))) anchor_sink_error
            good),
    )

records_for_write-IsCurrent :
    (s : Scope) (recorded : Option (List ℕ)) (read : Result (List SinkRecord))
    (valid : List SinkRecord) (id : String) (q : PinRecord)
    → (records_for_write s recorded read >>= validate_sink_records s) ≡ ok valid
    → last? (pins_for id valid) ≡ some q
    → IsCurrent s recorded read valid
unfolding validate_sink_records
records_for_write-IsCurrent s recorded read valid id q h e =
    let (records, got, rest) = >>=-eq-ok (records_for_write s recorded read) _ h in
    let (u, checked, last) = >>=-eq-ok (validate_records s [] [] records) _ rest in
    let same = ok_injective records valid last in
    elim (for_write s recorded read records got) [
      | inl k ↦ absurd (cc (ap (λ x. last? (pins_for id x)) (sym k ∙ same), e))
      | inr (a, b) ↦ record {
        is_read = a ∙ ap ok same;
        is_checked = rw same at checked;
        is_recorded = rw same at b;
      }
    ]

module _ (d : Deployment) (p : PinRecord) where
  pin_latest-Pinned :
      (others : Others) (valid : List SinkRecord) (last : Option PinRecord) (w : World)
      → ((q : PinRecord)
          → last ≡ some q
          → IsCurrent d.scope w.tables.anchor_sink_head (read_records w.sink) valid)
      → last? (pins_for p.manifest_id valid) ≡ last
      → Pinned d p (pin_latest d others p last w)
  unfolding pin_latest
  pin_latest-Pinned others valid none w f e = write_pin-Pinned d p others w
  pin_latest-Pinned others valid (some q) w f e =
      elim (Bool-cases (codes_eq q.manifest_digest p.manifest_digest)) [
        | inr k ↦ rw (k, pin_latest) tt
        | inl k ↦
            let x = f q refl in
            rw (k, pin_latest)
              (existing-Resolves d p valid q w x.is_read x.is_checked x.is_recorded e
                ∙ ap ok (codes_eq→eq q.manifest_digest p.manifest_digest k))
      ]

  pin_steps-Pinned : (others : Others) (w : World) → Pinned d p (pin_steps d others p w)
  unfolding pin_steps
  pin_steps-Pinned others w =
      go
        (records_for_write d.scope w.tables.anchor_sink_head (read_records w.sink)
          >>= validate_sink_records d.scope)
        refl
    where
      go :
          (out : Result (List SinkRecord))
          → (records_for_write d.scope w.tables.anchor_sink_head (read_records w.sink)
              >>= validate_sink_records d.scope)
            ≡ out
          → Pinned d p (elim out as (λ x. Step Pinning) [
            | raise why ↦ (raise why, w)
            | ok valid ↦ pin_latest d others p (last? (pins_for p.manifest_id valid)) w
          ])
      go (raise why) h = tt
      go (ok valid) h =
          pin_latest-Pinned others valid (last? (pins_for p.manifest_id valid)) w
            (λ q e.
              records_for_write-IsCurrent d.scope w.tables.anchor_sink_head (read_records w.sink)
                valid p.manifest_id q h e)
            refl

-- Whatever the sink and the database held, and whatever other processes wrote before the append: if
-- `pin_manifest` returns, then `resolve_manifest_digest` gives the pinned digest from the sink and
-- the database that it leaves, whether it wrote the pin or found it there.
pub resolve-pin_manifest :
    (d : Deployment) (at : Moments) (pin_id : String) (others : Others) (manifest_id : String)
    (manifest_digest : List ℕ) (w w' : World) (done : Pinning)
    → pin_manifest d at pin_id others manifest_id manifest_digest w ≡ (pin_returned done, w')
    → resolve_manifest_digest d.scope w'.tables w'.sink manifest_id ≡ ok manifest_digest
unfolding pin_manifest
resolve-pin_manifest d at pin_id others manifest_id manifest_digest w w' done h =
    elim (Bool-cases (is_token (codes "sct_") 24 (codes manifest_id))) [
      | inr k ↦ absurd (cc (rw (k, pin_manifest) at h))
      | inl k ↦ elim (Bool-cases (is_token (codes "sha256:") 64 manifest_digest)) [
        | inr l ↦ absurd (cc (rw (k, l, pin_manifest) at h))
        | inl l ↦
            finish (pin_steps d others p w) (pin_steps-Pinned d p others w)
              (rw (k, l, pin_manifest) at h)
      ]
    ]
  where
    p : PinRecord
    p = signed_pin d at.signed pin_id manifest_id manifest_digest

    finish :
        (out : Step Pinning)
        → Pinned d p out
        → or_pin_error d at.failed out ≡ (pin_returned done, w')
        → Resolves d manifest_id manifest_digest w'
    finish (raise why, x) c e = cc
    finish (ok made, x) c e = let same : x ≡ w' = cc in rw same at c
