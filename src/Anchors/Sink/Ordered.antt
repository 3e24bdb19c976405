-- ===== src/Anchors/Sink/Ordered.antt =====
-- The order of the records in a sink of heartwood/anchors.py: anchors rise, and a manifest has one pin.
use heartwood_memory.Prelude.{
  ℕ, ◌<◌, ◌≡◌, ◌≢◌, refl, ap, inl, inr, none, some, List, [], ◌∷◌, ◌++◌, String, str_eq, str_eq_iff,
  arith, All, All-append, In, Bool-cases, Option-cases,
}
use heartwood_memory.Anchors.{
  AnchorRecord, PinRecord, SinkRecord, anchored, pinned, unsupported, anchors_of, pins_of, last_of,
}
use heartwood_memory.Anchors.Sink.{last_pin}

-- The sequence numbers rise from one anchor to the next.
abbrev pub Rising : ℕ → List AnchorRecord → Type 0
Rising n [] = Unit
Rising n (r ∷ anchors) = (n < r.seq) × Rising r.seq anchors

abbrev pub Ascending : List AnchorRecord → Type 0
Ascending [] = Unit
Ascending (r ∷ anchors) = Rising r.seq anchors

abbrev pub UniquePins : List PinRecord → Type 0
UniquePins [] = Unit
UniquePins (p ∷ pins) = All (λ q. p.manifest_id ≢ q.manifest_id) pins × UniquePins pins

pub record IsOrdered (records : List SinkRecord) : Type 0 where
  pub is_ascending : Ascending (anchors_of records)
  pub is_unique : UniquePins (pins_of records)

-- The two records say the same of the log, or of the manifest.
abbrev pub SaysSame : SinkRecord → SinkRecord → Type 0
SaysSame (anchored a) (anchored b) = (a.seq ≡ b.seq) × (a.row_hash ≡ b.row_hash)
SaysSame (pinned a) (pinned b) =
    (a.manifest_id ≡ b.manifest_id) × (a.manifest_digest ≡ b.manifest_digest)
SaysSame unsupported unsupported = Unit
SaysSame _ _ = ⊥

pub Rising-append :
    (x : AnchorRecord) (xs : List AnchorRecord) (r : AnchorRecord)
    → Rising x.seq xs
    → (last_of x xs).seq < r.seq
    → Rising x.seq (xs ++ r ∷ [])
Rising-append x [] r h k = (k, tt)
Rising-append x (y ∷ ys) r h k = (h.0, Rising-append y ys r h.1 k)

pub anchors_of-append :
    (xs : List SinkRecord) (r : AnchorRecord)
    → anchors_of (xs ++ anchored r ∷ []) ≡ anchors_of xs ++ r ∷ []
anchors_of-append [] r = refl
anchors_of-append (anchored x ∷ xs) r = ap (λ l. x ∷ l) (anchors_of-append xs r)
anchors_of-append (pinned x ∷ xs) r = anchors_of-append xs r
anchors_of-append (unsupported ∷ xs) r = anchors_of-append xs r

pub anchors_of-append_pin :
    (xs : List SinkRecord) (p : PinRecord) → anchors_of (xs ++ pinned p ∷ []) ≡ anchors_of xs
anchors_of-append_pin [] p = refl
anchors_of-append_pin (anchored x ∷ xs) p = ap (λ l. x ∷ l) (anchors_of-append_pin xs p)
anchors_of-append_pin (pinned x ∷ xs) p = anchors_of-append_pin xs p
anchors_of-append_pin (unsupported ∷ xs) p = anchors_of-append_pin xs p

pub pins_of-append :
    (xs : List SinkRecord) (p : PinRecord) → pins_of (xs ++ pinned p ∷ []) ≡ pins_of xs ++ p ∷ []
pins_of-append [] p = refl
pins_of-append (pinned x ∷ xs) p = ap (λ l. x ∷ l) (pins_of-append xs p)
pins_of-append (anchored x ∷ xs) p = pins_of-append xs p
pins_of-append (unsupported ∷ xs) p = pins_of-append xs p

pub pins_of-append_anchor :
    (xs : List SinkRecord) (r : AnchorRecord) → pins_of (xs ++ anchored r ∷ []) ≡ pins_of xs
pins_of-append_anchor [] r = refl
pins_of-append_anchor (pinned x ∷ xs) r = ap (λ l. x ∷ l) (pins_of-append_anchor xs r)
pins_of-append_anchor (anchored x ∷ xs) r = pins_of-append_anchor xs r
pins_of-append_anchor (unsupported ∷ xs) r = pins_of-append_anchor xs r

pub In-of_anchors :
    (r : AnchorRecord) (xs : List SinkRecord) → In r (anchors_of xs) → In (anchored r) xs
In-of_anchors r (anchored x ∷ xs) (inl e) = inl cc
In-of_anchors r (anchored x ∷ xs) (inr h) = inr (In-of_anchors r xs h)
In-of_anchors r (pinned x ∷ xs) h = inr (In-of_anchors r xs h)
In-of_anchors r (unsupported ∷ xs) h = inr (In-of_anchors r xs h)
In-of_anchors r [] h = absurd h

pub In-last_of : (x : AnchorRecord) (xs : List AnchorRecord) → In (last_of x xs) (x ∷ xs)
In-last_of x [] = inl refl
In-last_of x (y ∷ ys) = inr (In-last_of y ys)

pub last_pin-In :
    (id : String) (xs : List SinkRecord) (p : PinRecord)
    → last_pin id (pins_of xs) ≡ some p
    → In (pinned p) xs × (p.manifest_id ≡ id)
last_pin-In id [] p h = cc
last_pin-In id (anchored x ∷ xs) p h = let (m, e) = last_pin-In id xs p h in (inr m, e)
last_pin-In id (unsupported ∷ xs) p h = let (m, e) = last_pin-In id xs p h in (inr m, e)
last_pin-In id (pinned x ∷ xs) p h = elim (Option-cases (last_pin id (pins_of xs))) [
  | inr (q, k) ↦
      let same : some q ≡ some p = rw (k, last_pin) at h in
      let (m, e) = last_pin-In id xs p (cc (k, same)) in (inr m, e)
  | inl k ↦ elim (Bool-cases (str_eq x.manifest_id id)) [
    | inr d ↦ absurd (ground (arith, rw (k, d, last_pin) at h))
    | inl d ↦
        let same : some x ≡ some p = rw (k, d, last_pin) at h in
        (inl cc, cc (same, (str_eq_iff x.manifest_id id).0 d))
  ]
]

pub UniquePins-append :
    (p : PinRecord) (pins : List PinRecord)
    → last_pin p.manifest_id pins ≡ none
    → UniquePins pins
    → UniquePins (pins ++ p ∷ [])
UniquePins-append p [] h u = (tt, tt)
UniquePins-append p (q ∷ pins) h u = elim (Option-cases (last_pin p.manifest_id pins)) [
  | inr (later, k) ↦ absurd (ground (arith, rw (k, last_pin) at h))
  | inl k ↦ elim (Bool-cases (str_eq q.manifest_id p.manifest_id)) [
    | inl d ↦ absurd (ground (arith, rw (k, d, last_pin) at h))
    | inr d ↦ (
      All-append (λ r. q.manifest_id ≢ r.manifest_id) pins (p ∷ []) u.0
          ((λ e. ground (arith, d, str_eq_iff q.manifest_id p.manifest_id, e)), tt),
      UniquePins-append p pins k u.1,
    )
  ]
]
