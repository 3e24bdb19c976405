-- ===== src/Anchors/Signatures.antt =====
-- What the validation of the sink's records in heartwood/anchors.py shows of them.
use heartwood_memory.Prelude.{
  ℕ, ◌≡◌, inl, inr, Bool, true, false, not, ◌&&◌, ◌||◌, ◌==◌, ltb, some, List, [], ◌∷◌, ◌++◌,
  String, arith, elem, is_empty, length, All, In, Bool-cases, Option-cases, require-eq-ok, Result,
  ok, raise, ◌>>=◌, >>=-eq-ok, anchor_sink_error, require, ◌>>◌,
}
use heartwood_memory.Audit.{codes_eq, codes}
use heartwood_memory.Audit.Chain.{codes_eq→eq}
use heartwood_memory.Anchors.{
  Signed, AnchorRecord, PinRecord, SinkRecord, anchored, pinned, unsupported, Formats, Scope,
  parse_utc, validate_records, validate_anchor_record, validate_manifest_pin_record,
  verify_signed_record, verify_ed25519_artifact, fingerprint, elem_codes, anchor_signature_domain,
  manifest_pin_signature_domain, anchor_domain, manifest_pin_domain, validate_scope, is_token,
}

In_of_elem_codes : (x : List ℕ) (xs : List (List ℕ)) → elem_codes x xs ≡ true → In x xs
In_of_elem_codes x [] h = cc
In_of_elem_codes x (y ∷ ys) h = elim (Bool-cases (codes_eq x y)) [
  | inl e ↦ inl (codes_eq→eq x y e)
  | inr e ↦ inr (In_of_elem_codes x ys (ground (arith, h, e)))
]

-- The signature of a record was made with a trusted root, and its time is one.
pub record IsSigned (s : Scope) (r : Signed) (domain payload : List ℕ) : Type 0 where
  pub public_key : List ℕ
  pub signature : List ℕ
  pub is_key : s.formats.b64d r.signing_public_key ≡ some public_key
  pub is_signature : s.formats.b64d r.signature ≡ some signature
  pub is_trusted : In (fingerprint s.formats public_key) s.trusted_root_fingerprints
  pub created_at : ℕ
  pub is_created : parse_utc s.formats r.created_at_utc ≡ ok created_at
  pub verifies : s.formats.ed25519_verify public_key signature (domain ++ payload) ≡ true

abbrev IsVerified : Formats → List ℕ → String → List ℕ → List ℕ → Type 0
IsVerified f key signature domain payload =
    (bytes : List ℕ) × (f.b64d signature ≡ some bytes)
    × (f.ed25519_verify key bytes (domain ++ payload) ≡ true)

artifact-IsVerified :
    (f : Formats) (key : List ℕ) (signature : String) (domain payload : List ℕ) {u : Unit {0}}
    → verify_ed25519_artifact f key signature domain payload ≡ ok u
    → IsVerified f key signature domain payload
unfolding verify_ed25519_artifact
artifact-IsVerified f key signature domain payload h = elim (Option-cases (f.b64d signature)) [
  | inl e ↦ absurd (ground (arith, rw (e, verify_ed25519_artifact) at h))
  | inr (bytes, e) ↦
      let after = rw (e, verify_ed25519_artifact) at h in
      let (_, _, last) =
        >>=-eq-ok (require ((length key == 32) && (length bytes == 64)) anchor_sink_error) _
          after in
      (
        bytes,
        e,
        require-eq-ok (f.ed25519_verify key bytes (domain ++ payload)) anchor_sink_error last,
      )
]

signed_verified :
    (s : Scope) (r : Signed) (domain payload : List ℕ) {u : Unit {0}}
    → ((t : ℕ) × (parse_utc s.formats r.created_at_utc ≡ ok t))
      × (verify_signed_record s r domain payload ≡ ok u)
    → IsSigned s r domain payload
unfolding verify_signed_record
signed_verified s r domain payload ((t, parsed), h) =
    elim (Option-cases (s.formats.b64d r.signing_public_key)) [
      | inl e ↦ absurd (ground (arith, rw (e, verify_signed_record) at h))
      | inr (key, e) ↦
          let print = fingerprint s.formats key in
          let (_, _, a) =
            >>=-eq-ok (require (codes_eq r.verification_root_fingerprint print) anchor_sink_error) _
              (rw (e, verify_signed_record) at h) in
          let (_, known, b) =
            >>=-eq-ok (require (elem_codes print s.trusted_root_fingerprints) anchor_sink_error) _
              a in
          let (_, _, last) =
            >>=-eq-ok (require (not (is_empty (codes r.signing_key_id))) anchor_sink_error) _ b in
          let (bytes, is_bytes, good) =
            artifact-IsVerified s.formats key r.signature domain payload last in
          record {
            public_key = key;
            signature = bytes;
            is_key = e;
            is_signature = is_bytes;
            is_trusted = In_of_elem_codes print s.trusted_root_fingerprints (
                require-eq-ok (elem_codes print s.trusted_root_fingerprints) anchor_sink_error
                  known);
            created_at = t;
            is_created = parsed;
            verifies = good;
          }
    ]

-- A record of the sink is an anchor or a pin, signed under the domain of its kind.
abbrev pub IsValid : Scope → SinkRecord → Type 0
IsValid s (anchored r) =
    IsSigned s r.signed anchor_signature_domain (s.formats.unsigned (anchored r))
IsValid s (pinned r) =
    IsSigned s r.signed manifest_pin_signature_domain (s.formats.unsigned (pinned r))
IsValid s unsupported = ⊥

-- Both validators end in the check of the signature, after four others and the time.
skip_checks :
    (s : Scope) (r : Signed) (checked : Result (Unit {0})) (a b d : Bool) (last : Result (Unit {0}))
    {u : Unit {0}}
    → (checked
        >> (require a anchor_sink_error
            >> (require b anchor_sink_error
                >> (require d anchor_sink_error
                    >> (parse_utc s.formats r.created_at_utc >>= λ t. last)))))
      ≡ ok u
    → ((t : ℕ) × (parse_utc s.formats r.created_at_utc ≡ ok t)) × (last ≡ ok u)
skip_checks s r (raise e) a b d last h = cc
skip_checks s r (ok _) false b d last h = cc
skip_checks s r (ok _) true false d last h = cc
skip_checks s r (ok _) true true false last h = cc
skip_checks s r (ok _) true true true last h =
    let (t, parsed, after) = >>=-eq-ok (parse_utc s.formats r.created_at_utc) _ h in
    ((t, parsed), after)

anchor_verified :
    (s : Scope) (r : AnchorRecord) {u : Unit {0}}
    → validate_anchor_record s r ≡ ok u
    → IsValid s (anchored r)
unfolding validate_anchor_record
anchor_verified s r h =
    let payload = s.formats.unsigned (anchored r) in
    signed_verified s r.signed anchor_signature_domain payload (
      skip_checks s r.signed (validate_scope s r.signed anchor_domain)
        (is_token (codes "anc_") 24 (codes r.anchor_id)) (ltb 0 r.seq) (is_token [] 64 r.row_hash)
        (verify_signed_record s r.signed anchor_signature_domain payload) h)

pin_verified :
    (s : Scope) (r : PinRecord) {u : Unit {0}}
    → validate_manifest_pin_record s r ≡ ok u
    → IsValid s (pinned r)
unfolding validate_manifest_pin_record
pin_verified s r h =
    let payload = s.formats.unsigned (pinned r) in
    signed_verified s r.signed manifest_pin_signature_domain payload (
      skip_checks s r.signed (validate_scope s r.signed manifest_pin_domain)
        (is_token (codes "pin_") 24 (codes r.pin_id))
        (is_token (codes "sct_") 24 (codes r.manifest_id))
        (is_token (codes "sha256:") 64 r.manifest_digest)
        (verify_signed_record s r.signed manifest_pin_signature_domain payload) h)

pub validate_records-IsValid :
    (s : Scope) (pin_ids manifest_ids : List String) (records : List SinkRecord) {u : Unit {0}}
    → validate_records s pin_ids manifest_ids records ≡ ok u
    → All (IsValid s) records
unfolding validate_records
validate_records-IsValid s pin_ids manifest_ids [] h = tt
validate_records-IsValid s pin_ids manifest_ids (anchored r ∷ records) h =
    let (_, one, more) = >>=-eq-ok (validate_anchor_record s r) _ h in
    (anchor_verified s r one, validate_records-IsValid s pin_ids manifest_ids records more)
validate_records-IsValid s pin_ids manifest_ids (pinned r ∷ records) h =
    let (_, one, a) = >>=-eq-ok (validate_manifest_pin_record s r) _ h in
    let (_, _, more) =
      >>=-eq-ok
        (require (not (elem r.pin_id pin_ids || elem r.manifest_id manifest_ids)) anchor_sink_error)
        _ a in
    (
      pin_verified s r one,
      validate_records-IsValid s (r.pin_id ∷ pin_ids) (r.manifest_id ∷ manifest_ids) records more,
    )
validate_records-IsValid s pin_ids manifest_ids (unsupported ∷ records) h = cc
