-- ===== src/Anchors.antt =====
-- heartwood/anchors.py: the signed records of the anchor sink, and their validation. A record whose
-- fields are missing, extra or of another type (a negative `seq` too) is `unsupported`.
pub mod Agreement
pub mod Anchored
pub mod Cadence
pub mod Pins
pub mod Rollback
pub mod Signatures
pub mod Sink
pub mod Verify
pub mod Writer
use heartwood_memory.Prelude.{
  ℕ, ◌≡◌, Bool, true, false, not, ◌&&◌, ◌||◌, ◌==◌, leb, ltb, Option, none, some, List, [], ◌∷◌,
  ◌++◌, String, str_eq, elem, length, any, all, is_empty, if◌then◌else◌, Result, ok, raise, ◌>>=◌,
  ◌>>◌, require, anchor_sink_error,
}
use heartwood_memory.Audit.{Codec, codes, codes_eq}

-- The fields that both kinds of record have.
pub record Signed : Type 0 where
  pub domain : String
  pub schema_version : ℕ
  pub chain_id : String
  pub created_at_utc : String
  pub sink_id : String
  pub signing_key_id : String
  pub signing_public_key : String
  pub verification_root_fingerprint : List ℕ
  pub signature : String

pub record AnchorRecord : Type 0 where
  pub signed : Signed
  pub anchor_id : String
  pub seq : ℕ
  pub row_hash : List ℕ

pub record PinRecord : Type 0 where
  pub signed : Signed
  pub pin_id : String
  pub manifest_id : String
  pub manifest_digest : List ℕ

pub data SinkRecord : Type 0 where
  anchored : AnchorRecord → SinkRecord
  pinned : PinRecord → SinkRecord
  unsupported : SinkRecord

-- What the code calls of `base64`, `datetime`, `json` and the Ed25519 library. `unsigned` is the
-- canonical JSON of a record without its signature, and `canonical` that of the whole record.
pub record Formats : Type 0 where
  pub codec : Codec
  pub b64d : String → Option (List ℕ)
  pub b64e : List ℕ → String
  pub from_iso : String → Option (Option ℕ)
  pub to_iso : ℕ → String
  pub canonical : SinkRecord → List ℕ
  pub unsigned : SinkRecord → List ℕ
  pub ed25519_verify : List ℕ → List ℕ → List ℕ → Bool

-- The chain, the sink and the roots that records are checked against.
pub record Scope : Type 0 where
  pub formats : Formats
  pub chain_id : String
  pub sink_id : String
  pub trusted_root_fingerprints : List (List ℕ)

abbrev pub elem_codes : List ℕ → List (List ℕ) → Bool
elem_codes x xs = any (codes_eq x) xs

abbrev pub is_hex_digit : ℕ → Bool
is_hex_digit c = (leb b'0' c && leb c b'9') || (leb b'a' c && leb c b'f')

-- `re.fullmatch(prefix + "[0-9a-f]{n}", text)`
unfoldable pub is_token : List ℕ → ℕ → List ℕ → Bool
is_token [] n text = (length text == n) && all is_hex_digit text
is_token (p ∷ prefix) n [] = false
is_token (p ∷ prefix) n (c ∷ text) = (p == c) && is_token prefix n text

abbrev pub anchor_domain : String
anchor_domain = "heartwood.audit-anchor.v1"

abbrev pub manifest_pin_domain : String
manifest_pin_domain = "heartwood.strict-cutover-pin.v1"

abbrev pub anchor_signature_domain : List ℕ
anchor_signature_domain = codes "heartwood.audit-anchor.signature.v1" ++ 0 ∷ []

abbrev pub manifest_pin_signature_domain : List ℕ
manifest_pin_signature_domain = codes "heartwood.strict-cutover-pin.signature.v1" ++ 0 ∷ []

-- `_fingerprint`
abbrev pub fingerprint : Formats → List ℕ → List ℕ
fingerprint f key = codes "sha256:" ++ f.codec.sha256 key

-- `_record_digest`
abbrev pub record_digest : Formats → SinkRecord → List ℕ
record_digest f r = codes "sha256:" ++ f.codec.sha256 (f.canonical r)

-- `_parse_utc`: a text that is no time, or has no time zone, is refused.
unfoldable pub parse_utc : Formats → String → Result ℕ
parse_utc f text = elim (f.from_iso text) [
  | none ↦ raise anchor_sink_error
  | some none ↦ raise anchor_sink_error
  | some (some t) ↦ ok t
]

unfoldable pub verify_ed25519_artifact :
    Formats → List ℕ → String → List ℕ → List ℕ → Result (Unit {0})
verify_ed25519_artifact f public_key signature domain payload = elim (f.b64d signature) [
  | none ↦ raise anchor_sink_error
  | some bytes ↦ do
    require ((length public_key == 32) && (length bytes == 64)) anchor_sink_error
    require (f.ed25519_verify public_key bytes (domain ++ payload)) anchor_sink_error
]

-- `_verify_signed_record`
unfoldable pub verify_signed_record : Scope → Signed → List ℕ → List ℕ → Result (Unit {0})
unfolding verify_ed25519_artifact
verify_signed_record s r domain payload = elim (s.formats.b64d r.signing_public_key) [
  | none ↦ raise anchor_sink_error
  | some public_key ↦ do
    let print = fingerprint s.formats public_key
    require (codes_eq r.verification_root_fingerprint print) anchor_sink_error
    require (elem_codes print s.trusted_root_fingerprints) anchor_sink_error
    require (not (is_empty (codes r.signing_key_id))) anchor_sink_error
    verify_ed25519_artifact s.formats public_key r.signature domain payload
]

-- The checks that both validators make first.
unfoldable pub validate_scope : Scope → Signed → String → Result (Unit {0})
unfolding is_token
validate_scope s r domain = do
  require (str_eq r.domain domain && (r.schema_version == 1)) anchor_sink_error
  require (str_eq r.chain_id s.chain_id && is_token (codes "chain_") 32 (codes s.chain_id))
      anchor_sink_error
  require (str_eq r.sink_id s.sink_id) anchor_sink_error

-- `_validate_anchor_record`
unfoldable pub validate_anchor_record : Scope → AnchorRecord → Result (Unit {0})
unfolding validate_scope parse_utc verify_signed_record is_token
validate_anchor_record s r = do
  validate_scope s r.signed anchor_domain
  require (is_token (codes "anc_") 24 (codes r.anchor_id)) anchor_sink_error
  require (ltb 0 r.seq) anchor_sink_error
  require (is_token [] 64 r.row_hash) anchor_sink_error
  created ← parse_utc s.formats r.signed.created_at_utc
  verify_signed_record s r.signed anchor_signature_domain (s.formats.unsigned (anchored r))

-- `_validate_manifest_pin_record`
unfoldable pub validate_manifest_pin_record : Scope → PinRecord → Result (Unit {0})
unfolding validate_scope parse_utc verify_signed_record is_token
validate_manifest_pin_record s r = do
  validate_scope s r.signed manifest_pin_domain
  require (is_token (codes "pin_") 24 (codes r.pin_id)) anchor_sink_error
  require (is_token (codes "sct_") 24 (codes r.manifest_id)) anchor_sink_error
  require (is_token (codes "sha256:") 64 r.manifest_digest) anchor_sink_error
  created ← parse_utc s.formats r.signed.created_at_utc
  verify_signed_record s r.signed manifest_pin_signature_domain (s.formats.unsigned (pinned r))

-- The loop of `_validate_sink_records`, with the pins seen so far.
unfoldable pub validate_records :
    Scope → List String → List String → List SinkRecord → Result (Unit {0})
unfolding validate_anchor_record validate_manifest_pin_record
validate_records s pin_ids manifest_ids [] = ok tt
validate_records s pin_ids manifest_ids (anchored r ∷ records) = do
  validate_anchor_record s r
  validate_records s pin_ids manifest_ids records
validate_records s pin_ids manifest_ids (pinned r ∷ records) = do
  validate_manifest_pin_record s r
  require (not (elem r.pin_id pin_ids || elem r.manifest_id manifest_ids)) anchor_sink_error
  validate_records s (r.pin_id ∷ pin_ids) (r.manifest_id ∷ manifest_ids) records
validate_records s pin_ids manifest_ids (unsupported ∷ records) = raise anchor_sink_error

-- `_validate_sink_records`: the records themselves, if all of them are valid.
unfoldable pub validate_sink_records : Scope → List SinkRecord → Result (List SinkRecord)
unfolding validate_records
validate_sink_records s records = do validate_records s [] [] records; ok records

-- `[record for record in records if record["record_type"] == "audit_anchor"]`
abbrev pub anchors_of : List SinkRecord → List AnchorRecord
anchors_of [] = []
anchors_of (anchored r ∷ records) = r ∷ anchors_of records
anchors_of (pinned r ∷ records) = anchors_of records
anchors_of (unsupported ∷ records) = anchors_of records

abbrev pub pins_of : List SinkRecord → List PinRecord
pins_of [] = []
pins_of (pinned r ∷ records) = r ∷ pins_of records
pins_of (anchored r ∷ records) = pins_of records
pins_of (unsupported ∷ records) = pins_of records

-- `xs[-1]`, of a list that is not empty.
abbrev pub last_of {ℓ} : {A : Type ℓ} → A → List A → A
last_of x [] = x
last_of x (y ∷ ys) = last_of y ys

abbrev pub last? {ℓ} : {A : Type ℓ} → List A → Option A
last? [] = none
last? (x ∷ xs) = some (last_of x xs)
