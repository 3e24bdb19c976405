-- ===== src/Keys.antt =====
-- Data-encryption keys: the `keys` table of heartwood/store.py, the custodians of
-- heartwood/key_custody.py and the `KeyStore` of heartwood/erasure.py.
pub mod Tombstone
pub mod Custody
pub mod Lifecycle
use heartwood_memory.Prelude.{
  ℕ, ◌≡◌, Bool, true, false, ◌&&◌, Option, none, some, List, [], ◌∷◌, ◌++◌, String, str_eq,
  opt_str_eq, filter, compare_text, if◌then◌else◌, Result, ok, raise, ◌>>=◌, key_error,
  runtime_error, value_error,
}
use heartwood_memory.Audit.{codes}

abbrev pub Bytes : Type 0
Bytes = List ℕ

-- A stored envelope, as `is_wrapped_key` tells them apart: raw key bytes, or the prefix `hwkw1:`
-- and a JSON object with an algorithm, a key id and the wrapped key.
pub data Blob : Type 0 where
  raw : Bytes → Blob
  wrapped : Option String → Option String → Bytes → Blob

unfoldable pub is_wrapped_key : Blob → Bool
is_wrapped_key (raw b) = false
is_wrapped_key (wrapped alg key_id dek) = true

unfoldable pub envelope_key_id : Blob → Option String
envelope_key_id (raw b) = none
envelope_key_id (wrapped alg key_id dek) = key_id

-- HKDF and AES key wrap, of the `cryptography` package. `none` is its InvalidUnwrap.
pub record Crypto : Type 0 where
  pub hkdf : Bytes → Bytes → Bytes → Bytes
  pub key_wrap : Bytes → Bytes → Bytes
  pub key_unwrap : Bytes → Bytes → Option Bytes
  pub unwrap-wrap : (kek dek : Bytes) → key_unwrap kek (key_wrap kek dek) ≡ some dek

-- `RawKeyCustodian`, and `LocalKmsCustodian` with its root key and key id.
pub data Custodian : Type 0 where
  raw_local : Custodian
  local_kms : Bytes → String → Custodian

abbrev pub algorithm : String
algorithm = "HKDF-SHA256+A256KW"

unfoldable pub kek : Crypto → Bytes → String → String → Bytes
kek c root tenant subject =
    c.hkdf root (codes "heartwood:kek:" ++ codes tenant)
      (codes "subject:" ++ (codes subject ++ codes ":dek-wrap"))

unfoldable pub wrap : Crypto → Custodian → String → String → Bytes → Blob
wrap c raw_local tenant subject dek = raw dek
wrap c (local_kms root key_id) tenant subject dek =
    wrapped (some algorithm) (some key_id) (c.key_wrap (kek c root tenant subject) dek)

or_invalid : Option Bytes → Result Bytes
or_invalid none = raise runtime_error
or_invalid (some b) = ok b

-- The base class returns the bytes of the envelope as they are; so does the KMS custodian with raw
-- bytes. Of a wrapped key it checks the algorithm and its own key id first.
unfoldable pub unwrap : Crypto → Custodian → (Blob → Bytes) → String → String → Blob → Result Bytes
unfolding or_invalid
unwrap c raw_local bytes tenant subject blob = ok (bytes blob)
unwrap c (local_kms root key_id) bytes tenant subject (raw b) = ok b
unwrap c (local_kms root key_id) bytes tenant subject (wrapped alg kid dek) =
    if opt_str_eq alg (some algorithm)
    then (if opt_str_eq kid (some key_id)
        then or_invalid (c.key_unwrap (kek c root tenant subject) dek)
        else raise value_error)
    else raise value_error

pub data KeyState : Type 0 where
  active shredded : KeyState

abbrev pub is_shredded : KeyState → Bool
is_shredded active = false
is_shredded shredded = true

pub record KeyRow : Type 0 where
  pub tenant : String
  pub subject : String
  pub dek : Option Blob
  pub state : KeyState

abbrev pub same_key : String → String → KeyRow → Bool
same_key tenant subject r = str_eq r.tenant tenant && str_eq r.subject subject

unfoldable pub get_key : List KeyRow → String → String → Option KeyRow
get_key [] tenant subject = none
get_key (r ∷ rows) tenant subject =
    if same_key tenant subject r then some r else get_key rows tenant subject

abbrev pub active_row : String → String → Blob → KeyRow
active_row tenant subject envelope = record {
  tenant = tenant;
  subject = subject;
  dek = some envelope;
  state = active;
}

-- `INSERT … ON CONFLICT DO NOTHING`
unfoldable pub create_key : List KeyRow → String → String → Blob → List KeyRow
create_key [] tenant subject envelope = active_row tenant subject envelope ∷ []
create_key (r ∷ rows) tenant subject envelope =
    if same_key tenant subject r then r ∷ rows else r ∷ create_key rows tenant subject envelope

-- `INSERT … ON CONFLICT DO UPDATE … WHERE keys.state IS NOT 'shredded'`; the Boolean is
-- `rowcount == 1`.
unfoldable pub put_key : List KeyRow → String → String → Blob → List KeyRow × Bool
put_key [] tenant subject envelope = (active_row tenant subject envelope ∷ [], true)
put_key (r ∷ rows) tenant subject envelope =
    let (rest, done) = put_key rows tenant subject envelope in
    if same_key tenant subject r
    then (if is_shredded r.state
        then (r ∷ rows, false)
        else (active_row tenant subject envelope ∷ rows, true))
    else (r ∷ rest, done)

abbrev pub tombstone : String → String → KeyRow
tombstone tenant subject = record {
  tenant = tenant;
  subject = subject;
  dek = none;
  state = shredded;
}

unfoldable pub shred_key : List KeyRow → String → String → List KeyRow
shred_key [] tenant subject = tombstone tenant subject ∷ []
shred_key (r ∷ rows) tenant subject =
    if same_key tenant subject r
    then tombstone tenant subject ∷ rows
    else r ∷ shred_key rows tenant subject
