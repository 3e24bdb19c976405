-- ===== src/Tests/Samples.antt =====
-- The data of the examples.
use heartwood_memory.Prelude.{
  ℕ, zero, suc, ◌+◌, ◌%◌, ◌<◌, ◌≡◌, refl, true, false, some, List, [], ◌∷◌, ◌++◌, String, arith,
  length, All, if◌then◌else◌,
}
use heartwood_memory.Envelope.{
  semantic, user_stated, source_observed, Meta, absent, tenant_wide, internal, confidential,
  restricted, decayable, accepted, Classification,
}
use heartwood_memory.Policy.{Principal}
use heartwood_memory.Keys.{raw, Crypto, KeyRow, active_row}
use heartwood_memory.Audit.{
  Codec, Fields, Value, text, other, malformed, object, Log, codes, codes_eq, audit_fields,
}
use heartwood_memory.Store.{Store, Edge, memory}

abbrev pub sample_row : String → String → Classification → List String → Meta
sample_row id subject classification roles = record {
  id = id;
  tenant = "acme";
  kind = semantic;
  epistemic = user_stated;
  subject = subject;
  created_by = "ann";
  created_at = 1;
  content_hash = "sha256:00";
  truth_status = source_observed;
  policy_scope = "default";
  valid_from = absent;
  valid_until = absent;
  subject_ids = subject ∷ [];
  has_readable_aliases = true;
  entities = [];
  source_ids = [];
  visibility = tenant_wide;
  classification = classification;
  pii = false;
  roles = roles;
  role_groups = [];
  attrs = [];
  retention = decayable;
  review_state = some accepted;
  indexed = true;
}

abbrev pub m1 : Meta
m1 = sample_row "m1" "alice" confidential ("legal" ∷ [])

abbrev pub m2 : Meta
m2 = sample_row "m2" "bob" internal []

-- A summary of `m1`, of another subject.
abbrev pub m3 : Meta
m3 = sample_row "m3" "carol" restricted []

abbrev pub reader : Principal
reader = record {
  id = "ann";
  tenant = "acme";
  roles = "legal" ∷ [];
  attrs = [];
  clearance = confidential;
}

-- A checksum of 64 equal digits in place of SHA-256, and a parser that knows one document.
abbrev total : List ℕ → ℕ
total [] = 0
total (x ∷ xs) = x + total xs

abbrev pub repeat : ℕ → ℕ → List ℕ
repeat zero x = []
repeat (suc n) x = x ∷ repeat n x

pub length-repeat : (n x : ℕ) → length (repeat n x) ≡ n
length-repeat zero x = refl
length-repeat (suc n) x = omega (arith, length-repeat n x)

pub All-repeat : (n x : ℕ) → x < b'g' → All (λ c. c < b'g') (repeat n x)
All-repeat zero x h = tt
All-repeat (suc n) x h = (h, All-repeat n x h)

unfoldable pub digit : ℕ → ℕ
digit n = 48 + (n % 10)

pub digit_small : (n : ℕ) → digit n < b'g'
unfolding digit
digit_small n = omega arith

abbrev pub sample_detail : Value
sample_detail = text "3"

abbrev pub sample_fields : Fields
sample_fields = audit_fields "acme" "ann" "remember" "m1" sample_detail

abbrev value_codes : Value → List ℕ
value_codes (text s) = codes s
value_codes (other xs) = xs

abbrev pub sample_dumps : Fields → List ℕ
sample_dumps [] = []
sample_dumps ((k, v) ∷ fields) = codes k ++ (58 ∷ value_codes v ++ 44 ∷ sample_dumps fields)

abbrev pub codec : Codec
codec = record {
  sha256 = λ xs. repeat 64 (digit (total xs));
  length-sha256 = λ xs. length-repeat 64 (digit (total xs));
  hex = λ xs. All-repeat 64 (digit (total xs)) (digit_small (total xs));
  repr = λ ts. ts ∷ [];
  dumps = sample_dumps;
  loads =
      λ xs. if codes_eq xs (sample_dumps sample_fields) then object sample_fields else malformed;
}

abbrev pub no_log : Log
no_log = record { rows = []; last_seq = 0 }

-- Wrapping puts the wrapping key in front; unwrapping takes its length off again.
abbrev drop_codes : List ℕ → List ℕ → List ℕ
drop_codes [] ys = ys
drop_codes (x ∷ xs) [] = []
drop_codes (x ∷ xs) (y ∷ ys) = drop_codes xs ys

pub drop_codes-append : (xs ys : List ℕ) → drop_codes xs (xs ++ ys) ≡ ys
drop_codes-append [] ys = refl
drop_codes-append (x ∷ xs) ys = drop_codes-append xs ys

abbrev pub crypto : Crypto
crypto = record {
  hkdf = λ root salt info. root ++ (salt ++ info);
  key_wrap = λ kek dek. kek ++ dek;
  key_unwrap = λ kek blob. some (drop_codes kek blob);
  unwrap-wrap = λ kek dek. rw (drop_codes-append kek dek) refl;
}

abbrev pub sample_keys : List KeyRow
sample_keys = active_row "acme" "alice" (raw (7 ∷ [])) ∷ active_row "acme" "bob" (raw (8 ∷ [])) ∷ []

abbrev pub sample_edges : List Edge
sample_edges = record { child = "m3"; parent = "m1" } ∷ []

abbrev pub sample_store : Store
sample_store = record {
  memories = m1 ∷ m2 ∷ m3 ∷ [];
  edges = sample_edges;
  lineage =
      record { artifact_id = "m1"; artifact_kind = memory; subject = "alice"; tenant = "acme" }
      ∷ [];
  keys = sample_keys;
  vectors = some ("m1" ∷ "m2" ∷ []);
  log = no_log;
}
