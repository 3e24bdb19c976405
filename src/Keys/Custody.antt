-- ===== src/Keys/Custody.antt =====
-- `KeyStore` of heartwood/erasure.py: the key a writer encrypts with, and the key a reader decrypts
-- with. What other processes do to the table between two calls of the store is a parameter.
pub mod Erased
pub mod Shared
use mathlib.Core.Path.{subst}
use heartwood_memory.Prelude.{
  >>=-eq-ok, ◌≡◌, refl, sym, ◌∙◌, ap, Bool, true, false, not, ◌&&◌, Option, none, some, List, [],
  ◌∷◌, String, arith, str_eq, str_eq_refl, str_eq_iff, opt_str_eq, Bool-cases, Option-cases, inl,
  inr, if◌then◌else◌, Result, ok, raise, key_error, runtime_error, value_error, ◌>>=◌,
}
use heartwood_memory.Audit.{codes_eq}
use heartwood_memory.Audit.Chain.{codes_eq→eq}
use heartwood_memory.Keys.{
  Bytes, Blob, raw, wrapped, is_wrapped_key, Crypto, Custodian, raw_local, local_kms, algorithm,
  kek, wrap, unwrap, KeyRow, KeyState, active, shredded, is_shredded, same_key, get_key, create_key,
  put_key, active_row,
}
use heartwood_memory.Keys.Tombstone.{IsErased, create-IsErased}

abbrev pub blob_eq : Blob → Blob → Bool
blob_eq (raw a) (raw b) = codes_eq a b
blob_eq (wrapped a k d) (wrapped b l e) = opt_str_eq a b && opt_str_eq k l && codes_eq d e
blob_eq _ _ = false

abbrev pub opt_blob_eq : Option Blob → Blob → Bool
opt_blob_eq none own = false
opt_blob_eq (some b) own = blob_eq b own

abbrev pub dek_of : Option KeyRow → Option Blob
dek_of none = none
dek_of (some r) = r.dek

abbrev pub gone : Option KeyRow → Bool
gone none = false
gone (some r) = is_shredded r.state

abbrev pub Table : Type 0
Table = List KeyRow

module _ (c : Crypto) (custodian : Custodian) (bytes : Blob → Bytes) (tenant subject : String) where
  unfoldable pub use_raw :
      {A : Type 0} → (Bytes → A) → Result A → Bytes → Table → Custodian → Result A × Table
  use_raw found erased b t raw_local = (ok (found b), t)
  use_raw found erased b t (local_kms root key_id) =
      let (t', done) = put_key t tenant subject (wrap c (local_kms root key_id) tenant subject b) in
      if done then (ok (found b), t') else (erased, t')

  -- The last lines of `get_or_create` and of `get`: a wrapped key is unwrapped; raw bytes serve as
  -- they are under the raw custodian, and are wrapped and stored under another one. `erased` is
  -- what the caller does if the subject was erased meanwhile.
  unfoldable pub use_envelope :
      {A : Type 0} → (Bytes → A) → Result A → Blob → Table → Result A × Table
  unfolding use_raw
  use_envelope found erased (wrapped alg key_id dek) t = (
    (unwrap c custodian bytes tenant subject (wrapped alg key_id dek)) >>= (λ key. ok (found key)),
    t,
  )
  use_envelope found erased (raw b) t = use_raw found erased b t custodian

  -- The state is looked at before the envelope.
  unfoldable pub use_row : Option KeyRow → Table → Result Bytes × Table
  unfolding use_envelope
  use_row row t = if gone row then (raise key_error, t) else elim (dek_of row) [
    | none ↦ (raise runtime_error, t)
    | some envelope ↦ use_envelope (λ key. key) (raise key_error) envelope t
  ]

  -- What follows `create_key`: the stored row is the writer's own, or another one that counts.
  unfoldable pub first_write : Bytes → Blob → Table → Result Bytes × Table
  unfolding use_row
  first_write fresh own t =
      let stored = get_key t tenant subject in
      if not (gone stored) && opt_blob_eq (dek_of stored) own
      then (ok fresh, t)
      else use_row stored t

  -- `get_or_create`; `fresh` is the new random key, `meanwhile` what others do after the first read.
  unfoldable pub get_or_create : Bytes → (Table → Table) → Table → Result Bytes × Table
  unfolding first_write use_row
  get_or_create fresh meanwhile t =
      let row = get_key t tenant subject in
      let own = wrap c custodian tenant subject fresh in
      elim (dek_of row) [
        | none ↦
            if gone row
            then use_row row (meanwhile t)
            else first_write fresh own (create_key (meanwhile t) tenant subject own)
        | some envelope ↦ use_row row (meanwhile t)
      ]

  -- `KeyStore.get`
  unfoldable pub get : Table → Result (Option Bytes) × Table
  unfolding use_envelope
  get t =
      let row = get_key t tenant subject in
      if gone row then (ok none, t) else elim (dek_of row) [
        | none ↦ (ok none, t)
        | some envelope ↦ use_envelope some (ok none) envelope t
      ]
