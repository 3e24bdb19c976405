-- ===== src/Keys/Custody/Shared.antt =====
-- `KeyStore` of heartwood/erasure.py: writers and readers of a subject share one key.
use mathlib.Core.Path.{subst}
use heartwood_memory.Prelude.{
  >>=-eq-ok, ◌≡◌, refl, ◌∙◌, ap, true, false, not, ◌&&◌, Option, none, some, [], ◌∷◌, String, arith,
  str_eq_refl, str_eq_iff, opt_str_eq, Bool-cases, Option-cases, inl, inr, Result, ok, raise,
  key_error, ◌>>=◌,
}
use heartwood_memory.Audit.Chain.{codes_eq→eq}
use heartwood_memory.Keys.{
  Bytes, Blob, raw, wrapped, Crypto, Custodian, raw_local, local_kms, kek, wrap, unwrap, KeyRow,
  is_shredded, same_key, get_key, create_key, put_key, active_row,
}
use heartwood_memory.Keys.Custody.{
  blob_eq, opt_blob_eq, dek_of, gone, Table, use_envelope, use_row, first_write, get_or_create, get,
}

opt_str_eq→eq : (a b : Option String) → opt_str_eq a b ≡ true → a ≡ b
opt_str_eq→eq none none h = refl
opt_str_eq→eq none (some y) h = cc
opt_str_eq→eq (some x) none h = cc
opt_str_eq→eq (some x) (some y) h = ground (arith, h, str_eq_iff x y)

blob_eq→eq : (a b : Blob) → blob_eq a b ≡ true → a ≡ b
blob_eq→eq (raw a) (raw b) h = ap raw (codes_eq→eq a b h)
blob_eq→eq (raw a) (wrapped b l e) h = cc
blob_eq→eq (wrapped a k d) (raw b) h = cc
blob_eq→eq (wrapped a k d) (wrapped b l e) h =
    let p : a ≡ b = opt_str_eq→eq a b (ground (arith, h)) in
    let q : k ≡ l = opt_str_eq→eq k l (ground (arith, h)) in
    let r : d ≡ e = codes_eq→eq d e (ground (arith, h)) in λ i. wrapped (p i) (q i) (r i)

module _ (c : Crypto) (custodian : Custodian) (bytes : Blob → Bytes) (tenant subject : String) where
  get_key-put_key :
      (t : Table) (b : Blob)
      → (put_key t tenant subject b).1 ≡ true
      → get_key (put_key t tenant subject b).0 tenant subject ≡ some (active_row tenant subject b)
  unfolding put_key get_key
  get_key-put_key [] b h = simp str_eq_refl
  get_key-put_key (r ∷ rows) b h = elim (Bool-cases (same_key tenant subject r)) [
    | inr other ↦ rw (other, other) (get_key-put_key rows b (rw other at h))
    | inl same ↦ elim (Bool-cases (is_shredded r.state)) [
      | inl dead ↦ absurd (ground (arith, h, same, dead))
      | inr alive ↦ rw (same, alive) (simp str_eq_refl)
    ]
  ]

ok-injective : {A : Type 0} (a b : A) → ok a ≡ ok b → a ≡ b
ok-injective a b h = cc

-- An envelope that a custodian made gives back the key, in either custodian.
read_back :
    (c : Crypto) (custodian : Custodian) (bytes : Blob → Bytes) (tenant subject : String)
    (erased : Result (Option Bytes)) (key : Bytes) (t : Table)
    → (use_envelope c custodian bytes tenant subject some erased
        (wrap c custodian tenant subject key)
        t).0
      ≡ ok (some key)
unfolding use_envelope wrap unwrap
read_back c raw_local bytes tenant subject erased key t = refl
read_back c (local_kms root key_id) bytes tenant subject erased key t =
    rw (str_eq_refl key_id, c.unwrap-wrap (kek c root tenant subject) key)

stored_key :
    (c : Crypto) (custodian : Custodian) (bytes : Blob → Bytes) (tenant subject : String)
    (r : KeyRow) (b : Blob) (t : Table)
    → get_key t tenant subject ≡ some r
    → is_shredded r.state ≡ false
    → r.dek ≡ some b
    → get c custodian bytes tenant subject t
      ≡ use_envelope c custodian bytes tenant subject some (ok none) b t
unfolding get
stored_key c custodian bytes tenant subject r b t found alive full = rw (found, alive, full)

-- A key that a writer took from a stored envelope is the key that a reader then gets.
envelope_shared :
    (c : Crypto) (custodian : Custodian) (bytes : Blob → Bytes) (tenant subject : String)
    (r : KeyRow) (b : Blob) (t t' : Table) (key : Bytes)
    → get_key t tenant subject ≡ some r
    → is_shredded r.state ≡ false
    → r.dek ≡ some b
    → use_envelope c custodian bytes tenant subject (λ k. k) (raise key_error) b t ≡ (ok key, t')
    → (get c custodian bytes tenant subject t').0 ≡ ok (some key)
unfolding use_envelope
envelope_shared c custodian bytes tenant subject r (wrapped alg kid dek) t t' key found alive full
      h =
    let u = unwrap c custodian bytes tenant subject (wrapped alg kid dek) in
    let (k, taken, same) = >>=-eq-ok u (λ k. ok k) (ap (λ p. p.0) h) in
    let unwrapped : u ≡ ok key = taken ∙ same in
    let here : (get c custodian bytes tenant subject t).0 ≡ ok (some key) =
      ap (λ p. p.0)
        (stored_key c custodian bytes tenant subject r (wrapped alg kid dek) t found alive full)
      ∙ ap (λ m. m >>= λ k. ok (some k)) unwrapped in
    subst (λ x. (get c custodian bytes tenant subject x).0 ≡ ok (some key)) (ap (λ p. p.1) h) here
envelope_shared c raw_local bytes tenant subject r (raw b) t t' key found alive full h =
    let same : b ≡ key = ok-injective b key (ap (λ p. p.0) h) in
    let here : (get c raw_local bytes tenant subject t).0 ≡ ok (some key) =
      ap (λ p. p.0) (stored_key c raw_local bytes tenant subject r (raw b) t found alive full)
      ∙ ap (λ k. ok (some k)) same in
    subst (λ x. (get c raw_local bytes tenant subject x).0 ≡ ok (some key)) (ap (λ p. p.1) h) here
envelope_shared c (local_kms root key_id) bytes tenant subject r (raw b) t t' key found alive full
      h =
    let cust = local_kms root key_id in
    let own = wrap c cust tenant subject b in
    let next = put_key t tenant subject own in
    elim (Bool-cases next.1) [
      | inr lost ↦ absurd (ground (arith, rw (lost, use_envelope) at h))
      | inl done ↦
          let h' : (ok b, next.0) ≡ (ok key, t') = rw (done, use_envelope) at h in
          let stored = get_key-put_key c cust bytes tenant subject t own done in
          let here : (get c cust bytes tenant subject next.0).0 ≡ ok (some b) =
            ap (λ p. p.0)
              (stored_key c cust bytes tenant subject (active_row tenant subject own) own next.0
                stored refl refl)
            ∙ read_back c cust bytes tenant subject (ok none) b next.0 in
          subst (λ x. (get c cust bytes tenant subject x).0 ≡ ok (some key)) (ap (λ p. p.1) h')
            (here ∙ ap (λ k. ok (some k)) (ok-injective b key (ap (λ p. p.0) h')))
    ]

use_row_shared :
    (c : Crypto) (custodian : Custodian) (bytes : Blob → Bytes) (tenant subject : String)
    (row : Option KeyRow) (t t' : Table) (key : Bytes)
    → get_key t tenant subject ≡ row
    → use_row c custodian bytes tenant subject row t ≡ (ok key, t')
    → (get c custodian bytes tenant subject t').0 ≡ ok (some key)
unfolding use_row
use_row_shared c custodian bytes tenant subject none t t' key found h =
    absurd (ground (arith, ap (λ p. p.0) h))
use_row_shared c custodian bytes tenant subject (some r) t t' key found h =
    elim (Bool-cases (is_shredded r.state)) [
      | inl dead ↦ absurd (ground (arith, ap (λ p. p.0) (rw (dead, use_row) at h)))
      | inr alive ↦ elim (Option-cases r.dek) [
        | inl empty ↦ absurd (ground (arith, ap (λ p. p.0) (rw (alive, empty, use_row) at h)))
        | inr (b, full) ↦
            envelope_shared c custodian bytes tenant subject r b t t' key found alive full
              (rw (alive, full, use_row) at h)
      ]
    ]

blob_of_opt : (o : Option Blob) (own : Blob) → opt_blob_eq o own ≡ true → o ≡ some own
blob_of_opt none own h = cc
blob_of_opt (some b) own h = ap some (blob_eq→eq b own h)

first_write_shared :
    (c : Crypto) (custodian : Custodian) (bytes : Blob → Bytes) (tenant subject : String)
    (fresh key : Bytes) (row : Option KeyRow) (t t' : Table)
    → get_key t tenant subject ≡ row
    → first_write c custodian bytes tenant subject fresh (wrap c custodian tenant subject fresh) t
      ≡ (ok key, t')
    → (get c custodian bytes tenant subject t').0 ≡ ok (some key)
unfolding first_write
first_write_shared c custodian bytes tenant subject fresh key none t t' found h =
    use_row_shared c custodian bytes tenant subject none t t' key found (rw found at h)
first_write_shared c custodian bytes tenant subject fresh key (some r) t t' found h =
    let own = wrap c custodian tenant subject fresh in
    let h' = rw found at h in
    elim (Bool-cases (not (is_shredded r.state) && opt_blob_eq r.dek own)) [
      | inr other ↦
          use_row_shared c custodian bytes tenant subject (some r) t t' key found (rw other at h')
      | inl mine ↦
          let filled : opt_blob_eq r.dek own ≡ true = ground (arith, mine) in
          let full : r.dek ≡ some own = blob_of_opt r.dek own filled in
          let alive : is_shredded r.state ≡ false = ground (arith, mine) in
          let same : (ok fresh, t) ≡ (ok key, t') = rw mine at h' in
          let here : (get c custodian bytes tenant subject t).0 ≡ ok (some fresh) =
            ap (λ p. p.0) (stored_key c custodian bytes tenant subject r own t found alive full)
            ∙ read_back c custodian bytes tenant subject (ok none) fresh t in
          subst (λ x. (get c custodian bytes tenant subject x).0 ≡ ok (some key))
            (ap (λ p. p.1) same)
            (here ∙ ap (λ k. ok (some k)) (ok-injective fresh key (ap (λ p. p.0) same)))
    ]

-- A writer that gets a key from `get_or_create`, with no other process in between, leaves a table
-- from which a reader gets that same key: whether the key is new, was stored wrapped, was stored
-- raw, or was stored raw and wrapped on this access.
pub get-get_or_create :
    (c : Crypto) (custodian : Custodian) (bytes : Blob → Bytes) (tenant subject : String)
    (fresh key : Bytes) (t t' : Table)
    → get_or_create c custodian bytes tenant subject fresh (λ x. x) t ≡ (ok key, t')
    → (get c custodian bytes tenant subject t').0 ≡ ok (some key)
unfolding get_or_create
get-get_or_create c custodian bytes tenant subject fresh key t t' h =
    let row = get_key t tenant subject in
    let own = wrap c custodian tenant subject fresh in
    elim (Option-cases (dek_of row)) [
      | inr (b, full) ↦
          use_row_shared c custodian bytes tenant subject row t t' key refl
            (rw (full, get_or_create) at h)
      | inl empty ↦ elim (Bool-cases (gone row)) [
        | inl dead ↦ absurd (ground (arith, ap (λ p. p.0) (rw (empty, dead, get_or_create) at h)))
        | inr alive ↦
            first_write_shared c custodian bytes tenant subject fresh key
              (get_key (create_key t tenant subject own) tenant subject)
              (create_key t tenant subject own) t' refl (rw (empty, alive, get_or_create) at h)
      ]
    ]
