-- ===== src/Keys/Custody/Erased.antt =====
-- `KeyStore` of heartwood/erasure.py and a subject that is erased.
use mathlib.Core.Path.{subst}
use heartwood_memory.Prelude.{
  ◌≡◌, refl, sym, ap, ◌∙◌, true, false, Option, none, some, String, Bool-cases, Option-cases, ◌⊎◌,
  inl, inr, if◌then◌else◌, Result, ok, raise, key_error,
}
use heartwood_memory.Keys.{
  Bytes, Blob, raw, wrapped, Crypto, Custodian, raw_local, local_kms, KeyRow, is_shredded, wrap,
  get_key, create_key, put_key,
}
use heartwood_memory.Keys.Tombstone.{IsErased, create-IsErased, put-IsErased}
use heartwood_memory.Keys.Custody.{
  dek_of, gone, Table, use_raw, use_envelope, use_row, first_write, get_or_create, get,
}

module _ (c : Crypto) (custodian : Custodian) (bytes : Blob → Bytes) (tenant subject : String) where
  gone_of_IsErased :
      (t : Table) → IsErased t tenant subject → gone (get_key t tenant subject) ≡ true
  gone_of_IsErased t (r, found, dead, empty) = rw (found, dead)

  first_write_gone :
      (fresh : Bytes) (own : Blob) (t : Table)
      → IsErased t tenant subject
      → first_write c custodian bytes tenant subject fresh own t ≡ (raise key_error, t)
  unfolding first_write
  first_write_gone fresh own t h = rw (gone_of_IsErased t h)

  refused :
      (fresh : Bytes) (meanwhile : Table → Table) (t : Table)
      → IsErased (meanwhile t) tenant subject
      → dek_of (get_key t tenant subject) ≡ none
      → (t' : Table) × (get_or_create c custodian bytes tenant subject fresh meanwhile t
          ≡ (raise key_error, t'))
        × IsErased t' tenant subject
  unfolding get_or_create
  refused fresh meanwhile t h empty =
      let own = wrap c custodian tenant subject fresh in
      let kept = create-IsErased tenant subject (meanwhile t) tenant subject own h in
      elim (Bool-cases (gone (get_key t tenant subject))) [
        | inl dead ↦ (meanwhile t, rw (empty, dead, get_or_create), h)
        | inr alive ↦ (
          create_key (meanwhile t) tenant subject own,
          rw (empty, alive, get_or_create)
              (first_write_gone fresh own (create_key (meanwhile t) tenant subject own) kept),
          kept,
        )
      ]

  -- What is done with an envelope that was read keeps a tombstone, in each of its cases.
  use_envelope-IsErased :
      (b : Blob) (t : Table)
      → IsErased t tenant subject
      → IsErased
          (use_envelope c custodian bytes tenant subject (λ key. key) (raise key_error) b t).1
          tenant
          subject
  unfolding use_envelope use_raw
  use_envelope-IsErased (wrapped alg key_id dek) t h = h
  use_envelope-IsErased (raw b) t h = raw_kept custodian
    where
      raw_kept :
          (k : Custodian)
          → IsErased
              (use_raw c custodian bytes tenant subject (λ key. key) (raise key_error) b t k).1
              tenant
              subject
      raw_kept raw_local = h
      raw_kept (local_kms root key_id) =
          let kept =
            put-IsErased tenant subject t tenant subject
              (wrap c (local_kms root key_id) tenant subject b) h in
          elim (Bool-cases
            (put_key t tenant subject (wrap c (local_kms root key_id) tenant subject b)).1) [
              | inl e ↦ rw e kept
              | inr e ↦ rw e kept
            ]

  -- What the writer's first read of the row can make of an erasure that follows it.
  outcome_of :
      (row : Option KeyRow) (t : Table)
      → IsErased t tenant subject
      → IsErased (use_row c custodian bytes tenant subject row t).1 tenant subject
        × (((use_row c custodian bytes tenant subject row t).0 ≡ raise key_error)
            ⊎ (gone row ≡ false))
  unfolding use_row
  outcome_of row t h = elim (Bool-cases (gone row)) [
    | inl dead ↦ rw dead (h, inl refl)
    | inr alive ↦ elim (Option-cases (dek_of row)) [
      | inl e ↦ rw (alive, e) (h, inr refl)
      | inr (b, e) ↦ rw (alive, e) (use_envelope-IsErased b t h, inr refl)
    ]
  ]

  -- What a writer whose first read was `row` leaves and gets, once the subject is erased.
  abbrev Written : Option KeyRow → Result Bytes × Table → Type 0
  Written row out =
      IsErased out.1 tenant subject
      × ((out.0 ≡ raise key_error)
          ⊎ ((r : KeyRow) × (b : Blob) × (row ≡ some r)
              × (is_shredded r.state ≡ false)
              × (r.dek ≡ some b)))

  use_row_read :
      (row : Option KeyRow) (b : Blob) (t : Table)
      → dek_of row ≡ some b
      → use_row c custodian bytes tenant subject row t ≡ (
          if gone row
          then (raise key_error, t)
          else use_envelope c custodian bytes tenant subject (λ key. key) (raise key_error) b t)
  unfolding use_row
  use_row_read row b t e = rw e refl

  written_lem :
      (fresh : Bytes) (meanwhile : Table → Table) (t : Table) (b : Blob)
      → dek_of (get_key t tenant subject) ≡ some b
      → get_or_create c custodian bytes tenant subject fresh meanwhile t ≡ (
          if gone (get_key t tenant subject)
          then (raise key_error, meanwhile t)
          else use_envelope c custodian bytes tenant subject
              (λ key. key)
              (raise key_error)
              b
              (meanwhile t))
  unfolding get_or_create
  written_lem fresh meanwhile t b e =
      rw (e, get_or_create) (use_row_read (get_key t tenant subject) b (meanwhile t) e)

  -- A writer that read key material goes on with the row that it read.
  read_row :
      (fresh : Bytes) (meanwhile : Table → Table) (t : Table) (b : Blob)
      → dek_of (get_key t tenant subject) ≡ some b
      → use_row c custodian bytes tenant subject (get_key t tenant subject) (meanwhile t)
        ≡ get_or_create c custodian bytes tenant subject fresh meanwhile t
  read_row fresh meanwhile t b e =
      use_row_read (get_key t tenant subject) b (meanwhile t) e
      ∙ sym (written_lem fresh meanwhile t b e)

  read-Written :
      (fresh : Bytes) (meanwhile : Table → Table) (t : Table) (r : KeyRow) (b : Blob)
      → IsErased (meanwhile t) tenant subject
      → get_key t tenant subject ≡ some r
      → r.dek ≡ some b
      → Written (some r) (get_or_create c custodian bytes tenant subject fresh meanwhile t)
  read-Written fresh meanwhile t r b h e d =
      let (kept, outcome) = outcome_of (some r) (meanwhile t) h in
      subst (Written (some r))
        (ap (λ row. use_row c custodian bytes tenant subject row (meanwhile t)) (sym e)
          ∙ read_row fresh meanwhile t b (ap dek_of e ∙ d))
        (kept, elim outcome [ inl k ↦ inl k | inr alive ↦ inr (r, b, refl, alive, d) ])

  -- An erased subject has no key for a reader. A writer whose subject is erased after its first read
  -- of the row never undoes the erasure: the tombstone stays, whatever the first read found. It gets
  -- a KeyError, unless that read, from before the erasure, found an active row with key material.
  pub erased_key_refused :
      (fresh : Bytes) (meanwhile : Table → Table) (t : Table)
      → IsErased (meanwhile t) tenant subject
      → IsErased (get_or_create c custodian bytes tenant subject fresh meanwhile t).1 tenant subject
        × (((get_or_create c custodian bytes tenant subject fresh meanwhile t).0 ≡ raise key_error)
            ⊎ ((r : KeyRow) × (b : Blob) × (get_key t tenant subject ≡ some r)
                × (is_shredded r.state ≡ false)
                × (r.dek ≡ some b)))
        × (get c custodian bytes tenant subject (meanwhile t) ≡ (ok none, meanwhile t))
  unfolding get
  erased_key_refused fresh meanwhile t h =
      let (kept, outcome) = written (get_key t tenant subject) refl in
      (kept, outcome, rw (gone_of_IsErased (meanwhile t) h))
    where
      written :
          (row : Option KeyRow)
          → get_key t tenant subject ≡ row
          → Written row (get_or_create c custodian bytes tenant subject fresh meanwhile t)
      written none e =
          let (t', out, kept) = refused fresh meanwhile t h (ap dek_of e) in
          subst (Written none) (sym out) (kept, inl refl)
      written (some r) e = elim (Option-cases r.dek) [
        | inl empty ↦
            let (t', out, kept) = refused fresh meanwhile t h (ap dek_of e ∙ empty) in
            subst (Written (some r)) (sym out) (kept, inl refl)
        | inr (b, d) ↦ read-Written fresh meanwhile t r b h e d
      ]
