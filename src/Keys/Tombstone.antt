-- ===== src/Keys/Tombstone.antt =====
-- A shredded key stays shredded, whatever is done to the table afterwards.
use heartwood_memory.Prelude.{
  ◌≡◌, refl, true, none, some, List, [], ◌∷◌, String, ◌&&◌, arith, str_eq, str_eq_refl, str_eq_iff,
  Bool-cases, inl, inr, sym, ◌∙◌,
}
use heartwood_memory.Keys.{
  Blob, KeyRow, shredded, is_shredded, same_key, get_key, create_key, put_key, shred_key,
  active_row, tombstone,
}

-- What a process may do to the table.
pub data KeyOp : Type 0 where
  create : String → String → Blob → KeyOp
  put : String → String → Blob → KeyOp
  shred : String → String → KeyOp

unfoldable pub apply : List KeyRow → KeyOp → List KeyRow
apply rows (create t s e) = create_key rows t s e
apply rows (put t s e) = (put_key rows t s e).0
apply rows (shred t s) = shred_key rows t s

unfoldable pub run : List KeyRow → List KeyOp → List KeyRow
run rows [] = rows
run rows (op ∷ ops) = run (apply rows op) ops

-- The row of the subject is a tombstone: shredded, with no key material.
abbrev pub IsErased : List KeyRow → String → String → Type 0
IsErased rows tenant subject =
    (r : KeyRow) × (get_key rows tenant subject ≡ some r) × (r.state ≡ shredded) × (r.dek ≡ none)

module _ (tenant subject : String) where
  -- The head of a table whose row is a tombstone: it is that row, or the row stands behind it.
  IsErased-cons :
      (r : KeyRow) (rows rows' : List KeyRow)
      → (IsErased rows tenant subject → IsErased rows' tenant subject)
      → IsErased (r ∷ rows) tenant subject
      → IsErased (r ∷ rows') tenant subject
  unfolding get_key
  IsErased-cons r rows rows' keep (e, found, gone, empty) =
      elim (Bool-cases (same_key tenant subject r)) [
        | inl here ↦ (e, rw here (rw here at found), gone, empty)
        | inr there ↦
            let (e', found', gone', empty') = keep (e, rw there at found, gone, empty) in
            (e', rw there found', gone', empty')
      ]

  pub create-IsErased :
      (rows : List KeyRow) (t s : String) (b : Blob)
      → IsErased rows tenant subject
      → IsErased (create_key rows t s b) tenant subject
  unfolding create_key get_key
  create-IsErased [] t s b (e, found, gone, empty) = absurd (ground (arith, found))
  create-IsErased (r ∷ rows) t s b h = elim (Bool-cases (same_key t s r)) [
    | inl same ↦ rw same h
    | inr other ↦
        rw other (IsErased-cons r rows (create_key rows t s b) (create-IsErased rows t s b) h)
  ]

  -- A row that another row of the same key stands for.
  same_key_trans :
      (r : KeyRow) (t s : String)
      → same_key t s r ≡ true
      → same_key tenant subject r ≡ (str_eq t tenant && str_eq s subject)
  same_key_trans r t s h = ground (arith, h, str_eq_iff r.tenant t, str_eq_iff r.subject s)

  -- A head that is replaced by a row of the same key, which is a tombstone if the old one was.
  IsErased-replace :
      (r x : KeyRow) (rows : List KeyRow)
      → same_key tenant subject x ≡ same_key tenant subject r
      → (r.state ≡ shredded → (x.state ≡ shredded) × (x.dek ≡ none))
      → IsErased (r ∷ rows) tenant subject
      → IsErased (x ∷ rows) tenant subject
  unfolding get_key
  IsErased-replace r x rows same keep (e, found, gone, empty) =
      elim (Bool-cases (same_key tenant subject r)) [
        | inl here ↦
            let was : some r ≡ some e = rw here at found in
            let dead : r.state ≡ shredded = ground (arith, was, gone) in
            let (x-gone, x-empty) = keep dead in (x, rw (same ∙ here), x-gone, x-empty)
        | inr there ↦ (e, rw (same ∙ there) (rw there at found), gone, empty)
      ]

  pub put-IsErased :
      (rows : List KeyRow) (t s : String) (b : Blob)
      → IsErased rows tenant subject
      → IsErased (put_key rows t s b).0 tenant subject
  unfolding put_key get_key
  put-IsErased [] t s b (e, found, gone, empty) = absurd (ground (arith, found))
  put-IsErased (r ∷ rows) t s b h = elim (Bool-cases (same_key t s r)) [
    | inr other ↦ rw other (IsErased-cons r rows (put_key rows t s b).0 (put-IsErased rows t s b) h)
    | inl same ↦ elim (Bool-cases (is_shredded r.state)) [
      | inl dead ↦ rw (same, dead) h
      | inr alive ↦
          rw (same, alive)
            (IsErased-replace r (active_row t s b) rows (sym (same_key_trans r t s same))
              (λ dead. absurd (ground (arith, dead, alive))) h)
    ]
  ]

  shred-IsErased :
      (rows : List KeyRow) (t s : String)
      → IsErased rows tenant subject
      → IsErased (shred_key rows t s) tenant subject
  unfolding shred_key get_key
  shred-IsErased [] t s (e, found, gone, empty) = absurd (ground (arith, found))
  shred-IsErased (r ∷ rows) t s h = elim (Bool-cases (same_key t s r)) [
    | inr other ↦ rw other (IsErased-cons r rows (shred_key rows t s) (shred-IsErased rows t s) h)
    | inl same ↦ rw same (
        IsErased-replace r (tombstone t s) rows (sym (same_key_trans r t s same))
          (λ dead. (refl, refl)) h)
  ]

  pub apply-IsErased :
      (rows : List KeyRow) (op : KeyOp)
      → IsErased rows tenant subject
      → IsErased (apply rows op) tenant subject
  unfolding apply
  apply-IsErased rows (create t s e) h = create-IsErased rows t s e h
  apply-IsErased rows (put t s e) h = put-IsErased rows t s e h
  apply-IsErased rows (shred t s) h = shred-IsErased rows t s h

  pub shred_key-IsErased :
      (rows : List KeyRow) → IsErased (shred_key rows tenant subject) tenant subject
  unfolding shred_key get_key
  shred_key-IsErased [] = (tombstone tenant subject, simp str_eq_refl, refl, refl)
  shred_key-IsErased (r ∷ rows) = elim (Bool-cases (same_key tenant subject r)) [
    | inl here ↦ rw here (tombstone tenant subject, simp str_eq_refl, refl, refl)
    | inr there ↦
        let (e, found, gone, empty) = shred_key-IsErased rows in
        rw there (e, rw there found, gone, empty)
  ]

  run-IsErased :
      (rows : List KeyRow) (ops : List KeyOp)
      → IsErased rows tenant subject
      → IsErased (run rows ops) tenant subject
  unfolding run
  run-IsErased rows [] h = h
  run-IsErased rows (op ∷ ops) h = run-IsErased (apply rows op) ops (apply-IsErased rows op h)

  -- After a subject's key was shredded, its row is a tombstone without key material, and no
  -- sequence of key operations, by whichever process and for whichever subjects, changes that.
  pub shred_key_final :
      (rows : List KeyRow) (ops : List KeyOp)
      → IsErased (run (shred_key rows tenant subject) ops) tenant subject
  shred_key_final rows ops =
      run-IsErased (shred_key rows tenant subject) ops (shred_key-IsErased rows)
