-- ===== src/Audit/Chain.antt =====
-- `AuditLog.append` and `AuditLog.verify_chain` of heartwood/audit.py.
use heartwood_memory.Prelude.{
  ℕ, suc, ◌≡◌, refl, Bool, true, false, ◌&&◌, Option, none, some, List, [], ◌∷◌, ◌++◌, String,
  arith, str_eq, str_eq_refl, if◌then◌else◌,
}
use heartwood_memory.Audit.{
  Codec, Value, text, Fields, malformed, not_object, object, Row, Log, codes_eq, genesis, head_hash,
  hashed, next_row, append_audit, audit_fields,
}
use heartwood_memory.Audit.Epochs.{legacy_display_binding_matches}

abbrev pub get_field : String → Fields → Option Value
get_field key [] = none
get_field key ((k, v) ∷ fields) = if str_eq k key then some v else get_field key fields

abbrev pub has_field : String → Fields → Bool
has_field key [] = false
has_field key ((k, v) ∷ fields) = if str_eq k key then true else has_field key fields

abbrev pub shows : Option Value → String → Bool
shows (some (text s)) t = str_eq s t
shows _ t = false

-- The four displayed columns against a payload that has them all.
unfoldable pub columns_match : Row → Fields → Bool
columns_match row payload =
    shows (get_field "tenant" payload) row.tenant
    && shows (get_field "principal" payload) row.principal
    && shows (get_field "action" payload) row.action
    && shows (get_field "target" payload) row.target

-- `_display_columns_match_body`, of a row of the store, which has all four columns.
unfoldable pub display_columns_match_body : Codec → Option String → Row → Bool
unfolding columns_match
display_columns_match_body c chain_id row = elim (c.loads row.body) [
  | malformed ↦ false
  | not_object ↦ false
  | object payload ↦
      if has_field "tenant" payload
        && has_field "principal" payload
        && has_field "action" payload
        && has_field "target" payload
      then columns_match row payload
      else legacy_display_binding_matches c chain_id row payload
]

-- The loop of `verify_chain`; `prev` is the hash of the row before.
unfoldable pub verify_rows : Codec → Option String → List ℕ → List Row → Bool
verify_rows c chain_id prev [] = true
verify_rows c chain_id prev (row ∷ rows) =
    codes_eq row.prev_hash prev
    && display_columns_match_body c chain_id row
    && codes_eq (c.sha256 (hashed c prev row.body row.ts)) row.row_hash
    && verify_rows c chain_id row.row_hash rows

unfoldable pub verify_chain : Codec → Option String → Log → Bool
unfolding verify_rows
verify_chain c chain_id log = verify_rows c chain_id genesis log.rows

-- `AuditLog.append`, with the canonical body.
unfoldable pub append : Codec → Log → String → String → String → String → Value → ℕ → Log
append c log tenant principal action target detail ts =
    append_audit c log tenant principal action target
      (c.dumps (audit_fields tenant principal action target detail)) ts

pub codes_eq_refl : (xs : List ℕ) → codes_eq xs xs ≡ true
codes_eq_refl [] = refl
codes_eq_refl (x ∷ xs) = ground (arith, codes_eq_refl xs)

pub codes_eq→eq : (xs ys : List ℕ) → codes_eq xs ys ≡ true → xs ≡ ys
codes_eq→eq [] [] h = refl
codes_eq→eq [] (y ∷ ys) h = cc
codes_eq→eq (x ∷ xs) [] h = cc
codes_eq→eq (x ∷ xs) (y ∷ ys) h = ground (arith, codes_eq→eq xs ys)

module _ (c : Codec) (chain_id : Option String) where
  verify-append :
      (prev : List ℕ) (rows : List Row) (row : Row)
      → verify_rows c chain_id prev rows ≡ true
      → verify_rows c chain_id (head_hash prev rows) (row ∷ []) ≡ true
      → verify_rows c chain_id prev (rows ++ row ∷ []) ≡ true
  unfolding verify_rows head_hash
  verify-append prev [] row h k = k
  verify-append prev (r ∷ rows) row h k = ground (arith, h, k, verify-append r.row_hash rows row)

  verify-prefix :
      (prev : List ℕ) (rows tail : List Row)
      → verify_rows c chain_id prev (rows ++ tail) ≡ true
      → verify_rows c chain_id prev rows ≡ true
  unfolding verify_rows
  verify-prefix prev [] tail h = refl
  verify-prefix prev (r ∷ rows) tail h = ground (arith, h, verify-prefix r.row_hash rows tail)

  display-shown :
      (row : Row) (detail : Value)
      → c.loads row.body
        ≡ object (audit_fields row.tenant row.principal row.action row.target detail)
      → display_columns_match_body c chain_id row ≡ true
  unfolding display_columns_match_body audit_fields
  display-shown row detail parsed = rw (parsed, display_columns_match_body) (simp str_eq_refl)

  -- Appending an event to a log that verifies gives a log that verifies, if the body of the event
  -- parses back to the fields that were written. The new row has the next sequence number, it
  -- stands last, and no other row has changed.
  pub verify_chain-append :
      (log : Log) (tenant principal action target : String) (detail : Value) (ts : ℕ)
      → c.loads (c.dumps (audit_fields tenant principal action target detail))
        ≡ object (audit_fields tenant principal action target detail)
      → verify_chain c chain_id log ≡ true
      → (verify_chain c chain_id (append c log tenant principal action target detail ts) ≡ true)
        × ((row : Row) × ((append c log tenant principal action target detail ts).rows
              ≡ log.rows ++ row ∷ [])
            × (row.seq ≡ suc log.last_seq))
  unfolding verify_chain append append_audit
  verify_chain-append log tenant principal action target detail ts parsed h =
      let body = c.dumps (audit_fields tenant principal action target detail) in
      let row = next_row c log tenant principal action target body ts in
      (
        verify-append genesis log.rows row h
            (simp (codes_eq_refl, display-shown row detail parsed)),
        (row, refl, refl),
      )

  -- A log that verifies still does after rows were cut from its end: the chain alone does not
  -- show the loss of a tail.
  pub verify_chain-truncated :
      (rows tail : List Row) (last_seq : ℕ)
      → verify_chain c chain_id (record { rows = rows ++ tail; last_seq = last_seq }) ≡ true
      → verify_chain c chain_id (record { rows = rows; last_seq = last_seq }) ≡ true
  unfolding verify_chain
  verify_chain-truncated rows tail last_seq h = verify-prefix genesis rows tail h
