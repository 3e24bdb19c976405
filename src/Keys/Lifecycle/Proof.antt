-- ===== src/Keys/Lifecycle/Proof.antt =====
-- `prove_crypto_erase_store` of heartwood/key_lifecycle.py: what is left of a tenant's keys once the
-- wrapping root is gone. The paths of files in the proof are left out.
use heartwood_memory.Prelude.{
  ℕ, ◌+◌, ◌≤◌, ◌≡◌, ◌↔◌, refl, ◌∙◌, Bool, true, false, not, ◌&&◌, ◌==◌, ==_iff, &&-eq-true, Option,
  none, some, List, [], ◌∷◌, String, arith, All, Bool-cases, inl, inr, count_p, if◌then◌else◌, ok,
  >>=-eq-ok,
}
use heartwood_memory.Keys.{Blob, KeyRow, is_wrapped_key, is_shredded}
use heartwood_memory.Keys.Lifecycle.{
  iter_keys, is_current, is_remaining, remaining_rewrap_count, RewrapReport, complete, Rewrap,
  rewrap_rows, rewrap_tenant_keys, no_counts,
}

pub data Reason : Type 0 where
  root_still_present raw_keys_remain nothing_remains : Reason

pub record CryptoEraseProof : Type 0 where
  pub root_present : Bool
  pub active_key_count : ℕ
  pub wrapped_active_key_count : ℕ
  pub raw_active_key_count : ℕ
  pub shredded_key_count : ℕ
  pub content_unrecoverable : Bool
  pub proved : Bool
  pub reason : Reason

pub record Census : Type 0 where
  pub active : ℕ
  pub wrapped : ℕ
  pub raw : ℕ
  pub shredded : ℕ

-- One turn of the loop, for a row that is shredded or not and has an envelope or not.
abbrev count_row : Census → Bool → Option Blob → Census
count_row n true dek = record n { shredded = n.shredded + 1 }
count_row n false none = n
count_row n false (some b) =
    if is_wrapped_key b
    then record n { active = n.active + 1; wrapped = n.wrapped + 1 }
    else record n { active = n.active + 1; raw = n.raw + 1 }

unfoldable pub census : Census → List KeyRow → Census
census n [] = n
census n (r ∷ rows) = census (count_row n (is_shredded r.state) r.dek) rows

abbrev no_keys : Census
no_keys = record { active = 0; wrapped = 0; raw = 0; shredded = 0 }

unfoldable pub prove_crypto_erase_store : List KeyRow → String → Bool → CryptoEraseProof
unfolding census iter_keys
prove_crypto_erase_store keys tenant root_present =
    let n = census no_keys (iter_keys keys tenant) in
    let gone = not root_present && (n.raw == 0) in
    record {
      root_present = root_present;
      active_key_count = n.active;
      wrapped_active_key_count = n.wrapped;
      raw_active_key_count = n.raw;
      shredded_key_count = n.shredded;
      content_unrecoverable = gone;
      proved = gone;
      reason =
          if root_present
          then root_still_present
          else if n.raw == 0
          then nothing_remains
          else raw_keys_remain;
    }

-- A row holds no raw key of a living subject.
abbrev pub dek_is_wrapped : Option Blob → Bool
dek_is_wrapped none = true
dek_is_wrapped (some b) = is_wrapped_key b

abbrev IsWrappedRow : Bool → Option Blob → Type 0
IsWrappedRow is_dead dek = is_dead ≡ false → dek_is_wrapped dek ≡ true

abbrev pub IsWrapped : KeyRow → Type 0
IsWrapped r = IsWrappedRow (is_shredded r.state) r.dek

count_row-grows :
    (n : Census) (is_dead : Bool) (dek : Option Blob) → n.raw ≤ (count_row n is_dead dek).raw
count_row-grows n true dek = omega arith
count_row-grows n false none = omega arith
count_row-grows n false (some b) = ground arith

census-grows : (n : Census) (rows : List KeyRow) → n.raw ≤ (census n rows).raw
unfolding census
census-grows n [] = omega arith
census-grows n (r ∷ rows) = omega (
  arith,
  count_row-grows n (is_shredded r.state) r.dek,
  census-grows (count_row n (is_shredded r.state) r.dek) rows,
)

count_row-IsWrapped :
    (n : Census) (is_dead : Bool) (dek : Option Blob)
    → n.raw ≡ 0
    → ((count_row n is_dead dek).raw ≡ 0) ↔ IsWrappedRow is_dead dek
count_row-IsWrapped n true dek e = (λ h k. cc, λ h. e)
count_row-IsWrapped n false none e = (λ h k. refl, λ h. e)
count_row-IsWrapped n false (some b) e = elim (Bool-cases (is_wrapped_key b)) [
  | inl w ↦ (λ h k. w, λ h. rw w e)
  | inr w ↦ (λ h. absurd (omega (arith, (rw w at h))), λ h. absurd (cc (w, h refl)))
]

census-IsWrapped :
    (n : Census) (rows : List KeyRow) → n.raw ≡ 0 → ((census n rows).raw ≡ 0) ↔ All IsWrapped rows
unfolding census
census-IsWrapped n [] e = (λ h. tt, λ h. e)
census-IsWrapped n (r ∷ rows) e =
    let next = count_row n (is_shredded r.state) r.dek in
    let one = count_row-IsWrapped n (is_shredded r.state) r.dek e in
    (
      (λ h.
          let zero_next : next.raw ≡ 0 = omega (arith, h, census-grows next rows) in
          (one.0 zero_next, (census-IsWrapped next rows zero_next).0 h)),
      (λ h. (census-IsWrapped next rows (one.1 h.0)).1 h.1),
    )

-- The proof says that the contents are out of reach exactly when the root is gone and no living
-- subject of the tenant has a raw key.
pub prove_iff :
    (keys : List KeyRow) (tenant : String) (root_present : Bool)
    → ((prove_crypto_erase_store keys tenant root_present).proved ≡ true)
      ↔ ((root_present ≡ false) × All IsWrapped (iter_keys keys tenant))
unfolding prove_crypto_erase_store
prove_iff keys tenant true = (λ h. cc, λ h. cc (h.0))
prove_iff keys tenant false =
    let rows = iter_keys keys tenant in
    let each = census-IsWrapped no_keys rows refl in
    (
      (λ h. (refl, each.0 ((==_iff (census no_keys rows).raw 0).0 h))),
      (λ h. (==_iff (census no_keys rows).raw 0).1 (each.1 h.1)),
    )

pub content_unrecoverable-proved :
    (keys : List KeyRow) (tenant : String) (root_present : Bool)
    → (prove_crypto_erase_store keys tenant root_present).content_unrecoverable
      ≡ (prove_crypto_erase_store keys tenant root_present).proved
unfolding prove_crypto_erase_store
content_unrecoverable-proved keys tenant root_present = refl

present_fails :
    (keys : List KeyRow) (tenant : String)
    → (prove_crypto_erase_store keys tenant true).proved ≡ false
unfolding prove_crypto_erase_store
present_fails keys tenant = refl

-- A row that need not be rewrapped.
is_remaining-IsWrapped :
    (key_id : String) (r : KeyRow) (dek : Option Blob)
    → is_remaining key_id r dek ≡ false
    → IsWrappedRow (is_shredded r.state) dek
unfolding is_current
is_remaining-IsWrapped key_id r none h k = refl
is_remaining-IsWrapped key_id r (some b) h k = elim (Bool-cases (is_wrapped_key b)) [
  | inl w ↦ w
  | inr w ↦ absurd (ground (arith, h, k, w))
]

none_remaining :
    (key_id : String) (rows : List KeyRow)
    → count_p (λ r. is_remaining key_id r r.dek) rows ≡ 0
    → All IsWrapped rows
none_remaining key_id [] h = tt
none_remaining key_id (r ∷ rows) h = elim (Bool-cases (is_remaining key_id r r.dek)) [
  | inl k ↦ absurd (omega (arith, (rw k at h)))
  | inr k ↦ (
    is_remaining-IsWrapped key_id r r.dek k,
    none_remaining key_id rows (omega (arith, (rw k at h))),
  )
]

-- If a run of `rewrap_tenant_keys` reports that it is complete, then on the key table that it
-- leaves, the proof that the root is gone (made with the root absent) succeeds: no living subject
-- of the tenant has a key that is not wrapped under a root. With the root still present it fails.
pub rewrap_tenant_keys-proved :
    (w : Rewrap) (t t' : List KeyRow) (report : RewrapReport)
    → rewrap_tenant_keys w t ≡ ok (report, t')
    → complete report ≡ true
    → ((prove_crypto_erase_store t' w.tenant false).proved ≡ true)
      × All IsWrapped (iter_keys t' w.tenant)
      × ((prove_crypto_erase_store t' w.tenant true).proved ≡ false)
unfolding rewrap_tenant_keys complete remaining_rewrap_count
rewrap_tenant_keys-proved w t t' report h done =
    let (ran, _, after) = >>=-eq-ok (rewrap_rows w (iter_keys t w.tenant) t no_counts) _ h in
    let table : ran.1 ≡ t' = cc in
    let left : remaining_rewrap_count w.key_id w.tenant ran.1 ≡ report.remaining = cc in
    let none_left : remaining_rewrap_count w.key_id w.tenant t' ≡ 0 = rw table at (
      left
      ∙ (==_iff report.remaining 0).0
          (&&-eq-true (report.remaining == 0) (not report.counts.limit_reached) done).0) in
    let all_wrapped = none_remaining w.key_id (iter_keys t' w.tenant) none_left in
    ((prove_iff t' w.tenant false).1 (refl, all_wrapped), all_wrapped, present_fails t' w.tenant)
