-- ===== src/Retirement/Approval.antt =====
-- `approve` of heartwood/client.py, when the record does not change between its read and its update.
use heartwood_memory.Prelude.{
  ℕ, ◌≡◌, refl, sym, ◌∙◌, ap, inl, inr, true, Option, none, some, List, [], ◌∷◌, String, arith,
  str_eq, str_eq_iff, elem, Bool-cases, ok, >>=-eq-ok,
}
use heartwood_memory.Envelope.{Meta, approved_canonical, human_approved, default_truth_status}
use heartwood_memory.Policy.{Principal}
use heartwood_memory.Audit.{Codec, Value}
use heartwood_memory.Store.{Store, update_where}
use heartwood_memory.Store.Updates.{update_epistemic, set_epistemic}
use heartwood_memory.Retirement.{get_meta, may_be_approved, approvable, approve}

approvable-ok :
    (tenant : String) (found : Option Meta) (m : Meta)
    → approvable tenant found ≡ ok m
    → (found ≡ some m) × (m.tenant ≡ tenant) × (may_be_approved m.review_state ≡ true)
unfolding approvable
approvable-ok tenant none m h = cc
approvable-ok tenant (some row) m h = elim (Bool-cases (str_eq row.tenant tenant)) [
  | inr k ↦ absurd (ground (arith, rw k at h))
  | inl k ↦ elim (Bool-cases (may_be_approved row.review_state)) [
    | inr j ↦ absurd (ground (arith, rw (k, j) at h))
    | inl j ↦
        let same : row ≡ m = ground (arith, rw (k, j) at h) in
        rw (← same) (refl, (str_eq_iff row.tenant tenant).0 k, j)
  ]
]

get_meta-updated :
    (id : String) (f : Meta → Meta) (rows : List Meta) (m : Meta)
    → ((r : Meta) → (f r).id ≡ r.id)
    → get_meta rows id ≡ some m
    → get_meta (update_where (λ r. str_eq r.id id) f rows) id ≡ some (f m)
unfolding get_meta
get_meta-updated id f [] m keeps h = cc
get_meta-updated id f (r ∷ rows) m keeps h = elim (Bool-cases (str_eq r.id id)) [
  | inl k ↦
      let same : r ≡ m = ground (arith, rw k at h) in
      let here : str_eq (f r).id id ≡ true = ap (λ x. str_eq x id) (keeps r) ∙ k in
      rw (k, here) (ap (λ x. some (f x)) same)
  | inr k ↦ rw (k, k) (get_meta-updated id f rows m keeps (rw k at h))
]

-- An approval that succeeds, with no other process in between, was made by an approver, on a record
-- of the tenant that is accepted or outside the review workflow. The record is then approved, under
-- the approver's name, and its review state is as it was.
pub approve-approves :
    (c : Codec) (s t : Store) (tenant : String) (p : Principal) (detail : Value) (ts : ℕ)
    (id : String)
    → approve c (λ x. x) s tenant p detail ts id ≡ ok t
    → (elem "approver" p.roles ≡ true)
      × ((m : Meta) × (get_meta s.memories id ≡ some m)
          × (m.tenant ≡ tenant)
          × (may_be_approved m.review_state ≡ true)
          × (get_meta t.memories id
              ≡ some (record m {
                epistemic = approved_canonical;
                created_by = p.id;
                truth_status = human_approved;
              })))
unfolding approve update_epistemic default_truth_status
approve-approves c s t tenant p detail ts id h = elim (Bool-cases (elem "approver" p.roles)) [
  | inr k ↦ absurd (ground (arith, rw k at h))
  | inl k ↦
      let (m, found, written) =
        >>=-eq-ok (approvable tenant (get_meta s.memories id)) _ (rw k at h) in
      let (same, own, state) = approvable-ok tenant (get_meta s.memories id) m found in
      let set : Meta → Meta = set_epistemic approved_canonical (some p.id) (some human_approved) in
      let rows : update_where (λ r. str_eq r.id id) set s.memories ≡ t.memories = cc in
      (
        k,
        (
          m,
          same,
          own,
          state,
          ap (λ x. get_meta x id) (sym rows)
              ∙ get_meta-updated id set s.memories m (λ r. refl) same,
        ),
      )
]
