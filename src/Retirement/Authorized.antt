-- ===== src/Retirement/Authorized.antt =====
-- Whose records `supersede` of heartwood/client.py retires.
use heartwood_memory.Prelude.{
  ℕ, ◌≡◌, refl, ◌⊎◌, inl, inr, true, false, Option, none, some, List, [], ◌∷◌, String, arith,
  str_eq, str_eq_iff, elem, intersects, All, In, All-In, All-of_In, Bool-cases, ok, ◌>>=◌,
  >>=-eq-ok,
}
use heartwood_memory.Envelope.{Meta}
use heartwood_memory.Policy.{Principal}
use heartwood_memory.Review.{review_roles, validate_supersede}
use heartwood_memory.Spans.{can_read}
use heartwood_memory.Audit.{Codec, Value}
use heartwood_memory.Store.{Store, Target}
use heartwood_memory.Retirement.{
  get_meta, is_locked, authorize_retirement, resolve_targets, distinct, superseded_targets, retire,
  supersede,
}

-- A principal may retire a stored record: it sees the record, and it is an approver if the record
-- is approved, and otherwise its creator, a reviewer or an approver.
pub record MayRetire (p : Principal) (tenant : String) (memories : List Meta) (id : String)
    : Type 0 where
  pub row : Meta
  pub is_stored : get_meta memories id ≡ some row
  pub is_own_tenant : row.tenant ≡ tenant
  pub is_readable : can_read p (some row) ≡ true
  pub is_approver : is_locked row ≡ true → elem "approver" p.roles ≡ true
  pub is_author :
      is_locked row ≡ false → (row.created_by ≡ p.id) ⊎ (intersects p.roles review_roles ≡ true)

authorized-MayRetire :
    (p : Principal) (tenant : String) (memories : List Meta) (id : String) (found : Option Meta)
    (m : Meta)
    → get_meta memories id ≡ found
    → authorize_retirement tenant p found ≡ ok m
    → MayRetire p tenant memories id
unfolding authorize_retirement
authorized-MayRetire p tenant memories id none m same h = cc
authorized-MayRetire p tenant memories id (some row) m same h = record {
  row = row;
  is_stored = same;
  is_own_tenant = ground (arith, h, str_eq_iff row.tenant tenant);
  is_readable = ground (arith, h);
  is_approver = λ k. ground (arith, h, k);
  is_author = λ k. elim (Bool-cases (str_eq row.created_by p.id)) [
    | inl own ↦ inl ((str_eq_iff row.created_by p.id).0 own)
    | inr other ↦ inr (ground (arith, h, k, other))
  ];
}

resolve-MayRetire :
    (p : Principal) (tenant : String) (memories : List Meta) (ids : List String)
    (targets : List Target)
    → resolve_targets tenant memories (some p) ids ≡ ok targets
    → All (MayRetire p tenant memories) ids
unfolding resolve_targets
resolve-MayRetire p tenant memories [] targets h = tt
resolve-MayRetire p tenant memories (id ∷ ids) targets h =
    let (m, may, a) = >>=-eq-ok (authorize_retirement tenant p (get_meta memories id)) _ h in
    let (_, legal, b) = >>=-eq-ok (validate_supersede m.review_state) _ a in
    let (rest, others, _) = >>=-eq-ok (resolve_targets tenant memories (some p) ids) _ b in
    (
      authorized-MayRetire p tenant memories id (get_meta memories id) m refl may,
      resolve-MayRetire p tenant memories ids rest others,
    )

pub distinct_keeps :
    (id : String) (seen ids : List String)
    → In id ids
    → (elem id seen ≡ true) ⊎ In id (distinct seen ids)
unfolding distinct
distinct_keeps id seen [] h = absurd h
distinct_keeps id seen (x ∷ ids) (inl e) = elim (Bool-cases (elem x seen)) [
  | inl k ↦ inl (rw e k)
  | inr k ↦ inr (rw (k, In) (inl e))
]
distinct_keeps id seen (x ∷ ids) (inr h) = elim (Bool-cases (elem x seen)) [
  | inl k ↦ rw (k, In) (distinct_keeps id seen ids h)
  | inr k ↦
      rw (k, In)
        (elim (distinct_keeps id (x ∷ seen) ids h) [
          | inr there ↦ inr (inr there)
          | inl found ↦ elim (Bool-cases (str_eq id x)) [
            | inl same ↦ inr (inl ((str_eq_iff id x).0 same))
            | inr other ↦ inl (ground (arith, found, other))
          ]
        ])
]

-- The targets of a call that is let through are those of its ids, each once.
pub superseded_targets-resolve :
    (tenant : String) (memories : List Meta) (p : Option Principal) (ids : List String)
    (targets : List Target)
    → superseded_targets tenant memories p none false ids ≡ ok targets
    → resolve_targets tenant memories p (distinct [] ids) ≡ ok targets
unfolding superseded_targets resolve_targets distinct
superseded_targets-resolve tenant memories p [] targets h = h
superseded_targets-resolve tenant memories p (id ∷ ids) targets h =
    elim (Bool-cases (elem "" (id ∷ ids))) [
      | inl k ↦ absurd (ground (arith, rw k at h))
      | inr k ↦ rw k at h
    ]

-- When a principal's call of `supersede` succeeds, the principal acts in its own name, and it may
-- retire each record that the call names.
pub supersede-MayRetire :
    (c : Codec) (s t : Store) (tenant actor : String) (p : Principal) (detail : Target → Value)
    (ts : ℕ) (ids : List String)
    → supersede c s tenant actor (some p) detail ts ids ≡ ok t
    → (p.id ≡ actor) × All (MayRetire p tenant s.memories) ids
unfolding supersede
supersede-MayRetire c s t tenant actor p detail ts ids h = elim (Bool-cases (str_eq p.id actor)) [
  | inr k ↦ absurd (ground (arith, rw k at h))
  | inl k ↦
      let after : (superseded_targets tenant s.memories (some p) none false ids
            >>= retire c s tenant actor detail ts)
          ≡ ok t =
        rw k at h in
      let (targets, found, _) =
        >>=-eq-ok (superseded_targets tenant s.memories (some p) none false ids)
          (retire c s tenant actor detail ts) after in
      let each =
        resolve-MayRetire p tenant s.memories (distinct [] ids) targets
          (superseded_targets-resolve tenant s.memories (some p) ids targets found) in
      (
        (str_eq_iff p.id actor).0 k,
        All-of_In (MayRetire p tenant s.memories) ids (λ id m. elim (distinct_keeps id [] ids m) [
          | inr there ↦ All-In (MayRetire p tenant s.memories) (distinct [] ids) id each there
          | inl seen ↦ cc
        ]),
      )
]
