-- ===== src/Retirement/Rows.antt =====
-- What `_supersede_rows` and the audit rows of `supersede_audited` of heartwood/store.py leave of the
-- tables.
use heartwood_memory.Prelude.{
  ℕ, ◌≤◌, ◌≡◌, refl, sym, subst, ◌∙◌, ap, inl, inr, ◌⊎◌, Bool, true, ◌&&◌, ◌==◌, some, List, [],
  ◌∷◌, ◌++◌, String, arith, str_eq, str_eq_iff, any, count_p, map, All, In, Bool-cases, ok,
  ok_injective, append-nil, append_assoc,
}
use heartwood_memory.Envelope.{Meta}
use heartwood_memory.Audit.{Codec, Row, Log, append_audit, next_row}
use heartwood_memory.Store.{
  Target, still_matches, state_code, set_superseded, update_where, supersede_rows, audit_supersedes,
}

-- A row of the tenant with this id is superseded.
abbrev pub is_retired : String → String → Meta → Bool
is_retired tenant id m =
    str_eq m.id id && (str_eq m.tenant tenant && (state_code m.review_state == 4))

matched-updated :
    (tenant : String) (t : Target) (rows : List Meta)
    → 1 ≤ count_p (still_matches tenant t) rows
    → any (is_retired tenant t.id) (update_where (still_matches tenant t) set_superseded rows)
      ≡ true
unfolding still_matches
matched-updated tenant t [] h = absurd (omega (arith, h))
matched-updated tenant t (m ∷ rows) h = elim (Bool-cases (still_matches tenant t m)) [
  | inl k ↦ rw k (ground (arith, k))
  | inr k ↦
      let later = matched-updated tenant t rows (omega (arith, rw k at h)) in
      rw k (ground (arith, later))
]

retired-kept :
    (tenant id : String) (p : Meta → Bool) (rows : List Meta)
    → any (is_retired tenant id) rows ≡ true
    → any (is_retired tenant id) (update_where p set_superseded rows) ≡ true
retired-kept tenant id p [] h = h
retired-kept tenant id p (m ∷ rows) h = elim (Bool-cases (p m)) [
  | inl k ↦ rw k (ground (arith, h, retired-kept tenant id p rows))
  | inr k ↦ rw k (ground (arith, h, retired-kept tenant id p rows))
]

-- Two lists of rows of one length, whose rows are related one by one.
pub Pairwise : (Meta → Meta → Type 0) → List Meta → List Meta → Type 0
Pairwise R [] [] = Unit
Pairwise R (m ∷ ms) (n ∷ ns) = R m n × Pairwise R ms ns
Pairwise R _ _ = ⊥

-- A row before and after: it is unchanged, or it is a row of the tenant with one of the ids, and
-- only its review state was set.
abbrev pub IsFramed : String → List String → Meta → Meta → Type 0
IsFramed tenant ids m n = (n ≡ m) ⊎ (In m.id ids × (m.tenant ≡ tenant) × (n ≡ set_superseded m))

IsFramed-trans :
    (tenant : String) (ids : List String) (m n k : Meta)
    → IsFramed tenant ids m n
    → IsFramed tenant ids n k
    → IsFramed tenant ids m k
IsFramed-trans tenant ids m n k (inl e) h = subst (λ x. IsFramed tenant ids x k) e h
IsFramed-trans tenant ids m n k (inr (named, own, e)) (inl f) = inr (named, own, f ∙ e)
IsFramed-trans tenant ids m n k (inr (named, own, e)) (inr (_, _, f)) =
    inr (named, own, f ∙ ap set_superseded e)

Framed-trans :
    (tenant : String) (ids : List String) (ms ns ks : List Meta)
    → Pairwise (IsFramed tenant ids) ms ns
    → Pairwise (IsFramed tenant ids) ns ks
    → Pairwise (IsFramed tenant ids) ms ks
unfolding Pairwise
Framed-trans tenant ids [] [] [] h k = tt
Framed-trans tenant ids [] [] (z ∷ ks) h k = absurd k
Framed-trans tenant ids [] (y ∷ ns) ks h k = absurd h
Framed-trans tenant ids (x ∷ ms) [] ks h k = absurd h
Framed-trans tenant ids (x ∷ ms) (y ∷ ns) [] h k = absurd k
Framed-trans tenant ids (x ∷ ms) (y ∷ ns) (z ∷ ks) h k =
    (IsFramed-trans tenant ids x y z h.0 k.0, Framed-trans tenant ids ms ns ks h.1 k.1)

pub Framed-refl :
    (tenant : String) (ids : List String) (ms : List Meta) → Pairwise (IsFramed tenant ids) ms ms
unfolding Pairwise
Framed-refl tenant ids [] = tt
Framed-refl tenant ids (m ∷ ms) = (inl refl, Framed-refl tenant ids ms)

-- The UPDATE of one target changes no row but those that it names.
update-Framed :
    (tenant : String) (ids : List String) (t : Target) (rows : List Meta)
    → In t.id ids
    → Pairwise
        (IsFramed tenant ids)
        rows
        (update_where (still_matches tenant t) set_superseded rows)
unfolding still_matches Pairwise
update-Framed tenant ids t [] named = tt
update-Framed tenant ids t (m ∷ rows) named = elim (Bool-cases (still_matches tenant t m)) [
  | inr k ↦ rw k (inl refl, update-Framed tenant ids t rows named)
  | inl k ↦
      let same : m.id ≡ t.id = ground (arith, k, str_eq_iff m.id t.id) in
      let own : m.tenant ≡ tenant = ground (arith, k, str_eq_iff m.tenant tenant) in
      rw k (
        inr (subst (λ x. In x ids) (sym same) named, own, refl),
        update-Framed tenant ids t rows named,
      )
]

-- One target of the loop, and the rest of it.
supersede_rows-step :
    (tenant : String) (t : Target) (targets : List Target) (rows left : List Meta)
    → supersede_rows tenant (t ∷ targets) rows ≡ some left
    → (1 ≤ count_p (still_matches tenant t) rows)
      × (supersede_rows tenant targets (update_where (still_matches tenant t) set_superseded rows)
          ≡ some left)
unfolding supersede_rows
supersede_rows-step tenant t targets rows left h =
    elim (Bool-cases (count_p (still_matches tenant t) rows == 1)) [
      | inr k ↦ absurd (ground (arith, rw k at h))
      | inl k ↦ (ground (arith, k), rw k at h)
    ]

supersede_rows-keeps :
    (tenant id : String) (targets : List Target) (rows left : List Meta)
    → any (is_retired tenant id) rows ≡ true
    → supersede_rows tenant targets rows ≡ some left
    → any (is_retired tenant id) left ≡ true
unfolding supersede_rows
supersede_rows-keeps tenant id [] rows left h e = let same : rows ≡ left = cc in rw (← same) h
supersede_rows-keeps tenant id (t ∷ targets) rows left h e =
    let (_, rest) = supersede_rows-step tenant t targets rows left e in
    supersede_rows-keeps tenant id targets
      (update_where (still_matches tenant t) set_superseded rows) left
      (retired-kept tenant id (still_matches tenant t) rows h) rest

pub supersede_rows_retires :
    (tenant : String) (targets : List Target) (rows left : List Meta)
    → supersede_rows tenant targets rows ≡ some left
    → All (λ t. any (is_retired tenant t.id) left ≡ true) targets
unfolding supersede_rows
supersede_rows_retires tenant [] rows left e = tt
supersede_rows_retires tenant (t ∷ targets) rows left e =
    let (found, rest) = supersede_rows-step tenant t targets rows left e in
    let next = update_where (still_matches tenant t) set_superseded rows in
    (
      supersede_rows-keeps tenant t.id targets next left (matched-updated tenant t rows found) rest,
      supersede_rows_retires tenant targets next left rest,
    )

pub supersede_rows-Framed :
    (tenant : String) (ids : List String) (targets : List Target) (rows left : List Meta)
    → All (λ t. In t.id ids) targets
    → supersede_rows tenant targets rows ≡ some left
    → Pairwise (IsFramed tenant ids) rows left
unfolding supersede_rows
supersede_rows-Framed tenant ids [] rows left named e =
    let same : rows ≡ left = cc in
    subst (Pairwise (IsFramed tenant ids) rows) same (Framed-refl tenant ids rows)
supersede_rows-Framed tenant ids (t ∷ targets) rows left named e =
    let (_, rest) = supersede_rows-step tenant t targets rows left e in
    let next = update_where (still_matches tenant t) set_superseded rows in
    Framed-trans tenant ids rows next left (update-Framed tenant ids t rows named.0)
      (supersede_rows-Framed tenant ids targets next left named.1 rest)

-- The audit rows that are added: one for each target, in their order.
pub audit_supersedes-targets :
    (c : Codec) (tenant actor : String) (ts : ℕ) (targets : List Target) (bodies : List (List ℕ))
    (log out : Log)
    → audit_supersedes c tenant actor ts targets bodies log ≡ ok out
    → (added : List Row) × (out.rows ≡ log.rows ++ added)
      × (map (λ r. r.target) added ≡ map (λ t. t.id) targets)
unfolding audit_supersedes append_audit next_row
audit_supersedes-targets c tenant actor ts [] [] log out h =
    let same : log ≡ out = ok_injective log out h in
    ([], ap (λ x. x.rows) (sym same) ∙ sym (append-nil log.rows), refl)
audit_supersedes-targets c tenant actor ts [] (b ∷ bodies) log out h = cc
audit_supersedes-targets c tenant actor ts (t ∷ targets) [] log out h = cc
audit_supersedes-targets c tenant actor ts (t ∷ targets) (b ∷ bodies) log out h =
    let row = next_row c log tenant actor "supersede" t.id b ts in
    let (added, rows, named) =
      audit_supersedes-targets c tenant actor ts targets bodies
        (append_audit c log tenant actor "supersede" t.id b ts) out h in
    (row ∷ added, rows ∙ append_assoc log.rows (row ∷ []) added, ap (◌∷◌ t.id) named)
