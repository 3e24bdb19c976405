-- ===== src/Retirement/Atomic.antt =====
-- `supersede` of heartwood/client.py changes every record that it names, or nothing.
use heartwood_memory.Prelude.{
  ℕ, ◌≡◌, refl, sym, subst, ◌∙◌, ap, inl, inr, true, false, Option, none, some, List, [], ◌∷◌, ◌++◌,
  String, any, map, All, In, All-In, All-of_In, ok, require, value_error, ◌>>=◌, >>=-eq-ok,
  append-nil,
}
use heartwood_memory.Envelope.{Meta}
use heartwood_memory.Policy.{Principal}
use heartwood_memory.Review.{validate_supersede}
use heartwood_memory.Audit.{Codec, Value, Row, audit_fields}
use heartwood_memory.Store.{
  Store, Target, supersede_rows, audit_supersedes, supersede_audited, superseded_store,
}
use heartwood_memory.Retirement.{
  get_meta, admitted, target_of, resolve_targets, distinct, speaks_for, superseded_targets, retire,
  retired_or_changed, supersede,
}
use heartwood_memory.Retirement.Authorized.{distinct_keeps, superseded_targets-resolve}
use heartwood_memory.Retirement.Rows.{
  is_retired, Pairwise, IsFramed, Framed-refl, supersede_rows_retires, supersede_rows-Framed,
  audit_supersedes-targets,
}

resolve_targets-ids :
    (tenant : String) (memories : List Meta) (p : Option Principal) (ids : List String)
    (targets : List Target)
    → resolve_targets tenant memories p ids ≡ ok targets
    → ids ≡ map (λ t. t.id) targets
unfolding resolve_targets
resolve_targets-ids tenant memories p [] targets h =
    let none_left : [] ≡ targets = cc in rw (← none_left) refl
resolve_targets-ids tenant memories p (id ∷ ids) targets h =
    let (m, _, a) = >>=-eq-ok (admitted tenant p (get_meta memories id)) _ h in
    let (_, _, b) = >>=-eq-ok (validate_supersede m.review_state) _ a in
    let (rest, found, last) = >>=-eq-ok (resolve_targets tenant memories p ids) _ b in
    let whole : target_of id m ∷ rest ≡ targets = cc in
    rw (← whole) (ap (◌∷◌ id) (resolve_targets-ids tenant memories p ids rest found))

All-targets :
    (P : String → Type 0) (targets : List Target)
    → All (λ t. P t.id) targets
    → All P (map (λ t. t.id) targets)
All-targets P [] h = tt
All-targets P (t ∷ targets) h = (h.0, All-targets P targets h.1)

-- What a call leaves of a store when it retires the targets, whose ids are `ids`.
pub record IsRetired (s t : Store) (tenant : String) (ids : List String) : Type 0 where
  pub is_framed : Pairwise (IsFramed tenant ids) s.memories t.memories
  pub same_edges : t.edges ≡ s.edges
  pub same_lineage : t.lineage ≡ s.lineage
  pub same_keys : t.keys ≡ s.keys
  pub same_vectors : t.vectors ≡ s.vectors
  pub is_logged :
      (added : List Row) × (t.log.rows ≡ s.log.rows ++ added) × (map (λ r. r.target) added ≡ ids)

abbrev IsDone : Store → Store → String → List Target → Type 0
IsDone s t tenant targets =
    All (λ x. any (is_retired tenant x.id) t.memories ≡ true) targets
    × IsRetired s t tenant (map (λ x. x.id) targets)

targets-In :
    (all_ids : List String) (targets : List Target)
    → ((id : String) → In id (map (λ x. x.id) targets) → In id all_ids)
    → All (λ x. In x.id all_ids) targets
targets-In all_ids [] h = tt
targets-In all_ids (t ∷ targets) h =
    (h t.id (inl refl), targets-In all_ids targets (λ id m. h id (inr m)))

superseded_store-IsDone :
    (c : Codec) (s t : Store) (tenant actor : String) (ts : ℕ) (targets : List Target)
    (bodies : List (List ℕ)) (rows : Option (List Meta))
    → supersede_rows tenant targets s.memories ≡ rows
    → (superseded_store c s tenant actor ts targets bodies rows >>= retired_or_changed) ≡ ok t
    → IsDone s t tenant targets
unfolding retired_or_changed
superseded_store-IsDone c s t tenant actor ts targets bodies none same h = cc
superseded_store-IsDone c s t tenant actor ts targets bodies (some rows) same h =
    let (out, written, result) =
      >>=-eq-ok (superseded_store c s tenant actor ts targets bodies (some rows)) retired_or_changed
        h in
    let (log, audited, pair) =
      >>=-eq-ok (audit_supersedes c tenant actor ts targets bodies s.log) _ written in
    let after : Store = record s { memories = rows; log = log } in
    let is : (true, after) ≡ out = cc in
    let stored : retired_or_changed (true, after) ≡ ok t = ap retired_or_changed is ∙ result in
    let final : after ≡ t = cc in
    subst (λ x. IsDone s x tenant targets) final
      (
        supersede_rows_retires tenant targets s.memories rows same,
        record {
          is_framed =
              supersede_rows-Framed tenant (map (λ x. x.id) targets) targets s.memories rows
                (targets-In (map (λ x. x.id) targets) targets (λ id m. m)) same;
          same_edges = refl;
          same_lineage = refl;
          same_keys = refl;
          same_vectors = refl;
          is_logged = audit_supersedes-targets c tenant actor ts targets bodies s.log log audited;
        },
      )

retire-IsDone :
    (c : Codec) (s t : Store) (tenant actor : String) (detail : Target → Value) (ts : ℕ)
    (targets : List Target)
    → retire c s tenant actor detail ts targets ≡ ok t
    → IsDone s t tenant targets
unfolding retire supersede_audited
retire-IsDone c s t tenant actor detail ts [] h =
    let same : s ≡ t = cc in
    subst (λ x. IsDone s x tenant []) same
      (
        tt,
        record {
          is_framed = Framed-refl tenant [] s.memories;
          same_edges = refl;
          same_lineage = refl;
          same_keys = refl;
          same_vectors = refl;
          is_logged = ([], sym (append-nil s.log.rows), refl);
        },
      )
retire-IsDone c s t tenant actor detail ts (x ∷ targets) h =
    superseded_store-IsDone c s t tenant actor ts (x ∷ targets)
      (map (λ y. c.dumps (audit_fields tenant actor "supersede" y.id (detail y))) (x ∷ targets))
      (supersede_rows tenant (x ∷ targets) s.memories) refl h

-- When `supersede` succeeds, then for each id that it names the tenant has a superseded row with
-- that id. Every row of the store is unchanged, or it is a row of the tenant with a named id and only
-- its review state was set; none is added, removed or moved. The audit log gains one row for each
-- named id, at the id's first place in the call, and the edges, the lineage, the keys and the vectors
-- are as they were.
pub supersede_retires :
    (c : Codec) (s t : Store) (tenant actor : String) (p : Option Principal)
    (detail : Target → Value) (ts : ℕ) (ids : List String)
    → supersede c s tenant actor p detail ts ids ≡ ok t
    → All (λ id. any (is_retired tenant id) t.memories ≡ true) ids
      × IsRetired s t tenant (distinct [] ids)
unfolding supersede
supersede_retires c s t tenant actor p detail ts ids h =
    let (_, _, after) = >>=-eq-ok (require (speaks_for p actor) value_error) _ h in
    let (targets, found, retired) =
      >>=-eq-ok (superseded_targets tenant s.memories p none false ids)
        (retire c s tenant actor detail ts) after in
    let (each, done) = retire-IsDone c s t tenant actor detail ts targets retired in
    let P : String → Type 0 = λ id. any (is_retired tenant id) t.memories ≡ true in
    let same : distinct [] ids ≡ map (λ x. x.id) targets =
      resolve_targets-ids tenant s.memories p (distinct [] ids) targets
        (superseded_targets-resolve tenant s.memories p ids targets found) in
    let named : All P (distinct [] ids) = rw same (All-targets P targets each) in
    (
      All-of_In P ids (λ id m. elim (distinct_keeps id [] ids m) [
        | inr there ↦ All-In P (distinct [] ids) id named there
        | inl seen ↦ cc
      ]),
      subst (IsRetired s t tenant) (sym same) done,
    )
