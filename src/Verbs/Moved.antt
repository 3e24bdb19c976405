-- ===== src/Verbs/Moved.antt =====
-- `transition_review` of heartwood/client.py makes legal moves only, whatever other processes do.
use heartwood_memory.Prelude.{
  ℕ, ◌≡◌, refl, sym, ap, ◌∙◌, inl, inr, Bool, true, false, Option, none, some, String, arith,
  str_eq, str_eq_iff, intersects, count_p, ==_iff, Bool-cases, Result, ok, >>=-eq-ok, ok_injective,
}
use heartwood_memory.Envelope.{
  Meta, ReviewState, proposed, accepted, rejected, superseded, disputed,
}
use heartwood_memory.Policy.{Principal}
use heartwood_memory.Review.{
  legal, review_roles, normalize_review_state, state_of_text, validate_transition,
}
use heartwood_memory.Review.Workflow.{validate_transition_iff}
use heartwood_memory.Audit.{Codec, Value}
use heartwood_memory.Audit.Chain.{append}
use heartwood_memory.Retirement.{get_meta}
use heartwood_memory.Store.{Store, update_where}
use heartwood_memory.Store.Updates.{in_state, update_review_state}
use heartwood_memory.Verbs.{state_text, owned, changed, transition_review}

-- The stored text of a state is read back as the state.
normalize-state_text : (s : Option ReviewState) → normalize_review_state (state_text s) ≡ ok s
unfolding normalize_review_state state_of_text state_text
normalize-state_text none = refl
normalize-state_text (some proposed) = refl
normalize-state_text (some accepted) = refl
normalize-state_text (some rejected) = refl
normalize-state_text (some superseded) = refl
normalize-state_text (some disputed) = refl

pub owned-ok :
    (tenant : String) (found : Option Meta) (m : Meta)
    → owned tenant found ≡ ok m
    → (found ≡ some m) × (m.tenant ≡ tenant)
unfolding owned
owned-ok tenant none m h = cc
owned-ok tenant (some row) m h = elim (Bool-cases (str_eq row.tenant tenant)) [
  | inr k ↦ absurd (ground (arith, rw k at h))
  | inl k ↦
      let same : row ≡ m = ok_injective row m (rw k at h) in
      rw (← same) (refl, (str_eq_iff row.tenant tenant).0 k)
]

pub changed-ok : (r : Bool × Store) (t : Store) → changed r ≡ ok t → (r.0 ≡ true) × (r.1 ≡ t)
changed-ok (true, s) t h = (refl, ok_injective s t h)
changed-ok (false, s) t h = cc

-- What a transition has read, and what it has done to the store `now` in which it was committed.
pub record IsMoved (c : Codec) (s now t : Store) (tenant : String) (p : Principal)
    (to : Option String) (detail : Option ReviewState → ReviewState → Value) (ts : ℕ) (id : String)
    : Type 0 where
  pub row : Meta
  pub frm : ReviewState
  pub next : ReviewState
  pub is_read : get_meta s.memories id ≡ some row
  pub is_owned : row.tenant ≡ tenant
  pub is_reviewer : intersects p.roles review_roles ≡ true
  pub is_target : normalize_review_state to ≡ ok (some next)
  pub is_legal : legal frm next ≡ true
  pub was_in_state : count_p (in_state id (some frm)) now.memories ≡ 1
  pub is_moved :
      t.memories
      ≡ update_where
          (in_state id (some frm))
          (λ r. record r { review_state = some next })
          now.memories
  pub is_logged :
      t.log ≡ append c now.log tenant p.id "review_transition" id (detail (some frm) next) ts

module _ (c : Codec) (s now t u : Store) (tenant : String) (p : Principal) (to : Option String)
    (detail : Option ReviewState → ReviewState → Value) (ts : ℕ) (id : String) where
  abbrev logged : Option ReviewState → ReviewState → Store
  logged frm next = record u {
    log = append c u.log tenant p.id "review_transition" id (detail frm next) ts;
  }

  committed-IsMoved :
      (m : Meta) (frm next : ReviewState)
      → (get_meta s.memories id ≡ some m) × (m.tenant ≡ tenant)
      → (normalize_review_state to ≡ ok (some next))
        × (intersects p.roles review_roles ≡ true)
        × (legal frm next ≡ true)
      → changed (update_review_state now id next (some frm)) ≡ ok u
      → ◌≡◌ {A = Result Store} (ok (logged (some frm) next)) (ok t)
      → IsMoved c s now t tenant p to detail ts id
  unfolding update_review_state
  committed-IsMoved m frm next (read, own) (target, role, allowed) done last =
      let (one, same) = changed-ok (update_review_state now id next (some frm)) u done in
      let end : logged (some frm) next ≡ t = ok_injective (logged (some frm) next) t last in
      let log : now.log ≡ u.log = ap (λ (x : Store). x.log) same in
      record {
        row = m;
        frm = frm;
        next = next;
        is_read = read;
        is_owned = own;
        is_reviewer = role;
        is_target = target;
        is_legal = allowed;
        was_in_state = (==_iff (count_p (in_state id (some frm)) now.memories) 1).0 one;
        is_moved = sym (ap (λ (x : Store). x.memories) same ∙ ap (λ (x : Store). x.memories) end);
        is_logged = sym (
            ap (λ l. append c l tenant p.id "review_transition" id (detail (some frm) next) ts) log
            ∙ ap (λ (x : Store). x.log) end);
      }

-- A transition that succeeds was asked for by a reviewer, for a record of the tenant, and is legal from
-- the state that one row with the id has in the store in which it is committed, whatever other
-- processes did since the record was read; it moves that row to the target, leaves every row of
-- another id or state as it is, and appends one audit row that tells of the move.
pub transition_review-IsMoved :
    (c : Codec) (meanwhile : Store → Store) (s t : Store) (tenant : String) (p : Principal)
    (to : Option String) (detail : Option ReviewState → ReviewState → Value) (ts : ℕ) (id : String)
    → transition_review c meanwhile s tenant p to detail ts id ≡ ok t
    → IsMoved c s (meanwhile s) t tenant p to detail ts id
unfolding transition_review
transition_review-IsMoved c meanwhile s t tenant p to detail ts id h =
    let (m, found, h1) = >>=-eq-ok (owned tenant (get_meta s.memories id)) _ h in
    let (next, valid, h2) =
      >>=-eq-ok (validate_transition (state_text m.review_state) to p.roles) _ h1 in
    let (u, done, h3) =
      >>=-eq-ok (changed (update_review_state (meanwhile s) id next m.review_state)) _ h2 in
    let (read, own) = owned-ok tenant (get_meta s.memories id) m found in
    let (frm, a, target, role, allowed) =
      (validate_transition_iff (state_text m.review_state) to p.roles next).0 valid in
    let known : m.review_state ≡ some frm =
      ok_injective m.review_state (some frm) (sym (normalize-state_text m.review_state) ∙ a) in
    let done' =
      ap (λ st. changed (update_review_state (meanwhile s) id next st)) (sym known) ∙ done in
    let last =
      ap (λ st. ok (logged c s (meanwhile s) t u tenant p to detail ts id st next)) (sym known)
      ∙ h3 in
    committed-IsMoved c s (meanwhile s) t u tenant p to detail ts id m frm next (read, own)
      (target, role, allowed) done' last
