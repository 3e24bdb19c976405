-- ===== src/Review/Workflow.antt =====
-- What the review workflow of heartwood/review.py allows.
use heartwood_memory.Prelude.{
  ap, sym, ◌∙◌, >>=-eq-ok, ◌≡◌, refl, ◌↔◌, inl, inr, true, Option, none, some, List, String, arith,
  intersects, ok, ◌>>=◌, Bool-cases,
}
use heartwood_memory.Envelope.{ReviewState, proposed, superseded}
use heartwood_memory.Review.{
  legal, review_roles, normalize_review_state, validate_transition, validate_supersede,
  check_target, check_transition,
}

check_transition-ok :
    (frm : Option ReviewState) (t st : ReviewState)
    → check_transition frm t ≡ ok st
    → (f : ReviewState) × (frm ≡ some f) × (legal f st ≡ true) × (t ≡ st)
unfolding check_transition
check_transition-ok none t st h = absurd (ground (arith, h))
check_transition-ok (some f) t st h = (f, refl, ground (arith, h), ground (arith, h))

check_target-ok :
    (frm to : Option ReviewState) (roles : List String) (st : ReviewState)
    → check_target frm to roles ≡ ok st
    → (f : ReviewState) × (frm ≡ some f)
      × (to ≡ some st)
      × (intersects roles review_roles ≡ true)
      × (legal f st ≡ true)
unfolding check_target
check_target-ok frm none roles st h = absurd (ground (arith, h))
check_target-ok frm (some t) roles st h = elim (Bool-cases (intersects roles review_roles)) [
  | inl e ↦
      let (f, known, allowed, same) = check_transition-ok frm t st (rw e at h) in
      (f, known, ap some same, e, allowed)
  | inr e ↦ absurd (ground (arith, h, e))
]

validate_transition-ok :
    (frm to : Option String) (roles : List String) (st : ReviewState)
    → validate_transition frm to roles ≡ ok st
    → (f : ReviewState) × (normalize_review_state frm ≡ ok (some f))
      × (normalize_review_state to ≡ ok (some st))
      × (intersects roles review_roles ≡ true)
      × (legal f st ≡ true)
unfolding validate_transition
validate_transition-ok frm to roles st h =
    let (from_state, p, h1) =
      >>=-eq-ok (normalize_review_state frm)
        (λ a. normalize_review_state to >>= λ b. check_target a b roles) h in
    let (to_state, q, h2) =
      >>=-eq-ok (normalize_review_state to) (λ b. check_target from_state b roles) h1 in
    let (f, a, b, c, d) = check_target-ok from_state to_state roles st h2 in
    (f, p ∙ ap ok a, q ∙ ap ok b, c, d)

-- A transition is accepted, with the target `st`, exactly when the stored text and the target name
-- states, the reviewer has a review role, and the table has the pair.
pub validate_transition_iff :
    (frm to : Option String) (roles : List String) (st : ReviewState)
    → (validate_transition frm to roles ≡ ok st) ↔ (
        (f : ReviewState) × (normalize_review_state frm ≡ ok (some f))
        × (normalize_review_state to ≡ ok (some st))
        × (intersects roles review_roles ≡ true)
        × (legal f st ≡ true))
unfolding validate_transition check_target check_transition
validate_transition_iff frm to roles st =
    (validate_transition-ok frm to roles st, λ (f, p, q, c, d). rw (p, q, c, d))

-- One move of a record: a reviewer's accepted transition, or a newer record that replaces it.
pub data Move (s t : ReviewState) : Type 0 where
  by_reviewer :
      (frm to : Option String) (roles : List String)
      → normalize_review_state frm ≡ ok (some s)
      → validate_transition frm to roles ≡ ok t
      → Move s t
  by_replacement : validate_supersede (some s) ≡ ok t → Move s t

pub data Moves (s : ReviewState) : ReviewState → Type 0 where
  here : Moves s s
  step : {t u : ReviewState} → Moves s t → Move t u → Moves s u

ok-injective : {A : Type 0} (a b : A) → ok a ≡ ok b → a ≡ b
ok-injective a b h = cc

some_injective : {A : Type 0} (a b : A) → some a ≡ some b → a ≡ b
some_injective a b h = cc

supersede-legal : (a b : ReviewState) → validate_supersede (some a) ≡ ok b → legal a b ≡ true
unfolding validate_supersede
supersede-legal a b k = elim (Bool-cases (legal a superseded)) [
  | inl e ↦ rw (← ok-injective superseded b (rw e at k)) e
  | inr e ↦ absurd (ground (arith, e, k))
]

Move-legal : {s t : ReviewState} → Move s t → legal s t ≡ true
Move-legal {s} {t} (by_reviewer frm to roles p h) =
    let (f, q, r, c, d) = validate_transition-ok frm to roles t h in
    let same : f ≡ s = some_injective f s (ok-injective (some f) (some s) (sym q ∙ p)) in
    rw same at d
Move-legal {s} {t} (by_replacement h) = supersede-legal s t h

no_move_from_superseded : (t : ReviewState) → ¬ (legal superseded t ≡ true)
unfolding legal
no_move_from_superseded proposed h = cc
no_move_from_superseded t h = cc

no_move_to_proposed : (s : ReviewState) → ¬ (legal s proposed ≡ true)
unfolding legal
no_move_to_proposed proposed h = cc
no_move_to_proposed s h = cc

superseded_stays : {s t : ReviewState} → s ≡ superseded → Moves s t → t ≡ superseded
superseded_stays e here = e
superseded_stays e (step {t} {u} m move) =
    absurd (no_move_from_superseded u (rw (superseded_stays e m) at (Move-legal move)))

-- A record that moves, by reviewers or by replacement, have brought to the superseded state stays
-- there, however often it is moved afterwards.
pub Moves-superseded :
    {s t u : ReviewState} → Moves s t → t ≡ superseded → Moves t u → u ≡ superseded
Moves-superseded before e after = superseded_stays e after
