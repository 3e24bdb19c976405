-- ===== src/Recall/View.antt =====
-- Which rows `recall` of heartwood/client.py may rank.
use heartwood_memory.Prelude.{
  ℕ, ◌≡◌, ◌↔◌, refl, inl, inr, Bool, true, false, not, ◌&&◌, any, Option, none, some, List, [], ◌∷◌,
  All, ◌||◌, arith, str_eq, str_eq_iff, In, In-filter, In-filter_only, Bool-cases, filter, ok,
  >>=-eq-ok, elem,
}
use heartwood_memory.Envelope.{
  Meta, ReviewState, proposed, accepted, rejected, superseded, disputed,
}
use heartwood_memory.Policy.{Principal, visible, allowed_view}
use heartwood_memory.Policy.Visible.{MayRead, visible-MayRead}
use heartwood_memory.Review.{hidden_by_default}
use heartwood_memory.Recall.{
  Filters, or_list, States, normalize_all, has_state, hidden_states, rejections, matches, reference,
  recall_view, valid_at,
}

allowed_view_iff :
    (p : Principal) (rows : List Meta) (m : Meta)
    → In m (allowed_view p rows).0 ↔ (In m rows × ((visible p m).0 ≡ true))
unfolding allowed_view
allowed_view_iff p [] m = ((λ h. absurd h), (λ h. absurd h.0))
allowed_view_iff p (r ∷ rows) m =
    let rest = allowed_view_iff p rows m in
    elim (Bool-cases (visible p r).0) [
      | inl seen ↦
          rw (seen, In)
            (
              (λ h. elim h [
                | inl e ↦ (inl e, rw e seen)
                | inr k ↦ (inr (rest.0 k).0, (rest.0 k).1)
              ]),
              (λ h. elim h.0 [ inl e ↦ inl e | inr k ↦ inr (rest.1 (k, h.1)) ]),
            )
      | inr unseen ↦
          rw (unseen, In)
            (
              (λ h. (inr (rest.0 h).0, (rest.0 h).1)),
              (λ h. elim h.0 [
                | inl e ↦ absurd (ground (arith, rw e at (h.1), unseen))
                | inr k ↦ rest.1 (k, h.1)
              ]),
            )
    ]

module _ (now : ℕ) (p : Principal) (f : Filters) (memories vs : List Meta) (lag : ℕ) where
  abbrev instant : ℕ
  instant = reference now f.effective_at

  -- A query that reads its filters may rank a row exactly if the row is stored, the principal may
  -- read it, and it passes the tests of the filters.
  pub recall_view_iff :
      recall_view now p f memories ≡ ok (vs, lag)
      → (included : States) × (hide : States) × (normalize_all f.include_review_states
          ≡ ok included)
        × (normalize_all f.hide_review_states ≡ ok hide)
        × ((m : Meta)
            → In m vs ↔ (
                In m memories
                × MayRead p m
                × (matches f included (hidden_states f hide) (reference now f.effective_at) m
                    ≡ true)))
  unfolding recall_view
  recall_view_iff h =
      let (included, i, rest) = >>=-eq-ok (normalize_all f.include_review_states) _ h in
      let (hide, k, last) = >>=-eq-ok (normalize_all f.hide_review_states) _ rest in
      let ours : Meta → Bool = λ m. str_eq m.tenant p.tenant in
      let test : Meta → Bool = matches f included (hidden_states f hide) instant in
      let rows = filter ours memories in
      let same : (allowed_view p (filter test rows)).0 ≡ vs = cc in
      (
        included,
        hide,
        i,
        k,
        λ m. rw (← same) (
          (λ h.
              let (kept, seen) = (allowed_view_iff p (filter test rows) m).0 h in
              let (row, passed) = In-filter_only test m rows kept in
              ((In-filter_only ours m memories row).0, (visible-MayRead p m).0 seen, passed)),
          (λ (there, may, passed). (allowed_view_iff p (filter test rows) m).1 (
            In-filter test m rows
                (In-filter ours m memories there ((str_eq_iff m.tenant p.tenant).1 may.same_tenant))
                passed,
            (visible-MayRead p m).1 may,
          )),
        ),
      )

default-hidden :
    (f : Filters) (hide : States) (s : Option ReviewState)
    → hidden_by_default s ≡ true
    → has_state s (hidden_states f hide) ≡ true
unfolding hidden_states hidden_by_default
default-hidden f hide none h = cc
default-hidden f hide (some proposed) h = cc
default-hidden f hide (some accepted) h = cc
default-hidden f hide (some rejected) h = refl
default-hidden f hide (some superseded) h = ground arith
default-hidden f hide (some disputed) h = ground arith

-- What a row that passes the filters satisfies, whatever filters a query names.
pub record IsRecallable (f : Filters) (included : States) (t : ℕ) (m : Meta) : Type 0 where
  pub is_indexed : m.indexed ≡ true
  pub is_current : f.include_expired ≡ false → valid_at m t ≡ true
  pub is_reviewed :
      hidden_by_default m.review_state ≡ true → has_state m.review_state included ≡ true
  pub is_primary : str_eq m.policy_scope "contextual-aux" ≡ true → f.include_contextual_aux ≡ true
  pub is_allowed : elem m.subject (or_list f.denied_subjects f.denied_subject_ids) ≡ false

none_of : (bs : List Bool) → any (λ b. b) bs ≡ false → All (λ b. b ≡ false) bs
none_of [] h = tt
none_of (b ∷ bs) h = (ground (arith, h), none_of bs (ground (arith, h)))

implied : (a b : Bool) → (a && not b) ≡ false → a ≡ true → b ≡ true
implied a b h k = ground (arith, h, k)

implied_not : (a b : Bool) → (not a && not b) ≡ false → a ≡ false → b ≡ true
implied_not a b h k = ground (arith, h, k)

left_false : (a b : Bool) → (a || b) ≡ false → a ≡ false
left_false a b h = ground (arith, h)

passed_and : (a b : Bool) → (not a && b) ≡ true → (a ≡ false) × (b ≡ true)
passed_and a b h = ground (arith, h)

matches-IsRecallable :
    (f : Filters) (included hide : States) (t : ℕ) (m : Meta)
    → matches f included (hidden_states f hide) t m ≡ true
    → IsRecallable f included t m
unfolding matches
matches-IsRecallable f included hide t m h =
    let hidden = hidden_states f hide in
    let (clean, indexed) =
      passed_and (any (λ b. b) (rejections f included hidden t m)) m.indexed h in
    let r = none_of (rejections f included hidden t m) clean in
    record {
      is_indexed = indexed;
      is_current = implied_not f.include_expired (valid_at m t) r.1.1.1.1.1.1.1.1.0;
      is_reviewed = λ e. implied _ _ r.0 (default-hidden f hide m.review_state e);
      is_primary = implied _ _ r.1.1.1.1.1.0;
      is_allowed = left_false _ _ r.1.1.1.1.1.1.1.0;
    }

-- A row that a query may rank is readable by the principal and indexed; it is valid at the instant
-- of the query unless expired rows are asked for; rejected, disputed and superseded rows, and
-- auxiliary ones, are among them only when the query includes them by name; and its subject is not
-- a denied one.
pub recall_view-IsRecallable :
    (now : ℕ) (p : Principal) (f : Filters) (memories vs : List Meta) (lag : ℕ) (m : Meta)
    → recall_view now p f memories ≡ ok (vs, lag)
    → In m vs
    → MayRead p m
      × ((included : States) × (normalize_all f.include_review_states ≡ ok included)
          × IsRecallable f included (reference now f.effective_at) m)
recall_view-IsRecallable now p f memories vs lag m h k =
    let (included, hide, i, _, rows) = recall_view_iff now p f memories vs lag h in
    let (there, may, passed) = (rows m).0 k in
    (
      may,
      (included, i, matches-IsRecallable f included hide (reference now f.effective_at) m passed),
    )
