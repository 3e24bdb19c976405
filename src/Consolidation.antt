-- ===== src/Consolidation.antt =====
-- heartwood/consolidation.py: which records a consolidation may merge. Times are seconds.
pub mod Safe
use Prim.Native.Nat.{Ordering}
use heartwood_memory.Prelude.{
  ℕ, ◌-◌, ◌*◌, Bool, true, false, not, ◌&&◌, ◌||◌, ◌==◌, ltb, Option, none, some, List, [], ◌∷◌,
  String, str_eq, all, any, map, length, compare_text, compare_texts, if◌then◌else◌,
}
use heartwood_memory.Envelope.{
  Meta, rank, is_pinned, Stamp, absent, unparseable, at, Epistemic, approved_canonical,
  model_generated, TruthStatus, human_approved, ReviewState, accepted,
}
use heartwood_memory.Review.{hidden_by_default}
use heartwood_memory.Recall.{valid_at}

abbrev pub is_unreadable : Stamp → Bool
is_unreadable unparseable = true
is_unreadable _ = false

-- `is_currently_valid`: a bound that cannot be parsed makes the record invalid.
unfoldable pub is_currently_valid : Meta → ℕ → Bool
unfolding valid_at
is_currently_valid m now =
    if is_unreadable m.valid_from || is_unreadable m.valid_until then false else valid_at m now

-- `LOCKED_EPISTEMIC`
abbrev pub is_approved : Epistemic → Bool
is_approved approved_canonical = true
is_approved _ = false

-- `LOCKED_TRUTH`
abbrev pub is_human_approved : TruthStatus → Bool
is_human_approved human_approved = true
is_human_approved _ = false

abbrev pub is_generated : Epistemic → Bool
is_generated model_generated = true
is_generated _ = false

abbrev pub is_accepted : Option ReviewState → Bool
is_accepted (some accepted) = true
is_accepted _ = false

abbrev pub stale_age : ℕ
stale_age = 90 * 86400

-- The scopes that are exempt are an empty set.
unfoldable pub is_member_consolidatable : Meta → ℕ → Bool
unfolding is_currently_valid hidden_by_default
is_member_consolidatable m now =
    if is_pinned m.retention
    then false
    else if not (is_currently_valid m now)
    then false
    else if is_approved m.epistemic
    then false
    else if is_human_approved m.truth_status
    then false
    else if hidden_by_default m.review_state
    then false
    else if is_generated m.epistemic && not (is_accepted m.review_state)
    then false
    else if m.pii
    then false
    else not (ltb (now - m.created_at) stale_age)

abbrev pub placed {ℓ} : {A : Type ℓ} → A → A → List A → List A → Ordering → List A
placed x y ys rest Ordering.gt = y ∷ rest
placed x y ys rest _ = x ∷ y ∷ ys

-- `sorted`, which keeps repetitions.
unfoldable pub insert_before {ℓ} : {A : Type ℓ} → (A → A → Ordering) → A → List A → List A
insert_before cmp x [] = x ∷ []
insert_before cmp x (y ∷ ys) = placed x y ys (insert_before cmp x ys) (cmp x y)

unfoldable pub sorted {ℓ} : {A : Type ℓ} → (A → A → Ordering) → List A → List A
unfolding insert_before
sorted cmp [] = []
sorted cmp (x ∷ xs) = insert_before cmp x (sorted cmp xs)

abbrev pub texts_eq : List String → List String → Bool
texts_eq [] [] = true
texts_eq (x ∷ xs) (y ∷ ys) = str_eq x y && texts_eq xs ys
texts_eq _ _ = false

abbrev pub groups_eq : List (List String) → List (List String) → Bool
groups_eq [] [] = true
groups_eq (x ∷ xs) (y ∷ ys) = texts_eq x y && groups_eq xs ys
groups_eq _ _ = false

-- Whether two records have one key in `_same_policy_envelope`.
unfoldable pub same_envelope : Meta → Meta → Bool
unfolding sorted
same_envelope m n =
    (rank m.classification == rank n.classification)
    && (texts_eq (sorted compare_text m.roles) (sorted compare_text n.roles)
        && groups_eq (sorted compare_texts m.role_groups) (sorted compare_texts n.role_groups))

-- `len({key(x) for x in xs}) == 1`, for the equality of keys.
unfoldable pub has_one_value {ℓ} : {A : Type ℓ} → (A → A → Bool) → List A → Bool
has_one_value same [] = false
has_one_value same (x ∷ xs) = all (same x) xs

-- `_same_policy_envelope`
unfoldable pub same_policy_envelope : List Meta → Bool
unfolding has_one_value same_envelope
same_policy_envelope members = has_one_value same_envelope members

unfoldable pub is_safety_redundant_set : List Meta → Bool
is_safety_redundant_set members =
    any
      (λ m. is_pinned m.retention || (is_approved m.epistemic || is_human_approved m.truth_status))
      members

unfoldable pub is_safe_consolidation_cluster : List Meta → ℕ → Bool
unfolding has_one_value is_safety_redundant_set same_policy_envelope is_member_consolidatable
is_safe_consolidation_cluster members now =
    if ltb (length members) 3
    then false
    else if not (has_one_value str_eq (map (λ m. m.tenant) members))
    then false
    else if not (has_one_value str_eq (map (λ m. m.subject) members))
    then false
    else if is_safety_redundant_set members
    then false
    else if not (same_policy_envelope members)
    then false
    else all (λ m. is_member_consolidatable m now) members
