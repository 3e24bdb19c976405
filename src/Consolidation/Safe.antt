-- ===== src/Consolidation/Safe.antt =====
-- What a cluster that heartwood/consolidation.py may merge looks like.
use mathlib.Core.List.{Perm}
use mathlib.Core.List.Perm
use Prim.Native.Nat.{Ordering}
use heartwood_memory.Prelude.{
  ℕ, ◌-◌, ◌≤◌, ◌<◌, ◌≡◌, refl, subst, true, false, ◌||◌, List, [], ◌∷◌, String, arith, str_eq,
  str_eq_iff, all, map, length, ltb, All, compare_text, compare_texts,
}
use heartwood_memory.Envelope.{Meta, rank, is_pinned, Stamp, absent, unparseable, at}
use heartwood_memory.Review.{hidden_by_default}
use heartwood_memory.Recall.{starts_by, ends_after, valid_at}
use heartwood_memory.Consolidation.{
  is_unreadable, placed, insert_before, sorted, texts_eq, groups_eq, is_currently_valid,
  is_approved, is_human_approved, is_generated, is_accepted, stale_age, is_member_consolidatable,
  same_envelope, has_one_value, same_policy_envelope, is_safe_consolidation_cluster,
}

-- A stored time that is missing, or can be read and has come.
pub data HasCome (now : ℕ) : Stamp → Type 0 where
  open_start : HasCome now absent
  has_come : (t : ℕ) → t ≤ now → HasCome now (at t)

-- A stored time that is missing, or can be read and is still ahead.
pub data IsAhead (now : ℕ) : Stamp → Type 0 where
  open_end : IsAhead now absent
  is_ahead : (t : ℕ) → now < t → IsAhead now (at t)

-- A record that may be merged at a time.
pub record IsMergeable (now : ℕ) (m : Meta) : Type 0 where
  pub is_loose : is_pinned m.retention ≡ false
  pub has_begun : HasCome now m.valid_from
  pub has_not_ended : IsAhead now m.valid_until
  pub is_unlocked : (is_approved m.epistemic || is_human_approved m.truth_status) ≡ false
  pub is_shown : hidden_by_default m.review_state ≡ false
  pub is_reviewed : is_generated m.epistemic ≡ true → is_accepted m.review_state ≡ true
  pub is_impersonal : m.pii ≡ false
  pub is_stale : stale_age ≤ now - m.created_at

start-HasCome :
    (now : ℕ) (b : Stamp) → is_unreadable b ≡ false → starts_by b now ≡ true → HasCome now b
start-HasCome now absent readable h = open_start
start-HasCome now unparseable readable h = cc
start-HasCome now (at t) readable h = has_come t (ground (arith, h))

end-IsAhead :
    (now : ℕ) (b : Stamp) → is_unreadable b ≡ false → ends_after b now ≡ true → IsAhead now b
end-IsAhead now absent readable h = open_end
end-IsAhead now unparseable readable h = cc
end-IsAhead now (at t) readable h = is_ahead t (ground (arith, h))

-- A record that is valid now has two bounds that can be read, one on each side of now.
is_currently_valid_lem :
    (m : Meta) (now : ℕ)
    → is_currently_valid m now ≡ true
    → HasCome now m.valid_from × IsAhead now m.valid_until
unfolding is_currently_valid valid_at
is_currently_valid_lem m now h = (
  start-HasCome now m.valid_from (ground (arith, h)) (ground (arith, h)),
  end-IsAhead now m.valid_until (ground (arith, h)) (ground (arith, h)),
)

member-IsMergeable :
    (now : ℕ) (m : Meta) → is_member_consolidatable m now ≡ true → IsMergeable now m
unfolding is_member_consolidatable
member-IsMergeable now m h =
    let (begun, going) = is_currently_valid_lem m now (ground (arith, h)) in
    record {
      is_loose = ground (arith, h);
      has_begun = begun;
      has_not_ended = going;
      is_unlocked = ground (arith, h);
      is_shown = ground (arith, h);
      is_reviewed = λ e. ground (arith, h, e);
      is_impersonal = ground (arith, h);
      is_stale = ground (arith, h);
    }

all-IsMergeable :
    (now : ℕ) (members : List Meta)
    → all (λ m. is_member_consolidatable m now) members ≡ true
    → All (IsMergeable now) members
all-IsMergeable now [] h = tt
all-IsMergeable now (m ∷ members) h =
    (member-IsMergeable now m (ground (arith, h)), all-IsMergeable now members (ground (arith, h)))

-- The tests of a cluster, each on its own.
cluster-passes :
    (m : Meta) (ms : List Meta) (now : ℕ)
    → is_safe_consolidation_cluster (m ∷ ms) now ≡ true
    → (ltb (length (m ∷ ms)) 3 ≡ false)
      × (has_one_value str_eq (map (λ x. x.tenant) (m ∷ ms)) ≡ true)
      × (has_one_value str_eq (map (λ x. x.subject) (m ∷ ms)) ≡ true)
      × (same_policy_envelope (m ∷ ms) ≡ true)
      × (all (λ x. is_member_consolidatable x now) (m ∷ ms) ≡ true)
unfolding is_safe_consolidation_cluster
cluster-passes m ms now h = ground (arith, h)

texts-same :
    (t : String) (f : Meta → String) (ms : List Meta)
    → all (str_eq t) (map f ms) ≡ true
    → All (λ n. f n ≡ t) ms
texts-same t f [] h = tt
texts-same t f (n ∷ ms) h =
    (ground (arith, h, str_eq_iff t (f n)), texts-same t f ms (ground (arith, h)))

placed-Perm {ℓ} :
    {A : Type ℓ} (x y : A) (ys rest : List A) (o : Ordering)
    → Perm (x ∷ ys) rest
    → Perm (x ∷ y ∷ ys) (placed x y ys rest o)
placed-Perm x y ys rest Ordering.lt p = Perm.refl (x ∷ y ∷ ys)
placed-Perm x y ys rest Ordering.eq p = Perm.refl (x ∷ y ∷ ys)
placed-Perm x y ys rest Ordering.gt p = Perm.trans (Perm.swap y x ys) (Perm.cons y p)

insert_before-Perm {ℓ} :
    {A : Type ℓ} (cmp : A → A → Ordering) (x : A) (ys : List A)
    → Perm (x ∷ ys) (insert_before cmp x ys)
unfolding insert_before
insert_before-Perm cmp x [] = Perm.refl (x ∷ [])
insert_before-Perm cmp x (y ∷ ys) =
    placed-Perm x y ys (insert_before cmp x ys) (cmp x y) (insert_before-Perm cmp x ys)

-- Sorting keeps the elements of a list, each as often as it occurs.
sorted-Perm {ℓ} : {A : Type ℓ} (cmp : A → A → Ordering) (xs : List A) → Perm xs (sorted cmp xs)
unfolding sorted
sorted-Perm cmp [] = Perm.refl []
sorted-Perm cmp (x ∷ xs) =
    Perm.trans (Perm.cons x (sorted-Perm cmp xs)) (insert_before-Perm cmp x (sorted cmp xs))

-- Two lists that sort to one list differ in order only.
same_sorted-Perm {ℓ} :
    {A : Type ℓ} (cmp : A → A → Ordering) (xs ys : List A)
    → sorted cmp xs ≡ sorted cmp ys
    → Perm xs ys
same_sorted-Perm cmp xs ys h =
    Perm.trans (subst (Perm xs) h (sorted-Perm cmp xs)) (Perm.symm (sorted-Perm cmp ys))

texts_eq-eq : (xs ys : List String) → texts_eq xs ys ≡ true → xs ≡ ys
texts_eq-eq [] [] h = refl
texts_eq-eq [] (y ∷ ys) h = cc
texts_eq-eq (x ∷ xs) [] h = cc
texts_eq-eq (x ∷ xs) (y ∷ ys) h = ground (arith, h, str_eq_iff x y, texts_eq-eq xs ys)

groups_eq-eq : (xs ys : List (List String)) → groups_eq xs ys ≡ true → xs ≡ ys
groups_eq-eq [] [] h = refl
groups_eq-eq [] (y ∷ ys) h = cc
groups_eq-eq (x ∷ xs) [] h = cc
groups_eq-eq (x ∷ xs) (y ∷ ys) h = ground (arith, h, texts_eq-eq x y, groups_eq-eq xs ys)

-- Two records are under one policy: one classification, and the same roles and role groups.
pub record IsUnderPolicyOf (m n : Meta) : Type 0 where
  pub same_classification : rank n.classification ≡ rank m.classification
  pub same_roles : Perm m.roles n.roles
  pub same_groups : Perm m.role_groups n.role_groups

same_envelope-IsUnderPolicyOf : (m n : Meta) → same_envelope m n ≡ true → IsUnderPolicyOf m n
unfolding same_envelope
same_envelope-IsUnderPolicyOf m n h = record {
  same_classification = ground (arith, h);
  same_roles =
      same_sorted-Perm compare_text m.roles n.roles (
        texts_eq-eq (sorted compare_text m.roles) (sorted compare_text n.roles)
          (ground (arith, h)));
  same_groups = same_sorted-Perm compare_texts m.role_groups n.role_groups (
      groups_eq-eq (sorted compare_texts m.role_groups) (sorted compare_texts n.role_groups)
        (ground (arith, h)));
}

envelopes-same :
    (m : Meta) (ms : List Meta) → all (same_envelope m) ms ≡ true → All (IsUnderPolicyOf m) ms
envelopes-same m [] h = tt
envelopes-same m (n ∷ ms) h =
    (same_envelope-IsUnderPolicyOf m n (ground (arith, h)), envelopes-same m ms (ground (arith, h)))

-- A cluster that may be merged has at least three records, all of one tenant, one subject and one
-- classification, with the same roles and the same role groups up to their order. Each of them is
-- unpinned, free of personal data and at least ninety days old; it is neither approved nor hidden by
-- the review workflow, and is accepted if a model wrote it. Each of its two times of validity is
-- missing or can be read, the first has come and the second is still ahead.
pub is_safe_consolidation_cluster-IsMergeable :
    (m : Meta) (ms : List Meta) (now : ℕ)
    → is_safe_consolidation_cluster (m ∷ ms) now ≡ true
    → (3 ≤ length (m ∷ ms))
      × All (λ n. n.tenant ≡ m.tenant) ms
      × All (λ n. n.subject ≡ m.subject) ms
      × All (IsUnderPolicyOf m) ms
      × All (IsMergeable now) (m ∷ ms)
unfolding has_one_value same_policy_envelope
is_safe_consolidation_cluster-IsMergeable m ms now h =
    let (many, tenants, subjects, envelopes, members) = cluster-passes m ms now h in
    (
      ground (arith, many),
      texts-same m.tenant (λ x. x.tenant) ms tenants,
      texts-same m.subject (λ x. x.subject) ms subjects,
      envelopes-same m ms envelopes,
      all-IsMergeable now (m ∷ ms) members,
    )
