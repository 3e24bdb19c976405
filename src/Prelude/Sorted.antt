-- ===== src/Prelude/Sorted.antt =====
-- `sorted(set(xs))`: insertion into a sorted list without repetition, over a comparison.
use Prim.Native.Nat.{Ordering}
use Prim.Native.String.{String, compare}
use text.Mathlib.TextEquality.{path_by_compare}
use mathlib.Core.Path.{◌≡◌, refl}
use mathlib.Core.Logic.{◌⊎◌, inl, inr}
use mathlib.Core.List.{List, [], ◌∷◌}
use native.Mathlib.Omega.{arith}
use heartwood_memory.Prelude.Members.{In}

module _ {A : Type 0} (cmp : A → A → Ordering) where
  pub insert_sorted : A → List A → List A
  insert_sorted x [] = x ∷ []
  insert_sorted x (y ∷ ys) = elim (cmp x y) [
    | Ordering.lt ↦ x ∷ y ∷ ys
    | Ordering.eq ↦ y ∷ ys
    | Ordering.gt ↦ y ∷ insert_sorted x ys
  ]

  unfoldable pub sorted_set : List A → List A
  unfolding insert_sorted
  sorted_set [] = []
  sorted_set (x ∷ xs) = insert_sorted x (sorted_set xs)

-- The order of texts by code points, and of tuples of texts by their first difference.
abbrev pub compare_text : String → String → Ordering
compare_text = compare

unfoldable pub compare_texts : List String → List String → Ordering
compare_texts [] [] = Ordering.eq
compare_texts [] (y ∷ ys) = Ordering.lt
compare_texts (x ∷ xs) [] = Ordering.gt
compare_texts (x ∷ xs) (y ∷ ys) = elim (compare_text x y) [
  | Ordering.lt ↦ Ordering.lt
  | Ordering.eq ↦ compare_texts xs ys
  | Ordering.gt ↦ Ordering.gt
]

Ordering-cases : (o : Ordering) → (o ≡ Ordering.lt) ⊎ ((o ≡ Ordering.eq) ⊎ (o ≡ Ordering.gt))
Ordering-cases Ordering.lt = inl refl
Ordering-cases Ordering.eq = inr (inl refl)
Ordering-cases Ordering.gt = inr (inr refl)

pub compare_texts-eq : (xs ys : List String) → compare_texts xs ys ≡ Ordering.eq → xs ≡ ys
unfolding compare_texts
compare_texts-eq [] [] h = refl
compare_texts-eq [] (y ∷ ys) h = cc
compare_texts-eq (x ∷ xs) [] h = cc
compare_texts-eq (x ∷ xs) (y ∷ ys) h = elim (Ordering-cases (compare_text x y)) [
  | inl e ↦ absurd (ground (arith, e, h))
  | inr (inl e) ↦ cc (path_by_compare x y e, compare_texts-eq xs ys (ground (arith, e, h)))
  | inr (inr e) ↦ absurd (ground (arith, e, h))
]

module _ {A : Type 0} (cmp : A → A → Ordering)
    (exact : (x y : A) → cmp x y ≡ Ordering.eq → x ≡ y) where
  insert_sorted_self : (x : A) (ys : List A) → In x (insert_sorted cmp x ys)
  unfolding insert_sorted
  insert_sorted_self x [] = inl refl
  insert_sorted_self x (y ∷ ys) = elim (Ordering-cases (cmp x y)) [
    | inl e ↦ rw (e, In) (inl refl)
    | inr (inl e) ↦ rw (e, In) (inl (exact x y e))
    | inr (inr e) ↦ rw (e, In) (inr (insert_sorted_self x ys))
  ]

  insert_sorted_keeps : (x z : A) (ys : List A) → In z ys → In z (insert_sorted cmp x ys)
  unfolding insert_sorted
  insert_sorted_keeps x z (y ∷ ys) h = elim (Ordering-cases (cmp x y)) [
    | inl e ↦ rw (e, In) (inr h)
    | inr (inl e) ↦ rw (e, In) h
    | inr (inr e) ↦
        rw (e, In) (elim h [ inl k ↦ inl k | inr k ↦ inr (insert_sorted_keeps x z ys k) ])
  ]
  insert_sorted_keeps x z [] h = absurd h

  after :
      (x z y : A) (ys : List A)
      → (In z (insert_sorted cmp x ys) → (z ≡ x) ⊎ In z ys)
      → In z (y ∷ insert_sorted cmp x ys)
      → (z ≡ x) ⊎ In z (y ∷ ys)
  after x z y ys ih (inl k) = inr (inl k)
  after x z y ys ih (inr k) = elim (ih k) [ inl m ↦ inl m | inr m ↦ inr (inr m) ]

  insert_sorted_only : (x z : A) (ys : List A) → In z (insert_sorted cmp x ys) → (z ≡ x) ⊎ In z ys
  unfolding insert_sorted
  insert_sorted_only x z [] h = h
  insert_sorted_only x z (y ∷ ys) h = elim (Ordering-cases (cmp x y)) [
    | inl e ↦ rw (e, In) at h
    | inr (inl e) ↦ inr (rw (e, In) at h)
    | inr (inr e) ↦ after x z y ys (insert_sorted_only x z ys) (rw (e, In) at h)
  ]

  -- Sorting a list into a set keeps its members, and adds none.
  pub sorted_set_keeps : (z : A) (xs : List A) → In z xs → In z (sorted_set cmp xs)
  unfolding sorted_set
  sorted_set_keeps z [] h = h
  sorted_set_keeps z (x ∷ xs) (inl e) = rw e (insert_sorted_self x (sorted_set cmp xs))
  sorted_set_keeps z (x ∷ xs) (inr h) =
      insert_sorted_keeps x z (sorted_set cmp xs) (sorted_set_keeps z xs h)

  pub sorted_set_only : (z : A) (xs : List A) → In z (sorted_set cmp xs) → In z xs
  unfolding sorted_set
  sorted_set_only z [] h = h
  sorted_set_only z (x ∷ xs) h = elim (insert_sorted_only x z (sorted_set cmp xs) h) [
    | inl e ↦ inl e
    | inr k ↦ inr (sorted_set_only z xs k)
  ]
