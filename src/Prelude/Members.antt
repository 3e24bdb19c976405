-- ===== src/Prelude/Members.antt =====
-- Membership in a list, as a type that computes.
use mathlib.Core.Path.{◌≡◌, refl}
use mathlib.Core.Logic.{◌⊎◌, inl, inr}
use mathlib.Core.Bool.{Bool, true}
use mathlib.Core.List.{List, [], ◌∷◌, ◌++◌, map}
use Prim.Native.String.{String}
use native.Mathlib.Omega.{arith}
use heartwood_memory.Prelude.Tests.{Bool-cases}
use heartwood_memory.Prelude.Lists.{All, filter}
use heartwood_memory.Prelude.Text.{elem, str_eq_iff}

-- `x` stands in the list.
abbrev pub In : {A : Type 0} → A → List A → Type 0
In x [] = ⊥
In x (y ∷ ys) = (x ≡ y) ⊎ In x ys

pub In_of_elem : (r : String) (xs : List String) → elem r xs ≡ true → In r xs
In_of_elem r [] h = absurd (ground (arith, h))
In_of_elem r (x ∷ xs) h = elim (Bool-cases (elem r xs)) [
  | inl e ↦ inr (In_of_elem r xs e)
  | inr e ↦ inl (ground (arith, h, e, str_eq_iff r x))
]

pub elem_of_In : (r : String) (xs : List String) → In r xs → elem r xs ≡ true
elem_of_In r [] h = absurd h
elem_of_In r (x ∷ xs) (inl e) = ground (arith, str_eq_iff r x)
elem_of_In r (x ∷ xs) (inr h) = ground (arith, elem_of_In r xs h)

pub All-In : {A : Type 0} (P : A → Type 0) (xs : List A) (x : A) → All P xs → In x xs → P x
All-In P (y ∷ ys) x h (inl e) = rw e h.0
All-In P (y ∷ ys) x h (inr k) = All-In P ys x h.1 k
All-In P [] x h k = absurd k

pub All-of_In : {A : Type 0} (P : A → Type 0) (xs : List A) → ((x : A) → In x xs → P x) → All P xs
All-of_In P [] h = tt
All-of_In P (y ∷ ys) h = (h y (inl refl), All-of_In P ys (λ x k. h x (inr k)))

pub In-append_left : {A : Type 0} (x : A) (xs ys : List A) → In x xs → In x (xs ++ ys)
In-append_left x (y ∷ xs) ys (inl e) = inl e
In-append_left x (y ∷ xs) ys (inr h) = inr (In-append_left x xs ys h)
In-append_left x [] ys h = absurd h

pub In-append_right : {A : Type 0} (x : A) (xs ys : List A) → In x ys → In x (xs ++ ys)
In-append_right x [] ys h = h
In-append_right x (y ∷ xs) ys h = inr (In-append_right x xs ys h)

pub In-map : {A B : Type 0} (f : A → B) (x : A) (xs : List A) → In x xs → In (f x) (map f xs)
In-map f x (y ∷ ys) (inl e) = inl (ap' e)
  where
    ap' : x ≡ y → f x ≡ f y
    ap' p = cc
In-map f x (y ∷ ys) (inr h) = inr (In-map f x ys h)
In-map f x [] h = absurd h

pub All-map :
    {A : Type 0} (P Q : A → Type 0) (xs : List A) → ((x : A) → P x → Q x) → All P xs → All Q xs
All-map P Q [] f h = tt
All-map P Q (x ∷ xs) f h = (f x h.0, All-map P Q xs f h.1)

pub In-filter :
    {A : Type 0} (p : A → Bool) (x : A) (xs : List A) → In x xs → p x ≡ true → In x (filter p xs)
In-filter p x [] h e = absurd h
In-filter p x (y ∷ ys) (inl q) e = rw (← q, e, In) (inl refl)
In-filter p x (y ∷ ys) (inr h) e = elim (Bool-cases (p y)) [
  | inl k ↦ rw (k, In) (inr (In-filter p x ys h e))
  | inr k ↦ rw (k, In) (In-filter p x ys h e)
]

pub filter_sound : {A : Type 0} (p : A → Bool) (xs : List A) → All (λ x. p x ≡ true) (filter p xs)
filter_sound p [] = tt
filter_sound p (x ∷ xs) = elim (Bool-cases (p x)) [
  | inl k ↦ rw (k, All) (k, filter_sound p xs)
  | inr k ↦ rw (k, All) (filter_sound p xs)
]

pub In-filter_only :
    {A : Type 0} (p : A → Bool) (x : A) (xs : List A) → In x (filter p xs) → In x xs × (p x ≡ true)
In-filter_only p x [] h = absurd h
In-filter_only p x (y ∷ ys) h = elim (Bool-cases (p y)) [
  | inr k ↦ let (m, q) = In-filter_only p x ys (rw (k, In) at h) in (inr m, q)
  | inl k ↦ elim (rw (k, In) at h) [
    | inl e ↦ (inl e, rw e k)
    | inr m ↦ let (m', q) = In-filter_only p x ys m in (inr m', q)
  ]
]
