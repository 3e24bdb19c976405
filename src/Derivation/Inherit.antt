-- ===== src/Derivation/Inherit.antt =====
-- A derived memory is at least as protected as each of its parents, and as its own policy asks.
use text.Mathlib.TextEquality.{path_by_compare}
use heartwood_memory.Prelude.{
  All-In, All-of_In, All-map, In_of_elem, elem_of_In, In-append_left, In-append_right, In-map,
  In-filter, filter_sound, ℕ, ◌≡◌, refl, ap, inl, inr, ◌≤◌, true, Option, none, some, List, [], ◌∷◌,
  map, String, arith, All, In, filter, sorted_set, compare_text, compare_texts, sorted_set_keeps,
  sorted_set_only, compare_texts-eq,
}
use heartwood_memory.Envelope.{
  Classification, public, internal, confidential, restricted, Policy, Meta, rank, nonempty, gates,
}
use heartwood_memory.Policy.{Principal}
use heartwood_memory.Policy.Visible.{Shares, MayRead}
use heartwood_memory.Derivation.{
  Mark, normal_group, class_of_rank, add_parent, add_parents, start_mark, derive_policy,
}

-- A mark keeps what it has collected.
record IsBelow (m n : Mark) : Type 0 where
  ranks : m.top_rank ≤ n.top_rank
  piis : m.pii ≡ true → n.pii ≡ true
  kept : (g : List String) → In g m.groups → In g n.groups

add_parent-IsBelow : (m : Mark) (id : String) (pm : Option Meta) → IsBelow m (add_parent m id pm)
unfolding add_parent
add_parent-IsBelow m id none = record { ranks = omega arith; piis = λ h. h; kept = λ g h. h }
add_parent-IsBelow m id (some pm) = record {
  ranks = omega arith;
  piis = λ h. ground (arith, h);
  kept = λ g h. In-append_right g (map normal_group (gates pm.roles pm.role_groups)) m.groups h;
}

add_parents-IsBelow :
    (get_meta : String → Option Meta) (m : Mark) (ids : List String)
    → IsBelow m (add_parents get_meta m ids)
unfolding add_parents
add_parents-IsBelow get_meta m [] = record { ranks = omega arith; piis = λ h. h; kept = λ g h. h }
add_parents-IsBelow get_meta m (id ∷ ids) =
    let one = add_parent-IsBelow m id (get_meta id) in
    let rest = add_parents-IsBelow get_meta (add_parent m id (get_meta id)) ids in
    record {
      ranks = omega (arith, one.ranks, rest.ranks);
      piis = λ h. rest.piis (one.piis h);
      kept = λ g h. rest.kept g (one.kept g h);
    }

-- What a mark says of one parent: nothing if the parent is not there.
abbrev IsCovered : Mark → Option Meta → Type 0
IsCovered m none = Unit
IsCovered m (some pm) =
    (rank pm.classification ≤ m.top_rank)
    × (pm.pii ≡ true → m.pii ≡ true)
    × ((g : List String) → In g (gates pm.roles pm.role_groups) → In (normal_group g) m.groups)

add_parent-IsCovered :
    (m : Mark) (id : String) (pm : Option Meta) → IsCovered (add_parent m id pm) pm
unfolding add_parent
add_parent-IsCovered m id none = tt
add_parent-IsCovered m id (some pm) = (
  omega arith,
  (λ h. ground (arith, h)),
  λ g h.
      In-append_left (normal_group g) (map normal_group (gates pm.roles pm.role_groups)) m.groups
        (In-map normal_group g (gates pm.roles pm.role_groups) h),
)

IsCovered-mono : {m n : Mark} (pm : Option Meta) → IsBelow m n → IsCovered m pm → IsCovered n pm
IsCovered-mono none b h = tt
IsCovered-mono (some pm) b h =
    (omega (arith, b.ranks, h.0), (λ k. b.piis (h.1 k)), λ g k. b.kept (normal_group g) (h.2 g k))

add_parents-IsCovered :
    (get_meta : String → Option Meta) (m : Mark) (ids : List String)
    → All (λ id. IsCovered (add_parents get_meta m ids) (get_meta id)) ids
unfolding add_parents
add_parents-IsCovered get_meta m [] = tt
add_parents-IsCovered get_meta m (id ∷ ids) = (
  IsCovered-mono (get_meta id) (add_parents-IsBelow get_meta (add_parent m id (get_meta id)) ids)
      (add_parent-IsCovered m id (get_meta id)),
  add_parents-IsCovered get_meta (add_parent m id (get_meta id)) ids,
)

rank-le-3 : (c : Classification) → rank c ≤ 3
rank-le-3 public = omega arith
rank-le-3 internal = omega arith
rank-le-3 confidential = omega arith
rank-le-3 restricted = omega arith

add_parent-le-3 :
    (m : Mark) (id : String) (pm : Option Meta) → m.top_rank ≤ 3 → (add_parent m id pm).top_rank ≤ 3
unfolding add_parent
add_parent-le-3 m id none h = h
add_parent-le-3 m id (some pm) h = omega (arith, rank-le-3 pm.classification)

add_parents-le-3 :
    (get_meta : String → Option Meta) (m : Mark) (ids : List String)
    → m.top_rank ≤ 3
    → (add_parents get_meta m ids).top_rank ≤ 3
unfolding add_parents
add_parents-le-3 get_meta m [] h = h
add_parents-le-3 get_meta m (id ∷ ids) h =
    add_parents-le-3 get_meta (add_parent m id (get_meta id)) ids
      (add_parent-le-3 m id (get_meta id) h)

rank-class_of_rank : (n : ℕ) → n ≤ 3 → rank (class_of_rank n) ≡ n
unfolding class_of_rank
rank-class_of_rank n h = ground arith

nonempty_of_In : {A : Type 0} (x : A) (xs : List A) → In x xs → nonempty xs ≡ true
nonempty_of_In x (y ∷ ys) h = refl
nonempty_of_In x [] h = absurd h

Shares-normal : (roles g : List String) → Shares roles (normal_group g) → Shares roles g
unfolding normal_group
Shares-normal roles g (r, h, k) = (
  r,
  h,
  elem_of_In r g (
      sorted_set_only compare_text path_by_compare r g
        (In_of_elem r (sorted_set compare_text g) k)),
)

gates-nonempty :
    (roles : List String) (gs : List (List String)) (g : List String)
    → In g (gates roles gs)
    → nonempty g ≡ true
unfolding gates
gates-nonempty [] gs g h =
    All-In (λ k. nonempty k ≡ true) (filter nonempty gs) g (filter_sound nonempty gs) h
gates-nonempty (r ∷ rs) gs g (inl e) = rw e
gates-nonempty (r ∷ rs) gs g (inr h) =
    All-In (λ k. nonempty k ≡ true) (filter nonempty gs) g (filter_sound nonempty gs) h

normal_group-nonempty : (g : List String) → nonempty g ≡ true → nonempty (normal_group g) ≡ true
unfolding normal_group
normal_group-nonempty [] h = cc
normal_group-nonempty (x ∷ xs) h =
    nonempty_of_In x (sorted_set compare_text (x ∷ xs))
      (sorted_set_keeps compare_text path_by_compare x (x ∷ xs) (inl refl))

-- A reader who passes the gates of a mark passes every gate that the mark covers.
covered-gate :
    (roles : List String) (groups : List (List String)) (g : List String)
    → All (λ k. Shares roles k) (gates [] (sorted_set compare_texts groups))
    → nonempty g ≡ true
    → In (normal_group g) groups
    → Shares roles g
unfolding gates
covered-gate roles groups g passed n h =
    let sorted = sorted_set compare_texts groups in
    Shares-normal roles g (
      All-In (λ k. Shares roles k) (filter nonempty sorted) (normal_group g) passed
        (In-filter nonempty (normal_group g) sorted
          (sorted_set_keeps compare_texts compare_texts-eq (normal_group g) groups h)
          (normal_group-nonempty g n)))

-- What a reader of a derived memory must be cleared for, parent by parent: its classification and
-- all of its role gates. A parent that is not stored asks for nothing.
abbrev pub IsClearedFor : Principal → Option Meta → Type 0
IsClearedFor p none = Unit
IsClearedFor p (some pm) =
    (rank pm.classification ≤ rank p.clearance)
    × All (λ g. Shares p.roles g) (gates pm.roles pm.role_groups)

cleared_by_mark :
    (reader : Principal) (m : Mark) (pm : Option Meta)
    → m.top_rank ≤ rank reader.clearance
    → All (λ k. Shares reader.roles k) (gates [] (sorted_set compare_texts m.groups))
    → IsCovered m pm
    → IsClearedFor reader pm
cleared_by_mark reader m none r g c = tt
cleared_by_mark reader m (some pm) r g c = (
  omega (arith, c.0, r),
  All-of_In (λ k. Shares reader.roles k) (gates pm.roles pm.role_groups)
      λ k h.
        covered-gate reader.roles m.groups k g (gates-nonempty pm.roles pm.role_groups k h)
          (c.2 k h),
)

-- A reader who may read a row that carries the derived policy is cleared for every parent of it
-- that was stored: for its classification and for each of its role gates.
pub derive_policy-IsClearedFor :
    (get_meta : String → Option Meta) (policy : Policy) (ids : List String) (reader : Principal)
    (row : Meta)
    → row.classification ≡ (derive_policy get_meta policy ids).0.classification
    → row.roles ≡ (derive_policy get_meta policy ids).0.roles
    → row.role_groups ≡ (derive_policy get_meta policy ids).0.role_groups
    → MayRead reader row
    → All (λ id. IsClearedFor reader (get_meta id)) ids
unfolding derive_policy
derive_policy-IsClearedFor get_meta policy [] reader row c r g may = tt
derive_policy-IsClearedFor get_meta policy (id ∷ ids) reader row c r g may =
    let m = add_parents get_meta (start_mark policy) (id ∷ ids) in
    let low : m.top_rank ≤ 3 =
      add_parents-le-3 get_meta (start_mark policy) (id ∷ ids) (rank-le-3 policy.classification) in
    let top : m.top_rank ≤ rank reader.clearance =
      omega (arith, rank-class_of_rank m.top_rank low, ap rank c, may.cleared) in
    All-map (λ k. IsCovered m (get_meta k)) (λ k. IsClearedFor reader (get_meta k)) (id ∷ ids)
      (λ k covered. cleared_by_mark reader m (get_meta k) top (rw (r, g) at may.roles) covered)
      (add_parents-IsCovered get_meta (start_mark policy) (id ∷ ids))
