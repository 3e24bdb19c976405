-- ===== src/Policy/Visible.antt =====
-- What the enforcer of heartwood/policy.py admits, against the access rules stated on their own.
use mathlib.Core.List.{Perm, perm_middle}
use mathlib.Core.List.Perm
use heartwood_memory.Prelude.{
  ◌≡◌, refl, ◌↔◌, ◌⊎◌, inl, inr, ◌≤◌, true, false, Option, none, some, List, [], ◌∷◌, ◌++◌, map,
  String, arith, All, elem, intersects, str_eq_refl, str_eq_iff, Bool-cases,
}
use heartwood_memory.Envelope.{Meta, rank, is_private, gates}
use heartwood_memory.Policy.{
  Principal, attr_get, opt_is, passes_gates, attr_missing, visible, allowed_view,
}

-- Some text stands in both lists.
abbrev pub Shares : List String → List String → Type 0
Shares xs ys = (r : String) × (elem r xs ≡ true) × (elem r ys ≡ true)

-- The access rules of a record, each on its own.
pub record MayRead (p : Principal) (row : Meta) : Type 0 where
  pub same_tenant : row.tenant ≡ p.tenant
  pub cleared : rank row.classification ≤ rank p.clearance
  pub roles : All (λ g. Shares p.roles g) (gates row.roles row.role_groups)
  pub attrs : All (λ kv. attr_get p.attrs kv.0 ≡ some kv.1) row.attrs
  pub creator : (is_private row.visibility ≡ false) ⊎ (row.created_by ≡ p.id)

Shares-cons : (x : String) (xs ys : List String) → Shares xs ys → Shares (x ∷ xs) ys
Shares-cons x xs ys (r, h, k) = (r, ground (arith, h), k)

intersects-Shares : (xs ys : List String) → intersects xs ys ≡ true → Shares xs ys
intersects-Shares [] ys h = cc
intersects-Shares (x ∷ xs) ys h = elim (Bool-cases (elem x ys)) [
  | inl e ↦ (x, rw (str_eq_refl x), e)
  | inr e ↦ Shares-cons x xs ys (intersects-Shares xs ys (rw e at h))
]

intersects_of_elem :
    (xs ys : List String) (r : String)
    → elem r xs ≡ true
    → elem r ys ≡ true
    → intersects xs ys ≡ true
intersects_of_elem [] ys r h k = cc
intersects_of_elem (x ∷ xs) ys r h k = ground (arith, str_eq_iff r x, intersects_of_elem xs ys r)

passes-Shares :
    (roles : List String) (gs : List (List String))
    → passes_gates roles gs ≡ true
    → All (λ g. Shares roles g) gs
unfolding passes_gates
passes-Shares roles [] h = tt
passes-Shares roles (g ∷ gs) h =
    (intersects-Shares roles g (ground arith), passes-Shares roles gs (ground arith))

passes_of_Shares :
    (roles : List String) (gs : List (List String))
    → All (λ g. Shares roles g) gs
    → passes_gates roles gs ≡ true
unfolding passes_gates
passes_of_Shares roles [] h = refl
passes_of_Shares roles (g ∷ gs) h =
    rw (intersects_of_elem roles g h.0.0 h.0.1 h.0.2) (passes_of_Shares roles gs h.1)

opt_is_iff : (o : Option String) (v : String) → (opt_is o v ≡ true) ↔ (o ≡ some v)
opt_is_iff none v = ((λ h. cc), λ h. cc)
opt_is_iff (some w) v = ((λ h. ground (arith, str_eq_iff w v)), λ h. ground (arith, str_eq_iff w v))

module _ (have : List (String × String)) where
  attrs_of_none :
      (req : List (String × String))
      → attr_missing have req ≡ none
      → All (λ kv. attr_get have kv.0 ≡ some kv.1) req
  unfolding attr_missing
  attrs_of_none [] h = tt
  attrs_of_none ((k, v) ∷ rest) h = elim (Bool-cases (opt_is (attr_get have k) v)) [
    | inl e ↦ ((opt_is_iff _ v).0 e, attrs_of_none rest (rw e at h))
    | inr e ↦ absurd (ground (arith, e, h))
  ]

  none_of_attrs :
      (req : List (String × String))
      → All (λ kv. attr_get have kv.0 ≡ some kv.1) req
      → attr_missing have req ≡ none
  unfolding attr_missing
  none_of_attrs [] h = refl
  none_of_attrs ((k, v) ∷ rest) h =
      rw ((opt_is_iff (attr_get have k) v).1 h.0) (none_of_attrs rest h.1)

-- The enforcer lets a principal see a row exactly when every access rule of the row holds for it:
-- the same tenant, enough clearance, a shared role with every gate, every required attribute, and
-- authorship of a private row.
pub visible-MayRead : (p : Principal) (row : Meta) → ((visible p row).0 ≡ true) ↔ MayRead p row
unfolding visible
visible-MayRead p row = (
  λ h. record {
    same_tenant = ground (arith, h, str_eq_iff row.tenant p.tenant);
    cleared = ground (arith, h);
    roles = passes-Shares p.roles (gates row.roles row.role_groups) (ground (arith, h));
    attrs = attrs_of_none p.attrs row.attrs (ground (arith, h));
    creator = ground (arith, h, str_eq_iff row.created_by p.id);
  },
  λ m. ground (
    arith,
    str_eq_iff row.tenant p.tenant,
    str_eq_iff row.created_by p.id,
    m.same_tenant,
    m.cleared,
    m.creator,
    passes_of_Shares p.roles (gates row.roles row.role_groups) m.roles,
    none_of_attrs p.attrs row.attrs m.attrs,
  ),
)

-- Of the rows a list holds, `allowed_view` returns each exactly once, on one of its two sides.
view-perm :
    (p : Principal) (rows : List Meta)
    → Perm ((allowed_view p rows).0 ++ map (λ d. d.0) (allowed_view p rows).1) rows
unfolding allowed_view
view-perm p [] = Perm.refl []
view-perm p (r ∷ rows) = elim (Bool-cases (visible p r).0) [
  | inl e ↦ rw e (Perm.cons r (view-perm p rows))
  | inr e ↦ rw e (
      Perm.trans (perm_middle (allowed_view p rows).0 (map (λ d. d.0) (allowed_view p rows).1))
        (Perm.cons r (view-perm p rows)))
]

view-MayRead : (p : Principal) (rows : List Meta) → All (MayRead p) (allowed_view p rows).0
unfolding allowed_view
view-MayRead p [] = tt
view-MayRead p (r ∷ rows) = elim (Bool-cases (visible p r).0) [
  | inl e ↦ rw e ((visible-MayRead p r).0 e, view-MayRead p rows)
  | inr e ↦ rw e (view-MayRead p rows)
]

view-denied :
    (p : Principal) (rows : List Meta)
    → All (λ d. (¬ MayRead p d.0) × (visible p d.0 ≡ (false, d.1))) (allowed_view p rows).1
unfolding allowed_view
view-denied p [] = tt
view-denied p (r ∷ rows) = elim (Bool-cases (visible p r).0) [
  | inl e ↦ rw e (view-denied p rows)
  | inr e ↦
      rw e (
        ((λ m. cc (e, (visible-MayRead p r).1 m)), λ i. (e i, (visible p r).1)),
        view-denied p rows,
      )
]

-- The enforcer splits a list of rows in two: the principal may read each row on the first side; it
-- may not read any on the second, which carries the reason of its own refusal; and the two sides
-- together hold each row as often as the list did.
pub allowed_view_partition :
    (p : Principal) (rows : List Meta)
    → All (MayRead p) (allowed_view p rows).0
      × All (λ d. (¬ MayRead p d.0) × (visible p d.0 ≡ (false, d.1))) (allowed_view p rows).1
      × Perm ((allowed_view p rows).0 ++ map (λ d. d.0) (allowed_view p rows).1) rows
allowed_view_partition p rows = (view-MayRead p rows, view-denied p rows, view-perm p rows)
