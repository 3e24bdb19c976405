-- ===== src/Store/Purge/Descendants.antt =====
-- `descendants` of heartwood/store.py against its specification.
use heartwood_memory.Prelude.{
  ℕ, zero, suc, ◌+◌, ◌≤◌, ◌≡◌, ◌↔◌, refl, inl, inr, true, false, ◌&&◌, ◌||◌, List, [], ◌∷◌, String,
  arith, str_eq, str_eq_iff, elem, elem_of_In, In_of_elem, In, All, All-In, All-of_In, Bool-cases,
  length,
}
use heartwood_memory.Store.{Edge}
use heartwood_memory.Store.Purge.{Walk, push_children, walk, descendants}
use heartwood_memory.Store.Purge.Closure.{
  Derived, seed, step, is_new, missing, push_seen, push_frontier, push_new, push_all, push_measure,
}

-- The seen ones are the seeds and the output, and the output has no seed.
abbrev Split : List String → List String → List String → String → Type 0
Split seeds seen out x =
    (elem x seen ≡ (elem x seeds || elem x out)) × ((elem x seeds && elem x out) ≡ false)

Split-grown :
    (node : String) (e : Edge) (seeds seen out : List String) (x : String)
    → is_new node seen e ≡ true
    → Split seeds seen out x
    → Split seeds seen out e.child
    → Split seeds (e.child ∷ seen) (e.child ∷ out) x
Split-grown node e seeds seen out x k hx hc = elim (Bool-cases (str_eq x e.child)) [
  | inl same ↦
      let fresh : elem x seeds ≡ false =
        rw ((str_eq_iff x e.child).0 same) (ground (arith, k, hc)) in
      ground (arith, same, fresh)
  | inr diff ↦ ground (arith, k, hx, hc, diff)
]

module _ (node : String) where
  -- What was pushed is a child of the node.
  push_sound :
      (P : String → Type 0) (edges : List Edge) (seen frontier out : List String)
      → ((e : Edge) → In e edges → str_eq e.parent node ≡ true → P e.child)
      → All P seen
      → All P frontier
      → let w = push_children node edges (seen, frontier, out) in All P w.0 × All P w.1
  unfolding push_children
  push_sound P [] seen frontier out good h f = (h, f)
  push_sound P (e ∷ edges) seen frontier out good h f = elim (Bool-cases (is_new node seen e)) [
    | inr k ↦ rw k (push_sound P edges seen frontier out (λ d m. good d (inr m)) h f)
    | inl k ↦
        let new : P e.child = good e (inl refl) (ground (arith, k)) in
        rw k (
          push_sound P edges (e.child ∷ seen) (e.child ∷ frontier) (e.child ∷ out)
            (λ d m. good d (inr m)) (new, h) (new, f))
  ]

  push-Split :
      (seeds : List String) (edges : List Edge) (seen frontier out : List String)
      → ((x : String) → Split seeds seen out x)
      → (x : String)
      → let w = push_children node edges (seen, frontier, out) in Split seeds w.0 w.2 x
  unfolding push_children
  push-Split seeds [] seen frontier out h x = h x
  push-Split seeds (e ∷ edges) seen frontier out h x = elim (Bool-cases (is_new node seen e)) [
    | inr k ↦ rw (k, Split) (push-Split seeds edges seen frontier out h x)
    | inl k ↦
        rw (k, Split)
          (push-Split seeds edges (e.child ∷ seen) (e.child ∷ frontier) (e.child ∷ out)
            (λ y. Split-grown node e seeds seen out y k (h y) (h e.child)) x)
  ]

abbrev Closed : List String → List String → Edge → Type 0
Closed seen frontier e =
    elem e.parent seen ≡ true → (elem e.parent frontier || elem e.child seen) ≡ true

-- The invariant of the loop.
abbrev Invariant : List Edge → List String → Walk → Type 0
Invariant edges seeds (seen, frontier, out) =
    ((e : Edge) → In e edges → Closed seen frontier e)
    × All (Derived edges seeds) seen
    × All (Derived edges seeds) frontier
    × ((x : String) → Split seeds seen out x)

module _ (edges : List Edge) (seeds : List String) where
  push-Closed :
      (node : String) (seen frontier out : List String)
      → ((e : Edge) → In e edges → Closed seen (node ∷ frontier) e)
      → (e : Edge) → In e edges
      → let w = push_children node edges (seen, frontier, out) in Closed w.0 w.1 e
  push-Closed node seen frontier out h e m p =
      let new = push_new node edges seen frontier out e.parent p in
      let front = push_frontier node edges seen frontier out e.parent in
      let child = push_seen node edges seen frontier out e.child in
      ground (arith, new, front, child, h e m, push_all node edges seen frontier out e m)

  push-Invariant :
      (node : String) (seen frontier out : List String)
      → Invariant edges seeds (seen, node ∷ frontier, out)
      → Invariant edges seeds (push_children node edges (seen, frontier, out))
  push-Invariant node seen frontier out (closed, derived, (first, front), split) =
      let good : (e : Edge)
          → In e edges
          → str_eq e.parent node ≡ true
          → Derived edges seeds e.child =
        λ e m p. step e m (rw ((str_eq_iff e.parent node).0 p) first) in
      let (d, f) =
        push_sound node (Derived edges seeds) edges seen frontier out good derived front in
      (
        push-Closed node seen frontier out closed,
        d,
        f,
        push-Split node seeds edges seen frontier out split,
      )

  -- With fuel for what is on the frontier and what is still missing, the loop ends.
  walk_done :
      (n : ℕ) (seen frontier out : List String)
      → Invariant edges seeds (seen, frontier, out)
      → length frontier + missing edges seen ≤ n
      → let w = walk n edges (seen, frontier, out) in (w.1 ≡ []) × Invariant edges seeds w
  unfolding walk
  walk_done zero seen [] out h le = (refl, h)
  walk_done zero seen (x ∷ frontier) out h le = absurd (omega (arith, le))
  walk_done (suc n) seen [] out h le = (refl, h)
  walk_done (suc n) seen (x ∷ frontier) out h le =
      let w = push_children x edges (seen, frontier, out) in
      let less = push_measure x edges edges seen frontier out (λ e m. m) in
      walk_done n w.0 w.1 w.2 (push-Invariant x seen frontier out h) (omega (arith, le, less))

missing-length : (edges : List Edge) (seen : List String) → missing edges seen ≤ length edges
missing-length [] seen = omega arith
missing-length (e ∷ edges) seen = ground (arith, missing-length edges seen)

module _ (edges : List Edge) (seeds : List String) where
  start-Invariant : Invariant edges seeds (seeds, seeds, [])
  start-Invariant = (
    (λ e m p. ground (arith, p)),
    All-of_In (Derived edges seeds) seeds seed,
    All-of_In (Derived edges seeds) seeds seed,
    (λ x. ground arith),
  )

  -- Whatever is derived from the seeds is seen at the end.
  Closed-Derived :
      (seen : List String)
      → ((e : Edge) → In e edges → Closed seen [] e)
      → ((x : String) → In x seeds → elem x seen ≡ true)
      → (x : String) → Derived edges seeds x
      → elem x seen ≡ true
  Closed-Derived seen closed start x (seed _ h) = start x h
  Closed-Derived seen closed start x (step e h d) =
      ground (arith, closed e h, Closed-Derived seen closed start e.parent d)

  -- `descendants` returns the memories that are derived from the seeds along any number of
  -- provenance edges, cyclic ones included, and are no seeds themselves: it finds each of them and
  -- nothing else.
  pub descendants_iff :
      (x : String)
      → In x (descendants edges seeds) ↔ (Derived edges seeds x × (elem x seeds ≡ false))
  unfolding descendants
  descendants_iff x =
      let w = walk (length seeds + length edges) edges (seeds, seeds, []) in
      let (empty, (closed, derived, front, split)) =
        walk_done edges seeds (length seeds + length edges) seeds seeds [] start-Invariant
          (omega (arith, missing-length edges seeds)) in
      let ended : (e : Edge) → In e edges → Closed w.0 [] e = λ e m p.
        let none : elem e.parent w.1 ≡ false = rw empty refl in
        ground (arith, none, closed e m p) in
      let start : (y : String) → In y seeds → elem y w.0 ≡ true =
        λ y h. ground (arith, elem_of_In y seeds h, split y) in
      (
        (λ h.
            let out = elem_of_In x w.2 h in
            (
              All-In (Derived edges seeds) w.0 x derived
                  (In_of_elem x w.0 (ground (arith, out, split x))),
              ground (arith, out, split x),
            )),
        (λ h.
            In_of_elem x w.2 (ground (arith, h.1, split x, Closed-Derived w.0 ended start x h.0))),
      )
