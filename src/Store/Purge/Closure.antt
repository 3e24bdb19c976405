-- ===== src/Store/Purge/Closure.antt =====
-- The worklist of `descendants` computes what is derived from the seeds.
use heartwood_memory.Prelude.{
  ℕ, suc, ◌+◌, ◌≤◌, ◌≡◌, refl, inl, inr, Bool, true, false, not, ◌&&◌, ◌||◌, List, [], ◌∷◌, String,
  arith, str_eq, str_eq_iff, str_eq_refl, elem, In, Bool-cases, length, count_p,
}
use heartwood_memory.Store.{Edge}
use heartwood_memory.Store.Purge.{push_children}

-- A memory that is a seed, or is derived from one through the edges.
pub data Derived (edges : List Edge) (seeds : List String) : String → Type 0 where
  seed : (x : String) → In x seeds → Derived edges seeds x
  step : (e : Edge) → In e edges → Derived edges seeds e.parent → Derived edges seeds e.child

abbrev pub is_new : String → List String → Edge → Bool
is_new node seen e = str_eq e.parent node && not (elem e.child seen)

-- The edges whose child is not seen.
abbrev pub missing : List Edge → List String → ℕ
missing edges seen = count_p (λ e. not (elem e.child seen)) edges

module _ (node : String) where
  pub push_seen :
      (edges : List Edge) (seen frontier out : List String) (x : String)
      → elem x seen ≡ true
      → elem x (push_children node edges (seen, frontier, out)).0 ≡ true
  unfolding push_children
  push_seen [] seen frontier out x h = h
  push_seen (e ∷ edges) seen frontier out x h = elim (Bool-cases (is_new node seen e)) [
    | inl k ↦ rw k (
        push_seen edges (e.child ∷ seen) (e.child ∷ frontier) (e.child ∷ out) x (ground (arith, h)))
    | inr k ↦ rw k (push_seen edges seen frontier out x h)
  ]

  pub push_frontier :
      (edges : List Edge) (seen frontier out : List String) (x : String)
      → elem x frontier ≡ true
      → elem x (push_children node edges (seen, frontier, out)).1 ≡ true
  unfolding push_children
  push_frontier [] seen frontier out x h = h
  push_frontier (e ∷ edges) seen frontier out x h = elim (Bool-cases (is_new node seen e)) [
    | inl k ↦ rw k (
        push_frontier edges (e.child ∷ seen) (e.child ∷ frontier) (e.child ∷ out) x
          (ground (arith, h)))
    | inr k ↦ rw k (push_frontier edges seen frontier out x h)
  ]

  -- What is newly seen is put on the frontier.
  pub push_new :
      (edges : List Edge) (seen frontier out : List String) (x : String)
      → elem x (push_children node edges (seen, frontier, out)).0 ≡ true
      → (elem x seen || elem x (push_children node edges (seen, frontier, out)).1) ≡ true
  unfolding push_children
  push_new [] seen frontier out x h = ground (arith, h)
  push_new (e ∷ edges) seen frontier out x h = elim (Bool-cases (is_new node seen e)) [
    | inl k ↦
        let more =
          push_new edges (e.child ∷ seen) (e.child ∷ frontier) (e.child ∷ out) x (rw k at h) in
        let front = push_frontier edges (e.child ∷ seen) (e.child ∷ frontier) (e.child ∷ out) x in
        rw k (ground (arith, more, front))
    | inr k ↦ rw k (push_new edges seen frontier out x (rw k at h))
  ]

  pub push_all :
      (edges : List Edge) (seen frontier out : List String) (e : Edge)
      → In e edges
      → str_eq e.parent node ≡ true
      → elem e.child (push_children node edges (seen, frontier, out)).0 ≡ true
  unfolding push_children
  push_all [] seen frontier out e h p = absurd h
  push_all (d ∷ edges) seen frontier out e (inr h) p = elim (Bool-cases (is_new node seen d)) [
    | inl k ↦ rw k (push_all edges (d.child ∷ seen) (d.child ∷ frontier) (d.child ∷ out) e h p)
    | inr k ↦ rw k (push_all edges seen frontier out e h p)
  ]
  push_all (d ∷ edges) seen frontier out e (inl q) p = elim (Bool-cases (is_new node seen d)) [
    | inl k ↦ rw k (
        push_seen edges (d.child ∷ seen) (d.child ∷ frontier) (d.child ∷ out) e.child
          (rw q (simp str_eq_refl)))
    | inr k ↦ rw k (push_seen edges seen frontier out e.child (rw q (was d (rw q at p) k)))
  ]
    where
      was :
          (d : Edge)
          → str_eq d.parent node ≡ true
          → is_new node seen d ≡ false
          → elem d.child seen ≡ true
      was d p k = ground (arith, p, k)

  missing-less :
      (all : List Edge) (seen : List String) (c : String)
      → missing all (c ∷ seen) ≤ missing all seen
  missing-less [] seen c = omega arith
  missing-less (e ∷ all) seen c = ground (arith, missing-less all seen c)

  missing-drops :
      (all : List Edge) (seen : List String) (e : Edge) (c : String)
      → In e all
      → e.child ≡ c
      → elem c seen ≡ false
      → suc (missing all (c ∷ seen)) ≤ missing all seen
  missing-drops [] seen e c h same k = absurd h
  missing-drops (d ∷ all) seen e c (inr h) same k =
      ground (arith, missing-drops all seen e c h same k)
  missing-drops (d ∷ all) seen e c (inl q) same k =
      let child : d.child ≡ c = rw (← q) same in
      let new : elem d.child seen ≡ false = rw child k in
      ground (arith, k, child, new, missing-less all seen c, str_eq_iff d.child c)

  -- Pushing a child takes its edges off the missing ones.
  pub push_measure :
      (all edges : List Edge) (seen frontier out : List String)
      → ((e : Edge) → In e edges → In e all)
      → let w = push_children node edges (seen, frontier, out) in
        length w.1 + missing all w.0 ≤ length frontier + missing all seen
  unfolding push_children
  push_measure all [] seen frontier out sub = omega arith
  push_measure all (e ∷ edges) seen frontier out sub = elim (Bool-cases (is_new node seen e)) [
    | inl k ↦
        let less = missing-drops all seen e e.child (sub e (inl refl)) refl (ground (arith, k)) in
        let rest =
          push_measure all edges (e.child ∷ seen) (e.child ∷ frontier) (e.child ∷ out)
            (λ d h. sub d (inr h)) in
        rw k (omega (arith, less, rest))
    | inr k ↦ rw k (push_measure all edges seen frontier out (λ d h. sub d (inr h)))
  ]
