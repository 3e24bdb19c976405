-- ===== src/Chunking/Ranges.antt =====
-- Lists of ranges of positions, as heartwood/chunking.py builds them: in order, and what they cover.
use heartwood_memory.Prelude.{ℕ, suc, zero, ◌≤◌, ◌<◌, ◌⊎◌, inl, inr, List, [], ◌∷◌, ◌++◌, arith}
use heartwood_memory.Chunking.{take, drop}

module _ {A : Type 0} (start end : A → ℕ) where
  -- The ranges lie between the bounds, none is empty, and each begins where the one before has ended
  -- or later.
  abbrev pub Ordered : ℕ → ℕ → List A → Type 0
  Ordered low high [] = low ≤ high
  Ordered low high (x ∷ xs) = (low ≤ start x) × (start x < end x) × Ordered (end x) high xs

  -- The position is in one of the ranges.
  abbrev pub Covered : ℕ → List A → Type 0
  Covered i [] = ⊥
  Covered i (x ∷ xs) = ((start x ≤ i) × (i < end x)) ⊎ Covered i xs

  pub Ordered-bounds : (low high : ℕ) (xs : List A) → Ordered low high xs → low ≤ high
  Ordered-bounds low high [] h = h
  Ordered-bounds low high (x ∷ xs) h = omega (arith, h.0, h.1, Ordered-bounds (end x) high xs h.2)

  pub Ordered-lower :
      (low' low high : ℕ) (xs : List A) → low' ≤ low → Ordered low high xs → Ordered low' high xs
  Ordered-lower low' low high [] le h = omega arith
  Ordered-lower low' low high (x ∷ xs) le h = (omega (arith, h.0), h.1, h.2)

  pub Ordered-append :
      (low mid high : ℕ) (xs ys : List A)
      → Ordered low mid xs
      → Ordered mid high ys
      → Ordered low high (xs ++ ys)
  Ordered-append low mid high [] ys h k = Ordered-lower low mid high ys h k
  Ordered-append low mid high (x ∷ xs) ys h k =
      (h.0, h.1, Ordered-append (end x) mid high xs ys h.2 k)

  pub Covered-left : (i : ℕ) (xs ys : List A) → Covered i xs → Covered i (xs ++ ys)
  Covered-left i [] ys h = absurd h
  Covered-left i (x ∷ xs) ys (inl h) = inl h
  Covered-left i (x ∷ xs) ys (inr h) = inr (Covered-left i xs ys h)

  pub Covered-right : (i : ℕ) (xs ys : List A) → Covered i ys → Covered i (xs ++ ys)
  Covered-right i [] ys h = h
  Covered-right i (x ∷ xs) ys h = inr (Covered-right i xs ys h)

  pub Covered-take_or_drop :
      (n i : ℕ) (xs : List A) → Covered i xs → Covered i (take n xs) ⊎ Covered i (drop n xs)
  Covered-take_or_drop zero i xs h = inr h
  Covered-take_or_drop (suc n) i [] h = absurd h
  Covered-take_or_drop (suc n) i (x ∷ xs) (inl h) = inl (inl h)
  Covered-take_or_drop (suc n) i (x ∷ xs) (inr h) = elim (Covered-take_or_drop n i xs h) [
    | inl k ↦ inl (inr k)
    | inr k ↦ inr k
  ]

  -- What is covered by ranges in order lies between their bounds.
  pub Covered-bounds :
      (low high i : ℕ) (xs : List A) → Ordered low high xs → Covered i xs → (low ≤ i) × (i < high)
  Covered-bounds low high i (x ∷ xs) h (inl k) =
      let le = Ordered-bounds (end x) high xs h.2 in
      (omega (arith, h.0, k.0), omega (arith, k.1, le))
  Covered-bounds low high i (x ∷ xs) h (inr k) =
      let (a, b) = Covered-bounds (end x) high i xs h.2 k in (omega (arith, h.0, h.1, a), b)
  Covered-bounds low high i [] h k = absurd k

  -- A list in order is cut by a position into two.
  pub Ordered-cut :
      (n low high : ℕ) (xs : List A)
      → Ordered low high xs
      → (mid : ℕ) × Ordered low mid (take n xs) × Ordered mid high (drop n xs)
  Ordered-cut zero low high xs h = (low, omega arith, h)
  Ordered-cut (suc n) low high [] h = (high, h, omega arith)
  Ordered-cut (suc n) low high (x ∷ xs) h =
      let (mid, a, b) = Ordered-cut n (end x) high xs h.2 in (mid, (h.0, h.1, a), b)
