-- ===== src/Audit/Tamper.antt =====
-- What the hash chain of heartwood/audit.py detects: two logs that both verify and end in the same
-- hash have the same rows, unless two of their rows show a collision of the hash function.
use mathlib.Core.List.{reverse_aux, reverse_aux-reverse_aux-nil}
use mathlib.Core.Path.{ap₂}
use heartwood_memory.Prelude.{
  ℕ, ◌<◌, ◌≡◌, ◌≢◌, refl, sym, ap, ◌∙◌, ◌⊎◌, inl, inr, true, false, Option, List, [], ◌∷◌, ◌++◌,
  map, String, arith, length, All, In, Bool-cases,
}
use heartwood_memory.Audit.{Codec, Row, Log, codes_eq, genesis, head_hash, hashed}
use heartwood_memory.Audit.Chain.{verify_rows, verify_chain, codes_eq→eq, codes_eq_refl}

-- What the chain binds of a row: its two hashes, and the text of its body and time together.
pub record Bound : Type 0 where
  pub prev_hash : List ℕ
  pub row_hash : List ℕ
  pub contents : List ℕ

abbrev pub bound : Codec → Row → Bound
bound c r = record {
  prev_hash = r.prev_hash;
  row_hash = r.row_hash;
  contents = r.body ++ c.repr r.ts;
}

-- What the code has hashed for a row.
abbrev pub input : Codec → Row → List ℕ
input c r = hashed c r.prev_hash r.body r.ts

-- A row of the one list and a row of the other whose hashed texts differ and have one digest.
abbrev pub Collides : Codec → List Row → List Row → Type 0
Collides c rs ss =
    (r : Row) × (s : Row) × In r rs
    × In s ss
    × (input c r ≢ input c s)
    × (c.sha256 (input c r) ≡ c.sha256 (input c s))

In-reverse_aux :
    {A : Type 0} (x : A) (xs ys : List A) → In x (reverse_aux xs ys) → In x xs ⊎ In x ys
In-reverse_aux x [] ys h = inr h
In-reverse_aux x (y ∷ xs) ys h = elim (In-reverse_aux x xs (y ∷ ys) h) [
  | inl k ↦ inl (inr k)
  | inr (inl e) ↦ inl (inl e)
  | inr (inr k) ↦ inr k
]

In-reverse : {A : Type 0} (x : A) (xs : List A) → In x (reverse_aux xs []) → In x xs
In-reverse x xs h = elim (In-reverse_aux x xs [] h) [ inl k ↦ k | inr k ↦ absurd k ]

split_append :
    (xs ys us vs : List ℕ) → length xs ≡ length ys → xs ++ us ≡ ys ++ vs → (xs ≡ ys) × (us ≡ vs)
split_append [] [] us vs n h = (refl, h)
split_append [] (y ∷ ys) us vs n h = absurd (omega (arith, n))
split_append (x ∷ xs) [] us vs n h = absurd (omega (arith, n))
split_append (x ∷ xs) (y ∷ ys) us vs n h =
    let tails : xs ++ us ≡ ys ++ vs = cc in
    let (p, q) = split_append xs ys us vs (omega (arith, n)) tails in
    let heads : x ≡ y = cc in (cc, q)

no-g-start :
    (d us vs : List ℕ) → length d ≡ 64 → All (λ k. k < b'g') d → ¬ (genesis ++ us ≡ d ++ vs)
no-g-start [] us vs n h e = absurd (omega (arith, n))
no-g-start (y ∷ ys) us vs n h e = let first : b'g' ≡ y = cc in absurd (omega (arith, first, h.0))

differs : (a b : List ℕ) → codes_eq a b ≡ false → ¬ (a ≡ b)
differs a b h e = absurd (ground (arith, h, ap (codes_eq a) e, codes_eq_refl a))

-- The hash that the next row points back to; the rows stand last row first.
abbrev last_hash : List Row → List ℕ
last_hash [] = genesis
last_hash (r ∷ rows) = r.row_hash

module _ (c : Codec) where
  -- A hash that a row can point back to: the start of the chain, or a digest.
  abbrev IsLink : List ℕ → Type 0
  IsLink h = (h ≡ genesis) ⊎ ((x : List ℕ) × (h ≡ c.sha256 x))

  -- The rows from the last back to the first, each linked to the one before it.
  abbrev Linked : List Row → Type 0
  Linked [] = Unit
  Linked (r ∷ rows) =
      (r.prev_hash ≡ last_hash rows)
      × (r.row_hash ≡ c.sha256 (hashed c r.prev_hash r.body r.ts))
      × Linked rows

  last_hash-IsLink : (rows : List Row) → Linked rows → IsLink (last_hash rows)
  last_hash-IsLink [] l = inl refl
  last_hash-IsLink (r ∷ rows) l = inr (hashed c r.prev_hash r.body r.ts, l.1)

  IsLink-length :
      (p q us vs : List ℕ) → IsLink p → IsLink q → p ++ us ≡ q ++ vs → length p ≡ length q
  IsLink-length p q us vs (inl a) (inl b) h = ap length (a ∙ sym b)
  IsLink-length p q us vs (inl a) (inr (x, b)) h =
      absurd (no-g-start (c.sha256 x) us vs (c.length-sha256 x) (c.hex x) (rw (a, b) at h))
  IsLink-length p q us vs (inr (x, a)) (inl b) h =
      absurd (no-g-start (c.sha256 x) vs us (c.length-sha256 x) (c.hex x) (sym (rw (a, b) at h)))
  IsLink-length p q us vs (inr (x, a)) (inr (y, b)) h =
      omega (arith, ap length a, ap length b, c.length-sha256 x, c.length-sha256 y)

  genesis-ne-digest : (x : List ℕ) → ¬ (genesis ≡ c.sha256 x)
  genesis-ne-digest x h =
      no-g-start (c.sha256 x) [] [] (c.length-sha256 x) (c.hex x) (ap (λ l. l ++ []) h)

  same_rows :
      (rs ss : List Row)
      → Linked rs
      → Linked ss
      → last_hash rs ≡ last_hash ss
      → (map (bound c) rs ≡ map (bound c) ss) ⊎ Collides c rs ss
  unfolding hashed
  same_rows [] [] l m h = inl refl
  same_rows [] (s ∷ ss) l m h =
      absurd (genesis-ne-digest (hashed c s.prev_hash s.body s.ts) (h ∙ m.1))
  same_rows (r ∷ rs) [] l m h =
      absurd (genesis-ne-digest (hashed c r.prev_hash r.body r.ts) (sym h ∙ l.1))
  same_rows (r ∷ rs) (s ∷ ss) l m h =
      let a = hashed c r.prev_hash r.body r.ts in
      let b = hashed c s.prev_hash s.body s.ts in
      elim (Bool-cases (codes_eq a b)) [
        | inr differ ↦
            inr (r, s, inl refl, inl refl, (λ e. differs a b differ e), sym l.1 ∙ h ∙ m.1)
        | inl same ↦
            let texts_same : a ≡ b = codes_eq→eq a b same in
            let rt = r.body ++ c.repr r.ts in
            let st = s.body ++ c.repr s.ts in
            let n : length r.prev_hash ≡ length s.prev_hash =
              IsLink-length r.prev_hash s.prev_hash rt st (rw l.0 (last_hash-IsLink rs l.2))
                (rw m.0 (last_hash-IsLink ss m.2)) texts_same in
            let (prevs, texts) = split_append r.prev_hash s.prev_hash rt st n texts_same in
            let heads : bound c r ≡ bound c s =
              λ i. record { prev_hash = prevs i; row_hash = h i; contents = texts i } in
            elim (same_rows rs ss l.2 m.2 (sym l.0 ∙ prevs ∙ m.0)) [
              | inl tails ↦ inl (ap₂ ◌∷◌ heads tails)
              | inr (x, y, there, here, unlike, one) ↦ inr (x, y, inr there, inr here, unlike, one)
            ]
      ]

  Linked-of_verify :
      (chain_id : Option String) (prev : List ℕ) (rows acc : List Row)
      → Linked acc
      → last_hash acc ≡ prev
      → verify_rows c chain_id prev rows ≡ true
      → Linked (reverse_aux rows acc) × (last_hash (reverse_aux rows acc) ≡ head_hash prev rows)
  unfolding verify_rows head_hash
  Linked-of_verify chain_id prev [] acc l e h = (l, e)
  Linked-of_verify chain_id prev (r ∷ rows) acc l e h =
      let prevs : r.prev_hash ≡ prev = codes_eq→eq r.prev_hash prev (ground (arith, h)) in
      let digest : c.sha256 (hashed c prev r.body r.ts) ≡ r.row_hash =
        codes_eq→eq (c.sha256 (hashed c prev r.body r.ts)) r.row_hash (ground (arith, h)) in
      Linked-of_verify chain_id r.row_hash rows (r ∷ acc) (prevs ∙ sym e, rw prevs (sym digest), l)
        refl (ground (arith, h))

map-reverse_aux :
    {A B : Type 0} (f : A → B) (xs ys : List A)
    → map f (reverse_aux xs ys) ≡ reverse_aux (map f xs) (map f ys)
map-reverse_aux f [] ys = refl
map-reverse_aux f (x ∷ xs) ys = map-reverse_aux f xs (x ∷ ys)

reverse_injective : {A : Type 0} (xs ys : List A) → reverse_aux xs [] ≡ reverse_aux ys [] → xs ≡ ys
reverse_injective xs ys h =
    sym (reverse_aux-reverse_aux-nil xs [])
    ∙ ap (λ l. reverse_aux l []) h
    ∙ reverse_aux-reverse_aux-nil ys []

-- Two logs that both verify and end in the same row hash have, row by row, the same previous
-- hashes, the same row hashes and the same hashed contents (so neither has a row edited, dropped,
-- added or moved), or else a row of the one and a row of the other are given whose hashed texts
-- differ and have the same digest.
pub tamper_evident :
    (c : Codec) (chain_a chain_b : Option String) (a b : Log)
    → verify_chain c chain_a a ≡ true
    → verify_chain c chain_b b ≡ true
    → head_hash genesis a.rows ≡ head_hash genesis b.rows
    → (map (bound c) a.rows ≡ map (bound c) b.rows) ⊎ Collides c a.rows b.rows
unfolding verify_chain
tamper_evident c chain_a chain_b a b ha hb same =
    let (la, ea) = Linked-of_verify c chain_a genesis a.rows [] tt refl ha in
    let (lb, eb) = Linked-of_verify c chain_b genesis b.rows [] tt refl hb in
    elim (same_rows c (reverse_aux a.rows []) (reverse_aux b.rows []) la lb (ea ∙ same ∙ sym eb)) [
      | inl e ↦ inl (
          reverse_injective (map (bound c) a.rows) (map (bound c) b.rows)
            (sym (map-reverse_aux (bound c) a.rows []) ∙ e ∙ map-reverse_aux (bound c) b.rows []))
      | inr (x, y, there, here, unlike, one) ↦
          inr (x, y, In-reverse x a.rows there, In-reverse y b.rows here, unlike, one)
    ]
