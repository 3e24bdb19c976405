-- ===== src/Chunking/Counts.antt =====
-- How many runs `TOKEN_RE` of heartwood/chunking.py finds between two positions.
use heartwood_memory.Prelude.{
  ℕ, suc, zero, ◌+◌, ◌-◌, ◌≤◌, ◌<◌, ◌≡◌, refl, inl, inr, Bool, true, false, Option, none, some,
  length, length-append, All, All-append, Bool-cases, arith, ◌==◌,
}
use heartwood_memory.Chunking.{
  CodePoints, holds, is_alphanumeric, Match, run_after, run_ended, find_from, find_iter,
}

-- The runs between two positions.
abbrev pub count : CodePoints → ℕ → ℕ → ℕ
count text start end = length (find_iter text start end)

-- All of the range is inside of a word, or none of it.
abbrev pub AllWord : CodePoints → ℕ → ℕ → Type 0
AllWord text start end = (j : ℕ) → start ≤ j → j < end → holds is_alphanumeric text j ≡ true

abbrev pub NoWord : CodePoints → ℕ → ℕ → Type 0
NoWord text start end = (j : ℕ) → start ≤ j → j < end → holds is_alphanumeric text j ≡ false

module _ (text : CodePoints) where
  runs : ℕ → Option ℕ → ℕ → ℕ
  runs i run n = length (find_from text i run n)

  runs-step :
      (i : ℕ) (run : Option ℕ) (n : ℕ) (inside : Bool)
      → holds is_alphanumeric text i ≡ inside
      → length (find_from text i run (suc n))
        ≡ length (run_ended inside i run)
          + length (find_from text (suc i) (run_after inside i run) n)
  unfolding find_from
  runs-step i run n inside e = rw e (
      length-append {0} (run_ended inside i run)
        (find_from text (suc i) (run_after inside i run) n))

  runs-zero :
      (i : ℕ) (run : Option ℕ) → length (find_from text i run 0) ≡ length (run_ended false i run)
  unfolding find_from
  runs-zero i run = refl

  -- It does not matter where the open run began.
  runs-same :
      (n i s t : ℕ) → length (find_from text i (some s) n) ≡ length (find_from text i (some t) n)
  runs-same zero i s t = omega (arith, runs-zero i (some s), runs-zero i (some t))
  runs-same (suc n) i s t = elim (Bool-cases (holds is_alphanumeric text i)) [
    | inl e ↦ omega (
      arith,
      runs-step i (some s) n true e,
      runs-step i (some t) n true e,
      runs-same n (suc i) s t,
    )
    | inr e ↦ omega (arith, runs-step i (some s) n false e, runs-step i (some t) n false e)
  ]

  -- An open run counts for one more at most.
  runs-open :
      (n i s : ℕ) → length (find_from text i (some s) n) ≤ suc (length (find_from text i none n))
  runs-open zero i s = omega (arith, runs-zero i (some s))
  runs-open (suc n) i s = elim (Bool-cases (holds is_alphanumeric text i)) [
    | inl e ↦
        omega
          (arith, runs-step i (some s) n true e, runs-step i none n true e, runs-same n (suc i) s i)
    | inr e ↦ omega (arith, runs-step i (some s) n false e, runs-step i none n false e)
  ]

  runs-split :
      (n m i : ℕ) (run : Option ℕ)
      → length (find_from text i run (n + m))
        ≤ length (find_from text i run n) + length (find_from text (i + n) none m)
  runs-split zero m i none =
      let a : 0 + m ≡ m = omega arith in let b : i + 0 ≡ i = omega arith in rw (a, b) (omega arith)
  runs-split zero m i (some s) =
      let a : 0 + m ≡ m = omega arith in
      let b : i + 0 ≡ i = omega arith in
      rw (a, b) (omega (arith, runs-zero i (some s), runs-open m i s))
  runs-split (suc n) m i run =
      let inside = holds is_alphanumeric text i in
      let a : suc n + m ≡ suc (n + m) = omega arith in
      let b : i + suc n ≡ suc i + n = omega arith in
      rw (a, b)
        (omega (
          arith,
          runs-step i run (n + m) inside refl,
          runs-step i run n inside refl,
          runs-split n m (suc i) (run_after inside i run),
        ))

  pub count-split :
      (start mid end : ℕ)
      → start ≤ mid
      → mid ≤ end
      → count text start end ≤ count text start mid + count text mid end
  count-split start mid end a b =
      let h = runs-split (mid - start) (end - mid) start none in
      let size : mid - start + (end - mid) ≡ end - start = omega (arith, a, b) in
      let place : start + (mid - start) ≡ mid = omega (arith, a) in rw (size, place) at h

  runs-none : (n i : ℕ) → NoWord text i (i + n) → length (find_from text i none n) ≡ 0
  runs-none zero i h = runs-zero i none
  runs-none (suc n) i h =
      let e = h i (omega arith) (omega arith) in
      omega (
        arith,
        runs-step i none n false e,
        runs-none n (suc i) (λ j a b. h j (omega (arith, a)) (omega (arith, b))),
      )

  pub count-none : (start end : ℕ) → NoWord text start end → count text start end ≡ 0
  count-none start end h = runs-none (end - start) start (λ j a b. h j a (omega (arith, a, b)))

  runs-one : (n i s : ℕ) → AllWord text i (i + n) → length (find_from text i (some s) n) ≡ 1
  runs-one zero i s h = runs-zero i (some s)
  runs-one (suc n) i s h =
      let e = h i (omega arith) (omega arith) in
      omega (
        arith,
        runs-step i (some s) n true e,
        runs-one n (suc i) s (λ j a b. h j (omega (arith, a)) (omega (arith, b))),
      )

  runs-at_most_one : (n i : ℕ) → AllWord text i (i + n) → length (find_from text i none n) ≤ 1
  runs-at_most_one zero i h = omega (arith, runs-zero i none)
  runs-at_most_one (suc n) i h =
      let e = h i (omega arith) (omega arith) in
      omega (
        arith,
        runs-step i none n true e,
        runs-one n (suc i) i (λ j a b. h j (omega (arith, a)) (omega (arith, b))),
      )

  -- A range inside of one word counts for one at most.
  pub count-one : (start end : ℕ) → AllWord text start end → count text start end ≤ 1
  count-one start end h =
      runs-at_most_one (end - start) start (λ j a b. h j a (omega (arith, a, b)))

  IsWord : Match → Type 0
  IsWord m = AllWord text m.start m.end

-- A match is inside of one word.
abbrev pub Inside : CodePoints → Match → Type 0
Inside text m = AllWord text m.start m.end

abbrev OpenWord : CodePoints → ℕ → Option ℕ → Type 0
OpenWord text i none = Unit
OpenWord text i (some s) = AllWord text s i

run_ended-Inside :
    (text : CodePoints) (i : ℕ) (run : Option ℕ) (inside : Bool)
    → holds is_alphanumeric text i ≡ inside
    → OpenWord text i run
    → All (Inside text) (run_ended inside i run) × OpenWord text (suc i) (run_after inside i run)
run_ended-Inside text i none false e h = (tt, tt)
run_ended-Inside text i (some s) false e h = ((h, tt), tt)
run_ended-Inside text i none true e h = (tt, here)
  where
    here : AllWord text i (suc i)
    here j a b = let same : i ≡ j = omega (arith, a, b) in rw (← same) e
run_ended-Inside text i (some s) true e h = (tt, further)
  where
    further : AllWord text s (suc i)
    further j a b = elim (Bool-cases (i == j)) [
      | inl q ↦ let same : i ≡ j = ground (arith, q) in rw (← same) e
      | inr q ↦ h j a (ground (arith, q, b))
    ]

find_from-Inside :
    (text : CodePoints) (n i : ℕ) (run : Option ℕ)
    → OpenWord text i run
    → All (Inside text) (find_from text i run n)
unfolding find_from
find_from-Inside text zero i none h = tt
find_from-Inside text zero i (some s) h = (h, tt)
find_from-Inside text (suc n) i run h =
    let inside = holds is_alphanumeric text i in
    let (ended, open_word) = run_ended-Inside text i run inside refl h in
    All-append (Inside text) (run_ended inside i run)
      (find_from text (suc i) (run_after inside i run) n) ended
      (find_from-Inside text n (suc i) (run_after inside i run) open_word)

pub find_iter-Inside :
    (text : CodePoints) (start end : ℕ) → All (Inside text) (find_iter text start end)
find_iter-Inside text start end = find_from-Inside text (end - start) start none tt
