-- ===== src/Chunking/Slices.antt =====
-- The words of a slice of a text in heartwood/chunking.py are those that are found in place.
use heartwood_memory.Prelude.{
  ℕ, suc, zero, ◌+◌, ◌-◌, ◌≤◌, ◌<◌, ◌≡◌, refl, ◌∙◌, ap, Bool, true, false, Option, none, some, [],
  ◌∷◌, length, length-append, arith,
}
use heartwood_memory.Chunking.{
  CodePoints, holds, is_alphanumeric, run_after, run_ended, find_from, take, drop, slice,
  token_count,
}
use heartwood_memory.Chunking.Counts.{count}

holds-take :
    (p : ℕ → Bool) (text : CodePoints) (n j : ℕ) → j < n → holds p (take n text) j ≡ holds p text j
holds-take p text zero j lt = absurd (omega (arith, lt))
holds-take p [] (suc n) j lt = refl
holds-take p (c ∷ text) (suc n) zero lt = refl
holds-take p (c ∷ text) (suc n) (suc j) lt = holds-take p text n j (omega (arith, lt))

holds-drop :
    (p : ℕ → Bool) (text : CodePoints) (n j : ℕ) → holds p (drop n text) j ≡ holds p text (n + j)
holds-drop p text zero j = ap (holds p text) (omega arith)
holds-drop p [] (suc n) j = refl
holds-drop p (c ∷ text) (suc n) j =
    let same : suc n + j ≡ suc (n + j) = omega arith in rw same (holds-drop p text n j)

length-take : (text : CodePoints) (n : ℕ) → n ≤ length text → length (take n text) ≡ n
length-take text zero le = refl
length-take [] (suc n) le = absurd (omega (arith, le))
length-take (c ∷ text) (suc n) le = omega (arith, length-take text n (omega (arith, le)))

length-drop : (text : CodePoints) (n : ℕ) → length (drop n text) ≡ length text - n
length-drop text zero = omega arith
length-drop [] (suc n) = omega arith
length-drop (c ∷ text) (suc n) = omega (arith, length-drop text n)

-- Both runs are open, or none is.
abbrev BothOpen : Option ℕ → Option ℕ → Type 0
BothOpen none none = Unit
BothOpen (some s) (some t) = Unit
BothOpen _ _ = ⊥

same_ended :
    (i i' : ℕ) (run run' : Option ℕ) (inside : Bool)
    → BothOpen run run'
    → (length (run_ended inside i run) ≡ length (run_ended inside i' run'))
      × BothOpen (run_after inside i run) (run_after inside i' run')
same_ended i i' none none false h = (refl, tt)
same_ended i i' none none true h = (refl, tt)
same_ended i i' (some s) (some t) false h = (refl, tt)
same_ended i i' (some s) (some t) true h = (refl, tt)
same_ended i i' none (some t) inside h = absurd h
same_ended i i' (some s) none inside h = absurd h

-- Texts that agree from two positions on have as many words from there.
same_runs :
    (text text' : CodePoints) (n i i' : ℕ) (run run' : Option ℕ)
    → BothOpen run run'
    → ((j : ℕ) → j < n → holds is_alphanumeric text (i + j) ≡ holds is_alphanumeric text' (i' + j))
    → length (find_from text i run n) ≡ length (find_from text' i' run' n)
unfolding find_from
same_runs text text' zero i i' run run' h agree = (same_ended i i' run run' false h).0
same_runs text text' (suc n) i i' run run' h agree =
    let inside = holds is_alphanumeric text i in
    let here : holds is_alphanumeric text i ≡ holds is_alphanumeric text' i' =
      let a : i + 0 ≡ i = omega arith in
      let b : i' + 0 ≡ i' = omega arith in rw (a, b) at (agree 0 (omega arith)) in
    let (ended, open_word) = same_ended i i' run run' inside h in
    let rest =
      same_runs text text' n (suc i) (suc i') (run_after inside i run) (run_after inside i' run')
        open_word further in
    rw (← here) (
      omega (
        arith,
        ended,
        rest,
        length-append {0} (run_ended inside i run)
            (find_from text (suc i) (run_after inside i run) n),
        length-append {0} (run_ended inside i' run')
            (find_from text' (suc i') (run_after inside i' run') n),
      ))
  where
    further :
        (j : ℕ)
        → j < n
        → holds is_alphanumeric text (suc i + j) ≡ holds is_alphanumeric text' (suc i' + j)
    further j lt =
        let a : suc i + j ≡ i + suc j = omega arith in
        let b : suc i' + j ≡ i' + suc j = omega arith in
        rw (a, b) (agree (suc j) (omega (arith, lt)))

-- The words of a slice.
pub token_count-slice :
    (text : CodePoints) (start end : ℕ)
    → start ≤ end
    → end ≤ length text
    → token_count (slice text start end) ≡ count text start end
token_count-slice text start end le inside =
    let part = slice text start end in
    let size : length part ≡ end - start =
      length-take (drop start text) (end - start)
        (omega (arith, le, inside, length-drop text start)) in
    let whole : end - start - 0 ≡ end - start = omega arith in
    rw (size, whole) (same_runs part text (end - start) 0 start none none tt agree)
  where
    agree :
        (j : ℕ)
        → j < end - start
        → holds is_alphanumeric (slice text start end) (0 + j)
          ≡ holds is_alphanumeric text (start + j)
    agree j lt =
        let a : 0 + j ≡ j = omega arith in
        rw a (
          holds-take is_alphanumeric (drop start text) (end - start) j (omega (arith, lt))
          ∙ holds-drop is_alphanumeric text start j)
