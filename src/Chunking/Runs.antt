-- ===== src/Chunking/Runs.antt =====
-- What `TOKEN_RE.finditer` of heartwood/chunking.py finds: runs in order, which hold every position of a
-- word.
use heartwood_memory.Prelude.{
  ℕ, suc, zero, ◌+◌, ◌-◌, ◌≤◌, ◌<◌, ◌≡◌, refl, ap, inl, inr, Bool, true, false, Option, none, some,
  List, Bool-cases, arith, ◌==◌, ==_iff, ltb, ltb→lt, ◌⊎◌, subst,
}
use heartwood_memory.Chunking.{
  CodePoints, holds, is_alphanumeric, Match, run_after, run_ended, find_from, find_iter,
}
use heartwood_memory.Chunking.Ranges.{Ordered, Covered, Ordered-append, Covered-left, Covered-right}

abbrev pub match_start : Match → ℕ
match_start m = m.start

abbrev pub match_end : Match → ℕ
match_end m = m.end

abbrev pub MatchesOrdered : ℕ → ℕ → List Match → Type 0
MatchesOrdered = Ordered match_start match_end

abbrev pub MatchesCovered : ℕ → List Match → Type 0
MatchesCovered = Covered match_start match_end

-- The open run began before the position, and not before the bound.
abbrev Follows : ℕ → ℕ → Option ℕ → Type 0
Follows low i none = low ≤ i
Follows low i (some s) = (low ≤ s) × (s < i)

run_ended-Ordered :
    (inside : Bool) (low i : ℕ) (run : Option ℕ)
    → Follows low i run
    → (mid : ℕ) × MatchesOrdered low mid (run_ended inside i run)
      × Follows mid (suc i) (run_after inside i run)
run_ended-Ordered false low i none h = (low, omega arith, omega (arith, h))
run_ended-Ordered false low i (some s) h = (i, (h.0, h.1, omega arith), omega arith)
run_ended-Ordered true low i none h = (low, omega arith, (h, omega arith))
run_ended-Ordered true low i (some s) h = (low, omega arith, (h.0, omega (arith, h.1)))

-- The runs are in order.
pub find_from-Ordered :
    (text : CodePoints) (n low i : ℕ) (run : Option ℕ)
    → Follows low i run
    → MatchesOrdered low (i + n) (find_from text i run n)
unfolding find_from
find_from-Ordered text zero low i none h = omega (arith, h)
find_from-Ordered text zero low i (some s) h = (h.0, h.1, omega arith)
find_from-Ordered text (suc n) low i run h =
    let inside = holds is_alphanumeric text i in
    let (mid, left, right) = run_ended-Ordered inside low i run h in
    let rest = find_from-Ordered text n mid (suc i) (run_after inside i run) right in
    let same : suc i + n ≡ i + suc n = omega arith in
    Ordered-append match_start match_end low mid (i + suc n) (run_ended inside i run)
      (find_from text (suc i) (run_after inside i run) n) left (rw (← same) rest)

-- What the open run and the rest of the text reach.
abbrev Reached : ℕ → ℕ → Option ℕ → Type 0
Reached j i none = i ≤ j
Reached j i (some s) = s ≤ j

pub same_place :
    (i j : ℕ)
    → (i == j) ≡ true
    → (p : ℕ → Bool) (text : CodePoints) → holds p text i ≡ holds p text j
same_place i j e p text = ap (holds p text) ((==_iff i j).0 e)

later :
    (p : ℕ → Bool) (text : CodePoints) (i j : ℕ)
    → holds p text j ≡ true
    → holds p text i ≡ false
    → i ≤ j
    → i < j
later p text i j a b le = elim (Bool-cases (i == j)) [
  | inl e ↦ absurd (ground (arith, a, b, same_place i j e p text))
  | inr e ↦ ground (arith, e, le)
]

run_ended-Covered :
    (text : CodePoints) (j i : ℕ) (run : Option ℕ) (inside : Bool)
    → holds is_alphanumeric text j ≡ true
    → holds is_alphanumeric text i ≡ inside
    → Reached j i run
    → MatchesCovered j (run_ended inside i run) ⊎ Reached j (suc i) (run_after inside i run)
run_ended-Covered text j i none false a b h = inr (later is_alphanumeric text i j a b h)
run_ended-Covered text j i none true a b h = inr h
run_ended-Covered text j i (some s) true a b h = inr h
run_ended-Covered text j i (some s) false a b h = elim (Bool-cases (ltb j i)) [
  | inl lt ↦ inl (inl (h, ltb→lt j i lt))
  | inr ge ↦ inr (later is_alphanumeric text i j a b (ground (arith, ge)))
]

-- Every position of a word that the pass reaches is in a run.
pub find_from-Covered :
    (text : CodePoints) (n j i : ℕ) (run : Option ℕ)
    → holds is_alphanumeric text j ≡ true
    → j < i + n
    → Reached j i run
    → MatchesCovered j (find_from text i run n)
unfolding find_from
find_from-Covered text zero j i none a lt h = absurd (omega (arith, lt, h))
find_from-Covered text zero j i (some s) a lt h = inl (h, omega (arith, lt))
find_from-Covered text (suc n) j i run a lt h =
    let inside = holds is_alphanumeric text i in
    let rest = find_from text (suc i) (run_after inside i run) n in
    elim (run_ended-Covered text j i run inside a refl h) [
      | inl k ↦ Covered-left match_start match_end j (run_ended inside i run) rest k
      | inr k ↦
          Covered-right match_start match_end j (run_ended inside i run) rest
            (find_from-Covered text n j (suc i) (run_after inside i run) a (omega (arith, lt)) k)
    ]

pub find_iter-Ordered :
    (text : CodePoints) (start end : ℕ)
    → start ≤ end
    → MatchesOrdered start end (find_iter text start end)
find_iter-Ordered text start end le =
    let same : start + (end - start) ≡ end = omega (arith, le) in
    subst (λ (high : ℕ). MatchesOrdered start high (find_iter text start end)) same
      (find_from-Ordered text (end - start) start start none (omega arith))

pub find_iter-Covered :
    (text : CodePoints) (start end j : ℕ)
    → holds is_alphanumeric text j ≡ true
    → start ≤ j
    → j < end
    → MatchesCovered j (find_iter text start end)
find_iter-Covered text start end j a le lt =
    find_from-Covered text (end - start) j start none a (omega (arith, le, lt)) le
