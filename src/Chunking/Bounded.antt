-- ===== src/Chunking/Bounded.antt =====
-- No chunk of heartwood/chunking.py has more words than the target and the overlap together.
use heartwood_memory.Prelude.{
  ℕ, suc, zero, ◌+◌, ◌-◌, ◌≤◌, ◌<◌, ◌≡◌, inl, inr, true, List, [], ◌∷◌, length, All, Bool-cases,
  arith, leb, ◌==◌, ok, ◌>>=◌, >>=-eq-ok, ok_injective,
}
use heartwood_memory.Chunking.{CodePoints, holds, is_alphanumeric, Match, Span, find_iter}
use heartwood_memory.Chunking.Ranges.{Ordered-bounds}
use heartwood_memory.Chunking.Runs.{
  match_start, match_end, MatchesOrdered, find_iter-Ordered, find_iter-Covered,
}
use heartwood_memory.Chunking.Blocks.{span_start, span_end, SpansOrdered}
use heartwood_memory.Chunking.Kept.{token_at-before}
use heartwood_memory.Chunking.Counts.{
  count, NoWord, AllWord, Inside, count-split, count-none, count-one, find_iter-Inside,
}
use heartwood_memory.Chunking.Sizes.{WordsIn, before-NoWord, after-WordsIn}
use heartwood_memory.Chunking.Targets.{Small}
use heartwood_memory.Chunking.Document.{
  token_index, token_at, overlap_start, recounted, expand_rest,
}

module _ (text : CodePoints) where
  abbrev MatchesIn : ℕ → ℕ → List Match → Type 0
  MatchesIn = WordsIn text match_start match_end

  -- There are no more words before the position than tokens that start before it.
  token_index-count :
      (low high p : ℕ) (ms : List Match)
      → low ≤ p
      → p ≤ high
      → MatchesOrdered low high ms
      → All (Inside text) ms
      → MatchesIn low high ms
      → count text low p ≤ token_index ms p
  token_index-count low high p [] le le' h inside words =
      let none_there : NoWord text low p = λ j a b.
        elim (Bool-cases (holds is_alphanumeric text j)) [
          | inl e ↦ absurd (words j a (omega (arith, b, le')) e)
          | inr e ↦ e
        ] in
      omega (arith, count-none text low p none_there)
  token_index-count low high p (m ∷ ms) le le' h inside words =
      let none_before = before-NoWord text match_start match_end low high m ms h words in
      elim (Bool-cases (leb p m.start)) [
        | inl e ↦
            let near : NoWord text low p = λ j a b. none_before j a (ground (arith, e, b)) in
            omega (arith, count-none text low p near)
        | inr e ↦
            let after : m.start < p = ground (arith, e) in
            let gap = count-none text low m.start none_before in
            let parts = count-split text low m.start p h.0 (omega (arith, after)) in
            rw e (elim (Bool-cases (leb p m.end)) [
              | inl q ↦
                  let part : AllWord text m.start p =
                    λ j a b. inside.0 j a (ground (arith, q, b)) in
                  omega (arith, gap, parts, count-one text m.start p part)
              | inr q ↦
                  let past : m.end ≤ p = ground (arith, q) in
                  omega (
                    arith,
                    gap,
                    parts,
                    count-one text m.start m.end inside.0,
                    count-split text m.start m.end p (omega (arith, h.1)) past,
                    token_index-count m.end high p ms past le' h.2 inside.1
                        (after-WordsIn text match_start match_end low high m ms h words),
                  )
            ])
      ]

  token_at-count :
      (low high p k : ℕ) (ms : List Match) (found : Match)
      → p ≤ high
      → k < token_index ms p
      → token_at ms k ≡ ok found
      → MatchesOrdered low high ms
      → All (Inside text) ms
      → MatchesIn low high ms
      → count text found.start p ≤ token_index ms p - k
  token_at-count low high p k [] found le lt is h inside words = absurd (omega (arith, lt))
  token_at-count low high p zero (m ∷ ms) found le lt is h inside words =
      let same : m ≡ found = ok_injective m found is in
      let (_, _, before) = token_at-before (m ∷ ms) p zero lt in
      let tight : MatchesOrdered m.start high (m ∷ ms) = (omega arith, h.1, h.2) in
      let words' : MatchesIn m.start high (m ∷ ms) =
        λ j a b e. words j (omega (arith, a, h.0)) b e in
      rw (← same) (
        omega (
          arith,
          token_index-count m.start high p (m ∷ ms) (first_before lt) le tight inside words',
        ))
    where
      first_before : 0 < token_index (m ∷ ms) p → m.start ≤ p
      first_before l = elim (Bool-cases (leb p m.start)) [
        | inl e ↦ ground (arith, e, l)
        | inr e ↦ ground (arith, e)
      ]
  token_at-count low high p (suc k) (m ∷ ms) found le lt is h inside words =
      elim (Bool-cases (leb p m.start)) [
        | inl e ↦ absurd (none_before e)
        | inr e ↦
            let step =
              token_at-count m.end high p k ms found le (ground (arith, e, lt)) is h.2 inside.1
                (after-WordsIn text match_start match_end low high m ms h words) in
            rw e (omega (arith, step))
      ]
    where
      none_before : leb p m.start ≡ true → ⊥
      none_before e = ground (arith, e, lt)

  -- From where an overlap begins up to the position there are no more words than asked for.
  overlap_start-count :
      (overlap p start : ℕ)
      → 1 ≤ overlap
      → p ≤ length text
      → overlap_start (find_iter text 0 (length text)) overlap p ≡ ok start
      → (start ≤ p) × (count text start p ≤ overlap)
  unfolding overlap_start
  overlap_start-count overlap p start pos' le is =
      let ms = find_iter text 0 (length text) in
      elim (Bool-cases (token_index ms p == 0)) [
        | inl e ↦
            let same : p ≡ start = ok_injective p start (rw e at is) in
            let empty : NoWord text p p = λ j a b. absurd (omega (arith, a, b)) in
            rw (← same) (omega arith, omega (arith, count-none text p p empty))
        | inr e ↦
            let back : token_index ms p - overlap < token_index ms p = ground (arith, e, pos') in
            let (m, found, lt) = token_at-before ms p (token_index ms p - overlap) back in
            let same : m.start ≡ start = ok_injective m.start start (rw (e, found) at is) in
            let near =
              token_at-count 0 (length text) p (token_index ms p - overlap) ms m le back found
                (find_iter-Ordered text 0 (length text) (omega arith))
                (find_iter-Inside text 0 (length text))
                (λ j a b c. find_iter-Covered text 0 (length text) j c a b) in
            rw (← same) (omega (arith, lt), omega (arith, near))
      ]

  module _ (target overlap : ℕ) where
    -- The span lies in the text and has no more words than the target and the overlap.
    abbrev pub Bounded : Span → Type 0
    Bounded s =
        (s.char_start ≤ s.char_end)
        × (s.char_end ≤ length text)
        × (count text s.char_start s.char_end ≤ target + overlap)

    pub expand_rest-Bounded :
        (low : ℕ) (spans out : List Span)
        → 1 ≤ overlap
        → SpansOrdered low (length text) spans
        → All (Small text target) spans
        → expand_rest text (find_iter text 0 (length text)) overlap spans ≡ ok out
        → All Bounded out
    unfolding expand_rest
    expand_rest-Bounded low [] out le h small is = rw (← ok_injective [] out is) tt
    expand_rest-Bounded low (s ∷ spans) out le h small is =
        let ms = find_iter text 0 (length text) in
        let (start, found, is') =
          >>=-eq-ok (overlap_start ms overlap s.char_start)
            (λ x. (do
              rest ← expand_rest text ms overlap spans
              ok (recounted text x s.char_end ∷ rest)))
            is in
        let (rest, found', is'') =
          >>=-eq-ok (expand_rest text ms overlap spans)
            (λ r. ok (recounted text start s.char_end ∷ r)) is' in
        let inside = Ordered-bounds span_start span_end s.char_end (length text) spans h.2 in
        let (back, few) =
          overlap_start-count overlap s.char_start start le (omega (arith, inside, h.1)) found in
        rw (← ok_injective (recounted text start s.char_end ∷ rest) out is'') (
          (
            omega (arith, back, h.1),
            inside,
            omega (
              arith,
              few,
              small.0,
              count-split text start s.char_start s.char_end back (omega (arith, h.1)),
            ),
          ),
          expand_rest-Bounded s.char_end spans rest le h.2 small.1 found',
        )
