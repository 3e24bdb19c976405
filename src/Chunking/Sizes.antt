-- ===== src/Chunking/Sizes.antt =====
-- How many words the passes of heartwood/chunking.py leave in a span.
use heartwood_memory.Prelude.{
  ℕ, suc, zero, ◌≤◌, ◌<◌, ◌≡◌, inl, inr, true, List, [], ◌∷◌, length, All, All-append, Bool-cases,
  arith,
}
use heartwood_memory.Chunking.{CodePoints, holds, is_alphanumeric, Match, Span, take, drop}
use heartwood_memory.Chunking.Ranges.{
  Ordered, Covered, Ordered-bounds, Ordered-cut, Covered-bounds, Covered-take_or_drop,
}
use heartwood_memory.Chunking.Runs.{match_start, match_end, MatchesOrdered}
use heartwood_memory.Chunking.Packing.{last_end-bounds}
use heartwood_memory.Chunking.Counts.{count, NoWord, Inside, count-split, count-none, count-one}
use heartwood_memory.Chunking.Document.{last_end, window_span, windows}

module _ (text : CodePoints) where
  module _ {A : Type 0} (start end : A → ℕ) where
    -- Each position of a word between the bounds is in one of the ranges.
    abbrev pub WordsIn : ℕ → ℕ → List A → Type 0
    WordsIn low high xs =
        (j : ℕ) → low ≤ j → j < high → holds is_alphanumeric text j ≡ true → Covered start end j xs

    pub before-NoWord :
        (low high : ℕ) (x : A) (xs : List A)
        → Ordered start end low high (x ∷ xs)
        → WordsIn low high (x ∷ xs)
        → NoWord text low (start x)
    before-NoWord low high x xs h words j a b = elim (Bool-cases (holds is_alphanumeric text j)) [
      | inr e ↦ e
      | inl e ↦
          let le = Ordered-bounds start end (end x) high xs h.2 in
          let from_start : Ordered start end (start x) high (x ∷ xs) = (omega arith, h.1, h.2) in
          let (c, _) =
            Covered-bounds start end (start x) high j (x ∷ xs) from_start
              (words j a (omega (arith, b, h.1, le)) e) in
          absurd (omega (arith, b, c))
    ]

    pub after-WordsIn :
        (low high : ℕ) (x : A) (xs : List A)
        → Ordered start end low high (x ∷ xs)
        → WordsIn low high (x ∷ xs)
        → WordsIn (end x) high xs
    after-WordsIn low high x xs h words j a b e = elim (words j (omega (arith, h.0, h.1, a)) b e) [
      | inl k ↦ absurd (omega (arith, k.1, a))
      | inr k ↦ k
    ]

    take-WordsIn :
        (n low mid high : ℕ) (xs : List A)
        → Ordered start end mid high (drop n xs)
        → WordsIn low high xs
        → WordsIn low mid (take n xs)
    take-WordsIn n low mid high xs h words j a b e =
        let le = Ordered-bounds start end mid high (drop n xs) h in
        elim (Covered-take_or_drop start end n j xs (words j a (omega (arith, b, le)) e)) [
          | inl k ↦ k
          | inr k ↦
              absurd (omega (arith, b, (Covered-bounds start end mid high j (drop n xs) h k).0))
        ]

    drop-WordsIn :
        (n low mid high : ℕ) (xs : List A)
        → Ordered start end low mid (take n xs)
        → WordsIn low high xs
        → WordsIn mid high (drop n xs)
    drop-WordsIn n low mid high xs h words j a b e =
        let le = Ordered-bounds start end low mid (take n xs) h in
        elim (Covered-take_or_drop start end n j xs (words j (omega (arith, a, le)) b e)) [
          | inr k ↦ k
          | inl k ↦
              absurd (omega (arith, a, (Covered-bounds start end low mid j (take n xs) h k).1))
        ]

  -- Where the matches hold all words, there are no more words than matches.
  pub count-matches :
      (low high : ℕ) (ms : List Match)
      → MatchesOrdered low high ms
      → All (Inside text) ms
      → WordsIn match_start match_end low high ms
      → count text low high ≤ length ms
  count-matches low high [] h inside words =
      let none_there : NoWord text low high = λ j a b.
        elim (Bool-cases (holds is_alphanumeric text j)) [
          | inl e ↦ absurd (words j a b e)
          | inr e ↦ e
        ] in
      omega (arith, count-none text low high none_there)
  count-matches low high (m ∷ ms) h inside words =
      let le = Ordered-bounds match_start match_end m.end high ms h.2 in
      let gap =
        count-none text low m.start (before-NoWord match_start match_end low high m ms h words) in
      let one = count-one text m.start m.end inside.0 in
      let rest =
        count-matches m.end high ms h.2 inside.1
          (after-WordsIn match_start match_end low high m ms h words) in
      omega (
        arith,
        gap,
        one,
        rest,
        count-split text low m.start high h.0 (omega (arith, h.1, le)),
        count-split text m.start m.end high (omega (arith, h.1)) le,
      )

  -- The estimate of the span is not too low, and within the target.
  abbrev pub Within : ℕ → Span → Type 0
  Within target s =
      (s.token_estimate ≤ target) × (count text s.char_start s.char_end ≤ s.token_estimate)

  length-take : (n : ℕ) (ms : List Match) → length (take n ms) ≤ n
  length-take zero ms = omega arith
  length-take (suc n) [] = omega arith
  length-take (suc n) (m ∷ ms) = omega (arith, length-take n ms)

  tight-Ordered :
      (end mid : ℕ) (ms : List Match)
      → MatchesOrdered end mid ms
      → MatchesOrdered end (last_end end ms) ms
  tight-Ordered end mid [] h = omega arith
  tight-Ordered end mid (m ∷ ms) h = (h.0, h.1, tight-Ordered m.end mid ms h.2)

  window_span-Within :
      (low mid target : ℕ) (ms : List Match)
      → length ms ≤ target
      → MatchesOrdered low mid ms
      → All (Inside text) ms
      → WordsIn match_start match_end low mid ms
      → All (Within target) (window_span ms)
  window_span-Within low mid target [] few h inside words = tt
  window_span-Within low mid target (m ∷ ms) few h inside words =
      let (_, le) = last_end-bounds m.end mid ms h.2 in
      let tight : MatchesOrdered m.start (last_end m.end ms) (m ∷ ms) =
        (omega arith, h.1, tight-Ordered m.end mid ms h.2) in
      let words' : WordsIn match_start match_end m.start (last_end m.end ms) (m ∷ ms) =
        λ j a b e. words j (omega (arith, a, h.0)) (omega (arith, b, le)) e in
      ((few, count-matches m.start (last_end m.end ms) (m ∷ ms) tight inside words'), tt)

  All-cut :
      (n : ℕ) (ms : List Match)
      → All (Inside text) ms
      → All (Inside text) (take n ms) × All (Inside text) (drop n ms)
  All-cut zero ms h = (tt, h)
  All-cut (suc n) [] h = (tt, tt)
  All-cut (suc n) (m ∷ ms) h = let (a, b) = All-cut n ms h.1 in ((h.0, a), b)

  pub windows-Within :
      (rounds target low high : ℕ) (ms : List Match)
      → MatchesOrdered low high ms
      → All (Inside text) ms
      → WordsIn match_start match_end low high ms
      → All (Within target) (windows rounds target ms)
  unfolding windows
  windows-Within zero target low high ms h inside words = tt
  windows-Within (suc rounds) target low high ms h inside words =
      let (mid, a, b) = Ordered-cut match_start match_end target low high ms h in
      let (c, d) = All-cut target ms inside in
      All-append (Within target) (window_span (take target ms))
        (windows rounds target (drop target ms))
        (window_span-Within low mid target (take target ms) (length-take target ms) a c
          (take-WordsIn match_start match_end target low mid high ms b words))
        (windows-Within rounds target mid high (drop target ms) b d
          (drop-WordsIn match_start match_end target low mid high ms a words))
