-- ===== src/Chunking/Packing.antt =====
-- `_size_bound_spans` of heartwood/chunking.py keeps the spans in order, and all words
-- in them.
use heartwood_memory.Prelude.{
  ℕ, suc, zero, ◌≤◌, ◌<◌, ◌≡◌, inl, inr, true, List, [], ◌∷◌, length, Bool-cases, arith, leb,
}
use heartwood_memory.Chunking.{
  CodePoints, holds, is_alphanumeric, Match, Span, take, drop, find_iter,
}
use heartwood_memory.Chunking.Ranges.{
  Ordered-append, Ordered-lower, Ordered-bounds, Ordered-cut, Covered-left, Covered-right,
  Covered-bounds, Covered-take_or_drop,
}
use heartwood_memory.Chunking.Runs.{
  match_start, match_end, MatchesOrdered, MatchesCovered, find_iter-Ordered, find_iter-Covered,
}
use heartwood_memory.Chunking.Blocks.{span_start, span_end, SpansOrdered, SpansCovered}
use heartwood_memory.Chunking.Document.{
  last_end, window_span, windows, split_matches, size_bound_span, size_bound_spans,
}

pub last_end-bounds :
    (end mid : ℕ) (ms : List Match)
    → MatchesOrdered end mid ms
    → (end ≤ last_end end ms) × (last_end end ms ≤ mid)
last_end-bounds end mid [] h = (omega arith, h)
last_end-bounds end mid (m ∷ ms) h =
    let (a, b) = last_end-bounds m.end mid ms h.2 in (omega (arith, h.0, h.1, a), b)

last_end-Covered :
    (end mid j : ℕ) (ms : List Match)
    → MatchesOrdered end mid ms
    → MatchesCovered j ms
    → j < last_end end ms
last_end-Covered end mid j (m ∷ ms) h (inl k) =
    omega (arith, k.1, (last_end-bounds m.end mid ms h.2).0)
last_end-Covered end mid j (m ∷ ms) h (inr k) = last_end-Covered m.end mid j ms h.2 k
last_end-Covered end mid j [] h k = absurd k

window_span-Ordered :
    (low mid : ℕ) (ms : List Match)
    → MatchesOrdered low mid ms
    → SpansOrdered low mid (window_span ms)
window_span-Ordered low mid [] h = h
window_span-Ordered low mid (m ∷ ms) h =
    let (a, b) = last_end-bounds m.end mid ms h.2 in (h.0, omega (arith, h.1, a), b)

window_span-Covered :
    (low mid j : ℕ) (ms : List Match)
    → MatchesOrdered low mid ms
    → MatchesCovered j ms
    → SpansCovered j (window_span ms)
window_span-Covered low mid j (m ∷ ms) h (inl k) =
    inl (k.0, omega (arith, k.1, (last_end-bounds m.end mid ms h.2).0))
window_span-Covered low mid j (m ∷ ms) h (inr k) =
    let (a, _) = Covered-bounds match_start match_end m.end mid j ms h.2 k in
    inl (omega (arith, h.1, a), last_end-Covered m.end mid j ms h.2 k)
window_span-Covered low mid j [] h k = absurd k

windows-Ordered :
    (rounds target low high : ℕ) (ms : List Match)
    → MatchesOrdered low high ms
    → SpansOrdered low high (windows rounds target ms)
unfolding windows
windows-Ordered zero target low high ms h = Ordered-bounds match_start match_end low high ms h
windows-Ordered (suc rounds) target low high ms h =
    let (mid, a, b) = Ordered-cut match_start match_end target low high ms h in
    Ordered-append span_start span_end low mid high (window_span (take target ms))
      (windows rounds target (drop target ms)) (window_span-Ordered low mid (take target ms) a)
      (windows-Ordered rounds target mid high (drop target ms) b)

length-drop : (n : ℕ) (ms : List Match) → length (drop n ms) ≤ length ms
length-drop zero ms = omega arith
length-drop (suc n) [] = omega arith
length-drop (suc n) (m ∷ ms) = omega (arith, length-drop n ms)

fewer_left :
    (target rounds : ℕ) (ms : List Match)
    → 1 ≤ target
    → length ms ≤ suc rounds
    → length (drop target ms) ≤ rounds
fewer_left zero rounds ms p le = absurd (omega (arith, p))
fewer_left (suc n) rounds [] p le = omega arith
fewer_left (suc n) rounds (m ∷ ms) p le = omega (arith, length-drop n ms, le)

windows-Covered :
    (rounds target low high j : ℕ) (ms : List Match)
    → 1 ≤ target
    → length ms ≤ rounds
    → MatchesOrdered low high ms
    → MatchesCovered j ms
    → SpansCovered j (windows rounds target ms)
unfolding windows
windows-Covered zero target low high j [] p le h k = absurd k
windows-Covered zero target low high j (m ∷ ms) p le h k = absurd (omega (arith, le))
windows-Covered (suc rounds) target low high j ms p le h k =
    let (mid, a, b) = Ordered-cut match_start match_end target low high ms h in
    let first = window_span (take target ms) in
    let rest = windows rounds target (drop target ms) in
    elim (Covered-take_or_drop match_start match_end target j ms k) [
      | inl q ↦
          Covered-left span_start span_end j first rest
            (window_span-Covered low mid j (take target ms) a q)
      | inr q ↦ Covered-right span_start span_end j first rest (
          windows-Covered rounds target mid high j (drop target ms) p
            (fewer_left target rounds ms p le) b q)
    ]

module _ (text : CodePoints) (target : ℕ) where
  split_matches-Ordered :
      (s : Span) (ms : List Match)
      → s.char_start < s.char_end
      → MatchesOrdered s.char_start s.char_end ms
      → SpansOrdered s.char_start s.char_end (split_matches target s ms)
  split_matches-Ordered s [] lt h = (omega arith, lt, omega arith)
  split_matches-Ordered s (m ∷ ms) lt h =
      windows-Ordered (length (m ∷ ms)) target s.char_start s.char_end (m ∷ ms) h

  size_bound_span-Ordered :
      (s : Span)
      → s.char_start < s.char_end
      → SpansOrdered s.char_start s.char_end (size_bound_span text target s)
  unfolding size_bound_span
  size_bound_span-Ordered s lt = elim (Bool-cases (leb s.token_estimate target)) [
    | inl e ↦ rw e (omega arith, lt, omega arith)
    | inr e ↦ rw e (
        split_matches-Ordered s (find_iter text s.char_start s.char_end) lt
          (find_iter-Ordered text s.char_start s.char_end (omega (arith, lt))))
  ]

  pub size_bound_spans-Ordered :
      (low high : ℕ) (spans : List Span)
      → SpansOrdered low high spans
      → SpansOrdered low high (size_bound_spans text target spans)
  unfolding size_bound_spans
  size_bound_spans-Ordered low high [] h = h
  size_bound_spans-Ordered low high (s ∷ spans) h =
      Ordered-append span_start span_end low s.char_end high (size_bound_span text target s)
        (size_bound_spans text target spans)
        (Ordered-lower span_start span_end low s.char_start s.char_end
          (size_bound_span text target s) h.0 (size_bound_span-Ordered s h.1))
        (size_bound_spans-Ordered s.char_end high spans h.2)

  module _ (some_target : 1 ≤ target) (j : ℕ) (in_word : holds is_alphanumeric text j ≡ true) where
    split_matches-Covered :
        (s : Span) (ms : List Match)
        → MatchesOrdered s.char_start s.char_end ms
        → MatchesCovered j ms
        → SpansCovered j (split_matches target s ms)
    split_matches-Covered s (m ∷ ms) h k =
        windows-Covered (length (m ∷ ms)) target s.char_start s.char_end j (m ∷ ms) some_target
          (omega arith) h k
    split_matches-Covered s [] h k = absurd k

    size_bound_span-Covered :
        (s : Span)
        → s.char_start ≤ j
        → j < s.char_end
        → SpansCovered j (size_bound_span text target s)
    unfolding size_bound_span
    size_bound_span-Covered s le lt = elim (Bool-cases (leb s.token_estimate target)) [
      | inl e ↦ rw e (inl (le, lt))
      | inr e ↦ rw e (
          split_matches-Covered s (find_iter text s.char_start s.char_end)
            (find_iter-Ordered text s.char_start s.char_end (omega (arith, le, lt)))
            (find_iter-Covered text s.char_start s.char_end j in_word le lt))
    ]

    pub size_bound_spans-Covered :
        (spans : List Span)
        → SpansCovered j spans
        → SpansCovered j (size_bound_spans text target spans)
    unfolding size_bound_spans
    size_bound_spans-Covered (s ∷ spans) (inl k) =
        Covered-left span_start span_end j (size_bound_span text target s)
          (size_bound_spans text target spans) (size_bound_span-Covered s k.0 k.1)
    size_bound_spans-Covered (s ∷ spans) (inr k) =
        Covered-right span_start span_end j (size_bound_span text target s)
          (size_bound_spans text target spans) (size_bound_spans-Covered spans k)
    size_bound_spans-Covered [] k = absurd k
