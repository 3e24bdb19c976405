-- ===== src/Chunking/Targets.antt =====
-- The spans that heartwood/chunking.py packs hold no more words than the target.
use heartwood_memory.Prelude.{
  ℕ, ◌+◌, ◌-◌, ◌≤◌, ◌<◌, ◌≡◌, refl, ◌∙◌, inl, inr, false, Option, none, some, List, [], ◌∷◌, length,
  All, All-append, Bool-cases, arith, ltb, leb, ◌==◌,
}
use heartwood_memory.Chunking.{
  CodePoints, Match, Span, slice, token_count, find_iter, append_span, span_if_any, skip_start,
  skip_end, first_visible, split_lines,
}
use heartwood_memory.Chunking.Ranges.{Ordered-bounds}
use heartwood_memory.Chunking.Runs.{find_iter-Ordered, find_iter-Covered}
use heartwood_memory.Chunking.Blocks.{span_start, span_end, SpansOrdered}
use heartwood_memory.Chunking.Packed.{packed_end}
use heartwood_memory.Chunking.Counts.{count, count-split, count-none, find_iter-Inside}
use heartwood_memory.Chunking.Slices.{token_count-slice}
use heartwood_memory.Chunking.Sizes.{WordsIn, before-NoWord, after-WordsIn, Within, windows-Within}
use heartwood_memory.Chunking.Document.{
  Block, close_block, closed_by_line, block_after, structural_from, structural_spans, windows,
  split_matches, size_bound_span, size_bound_spans, joined, pack_from,
}

module _ (text : CodePoints) where
  -- The estimate of the span is the number of words in its slice.
  abbrev pub Tallied : Span → Type 0
  Tallied s = s.token_estimate ≡ token_count (slice text s.char_start s.char_end)

  span_if_any-Tallied : (start end : ℕ) → All Tallied (span_if_any text start end)
  span_if_any-Tallied start end = elim (Bool-cases (ltb start end)) [
    | inl e ↦ rw (e, All) (refl, tt)
    | inr e ↦ rw (e, All) tt
  ]

  close_block-Tallied : (block : Block) → All Tallied (close_block text block)
  unfolding close_block append_span
  close_block-Tallied none = tt
  close_block-Tallied (some (start, end)) =
      let first = skip_start text start (end - start) in
      span_if_any-Tallied first (skip_end text first (end - first))

  closed_by_line-Tallied :
      (seen : Option ℕ) (block : Block) → All Tallied (closed_by_line text seen block)
  closed_by_line-Tallied none block = close_block-Tallied block
  closed_by_line-Tallied (some c) block = elim (Bool-cases (c == 35)) [
    | inl e ↦ rw e (close_block-Tallied block)
    | inr e ↦ rw e tt
  ]

  structural_from-Tallied :
      (offset : ℕ) (block : Block) (lines : List CodePoints)
      → All Tallied (structural_from text offset block lines)
  unfolding structural_from
  structural_from-Tallied offset block [] = close_block-Tallied block
  structural_from-Tallied offset block (line ∷ lines) =
      let seen = first_visible line in
      let next = offset + length line in
      All-append Tallied (closed_by_line text seen block)
        (structural_from text next (block_after seen block offset next) lines)
        (closed_by_line-Tallied seen block)
        (structural_from-Tallied next (block_after seen block offset next) lines)

  pub structural_spans-Tallied : All Tallied (structural_spans text)
  structural_spans-Tallied = structural_from-Tallied 0 none (split_lines text)

  module _ (target : ℕ) where
    split_matches-Within :
        (s : Span) (ms : List Match)
        → s.char_start < s.char_end
        → s.token_estimate ≡ length ms
        → count text s.char_start s.char_end ≡ length ms
        → All (Within text target) (windows (length ms) target ms)
        → All (Within text target) (split_matches target s ms)
    split_matches-Within s [] lt tally counted h =
        ((omega (arith, tally), omega (arith, counted)), tt)
    split_matches-Within s (m ∷ ms) lt tally counted h = h

    size_bound_span-Within :
        (s : Span)
        → s.char_start < s.char_end
        → s.char_end ≤ length text
        → Tallied s
        → All (Within text target) (size_bound_span text target s)
    unfolding size_bound_span
    size_bound_span-Within s lt inside tally =
        let tally' : s.token_estimate ≡ count text s.char_start s.char_end =
          tally ∙ token_count-slice text s.char_start s.char_end (omega (arith, lt)) inside in
        elim (Bool-cases (leb s.token_estimate target)) [
          | inl e ↦ rw (e, All) ((ground (arith, e), omega (arith, tally')), tt)
          | inr e ↦
              let ms = find_iter text s.char_start s.char_end in
              rw e (
                split_matches-Within s ms lt tally' refl (
                  windows-Within text (length ms) target s.char_start s.char_end ms
                    (find_iter-Ordered text s.char_start s.char_end (omega (arith, lt)))
                    (find_iter-Inside text s.char_start s.char_end)
                    (λ j a b c. find_iter-Covered text s.char_start s.char_end j c a b)))
        ]

    pub size_bound_spans-Within :
        (low : ℕ) (spans : List Span)
        → SpansOrdered low (length text) spans
        → All Tallied spans
        → All (Within text target) (size_bound_spans text target spans)
    unfolding size_bound_spans
    size_bound_spans-Within low [] h tally = tt
    size_bound_spans-Within low (s ∷ spans) h tally =
        All-append (Within text target) (size_bound_span text target s)
          (size_bound_spans text target spans)
          (size_bound_span-Within s h.1
            (Ordered-bounds span_start span_end s.char_end (length text) spans h.2) tally.0)
          (size_bound_spans-Within s.char_end spans h.2 tally.1)

    -- There are no more words in the span than the target.
    abbrev pub Small : Span → Type 0
    Small s = count text s.char_start s.char_end ≤ target

    joined-Within :
        (high : ℕ) (c s : Span) (spans : List Span)
        → c.char_start < c.char_end
        → SpansOrdered c.char_end high (s ∷ spans)
        → WordsIn text span_start span_end c.char_end high (s ∷ spans)
        → Within text target c
        → Within text target s
        → ltb target (c.token_estimate + s.token_estimate) ≡ false
        → Within text target (joined c s)
    joined-Within high c s spans lt h words w v fits =
        let gap =
          count-none text c.char_end s.char_start
            (before-NoWord text span_start span_end c.char_end high s spans h words) in
        (
          ground (arith, fits),
          omega (
            arith,
            gap,
            w.1,
            v.1,
            count-split text c.char_start c.char_end s.char_end (omega (arith, lt))
                (omega (arith, h.0, h.1)),
            count-split text c.char_end s.char_start s.char_end h.0 (omega (arith, h.1)),
          ),
        )

    pack_from-Small :
        (high : ℕ) (c : Span) (spans : List Span)
        → c.char_start < c.char_end
        → SpansOrdered c.char_end high spans
        → WordsIn text span_start span_end c.char_end high spans
        → Within text target c
        → All (Within text target) spans
        → All Small (pack_from target (some c) spans)
    unfolding pack_from
    pack_from-Small high c [] lt h words w ws = rw (packed_end c lt) (omega (arith, w.0, w.1), tt)
    pack_from-Small high c (s ∷ spans) lt h words w ws =
        let words' = after-WordsIn text span_start span_end c.char_end high s spans h words in
        elim (Bool-cases (ltb target (c.token_estimate + s.token_estimate))) [
          | inl e ↦
              rw (e, packed_end c lt)
                (omega (arith, w.0, w.1), pack_from-Small high s spans h.1 h.2 words' ws.0 ws.1)
          | inr e ↦ rw e (
              pack_from-Small high (joined c s) spans (omega (arith, lt, h.0, h.1)) h.2 words'
                (joined-Within high c s spans lt h words w ws.0 e) ws.1)
        ]

    pub pack_spans-Small :
        (low high : ℕ) (spans : List Span)
        → SpansOrdered low high spans
        → WordsIn text span_start span_end low high spans
        → All (Within text target) spans
        → All Small (pack_from target none spans)
    unfolding pack_from
    pack_spans-Small low high [] h words ws = tt
    pack_spans-Small low high (s ∷ spans) h words ws =
        pack_from-Small high s spans h.1 h.2
          (after-WordsIn text span_start span_end low high s spans h words) ws.0 ws.1
