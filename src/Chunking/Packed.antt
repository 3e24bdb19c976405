-- ===== src/Chunking/Packed.antt =====
-- `_pack_spans` of heartwood/chunking.py keeps the spans in order, and all words in them.
use heartwood_memory.Prelude.{
  ℕ, ◌+◌, ◌≤◌, ◌<◌, ◌≡◌, inl, inr, none, some, List, [], ◌∷◌, Bool-cases, arith, ltb,
}
use heartwood_memory.Chunking.{Span}
use heartwood_memory.Chunking.Blocks.{SpansOrdered, SpansCovered}
use heartwood_memory.Chunking.Document.{packed, joined, pack_from}

pub packed_end : (c : Span) → c.char_start < c.char_end → (packed c).char_end ≡ c.char_end
packed_end c lt = ground (arith, lt)

module _ (target : ℕ) where
  pub pack_from-Ordered :
      (low high : ℕ) (c : Span) (spans : List Span)
      → low ≤ c.char_start
      → c.char_start < c.char_end
      → SpansOrdered c.char_end high spans
      → SpansOrdered low high (pack_from target (some c) spans)
  unfolding pack_from
  pack_from-Ordered low high c [] le lt h = rw (packed_end c lt) (le, lt, h)
  pack_from-Ordered low high c (s ∷ spans) le lt h =
      elim (Bool-cases (ltb target (c.token_estimate + s.token_estimate))) [
        | inl e ↦
            rw (e, packed_end c lt) (le, lt, pack_from-Ordered c.char_end high s spans h.0 h.1 h.2)
        | inr e ↦
            rw e
              (pack_from-Ordered low high (joined c s) spans le (omega (arith, lt, h.0, h.1)) h.2)
      ]

  -- What the span that is being packed holds, or one of those to come, is in a packed span.
  pub pack_from-Covered :
      (high j : ℕ) (c : Span) (spans : List Span)
      → c.char_start < c.char_end
      → SpansOrdered c.char_end high spans
      → SpansCovered j (c ∷ spans)
      → SpansCovered j (pack_from target (some c) spans)
  unfolding pack_from
  pack_from-Covered high j c [] lt h k = rw (packed_end c lt) k
  pack_from-Covered high j c (s ∷ spans) lt h k =
      elim (Bool-cases (ltb target (c.token_estimate + s.token_estimate))) [
        | inl e ↦
            rw (e, packed_end c lt)
              (elim k [ inl q ↦ inl q | inr q ↦ inr (pack_from-Covered high j s spans h.1 h.2 q) ])
        | inr e ↦
            rw e (
              pack_from-Covered high j (joined c s) spans (omega (arith, lt, h.0, h.1)) h.2
                (join k))
      ]
    where
      join : SpansCovered j (c ∷ s ∷ spans) → SpansCovered j (joined c s ∷ spans)
      join (inl q) = inl (q.0, omega (arith, q.1, h.0, h.1))
      join (inr (inl q)) = inl (omega (arith, lt, h.0, q.0), q.1)
      join (inr (inr q)) = inr q

  pub pack_spans-Ordered :
      (low high : ℕ) (spans : List Span)
      → SpansOrdered low high spans
      → SpansOrdered low high (pack_from target none spans)
  unfolding pack_from
  pack_spans-Ordered low high [] h = h
  pack_spans-Ordered low high (s ∷ spans) h = pack_from-Ordered low high s spans h.0 h.1 h.2

  pub pack_spans-Covered :
      (low high j : ℕ) (spans : List Span)
      → SpansOrdered low high spans
      → SpansCovered j spans
      → SpansCovered j (pack_from target none spans)
  unfolding pack_from
  pack_spans-Covered low high j (s ∷ spans) h k = pack_from-Covered high j s spans h.1 h.2 k
  pack_spans-Covered low high j [] h k = absurd k
