-- ===== src/Chunking/Limit.antt =====
-- The size of the chunks that `chunk_document` of heartwood/chunking.py returns.
use heartwood_memory.Prelude.{
  ℕ, suc, zero, ◌+◌, ◌≤◌, ◌≡◌, inl, inr, List, [], ◌∷◌, length, All, Bool-cases, Option-cases,
  arith, ltb, ◌==◌, ◌||◌, Result, raise, ok, >>=-eq-ok, ok_injective, value_error,
}
use heartwood_memory.Chunking.{CodePoints, pos, Span, Chunk, find_iter, first_visible}
use heartwood_memory.Chunking.Ranges.{Ordered-bounds}
use heartwood_memory.Chunking.Blocks.{span_start, span_end, SpansOrdered}
use heartwood_memory.Chunking.Visible.{structural_spans-Ordered, structural_spans-Covered}
use heartwood_memory.Chunking.Packing.{size_bound_spans-Ordered, size_bound_spans-Covered}
use heartwood_memory.Chunking.Packed.{pack_spans-Ordered}
use heartwood_memory.Chunking.Slices.{token_count-slice}
use heartwood_memory.Chunking.Targets.{
  Small, structural_spans-Tallied, size_bound_spans-Within, pack_spans-Small,
}
use heartwood_memory.Chunking.Bounded.{Bounded, expand_rest-Bounded}
use heartwood_memory.Chunking.Complete.{word-visible}
use heartwood_memory.Chunking.Document.{
  structural_spans, size_bound_spans, pack_spans, recounted, expand_rest, expand, apply_overlap,
  chunks_from, cut_document, chunk_document,
}

module _ (text : CodePoints) (target overlap : ℕ) where
  Small-Bounded :
      (low : ℕ) (spans : List Span)
      → SpansOrdered low (length text) spans
      → All (Small text target) spans
      → All (Bounded text target overlap) spans
  Small-Bounded low [] h small = tt
  Small-Bounded low (s ∷ spans) h small = (
    (
      omega (arith, h.1),
      Ordered-bounds span_start span_end s.char_end (length text) spans h.2,
      omega (arith, small.0),
    ),
    Small-Bounded s.char_end spans h.2 small.1,
  )

  expand-Bounded :
      (low : ℕ) (spans out : List Span)
      → 1 ≤ overlap
      → SpansOrdered low (length text) spans
      → All (Small text target) spans
      → expand text (find_iter text 0 (length text)) overlap spans ≡ ok out
      → All (Bounded text target overlap) out
  unfolding expand
  expand-Bounded low [] out le h small is = rw (← ok_injective [] out is) tt
  expand-Bounded low (s ∷ spans) out le h small is =
      let ms = find_iter text 0 (length text) in
      let first = recounted text s.char_start s.char_end in
      let (rest, found, is') =
        >>=-eq-ok (expand_rest text ms overlap spans) (λ r. ok (first ∷ r)) is in
      rw (← ok_injective (first ∷ rest) out is') (
        (Small-Bounded low (s ∷ spans) h small).0,
        expand_rest-Bounded text target overlap s.char_end spans rest le h.2 small.1 found,
      )

  apply_overlap-Bounded :
      (low : ℕ) (spans out : List Span)
      → SpansOrdered low (length text) spans
      → All (Small text target) spans
      → apply_overlap text spans overlap ≡ ok out
      → All (Bounded text target overlap) out
  unfolding apply_overlap
  apply_overlap-Bounded low spans out h small is =
      elim (Bool-cases (overlap == 0 || ltb (length spans) 2)) [
        | inl e ↦ rw (← ok_injective spans out (rw e at is)) (Small-Bounded low spans h small)
        | inr e ↦ expand-Bounded low spans out (ground (arith, e)) h small (rw e at is)
      ]

  -- The chunk has no more words than the target and the overlap together.
  abbrev pub IsLimited : Chunk → Type 0
  IsLimited c = c.token_estimate ≤ target + overlap

  chunks_from-IsLimited :
      (k : ℕ) (out : List Span)
      → All (Bounded text target overlap) out
      → All IsLimited (chunks_from text k out)
  unfolding chunks_from
  chunks_from-IsLimited k [] h = tt
  chunks_from-IsLimited k (x ∷ out) h = elim (Bool-cases (ltb x.char_start x.char_end)) [
    | inr e ↦ rw e (chunks_from-IsLimited (suc k) out h.1)
    | inl e ↦
        let words = token_count-slice text x.char_start x.char_end h.0.0 h.0.1 in
        rw e (omega (arith, words, h.0.2), chunks_from-IsLimited (suc k) out h.1)
  ]

  cut_document-IsLimited :
      (chunks : List Chunk)
      → 1 ≤ target
      → cut_document text target overlap ≡ ok chunks
      → All IsLimited chunks
  cut_document-IsLimited chunks le is =
      let parts = structural_spans text in
      let bounded = size_bound_spans text target parts in
      let spans = pack_spans bounded target in
      let ordered = structural_spans-Ordered text in
      let ordered' = size_bound_spans-Ordered text target 0 (length text) parts ordered in
      let ordered'' = pack_spans-Ordered target 0 (length text) bounded ordered' in
      let small =
        pack_spans-Small text target 0 (length text) bounded ordered'
          (λ j a b e.
            size_bound_spans-Covered text target le j e parts
              (structural_spans-Covered text j (word-visible text j e).0 b))
          (size_bound_spans-Within text target 0 parts ordered (structural_spans-Tallied text)) in
      let (out, found, is') =
        >>=-eq-ok (apply_overlap text spans overlap) (λ x. ok (chunks_from text 0 x)) is in
      rw (← ok_injective (chunks_from text 0 out) chunks is')
        (chunks_from-IsLimited 0 out (apply_overlap-Bounded 0 spans out ordered'' small found))

-- No chunk that a document is cut into has more words than the target and the overlap together.
pub chunk_document-IsLimited :
    (text : CodePoints) (target overlap : ℕ) (chunks : List Chunk)
    → chunk_document text (pos target) (pos overlap) ≡ ok chunks
    → All (λ c. c.token_estimate ≤ target + overlap) chunks
unfolding chunk_document
chunk_document-IsLimited text zero overlap chunks is = cc
chunk_document-IsLimited text (suc n) overlap chunks is = elim (Bool-cases (ltb overlap (suc n))) [
  | inr e ↦ absurd (refused (rw e at is))
  | inl e ↦ elim (Option-cases (first_visible text)) [
    | inl q ↦ rw (← ok_injective [] chunks (rw (e, q) at is)) tt
    | inr (c, q) ↦
        cut_document-IsLimited text (suc n) overlap chunks (omega arith) (rw (e, q) at is)
  ]
]
  where
    refused : ◌≡◌ {A = Result (List Chunk)} (raise value_error) (ok chunks) → ⊥
    refused h = cc
