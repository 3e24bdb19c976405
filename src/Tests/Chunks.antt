-- ===== src/Tests/Chunks.antt =====
-- A small document and its chunks, and the theorems applied to it.
use heartwood_memory.Prelude.{ℕ, List, [], ◌∷◌, Result, ok, ◌>>=◌, ◌≡◌, ◌+◌, ◌≤◌, All, refl, arith}
use heartwood_memory.Chunking.{
  CodePoints, pos, Chunk, split_lines, first_visible, find_from, append_span, is_space,
  is_alphanumeric, is_line_break, skip_start, skip_end,
}
use heartwood_memory.Chunking.Complete.{Keeps, chunk_document-Keeps}
use heartwood_memory.Chunking.Limit.{chunk_document-IsLimited}
use heartwood_memory.Chunking.Document.{
  chunk_document, apply_overlap, expand, expand_rest, overlap_start, chunks_from, pack_from,
  size_bound_spans, size_bound_span, windows, structural_from, close_block,
}

-- Three words in two lines, a blank line, and a heading: "a b\nc\n \n#d"
abbrev document : CodePoints
document = 97 ∷ 32 ∷ 98 ∷ 10 ∷ 99 ∷ 10 ∷ 32 ∷ 10 ∷ 35 ∷ 100 ∷ []

abbrev ranges : List Chunk → List (ℕ × ℕ × ℕ)
ranges [] = []
ranges (c ∷ chunks) = (c.char_start, c.char_end, c.token_estimate) ∷ ranges chunks

abbrev ranges_of : Result (List Chunk) → Result (List (ℕ × ℕ × ℕ))
ranges_of r = do chunks ← r; ok (ranges chunks)

two_words : ranges_of (chunk_document document (pos 2) (pos 1)) ≡ ok ((0, 3, 2) ∷ (2, 10, 3) ∷ [])
unfolding chunk_document split_lines first_visible find_from append_span is_space is_alphanumeric
    is_line_break skip_start skip_end apply_overlap expand expand_rest overlap_start chunks_from
    pack_from size_bound_spans size_bound_span windows structural_from close_block
two_words = refl

abbrev chunked : List Chunk
chunked =
    record {
      ordinal = 0;
      text = 97 ∷ 32 ∷ 98 ∷ [];
      char_start = 0;
      char_end = 3;
      token_estimate = 2;
    }
    ∷ record {
      ordinal = 1;
      text = 98 ∷ 10 ∷ 99 ∷ 10 ∷ 32 ∷ 10 ∷ 35 ∷ 100 ∷ [];
      char_start = 2;
      char_end = 10;
      token_estimate = 3;
    }
    ∷ []

is_chunked : chunk_document document (pos 2) (pos 1) ≡ ok chunked
unfolding chunk_document split_lines first_visible find_from append_span is_space is_alphanumeric
    is_line_break skip_start skip_end apply_overlap expand expand_rest overlap_start chunks_from
    pack_from size_bound_spans size_bound_span windows structural_from close_block
is_chunked = refl

chunk_document-Keeps_example :
    (chunks : List Chunk) × (chunk_document document (pos 2) (pos 1) ≡ ok chunks)
    × Keeps document chunks
chunk_document-Keeps_example = chunk_document-Keeps document (pos 2) (pos 1) (omega arith)

chunk_document-IsLimited_example : All (λ (c : Chunk). c.token_estimate ≤ 2 + 1) chunked
chunk_document-IsLimited_example = chunk_document-IsLimited document 2 1 chunked is_chunked
