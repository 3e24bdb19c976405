-- ===== src/Chunking/Structure.antt =====
-- `_structural_spans` of heartwood/chunking.py, over the lines of the text: its spans are in order, and
-- hold everything that is not white space.
use heartwood_memory.Prelude.{
  ℕ, ◌+◌, ◌≤◌, ◌≡◌, refl, ◌∙◌, inl, inr, Bool, true, false, Option, none, some, List, [], ◌∷◌, ◌++◌,
  length, Bool-cases, arith, ◌==◌,
}
use heartwood_memory.Chunking.{
  CodePoints, append_span, first_visible, split_lines, add_to_lines, ends_line,
}
use heartwood_memory.Chunking.Ranges.{Ordered-append, Ordered-lower}
use heartwood_memory.Chunking.Blocks.{span_start, span_end, SpansOrdered, append_span-Ordered}
use heartwood_memory.Chunking.Document.{
  Block, close_block, closed_by_line, block_after, structural_from,
}

-- The end of the lines, put one after the other.
abbrev pub after_lines : ℕ → List CodePoints → ℕ
after_lines offset [] = offset
after_lines offset (line ∷ lines) = after_lines (offset + length line) lines

abbrev pub joined_lines : List CodePoints → CodePoints
joined_lines [] = []
joined_lines (line ∷ lines) = line ++ joined_lines lines

pub joined-split_lines : (text : CodePoints) → joined_lines (split_lines text) ≡ text
unfolding split_lines
joined-split_lines [] = refl
joined-split_lines (c ∷ text) =
    added (ends_line c text) c (split_lines text) ∙ cc (joined-split_lines text)
  where
    added :
        (b : Bool) (c : ℕ) (lines : List CodePoints)
        → joined_lines (add_to_lines b c lines) ≡ c ∷ joined_lines lines
    added true c lines = refl
    added false c [] = refl
    added false c (l ∷ lines) = refl

-- A block ends where the next line begins.
abbrev pub Open : ℕ → ℕ → Block → Type 0
Open low offset none = low ≤ offset
Open low offset (some (start, end)) = (low ≤ start) × (start ≤ end) × (end ≡ offset)

pub close_block-Ordered :
    (text : CodePoints) (low offset : ℕ) (block : Block)
    → Open low offset block
    → SpansOrdered low offset (close_block text block)
unfolding close_block
close_block-Ordered text low offset none h = h
close_block-Ordered text low offset (some (start, end)) h = rw (← h.2) (
    Ordered-lower span_start span_end low start end (append_span text start end) h.0
      (append_span-Ordered text start end h.1))

pub line-Ordered :
    (text : CodePoints) (low offset size : ℕ) (block : Block) (seen : Option ℕ)
    → Open low offset block
    → (mid : ℕ) × SpansOrdered low mid (closed_by_line text seen block)
      × Open mid (offset + size) (block_after seen block offset (offset + size))
line-Ordered text low offset size block none h =
    (offset, close_block-Ordered text low offset block h, omega arith)
line-Ordered text low offset size none (some c) h = elim (Bool-cases (c == 35)) [
  | inl e ↦ (
    offset,
    rw e (close_block-Ordered text low offset none h),
    rw e (omega arith, omega arith, refl),
  )
  | inr e ↦ (low, rw e (omega arith), rw e (h, omega arith, refl))
]
line-Ordered text low offset size (some (start, end)) (some c) h = elim (Bool-cases (c == 35)) [
  | inl e ↦ (
    offset,
    rw e (close_block-Ordered text low offset (some (start, end)) h),
    rw e (omega arith, omega arith, refl),
  )
  | inr e ↦ (low, rw e (omega arith), rw e (h.0, omega (arith, h.1, h.2), refl))
]

pub structural_from-Ordered :
    (text : CodePoints) (low offset : ℕ) (block : Block) (lines : List CodePoints)
    → Open low offset block
    → SpansOrdered low (after_lines offset lines) (structural_from text offset block lines)
unfolding structural_from
structural_from-Ordered text low offset block [] h = close_block-Ordered text low offset block h
structural_from-Ordered text low offset block (line ∷ lines) h =
    let seen = first_visible line in
    let next = offset + length line in
    let (mid, left, right) = line-Ordered text low offset (length line) block seen h in
    Ordered-append span_start span_end low mid (after_lines next lines)
      (closed_by_line text seen block)
      (structural_from text next (block_after seen block offset next) lines) left
      (structural_from-Ordered text mid next (block_after seen block offset next) lines right)
