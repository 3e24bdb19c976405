-- ===== src/Chunking/Visible.antt =====
-- `_structural_spans` of heartwood/chunking.py loses nothing of the text but white space.
use heartwood_memory.Prelude.{
  ℕ, suc, zero, ◌+◌, ◌-◌, ◌≤◌, ◌<◌, ◌≡◌, refl, sym, ◌∙◌, inl, inr, Bool, true, false, Option, none,
  some, List, [], ◌∷◌, ◌++◌, length, Bool-cases, arith, ◌==◌, ltb, ltb→lt, ◌⊎◌, subst, ap,
  length-append,
}
use heartwood_memory.Chunking.{CodePoints, holds, is_space, first_visible, split_lines}
use heartwood_memory.Chunking.Ranges.{Covered-left, Covered-right}
use heartwood_memory.Chunking.Blocks.{
  span_start, span_end, SpansOrdered, SpansCovered, append_span-Covered,
}
use heartwood_memory.Chunking.Document.{
  Block, close_block, closed_by_line, extend_block, block_after, structural_from, structural_spans,
}
use heartwood_memory.Chunking.Structure.{
  after_lines, joined_lines, joined-split_lines, Open, line-Ordered, structural_from-Ordered,
}

-- The lines are what the text holds from the offset on.
abbrev Reads : CodePoints → ℕ → List CodePoints → Type 0
Reads text offset lines =
    (j : ℕ) → holds is_space text (offset + j) ≡ holds is_space (joined_lines lines) j

holds-append_right :
    (p : ℕ → Bool) (xs ys : CodePoints) (j : ℕ) → holds p (xs ++ ys) (length xs + j) ≡ holds p ys j
holds-append_right p [] ys j = ap (holds p ys) (omega arith)
holds-append_right p (x ∷ xs) ys j =
    let same : suc (length xs) + j ≡ suc (length xs + j) = omega arith in
    rw same (holds-append_right p xs ys j)

pub blank_line :
    (line rest : CodePoints) (j : ℕ)
    → first_visible line ≡ none
    → j < length line
    → holds is_space (line ++ rest) j ≡ true
unfolding first_visible
blank_line [] rest j e lt = absurd (omega (arith, lt))
blank_line (c ∷ line) rest j e lt = elim (Bool-cases (is_space c)) [
  | inl k ↦ here k j lt (blank_line line rest) e
  | inr k ↦ absurd (seen k e)
]
  where
    seen : is_space c ≡ false → first_visible (c ∷ line) ≡ none → ⊥
    seen k h = ground (arith, k, h)

    here :
        is_space c ≡ true
        → (j : ℕ) → j < suc (length line)
        → ((i : ℕ)
            → first_visible line ≡ none
            → i < length line
            → holds is_space (line ++ rest) i ≡ true)
        → first_visible (c ∷ line) ≡ none
        → holds is_space (c ∷ line ++ rest) j ≡ true
    here k zero h ih e = k
    here k (suc i) h ih e = ih i (rw (k, first_visible) at e) (omega (arith, h))

-- What the block and the lines after it reach.
abbrev Reached : ℕ → ℕ → Block → Type 0
Reached i offset none = offset ≤ i
Reached i offset (some (start, end)) = start ≤ i

close_block-Covered :
    (text : CodePoints) (low i offset : ℕ) (block : Block)
    → holds is_space text i ≡ false
    → Open low offset block
    → Reached i offset block
    → i < offset
    → SpansCovered i (close_block text block)
unfolding close_block
close_block-Covered text low i offset none e o h lt = absurd (omega (arith, h, lt))
close_block-Covered text low i offset (some (start, end)) e o h lt =
    append_span-Covered text start end i e h (omega (arith, lt, o.2))

line-Covered :
    (text : CodePoints) (low i offset size : ℕ) (block : Block) (seen : Option ℕ)
    → holds is_space text i ≡ false
    → (seen ≡ none → offset ≤ i → i < offset + size → ⊥)
    → Open low offset block
    → Reached i offset block
    → SpansCovered i (closed_by_line text seen block)
      ⊎ Reached i (offset + size) (block_after seen block offset (offset + size))
line-Covered text low i offset size block none e blank o h = elim (Bool-cases (ltb i offset)) [
  | inl k ↦ inl (close_block-Covered text low i offset block e o h (ltb→lt i offset k))
  | inr k ↦ elim (Bool-cases (ltb i (offset + size))) [
    | inl m ↦ absurd (blank refl (ground (arith, k)) (ltb→lt i (offset + size) m))
    | inr m ↦ inr (ground (arith, m))
  ]
]
line-Covered text low i offset size block (some c) e blank o h = elim (Bool-cases (c == 35)) [
  | inl q ↦ elim (Bool-cases (ltb i offset)) [
    | inl k ↦ inl (rw q (close_block-Covered text low i offset block e o h (ltb→lt i offset k)))
    | inr k ↦ inr (rw q (ground (arith, k)))
  ]
  | inr q ↦ inr (rw q (extended block h))
]
  where
    extended :
        (b : Block)
        → Reached i offset b
        → Reached i (offset + size) (extend_block b offset (offset + size))
    extended none r = r
    extended (some (s, t)) r = r

structural_from-Covered :
    (text : CodePoints) (low i offset : ℕ) (block : Block) (lines : List CodePoints)
    → holds is_space text i ≡ false
    → Reads text offset lines
    → Open low offset block
    → Reached i offset block
    → i < after_lines offset lines
    → SpansCovered i (structural_from text offset block lines)
unfolding structural_from
structural_from-Covered text low i offset block [] e reads o h lt =
    close_block-Covered text low i offset block e o h lt
structural_from-Covered text low i offset block (line ∷ lines) e reads o h lt =
    let seen = first_visible line in
    let next = offset + length line in
    let after = block_after seen block offset next in
    let rest = structural_from text next after lines in
    let (mid, _, right) = line-Ordered text low offset (length line) block seen o in
    elim (line-Covered text low i offset (length line) block seen e blank o h) [
      | inl k ↦ Covered-left span_start span_end i (closed_by_line text seen block) rest k
      | inr k ↦
          Covered-right span_start span_end i (closed_by_line text seen block) rest
            (structural_from-Covered text mid i next after lines e further right k lt)
    ]
  where
    blank : first_visible line ≡ none → offset ≤ i → i < offset + length line → ⊥
    blank b le ls =
        let back : offset + (i - offset) ≡ i = omega (arith, le) in
        let there : holds is_space text (offset + (i - offset)) ≡ false = rw back e in
        cc (
          there,
          reads (i - offset),
          blank_line line (joined_lines lines) (i - offset) b (omega (arith, le, ls)),
        )

    further : Reads text (offset + length line) lines
    further j =
        let same : offset + length line + j ≡ offset + (length line + j) = omega arith in
        rw same (reads (length line + j) ∙ holds-append_right is_space line (joined_lines lines) j)

after_lines-length :
    (offset : ℕ) (lines : List CodePoints)
    → after_lines offset lines ≡ offset + length (joined_lines lines)
after_lines-length offset [] = omega arith
after_lines-length offset (line ∷ lines) = omega (
  arith,
  after_lines-length (offset + length line) lines,
  length-append {0} line (joined_lines lines),
)

lines_end : (text : CodePoints) → after_lines 0 (split_lines text) ≡ length text
lines_end text =
    omega (arith, after_lines-length 0 (split_lines text), ap length (joined-split_lines text))

-- The structural spans of a text are in order and lie inside of it.
pub structural_spans-Ordered :
    (text : CodePoints) → SpansOrdered 0 (length text) (structural_spans text)
structural_spans-Ordered text =
    subst (λ (high : ℕ). SpansOrdered 0 high (structural_spans text)) (lines_end text)
      (structural_from-Ordered text 0 0 none (split_lines text) (omega arith))

-- Each position of the text that is not white space is in a structural span.
pub structural_spans-Covered :
    (text : CodePoints) (i : ℕ)
    → holds is_space text i ≡ false
    → i < length text
    → SpansCovered i (structural_spans text)
structural_spans-Covered text i e lt =
    structural_from-Covered text 0 i 0 none (split_lines text) e reads (omega arith) (omega arith)
      (omega (arith, lt, lines_end text))
  where
    reads : Reads text 0 (split_lines text)
    reads j =
        let same : 0 + j ≡ j = omega arith in
        rw same (ap (λ (t : CodePoints). holds is_space t j) (sym (joined-split_lines text)))
