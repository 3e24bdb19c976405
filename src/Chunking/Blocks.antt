-- ===== src/Chunking/Blocks.antt =====
-- What `_structural_spans` of heartwood/chunking.py finds: spans in order, which hold everything that
-- is not white space.
use heartwood_memory.Prelude.{
  ℕ, suc, zero, ◌+◌, ◌-◌, ◌≤◌, ◌<◌, ◌≡◌, inl, inr, true, false, List, Bool-cases, arith, ◌==◌, ltb,
  ltb→lt,
}
use heartwood_memory.Chunking.{
  CodePoints, holds, is_space, Span, skip_start, skip_end, span_if_any, append_span,
}
use heartwood_memory.Chunking.Ranges.{Ordered, Covered}
use heartwood_memory.Chunking.Runs.{same_place}

abbrev pub span_start : Span → ℕ
span_start s = s.char_start

abbrev pub span_end : Span → ℕ
span_end s = s.char_end

abbrev pub SpansOrdered : ℕ → ℕ → List Span → Type 0
SpansOrdered = Ordered span_start span_end

abbrev pub SpansCovered : ℕ → List Span → Type 0
SpansCovered = Covered span_start span_end

skip_start-bounds :
    (text : CodePoints) (start n : ℕ)
    → (start ≤ skip_start text start n) × (skip_start text start n ≤ start + n)
unfolding skip_start
skip_start-bounds text start zero = (omega arith, omega arith)
skip_start-bounds text start (suc n) =
    let (a, b) = skip_start-bounds text (suc start) n in
    elim (Bool-cases (holds is_space text start)) [
      | inl e ↦ rw (e, skip_start) (omega (arith, a), omega (arith, b))
      | inr e ↦ rw (e, skip_start) (omega arith, omega arith)
    ]

skip_start-keeps :
    (text : CodePoints) (start n i : ℕ)
    → holds is_space text i ≡ false
    → start ≤ i
    → i < start + n
    → skip_start text start n ≤ i
unfolding skip_start
skip_start-keeps text start zero i e le lt = absurd (omega (arith, le, lt))
skip_start-keeps text start (suc n) i e le lt = elim (Bool-cases (holds is_space text start)) [
  | inr k ↦ rw (k, skip_start) le
  | inl k ↦
      rw (k, skip_start) (skip_start-keeps text (suc start) n i e (passed k) (omega (arith, lt)))
]
  where
    passed : holds is_space text start ≡ true → suc start ≤ i
    passed k = elim (Bool-cases (start == i)) [
      | inl q ↦ absurd (ground (arith, k, e, same_place start i q is_space text))
      | inr q ↦ ground (arith, q, le)
    ]

skip_end-bounds :
    (text : CodePoints) (start n : ℕ)
    → (start ≤ skip_end text start n) × (skip_end text start n ≤ start + n)
unfolding skip_end
skip_end-bounds text start zero = (omega arith, omega arith)
skip_end-bounds text start (suc n) =
    let (a, b) = skip_end-bounds text start n in
    elim (Bool-cases (holds is_space text (start + n))) [
      | inl e ↦ rw (e, skip_end) (a, omega (arith, b))
      | inr e ↦ rw (e, skip_end) (omega arith, omega arith)
    ]

skip_end-keeps :
    (text : CodePoints) (start n i : ℕ)
    → holds is_space text i ≡ false
    → start ≤ i
    → i < start + n
    → i < skip_end text start n
unfolding skip_end
skip_end-keeps text start zero i e le lt = absurd (omega (arith, le, lt))
skip_end-keeps text start (suc n) i e le lt = elim (Bool-cases (holds is_space text (start + n))) [
  | inr k ↦ rw (k, skip_end) lt
  | inl k ↦ rw (k, skip_end) (skip_end-keeps text start n i e le (before k))
]
  where
    before : holds is_space text (start + n) ≡ true → i < start + n
    before k = elim (Bool-cases (i == (start + n))) [
      | inl q ↦ absurd (ground (arith, k, e, same_place i (start + n) q is_space text))
      | inr q ↦ ground (arith, q, lt)
    ]

span_if_any-Ordered :
    (text : CodePoints) (low high start end : ℕ)
    → low ≤ start
    → end ≤ high
    → low ≤ high
    → SpansOrdered low high (span_if_any text start end)
span_if_any-Ordered text low high start end a b c = elim (Bool-cases (ltb start end)) [
  | inl k ↦ rw (k, Ordered) (a, ltb→lt start end k, b)
  | inr k ↦ rw (k, Ordered) c
]

pub append_span-Ordered :
    (text : CodePoints) (start end : ℕ)
    → start ≤ end
    → SpansOrdered start end (append_span text start end)
unfolding append_span
append_span-Ordered text start end le =
    let first = skip_start text start (end - start) in
    let (a, b) = skip_start-bounds text start (end - start) in
    let (c, d) = skip_end-bounds text first (end - first) in
    span_if_any-Ordered text start end first (skip_end text first (end - first)) a
      (omega (arith, b, d, le)) le

pub append_span-Covered :
    (text : CodePoints) (start end i : ℕ)
    → holds is_space text i ≡ false
    → start ≤ i
    → i < end
    → SpansCovered i (append_span text start end)
unfolding append_span
append_span-Covered text start end i e le lt =
    let first = skip_start text start (end - start) in
    let last = skip_end text first (end - first) in
    let a : first ≤ i = skip_start-keeps text start (end - start) i e le (omega (arith, le, lt)) in
    let b : i < last = skip_end-keeps text first (end - first) i e a (omega (arith, a, lt)) in
    let some_left : ltb first last ≡ true = ground (arith, a, b) in
    rw (some_left, Covered) (inl (a, b))
