-- ===== src/Chunking/Kept.antt =====
-- The chunks of heartwood/chunking.py are slices of the document, and hold all of its words.
use heartwood_memory.Prelude.{
  ℕ, suc, zero, ◌-◌, ◌≤◌, ◌<◌, ◌≡◌, refl, inl, inr, true, false, List, [], ◌∷◌, length, All,
  Bool-cases, arith, ◌==◌, ltb, leb, ◌||◌, ok,
}
use heartwood_memory.Chunking.{CodePoints, Match, Span, Chunk, slice, token_count, find_iter}
use heartwood_memory.Chunking.Ranges.{Covered, Ordered-bounds}
use heartwood_memory.Chunking.Blocks.{span_start, span_end, SpansOrdered, SpansCovered}
use heartwood_memory.Chunking.Document.{
  token_index, token_at, overlap_start, recounted, expand_rest, expand, apply_overlap, chunks_from,
}

-- The second list has the spans of the first, each begun there or earlier.
abbrev pub ReachBack : List Span → List Span → Type 0
ReachBack [] [] = Unit
ReachBack (s ∷ spans) (x ∷ out) =
    (x.char_start ≤ s.char_start) × (x.char_end ≡ s.char_end) × ReachBack spans out
ReachBack _ _ = ⊥

ReachBack-refl : (spans : List Span) → ReachBack spans spans
ReachBack-refl [] = tt
ReachBack-refl (s ∷ spans) = (omega arith, refl, ReachBack-refl spans)

pub token_at-before :
    (tokens : List Match) (p k : ℕ)
    → k < token_index tokens p
    → (m : Match) × (token_at tokens k ≡ ok m) × (m.start < p)
token_at-before [] p k lt = absurd (omega (arith, lt))
token_at-before (m ∷ ms) p k lt = elim (Bool-cases (leb p m.start)) [
  | inl e ↦ absurd (none_before e)
  | inr e ↦ before e k (token_at-before ms p) lt
]
  where
    none_before : leb p m.start ≡ true → ⊥
    none_before e = ground (arith, e, lt)

    before :
        leb p m.start ≡ false
        → (i : ℕ)
        → ((n : ℕ) → n < token_index ms p → (x : Match) × (token_at ms n ≡ ok x) × (x.start < p))
        → i < token_index (m ∷ ms) p
        → (x : Match) × (token_at (m ∷ ms) i ≡ ok x) × (x.start < p)
    before e zero ih l = (m, refl, ground (arith, e))
    before e (suc n) ih l = ih n (ground (arith, e, l))

overlap_start-before :
    (tokens : List Match) (overlap p : ℕ)
    → 1 ≤ overlap
    → (start : ℕ) × (overlap_start tokens overlap p ≡ ok start) × (start ≤ p)
unfolding overlap_start
overlap_start-before tokens overlap p le = elim (Bool-cases (token_index tokens p == 0)) [
  | inl e ↦ (p, rw e refl, omega arith)
  | inr e ↦
      let (m, found, lt) =
        token_at-before tokens p (token_index tokens p - overlap) (ground (arith, e, le)) in
      (m.start, rw (e, found) refl, omega (arith, lt))
]

expand_rest-ReachBack :
    (text : CodePoints) (tokens : List Match) (overlap : ℕ) (spans : List Span)
    → 1 ≤ overlap
    → (out : List Span) × (expand_rest text tokens overlap spans ≡ ok out) × ReachBack spans out
unfolding expand_rest
expand_rest-ReachBack text tokens overlap [] le = ([], refl, tt)
expand_rest-ReachBack text tokens overlap (s ∷ spans) le =
    let (start, found, before) = overlap_start-before tokens overlap s.char_start le in
    let (out, is, back) = expand_rest-ReachBack text tokens overlap spans le in
    (recounted text start s.char_end ∷ out, rw (found, is) refl, (before, refl, back))

expand-ReachBack :
    (text : CodePoints) (tokens : List Match) (overlap : ℕ) (spans : List Span)
    → 1 ≤ overlap
    → (out : List Span) × (expand text tokens overlap spans ≡ ok out) × ReachBack spans out
unfolding expand
expand-ReachBack text tokens overlap [] le = ([], refl, tt)
expand-ReachBack text tokens overlap (s ∷ spans) le =
    let (out, is, back) = expand_rest-ReachBack text tokens overlap spans le in
    (recounted text s.char_start s.char_end ∷ out, rw is refl, (omega arith, refl, back))

pub apply_overlap-ReachBack :
    (text : CodePoints) (spans : List Span) (overlap : ℕ)
    → (out : List Span) × (apply_overlap text spans overlap ≡ ok out) × ReachBack spans out
unfolding apply_overlap
apply_overlap-ReachBack text spans overlap =
    elim (Bool-cases (overlap == 0 || ltb (length spans) 2)) [
      | inl e ↦ (spans, rw e refl, ReachBack-refl spans)
      | inr e ↦
          let (out, is, back) =
            expand-ReachBack text (find_iter text 0 (length text)) overlap spans
              (ground (arith, e)) in
          (out, rw e is, back)
    ]

abbrev chunk_start : Chunk → ℕ
chunk_start c = c.char_start

abbrev chunk_end : Chunk → ℕ
chunk_end c = c.char_end

-- The chunk is what the text holds between its bounds, and its words are counted.
pub record IsSlice (text : CodePoints) (c : Chunk) : Type 0 where
  pub is_some : c.char_start < c.char_end
  pub is_inside : c.char_end ≤ length text
  pub is_text : c.text ≡ slice text c.char_start c.char_end
  pub is_counted : c.token_estimate ≡ token_count c.text

-- The chunks are numbered from `k` on.
abbrev pub Numbered : ℕ → List Chunk → Type 0
Numbered k [] = Unit
Numbered k (c ∷ chunks) = (c.ordinal ≡ k) × Numbered (suc k) chunks

abbrev pub HoldsWord : List Chunk → ℕ → Type 0
HoldsWord chunks j = Covered (λ (c : Chunk). c.char_start) (λ (c : Chunk). c.char_end) j chunks

module _ (text : CodePoints) where
  pub chunks_from-IsSlice :
      (low k : ℕ) (spans out : List Span)
      → SpansOrdered low (length text) spans
      → ReachBack spans out
      → All (IsSlice text) (chunks_from text k out) × Numbered k (chunks_from text k out)
  unfolding chunks_from
  chunks_from-IsSlice low k [] [] h back = (tt, tt)
  chunks_from-IsSlice low k (s ∷ spans) (x ∷ out) h back =
      let (slices, numbers) = chunks_from-IsSlice s.char_end (suc k) spans out h.2 back.2 in
      let long : ltb x.char_start x.char_end ≡ true = ground (arith, h.1, back.0, back.1) in
      let inside = Ordered-bounds span_start span_end s.char_end (length text) spans h.2 in
      rw (long, All)
        (
          (
            record {
              is_some = omega (arith, h.1, back.0, back.1);
              is_inside = omega (arith, inside, back.1);
              is_text = refl;
              is_counted = refl;
            },
            slices,
          ),
          (refl, numbers),
        )
  chunks_from-IsSlice low k [] (x ∷ out) h back = absurd back
  chunks_from-IsSlice low k (s ∷ spans) [] h back = absurd back

  pub chunks_from-HoldsWord :
      (low high k j : ℕ) (spans out : List Span)
      → SpansOrdered low high spans
      → ReachBack spans out
      → SpansCovered j spans
      → HoldsWord (chunks_from text k out) j
  unfolding chunks_from
  chunks_from-HoldsWord low high k j [] out h back c = absurd c
  chunks_from-HoldsWord low high k j (s ∷ spans) [] h back c = absurd back
  chunks_from-HoldsWord low high k j (s ∷ spans) (x ∷ out) h back c =
      let long : ltb x.char_start x.char_end ≡ true = ground (arith, h.1, back.0, back.1) in
      rw (long, Covered)
        (elim c [
          | inl q ↦ inl (omega (arith, q.0, back.0), omega (arith, q.1, back.1))
          | inr q ↦ inr (chunks_from-HoldsWord s.char_end high (suc k) j spans out h.2 back.2 q)
        ])
