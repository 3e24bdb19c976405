-- ===== src/Chunking/Complete.antt =====
-- `chunk_document` of heartwood/chunking.py as a whole: when it returns, and what its chunks hold.
use heartwood_memory.Prelude.{
  ℕ, suc, zero, ◌≤◌, ◌<◌, ◌≡◌, refl, ◌↔◌, inl, inr, true, false, none, List, [], ◌∷◌, length,
  append-nil, All, Bool-cases, Option-cases, arith, ltb, ltb→lt, raise, ok, value_error,
}
use heartwood_memory.Chunking.{
  CodePoints, ℤ, pos, negsuc, holds, is_space, is_alphanumeric, Chunk, first_visible,
}
use heartwood_memory.Chunking.Visible.{
  blank_line, structural_spans-Ordered, structural_spans-Covered,
}
use heartwood_memory.Chunking.Packing.{size_bound_spans-Ordered, size_bound_spans-Covered}
use heartwood_memory.Chunking.Packed.{pack_spans-Ordered, pack_spans-Covered}
use heartwood_memory.Chunking.Kept.{
  IsSlice, Numbered, HoldsWord, apply_overlap-ReachBack, chunks_from-IsSlice, chunks_from-HoldsWord,
}
use heartwood_memory.Chunking.Document.{
  structural_spans, size_bound_spans, pack_spans, chunks_from, cut_document, chunk_document,
}

word_visible : (c : ℕ) → is_alphanumeric c ≡ true → is_space c ≡ false
unfolding is_alphanumeric is_space
word_visible c h = ground (arith, h)

pub word-visible :
    (text : CodePoints) (j : ℕ)
    → holds is_alphanumeric text j ≡ true
    → (holds is_space text j ≡ false) × (j < length text)
word-visible [] j h = cc
word-visible (c ∷ text) zero h = (word_visible c h, omega arith)
word-visible (c ∷ text) (suc j) h = let (a, b) = word-visible text j h in (a, omega (arith, b))

-- Every chunk is a slice of the text, they are numbered from zero, and each letter and digit of the
-- text is in one.
pub record Keeps (text : CodePoints) (chunks : List Chunk) : Type 0 where
  pub are_slices : All (IsSlice text) chunks
  pub are_numbered : Numbered 0 chunks
  pub hold_words : (j : ℕ) → holds is_alphanumeric text j ≡ true → HoldsWord chunks j

cut_document-Keeps :
    (text : CodePoints) (target overlap : ℕ)
    → 1 ≤ target
    → (chunks : List Chunk) × (cut_document text target overlap ≡ ok chunks) × Keeps text chunks
cut_document-Keeps text target overlap le =
    let parts = structural_spans text in
    let bounded = size_bound_spans text target parts in
    let spans = pack_spans bounded target in
    let ordered = structural_spans-Ordered text in
    let ordered' = size_bound_spans-Ordered text target 0 (length text) parts ordered in
    let ordered'' = pack_spans-Ordered target 0 (length text) bounded ordered' in
    let (out, is, back) = apply_overlap-ReachBack text spans overlap in
    let (slices, numbers) = chunks_from-IsSlice text 0 0 spans out ordered'' back in
    let held : (j : ℕ)
        → holds is_alphanumeric text j ≡ true
        → HoldsWord (chunks_from text 0 out) j =
      λ j h.
        let (seen, inside) = word-visible text j h in
        chunks_from-HoldsWord text 0 (length text) 0 j spans out ordered'' back (
          pack_spans-Covered target 0 (length text) j bounded ordered' (
            size_bound_spans-Covered text target le j h parts
              (structural_spans-Covered text j seen inside))) in
    (
      chunks_from text 0 out,
      rw is refl,
      record { are_slices = slices; are_numbered = numbers; hold_words = held },
    )

blank-Keeps : (text : CodePoints) → first_visible text ≡ none → Keeps text []
blank-Keeps text e = record { are_slices = tt; are_numbered = tt; hold_words = held }
  where
    held : (j : ℕ) → holds is_alphanumeric text j ≡ true → ⊥
    held j h =
        let (seen, inside) = word-visible text j h in
        let space : holds is_space text j ≡ true =
          rw (append-nil text) at (blank_line text [] j e inside) in
        cc (seen, space)

-- The target is positive, and the overlap is not negative and smaller.
abbrev pub IsSized : ℤ → ℤ → Type 0
IsSized (pos (suc n)) (pos k) = k < suc n
IsSized _ _ = ⊥

-- With a positive target and a smaller overlap that is not negative, a document is cut into chunks that
-- are numbered from zero, each is a slice of the document with its words counted, none is empty, and
-- every letter and digit of the document is in a chunk.
pub chunk_document-Keeps :
    (text : CodePoints) (target_tokens overlap : ℤ)
    → IsSized target_tokens overlap
    → (chunks : List Chunk) × (chunk_document text target_tokens overlap ≡ ok chunks)
      × Keeps text chunks
unfolding chunk_document
chunk_document-Keeps text (pos (suc n)) (pos k) sized =
    let small : ltb k (suc n) ≡ true = ground (arith, sized) in
    elim (Option-cases (first_visible text)) [
      | inl e ↦ ([], rw (small, e) refl, blank-Keeps text e)
      | inr (c, e) ↦
          let (chunks, is, keeps) = cut_document-Keeps text (suc n) k (omega arith) in
          (chunks, rw (small, e) is, keeps)
    ]
chunk_document-Keeps text (pos zero) k sized = absurd sized
chunk_document-Keeps text (negsuc n) k sized = absurd sized
chunk_document-Keeps text (pos (suc n)) (negsuc k) sized = absurd sized

-- The other arguments, and only these, raise a ValueError, whatever the text.
pub chunk_document-refuses :
    (text : CodePoints) (target_tokens overlap : ℤ)
    → (chunk_document text target_tokens overlap ≡ raise value_error)
      ↔ (¬ IsSized target_tokens overlap)
unfolding chunk_document
chunk_document-refuses text target_tokens overlap = (returned, refused target_tokens overlap)
  where
    returned :
        chunk_document text target_tokens overlap ≡ raise value_error
        → ¬ IsSized target_tokens overlap
    returned h sized =
        let (chunks, is, _) = chunk_document-Keeps text target_tokens overlap sized in cc (h, is)

    refused : (t k : ℤ) → (¬ IsSized t k) → chunk_document text t k ≡ raise value_error
    refused (pos zero) k h = refl
    refused (negsuc n) k h = refl
    refused (pos (suc n)) (negsuc k) h = refl
    refused (pos (suc n)) (pos k) h = elim (Bool-cases (ltb k (suc n))) [
      | inl e ↦ absurd (h (ltb→lt k (suc n) e))
      | inr e ↦ rw e refl
    ]
