-- ===== src/Chunking/Document.antt =====
-- `chunk_document` of heartwood/chunking.py and the three passes that it makes.
use heartwood_memory.Prelude.{
  ℕ, zero, suc, ◌+◌, ◌-◌, Bool, true, false, ◌||◌, leb, ltb, ◌==◌, Option, none, some, List, [],
  ◌∷◌, ◌++◌, length, Result, ok, raise, require, value_error, index_error, ◌>>=◌, ◌>>◌,
  if◌then◌else◌,
}
use heartwood_memory.Chunking.{
  CodePoints, ℤ, pos, negsuc, take, drop, slice, split_lines, first_visible, Match, Span, span,
  Chunk, find_iter, token_count, append_span,
}

-- `block_start` and `block_end`, which are `None` together.
abbrev pub Block : Type 0
Block = Option (ℕ × ℕ)

-- The spans that a line adds, and the block after it; a line with nothing visible ends the block, and
-- one that begins with `#` (35) also begins another.
unfoldable pub close_block : CodePoints → Block → List Span
close_block text none = []
close_block text (some (start, end)) = append_span text start end

abbrev pub closed_by_line : CodePoints → Option ℕ → Block → List Span
closed_by_line text none block = close_block text block
closed_by_line text (some c) block = if c == 35 then close_block text block else []

abbrev pub extend_block : Block → ℕ → ℕ → Block
extend_block none line_start line_end = some (line_start, line_end)
extend_block (some (start, end)) line_start line_end = some (start, line_end)

abbrev pub block_after : Option ℕ → Block → ℕ → ℕ → Block
block_after none block line_start line_end = none
block_after (some c) block line_start line_end =
    extend_block (if c == 35 then none else block) line_start line_end

unfoldable pub structural_from : CodePoints → ℕ → Block → List CodePoints → List Span
structural_from text offset block [] = close_block text block
structural_from text offset block (line ∷ lines) =
    let seen = first_visible line in
    let line_end = offset + length line in
    closed_by_line text seen block
    ++ structural_from text line_end (block_after seen block offset line_end) lines

abbrev pub structural_spans : CodePoints → List Span
structural_spans text = structural_from text 0 none (split_lines text)

abbrev pub last_end : ℕ → List Match → ℕ
last_end end [] = end
last_end end (m ∷ ms) = last_end m.end ms

abbrev pub window_span : List Match → List Span
window_span [] = []
window_span (m ∷ ms) = span m.start (last_end m.end ms) (length (m ∷ ms)) ∷ []

-- `range(0, len(matches), target_tokens)`: each window takes at least one match, so that as many
-- rounds as there are matches are enough.
unfoldable pub windows : ℕ → ℕ → List Match → List Span
windows zero target ms = []
windows (suc rounds) target ms =
    window_span (take target ms) ++ windows rounds target (drop target ms)

abbrev pub split_matches : ℕ → Span → List Match → List Span
split_matches target s [] = s ∷ []
split_matches target s (m ∷ ms) = windows (length (m ∷ ms)) target (m ∷ ms)

unfoldable pub size_bound_span : CodePoints → ℕ → Span → List Span
unfolding windows
size_bound_span text target s =
    if leb s.token_estimate target
    then s ∷ []
    else split_matches target s (find_iter text s.char_start s.char_end)

unfoldable pub size_bound_spans : CodePoints → ℕ → List Span → List Span
size_bound_spans text target [] = []
size_bound_spans text target (s ∷ spans) =
    size_bound_span text target s ++ size_bound_spans text target spans

-- The span that is being packed is `current_start`, `current_end` and `current_tokens`.
abbrev pub packed : Span → Span
packed c = span c.char_start (if c.char_end == 0 then c.char_start else c.char_end) c.token_estimate

abbrev pub joined : Span → Span → Span
joined c s = span c.char_start s.char_end (c.token_estimate + s.token_estimate)

unfoldable pub pack_from : ℕ → Option Span → List Span → List Span
pack_from target none [] = []
pack_from target (some c) [] = packed c ∷ []
pack_from target none (s ∷ spans) = pack_from target (some s) spans
pack_from target (some c) (s ∷ spans) =
    let would_exceed = ltb target (c.token_estimate + s.token_estimate) in
    let rest = pack_from target (some (if would_exceed then s else joined c s)) spans in
    if would_exceed then packed c ∷ rest else rest

abbrev pub pack_spans : List Span → ℕ → List Span
pack_spans spans target = pack_from target none spans

-- The index of the first token that starts at the position or after it, or else their number.
abbrev pub token_index : List Match → ℕ → ℕ
token_index [] position = 0
token_index (m ∷ ms) position =
    let later = suc (token_index ms position) in if leb position m.start then 0 else later

abbrev pub token_at : List Match → ℕ → Result Match
token_at [] i = raise index_error
token_at (m ∷ ms) zero = ok m
token_at (m ∷ ms) (suc i) = token_at ms i

unfoldable pub overlap_start : List Match → ℕ → ℕ → Result ℕ
overlap_start tokens overlap position =
    if token_index tokens position == 0
    then ok position
    else (do m ← token_at tokens (token_index tokens position - overlap); ok m.start)

abbrev pub recounted : CodePoints → ℕ → ℕ → Span
recounted text start end = span start end (token_count (slice text start end))

-- The spans after the first one.
unfoldable pub expand_rest : CodePoints → List Match → ℕ → List Span → Result (List Span)
expand_rest text tokens overlap [] = ok []
expand_rest text tokens overlap (s ∷ spans) = do
  start ← overlap_start tokens overlap s.char_start
  rest ← expand_rest text tokens overlap spans
  ok (recounted text start s.char_end ∷ rest)

unfoldable pub expand : CodePoints → List Match → ℕ → List Span → Result (List Span)
expand text tokens overlap [] = ok []
expand text tokens overlap (s ∷ spans) = do
  rest ← expand_rest text tokens overlap spans
  ok (recounted text s.char_start s.char_end ∷ rest)

unfoldable pub apply_overlap : CodePoints → List Span → ℕ → Result (List Span)
apply_overlap text spans overlap =
    if overlap == 0 || ltb (length spans) 2
    then ok spans
    else expand text (find_iter text 0 (length text)) overlap spans

abbrev pub chunk_of : CodePoints → ℕ → Span → Chunk
chunk_of text i s = record {
  ordinal = i;
  text = slice text s.char_start s.char_end;
  char_start = s.char_start;
  char_end = s.char_end;
  token_estimate = token_count (slice text s.char_start s.char_end);
}

unfoldable pub chunks_from : CodePoints → ℕ → List Span → List Chunk
chunks_from text i [] = []
chunks_from text i (s ∷ spans) =
    let rest = chunks_from text (suc i) spans in
    if ltb s.char_start s.char_end then chunk_of text i s ∷ rest else rest

abbrev pub target_of : ℤ → Result ℕ
target_of (pos zero) = raise value_error
target_of (pos (suc n)) = ok (suc n)
target_of (negsuc n) = raise value_error

abbrev pub overlap_of : ℤ → Result ℕ
overlap_of (pos n) = ok n
overlap_of (negsuc n) = raise value_error

abbrev pub is_blank : Option ℕ → Bool
is_blank none = true
is_blank (some c) = false

abbrev pub cut_document : CodePoints → ℕ → ℕ → Result (List Chunk)
cut_document text target overlap = do
  expanded ←
      apply_overlap text (pack_spans (size_bound_spans text target (structural_spans text)) target)
        overlap
  ok (chunks_from text 0 expanded)

unfoldable pub chunk_document : CodePoints → ℤ → ℤ → Result (List Chunk)
chunk_document text target_tokens overlap = do
  target ← target_of target_tokens
  words ← overlap_of overlap
  require (ltb words target) value_error
      >> (if is_blank (first_visible text) then ok [] else cut_document text target words)
