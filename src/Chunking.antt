-- ===== src/Chunking.antt =====
-- heartwood/chunking.py: a document is cut into structural spans, these are split where they hold too
-- many words and packed up to a size, and each chunk reaches back over some words of the one before.
-- A text is the list of its code points; what Python says of a code point is written out.
pub mod Document
pub mod Ranges
pub mod Runs
pub mod Blocks
pub mod Structure
pub mod Visible
pub mod Packing
pub mod Packed
pub mod Kept
pub mod Complete
pub mod Counts
pub mod Slices
pub mod Sizes
pub mod Targets
pub mod Bounded
pub mod Limit
pub use heartwood_memory.Prelude.{take, drop}
use heartwood_memory.Prelude.{
  ℕ, zero, suc, ◌+◌, ◌-◌, Bool, true, false, not, ◌&&◌, ◌||◌, leb, ltb, ◌==◌, Option, none, some,
  List, [], ◌∷◌, ◌++◌, length, Result, ok, raise, require, Error, value_error, index_error, ◌>>=◌,
  ◌>>◌, if◌then◌else◌,
}

abbrev pub CodePoints : Type 0
CodePoints = List ℕ

-- The integers that a caller may give.
pub data ℤ : Type 0 where
  pos : ℕ → ℤ
  negsuc : ℕ → ℤ

-- `text[start:end]`
abbrev pub slice : CodePoints → ℕ → ℕ → CodePoints
slice text start end = take (end - start) (drop start text)

-- The test holds of `text[i]`; no loop below asks for a position outside of the text.
abbrev pub holds : (ℕ → Bool) → CodePoints → ℕ → Bool
holds p [] i = false
holds p (c ∷ text) zero = p c
holds p (c ∷ text) (suc i) = holds p text i

abbrev pub between : ℕ → ℕ → ℕ → Bool
between low high c = leb low c && leb c high

-- `str.isspace` of one code point
unfoldable pub is_space : ℕ → Bool
is_space c =
    between 9 13 c
    || between 28 32 c
    || c == 133
    || c == 160
    || c == 5760
    || between 8192 8202 c
    || between 8232 8233 c
    || c == 8239
    || c == 8287
    || c == 12288

-- The code points that end a line for `str.splitlines`.
unfoldable pub is_line_break : ℕ → Bool
is_line_break c = between 10 13 c || between 28 30 c || c == 133 || between 8232 8233 c

-- `[A-Za-z0-9]`
unfoldable pub is_alphanumeric : ℕ → Bool
is_alphanumeric c = between 48 57 c || between 65 90 c || between 97 122 c

abbrev pub starts_with_line_feed : CodePoints → Bool
starts_with_line_feed [] = false
starts_with_line_feed (c ∷ text) = c == 10

-- A carriage return and a line feed are one line break.
abbrev pub ends_line : ℕ → CodePoints → Bool
ends_line c text = is_line_break c && not (c == 13 && starts_with_line_feed text)

abbrev pub add_to_lines : Bool → ℕ → List CodePoints → List CodePoints
add_to_lines true c lines = (c ∷ []) ∷ lines
add_to_lines false c [] = (c ∷ []) ∷ []
add_to_lines false c (line ∷ lines) = (c ∷ line) ∷ lines

-- `text.splitlines(keepends=True)`
unfoldable pub split_lines : CodePoints → List CodePoints
unfolding is_line_break
split_lines [] = []
split_lines (c ∷ text) = add_to_lines (ends_line c text) c (split_lines text)

-- The first code point of `text.strip()`, if any is left.
unfoldable pub first_visible : CodePoints → Option ℕ
unfolding is_space
first_visible [] = none
first_visible (c ∷ text) = let rest = first_visible text in if is_space c then rest else some c

pub record Match : Type 0 where
  pub start : ℕ
  pub end : ℕ

-- `_Span`
pub record Span : Type 0 where
  pub char_start : ℕ
  pub char_end : ℕ
  pub token_estimate : ℕ

pub record Chunk : Type 0 where
  pub ordinal : ℕ
  pub text : CodePoints
  pub char_start : ℕ
  pub char_end : ℕ
  pub token_estimate : ℕ

abbrev pub span : ℕ → ℕ → ℕ → Span
span start end tokens = record { char_start = start; char_end = end; token_estimate = tokens }

-- `TOKEN_RE.finditer(text, pos, endpos)`: the longest runs, found in one pass. The open run is the one
-- that the position may continue.
abbrev pub run_after : Bool → ℕ → Option ℕ → Option ℕ
run_after false i run = none
run_after true i none = some i
run_after true i (some s) = some s

abbrev pub run_ended : Bool → ℕ → Option ℕ → List Match
run_ended false i (some s) = record { start = s; end = i } ∷ []
run_ended _ i _ = []

unfoldable pub find_from : CodePoints → ℕ → Option ℕ → ℕ → List Match
unfolding is_alphanumeric
find_from text i run zero = run_ended false i run
find_from text i run (suc n) =
    let inside = holds is_alphanumeric text i in
    run_ended inside i run ++ find_from text (suc i) (run_after inside i run) n

abbrev pub find_iter : CodePoints → ℕ → ℕ → List Match
find_iter text start end = find_from text start none (end - start)

abbrev pub token_count : CodePoints → ℕ
token_count text = length (find_iter text 0 (length text))

-- The first loop of `_append_span`, on `n = end - start`, and the second, on the `n` left.
unfoldable pub skip_start : CodePoints → ℕ → ℕ → ℕ
unfolding is_space
skip_start text start zero = start
skip_start text start (suc n) = elim (holds is_space text start) [
  | true ↦ skip_start text (suc start) n
  | false ↦ start
]

unfoldable pub skip_end : CodePoints → ℕ → ℕ → ℕ
unfolding is_space
skip_end text start zero = start
skip_end text start (suc n) = elim (holds is_space text (start + n)) [
  | true ↦ skip_end text start n
  | false ↦ start + suc n
]

abbrev pub span_if_any : CodePoints → ℕ → ℕ → List Span
span_if_any text start end =
    if ltb start end then span start end (token_count (slice text start end)) ∷ [] else []

-- What `_append_span` appends.
unfoldable pub append_span : CodePoints → ℕ → ℕ → List Span
unfolding skip_start skip_end find_from
append_span text start end =
    let first = skip_start text start (end - start) in
    span_if_any text first (skip_end text first (end - first))
