-- ===== src/Spans.antt =====
-- heartwood/source_spans.py, and `can_read` of heartwood/client.py: the text of a span, and who may
-- have it resolved.
pub mod Readable
use heartwood_memory.Prelude.{
  ℕ, Bool, true, false, not, ◌&&◌, ◌||◌, Option, none, some, List, String, str_eq, opt_str_eq,
  if◌then◌else◌,
}
use heartwood_memory.Envelope.{Meta, is_contract}
use heartwood_memory.Policy.{Principal, visible}

pub record Span : Type 0 where
  pub span_id : String
  pub text : Option String
  pub text_ref : Option String
  pub text_index : Option ℕ
  pub memory_id : Option String
  pub content_hash : Option String
  pub classification : Option String
  pub pii_labels : List String

-- What a client reads: its tenant, the rows of its store, and the texts that it decrypts, of a
-- memory and of an encrypted span of one (which checks the hash of the text).
pub record Client : Type 0 where
  pub tenant : String
  pub get_meta : String → Option Meta
  pub read_content : String → Option String
  pub read_span_text : String → Option ℕ → Option String → Option String

-- `not x`, of a text that may be missing.
abbrev pub is_blank : Option String → Bool
is_blank none = true
is_blank (some s) = str_eq s ""

unfoldable pub can_read : Principal → Option Meta → Bool
can_read p none = false
can_read p (some m) =
    if is_contract m.kind && str_eq m.policy_scope "continuity-privileged"
    then false
    else (visible p m).0

-- The check of the principal, which is made only when one is given.
unfoldable pub may_resolve : Client → Option Principal → Span → String → Bool
unfolding can_read
may_resolve c none span id = true
may_resolve c (some p) span id =
    can_read p (c.get_meta id)
    && not (opt_str_eq span.text_ref (some "encrypted") && is_blank span.content_hash)

abbrev pub has_hash : Option Meta → Option String → Bool
has_hash none h = false
has_hash (some m) h = opt_str_eq h (some m.content_hash)

unfoldable pub stored_text : Client → Span → String → Option String
stored_text c span id =
    if opt_str_eq span.text_ref (some "self")
    then (if has_hash (c.get_meta id) span.content_hash then c.read_content id else none)
    else if opt_str_eq span.text_ref (some "encrypted")
    then c.read_span_text id span.text_index span.content_hash
    else none

unfoldable pub from_memory : Client → Option Principal → Span → Option String → Option String
unfolding may_resolve stored_text
from_memory c p span none = none
from_memory c p span (some id) =
    if str_eq id "" then none else if may_resolve c p span id then stored_text c span id else none

-- `resolve_source_span_text`
unfoldable pub resolve : Option Client → Option Principal → Span → Option String → Option String
unfolding from_memory
resolve client p span (some text) = some text
resolve none p span none = none
resolve (some c) p span none = from_memory c p span span.memory_id

unfoldable pub resolve_source_span_text : Option Client → Option Principal → Span → Option String
unfolding resolve
resolve_source_span_text client p span = resolve client p span span.text
