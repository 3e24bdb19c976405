-- ===== src/Spans/Readable.antt =====
-- Text that `resolve_source_span_text` of heartwood/source_spans.py gives to a principal.
use heartwood_memory.Prelude.{
  ◌≡◌, ◌⊎◌, inl, inr, refl, subst, ap, ◌∙◌, true, false, ◌&&◌, Option, none, some, String, arith,
  Bool-cases, Option-cases, str_eq, str_eq_iff, opt_str_eq,
}
use heartwood_memory.Envelope.{Meta}
use heartwood_memory.Policy.{Principal, visible}
use heartwood_memory.Spans.{
  Span, Client, can_read, may_resolve, is_blank, has_hash, stored_text, from_memory, resolve,
  resolve_source_span_text,
}

can_read-visible :
    (p : Principal) (m : Option Meta)
    → can_read p m ≡ true
    → (row : Meta) × (m ≡ some row) × ((visible p row).0 ≡ true)
unfolding can_read
can_read-visible p none h = cc
can_read-visible p (some row) h = (row, refl, ground (arith, h))

-- The text stands in the memory of the span: as its content, whose hash the span names, or among its
-- encrypted spans, at the index and under the hash that the span names.
abbrev pub StandsIn : Client → Span → String → Meta → String → Type 0
StandsIn c span id row text =
    ((span.text_ref ≡ some "self")
      × (span.content_hash ≡ some row.content_hash)
      × (c.read_content id ≡ some text))
    ⊎ ((span.text_ref ≡ some "encrypted")
        × (is_blank span.content_hash ≡ false)
        × (c.read_span_text id span.text_index span.content_hash ≡ some text))

-- A text that was taken from a memory, for a principal if there is one.
pub record IsTaken (c : Client) (p : Option Principal) (span : Span) (text : String) : Type 0 where
  pub id : String
  pub is_named : span.memory_id ≡ some id
  pub is_given : str_eq id "" ≡ false
  pub is_readable : (q : Principal) → p ≡ some q → can_read q (c.get_meta id) ≡ true
  pub is_hashed :
      (q : Principal)
      → p ≡ some q
      → span.text_ref ≡ some "encrypted"
      → is_blank span.content_hash ≡ false
  pub is_found :
      ((row : Meta) × (c.get_meta id ≡ some row)
        × (span.text_ref ≡ some "self")
        × (span.content_hash ≡ some row.content_hash)
        × (c.read_content id ≡ some text))
      ⊎ ((span.text_ref ≡ some "encrypted")
          × (c.read_span_text id span.text_index span.content_hash ≡ some text))

opt_str_eq→eq : (a : Option String) (b : String) → opt_str_eq a (some b) ≡ true → a ≡ some b
opt_str_eq→eq none b h = cc
opt_str_eq→eq (some a) b h = ap some ((str_eq_iff a b).0 h)

has_hash→eq :
    (m : Option Meta) (h : Option String)
    → has_hash m h ≡ true
    → (row : Meta) × (m ≡ some row) × (h ≡ some row.content_hash)
has_hash→eq none h e = cc
has_hash→eq (some row) h e = (row, refl, opt_str_eq→eq h row.content_hash e)

module _ (c : Client) (span : Span) where
  stored_text-found :
      (id text : String)
      → stored_text c span id ≡ some text
      → ((row : Meta) × (c.get_meta id ≡ some row)
          × (span.text_ref ≡ some "self")
          × (span.content_hash ≡ some row.content_hash)
          × (c.read_content id ≡ some text))
        ⊎ ((span.text_ref ≡ some "encrypted")
            × (c.read_span_text id span.text_index span.content_hash ≡ some text))
  unfolding stored_text
  stored_text-found id text h = elim (Bool-cases (opt_str_eq span.text_ref (some "self"))) [
    | inl k ↦ elim (Bool-cases (has_hash (c.get_meta id) span.content_hash)) [
      | inl j ↦
          let (row, found, hash) = has_hash→eq (c.get_meta id) span.content_hash j in
          inl (row, found, opt_str_eq→eq span.text_ref "self" k, hash, rw (k, j) at h)
      | inr j ↦ absurd (ground (arith, rw (k, j) at h))
    ]
    | inr k ↦ elim (Bool-cases (opt_str_eq span.text_ref (some "encrypted"))) [
      | inl j ↦ inr (opt_str_eq→eq span.text_ref "encrypted" j, rw (k, j) at h)
      | inr j ↦ absurd (ground (arith, rw (k, j) at h))
    ]
  ]

  may_resolve-readable :
      (p : Option Principal) (q : Principal) (id : String)
      → may_resolve c p span id ≡ true
      → p ≡ some q
      → (can_read q (c.get_meta id) ≡ true)
        × ((opt_str_eq span.text_ref (some "encrypted") && is_blank span.content_hash) ≡ false)
  unfolding may_resolve
  may_resolve-readable none q id h e = cc
  may_resolve-readable (some r) q id h e =
      let same : r ≡ q = cc (e) in rw (← same) (ground (arith, h), ground (arith, h))

  from_memory-IsTaken :
      (p : Option Principal) (id : Option String) (text : String)
      → span.memory_id ≡ id
      → from_memory c p span id ≡ some text
      → IsTaken c p span text
  unfolding from_memory
  from_memory-IsTaken p none text named h = cc
  from_memory-IsTaken p (some id) text named h = elim (Bool-cases (str_eq id "")) [
    | inl k ↦ absurd (ground (arith, rw k at h))
    | inr k ↦ elim (Bool-cases (may_resolve c p span id)) [
      | inr j ↦ absurd (ground (arith, rw (k, j) at h))
      | inl j ↦ record {
        id = id;
        is_named = named;
        is_given = k;
        is_readable = λ q e. (may_resolve-readable p q id j e).0;
        is_hashed = λ q e enc. hashed enc (may_resolve-readable p q id j e).1;
        is_found = stored_text-found id text (rw (k, j) at h);
      }
    ]
  ]
    where
      hashed :
          span.text_ref ≡ some "encrypted"
          → (opt_str_eq span.text_ref (some "encrypted") && is_blank span.content_hash) ≡ false
          → is_blank span.content_hash ≡ false
      hashed enc e = rw enc at e

  -- A text that the span does not carry itself was taken from the memory that it names.
  pub resolve-IsTaken :
      (p : Option Principal) (text : String)
      → span.text ≡ none
      → resolve_source_span_text (some c) p span ≡ some text
      → IsTaken c p span text
  unfolding resolve_source_span_text resolve
  resolve-IsTaken p text bare h =
      from_memory-IsTaken p span.memory_id text refl
        (subst (λ (t : Option String). resolve (some c) p span t ≡ some text) bare h)

-- A principal is given the text of a span only if the span carries it itself, or if the span names a
-- memory that the policy lets the principal see, and the text is the content of that memory, whose
-- hash the span names, or what the client reads of the encrypted spans of that memory at the index
-- and under the hash that the span names, which is not blank.
pub resolve_source_span_text-visible :
    (c : Client) (p : Principal) (span : Span) (text : String)
    → resolve_source_span_text (some c) (some p) span ≡ some text
    → (span.text ≡ some text)
      ⊎ ((id : String) × (row : Meta) × (span.memory_id ≡ some id)
          × (c.get_meta id ≡ some row)
          × ((visible p row).0 ≡ true)
          × StandsIn c span id row text)
unfolding resolve_source_span_text resolve
resolve_source_span_text-visible c p span text h = elim (Option-cases span.text) [
  | inr (t, carried) ↦ inl (
      carried
      ∙ subst (λ (o : Option String). resolve (some c) (some p) span o ≡ some text) carried h)
  | inl bare ↦
      let w = resolve-IsTaken c span (some p) text bare h in
      let (row, stored, seen) = can_read-visible p (c.get_meta w.id) (w.is_readable p refl) in
      inr (
        w.id,
        row,
        w.is_named,
        stored,
        seen,
        elim w.is_found [
          | inl (found, there, own, hash, content) ↦
              let same : found ≡ row = cc (there, stored) in
              inl (own, hash ∙ ap (λ (m : Meta). some m.content_hash) same, content)
          | inr (encrypted, content) ↦ inr (encrypted, w.is_hashed p refl encrypted, content)
        ],
      )
]
