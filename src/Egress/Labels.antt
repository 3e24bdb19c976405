-- ===== src/Egress/Labels.antt =====
-- The classification that heartwood/egress.py checks for a span (`span_classifications`).
use heartwood_memory.Prelude.{
  ◌≡◌, ◌≤◌, ◌⊎◌, inl, inr, refl, subst, ap, ◌∙◌, Bool, true, false, not, ◌&&◌, ◌||◌, if◌then◌else◌,
  ltb, Option, none, some, List, String, arith, str_eq, str_eq_iff, In, Bool-cases,
}
use heartwood_memory.Envelope.{
  Meta, Classification, public, internal, confidential, restricted, rank,
}
use heartwood_memory.Policy.{Principal}
use heartwood_memory.Spans.{Span, Client, can_read, resolve_source_span_text}
use heartwood_memory.Spans.Readable.{IsTaken, resolve-IsTaken}
use heartwood_memory.Egress.{
  label_of, class_of_label, supplied_label, stored_classification, raise_label, raised_by,
  span_classifications, is_inline, is_stored_ref, readable, classification_of,
  memory_classification,
}

class_of_label-label_of : (k : Classification) → class_of_label (label_of k) ≡ some k
unfolding class_of_label label_of
class_of_label-label_of public = refl
class_of_label-label_of internal = refl
class_of_label-label_of confidential = refl
class_of_label-label_of restricted = refl

-- Some label among these is known and ranks at least as high as the class.
abbrev pub Covers : List String → Classification → Type 0
Covers labels k =
    (l : String) × In l labels
    × ((j : Classification) × (class_of_label l ≡ some j) × (rank k ≤ rank j))

raise_label-Covers :
    (supplied : String) (k : Classification) (known : Option Classification)
    → class_of_label supplied ≡ known
    → Covers (raise_label supplied known k) k
unfolding raise_label
raise_label-Covers supplied k none same =
    (label_of k, inr (inl refl), (k, class_of_label-label_of k, omega arith))
raise_label-Covers supplied k (some j) same = elim (Bool-cases (ltb (rank j) (rank k))) [
  | inl low ↦ rw (low, Covers) (label_of k, inl refl, (k, class_of_label-label_of k, omega arith))
  | inr high ↦ rw (high, Covers) (supplied, inl refl, (j, same, ground (arith, high)))
]

module _ (client : Option Client) (p : Option Principal) (span : Span) where
  raised_by-Covers :
      (supplied : String) (k : Classification) → Covers (raised_by supplied (some k)) k
  raised_by-Covers supplied k = elim (Bool-cases (str_eq (label_of k) supplied)) [
    | inr differ ↦
        rw (differ, Covers) (raise_label-Covers supplied k (class_of_label supplied) refl)
    | inl same ↦
        let is : label_of k ≡ supplied = (str_eq_iff (label_of k) supplied).0 same in
        rw (same, Covers)
          (supplied, inl refl, (k, rw (← is) (class_of_label-label_of k), omega arith))
  ]

  covered :
      (k : Classification)
      → stored_classification client p span ≡ some k
      → Covers (span_classifications client p span) k
  unfolding span_classifications
  covered k stored = rw (stored, Covers) (raised_by-Covers (supplied_label span.classification) k)

readable-of_IsTaken :
    (c : Client) (p : Option Principal) (id : String) (row : Meta)
    → c.get_meta id ≡ some row
    → ((q : Principal) → p ≡ some q → can_read q (c.get_meta id) ≡ true)
    → readable p row ≡ true
readable-of_IsTaken c none id row stored may = refl
readable-of_IsTaken c (some q) id row stored may =
    subst (λ (m : Option Meta). can_read q m ≡ true) stored (may q refl)

is_stored_ref-of :
    (r : Option String) → (r ≡ some "self") ⊎ (r ≡ some "encrypted") → is_stored_ref r ≡ true
is_stored_ref-of r (inl e) = rw e refl
is_stored_ref-of r (inr e) = rw e refl

past_guard :
    (a b : Bool) (x : Option Classification)
    → a ≡ false
    → b ≡ true
    → (if a || not b then none else x) ≡ x
past_guard a b x h k = rw (h, k) refl

memory_class :
    (c : Client) (p : Option Principal) (id : String) (row : Meta)
    → str_eq id "" ≡ false
    → c.get_meta id ≡ some row
    → row.tenant ≡ c.tenant
    → readable p row ≡ true
    → memory_classification c p (some id) ≡ some row.classification
unfolding memory_classification classification_of
memory_class c p id row given stored own may =
    let mine : str_eq row.tenant c.tenant ≡ true = (str_eq_iff row.tenant c.tenant).1 own in
    let test : (str_eq row.tenant c.tenant && readable p row) ≡ true = ground (arith, mine, may) in
    let here : classification_of c.tenant p (some row) ≡ some row.classification = rw test refl in
    let found : classification_of c.tenant p (c.get_meta id) ≡ some row.classification =
      ap (classification_of c.tenant p) stored ∙ here in
    rw given found

stored_classification-IsTaken :
    (c : Client) (p : Option Principal) (span : Span) (text : String) (w : IsTaken c p span text)
    (row : Meta)
    → span.text ≡ none
    → c.get_meta w.id ≡ some row
    → row.tenant ≡ c.tenant
    → stored_classification (some c) p span ≡ some row.classification
unfolding stored_classification
stored_classification-IsTaken c p span text w row bare stored own =
    let no_text : is_inline span.text ≡ false = ap is_inline bare in
    let ref : is_stored_ref span.text_ref ≡ true =
      is_stored_ref-of span.text_ref
        (elim w.is_found [ inl (_, _, e, _, _) ↦ inl e | inr (e, _) ↦ inr e ]) in
    past_guard (is_inline span.text) (is_stored_ref span.text_ref)
      (memory_classification c p span.memory_id) no_text ref
    ∙ (ap (memory_classification c p) w.is_named
        ∙ memory_class c p w.id row w.is_given stored own
            (readable-of_IsTaken c p w.id row stored w.is_readable))

-- When a span does not carry its text, and the text resolves from a memory of the client's tenant (its
-- content, or one of its encrypted spans), for a principal or for none, then one of the labels that are
-- checked for the span is known and ranks at least as high as the class of that memory, whatever label
-- the caller supplied, if any: a caller cannot lower it.
pub span_classifications-Covers :
    (c : Client) (p : Option Principal) (span : Span) (id text : String) (row : Meta)
    → span.text ≡ none
    → span.memory_id ≡ some id
    → c.get_meta id ≡ some row
    → row.tenant ≡ c.tenant
    → resolve_source_span_text (some c) p span ≡ some text
    → Covers (span_classifications (some c) p span) row.classification
span_classifications-Covers c p span id text row bare named stored own resolved =
    let w = resolve-IsTaken c span p text bare resolved in
    let same : id ≡ w.id = cc (named, w.is_named) in
    covered (some c) p span row.classification
      (stored_classification-IsTaken c p span text w row bare (rw (← same) stored) own)
