-- ===== src/Egress.antt =====
-- heartwood/egress.py: what may be sent to an external model. Sets of labels are lists,
-- in the order of the spans.
pub mod Evaluate
pub mod Decision
pub mod Labels
pub mod Permitted
use heartwood_memory.Prelude.{
  ℕ, Bool, true, false, not, ◌&&◌, ◌||◌, ltb, Option, none, some, List, [], ◌∷◌, ◌++◌, String,
  str_eq, opt_str_eq, elem, intersects, subset, is_empty, all, map, filter, sorted_set,
  compare_text, if◌then◌else◌,
}
use heartwood_memory.Envelope.{
  Classification, public, internal, confidential, restricted, rank, nonempty, Meta,
}
use heartwood_memory.Policy.{Principal}
use heartwood_memory.Spans.{Span, Client, can_read, is_blank, resolve_source_span_text}

-- The five regular expressions of the module: whether one occurs in a text, and the text with its
-- occurrences replaced.
pub record Patterns : Type 0 where
  pub search : String → String → Bool
  pub sub : String → String → String

abbrev redaction_order : List String
redaction_order = "email" ∷ "phone" ∷ "ssn" ∷ "customer_id" ∷ "credit_card" ∷ []

-- The labels that a raw text is searched for, sorted.
abbrev raw_labels : List String
raw_labels = "credit_card" ∷ "email" ∷ "phone" ∷ "ssn" ∷ []

substitute : Patterns → List String → List String → String → String
substitute p [] labels text = text
substitute p (l ∷ ls) labels text =
    substitute p ls labels (if elem l labels then p.sub l text else text)

unfoldable pub redact_text : Patterns → String → List String → String
unfolding substitute
redact_text p text labels = substitute p redaction_order labels text

unfoldable pub raw_pii_patterns : Patterns → String → List String
raw_pii_patterns p text = filter (λ l. p.search l text) raw_labels

-- The fields of a model, and those of a provider that are compared with them.
pub record Endpoint : Type 0 where
  pub provider : Option String
  pub runtime : Option String
  pub region : Option String
  pub retention : Option String
  pub training_opt_out : Option Bool
  pub endpoint : Option String

pub record ProviderPolicy : Type 0 where
  pub provider_policy_id : Option String
  pub fields : Endpoint
  pub status : Option String
  pub allowed_classifications : List String
  pub denied_pii_labels : List String

abbrev field_matches : Option String → Option String → Bool
field_matches provider none = true
field_matches provider (some v) = opt_str_eq provider (some v)

abbrev flag_matches : Option Bool → Option Bool → Bool
flag_matches provider none = true
flag_matches none (some b) = false
flag_matches (some a) (some b) = if a then b else not b

unfoldable pub provider_policy_matches_model : ProviderPolicy → Endpoint → Bool
provider_policy_matches_model p m =
    field_matches p.fields.provider m.provider
    && (field_matches p.fields.runtime m.runtime
        && (field_matches p.fields.region m.region
            && (field_matches p.fields.retention m.retention
                && (flag_matches p.fields.training_opt_out m.training_opt_out
                    && field_matches p.fields.endpoint m.endpoint))))

unfoldable pub first_match : (ProviderPolicy → Bool) → List ProviderPolicy → Option ProviderPolicy
first_match p [] = none
first_match p (x ∷ xs) = if p x then some x else first_match p xs

-- `resolve_provider_policy`; an empty id of a policy counts as none.
unfoldable pub resolve_provider_policy :
    Endpoint → Option String → Option (List ProviderPolicy) → Option ProviderPolicy
unfolding first_match provider_policy_matches_model
resolve_provider_policy m requested none = none
resolve_provider_policy m requested (some providers) =
    if is_blank requested
    then first_match (λ p. provider_policy_matches_model p m) providers
    else first_match
        (λ p. opt_str_eq p.provider_policy_id requested && provider_policy_matches_model p m)
        providers

unfoldable pub label_of : Classification → String
label_of public = "public"
label_of internal = "internal"
label_of confidential = "confidential"
label_of restricted = "restricted"

unfoldable pub class_of_label : String → Option Classification
class_of_label s =
    if str_eq s "public"
    then some public
    else if str_eq s "internal"
    then some internal
    else if str_eq s "confidential"
    then some confidential
    else if str_eq s "restricted"
    then some restricted
    else none

abbrev supplied_label : Option String → String
supplied_label none = "internal"
supplied_label (some s) = s

abbrev pub is_stored_ref : Option String → Bool
is_stored_ref r = opt_str_eq r (some "self") || opt_str_eq r (some "encrypted")

abbrev pub readable : Option Principal → Meta → Bool
readable none m = true
readable (some p) m = can_read p (some m)

unfoldable pub classification_of : String → Option Principal → Option Meta → Option Classification
classification_of tenant p none = none
classification_of tenant p (some m) =
    if str_eq m.tenant tenant && readable p m then some m.classification else none

unfoldable pub memory_classification :
    Client → Option Principal → Option String → Option Classification
unfolding classification_of
memory_classification c p none = none
memory_classification c p (some id) =
    if str_eq id "" then none else classification_of c.tenant p (c.get_meta id)

abbrev pub is_inline : Option String → Bool
is_inline none = false
is_inline (some t) = true

-- `_stored_classification`
unfoldable pub stored_classification :
    Option Client → Option Principal → Span → Option Classification
unfolding memory_classification
stored_classification none p span = none
stored_classification (some c) p span =
    if is_inline span.text || not (is_stored_ref span.text_ref)
    then none
    else memory_classification c p span.memory_id

unfoldable pub raise_label : String → Option Classification → Classification → List String
unfolding label_of
raise_label supplied none stored = supplied ∷ label_of stored ∷ []
raise_label supplied (some k) stored =
    (if ltb (rank k) (rank stored) then label_of stored else supplied) ∷ []

abbrev pub raised_by : String → Option Classification → List String
raised_by supplied none = supplied ∷ []
raised_by supplied (some k) =
    if str_eq (label_of k) supplied
    then supplied ∷ []
    else raise_label supplied (class_of_label supplied) k

-- `span_classifications`
unfoldable pub span_classifications : Option Client → Option Principal → Span → List String
unfolding stored_classification raise_label class_of_label label_of
span_classifications client p span =
    raised_by (supplied_label span.classification) (stored_classification client p span)
