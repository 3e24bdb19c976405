-- ===== src/Egress/Evaluate.antt =====
-- `evaluate_request` of heartwood/egress.py.
use heartwood_memory.Prelude.{
  Bool, true, false, not, ◌&&◌, ◌||◌, Option, none, some, List, [], ◌∷◌, ◌++◌, String, opt_str_eq,
  elem, intersects, subset, is_empty, filter, if◌then◌else◌,
}
use heartwood_memory.Envelope.{nonempty}
use heartwood_memory.Policy.{Principal}
use heartwood_memory.Spans.{Span, Client, resolve_source_span_text}
use heartwood_memory.Egress.{
  Patterns, redact_text, raw_pii_patterns, Endpoint, ProviderPolicy, resolve_provider_policy,
  span_classifications, supplied_label,
}

-- The policy of a tenant for external models.
pub record EgressPolicy : Type 0 where
  pub allow_external_models : Bool
  pub allowed_providers : List String
  pub allowed_regions : List String
  pub require_zero_retention : Bool
  pub deny_classifications : List String
  pub deny_pii_labels : List String
  pub human_review_classifications : List String
  pub redactable_pii_labels : List String
  pub allow_redaction : Bool

pub record Request : Type 0 where
  pub model : Endpoint
  pub provider_policy_id : Option String
  pub policy : EgressPolicy
  pub source_spans : List Span

pub data EgressDecision : Type 0 where
  external_allowed external_redacted local_only human_review denied : EgressDecision

unfoldable pub request_pii_labels : List Span → List String
request_pii_labels [] = []
request_pii_labels (s ∷ spans) = s.pii_labels ++ request_pii_labels spans

unfoldable pub request_classifications : Option Client → Option Principal → List Span → List String
unfolding span_classifications
request_classifications c p [] = []
request_classifications c p (s ∷ spans) =
    span_classifications c p s ++ request_classifications c p spans

-- A span as it is sent.
pub record Sent : Type 0 where
  pub span_id : String
  pub classification : String
  pub pii_labels : List String
  pub text : String

abbrev or_empty : Option String → String
or_empty none = ""
or_empty (some t) = t

abbrev only_label : Option String → List String → String
only_label supplied (c ∷ []) = c
only_label supplied _ = supplied_label supplied

common : List String → List String → List String
common xs ys = filter (λ x. elem x ys) xs

unfoldable pub build_payload :
    Patterns → Option Client → Option Principal → List String → List Span → List Sent
unfolding common redact_text
build_payload r c p labels [] = []
build_payload r c p labels (s ∷ spans) =
    record {
      span_id = s.span_id;
      classification = only_label s.classification (span_classifications c p s);
      pii_labels = s.pii_labels;
      text = redact_text r (or_empty (resolve_source_span_text c p s)) (common s.pii_labels labels);
    }
    ∷ build_payload r c p labels spans

-- `raw_pii_in_payload`: the spans of a payload in which a raw pattern is found.
unfoldable pub raw_pii_in_payload : Patterns → List Sent → List (String × List String)
raw_pii_in_payload r [] = []
raw_pii_in_payload r (s ∷ spans) =
    let rest = raw_pii_in_payload r spans in
    let found = raw_pii_patterns r s.text in
    if nonempty found then (s.span_id, found) ∷ rest else rest

-- `if … elif …`: the decision of the first condition that holds.
unfoldable pub first_refusal : List (Bool × EgressDecision) → Option EgressDecision
first_refusal [] = none
first_refusal ((b, d) ∷ rest) = if b then some d else first_refusal rest

abbrev pub is_none {ℓ} : {A : Type ℓ} → Option A → Bool
is_none none = true
is_none (some x) = false

abbrev pub is_some_in : Option String → List String → Bool
is_some_in none xs = false
is_some_in (some x) xs = elem x xs

abbrev pub opt_true : Option Bool → Bool
opt_true none = false
opt_true (some b) = b

abbrev pub unapproved : Option ProviderPolicy → Bool
unapproved none = false
unapproved (some p) = not (opt_str_eq p.status (some "approved"))

abbrev pub disallows : Option ProviderPolicy → List String → Bool
disallows none classes = false
disallows (some p) classes = not (subset classes p.allowed_classifications)

abbrev pub denies : Option ProviderPolicy → List String → Bool
denies none labels = false
denies (some p) labels = intersects labels p.denied_pii_labels

-- The conditions under which nothing is sent, in the order of the code. `known` is the truth value
-- of the registry.
abbrev pub refusals :
    Endpoint
    → EgressPolicy
    → Bool
    → Option ProviderPolicy
    → List String
    → List String
    → List (Bool × EgressDecision)
refusals m policy known provider labels classes =
    (opt_str_eq m.runtime (some "local"), local_only)
    ∷ (not policy.allow_external_models, local_only)
    ∷ (known && is_none provider, denied)
    ∷ (unapproved provider, denied)
    ∷ (not (is_some_in m.provider policy.allowed_providers), denied)
    ∷ (not (is_some_in m.region policy.allowed_regions), denied)
    ∷ (policy.require_zero_retention && not (opt_str_eq m.retention (some "zero")), denied)
    ∷ (not (opt_true m.training_opt_out), denied)
    ∷ (disallows provider classes, denied)
    ∷ (denies provider labels, denied)
    ∷ (intersects classes policy.deny_classifications, denied)
    ∷ (intersects labels policy.deny_pii_labels, denied)
    ∷ (intersects classes policy.human_review_classifications, human_review)
    ∷ []

-- The last branch: what may be sent is sent whole, redacted, or not without a human.
abbrev pub released : EgressPolicy → List String → EgressDecision
released policy labels =
    if is_empty labels
    then external_allowed
    else if policy.allow_redaction && subset labels policy.redactable_pii_labels
    then external_redacted
    else human_review

abbrev pub or_released : Option EgressDecision → EgressDecision → EgressDecision
or_released none d = d
or_released (some d) released = d

-- The labels that the payload is redacted of, for the two decisions that send one.
abbrev pub payload_for :
    Patterns
    → Option Client
    → Option Principal
    → List String
    → List Span
    → EgressDecision
    → List Sent
payload_for r c p labels spans external_allowed = build_payload r c p [] spans
payload_for r c p labels spans external_redacted = build_payload r c p labels spans
payload_for r c p labels spans _ = []

abbrev pub is_redacted : EgressDecision → Bool
is_redacted external_redacted = true
is_redacted _ = false

abbrev pub is_allowed : EgressDecision → Bool
is_allowed external_allowed = true
is_allowed _ = false

pub record Evaluation : Type 0 where
  pub decision : EgressDecision
  pub pii_labels : List String
  pub classifications : List String
  pub raw_pii_leaks : List (String × List String)
  pub unsafe_external : Bool
  pub payload : List Sent

unfoldable pub first_decision :
    Option (List ProviderPolicy) → Option Client → Option Principal → Request → EgressDecision
unfolding first_refusal
first_decision registry c p q =
    let labels = request_pii_labels q.source_spans in
    or_released
      (first_refusal (
        refusals q.model q.policy (not (is_none registry))
          (resolve_provider_policy q.model q.provider_policy_id registry) labels
          (request_classifications c p q.source_spans)))
      (released q.policy labels)

-- The end of `evaluate_request`: a redacted payload in which a raw pattern is left is not sent.
unfoldable pub concluded :
    Patterns → Option Client → Option Principal → Request → EgressDecision → Evaluation
unfolding request_pii_labels request_classifications build_payload raw_pii_in_payload
concluded r c p q first =
    let labels = request_pii_labels q.source_spans in
    let classes = request_classifications c p q.source_spans in
    let payload = payload_for r c p labels q.source_spans first in
    let leaks = raw_pii_in_payload r payload in
    let stopped = is_redacted first && nonempty leaks in
    let final = if stopped then denied else first in
    record {
      decision = final;
      pii_labels = labels;
      classifications = classes;
      raw_pii_leaks = leaks;
      unsafe_external =
          is_allowed final
          && (nonempty labels
              || (intersects classes q.policy.deny_classifications
                  || intersects classes q.policy.human_review_classifications));
      payload = if stopped then [] else payload;
    }

unfoldable pub evaluate_request :
    Patterns
    → Option (List ProviderPolicy)
    → Option Client
    → Option Principal
    → Request
    → Evaluation
unfolding first_decision concluded
evaluate_request r registry c p q = concluded r c p q (first_decision registry c p q)

-- `generation_allowed`
unfoldable pub generation_allowed : EgressDecision → Bool → Bool
generation_allowed external_allowed allow_human_review = true
generation_allowed external_redacted allow_human_review = true
generation_allowed local_only allow_human_review = true
generation_allowed human_review allow_human_review = allow_human_review
generation_allowed denied allow_human_review = false
