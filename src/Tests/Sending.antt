-- ===== src/Tests/Sending.antt =====
-- Egress, spans and the rate limiter at concrete requests.
use heartwood_memory.Prelude.{
  ℕ, ◌≤◌, ◌≡◌, refl, true, false, none, some, List, [], ◌∷◌, String, ◌⊎◌, arith, ltb, length,
  is_empty, ok, str_eq, if◌then◌else◌,
}
use heartwood_memory.Envelope.{Meta, confidential}
use heartwood_memory.Policy.{visible, passes_gates, attr_missing}
use heartwood_memory.Envelope.{gates}
use heartwood_memory.Spans.{Span, Client, can_read, may_resolve, resolve, resolve_source_span_text}
use heartwood_memory.Spans.Readable.{StandsIn, resolve_source_span_text-visible}
use heartwood_memory.Egress.{
  Patterns, Endpoint, raw_pii_patterns, resolve_provider_policy, span_classifications,
}
use heartwood_memory.Egress.Evaluate.{EgressPolicy, Request, evaluate_request}
use heartwood_memory.Egress.Decision.{evaluate_request-IsSent, IsSent}
use heartwood_memory.Egress.Labels.{Covers, span_classifications-Covers}
use heartwood_memory.RateLimiter.{Credential, Buckets, Verdict, check}
use heartwood_memory.RateLimiter.Window.{recent}
use heartwood_memory.RateLimiter.Bound.{
  Calls, IsServable, serve, no_buckets, serve_within_limit, check_exact,
}
use heartwood_memory.Tests.Samples.{m1, reader}

-- A search that finds the text "a@b.c" only, and takes it out whole.
abbrev patterns : Patterns
patterns = record {
  search = λ label text. str_eq text "a@b.c";
  sub = λ label text. if str_eq text "a@b.c" then "[REDACTED_EMAIL]" else text;
}

abbrev mail : Span
mail = record {
  span_id = "s1";
  text = some "a@b.c";
  text_ref = none;
  text_index = none;
  memory_id = none;
  content_hash = none;
  classification = none;
  pii_labels = "email" ∷ [];
}

abbrev remote : Endpoint
remote = record {
  provider = some "p";
  runtime = some "hosted";
  region = some "eu";
  retention = some "zero";
  training_opt_out = some true;
  endpoint = none;
}

abbrev lenient : EgressPolicy
lenient = record {
  allow_external_models = true;
  allowed_providers = "p" ∷ [];
  allowed_regions = "eu" ∷ [];
  require_zero_retention = true;
  deny_classifications = "restricted" ∷ [];
  deny_pii_labels = "ssn" ∷ [];
  human_review_classifications = "confidential" ∷ [];
  redactable_pii_labels = "email" ∷ [];
  allow_redaction = true;
}

abbrev asked : Request
asked = record {
  model = remote;
  provider_policy_id = none;
  policy = lenient;
  source_spans = mail ∷ [];
}

sends : is_empty (evaluate_request patterns none none none asked).payload ≡ false
unfolding evaluate_request resolve_provider_policy raw_pii_patterns resolve_source_span_text
sends = refl

evaluate_request-IsSent_example :
    IsSent patterns none none none asked (evaluate_request patterns none none none asked)
evaluate_request-IsSent_example = evaluate_request-IsSent patterns none none none asked sends

-- A span of `m1` that the caller labels as internal.
abbrev client : Client
client = record {
  tenant = "acme";
  get_meta = λ id. if str_eq id "m1" then some m1 else none;
  read_content = λ id. some "quoted";
  read_span_text = λ id index hash. none;
}

abbrev quote : Span
quote = record {
  span_id = "s2";
  text = none;
  text_ref = some "self";
  text_index = none;
  memory_id = some "m1";
  content_hash = some "sha256:00";
  classification = some "internal";
  pii_labels = [];
}

resolves : resolve_source_span_text (some client) (some reader) quote ≡ some "quoted"
unfolding resolve_source_span_text resolve may_resolve can_read visible passes_gates gates
    attr_missing
resolves = refl

span_classifications-Covers_example :
    Covers (span_classifications (some client) (some reader) quote) confidential
span_classifications-Covers_example =
    span_classifications-Covers client (some reader) quote "m1" "quoted" m1 refl refl refl refl
      resolves

resolve_source_span_text-visible_example :
    (quote.text ≡ some "quoted")
    ⊎ ((id : String) × (row : Meta) × (quote.memory_id ≡ some id)
        × (client.get_meta id ≡ some row)
        × ((visible reader row).0 ≡ true)
        × StandsIn client quote id row "quoted")
resolve_source_span_text-visible_example =
    resolve_source_span_text-visible client reader quote "quoted" resolves

abbrev cred : String → Credential
cred digest = record { token_digest = digest; rate_limit_requests = 2; rate_limit_window = 10 }

abbrev calls : Calls
calls = (cred "a", 1) ∷ (cred "b", 2) ∷ (cred "a", 3) ∷ (cred "a", 4) ∷ []

calls-IsServable : IsServable "a" 2 10 0 calls 5
calls-IsServable = (
  omega arith,
  omega arith,
  (λ _. (refl, refl)),
  (
    omega arith,
    omega arith,
    (λ _. (refl, refl)),
    (
      omega arith,
      omega arith,
      (λ _. (refl, refl)),
      (omega arith, omega arith, (λ _. (refl, refl)), omega arith),
    ),
  ),
)

serve_within_limit_example :
    (s : Buckets × List ℕ) × (serve 1 "a" calls no_buckets [] ≡ ok s)
    × (length (recent 5 10 s.1) ≤ 2)
serve_within_limit_example = serve_within_limit 1 "a" 2 10 calls 5 calls-IsServable

check_exact_example :
    (s : Buckets × List ℕ) × (r : Verdict × Buckets) × (serve 1 "a" calls no_buckets [] ≡ ok s)
    × (check 1 6 (cred "a") s.0 ≡ ok r)
    × (r.0.allowed ≡ ltb (length (recent 6 10 s.1)) 2)
check_exact_example =
    check_exact 1 "a" 2 10 calls 5 6 (cred "a") calls-IsServable (omega arith) (omega arith) refl
      (refl, refl)
