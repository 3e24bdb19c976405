-- ===== src/Egress/Permitted.antt =====
-- The conditions of a request of heartwood/egress.py, each read off the request, the policy of the
-- tenant and the registry of providers.
use heartwood_memory.Prelude.{
  ◌≡◌, ◌≢◌, refl, sym, ap, inl, inr, Bool, true, false, not, ◌&&◌, Option, none, some, List, [],
  ◌∷◌, ◌++◌, String, arith, str_eq_iff, opt_str_eq, elem, intersects, subset, In, In_of_elem, All,
  Bool-cases,
}
use heartwood_memory.Envelope.{nonempty}
use heartwood_memory.Policy.{Principal}
use heartwood_memory.Spans.{Span, Client, is_blank}
use heartwood_memory.Egress.{
  Patterns, raw_pii_patterns, Endpoint, ProviderPolicy, provider_policy_matches_model,
  resolve_provider_policy, first_match, span_classifications,
}
use heartwood_memory.Egress.Evaluate.{
  Request, Sent, request_pii_labels, request_classifications, raw_pii_in_payload, refusals, is_none,
  is_some_in, opt_true, unapproved, disallows, denies,
}

-- Each label of each span is in the list, or none is; likewise for the classes checked for a span.
abbrev pub LabelsAll : (String → Type 0) → List Span → Type 0
LabelsAll P spans = All (λ (s : Span). All P s.pii_labels) spans

abbrev pub ClassesAll : Option Client → Option Principal → (String → Type 0) → List Span → Type 0
ClassesAll c p P spans = All (λ (s : Span). All P (span_classifications c p s)) spans

-- A registered provider that matches the model is approved, and takes the classes and labels of the
-- request.
pub record IsRegistered (providers : List ProviderPolicy) (c : Option Client) (p : Option Principal)
    (q : Request) : Type 0 where
  pub provider : ProviderPolicy
  pub is_in : In provider providers
  pub is_match : provider_policy_matches_model provider q.model ≡ true
  pub is_approved : provider.status ≡ some "approved"
  pub takes_classes :
      ClassesAll c p (λ k. elem k provider.allowed_classifications ≡ true) q.source_spans
  pub takes_labels : LabelsAll (λ l. elem l provider.denied_pii_labels ≡ false) q.source_spans

-- What must be true of a request of which anything is sent to an external model.
pub record IsPermitted (registry : Option (List ProviderPolicy)) (c : Option Client)
    (p : Option Principal) (q : Request) : Type 0 where
  pub is_remote : q.model.runtime ≢ some "local"
  pub is_allowed : q.policy.allow_external_models ≡ true
  pub is_registered :
      (providers : List ProviderPolicy) → registry ≡ some providers → IsRegistered providers c p q
  pub has_provider : (x : String) × (q.model.provider ≡ some x) × In x q.policy.allowed_providers
  pub has_region : (x : String) × (q.model.region ≡ some x) × In x q.policy.allowed_regions
  pub is_zero : q.policy.require_zero_retention ≡ true → q.model.retention ≡ some "zero"
  pub is_opted_out : q.model.training_opt_out ≡ some true
  pub no_class : ClassesAll c p (λ k. elem k q.policy.deny_classifications ≡ false) q.source_spans
  pub no_label : LabelsAll (λ l. elem l q.policy.deny_pii_labels ≡ false) q.source_spans
  pub no_human :
      ClassesAll c p (λ k. elem k q.policy.human_review_classifications ≡ false) q.source_spans

-- Lists of labels.
intersects-false :
    (xs ys : List String) → intersects xs ys ≡ false → All (λ x. elem x ys ≡ false) xs
intersects-false [] ys h = tt
intersects-false (x ∷ xs) ys h = (ground (arith, h), intersects-false xs ys (ground (arith, h)))

pub subset-true : (xs ys : List String) → subset xs ys ≡ true → All (λ x. elem x ys ≡ true) xs
subset-true [] ys h = tt
subset-true (x ∷ xs) ys h = (ground (arith, h), subset-true xs ys (ground (arith, h)))

All-split : (P : String → Type 0) (xs ys : List String) → All P (xs ++ ys) → All P xs × All P ys
All-split P [] ys h = (tt, h)
All-split P (x ∷ xs) ys h = let (a, b) = All-split P xs ys h.1 in ((h.0, a), b)

pub labels-All :
    (P : String → Type 0) (spans : List Span) → All P (request_pii_labels spans) → LabelsAll P spans
unfolding request_pii_labels
labels-All P [] h = tt
labels-All P (s ∷ spans) h =
    let (a, b) = All-split P s.pii_labels (request_pii_labels spans) h in (a, labels-All P spans b)

classes-All :
    (c : Option Client) (p : Option Principal) (P : String → Type 0) (spans : List Span)
    → All P (request_classifications c p spans)
    → ClassesAll c p P spans
unfolding request_classifications
classes-All c p P [] h = tt
classes-All c p P (s ∷ spans) h =
    let (a, b) = All-split P (span_classifications c p s) (request_classifications c p spans) h in
    (a, classes-All c p P spans b)

-- In a payload in which no pattern was found, none is in any text.
pub payload-clean :
    (r : Patterns) (sent : List Sent)
    → raw_pii_in_payload r sent ≡ []
    → All (λ x. raw_pii_patterns r x.text ≡ []) sent
unfolding raw_pii_in_payload
payload-clean r [] h = tt
payload-clean r (x ∷ sent) h = elim (Bool-cases (nonempty (raw_pii_patterns r x.text))) [
  | inl k ↦ cc (rw k at h)
  | inr k ↦ (none-found (raw_pii_patterns r x.text) k, payload-clean r sent (rw k at h))
]
  where
    none-found : (xs : List String) → nonempty xs ≡ false → xs ≡ []
    none-found [] e = refl
    none-found (y ∷ ys) e = cc

-- Tests on optional fields.
some-In :
    (o : Option String) (xs : List String)
    → not (is_some_in o xs) ≡ false
    → (x : String) × (o ≡ some x) × In x xs
some-In none xs h = cc
some-In (some x) xs h = (x, refl, In_of_elem x xs (ground (arith, h)))

opt-eq : (o : Option String) (x : String) → opt_str_eq o (some x) ≡ true → o ≡ some x
opt-eq none x h = cc
opt-eq (some y) x h = ap some ((str_eq_iff y x).0 h)

opt-ne : (o : Option String) → opt_str_eq o (some "local") ≡ false → o ≢ some "local"
opt-ne o h e = cc (rw e at h)

opted : (o : Option Bool) → not (opt_true o) ≡ false → o ≡ some true
opted none h = cc
opted (some true) h = refl
opted (some false) h = cc

first_match-In :
    (t : ProviderPolicy → Bool) (xs : List ProviderPolicy) (x : ProviderPolicy)
    → first_match t xs ≡ some x
    → In x xs × (t x ≡ true)
unfolding first_match
first_match-In t [] x h = cc
first_match-In t (y ∷ ys) x h = elim (Bool-cases (t y)) [
  | inl k ↦ let same : y ≡ x = cc (rw k at h) in (inl (sym same), rw (← same) k)
  | inr k ↦ let (a, b) = first_match-In t ys x (rw k at h) in (inr a, b)
]

resolve-In :
    (m : Endpoint) (requested : Option String) (providers : List ProviderPolicy)
    (x : ProviderPolicy)
    → resolve_provider_policy m requested (some providers) ≡ some x
    → In x providers × (provider_policy_matches_model x m ≡ true)
unfolding resolve_provider_policy
resolve-In m requested providers x h = elim (Bool-cases (is_blank requested)) [
  | inl k ↦ first_match-In (λ p. provider_policy_matches_model p m) providers x (rw k at h)
  | inr k ↦
      let (a, b) =
        first_match-In
          (λ p. opt_str_eq p.provider_policy_id requested && provider_policy_matches_model p m)
          providers x (rw k at h) in
      (a, ground (arith, b))
]

module _ (c : Option Client) (p : Option Principal) (q : Request) where
  abbrev Passed : Option (List ProviderPolicy) → Type 0
  Passed registry =
      All (λ x. x.0 ≡ false)
        (refusals q.model q.policy (not (is_none registry))
          (resolve_provider_policy q.model q.provider_policy_id registry)
          (request_pii_labels q.source_spans) (request_classifications c p q.source_spans))

  registered :
      (providers : List ProviderPolicy) (found : Option ProviderPolicy)
      → resolve_provider_policy q.model q.provider_policy_id (some providers) ≡ found
      → is_none found ≡ false
      → unapproved found ≡ false
      → disallows found (request_classifications c p q.source_spans) ≡ false
      → denies found (request_pii_labels q.source_spans) ≡ false
      → IsRegistered providers c p q
  registered providers none e h k l m = cc
  registered providers (some x) e h k l m =
      let (there, fits) = resolve-In q.model q.provider_policy_id providers x e in
      record {
        provider = x;
        is_in = there;
        is_match = fits;
        is_approved = opt-eq x.status "approved" (ground (arith, k));
        takes_classes =
            classes-All c p (λ y. elem y x.allowed_classifications ≡ true) q.source_spans
              (subset-true (request_classifications c p q.source_spans) x.allowed_classifications
                (ground (arith, l)));
        takes_labels =
            labels-All (λ y. elem y x.denied_pii_labels ≡ false) q.source_spans
              (intersects-false (request_pii_labels q.source_spans) x.denied_pii_labels m);
      }

  refusals-IsRegistered :
      (registry : Option (List ProviderPolicy)) (providers : List ProviderPolicy)
      → Passed registry
      → registry ≡ some providers
      → IsRegistered providers c p q
  refusals-IsRegistered none providers h e = cc
  refusals-IsRegistered (some ps) providers h e =
      let same : ps ≡ providers = cc (e) in
      let found = resolve_provider_policy q.model q.provider_policy_id (some ps) in
      rw (← same)
        (registered ps found refl h.1.1.0 h.1.1.1.0 h.1.1.1.1.1.1.1.1.0 h.1.1.1.1.1.1.1.1.1.0)

  -- A request that no refusal of the code holds for meets the conditions.
  pub refusals-IsPermitted :
      (registry : Option (List ProviderPolicy)) → Passed registry → IsPermitted registry c p q
  refusals-IsPermitted registry h =
      let late = h.1.1.1.1.1.1.1.1.1.1 in
      record {
        is_remote = opt-ne q.model.runtime h.0;
        is_allowed = ground (arith, h.1.0);
        is_registered = λ providers e. refusals-IsRegistered registry providers h e;
        has_provider = some-In q.model.provider q.policy.allowed_providers h.1.1.1.1.0;
        has_region = some-In q.model.region q.policy.allowed_regions h.1.1.1.1.1.0;
        is_zero = λ e. opt-eq q.model.retention "zero" (ground (arith, e, h.1.1.1.1.1.1.0));
        is_opted_out = opted q.model.training_opt_out h.1.1.1.1.1.1.1.0;
        no_class =
            classes-All c p (λ k. elem k q.policy.deny_classifications ≡ false) q.source_spans
              (intersects-false (request_classifications c p q.source_spans)
                q.policy.deny_classifications late.0);
        no_label =
            labels-All (λ l. elem l q.policy.deny_pii_labels ≡ false) q.source_spans
              (intersects-false (request_pii_labels q.source_spans) q.policy.deny_pii_labels
                late.1.0);
        no_human =
            classes-All c p (λ k. elem k q.policy.human_review_classifications ≡ false)
              q.source_spans
              (intersects-false (request_classifications c p q.source_spans)
                q.policy.human_review_classifications late.1.1.0);
      }
