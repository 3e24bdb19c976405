-- ===== src/Egress/Decision.antt =====
-- What the decisions of `evaluate_request` in heartwood/egress.py guarantee.
use heartwood_memory.Prelude.{
  ◌≡◌, ◌⊎◌, inl, inr, refl, Bool, true, false, not, ◌&&◌, ◌||◌, Option, none, some, List, [], ◌∷◌,
  String, arith, All, Bool-cases, subset, is_empty, elem,
}
use heartwood_memory.Envelope.{nonempty}
use heartwood_memory.Policy.{Principal}
use heartwood_memory.Spans.{Client}
use heartwood_memory.Egress.{Patterns, ProviderPolicy, resolve_provider_policy, raw_pii_patterns}
use heartwood_memory.Egress.Permitted.{
  IsPermitted, LabelsAll, labels-All, subset-true, payload-clean, refusals-IsPermitted,
}
use heartwood_memory.Egress.Evaluate.{
  Request, EgressDecision, external_allowed, external_redacted, local_only, human_review, denied,
  request_pii_labels, request_classifications, build_payload, raw_pii_in_payload, first_refusal,
  is_none, refusals, released, or_released, is_redacted, is_allowed, Evaluation, first_decision,
  concluded, evaluate_request,
}

-- Whether a decision lets the spans leave.
abbrev pub is_external : EgressDecision → Bool
is_external d = is_allowed d || is_redacted d

first_refusal-none :
    (table : List (Bool × EgressDecision))
    → first_refusal table ≡ none
    → All (λ c. c.0 ≡ false) table
unfolding first_refusal
first_refusal-none [] h = tt
first_refusal-none ((b, d) ∷ rest) h = elim (Bool-cases b) [
  | inl k ↦ absurd (ground (arith, rw k at h))
  | inr k ↦ (k, first_refusal-none rest (rw k at h))
]

-- No condition of the table decides for sending.
first_refusal-internal :
    (table : List (Bool × EgressDecision)) (d : EgressDecision)
    → All (λ c. is_external c.1 ≡ false) table
    → first_refusal table ≡ some d
    → is_external d ≡ false
unfolding first_refusal
first_refusal-internal [] d a h = cc
first_refusal-internal ((b, e) ∷ rest) d a h = elim (Bool-cases b) [
  | inl k ↦ let same : some e ≡ some d = rw k at h in ground (arith, same, a.0)
  | inr k ↦ first_refusal-internal rest d a.1 (rw k at h)
]

or_released-external :
    (table : List (Bool × EgressDecision)) (d : EgressDecision) (r : Option EgressDecision)
    → first_refusal table ≡ r
    → All (λ c. is_external c.1 ≡ false) table
    → is_external (or_released r d) ≡ true
    → All (λ c. c.0 ≡ false) table × (or_released r d ≡ d)
or_released-external table d none same a h = (first_refusal-none table same, refl)
or_released-external table d (some e) same a h =
    absurd (ground (arith, h, first_refusal-internal table e a same))

nonempty-false {ℓ} : {A : Type ℓ} (xs : List A) → nonempty xs ≡ false → xs ≡ []
nonempty-false [] h = refl
nonempty-false (x ∷ xs) h = cc

module _ (r : Patterns) (registry : Option (List ProviderPolicy)) (c : Option Client)
    (p : Option Principal) (q : Request) where
  abbrev labels : List String
  labels = request_pii_labels q.source_spans

  abbrev classes : List String
  classes = request_classifications c p q.source_spans

  abbrev pub conditions : List (Bool × EgressDecision)
  conditions =
      refusals q.model q.policy (not (is_none registry))
        (resolve_provider_policy q.model q.provider_policy_id registry) labels classes

  -- A first decision to send was reached past every refusal.
  first_decision-external :
      is_external (first_decision registry c p q) ≡ true
      → All (λ x. x.0 ≡ false) conditions
        × (first_decision registry c p q ≡ released q.policy labels)
  unfolding first_decision
  first_decision-external h =
      or_released-external conditions (released q.policy labels) (first_refusal conditions) refl
        (
          refl,
          (
            refl,
            (
              refl,
              (refl, (refl, (refl, (refl, (refl, (refl, (refl, (refl, (refl, (refl, tt)))))))))),
            ),
          ),
        )
        h

  -- What is known of a first decision to send.
  abbrev Cleared : EgressDecision → Type 0
  Cleared d =
      is_external d ≡ true → All (λ x. x.0 ≡ false) conditions × (d ≡ released q.policy labels)

  released-allowed : external_allowed ≡ released q.policy labels → is_empty labels ≡ true
  released-allowed h = elim (Bool-cases (is_empty labels)) [
    | inl k ↦ k
    | inr k ↦
        elim (Bool-cases
          (q.policy.allow_redaction && subset labels q.policy.redactable_pii_labels)) [
            | inl j ↦ absurd (ground (arith, rw (k, j) at h))
            | inr j ↦ absurd (ground (arith, rw (k, j) at h))
          ]
  ]

  released-redacted :
      external_redacted ≡ released q.policy labels
      → (q.policy.allow_redaction && subset labels q.policy.redactable_pii_labels) ≡ true
  released-redacted h = elim (Bool-cases (is_empty labels)) [
    | inl k ↦ absurd (ground (arith, rw k at h))
    | inr k ↦
        elim (Bool-cases
          (q.policy.allow_redaction && subset labels q.policy.redactable_pii_labels)) [
            | inl j ↦ j
            | inr j ↦ absurd (ground (arith, rw (k, j) at h))
          ]
  ]

  concluded-safe :
      (first : EgressDecision) → Cleared first → (concluded r c p q first).unsafe_external ≡ false
  unfolding concluded
  concluded-safe external_allowed h =
      let (passed, same) = h refl in
      let empty = released-allowed same in
      let denied_class = passed.1.1.1.1.1.1.1.1.1.1.0 in
      let human_class = passed.1.1.1.1.1.1.1.1.1.1.1.1.0 in
      ground (arith, empty, denied_class, human_class)
  concluded-safe external_redacted h =
      elim (Bool-cases
        (nonempty (raw_pii_in_payload r (build_payload r c p labels q.source_spans)))) [
          | inl k ↦ rw k refl
          | inr k ↦ rw k refl
        ]
  concluded-safe local_only h = refl
  concluded-safe human_review h = refl
  concluded-safe denied h = refl

  -- A request is never decided as one that may go out whole while it carries a label of personal
  -- data, or a classification that the policy denies or keeps for a human.
  pub evaluate_request-safe : (evaluate_request r registry c p q).unsafe_external ≡ false
  unfolding evaluate_request
  evaluate_request-safe = concluded-safe (first_decision registry c p q) first_decision-external

  -- What an evaluation that sends something has seen.
  pub record IsSent (e : Evaluation) : Type 0 where
    pub is_permitted : IsPermitted registry c p q
    pub is_harmless :
        ((e.decision ≡ external_allowed) × LabelsAll (λ l. ⊥) q.source_spans)
        ⊎ ((e.decision ≡ external_redacted)
            × (q.policy.allow_redaction ≡ true)
            × LabelsAll (λ l. elem l q.policy.redactable_pii_labels ≡ true) q.source_spans
            × All (λ x. raw_pii_patterns r x.text ≡ []) e.payload)

  no-labels : (xs : List String) → is_empty xs ≡ true → All (λ l. ⊥) xs
  no-labels [] h = tt
  no-labels (x ∷ xs) h = cc

  concluded-IsSent :
      (first : EgressDecision)
      → Cleared first
      → is_empty (concluded r c p q first).payload ≡ false
      → IsSent (concluded r c p q first)
  unfolding concluded
  concluded-IsSent external_allowed h sent =
      let (passed, same) = h refl in
      record {
        is_permitted = refusals-IsPermitted c p q registry passed;
        is_harmless =
            inl
              (refl, labels-All (λ l. ⊥) q.source_spans (no-labels labels (released-allowed same)));
      }
  concluded-IsSent external_redacted h sent =
      let (passed, same) = h refl in
      let payload = build_payload r c p labels q.source_spans in
      let leaks = raw_pii_in_payload r payload in
      let may = released-redacted same in
      elim (Bool-cases (nonempty leaks)) [
        | inl k ↦ absurd (ground (arith, rw k at sent))
        | inr k ↦ rw k (record {
          is_permitted = refusals-IsPermitted c p q registry passed;
          is_harmless = inr (
            refl,
            ground (arith, may),
            labels-All (λ l. elem l q.policy.redactable_pii_labels ≡ true) q.source_spans
                (subset-true labels q.policy.redactable_pii_labels (ground (arith, may))),
            payload-clean r payload (nonempty-false leaks k),
          );
        })
      ]
  concluded-IsSent local_only h sent = cc
  concluded-IsSent human_review h sent = cc
  concluded-IsSent denied h sent = cc

  -- If anything is sent, then the model is not a local one, the policy allows external models, the
  -- provider and the region of the model, zero retention where it is required, and the model opted out
  -- of training; where there is a registry, a provider in it that matches the model is approved and
  -- takes every class and label of the spans; no span has a class or label that the policy denies, or
  -- a class that it keeps for a human; and either no span has a label of personal data, or the policy
  -- allows redaction of each of their labels and no raw pattern is found in any text that is sent.
  pub evaluate_request-IsSent :
      is_empty (evaluate_request r registry c p q).payload ≡ false
      → IsSent (evaluate_request r registry c p q)
  unfolding evaluate_request
  evaluate_request-IsSent sent =
      concluded-IsSent (first_decision registry c p q) first_decision-external sent
