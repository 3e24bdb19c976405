-- ===== src/Tests/Access.antt =====
-- Access, derivation and review at concrete rows.
use heartwood_memory.Prelude.{
  ◌≡◌, ◌↔◌, refl, true, false, Option, some, [], ◌∷◌, String, All, map, sorted_set,
}
use heartwood_memory.Envelope.{
  gates, requirement_groups, Meta, Policy, tenant_wide, internal, decayable, confidential,
}
use heartwood_memory.Policy.{visible, allowed_view, passes_gates, attr_missing}
use heartwood_memory.Policy.Visible.{MayRead, visible-MayRead}
use heartwood_memory.Derivation.{derive_policy}
use heartwood_memory.Derivation.Inherit.{IsClearedFor, derive_policy-IsClearedFor}
use heartwood_memory.Tests.Samples.{sample_row, m1, m3, reader}

visible-MayRead_example : ((visible reader m1).0 ≡ true) ↔ MayRead reader m1
visible-MayRead_example = visible-MayRead reader m1

-- The reader sees the first row; the third is above its clearance.
allowed_view_test : map (λ m. m.id) (allowed_view reader (m1 ∷ m3 ∷ [])).0 ≡ "m1" ∷ []
unfolding allowed_view visible passes_gates gates attr_missing
allowed_view_test = refl

abbrev stored : String → Option Meta
stored id = some m1

abbrev plain : Policy
plain = record {
  visibility = tenant_wide;
  classification = internal;
  pii = false;
  roles = [];
  attrs = [];
  retention = decayable;
  role_groups = [];
}

-- A row with the policy that a summary of `m1` gets.
abbrev summary : Meta
summary = record (sample_row "m4" "carol" confidential []) { role_groups = ("legal" ∷ []) ∷ [] }

summary-MayRead : MayRead reader summary
unfolding visible passes_gates gates attr_missing
summary-MayRead = (visible-MayRead reader summary).0 refl

derive_policy-IsClearedFor_example : All (λ id. IsClearedFor reader (stored id)) ("m1" ∷ [])
unfolding derive_policy sorted_set gates requirement_groups
derive_policy-IsClearedFor_example =
    derive_policy-IsClearedFor stored plain ("m1" ∷ []) reader summary refl refl refl
      summary-MayRead
