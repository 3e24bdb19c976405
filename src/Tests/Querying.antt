-- ===== src/Tests/Querying.antt =====
-- Recall and consolidation at concrete rows.
use heartwood_memory.Prelude.{
  ◌≤◌, ◌≡◌, ◌↔◌, refl, true, false, none, List, [], ◌∷◌, In, All, length, ok, String,
}
use heartwood_memory.Envelope.{Meta, absent, internal, gates}
use heartwood_memory.Policy.{allowed_view, visible, passes_gates, attr_missing}
use heartwood_memory.Policy.Visible.{MayRead}
use heartwood_memory.Recall.{
  Filters, States, normalize_all, hidden_states, matches, reference, recall_view,
}
use heartwood_memory.Recall.View.{recall_view_iff}
use heartwood_memory.Consolidation.{is_safe_consolidation_cluster}
use heartwood_memory.Consolidation.Safe.{
  IsMergeable, IsUnderPolicyOf, is_safe_consolidation_cluster-IsMergeable,
}
use heartwood_memory.Tests.Samples.{m1, m2, m3, sample_row, reader}

abbrev pub no_filters : Filters
no_filters = record {
  include_review_states = [];
  hide_review_states = [];
  hide_proposed = true;
  include_expired = false;
  effective_at = absent;
  kinds = none;
  memory_types = [];
  allowed_memory_types = [];
  epistemics = [];
  allowed_epistemics = [];
  policy_scopes = [];
  allowed_policy_scopes = [];
  include_contextual_aux = false;
  allowed_classifications = [];
  denied_subjects = "dan" ∷ [];
  denied_subject_ids = [];
  subject = none;
}

abbrev stored : List Meta
stored = m1 ∷ m2 ∷ m3 ∷ []

-- The third row is above the reader's clearance.
view_test : recall_view 9 reader no_filters stored ≡ ok (m1 ∷ m2 ∷ [], 0)
unfolding recall_view allowed_view visible passes_gates gates attr_missing
view_test = refl

recall_view_iff_example :
    (included : States) × (hide : States) × (normalize_all [] ≡ ok included)
    × (normalize_all [] ≡ ok hide)
    × ((m : Meta)
        → In m (m1 ∷ m2 ∷ []) ↔ (
            In m stored
            × MayRead reader m
            × (matches no_filters included (hidden_states no_filters hide) (reference 9 absent) m
                ≡ true)))
recall_view_iff_example = recall_view_iff 9 reader no_filters stored (m1 ∷ m2 ∷ []) 0 view_test

abbrev old : String → Meta
old id = sample_row id "bob" internal []

cluster_is_safe : is_safe_consolidation_cluster (old "a" ∷ old "b" ∷ old "c" ∷ []) 7776001 ≡ true
unfolding is_safe_consolidation_cluster
cluster_is_safe = refl

is_safe_consolidation_cluster-IsMergeable_example :
    (3 ≤ length (old "a" ∷ old "b" ∷ old "c" ∷ []))
    × All (λ n. n.tenant ≡ "acme") (old "b" ∷ old "c" ∷ [])
    × All (λ n. n.subject ≡ "bob") (old "b" ∷ old "c" ∷ [])
    × All (IsUnderPolicyOf (old "a")) (old "b" ∷ old "c" ∷ [])
    × All (IsMergeable 7776001) (old "a" ∷ old "b" ∷ old "c" ∷ [])
is_safe_consolidation_cluster-IsMergeable_example =
    is_safe_consolidation_cluster-IsMergeable (old "a") (old "b" ∷ old "c" ∷ []) 7776001
      cluster_is_safe
