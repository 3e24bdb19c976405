-- ===== src/Derivation.antt =====
-- The high-water mark of `Heartwood.remember` (heartwood/client.py): a derived memory takes the
-- highest classification of its parents, their PII flag, and all their role gates together.
pub mod Inherit
use heartwood_memory.Prelude.{
  ℕ, ◌≡◌, Bool, Option, none, some, List, [], ◌∷◌, ◌++◌, map, String, max, ◌||◌, ◌==◌, is_empty,
  sorted_set, compare_text, compare_texts, if◌then◌else◌,
}
use heartwood_memory.Envelope.{
  Classification, public, internal, confidential, restricted, rank, Policy, Meta, gates,
  requirement_groups,
}

-- What the loop over the parents accumulates.
pub record Mark : Type 0 where
  pub top_rank : ℕ
  pub pii : Bool
  pub groups : List (List String)
  pub live_parents : List String

-- `tuple(sorted(set(g)))`
unfoldable pub normal_group : List String → List String
normal_group g = sorted_set compare_text g

-- `next(k for k, v in CLASSIFICATION_RANK.items() if v == top_rank)`. The rank is one of the four.
unfoldable pub class_of_rank : ℕ → Classification
class_of_rank n =
    if n == 0
    then public
    else if n == 1
    then internal
    else if n == 2
    then confidential
    else restricted

-- One turn of the loop: `pm` is the row of the parent `id`, if there is one.
unfoldable pub add_parent : Mark → String → Option Meta → Mark
unfolding normal_group
add_parent mark id none = mark
add_parent mark id (some pm) = record {
  top_rank = max mark.top_rank (rank pm.classification);
  pii = mark.pii || pm.pii;
  groups = map normal_group (gates pm.roles pm.role_groups) ++ mark.groups;
  live_parents = mark.live_parents ++ id ∷ [];
}

unfoldable pub add_parents : (String → Option Meta) → Mark → List String → Mark
unfolding add_parent
add_parents get_meta mark [] = mark
add_parents get_meta mark (id ∷ ids) = add_parents get_meta (add_parent mark id (get_meta id)) ids

unfoldable pub start_mark : Policy → Mark
unfolding normal_group
start_mark p = record {
  top_rank = rank p.classification;
  pii = p.pii;
  groups = map normal_group (requirement_groups p);
  live_parents = [];
}

unfoldable pub policy_of_mark : Policy → Mark → Policy
unfolding class_of_rank
policy_of_mark p mark = record {
  visibility = p.visibility;
  classification = class_of_rank mark.top_rank;
  pii = mark.pii;
  roles = [];
  attrs = p.attrs;
  retention = p.retention;
  role_groups = sorted_set compare_texts mark.groups;
}

-- The policy and the live parents of a write with the parents `derived_from`.
unfoldable pub derive_policy : (String → Option Meta) → Policy → List String → Policy × List String
unfolding start_mark add_parents policy_of_mark
derive_policy get_meta p [] = (p, [])
derive_policy get_meta p (id ∷ ids) =
    let mark = add_parents get_meta (start_mark p) (id ∷ ids) in
    (policy_of_mark p mark, mark.live_parents)
