-- ===== src/Envelope.antt =====
-- heartwood/envelope.py: the enumerations of a memory record, the trust ladder, the policy of a
-- record; and the metadata row of heartwood/store.py (`_row_meta`), which every component reads.
use heartwood_memory.Prelude.{
  ℕ, Bool, true, false, Option, List, [], ◌∷◌, ◌++◌, String, is_empty, filter, not, if◌then◌else◌,
}

pub data Kind : Type 0 where
  source capability_contract episodic semantic procedural profile generated working : Kind

pub data Epistemic : Type 0 where
  observed_fact imported_source user_stated model_generated inferred_belief : Epistemic
  hypothesis simulated approved_canonical : Epistemic

pub data TruthStatus : Type 0 where
  source_observed generated_supported generated_needs_review human_approved inferred : TruthStatus

-- `_TRUST_RANK` and `epistemic_rank`
unfoldable pub epistemic_rank : Epistemic → ℕ
epistemic_rank hypothesis = 0
epistemic_rank simulated = 0
epistemic_rank inferred_belief = 1
epistemic_rank model_generated = 1
epistemic_rank user_stated = 2
epistemic_rank imported_source = 2
epistemic_rank observed_fact = 3
epistemic_rank approved_canonical = 99

unfoldable pub default_truth_status : Epistemic → TruthStatus
default_truth_status approved_canonical = human_approved
default_truth_status model_generated = generated_supported
default_truth_status inferred_belief = inferred
default_truth_status hypothesis = inferred
default_truth_status simulated = inferred
default_truth_status _ = source_observed

pub data Classification : Type 0 where
  public internal confidential restricted : Classification

-- `CLASSIFICATION_RANK`
abbrev pub rank : Classification → ℕ
rank public = 0
rank internal = 1
rank confidential = 2
rank restricted = 3

pub data Visibility : Type 0 where
  private tenant_wide shared : Visibility

pub data Retention : Type 0 where
  pinned decayable : Retention
  ttl : ℕ → Retention

pub record Policy : Type 0 where
  pub visibility : Visibility
  pub classification : Classification
  pub pii : Bool
  pub roles : List String
  pub attrs : List (String × String)
  pub retention : Retention
  pub role_groups : List (List String)

abbrev pub nonempty {ℓ} : {A : Type ℓ} → List A → Bool
nonempty xs = not (is_empty xs)

-- The gates of a record: its roles, and each group that is not empty (`requirement_groups`, and
-- the same loop over a stored row in `PolicyEnforcer.visible`).
unfoldable pub gates : List String → List (List String) → List (List String)
gates roles groups = (if nonempty roles then roles ∷ [] else []) ++ filter nonempty groups

unfoldable pub requirement_groups : Policy → List (List String)
unfolding gates
requirement_groups p = gates p.roles p.role_groups

pub data ReviewState : Type 0 where
  proposed accepted rejected superseded disputed : ReviewState

-- A timestamp column as `parse_dt` reads it: NULL or empty, text that is no instant, or an instant.
pub data Stamp : Type 0 where
  absent : Stamp
  unparseable : Stamp
  at : ℕ → Stamp

pub record Meta : Type 0 where
  pub id : String
  pub tenant : String
  pub kind : Kind
  pub epistemic : Epistemic
  pub subject : String
  pub created_by : String
  pub created_at : ℕ
  pub content_hash : String
  pub truth_status : TruthStatus
  pub policy_scope : String
  pub valid_from : Stamp
  pub valid_until : Stamp
  pub subject_ids : List String
  -- Whether `subject_ids_json` is a JSON array of strings.
  pub has_readable_aliases : Bool
  pub entities : List String
  pub source_ids : List String
  pub visibility : Visibility
  pub classification : Classification
  pub pii : Bool
  pub roles : List String
  pub role_groups : List (List String)
  pub attrs : List (String × String)
  pub retention : Retention
  pub review_state : Option ReviewState
  pub indexed : Bool

-- `kind == "capability-contract"`
abbrev pub is_contract : Kind → Bool
is_contract capability_contract = true
is_contract _ = false

abbrev pub is_private : Visibility → Bool
is_private private = true
is_private _ = false

abbrev pub is_pinned : Retention → Bool
is_pinned pinned = true
is_pinned _ = false
