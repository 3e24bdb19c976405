-- ===== src/Retirement.antt =====
-- heartwood/client.py: who may retire a record, `supersede`, and `approve`.
pub mod Authorized
pub mod Rows
pub mod Atomic
pub mod Approval
use heartwood_memory.Prelude.{
  ℕ, Bool, true, false, not, ◌&&◌, ◌||◌, Option, none, some, List, [], ◌∷◌, ◌++◌, String, str_eq,
  elem, intersects, any, map, if◌then◌else◌, Result, ok, raise, value_error, type_error, key_error,
  permission_error, runtime_error, ◌>>=◌, ◌>>◌, require,
}
use heartwood_memory.Envelope.{
  Meta, is_contract, Epistemic, approved_canonical, TruthStatus, human_approved,
  default_truth_status, ReviewState, accepted,
}
use heartwood_memory.Policy.{Principal}
use heartwood_memory.Spans.{can_read}
use heartwood_memory.Review.{review_roles, validate_supersede}
use heartwood_memory.Audit.{Codec, Value, audit_fields}
use heartwood_memory.Audit.Chain.{append}
use heartwood_memory.Consolidation.{is_approved, is_human_approved}
use heartwood_memory.Store.{Store, Target, supersede_audited}
use heartwood_memory.Store.Updates.{update_epistemic}

-- `Store.get_meta`
unfoldable pub get_meta : List Meta → String → Option Meta
get_meta [] id = none
get_meta (m ∷ rows) id = if str_eq m.id id then some m else get_meta rows id

abbrev pub is_locked : Meta → Bool
is_locked m = is_approved m.epistemic || is_human_approved m.truth_status

-- `_authorize_retirement`
unfoldable pub authorize_retirement : String → Principal → Option Meta → Result Meta
unfolding can_read
authorize_retirement tenant p none = raise key_error
authorize_retirement tenant p (some m) =
    if not (str_eq m.tenant tenant) || not (can_read p (some m))
    then raise key_error
    else if is_locked m && not (elem "approver" p.roles)
    then raise permission_error
    else if not (is_locked m)
        && (not (str_eq m.created_by p.id) && not (intersects p.roles review_roles))
    then raise permission_error
    else ok m

-- The checks when the caller gives no principal.
unfoldable pub admit_retirement : String → Option Meta → Result Meta
admit_retirement tenant none = raise key_error
admit_retirement tenant (some m) = do
  require (str_eq m.tenant tenant) key_error
  require (not (is_contract m.kind && str_eq m.policy_scope "continuity-privileged"))
      permission_error
  ok m

abbrev pub admitted : String → Option Principal → Option Meta → Result Meta
admitted tenant none m = admit_retirement tenant m
admitted tenant (some p) m = authorize_retirement tenant p m

abbrev pub target_of : String → Meta → Target
target_of id m = record {
  id = id;
  review_state = m.review_state;
  epistemic = m.epistemic;
  created_by = m.created_by;
  content_hash = m.content_hash;
}

-- The loop of `_superseded_targets`.
unfoldable pub resolve_targets :
    String → List Meta → Option Principal → List String → Result (List Target)
unfolding get_meta authorize_retirement admit_retirement
resolve_targets tenant memories p [] = ok []
resolve_targets tenant memories p (id ∷ ids) = do
  m ← admitted tenant p (get_meta memories id)
  state ← validate_supersede m.review_state
  targets ← resolve_targets tenant memories p ids
  ok (target_of id m ∷ targets)

-- `tuple(dict.fromkeys(ids))`: the first occurrence of each.
unfoldable pub distinct : List String → List String → List String
distinct seen [] = []
distinct seen (id ∷ ids) =
    let rest = distinct (id ∷ seen) ids in if elem id seen then distinct seen ids else id ∷ rest

abbrev is_own : Option String → List String → Bool
is_own none ids = false
is_own (some id) ids = elem id ids

-- `_superseded_targets`, of a list of ids.
unfoldable pub superseded_targets :
    String
    → List Meta
    → Option Principal
    → Option String
    → Bool
    → List String
    → Result (List Target)
unfolding resolve_targets distinct
superseded_targets tenant memories p memory_id writing_contract [] = ok []
superseded_targets tenant memories p memory_id writing_contract (id ∷ ids) = do
  require (not (elem "" (id ∷ ids))) type_error
  require (not (is_own memory_id (distinct [] (id ∷ ids)))) value_error
  require (not writing_contract) permission_error
  resolve_targets tenant memories p (distinct [] (id ∷ ids))

abbrev speaks_for : Option Principal → String → Bool
speaks_for none actor = true
speaks_for (some p) actor = str_eq p.id actor

retired_or_changed : Bool × Store → Result Store
retired_or_changed (true, s) = ok s
retired_or_changed (false, s) = raise runtime_error

retire : Codec → Store → String → String → (Target → Value) → ℕ → List Target → Result Store
unfolding retired_or_changed supersede_audited
retire c s tenant actor detail ts [] = ok s
retire c s tenant actor detail ts (t ∷ targets) = do
  done ←
      supersede_audited c s tenant (t ∷ targets) actor
        (map (λ x. c.dumps (audit_fields tenant actor "supersede" x.id (detail x))) (t ∷ targets))
        ts
  retired_or_changed done

-- `supersede`; `detail` is the change that an audit row tells of.
unfoldable pub supersede :
    Codec
    → Store
    → String
    → String
    → Option Principal
    → (Target → Value)
    → ℕ
    → List String
    → Result Store
unfolding superseded_targets retire
supersede c s tenant actor p detail ts ids = do
  require (speaks_for p actor) value_error
  targets ← superseded_targets tenant s.memories p none false ids
  retire c s tenant actor detail ts targets

abbrev pub may_be_approved : Option ReviewState → Bool
may_be_approved none = true
may_be_approved (some accepted) = true
may_be_approved _ = false

unfoldable pub approvable : String → Option Meta → Result Meta
approvable tenant none = raise key_error
approvable tenant (some m) = do
  require (str_eq m.tenant tenant) key_error
  require (may_be_approved m.review_state) permission_error
  ok m

-- `approve`; `meanwhile` is what other processes commit between the read and the update.
unfoldable pub approve :
    Codec → (Store → Store) → Store → String → Principal → Value → ℕ → String → Result Store
unfolding get_meta approvable update_epistemic default_truth_status append
approve c meanwhile s tenant p detail ts id = do
  require (elem "approver" p.roles) permission_error
  m ← approvable tenant (get_meta s.memories id)
  let t =
      update_epistemic (meanwhile s) id approved_canonical (some p.id)
        (some (default_truth_status approved_canonical))
  ok (record t { log = append c t.log tenant p.id "approve" id detail ts })
