-- ===== src/Policy.antt =====
-- heartwood/policy.py: who may see a row. The enforcer is pure; its decisions carry a reason.
pub mod Visible
use heartwood_memory.Prelude.{
  ℕ, ◌≡◌, Bool, true, false, Option, none, some, List, [], ◌∷◌, ◌++◌, String, not, ◌&&◌, ltb,
  str_eq, intersects, if◌then◌else◌,
}
use heartwood_memory.Envelope.{Classification, rank, is_private, gates, Meta}

pub record Principal : Type 0 where
  pub id : String
  pub tenant : String
  pub roles : List String
  pub attrs : List (String × String)
  pub clearance : Classification

-- `dict(self.attrs).get(key)`: of two pairs with one key the later one counts.
unfoldable pub attr_get : List (String × String) → String → Option String
attr_get [] key = none
attr_get ((k, v) ∷ rest) key =
    let later = attr_get rest key in
    elim later [ some w ↦ some w | none ↦ if str_eq k key then some v else none ]

pub data Reason : Type 0 where
  cross_tenant above_clearance role : Reason
  attr : String → Reason
  private_row ok : Reason

-- The principal shares a role with every group.
unfoldable pub passes_gates : List String → List (List String) → Bool
passes_gates roles [] = true
passes_gates roles (g ∷ gs) = intersects roles g && passes_gates roles gs

abbrev pub opt_is : Option String → String → Bool
opt_is none v = false
opt_is (some w) v = str_eq w v

-- The key of the first required attribute that the principal does not have.
unfoldable pub attr_missing : List (String × String) → List (String × String) → Option String
unfolding attr_get
attr_missing have [] = none
attr_missing have ((k, v) ∷ rest) =
    if opt_is (attr_get have k) v then attr_missing have rest else some k

unfoldable pub visible : Principal → Meta → Bool × Reason
visible p row =
    if not (str_eq row.tenant p.tenant)
    then (false, cross_tenant)
    else if ltb (rank p.clearance) (rank row.classification)
    then (false, above_clearance)
    else if not (passes_gates p.roles (gates row.roles row.role_groups))
    then (false, role)
    else elim (attr_missing p.attrs row.attrs) [
      | some k ↦ (false, attr k)
      | none ↦
          if is_private row.visibility && not (str_eq row.created_by p.id)
          then (false, private_row)
          else (true, ok)
    ]

-- The loop of `allowed_view`: rows that may be seen, and denied rows with their reasons.
unfoldable pub allowed_view : Principal → List Meta → List Meta × List (Meta × Reason)
allowed_view p [] = ([], [])
allowed_view p (r ∷ rows) =
    let (seen, denied) = allowed_view p rows in
    if (visible p r).0 then (r ∷ seen, denied) else (seen, (r, (visible p r).1) ∷ denied)
