-- ===== src/Review.antt =====
-- heartwood/review.py: the review states of a memory, and who may move one between them.
pub mod Workflow
use heartwood_memory.Prelude.{
  ◌≡◌, Bool, true, false, ◌||◌, not, Option, none, some, List, [], ◌∷◌, String, str_eq, intersects,
  if◌then◌else◌, Result, ok, raise, value_error, permission_error, ◌>>=◌, ◌>>◌, require,
}
use heartwood_memory.Envelope.{ReviewState, proposed, accepted, rejected, superseded, disputed}

-- `LEGAL_TRANSITIONS`: from, to.
unfoldable pub legal : ReviewState → ReviewState → Bool
legal proposed accepted = true
legal proposed rejected = true
legal proposed disputed = true
legal proposed superseded = true
legal accepted superseded = true
legal accepted disputed = true
legal rejected disputed = true
legal disputed accepted = true
legal disputed rejected = true
legal disputed superseded = true
legal _ _ = false

abbrev pub review_roles : List String
review_roles = "reviewer" ∷ "approver" ∷ []

-- `DEFAULT_HIDDEN_REVIEW_STATES`, tested on the state of a row.
unfoldable pub hidden_by_default : Option ReviewState → Bool
hidden_by_default (some rejected) = true
hidden_by_default (some disputed) = true
hidden_by_default (some superseded) = true
hidden_by_default _ = false

-- `ReviewState(str(state)).value`
unfoldable pub state_of_text : String → Result ReviewState
state_of_text s =
    if str_eq s "proposed"
    then ok proposed
    else if str_eq s "accepted"
    then ok accepted
    else if str_eq s "rejected"
    then ok rejected
    else if str_eq s "superseded"
    then ok superseded
    else if str_eq s "disputed"
    then ok disputed
    else raise value_error

-- `None` and the empty text mean that there is no state.
unfoldable pub normalize_review_state : Option String → Result (Option ReviewState)
unfolding state_of_text
normalize_review_state none = ok none
normalize_review_state (some s) =
    if str_eq s "" then ok none else do st ← state_of_text s; ok (some st)

check_transition : Option ReviewState → ReviewState → Result ReviewState
check_transition none to = raise value_error
check_transition (some frm) to = if legal frm to then ok to else raise value_error

check_target : Option ReviewState → Option ReviewState → List String → Result ReviewState
unfolding check_transition
check_target frm none roles = raise value_error
check_target frm (some to) roles =
    if not (intersects roles review_roles) then raise permission_error else check_transition frm to

-- The checks of `validate_transition`, in the order of the code.
unfoldable pub validate_transition :
    Option String → Option String → List String → Result ReviewState
unfolding normalize_review_state check_target
validate_transition frm to roles = do
  from_state ← normalize_review_state frm
  to_state ← normalize_review_state to
  check_target from_state to_state roles

check_supersede : Option ReviewState → Result ReviewState
unfolding legal
check_supersede none = ok superseded
check_supersede (some frm) = if legal frm superseded then ok superseded else raise value_error

-- A record outside the workflow may be superseded too. Takes a state of a stored row.
unfoldable pub validate_supersede : Option ReviewState → Result ReviewState
unfolding check_supersede
validate_supersede frm = check_supersede frm
