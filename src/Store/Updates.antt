-- ===== src/Store/Updates.antt =====
-- heartwood/store.py: the guarded updates of one memory row. Each compares the value that the caller
-- read with the one that is stored, and says whether one row was changed.
use heartwood_memory.Prelude.{
  Bool, not, ◌&&◌, ◌==◌, Option, none, some, String, str_eq, count_p, if◌then◌else◌,
}
use heartwood_memory.Envelope.{Meta, Epistemic, ReviewState, TruthStatus}
use heartwood_memory.Store.{Store, state_code, update_where}

abbrev pub in_state : String → Option ReviewState → Meta → Bool
in_state id expected m = str_eq m.id id && (state_code m.review_state == state_code expected)

-- `update_review_state`
unfoldable pub update_review_state :
    Store → String → ReviewState → Option ReviewState → Bool × Store
update_review_state s id to expected = (
  count_p (in_state id expected) s.memories == 1,
  record s {
    memories =
        update_where (in_state id expected) (λ m. record m { review_state = some to }) s.memories;
  },
)

abbrev pub same_bool : Bool → Bool → Bool
same_bool a b = if a then b else not b

abbrev pub is_indexed : String → Bool → Meta → Bool
is_indexed id expected m = str_eq m.id id && same_bool m.indexed expected

-- `update_indexed`
unfoldable pub update_indexed : Store → String → Bool → Bool → Bool × Store
update_indexed s id indexed expected = (
  count_p (is_indexed id expected) s.memories == 1,
  record s {
    memories =
        update_where (is_indexed id expected) (λ m. record m { indexed = indexed }) s.memories;
  },
)

-- The columns that `update_epistemic` sets, those of the signature left out.
abbrev pub set_epistemic : Epistemic → Option String → Option TruthStatus → Meta → Meta
set_epistemic e none none m = record m { epistemic = e }
set_epistemic e none (some t) m = record m { epistemic = e; truth_status = t }
set_epistemic e (some p) none m = record m { epistemic = e; created_by = p }
set_epistemic e (some p) (some t) m = record m { epistemic = e; created_by = p; truth_status = t }

unfoldable pub update_epistemic :
    Store → String → Epistemic → Option String → Option TruthStatus → Store
update_epistemic s id e created_by truth = record s {
  memories = update_where (λ m. str_eq m.id id) (set_epistemic e created_by truth) s.memories;
}
