-- ===== src/Recall.antt =====
-- The first step of `recall` in heartwood/client.py: which rows a query may rank at all. Filters over
-- the metadata, then the policy enforcer; and `valid_at` of heartwood/typed_ranking.py.
pub mod View
use heartwood_memory.Prelude.{
  ℕ, Bool, true, false, not, ◌&&◌, ◌||◌, ◌==◌, leb, ltb, Option, none, some, List, [], ◌∷◌, ◌++◌,
  String, str_eq, elem, intersects, any, filter, count_p, if◌then◌else◌, Result, ok, raise, ◌>>=◌,
}
use heartwood_memory.Envelope.{
  Meta, nonempty, is_contract, Stamp, absent, unparseable, at, ReviewState, proposed, rejected,
  disputed, superseded, Kind, source, capability_contract, episodic, semantic, procedural, profile,
  generated, working, Epistemic, observed_fact, imported_source, user_stated, model_generated,
  inferred_belief, hypothesis, simulated, approved_canonical,
}
use heartwood_memory.Policy.{Principal, visible, allowed_view}
use heartwood_memory.Review.{normalize_review_state}
use heartwood_memory.Store.{state_code}
use heartwood_memory.Egress.{label_of}

abbrev pub starts_by : Stamp → ℕ → Bool
starts_by (at from) t = leb from t
starts_by _ t = true

abbrev pub ends_after : Stamp → ℕ → Bool
ends_after (at until) t = ltb t until
ends_after _ t = true

-- `valid_at`, at an instant that could be parsed: a bound that is missing or cannot be parsed is no
-- bound.
unfoldable pub valid_at : Meta → ℕ → Bool
valid_at m t = starts_by m.valid_from t && ends_after m.valid_until t

unfoldable pub kind_name : Kind → String
kind_name source = "source"
kind_name capability_contract = "capability-contract"
kind_name episodic = "episodic"
kind_name semantic = "semantic"
kind_name procedural = "procedural"
kind_name profile = "profile"
kind_name generated = "generated"
kind_name working = "working"

unfoldable pub epistemic_name : Epistemic → String
epistemic_name observed_fact = "observed-fact"
epistemic_name imported_source = "imported-source"
epistemic_name user_stated = "user-stated"
epistemic_name model_generated = "model-generated"
epistemic_name inferred_belief = "inferred-belief"
epistemic_name hypothesis = "hypothesis"
epistemic_name simulated = "simulated"
epistemic_name approved_canonical = "approved-canonical"

-- The filters that the first step reads. A list that is empty is a filter that is not given, but for
-- `kinds`, which counts as soon as the key is there.
pub record Filters : Type 0 where
  pub include_review_states : List (Option String)
  pub hide_review_states : List (Option String)
  pub hide_proposed : Bool
  pub include_expired : Bool
  pub effective_at : Stamp
  pub kinds : Option (List String)
  pub memory_types : List String
  pub allowed_memory_types : List String
  pub epistemics : List String
  pub allowed_epistemics : List String
  pub policy_scopes : List String
  pub allowed_policy_scopes : List String
  pub include_contextual_aux : Bool
  pub allowed_classifications : List String
  pub denied_subjects : List String
  pub denied_subject_ids : List String
  pub subject : Option String

abbrev pub States : Type 0
States = List (Option ReviewState)

unfoldable pub normalize_all : List (Option String) → Result States
normalize_all [] = ok []
normalize_all (s ∷ ss) = do
  state ← normalize_review_state s
  states ← normalize_all ss
  ok (state ∷ states)

abbrev pub has_state : Option ReviewState → States → Bool
has_state s states = any (λ x. state_code x == state_code s) states

-- `xs or ys`
abbrev pub or_list : List String → List String → List String
or_list [] ys = ys
or_list (x ∷ xs) ys = x ∷ xs

-- A filter that is given and does not name the value.
abbrev pub excludes : List String → String → Bool
excludes xs v = nonempty xs && not (elem v xs)

abbrev outside : Option (List String) → String → Bool
outside none v = false
outside (some xs) v = not (elem v xs)

abbrev differs : Option String → String → Bool
differs none v = false
differs (some s) v = not (str_eq v s)

-- `DEFAULT_HIDDEN_REVIEW_STATES | hide_review_states`
unfoldable pub hidden_states : Filters → States → States
hidden_states f hide =
    some rejected
    ∷ some disputed
    ∷ some superseded
    ∷ ((if f.hide_proposed then some proposed ∷ [] else []) ++ hide)

-- The tests of `match` that reject a row, in the order of the code.
abbrev pub rejections : Filters → States → States → ℕ → Meta → List Bool
rejections f included hidden t m =
    (has_state m.review_state hidden && not (has_state m.review_state included))
    ∷ outside f.kinds (kind_name m.kind)
    ∷ excludes (or_list f.memory_types f.allowed_memory_types) (kind_name m.kind)
    ∷ excludes (or_list f.epistemics f.allowed_epistemics) (epistemic_name m.epistemic)
    ∷ excludes (or_list f.policy_scopes f.allowed_policy_scopes) m.policy_scope
    ∷ (str_eq m.policy_scope "contextual-aux" && not f.include_contextual_aux)
    ∷ excludes f.allowed_classifications (label_of m.classification)
    ∷ (elem m.subject (or_list f.denied_subjects f.denied_subject_ids)
        || intersects (or_list f.denied_subjects f.denied_subject_ids) m.subject_ids)
    ∷ (not f.include_expired && not (valid_at m t))
    ∷ differs f.subject m.subject
    ∷ []

unfoldable pub matches : Filters → States → States → ℕ → Meta → Bool
unfolding kind_name epistemic_name label_of valid_at
matches f included hidden t m = not (any (λ b. b) (rejections f included hidden t m)) && m.indexed

-- The instant at which validity is judged: `effective_at`, or now if that is no instant.
unfoldable pub reference : ℕ → Stamp → ℕ
reference now (at t) = t
reference now _ = now

-- The records that are not indexed yet and that the principal may see.
unfoldable pub index_lag : Principal → List Meta → ℕ
index_lag p rows =
    count_p
      (λ m.
        not m.indexed
        && (not (is_contract m.kind && str_eq m.policy_scope "continuity-privileged")
            && (visible p m).0))
      rows

-- What may be ranked, and the lag; the rows are all those of the store.
unfoldable pub recall_view : ℕ → Principal → Filters → List Meta → Result (List Meta × ℕ)
unfolding normalize_all hidden_states matches reference index_lag
recall_view now p f memories = do
  included ← normalize_all f.include_review_states
  hide ← normalize_all f.hide_review_states
  let rows = filter (λ m. str_eq m.tenant p.tenant) memories
  let t = reference now f.effective_at
  let metas = filter (matches f included (hidden_states f hide) t) rows
  ok ((allowed_view p metas).0, index_lag p rows)
