-- ===== src/Tests/Retiring.antt =====
-- Retirement and approval at a concrete store.
use heartwood_memory.Prelude.{
  ◌≡◌, refl, Option, if◌then◌else◌, true, none, some, [], ◌∷◌, All, any, elem, ok, Result,
}
use heartwood_memory.Envelope.{
  Meta, approved_canonical, human_approved, accepted, disputed, ReviewState, gates,
}
use heartwood_memory.Policy.{Principal, visible, passes_gates, attr_missing}
use heartwood_memory.Review.{validate_supersede}
use heartwood_memory.Audit.{Value, audit_fields, append_audit, Log}
use heartwood_memory.Audit.Chain.{append}
use heartwood_memory.Store.{Store, Target, set_superseded}
use heartwood_memory.Store.Updates.{update_review_state}
use heartwood_memory.Consolidation.{is_approved}
use heartwood_memory.Retirement.{get_meta, distinct, supersede, approve, may_be_approved}
use heartwood_memory.Retirement.Authorized.{MayRetire, supersede-MayRetire}
use heartwood_memory.Retirement.Atomic.{IsRetired, supersede_retires}
use heartwood_memory.Retirement.Rows.{is_retired}
use heartwood_memory.Retirement.Approval.{approve-approves}
use heartwood_memory.Tests.Samples.{codec, m1, m2, m3, reader, sample_store, sample_detail, no_log}

abbrev detail : Target → Value
detail t = sample_detail

-- Ann retires her own record.
abbrev outcome : Result Store
outcome = supersede codec sample_store "acme" "ann" (some reader) detail 5 ("m2" ∷ "m2" ∷ [])

abbrev retired_log : Log
retired_log =
    append_audit codec no_log "acme" "ann" "supersede" "m2"
      (codec.dumps (audit_fields "acme" "ann" "supersede" "m2" sample_detail)) 5

abbrev retired : Store
retired = record sample_store { memories = m1 ∷ set_superseded m2 ∷ m3 ∷ []; log = retired_log }

supersede_test : outcome ≡ ok retired
unfolding supersede visible passes_gates gates attr_missing validate_supersede
supersede_test = refl

supersede-MayRetire_example :
    (reader.id ≡ "ann") × All (MayRetire reader "acme" sample_store.memories) ("m2" ∷ "m2" ∷ [])
supersede-MayRetire_example =
    supersede-MayRetire codec sample_store retired "acme" "ann" reader detail 5 ("m2" ∷ "m2" ∷ [])
      supersede_test

supersede_retires_example :
    All (λ id. any (is_retired "acme" id) retired.memories ≡ true) ("m2" ∷ "m2" ∷ [])
    × IsRetired sample_store retired "acme" ("m2" ∷ [])
unfolding distinct
supersede_retires_example =
    supersede_retires codec sample_store retired "acme" "ann" (some reader) detail 5
      ("m2" ∷ "m2" ∷ []) supersede_test

abbrev boss : Principal
boss = record reader { id = "eve"; roles = "approver" ∷ [] }

abbrev approved : Meta
approved = record m2 {
  epistemic = approved_canonical;
  created_by = "eve";
  truth_status = human_approved;
}

abbrev approved_store : Store
approved_store = record sample_store {
  memories = m1 ∷ approved ∷ m3 ∷ [];
  log = append codec no_log "acme" "eve" "approve" "m2" sample_detail 5;
}

approve_test :
    approve codec (λ s. s) sample_store "acme" boss sample_detail 5 "m2" ≡ ok approved_store
unfolding approve
approve_test = refl

approve-approves_example :
    (elem "approver" boss.roles ≡ true)
    × ((m : Meta) × (get_meta sample_store.memories "m2" ≡ some m)
        × (m.tenant ≡ "acme")
        × (may_be_approved m.review_state ≡ true)
        × (get_meta approved_store.memories "m2"
            ≡ some (record m {
              epistemic = approved_canonical;
              created_by = "eve";
              truth_status = human_approved;
            })))
approve-approves_example =
    approve-approves codec sample_store approved_store "acme" boss sample_detail 5 "m2" approve_test

-- A reviewer disputes the record between the read and the update: it is approved all the same.
abbrev dispute : Store → Store
dispute s = (update_review_state s "m2" disputed (some accepted)).1

abbrev approved_state : Option Meta → Option ReviewState
approved_state none = none
approved_state (some m) = if is_approved m.epistemic then m.review_state else none

abbrev state_after : Result Store → Option ReviewState
state_after (ok s) = approved_state (get_meta s.memories "m2")
state_after _ = none

approve_race_test :
    state_after (approve codec dispute sample_store "acme" boss sample_detail 5 "m2")
    ≡ some disputed
unfolding approve update_review_state get_meta
approve_race_test = refl
