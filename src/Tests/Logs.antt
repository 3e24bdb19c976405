-- ===== src/Tests/Logs.antt =====
-- The audit chain at concrete logs.
use heartwood_memory.Prelude.{suc, ◌≡◌, refl, true, none, [], ◌∷◌, ◌++◌, map, ◌⊎◌}
use heartwood_memory.Audit.{Row, Log, audit_fields}
use heartwood_memory.Audit.Chain.{verify_chain, append, verify_chain-append}
use heartwood_memory.Audit.Tamper.{bound, Collides, tamper_evident}
use heartwood_memory.Tests.Samples.{codec, no_log, sample_detail}

abbrev one : Log
one = append codec no_log "acme" "ann" "remember" "m1" sample_detail 5

empty_verifies : verify_chain codec none no_log ≡ true
unfolding verify_chain
empty_verifies = refl

verify_chain-append_example :
    (verify_chain codec none one ≡ true)
    × ((row : Row) × (one.rows ≡ no_log.rows ++ row ∷ []) × (row.seq ≡ suc no_log.last_seq))
unfolding audit_fields
verify_chain-append_example =
    verify_chain-append codec none no_log "acme" "ann" "remember" "m1" sample_detail 5 refl
      empty_verifies

one_verifies : verify_chain codec none one ≡ true
unfolding audit_fields
one_verifies =
    (verify_chain-append codec none no_log "acme" "ann" "remember" "m1" sample_detail 5 refl
      empty_verifies).0

tamper_evident_example :
    (map (bound codec) one.rows ≡ map (bound codec) one.rows) ⊎ Collides codec one.rows one.rows
tamper_evident_example = tamper_evident codec none none one one one_verifies one_verifies refl
