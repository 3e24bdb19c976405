-- ===== src/Store.antt =====
-- heartwood/store.py: the tables of the store and the transactions on memory rows. A transaction
-- that raises leaves the store as it was (`rollback`), so a raised error carries no store.
pub mod Purge
pub mod Updates
pub mod Transact
pub mod Final
use Prim.Native.String.{◌++◌ as ◌^◌}
use heartwood_memory.Prelude.{
  ℕ, suc, Bool, true, false, not, ◌&&◌, ◌||◌, ◌==◌, Option, none, some, List, [], ◌∷◌, ◌++◌, String,
  str_eq, elem, any, filter, map, count_p, if◌then◌else◌, Result, ok, raise, integrity_error,
  key_error, runtime_error, value_error, ◌>>=◌, ◌>>◌, require,
}
use heartwood_memory.Envelope.{
  Meta, Epistemic, ReviewState, proposed, accepted, rejected, superseded, disputed, observed_fact,
  imported_source, user_stated, model_generated, inferred_belief, hypothesis, simulated,
  approved_canonical,
}
use heartwood_memory.Keys.{KeyRow, is_shredded}
use heartwood_memory.Audit.{Codec, Log, append_audit}

-- `prov_edges`
pub record Edge : Type 0 where
  pub child : String
  pub parent : String

pub data ArtifactKind : Type 0 where
  memory embedding : ArtifactKind

-- `deletion_lineage`
pub record LineageRow : Type 0 where
  pub artifact_id : String
  pub artifact_kind : ArtifactKind
  pub subject : String
  pub tenant : String

-- The tables; `vectors` is the table of sqlite-vec, which a file may not have.
pub record Store : Type 0 where
  pub memories : List Meta
  pub edges : List Edge
  pub lineage : List LineageRow
  pub keys : List KeyRow
  pub vectors : Option (List String)
  pub log : Log

abbrev pub emb_id : String → String
emb_id id = "emb:" ^ id

-- `row["subject"] == subject or subject in aliases`
abbrev pub names : String → Meta → Bool
names subject m = str_eq m.subject subject || elem subject m.subject_ids

abbrev pub is_erased_row : String → List String → KeyRow → Bool
is_erased_row tenant subjects k =
    str_eq k.tenant tenant && (is_shredded k.state && elem k.subject subjects)

-- `_refuse_erased_subjects`
unfoldable pub refuse_erased_subjects : List KeyRow → String → List String → Result (Unit {0})
refuse_erased_subjects keys tenant subjects =
    require (not (any (is_erased_row tenant subjects) keys)) key_error

abbrev pub has_row : List Meta → String → Bool
has_row memories id = any (λ m. str_eq m.id id) memories

-- `_refuse_missing_parents`
unfoldable pub refuse_missing_parents : List Meta → List String → Result (Unit {0})
refuse_missing_parents memories [] = ok tt
refuse_missing_parents memories (p ∷ parents) =
    if has_row memories p then refuse_missing_parents memories parents else raise runtime_error

-- `_insert_memory_row`: `id` is the primary key.
unfoldable pub insert_memory_row : List Meta → Meta → Result (List Meta)
insert_memory_row memories m =
    if has_row memories m.id then raise integrity_error else ok (memories ++ m ∷ [])

abbrev pub state_code : Option ReviewState → ℕ
state_code none = 0
state_code (some proposed) = 1
state_code (some accepted) = 2
state_code (some rejected) = 3
state_code (some superseded) = 4
state_code (some disputed) = 5

abbrev pub epistemic_code : Epistemic → ℕ
epistemic_code observed_fact = 0
epistemic_code imported_source = 1
epistemic_code user_stated = 2
epistemic_code model_generated = 3
epistemic_code inferred_belief = 4
epistemic_code hypothesis = 5
epistemic_code simulated = 6
epistemic_code approved_canonical = 7

-- A row to retire, with the values its retirement was checked against.
pub record Target : Type 0 where
  pub id : String
  pub review_state : Option ReviewState
  pub epistemic : Epistemic
  pub created_by : String
  pub content_hash : String

-- The condition of the UPDATE in `_supersede_rows`.
unfoldable pub still_matches : String → Target → Meta → Bool
still_matches tenant t m =
    str_eq m.id t.id
    && (str_eq m.tenant tenant
        && ((state_code m.review_state == state_code t.review_state)
            && ((epistemic_code m.epistemic == epistemic_code t.epistemic)
                && (str_eq m.created_by t.created_by && str_eq m.content_hash t.content_hash))))

abbrev pub set_superseded : Meta → Meta
set_superseded m = record m { review_state = some superseded }

-- `UPDATE … SET … WHERE p`
abbrev pub update_where : (Meta → Bool) → (Meta → Meta) → List Meta → List Meta
update_where p f [] = []
update_where p f (m ∷ rows) = (if p m then f m else m) ∷ update_where p f rows

-- `_supersede_rows`: `none` when a row did not match, upon which the caller rolls back.
unfoldable pub supersede_rows : String → List Target → List Meta → Option (List Meta)
unfolding still_matches
supersede_rows tenant [] memories = some memories
supersede_rows tenant (t ∷ targets) memories =
    if count_p (still_matches tenant t) memories == 1
    then supersede_rows tenant targets
        (update_where (still_matches tenant t) set_superseded memories)
    else none

abbrev pub same_edge : Edge → Edge → Bool
same_edge a b = str_eq a.child b.child && str_eq a.parent b.parent

-- `INSERT OR IGNORE INTO prov_edges`
unfoldable pub add_edge : List Edge → Edge → List Edge
add_edge edges e = if any (same_edge e) edges then edges else edges ++ e ∷ []

unfoldable pub add_edges : String → List String → List Edge → List Edge
unfolding add_edge
add_edges child [] edges = edges
add_edges child (p ∷ parents) edges =
    add_edges child parents (add_edge edges (record { child = child; parent = p }))

-- `INSERT OR REPLACE INTO deletion_lineage`
unfoldable pub register_lineage : List LineageRow → LineageRow → List LineageRow
register_lineage rows l = filter (λ x. not (str_eq x.artifact_id l.artifact_id)) rows ++ l ∷ []

unfoldable pub register_memory : Meta → List LineageRow → List LineageRow
unfolding register_lineage
register_memory m rows =
    register_lineage
      (register_lineage rows (record {
        artifact_id = m.id;
        artifact_kind = memory;
        subject = m.subject;
        tenant = m.tenant;
      }))
      (record {
        artifact_id = emb_id m.id;
        artifact_kind = embedding;
        subject = m.subject;
        tenant = m.tenant;
      })

-- The arguments of `insert_memory_superseding`; `ts` is the time of its audit row.
pub record Insertion : Type 0 where
  pub meta : Meta
  pub superseded : List Target
  pub derived_from : List String
  pub principal : String
  pub audit_body : List ℕ
  pub live_parents : List String
  pub ts : ℕ

-- The checks and the statements on memory rows, in the order of the transaction.
unfoldable pub insert_rows : Store → Insertion → Result (Option (List Meta))
unfolding refuse_erased_subjects refuse_missing_parents insert_memory_row supersede_rows
insert_rows s i = do
  refuse_erased_subjects s.keys i.meta.tenant (i.meta.subject ∷ i.meta.subject_ids)
  refuse_missing_parents s.memories i.live_parents
  memories ← insert_memory_row s.memories i.meta
  ok (supersede_rows i.meta.tenant i.superseded memories)

abbrev pub inserted : Codec → Store → Insertion → Option (List Meta) → Bool × Store
inserted c s i none = (false, s)
inserted c s i (some memories) = (
  true,
  record {
    memories = memories;
    edges = add_edges i.meta.id i.derived_from s.edges;
    lineage = register_memory i.meta s.lineage;
    keys = s.keys;
    vectors = s.vectors;
    log = append_audit c s.log i.meta.tenant i.principal "remember" i.meta.id i.audit_body i.ts;
  },
)

-- The Boolean is false where the code returns None.
unfoldable pub insert_memory_superseding : Codec → Store → Insertion → Result (Bool × Store)
unfolding insert_rows add_edges register_memory append_audit
insert_memory_superseding c s i = do rows ← insert_rows s i; ok (inserted c s i rows)

-- The audit rows of `supersede_audited`; `zip(…, strict=True)` raises where the lengths differ.
unfoldable pub audit_supersedes :
    Codec → String → String → ℕ → List Target → List (List ℕ) → Log → Result Log
audit_supersedes c tenant principal ts [] [] log = ok log
audit_supersedes c tenant principal ts (t ∷ targets) (b ∷ bodies) log =
    audit_supersedes c tenant principal ts targets bodies
      (append_audit c log tenant principal "supersede" t.id b ts)
audit_supersedes c tenant principal ts _ _ log = raise value_error

abbrev pub superseded_store :
    Codec
    → Store
    → String
    → String
    → ℕ
    → List Target
    → List (List ℕ)
    → Option (List Meta)
    → Result (Bool × Store)
superseded_store c s tenant principal ts targets bodies none = ok (false, s)
superseded_store c s tenant principal ts targets bodies (some memories) = do
  log ← audit_supersedes c tenant principal ts targets bodies s.log
  ok (true, record s { memories = memories; log = log })

unfoldable pub supersede_audited :
    Codec → Store → String → List Target → String → List (List ℕ) → ℕ → Result (Bool × Store)
unfolding supersede_rows audit_supersedes
supersede_audited c s tenant targets principal bodies ts =
    superseded_store c s tenant principal ts targets bodies
      (supersede_rows tenant targets s.memories)
