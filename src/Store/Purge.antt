-- ===== src/Store/Purge.antt =====
-- heartwood/store.py: what an erasure deletes. The worklist of `descendants`, `purge_subject` and
-- `delete_memory`.
pub mod Closure
pub mod Descendants
pub mod Deletes
pub mod Erases
use heartwood_memory.Prelude.{
  ℕ, zero, suc, ◌+◌, Bool, true, false, not, ◌&&◌, ◌||◌, Option, none, some, List, [], ◌∷◌, ◌++◌,
  String, str_eq, elem, any, filter, map, length, if◌then◌else◌, Result, ok, raise, runtime_error,
  value_error, ◌>>=◌, ◌>>◌, require, sorted_set, compare_text,
}
use heartwood_memory.Envelope.{Meta}
use heartwood_memory.Store.{
  Edge, Store, ArtifactKind, LineageRow, memory, embedding, emb_id, names, has_row,
}

abbrev pub Walk : Type 0
Walk = List String × List String × List String

-- The loop over the edges of one node: the lists are `seen`, `frontier` (its last element first) and
-- `out`.
unfoldable pub push_children : String → List Edge → Walk → Walk
push_children node [] w = w
push_children node (e ∷ edges) (seen, frontier, out) =
    if str_eq e.parent node && not (elem e.child seen)
    then push_children node edges (e.child ∷ seen, e.child ∷ frontier, e.child ∷ out)
    else push_children node edges (seen, frontier, out)

-- `while frontier`, on fuel.
unfoldable pub walk : ℕ → List Edge → Walk → Walk
unfolding push_children
walk zero edges w = w
walk (suc n) edges (seen, [], out) = (seen, [], out)
walk (suc n) edges (seen, node ∷ frontier, out) =
    walk n edges (push_children node edges (seen, frontier, out))

-- A node is pushed as a seed, or once as the child of an edge.
unfoldable pub descendants : List Edge → List String → List String
unfolding walk
descendants edges seeds = (walk (length seeds + length edges) edges (seeds, seeds, [])).2

abbrev pub is_named : String → String → Meta → Bool
is_named tenant subject m = str_eq m.tenant tenant && names subject m

-- A row of the tenant whose column of aliases is no JSON array of strings.
abbrev pub is_malformed : String → Meta → Bool
is_malformed tenant m = str_eq m.tenant tenant && not m.has_readable_aliases

-- The loop of `subject_ids` raises at a malformed row of the tenant, whatever it has selected.
unfoldable pub check_aliases : List Meta → String → Result (Unit {0})
check_aliases memories tenant = require (not (any (is_malformed tenant) memories)) value_error

-- What the loop of `subject_ids` selects when no row stops it.
unfoldable pub subject_ids : List Meta → String → String → List String
subject_ids memories tenant subject = map (λ m. m.id) (filter (is_named tenant subject) memories)

abbrev pub is_memory_kind : ArtifactKind → Bool
is_memory_kind memory = true
is_memory_kind embedding = false

abbrev pub is_memory_of : String → String → LineageRow → Bool
is_memory_of tenant subject l =
    str_eq l.tenant tenant && (str_eq l.subject subject && is_memory_kind l.artifact_kind)

unfoldable pub lineage_memory_ids : List LineageRow → String → String → List String
lineage_memory_ids rows tenant subject =
    map (λ l. l.artifact_id) (filter (is_memory_of tenant subject) rows)

-- `_delete_memory_rows`
unfoldable pub delete_memory_rows : String → Store → Store
delete_memory_rows id s = record s {
  memories = filter (λ m. not (str_eq m.id id)) s.memories;
  edges = filter (λ e. not (str_eq e.child id || str_eq e.parent id)) s.edges;
  lineage =
      filter (λ l. not (str_eq l.artifact_id id || str_eq l.artifact_id (emb_id id))) s.lineage;
}

unfoldable pub delete_all_rows : List String → Store → Store
unfolding delete_memory_rows
delete_all_rows [] s = s
delete_all_rows (id ∷ ids) s = delete_all_rows ids (delete_memory_rows id s)

-- `_delete_vectors`; `can_load` says whether this process can load sqlite-vec.
unfoldable pub delete_vectors :
    Bool → List String → Option (List String) → Result (Option (List String))
delete_vectors can_load [] vectors = ok vectors
delete_vectors can_load (id ∷ ids) none = ok none
delete_vectors can_load (id ∷ ids) (some vs) =
    if can_load then ok (some (filter (λ v. not (elem v (id ∷ ids))) vs)) else raise runtime_error

-- The ids that `purge_subject` starts from, sorted where the code has a set.
unfoldable pub selected : Store → String → String → List String → List String
unfolding subject_ids lineage_memory_ids
selected s tenant subject seed =
    sorted_set compare_text (
      seed
      ++ (subject_ids s.memories tenant subject ++ lineage_memory_ids s.lineage tenant subject))

unfoldable pub purged_ids : Store → String → String → List String → List String
unfolding selected descendants
purged_ids s tenant subject seed =
    let ids = selected s tenant subject seed in
    sorted_set compare_text (ids ++ descendants s.edges ids)

abbrev pub is_lineage_of : String → String → LineageRow → Bool
is_lineage_of tenant subject l = str_eq l.tenant tenant && str_eq l.subject subject

-- `purge_subject`: the ids it deleted, those of them reached only through edges, and the store.
unfoldable pub purge_subject :
    Bool → Store → String → String → List String → Result ((List String × List String) × Store)
unfolding check_aliases purged_ids selected descendants delete_vectors delete_all_rows
purge_subject can_load s tenant subject seed =
    let ids = purged_ids s tenant subject seed in
    do
      check_aliases s.memories tenant
      vectors ← delete_vectors can_load ids s.vectors
      let t = delete_all_rows ids s
      ok (
        (ids, descendants s.edges (selected s tenant subject seed)),
        record t {
          vectors = vectors;
          lineage = filter (λ l. not (is_lineage_of tenant subject l)) t.lineage;
        },
      )

-- `delete_memory`
unfoldable pub delete_memory : Store → String → Store
unfolding delete_memory_rows
delete_memory s id = delete_memory_rows id s

unfoldable pub drop_orphans : Bool → Store → Option (List String) → Result (List String × Store)
drop_orphans can_load s none = ok ([], s)
drop_orphans can_load s (some vs) =
    if can_load
    then ok (
      filter (λ v. not (has_row s.memories v)) vs,
      record s { vectors = some (filter (has_row s.memories) vs) },
    )
    else raise runtime_error

-- `drop_orphan_vectors`: the ids dropped, and the store.
unfoldable pub drop_orphan_vectors : Bool → Store → Result (List String × Store)
unfolding drop_orphans
drop_orphan_vectors can_load s = drop_orphans can_load s s.vectors
