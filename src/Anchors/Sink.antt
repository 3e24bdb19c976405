-- ===== src/Anchors/Sink.antt =====
-- `LocalFileAnchorSink` of heartwood/anchors.py. A file is the list of its lines; a line that is no
-- canonical record is `none`. The writers of one file take turns by the lock, so each `append` is
-- one step.
pub mod Appended
pub mod Ordered
use heartwood_memory.Prelude.{
  ℕ, Bool, true, false, not, ltb, ◌==◌, Option, none, some, List, [], ◌∷◌, ◌++◌, String, str_eq,
  if◌then◌else◌, Result, ok, raise, ◌>>=◌, ◌>>◌, require, anchor_sink_error, file_not_found_error,
}
use heartwood_memory.Audit.{codes_eq}
use heartwood_memory.Anchors.{
  AnchorRecord, PinRecord, SinkRecord, anchored, pinned, unsupported, anchors_of, pins_of, last?,
}

-- `owner_only` says that the mode grants nothing to group and others, and `complete` that the last
-- line is ended.
pub record SinkFile : Type 0 where
  pub owner_only : Bool
  pub complete : Bool
  pub lines : List (Option SinkRecord)

-- A sink is a file that may not exist yet.
abbrev pub Sink : Type 0
Sink = Option SinkFile

-- `os.open(..., O_CREAT, 0o600)`
abbrev pub opened : Sink → SinkFile
opened none = record { owner_only = true; complete = true; lines = [] }
opened (some file) = file

-- `_parse_record_lines`
unfoldable pub parse_record_lines : List (Option SinkRecord) → Result (List SinkRecord)
parse_record_lines [] = ok []
parse_record_lines (none ∷ lines) = raise anchor_sink_error
parse_record_lines (some r ∷ lines) = do records ← parse_record_lines lines; ok (r ∷ records)

unfoldable pub read_file : SinkFile → Result (List SinkRecord)
unfolding parse_record_lines
read_file file = do
  require file.owner_only anchor_sink_error
  require file.complete anchor_sink_error
  parse_record_lines file.lines

-- `read_records`
unfoldable pub read_records : Sink → Result (List SinkRecord)
unfolding read_file
read_records none = raise file_not_found_error
read_records (some file) = read_file file

-- The comparison of an incoming anchor with the latest one.
unfoldable pub existing_anchor : Option AnchorRecord → AnchorRecord → Result (Option SinkRecord)
existing_anchor none incoming = ok none
existing_anchor (some latest) incoming =
    if ltb incoming.seq latest.seq
    then raise anchor_sink_error
    else if incoming.seq == latest.seq
    then (if codes_eq incoming.row_hash latest.row_hash
        then ok (some (anchored latest))
        else raise anchor_sink_error)
    else ok none

-- The last pin of the manifest; the code goes through the records backwards.
abbrev pub last_pin : String → List PinRecord → Option PinRecord
last_pin id [] = none
last_pin id (p ∷ pins) = elim (last_pin id pins) [
  | some later ↦ some later
  | none ↦ if str_eq p.manifest_id id then some p else none
]

unfoldable pub existing_pin : Option PinRecord → PinRecord → Result (Option SinkRecord)
existing_pin none incoming = ok none
existing_pin (some p) incoming =
    if codes_eq p.manifest_digest incoming.manifest_digest
    then ok (some (pinned p))
    else raise anchor_sink_error

-- `_idempotent_existing_record`
unfoldable pub idempotent_existing_record :
    List SinkRecord → SinkRecord → Result (Option SinkRecord)
unfolding existing_anchor existing_pin
idempotent_existing_record existing (anchored r) = existing_anchor (last? (anchors_of existing)) r
idempotent_existing_record existing (pinned p) =
    existing_pin (last_pin p.manifest_id (pins_of existing)) p
idempotent_existing_record existing unsupported = ok none

-- The record that the file holds after the append: an earlier one, or the incoming one.
unfoldable pub write_or_keep : SinkFile → SinkRecord → Option SinkRecord → SinkRecord × Sink
write_or_keep file r (some duplicate) = (duplicate, some file)
write_or_keep file r none = (r, some (record file { lines = file.lines ++ some r ∷ [] }))

-- `append`: a file that is created stays, also when the append raises.
unfoldable pub append : Sink → SinkRecord → Result (SinkRecord × Sink)
unfolding read_file idempotent_existing_record write_or_keep
append sink r = do
  let file = opened sink
  existing ← read_file file
  duplicate ← idempotent_existing_record existing r
  ok (write_or_keep file r duplicate)
