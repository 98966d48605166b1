-- ===== src/Platform.antt =====
-- What the package takes from PyIceberg, Icechunk, Zarr and the standard library. `World` is all
-- that lies outside the process: object storage, the Icechunk repository with its branches and
-- snapshots, the source of UUIDs. A call that gives back a new `World` may have let other writers
-- act meanwhile; a call that only reads one answers at a single moment.
pub mod Laws
use icechest.Base.{ℕ, String, List, Option, Bool}
use icechest.Base.Dict.{Dict}
use icechest.Base.Exec.{Result}
use icechest.Formats.{Attributes, CommitMetadata}
use icechest.Errors.{Error, Predicate}

pub record Platform : Type 1 where
  pub World : Type 0
  -- PyIceberg: `FileIO`, schemas as given and as converted, specs, rows, table metadata, the
  -- requirements and updates that `commit_table` is handed, snapshots and row filters.
  pub FileIO : Type 0
  pub RawSchema : Type 0
  pub Schema : Type 0
  pub PartitionSpec : Type 0
  pub SortOrder : Type 0
  pub Rows : Type 0
  pub Metadata : Type 0
  pub Requirement : Type 0
  pub TableUpdate : Type 0
  pub Snapshot : Type 0
  pub Expression : Type 0
  pub load_file_io : Dict String → FileIO
  -- `Catalog.table_name_from`
  pub table_name_from : String → String
  pub convert_schema : RawSchema → Result (Error Expression) Schema
  pub new_table_metadata :
      Schema → PartitionSpec → SortOrder → String → Dict String → World → Metadata × World
  -- `str(uuid.uuid4())`
  pub uuid4 : World → String × World
  pub write_metadata :
      FileIO → Metadata → String → World → Result (Error Expression) (Unit {0}) × World
  pub read_metadata : FileIO → String → World → Result (Error Expression) Metadata
  pub validate_requirement : Requirement → Metadata → Result (Error Expression) (Unit {0})
  -- `update_table_metadata(base, updates, metadata_location=...)`
  pub update_table_metadata :
      Metadata → List TableUpdate → Option String → Result (Error Expression) Metadata
  -- `len(metadata.metadata_log)`
  pub metadata_log_length : Metadata → ℕ
  pub current_snapshot_id : Metadata → Option ℕ
  pub snapshot_by_id : Metadata → ℕ → Option Snapshot
  -- `Table.append`, `Table.delete` and `Table.overwrite` write data files, and call
  -- `commit_table` at most once, with requirements and updates.
  pub append_changes :
      FileIO
      → Metadata
      → Rows
      → World
      → Result (Error Expression) (Option (List Requirement × List TableUpdate)) × World
  pub delete_changes :
      FileIO
      → Metadata
      → Predicate Expression
      → World
      → Result (Error Expression) (Option (List Requirement × List TableUpdate)) × World
  pub overwrite_changes :
      FileIO
      → Metadata
      → Rows
      → Predicate Expression
      → World
      → Result (Error Expression) (Option (List Requirement × List TableUpdate)) × World
  -- `pyiceberg.expressions.parser.parse`
  pub parse : String → Result (Error Expression) Expression
  -- The `snapshot_id` of each entry of `_added_data_files`, called with the newest snapshot as
  -- `starting_snapshot` and the oldest as `parent_snapshot`.
  pub added_data_files :
      FileIO
      → Metadata
      → Snapshot
      → Expression
      → Snapshot
      → World
      → Result (Error Expression) (List (Option ℕ))
  -- Icechunk: a session on a branch or on a snapshot, and the repository behind it.
  pub Session : Type 0
  pub writable_session : String → World → Result (Error Expression) Session
  pub readonly_session : String → World → Result (Error Expression) Session
  pub session_branch : Session → String
  pub session_snapshot_id : Session → String
  pub has_uncommitted_changes : Session → Bool
  pub discard_changes : Session → Session
  -- `session.commit(message, metadata=..., allow_empty=...)`
  pub session_commit :
      String
      → CommitMetadata
      → Bool
      → Session
      → World
      → Result (Error Expression) String × Session × World
  -- `session.rebase(BasicConflictSolver())`
  pub session_rebase : Session → World → Result (Error Expression) (Unit {0}) × Session × World
  pub lookup_snapshot : String → World → Result (Error Expression) (Option CommitMetadata)
  pub lookup_branch : String → World → Result (Error Expression) String
  pub lookup_tag : String → World → Result (Error Expression) String
  -- Zarr: the root group of a session's store, its attributes, and an update of them.
  pub open_group : Session → Result (Error Expression) Session
  pub group_attributes : Session → Result (Error Expression) Attributes
  pub update_attributes : Attributes → Session → Result (Error Expression) Session
