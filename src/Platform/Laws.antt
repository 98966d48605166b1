-- ===== src/Platform/Laws.antt =====
-- What the theorems assume of the libraries, one record for each concern.
use icechest.Base.{ℕ, ◌+◌, String, ◌≡◌, Bool, Option, none, some, List}
use icechest.Formats.{Attributes, CommitMetadata}
use icechest.Base.Dict.{Dict}
use icechest.Base.Exec.{ok, err}
use icechest.Errors.{Error, Predicate}
use icechest.Platform.{Platform}

module _ (P : Platform) where
  open P use {World, FileIO, Metadata, write_metadata, read_metadata}

  -- Object storage: a metadata file that was written reads back.
  pub record ReadsBack : Type 0 where
    pub read_written :
        (io : FileIO) (metadata : Metadata) (location : String) (w w' : World)
        → write_metadata io metadata location w ≡ (ok tt, w')
        → read_metadata io location w' ≡ ok metadata

module _ (P : Platform) where
  open P use {World, Session, session_commit, lookup_snapshot}

  -- Icechunk: the snapshot that a commit returns holds the commit metadata that it was given.
  pub record Records : Type 0 where
    pub committed :
        (message : String) (metadata : CommitMetadata) (allow_empty : Bool)
        (session session' : Session) (id : String) (w w' : World)
        → session_commit message metadata allow_empty session w ≡ (ok id, session', w')
        → lookup_snapshot id w' ≡ ok (some metadata)

module _ (P : Platform) (Holds : P.World → Type 0) where
  open P use {
    World, FileIO, Schema, PartitionSpec, SortOrder, Rows, Metadata, Expression, Session,
    new_table_metadata, uuid4, write_metadata, append_changes, delete_changes, overwrite_changes,
  }

  -- What no call of the table layer upsets: writing data files, metadata files and the like.
  pub record IsQuiet : Type 0 where
    pub at_new_table_metadata :
        (schema : Schema) (spec : PartitionSpec) (order : SortOrder) (location : String)
        (properties : Dict String) (w : World)
        → Holds w
        → Holds (new_table_metadata schema spec order location properties w).1
    pub at_uuid4 : (w : World) → Holds w → Holds (uuid4 w).1
    pub at_write_metadata :
        (io : FileIO) (metadata : Metadata) (location : String) (w : World)
        → Holds w
        → Holds (write_metadata io metadata location w).1
    pub at_append :
        (io : FileIO) (metadata : Metadata) (rows : Rows) (w : World)
        → Holds w
        → Holds (append_changes io metadata rows w).1
    pub at_delete :
        (io : FileIO) (metadata : Metadata) (predicate : Predicate Expression) (w : World)
        → Holds w
        → Holds (delete_changes io metadata predicate w).1
    pub at_overwrite :
        (io : FileIO) (metadata : Metadata) (rows : Rows) (predicate : Predicate Expression)
        (w : World)
        → Holds w
        → Holds (overwrite_changes io metadata rows predicate w).1

module _ (P : Platform) where
  open P use {
    World, Session, Expression, session_commit, session_rebase, session_snapshot_id, session_branch,
    lookup_snapshot, lookup_branch,
  }

  -- Icechunk's history, where `parent` is the snapshot that a snapshot was committed onto. A commit
  -- stores its metadata under the id that it returns, on top of its session's snapshot; a commit
  -- that raises leaves the session where it was; a snapshot, once there, never changes.
  pub record IsHistory (parent : String → World → Option String) : Type 0 where
    pub committed :
        (message : String) (metadata : CommitMetadata) (allow_empty : Bool)
        (session session' : Session) (id : String) (w w' : World)
        → session_commit message metadata allow_empty session w ≡ (ok id, session', w')
        → (lookup_snapshot id w' ≡ ok (some metadata))
          × (parent id w' ≡ some (session_snapshot_id session))
    pub refused :
        (message : String) (metadata : CommitMetadata) (allow_empty : Bool) (session : Session)
        (w : World) (e : Error Expression)
        → (session_commit message metadata allow_empty session w).0 ≡ err e
        → (session_snapshot_id (session_commit message metadata allow_empty session w).1
            ≡ session_snapshot_id session)
          × (session_branch (session_commit message metadata allow_empty session w).1
              ≡ session_branch session)
    pub rebase_branch :
        (session : Session) (w : World)
        → session_branch (session_rebase session w).1 ≡ session_branch session
    pub quiet :
        (id : String) (metadata : Option CommitMetadata)
        → IsQuiet P (λ w. lookup_snapshot id w ≡ ok metadata)
    pub kept_by_commit :
        (message : String) (metadata : CommitMetadata) (allow_empty : Bool) (session : Session)
        (w : World) (id : String) (held : Option CommitMetadata)
        → lookup_snapshot id w ≡ ok held
        → lookup_snapshot id (session_commit message metadata allow_empty session w).2 ≡ ok held
    pub kept_by_rebase :
        (session : Session) (w : World) (id : String) (held : Option CommitMetadata)
        → lookup_snapshot id w ≡ ok held
        → lookup_snapshot id (session_rebase session w).2 ≡ ok held

  -- No other writer lands on the branch while a session is rebased: the rebase takes the session
  -- to the tip that a reader saw before.
  pub record IsUndisturbed (branch : String) : Type 0 where
    pub rebased :
        (session : Session) (w : World) (tip : String)
        → session_branch session ≡ branch
        → lookup_branch branch w ≡ ok tip
        → (session_rebase session w).0 ≡ ok tt
        → session_snapshot_id (session_rebase session w).1 ≡ tip

module _ (P : Platform) where
  open P use {
    World, FileIO, Metadata, Rows, Requirement, TableUpdate, Session, read_metadata, append_changes,
    update_table_metadata, session_commit, session_rebase,
  }

  -- Object storage: a metadata file, once there, stays as it is. PyIceberg writes one without
  -- `overwrite`, which refuses a location that has a file already.
  pub record KeepsFiles : Type 0 where
    pub quiet :
        (io : FileIO) (location : String) (metadata : Metadata)
        → IsQuiet P (λ w. read_metadata io location w ≡ ok metadata)
    pub kept_by_commit :
        (io : FileIO) (location : String) (metadata : Metadata) (message : String)
        (commit : CommitMetadata) (allow_empty : Bool) (session : Session) (w : World)
        → read_metadata io location w ≡ ok metadata
        → read_metadata io location (session_commit message commit allow_empty session w).2
          ≡ ok metadata
    pub kept_by_rebase :
        (io : FileIO) (location : String) (metadata : Metadata) (session : Session) (w : World)
        → read_metadata io location w ≡ ok metadata
        → read_metadata io location (session_rebase session w).2 ≡ ok metadata

  -- PyIceberg's append: the version that its updates make counts what the old one did and what
  -- the rows do; where it has nothing to commit, the rows count nothing. A count is, for instance,
  -- how often a row occurs.
  pub record IsCount (count : Metadata → ℕ) (given : Rows → ℕ) : Type 0 where
    pub appended :
        (io : FileIO) (before after : Metadata) (rows : Rows) (w w' : World)
        (requirements : List Requirement) (updates : List TableUpdate) (location : Option String)
        → append_changes io before rows w ≡ (ok (some (requirements, updates)), w')
        → update_table_metadata before updates location ≡ ok after
        → count after ≡ count before + given rows
    pub nothing :
        (io : FileIO) (before : Metadata) (rows : Rows) (w w' : World)
        → append_changes io before rows w ≡ (ok none, w')
        → given rows ≡ 0

module _ (P : Platform) where
  open P use {
    World, Session, Expression, writable_session, session_commit, session_rebase,
    session_snapshot_id, session_branch, lookup_branch,
  }

  -- Icechunk, where no other process writes to the branch during a call: a commit is accepted only
  -- from the tip of the branch, which it moves to what it returns, and nothing else moves the tip.
  pub record IsClosed (branch : String) : Type 0 where
    pub opened :
        {session : Session} (w : World)
        → writable_session branch w ≡ ok session
        → session_branch session ≡ branch
    pub quiet : (tip : String) → IsQuiet P (λ w. lookup_branch branch w ≡ ok tip)
    pub committed :
        (message : String) (metadata : CommitMetadata) (allow_empty : Bool)
        (session session' : Session) (id : String) (w w' : World)
        → session_branch session ≡ branch
        → session_commit message metadata allow_empty session w ≡ (ok id, session', w')
        → (lookup_branch branch w ≡ ok (session_snapshot_id session))
          × (lookup_branch branch w' ≡ ok id)
    pub refused :
        (message : String) (metadata : CommitMetadata) (allow_empty : Bool) (session : Session)
        (w : World) (e : Error Expression) (tip : String)
        → (session_commit message metadata allow_empty session w).0 ≡ err e
        → lookup_branch branch w ≡ ok tip
        → lookup_branch branch (session_commit message metadata allow_empty session w).2 ≡ ok tip
    pub kept_by_rebase :
        (session : Session) (w : World) (tip : String)
        → lookup_branch branch w ≡ ok tip
        → lookup_branch branch (session_rebase session w).2 ≡ ok tip

module _ (P : Platform) where
  open P use {Session, open_group, update_attributes, session_branch, session_snapshot_id}

  -- Zarr: opening the root group of a session and updating its attributes leave the session on its
  -- branch and on its snapshot.
  pub record KeepsPlace : Type 0 where
    pub at_open :
        (session : Session) {opened : Session}
        → open_group session ≡ ok opened
        → (session_branch opened ≡ session_branch session)
          × (session_snapshot_id opened ≡ session_snapshot_id session)
    pub at_update :
        (attributes : Attributes) (session : Session) {written : Session}
        → update_attributes attributes session ≡ ok written
        → (session_branch written ≡ session_branch session)
          × (session_snapshot_id written ≡ session_snapshot_id session)
