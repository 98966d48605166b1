-- ===== src/Tests/ClosedLaws.antt =====
-- The platform in memory without other writers meets what the theorems assume.
use icechest.Base.{ℕ, String, ◌≡◌, ap, Bool, Option, some, arith, eq_iff, eq_refl}
use icechest.Base.Dict.{Dict, get-insert}
use icechest.Base.Exec.{ok, err}
use icechest.Errors.{Error}
use icechest.Formats.{CommitMetadata}
use icechest.Platform.Laws.{
  KeepsPlace, IsQuiet, ReadsBack, IsHistory, IsUndisturbed, IsClosed, KeepsFiles, IsCount,
}
use icechest.Tests.MemoryLaws.{Held}
use icechest.Tests.KeepingLaws.{
  keeping-IsQuiet, keeping-IsHistory, keeping-IsUndisturbed, keeping-ReadsBack, keeping-KeepsFiles,
  keeping-IsCount,
}
use icechest.Tests.Memory.{
  closed, try_commit, occurrences, snapshot_name, Meta, Disk, Handle, parent_on_disk,
}

try_commit-Held :
    (metadata : CommitMetadata) (allow_empty : Bool) (session : Handle) (d : Disk) (id : String)
    (held : Option CommitMetadata)
    → Held id held d
    → Held id held (try_commit metadata allow_empty session d).2
unfolding try_commit
try_commit-Held metadata allow_empty session d id held h = ground (
  arith,
  eq_iff (snapshot_name d) id,
  get-insert id (snapshot_name d) (metadata, session.at) d.snapshots,
)

tried :
    (metadata : CommitMetadata) (allow_empty : Bool) (session session' : Handle) (id : String)
    (d d' : Disk)
    → try_commit metadata allow_empty session d ≡ (ok id, session', d')
    → Held id (some metadata) d' × (parent_on_disk id d' ≡ some session.at)
unfolding try_commit
tried metadata allow_empty session session' id d d' h =
    ground (arith, eq_refl id, get-insert id (snapshot_name d) (metadata, session.at) d.snapshots)

refused :
    (metadata : CommitMetadata) (allow_empty : Bool) (session : Handle) (d : Disk) (e : Error ℕ)
    → (try_commit metadata allow_empty session d).0 ≡ err e
    → ((try_commit metadata allow_empty session d).1 ≡ session)
      × ((try_commit metadata allow_empty session d).2 ≡ d)
unfolding try_commit
refused metadata allow_empty session d e h = ground arith

moved :
    (metadata : CommitMetadata) (allow_empty : Bool) (session session' : Handle) (id : String)
    (d d' : Disk)
    → try_commit metadata allow_empty session d ≡ (ok id, session', d')
    → (d.tip ≡ session.at) × (d'.tip ≡ id)
unfolding try_commit
moved metadata allow_empty session session' id d d' h = ground (arith, eq_iff session.at d.tip)

closed-IsQuiet :
    {Holds : Disk → Type 0}
    → ((d : Disk) (files : Dict Meta) (tokens : ℕ)
        → Holds d
        → Holds (record d { files = files; tokens = tokens }))
    → IsQuiet closed Holds
closed-IsQuiet kept =
    let quiet = keeping-IsQuiet kept in
    record {
      at_new_table_metadata = quiet.at_new_table_metadata;
      at_uuid4 = quiet.at_uuid4;
      at_write_metadata = quiet.at_write_metadata;
      at_append = quiet.at_append;
      at_delete = quiet.at_delete;
      at_overwrite = quiet.at_overwrite;
    }

pub closed-IsHistory : IsHistory closed parent_on_disk
closed-IsHistory = record {
  committed = λ message. tried;
  refused = λ message metadata allow_empty session d e h.
      let same = (refused metadata allow_empty session d e h).0 in
      (ap (λ (s : Handle). s.at) same, ap (λ (s : Handle). s.branch) same);
  rebase_branch = keeping-IsHistory.rebase_branch;
  quiet = λ id held. closed-IsQuiet (λ d files tokens h. h);
  kept_by_commit = λ message. try_commit-Held;
  kept_by_rebase = keeping-IsHistory.kept_by_rebase;
}

pub closed-IsUndisturbed : (branch : String) → IsUndisturbed closed branch
closed-IsUndisturbed branch = record { rebased = (keeping-IsUndisturbed branch).rebased }

pub closed-ReadsBack : ReadsBack closed
closed-ReadsBack = record { read_written = keeping-ReadsBack.read_written }

pub closed-IsCount : (n : ℕ) → IsCount closed (λ (m : Meta). occurrences n m.rows) (occurrences n)
closed-IsCount n = record {
  appended = (keeping-IsCount n).appended;
  nothing = (keeping-IsCount n).nothing;
}

try_commit_files :
    (metadata : CommitMetadata) (allow_empty : Bool) (session : Handle) (d : Disk)
    → (try_commit metadata allow_empty session d).2.files ≡ d.files
unfolding try_commit
try_commit_files metadata allow_empty session d = ground arith

pub closed-KeepsFiles : KeepsFiles closed
closed-KeepsFiles = record {
  quiet = λ io location m.
      let quiet = keeping-KeepsFiles.quiet io location m in
      record {
        at_new_table_metadata = quiet.at_new_table_metadata;
        at_uuid4 = quiet.at_uuid4;
        at_write_metadata = quiet.at_write_metadata;
        at_append = quiet.at_append;
        at_delete = quiet.at_delete;
        at_overwrite = quiet.at_overwrite;
      };
  kept_by_commit = λ io location m message metadata allow_empty session d h.
      ground (arith, try_commit_files metadata allow_empty session d);
  kept_by_rebase = keeping-KeepsFiles.kept_by_rebase;
}

pub closed-IsClosed : (branch : String) → IsClosed closed branch
closed-IsClosed branch = record {
  opened = λ d h. ground arith;
  quiet = λ tip. closed-IsQuiet (λ d files tokens h. h);
  committed = λ message metadata allow_empty session session' id d d' on h.
      let (at, now) = moved metadata allow_empty session session' id d d' h in
      (ap ok at, ap ok now);
  refused = λ message metadata allow_empty session d e tip failed h.
      ground (arith, refused metadata allow_empty session d e failed);
  kept_by_rebase = λ session d tip h. h;
}

pub closed-KeepsPlace : KeepsPlace closed
closed-KeepsPlace = record {
  at_open = λ session h. ground arith;
  at_update = λ attributes session h. ground arith;
}
