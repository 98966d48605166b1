-- ===== src/Tests/MemoryLaws.antt =====
-- The platform in memory meets what the theorems assume.
use icechest.Base.{
  ℕ, suc, ◌+◌, ◌≤◌, String, ◌≡◌, refl, ap, Bool, true, false, Option, some, List, [], ◌∷◌, arith,
  eq_iff, eq_refl,
}
use icechest.Base.Dict
use icechest.Base.Dict.{Dict, get-insert}
use icechest.Base.Exec.{ok, err}
use icechest.Errors.{Error}
use icechest.Formats.{CommitMetadata}
use icechest.Pointer.{commit_metadata}
use icechest.Platform.Laws.{ReadsBack, Records, IsQuiet, IsHistory, IsUndisturbed}
use icechest.Transaction.Atomic.{IsUnpublished}
use icechest.Transaction.Bounds.{CountsCommits}
use icechest.Tests.Memory.{
  memory, snapshot_name, Meta, Disk, Handle, land, rival, commit_on_disk, parent_on_disk,
}

pub memory-ReadsBack : (racy : Bool) → ReadsBack (memory racy)
memory-ReadsBack racy = record {
  read_written = λ io m location d d' h.
      ground (arith, get-insert location location m d.files, eq_refl location);
}

-- Properties of the history and of the counter are none of the table layer's business.
memory-IsQuiet :
    {Holds : Disk → Type 0} (racy : Bool)
    → ((d : Disk) (files : Dict Meta) (tokens : ℕ)
        → Holds d
        → Holds (record d { files = files; tokens = tokens }))
    → IsQuiet (memory racy) Holds
memory-IsQuiet racy kept = record {
  at_new_table_metadata = λ schema spec order location properties d h. h;
  at_uuid4 = λ d h. kept d d.files (suc d.tokens) h;
  at_write_metadata = λ io m location d h. kept d (Dict.insert location m d.files) d.tokens h;
  at_append = λ io m rows d h. h;
  at_delete = λ io m predicate d h. h;
  at_overwrite = λ io m rows predicate d h. h;
}

-- The snapshot `id` holds `metadata`.
abbrev pub Held : String → Option CommitMetadata → Disk → Type 0
Held id metadata d = (memory true).lookup_snapshot id d ≡ ok metadata

land-Held :
    (metadata : CommitMetadata) (id : String) (held : Option CommitMetadata) (d : Disk)
    → Held id held d
    → Held id held (land metadata d)
unfolding land
land-Held metadata id held d h = ground (
  arith,
  eq_iff (snapshot_name d) id,
  get-insert id (snapshot_name d) (metadata, d.tip) d.snapshots,
)

rival-Held :
    (id : String) (held : Option CommitMetadata) (d : Disk)
    → Held id held d
    → Held id held (rival d)
unfolding rival
rival-Held id held d h = go d.pending
  where
    go :
        (pending : List (Dict String))
        → Held id held (elim pending [
          | [] ↦ d
          | pointers ∷ rest ↦ land (commit_metadata pointers) (record d { pending = rest })
        ])
    go [] = h
    go (pointers ∷ rest) =
        land-Held (commit_metadata pointers) id held (record d { pending = rest }) h

commit-Held :
    (metadata : CommitMetadata) (allow_empty : Bool) (session : Handle) (d : Disk) (id : String)
    (held : Option CommitMetadata)
    → Held id held d
    → Held id held (commit_on_disk metadata allow_empty session d).2
unfolding commit_on_disk
commit-Held metadata allow_empty session d id held h =
    let d' = rival (record d { commits = suc d.commits }) in
    let h' = rival-Held id held (record d { commits = suc d.commits }) h in
    ground (
      arith,
      h',
      eq_iff (snapshot_name d') id,
      get-insert id (snapshot_name d') (metadata, session.at) d'.snapshots,
    )

committed_on_disk :
    (metadata : CommitMetadata) (allow_empty : Bool) (session session' : Handle) (id : String)
    (d d' : Disk)
    → commit_on_disk metadata allow_empty session d ≡ (ok id, session', d')
    → Held id (some metadata) d' × (parent_on_disk id d' ≡ some session.at)
unfolding commit_on_disk
committed_on_disk metadata allow_empty session session' id d d' h =
    let before = rival (record d { commits = suc d.commits }) in
    ground (
      arith,
      eq_refl id,
      get-insert id (snapshot_name before) (metadata, session.at) before.snapshots,
    )

refused_on_disk :
    (metadata : CommitMetadata) (allow_empty : Bool) (session : Handle) (d : Disk) (e : Error ℕ)
    → (commit_on_disk metadata allow_empty session d).0 ≡ err e
    → (commit_on_disk metadata allow_empty session d).1 ≡ session
unfolding commit_on_disk
refused_on_disk metadata allow_empty session d e h = ground arith

pub memory-Records : (racy : Bool) → Records (memory racy)
memory-Records racy = record {
  committed = λ message metadata allow_empty session session' id d d' h.
      (committed_on_disk metadata allow_empty session session' id d d' h).0;
}

pub memory-IsHistory : IsHistory (memory false) parent_on_disk
memory-IsHistory = record {
  committed = λ message. committed_on_disk;
  refused = λ message metadata allow_empty session d e h.
      let same = refused_on_disk metadata allow_empty session d e h in
      (ap (λ (s : Handle). s.at) same, ap (λ (s : Handle). s.branch) same);
  rebase_branch = λ session d. refl;
  quiet = λ id held. memory-IsQuiet false (λ d files tokens h. h);
  kept_by_commit = λ message. commit-Held;
  kept_by_rebase = λ session d id held h. h;
}

pub memory-IsUndisturbed : (branch : String) → IsUndisturbed (memory false) branch
memory-IsUndisturbed branch = record { rebased = λ session d tip on found done. ground arith }

rival_commits : (d : Disk) → (rival d).commits ≡ d.commits
unfolding rival land
rival_commits d = ground arith

commit_on_disk_count :
    (metadata : CommitMetadata) (allow_empty : Bool) (session : Handle) (d : Disk)
    → (commit_on_disk metadata allow_empty session d).2.commits ≤ d.commits + 1
unfolding commit_on_disk
commit_on_disk_count metadata allow_empty session d =
    ground (arith, rival_commits (record d { commits = suc d.commits }))

rebase_count :
    (racy : Bool) (session : Handle) (d : Disk)
    → ((memory racy).session_rebase session d).2.commits ≤ d.commits
rebase_count true session d = omega (arith, rival_commits d)
rebase_count false session d = omega arith

pub memory-CountsCommits : (racy : Bool) → CountsCommits (memory racy) (λ (d : Disk). d.commits)
memory-CountsCommits racy = record {
  quiet = λ k. memory-IsQuiet racy (λ d files tokens h. h);
  at_rebase = rebase_count racy;
  at_commit = λ message. commit_on_disk_count;
}

-- No other writer is pending, and the snapshots are these.
abbrev pub HasSnapshots : Dict (CommitMetadata × String) → Disk → Type 0
HasSnapshots snapshots d = (d.pending ≡ []) × (d.snapshots ≡ snapshots)

pub memory-IsUnpublished :
    (snapshots : Dict (CommitMetadata × String))
    → IsUnpublished (memory false) (HasSnapshots snapshots)
unfolding commit_on_disk rival
memory-IsUnpublished snapshots = record {
  quiet = memory-IsQuiet false (λ d files tokens h. h);
  at_rebase = λ session d h. h;
  at_refusal = λ message metadata allow_empty session d e refused h. ground arith;
}
