-- ===== src/Tests/TransactionTests.antt =====
-- Transactions on the platform in memory, with other writers that land in between.
use icechest.Base.{
  ◌⊎◌, ℕ, ◌+◌, ◌≤◌, String, ◌≡◌, ◌≢◌, refl, Bool, true, false, none, some, [], ◌∷◌, rstrip_slash,
  sort_texts,
}
use icechest.Base.Dict
use icechest.Base.Dict.{Dict}
use icechest.Base.Exec.{Result, ok, err}
use icechest.Catalog.{
  location_text, base_metadata, validate_requirements, commit_table, write_and_stage, load_table,
  current_pointers, new_catalog, rebase_onto,
}
use icechest.Errors.{Error, expression, made_no_changes, unreplayable_change}
use icechest.Intent.{
  append_rows, apply, load_and_change, change_loaded, change_table, finish_change, validate,
}
use icechest.Pointer.{commit_metadata, read_pointers, read_pointers_at_branch}
use icechest.Transaction.{
  Transaction, catalog_for, on_catalog, append, delete, capture_base_snapshot, commit,
  commit_rounds, round, conclude, prepare, publish, recover, rebase_session, note_unmanaged,
  apply_all, allows_empty, assert_staged_is_covered, orphaned, uncovered, validate_replayable,
  validate_all, base_of,
}
use icechest.Tests.CatalogTests.{seeded}
use icechest.Transaction.Atomic.{commit-publishes, commit-unpublished}
use icechest.Transaction.Bounds.{commit_attempts}
use icechest.Transaction.Coverage.{commit-never_drops}
use icechest.Transaction.Replay.{replay-loses_update}
use icechest.Transaction.Window.{delete-pins_window, appending, after_all, perform}
use icechest.Transaction.InStep.{IsInStep, ExtendsParent, commit-ExtendsParent}
use icechest.Transaction.Serial.Published.{IsSerial, commit-IsSerial}
use icechest.Tests.MemoryLaws.{
  memory-Records, memory-IsHistory, memory-IsUndisturbed, memory-CountsCommits,
  memory-IsUnpublished, HasSnapshots,
}
use icechest.Tests.Memory.{memory, Meta, Disk, rival, land, commit_on_disk}

-- Another writer is about to move the table `h`.
abbrev pub contested : Disk
contested = record seeded {
  pending = (("g", "w/g/metadata/0.json") ∷ ("h", "elsewhere") ∷ []) ∷ [];
}

abbrev pub start : (racy : Bool) → Transaction (memory racy)
start racy = record {
  repo = record { warehouse = "w"; io_properties = [] };
  branch = "main";
  message = "ingest";
  max_retries = 3;
  intents = append_rows "g" (3 ∷ []) ∷ [];
  base_snapshots = [];
  unmanaged_staged = [];
  session = record { branch = "main"; at = "root"; dirty = false; attributes = [] };
  catalog = record {
    warehouse = "w";
    pointers = ("g", "w/g/metadata/0.json") ∷ [];
    staged = [];
    properties = [];
    read_only = false;
  };
  snapshot_id = none;
}

-- All that a run goes through.
unfoldable pub machine : Unit {0}
unfolding commit commit_rounds round conclude prepare publish recover rebase_session note_unmanaged
    apply_all allows_empty assert_staged_is_covered orphaned validate_replayable validate_all
    base_of on_catalog apply load_and_change change_loaded change_table finish_change validate
    commit_table write_and_stage location_text current_pointers rebase_onto load_table
    commit_metadata read_pointers_at_branch base_metadata validate_requirements read_pointers
    sort_texts Dict.update Dict.insert Dict.keys commit_on_disk rival land uncovered catalog_for
machine = tt

abbrev pub begun : Transaction (memory false)
begun = record (start false) { intents = [] }

unfoldable pub raced : Result (Error ℕ) String × (Transaction (memory false) × Disk)
unfolding machine
raced = commit (memory false) (start false, contested)

-- The first round conflicts, the second lands on the other writer's commit.
raced_ok : raced.0 ≡ ok "snapshot-2"
unfolding raced
raced_ok = refl

commit-ExtendsParent_example :
    ExtendsParent (memory false) memory-IsHistory "snapshot-2" "h" raced.1.1
unfolding raced IsInStep
commit-ExtendsParent_example =
    commit-ExtendsParent (memory false) memory-IsHistory (start false) contested "snapshot-2" "h"
      (memory-IsUndisturbed "main") refl refl refl refl refl

commit-IsSerial_example :
    IsSerial (memory false) memory-IsHistory (start false) "snapshot-2" raced.1.1
unfolding raced IsInStep catalog_for new_catalog rstrip_slash
commit-IsSerial_example =
    commit-IsSerial (memory false) memory-IsHistory (start false) contested "snapshot-2"
      (memory-IsUndisturbed "main") refl refl refl refl

commit-publishes_example :
    (read_pointers (memory false) "snapshot-2" raced.1.1 ≡ ok (current_pointers raced.1.0.catalog))
    × (raced.1.0.snapshot_id ≡ some "snapshot-2")
unfolding raced
commit-publishes_example =
    commit-publishes (memory false) (memory-Records false) (start false) contested "snapshot-2" refl

commit_attempts_example : raced.1.1.commits ≤ 0 + 3 + 1
unfolding raced
commit_attempts_example =
    commit_attempts (memory false) (memory-CountsCommits false) (start false) contested

-- A transaction without a change, on a repository that nobody else writes to.
abbrev idle : Transaction (memory false)
idle = record (start false) { intents = [] }

failed : Result (Error ℕ) String × (Transaction (memory false) × Disk)
unfolding machine
failed = commit (memory false) (idle, seeded)

commit-unpublished_example : HasSnapshots seeded.snapshots failed.1.1
unfolding failed
commit-unpublished_example =
    commit-unpublished (memory false) (memory-IsUnpublished seeded.snapshots) idle seeded
      (made_no_changes "ingest") (refl, refl) refl

-- A table that the caller staged on the catalog itself.
abbrev direct : Transaction (memory false)
direct = record (start false) {
  catalog = record (start false).catalog { staged = ("t", "w/t.json") ∷ [] };
}

commit-never_drops_example :
    (round (memory false) true (note_unmanaged (memory false) direct, seeded)).0
    ≡ ok (ok "snapshot-1")
unfolding machine
commit-never_drops_example = commit-never_drops (memory false) direct seeded "snapshot-1" refl refl

-- The same work, and another writer: the conflict ends the commit.
direct-contested :
    (commit (memory false) (direct, contested)).0 ≡ err (unreplayable_change ("t" ∷ []))
unfolding machine
direct-contested = refl

-- A version of `g` was staged on the catalog before the delete.
abbrev staged_before : Transaction (memory false)
staged_before = record (start false) {
  catalog = record (start false).catalog { staged = ("g", "w/g/metadata/1.json") ∷ [] };
}

abbrev second : Meta
second = record { rows = 1 ∷ []; history = (2, []) ∷ (1, 1 ∷ []) ∷ []; log = 2 }

abbrev with_second : Disk
with_second = record seeded { files = ("w/g/metadata/1.json", second) ∷ seeded.files }

pinned : Transaction (memory false) × Disk
unfolding after_all perform delete capture_base_snapshot append machine
pinned =
    after_all (memory false) (appending "g" (4 ∷ []) ∷ [])
      (delete (memory false) "g" (expression 1) (staged_before, with_second)).1

-- The delete pins the snapshot 2 of the staged version, and not 1, which `g` had at the start.
delete-pins_window_example :
    (((Dict.get "g" staged_before.catalog.staged ≡ some "w/g/metadata/1.json")
        ⊎ ((Dict.get "g" staged_before.catalog.staged ≡ none)
            × (Dict.get "g" staged_before.catalog.pointers ≡ some "w/g/metadata/1.json")))
      × ((memory false).read_metadata tt "w/g/metadata/1.json" with_second ≡ ok second))
    × (Dict.get "g" pinned.0.base_snapshots ≡ some (some 2))
    × (Dict.get "g" (commit (memory false) pinned).1.0.base_snapshots ≡ some (some 2))
unfolding pinned
delete-pins_window_example =
    delete-pins_window (memory false) "g" (expression 1) staged_before with_second
      {table = record { name = "g"; metadata = second; metadata_location = "w/g/metadata/1.json" }}
      (appending "g" (4 ∷ []) ∷ []) refl refl refl

-- Another writer moves the table `h` after `_recover` has read the tip, within the rebase.
recovered : Result (Error ℕ) (Unit {0}) × (Transaction (memory true) × Disk)
unfolding machine
recovered = recover (memory true) (start true, contested)

replay-loses_update_example :
    (pointers : Dict String) × (read_pointers
        (memory true)
        "snapshot-2"
        (round (memory true) false recovered.1).1.1
      ≡ ok pointers)
    × (Dict.get "h" pointers ≡ none)
    × (Dict.get "h" pointers ≢ some "elsewhere")
unfolding recovered
replay-loses_update_example =
    replay-loses_update (memory true) (memory-Records true) (start true) contested
      {tips = ("g", "w/g/metadata/0.json") ∷ []}
      {base = ("g", "w/g/metadata/0.json") ∷ ("h", "elsewhere") ∷ []} "snapshot-2" "h" refl refl
      refl refl refl (λ same. cc)
