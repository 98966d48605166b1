-- ===== src/Tests/RowTests.antt =====
-- A transaction that appends while another writer lands, where storage keeps its files.
use icechest.Base.{ℕ, String, refl, false, none, [], ◌∷◌, rstrip_slash}
use icechest.Base.Exec.{Result}
use icechest.Errors.{Error}
use icechest.Catalog.{new_catalog}
use icechest.Intent.{append_rows}
use icechest.Transaction.{Transaction, catalog_for, commit}
use icechest.Transaction.InStep.{IsInStep}
use icechest.Transaction.Rows.Published.{Grows, commit-Grows}
use icechest.Tests.Memory.{keeping, Disk, parent_on_disk}
use icechest.Tests.KeepingLaws.{
  keeping-ReadsBack, keeping-KeepsFiles, keeping-IsCount, keeping-IsHistory, keeping-IsUndisturbed,
}
use icechest.Tests.TransactionTests.{machine, contested}

-- It appends 3 to `g` twice, and 4 once.
abbrev appender : Transaction keeping
appender = record {
  repo = record { warehouse = "w"; io_properties = [] };
  branch = "main";
  message = "ingest";
  max_retries = 3;
  intents = append_rows "g" (3 ∷ 4 ∷ []) ∷ append_rows "g" (3 ∷ []) ∷ [];
  base_snapshots = [];
  unmanaged_staged = [];
  session = record { branch = "main"; at = "root"; dirty = false; attributes = [] };
  catalog = record {
    warehouse = "w";
    pointers = ("g", "w/g/metadata/0.json") ∷ [];
    staged = [];
    properties = [];
    read_only = false;
  };
  snapshot_id = none;
}

appended : Result (Error ℕ) String × (Transaction keeping × Disk)
unfolding machine
appended = commit keeping (appender, contested)

commit-Grows_example :
    Grows keeping keeping-ReadsBack keeping-KeepsFiles
      (keeping-IsCount 3)
      parent_on_disk
      tt
      "snapshot-2"
      "g"
      2
      appended.1.1
unfolding appended IsInStep catalog_for new_catalog rstrip_slash
commit-Grows_example =
    commit-Grows keeping keeping-ReadsBack keeping-KeepsFiles (keeping-IsCount 3) keeping-IsHistory
      appender contested "snapshot-2" "g" (keeping-IsUndisturbed "main") refl refl refl refl refl
      refl
