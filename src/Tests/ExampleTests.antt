-- ===== src/Tests/ExampleTests.antt =====
-- The two writers of examples/concurrent_writers.py on the platform in memory without others.
use icechest.Base.{
  map, decimal, length, ℕ, String, refl, true, List, [], ◌∷◌, ◌==◌, if◌then◌else◌, rstrip_slash,
  arith,
}
use icechest.Base.Exec.{Result, ok}
use icechest.Catalog.{new_catalog}
use icechest.Errors.{Error}
use icechest.Examples.ConcurrentWriters.{
  Script, row, opens, on, ingest, both_write, both_commit, both_ingest,
}
use icechest.Examples.ConcurrentWriters.Calls.{WritesInPlace}
use icechest.Examples.ConcurrentWriters.Both.{both_ingest-TipCounts}
use icechest.Formats.{text_map}
use icechest.Pointer.{read_pointers}
use icechest.Transaction.{transaction, begin, on_group, append}
use icechest.Transaction.Writers.Tip.{TipCounts}
use icechest.Tests.CatalogTests.{seed}
use icechest.Tests.ClosedLaws.{
  closed-IsHistory, closed-IsUndisturbed, closed-ReadsBack, closed-IsCount, closed-KeepsFiles,
  closed-IsClosed, closed-KeepsPlace,
}
use icechest.Tests.Memory.{closed, try_commit, occurrences, Meta, Disk, Handle}
use icechest.Tests.TransactionTests.{machine}
use icechest.Tests.WriterTests.{lake}

-- The number of a granule.
abbrev numbered : List (String × String) → List ℕ
numbered [] = []
numbered ((_, granule_id) ∷ _) = if granule_id == "G-100" then 100 ∷ [] else 200 ∷ []

-- A row is its granule's number; arrays are not kept.
abbrev script : Script closed
script = record {
  create_array = λ (session : Handle). ok (record session { dirty = true });
  fill = λ from to value (session : Handle). ok (record session { dirty = true });
  unpartitioned = tt;
  unsorted = tt;
  pa_schema = λ fields. tt;
  Cell = String;
  text_cell = λ text. text;
  timestamp_cell = λ day. day;
  pa_table = λ schema columns. numbered columns;
  scan = λ io (m : Meta) d. ok m.rows;
  granule_ids = λ rows. map decimal rows;
  num_rows = λ rows. length rows;
  element = λ n session. ok 0;
  create_tag = λ name id d. (ok tt, d);
}

abbrev seeded_lake : Disk
seeded_lake = record {
  files = ("w/granules/metadata/0.json", seed) ∷ [];
  tokens = 0;
  snapshots =
      (
        "root",
        (
          ("iceberg:table_versions", text_map (("granules", "w/granules/metadata/0.json") ∷ []))
              ∷ [],
          "",
        ),
      )
      ∷ [];
  tip = "root";
  pending = [];
  commits = 0;
}

in_place : WritesInPlace closed script lake
in_place = record { place = closed-KeepsPlace; at_fill = λ from to value session h. ground arith }

ran : Result (Error ℕ) (String × String) × Disk
unfolding row both_ingest opens on ingest both_write both_commit transaction begin on_group append
    machine try_commit new_catalog rstrip_slash
ran = both_ingest closed script lake seeded_lake

at_start :
    TipCounts closed lake "main" "granules" (λ (m : Meta). occurrences 200 m.rows) 0 seeded_lake
unfolding read_pointers
at_start = record {
  tip = "root";
  base = ("granules", "w/granules/metadata/0.json") ∷ [];
  metadata = seed;
  found = refl;
  read = refl;
  at = record { location = "w/granules/metadata/0.json"; there = refl; read = refl };
  counted = refl;
}

both_ingest-TipCounts_example :
    TipCounts closed lake "main" "granules" (λ (m : Meta). occurrences 200 m.rows) 1 ran.1
unfolding ran
both_ingest-TipCounts_example =
    both_ingest-TipCounts closed script lake in_place closed-IsHistory closed-ReadsBack
      closed-KeepsFiles (closed-IsCount 200) (closed-IsUndisturbed "main") (closed-IsClosed "main")
      seeded_lake ran.1 ("snapshot-1", "snapshot-2") refl at_start refl
