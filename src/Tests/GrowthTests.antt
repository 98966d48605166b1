-- ===== src/Tests/GrowthTests.antt =====
-- A whole batch, of four rows, while another writer lands, where storage keeps its files.
use icechest.Base.{
  ℕ, ◌<>◌, refl, none, List, [], ◌∷◌, map, decimal, nat_eq, true, rstrip_slash, arith,
  if◌then◌else◌,
}
use icechest.Base.Dict
use icechest.Base.Exec.{Result, ok, err}
use icechest.Demo.Hash.{with_stac_hash, null_count, hashed_all, hashed, hash_of, shift_right}
use icechest.Demo.Ingest.Publishing.{BatchTools, BatchResult, IngestError, ingest_batch}
use icechest.Demo.Ingest.Publishing.Steps.{RanAs, ingest_batch-RanAs}
use icechest.Demo.Ingest.Publishing.Tip.{IsOutcome, ingest_batch-IsOutcome}
use icechest.Transaction.Writers.Tip.{TipCounts}
use icechest.Pointer.{read_pointers}
use icechest.Tests.CatalogTests.{seeded, seed}
use icechest.Tests.ClosedLaws.{
  closed-IsHistory, closed-IsUndisturbed, closed-ReadsBack, closed-IsCount, closed-KeepsFiles,
  closed-IsClosed, closed-KeepsPlace,
}
use icechest.Tests.WriterTests.{ready, first_rows}
use icechest.Demo.Ingest.Publishing.Growth.{StagesInPlace, IsIngested, ingest_batch-IsIngested}
use icechest.Formats.{Attribute}
use icechest.Transaction.{HybridRepo, begin}
use icechest.Tests.HashTests.{edges}
use icechest.Tests.Memory.{closed, Meta, occurrences, keeping, Disk}
use icechest.Tests.KeepingLaws.{
  keeping-ReadsBack, keeping-KeepsFiles, keeping-IsCount, keeping-IsHistory, keeping-IsUndisturbed,
}
use icechest.Tests.PublishingTests.{put, without, batching}
use icechest.Tests.TransactionTests.{contested}

-- The arrays of a granule are an attribute of the session, and the file of the granule 5 cannot be
-- read to its end.
abbrev tools : BatchTools keeping edges
tools = record {
  Node = Attribute;
  ArrowSchema = Unit {0};
  row_id = λ row. decimal row.row;
  node = λ id session. Dict.get id session.attributes;
  writer = λ row session. (
    if nat_eq row.row 5 then err "unreadable" else ok ("/" <> decimal row.row),
    put (decimal row.row) session,
  );
  delete_dir = λ id session. (ok tt, record session { attributes = without id session.attributes });
  as_arrow = λ metadata. tt;
  sorted_table = λ keep schema. ok (map (λ (row, path). row.stac_hash) keep);
}

tools-StagesInPlace : StagesInPlace keeping tools
tools-StagesInPlace = record {
  at_write = λ row session. (refl, refl);
  at_delete = λ id session. (refl, refl);
}

abbrev lake : HybridRepo
lake = record { warehouse = "w"; io_properties = [] }

-- The second row is a duplicate of the first.
abbrev rows : List ℕ
rows = 4 ∷ 4 ∷ 5 ∷ 8 ∷ []

ingested : Result (IngestError ℕ) BatchResult × Disk
unfolding batching ingest_batch begin with_stac_hash null_count hashed_all hashed hash_of
    shift_right
ingested = ingest_batch keeping tools lake rows none "g" contested

abbrev result : BatchResult
result = record {
  snapshot_id = "snapshot-2";
  committed = "4" ∷ "8" ∷ [];
  skipped =
      (
        "4",
        "already staged earlier in this batch; the first occurrence's arrays are the ones published",
      )
      ∷ ("5", "unreadable")
      ∷ [];
}

-- The hash 5, that of the granule 4, is in the table once more than before.
ingest_batch-IsIngested_example :
    IsIngested keeping tools keeping-IsHistory keeping-ReadsBack keeping-KeepsFiles
      (keeping-IsCount 5)
      (keeping-IsUndisturbed "main")
      lake
      rows
      "g"
      contested
      result
      ingested.1
unfolding ingested rstrip_slash
ingest_batch-IsIngested_example =
    ingest_batch-IsIngested keeping tools keeping-IsHistory keeping-ReadsBack keeping-KeepsFiles
      (keeping-IsCount 5) (keeping-IsUndisturbed "main") (λ w session opened. ground arith)
      tools-StagesInPlace lake rows none "g" contested result refl

-- The same where nobody else writes.
abbrev closed_tools : BatchTools closed edges
closed_tools = record {
  Node = Attribute;
  ArrowSchema = Unit {0};
  row_id = tools.row_id;
  node = tools.node;
  writer = tools.writer;
  delete_dir = tools.delete_dir;
  as_arrow = tools.as_arrow;
  sorted_table = tools.sorted_table;
}

closed-StagesInPlace : StagesInPlace closed closed_tools
closed-StagesInPlace = record {
  at_write = λ row session. (refl, refl);
  at_delete = λ id session. (refl, refl);
}

-- The hash 5 is not in the table.
none_yet : TipCounts closed lake "main" "g" (λ (m : Meta). occurrences 5 m.rows) 0 seeded
unfolding read_pointers
none_yet = record {
  tip = "root";
  base = ("g", "w/g/metadata/0.json") ∷ [];
  metadata = seed;
  found = refl;
  read = refl;
  at = record { location = "w/g/metadata/0.json"; there = refl; read = refl };
  counted = refl;
}

batch_alone : Result (IngestError ℕ) BatchResult × Disk
unfolding batching ingest_batch begin with_stac_hash null_count hashed_all hashed hash_of
    shift_right rstrip_slash
batch_alone = ingest_batch closed closed_tools lake rows none "g" seeded

-- Afterwards it is there once.
ingest_batch-IsOutcome_example :
    IsOutcome closed closed_tools closed-StagesInPlace closed-IsHistory closed-KeepsPlace
      closed-ReadsBack closed-KeepsFiles
      (closed-IsCount 5)
      (closed-IsUndisturbed "main")
      (closed-IsClosed "main")
      lake
      "g"
      rows
      0
      seeded
      batch_alone.1
      batch_alone.0
unfolding batch_alone
ingest_batch-IsOutcome_example =
    ingest_batch-IsOutcome closed closed_tools closed-StagesInPlace closed-IsHistory
      closed-KeepsPlace closed-ReadsBack closed-KeepsFiles (closed-IsCount 5)
      (closed-IsUndisturbed "main") (closed-IsClosed "main") lake "g" rows none 0 seeded none_yet

-- A batch among other writers, of whom one has rows to append.
ingest_batch-RanAs_example :
    RanAs closed closed_tools closed-StagesInPlace
      (λ operation. true)
      lake
      "g"
      (λ batch. refl)
      (ready "a" first_rows ∷ [])
      []
      rows
      seeded
      batch_alone.0
      batch_alone.1
unfolding batch_alone
ingest_batch-RanAs_example =
    ingest_batch-RanAs closed closed_tools closed-StagesInPlace (λ operation. true) lake "g"
      (λ batch. refl) (ready "a" first_rows ∷ []) [] rows none seeded
