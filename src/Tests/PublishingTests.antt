-- ===== src/Tests/PublishingTests.antt =====
-- Batches on the platform in memory: one that is published, and one whose table is not there.
use icechest.Base.{
  String, arith, ◌==◌, if◌then◌else◌, nat_eq, is_some, eq_iff, eq_refl, ℕ, ◌<>◌, ◌≡◌, refl, true,
  false, none, List, [], ◌∷◌, map, contains_text, decimal,
}
use icechest.Base.Dict
use icechest.Base.Dict.{get-insert}
use icechest.Base.Exec.{Result, ok, err}
use icechest.Demo.Hash.{HashedRow}
use icechest.Demo.Ingest.{
  Batch, stage_rows, stage_granule, write_one, clean_up, granule_exists, record_skip, empty_batch,
}
use icechest.Demo.Ingest.Publishing.{
  BatchTools, BatchResult, IngestError, granules, batch_rows, ingest_into, publish_batch,
  append_and_commit,
}
use icechest.Formats.{Attribute, Attributes, text}
use icechest.Demo.Ingest.Staged.{OwnNode}
use icechest.Demo.Ingest.Publishing.Together.{ingest_into-together}
use icechest.Demo.Ingest.Publishing.Outcome.{planned}
use icechest.Repo.{read, snapshot_for, given, table, pointers, unresolvable, bindings, group}
use icechest.Convention.{read_bindings, declared_tables, all_from_attrs}
use icechest.Tests.HashTests.{edges}
use icechest.Tests.Memory.{Handle, memory, Disk}
use icechest.Tests.MemoryLaws.{memory-Records}
use icechest.Tests.TransactionTests.{begun, contested, machine}
use icechest.Tests.CatalogTests.{seeded}
use icechest.Transaction.{commit, Transaction, append}

-- The attributes without an entry.
abbrev pub without : String → Attributes → Attributes
without id [] = []
without id ((k, v) ∷ d) = let rest = without id d in if k == id then rest else (k, v) ∷ rest

get-without :
    (j id : String) (d : Attributes)
    → Dict.get j (without id d) ≡ (if id == j then none else Dict.get j d)
unfolding Dict.get
get-without j id [] = ground arith
get-without j id ((k, v) ∷ d) =
    ground (arith, get-without j id d, eq_iff k id, eq_iff k j, eq_iff id j, eq_refl id)

abbrev pub put : String → Handle → Handle
put id session = record session {
  attributes = Dict.insert id (text "array") session.attributes;
  dirty = true;
}

-- A granule's id is its western edge, and its arrays are an attribute of the session. The file of
-- the granule 5 cannot be read to its end.
abbrev tools : BatchTools (memory false) edges
tools = record {
  Node = Attribute;
  ArrowSchema = Unit {0};
  row_id = λ row. decimal row.row;
  node = λ id session. Dict.get id session.attributes;
  writer = λ row session. (
    if nat_eq row.row 5 then err "unreadable" else ok ("/" <> decimal row.row),
    put (decimal row.row) session,
  );
  delete_dir = λ id session. (ok tt, record session { attributes = without id session.attributes });
  as_arrow = λ metadata. tt;
  sorted_table = λ keep schema. ok (map (λ (row, path). row.stac_hash) keep);
}

tools-OwnNode : OwnNode (granules (memory false) tools)
tools-OwnNode = record {
  write_others = λ row j s segment segment_j differ.
      ground (arith, get-insert j (decimal row.row) (text "array") s.attributes);
  written = λ row path s segment done. ground (
    arith,
    get-insert (decimal row.row) (decimal row.row) (text "array") s.attributes,
    eq_refl (decimal row.row),
  );
  delete_others = λ id j s segment segment_j differ. ground (arith, get-without j id s.attributes);
  deleted = λ id s segment done. ground (arith, get-without id id s.attributes, eq_refl id);
}

abbrev rows : List (HashedRow edges)
rows =
    record { row = 4; stac_hash = 5; stac_hash_block = 0 }
    ∷ record { row = 4; stac_hash = 5; stac_hash_block = 0 }
    ∷ record { row = 5; stac_hash = 6; stac_hash_block = 0 }
    ∷ []

abbrev staged : Batch (granules (memory false) tools)
staged =
    stage_rows (granules (memory false) tools) rows
      (empty_batch (granules (memory false) tools) begun.session)

-- All that a batch goes through.
unfoldable pub batching : Unit {0}
unfolding machine ingest_into publish_batch append_and_commit batch_rows stage_rows stage_granule
    write_one clean_up granule_exists record_skip append read snapshot_for given table pointers
    Dict.get
batching = tt

ingested : Result (IngestError ℕ) BatchResult × (Transaction (memory false) × Disk)
unfolding batching
ingested = ingest_into (memory false) tools "g" rows (begun, contested)

abbrev result : BatchResult
result = record {
  snapshot_id = "snapshot-2";
  committed = "4" ∷ [];
  skipped =
      (
        "4",
        "already staged earlier in this batch; the first occurrence's arrays are the ones published",
      )
      ∷ ("5", "unreadable")
      ∷ [];
}

ingest_into-together_example :
    ((batch : List ℕ) × (batch_rows (memory false) tools begun.repo "g" staged.keep contested
        ≡ ok batch)
      × (commit
            (memory false)
            (planned (memory false) tools "g" batch staged.store begun, contested)
          ≡ (ok "snapshot-2", ingested.1)))
    × (is_some (Dict.get "5" staged.store.attributes) ≡ contains_text result.committed "5")
    × (contains_text (map (λ (row, _). decimal row.row) staged.keep) "5"
        ≡ contains_text result.committed "5")
unfolding ingested batching
ingest_into-together_example =
    ingest_into-together (memory false) tools (memory-Records false) tools-OwnNode
      (λ id session. refl) "g" "5" rows begun contested result refl refl refl refl

untabled : Result (IngestError ℕ) BatchResult × (Transaction (memory false) × Disk)
unfolding batching unresolvable bindings group read_bindings declared_tables all_from_attrs
untabled = ingest_into (memory false) tools "x" rows (begun, seeded)

untabled_left : untabled.1.0.session.dirty ≡ true
unfolding untabled
untabled_left = refl
