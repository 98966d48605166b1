-- ===== src/Tests/StoreTests.antt =====
-- The table of granules, made on a repository that has another table.
use icechest.Base.{ℕ, String, ◌≡◌, refl, true, false, [], ◌∷◌, ◌⊎◌}
use icechest.Base.Dict
use icechest.Base.Dict.{Dict}
use icechest.Base.Exec.{Result, ok}
use icechest.Catalog
use icechest.Catalog.{table_exists, new_metadata}
use icechest.Convention.{declare, declaration, holds_already}
use icechest.Demo.Store.{
  Schemas, StoreError, ensure_table, create_granules, create_within, granules_schema,
  granules_fields,
}
use icechest.Demo.Store.Ensured.{ensure_table-there}
use icechest.Pointer.{read_pointers}
use icechest.Repo.{read, snapshot_for, given, pointers}
use icechest.Tests.Memory.{memory, Disk}
use icechest.Tests.MemoryLaws.{memory-Records}
use icechest.Tests.TransactionTests.{machine}
use icechest.Tests.CatalogTests.{seeded}
use icechest.Transaction
use icechest.Transaction.{HybridRepo, begin, leave, commit}

abbrev schemas : Schemas (memory false)
schemas = record {
  Source = ℕ;
  Field = ℕ × String;
  FieldType = Unit {0};
  string_type = tt;
  long_type = tt;
  nested_field = λ id name type. (id, name);
  fields = λ source. (source, "id") ∷ [];
  highest_field_id = λ source. source;
  schema = λ fields. tt;
  sort_order = λ source. tt;
  partition_spec = λ source id name. tt;
}

abbrev repo : HybridRepo
repo = record { warehouse = "w"; io_properties = [] }

ensured : Result (StoreError ℕ) (Unit {0}) × Disk
unfolding machine ensure_table create_granules create_within granules_schema granules_fields read
    snapshot_for given pointers begin leave Transaction.create_table Dict.get declare
ensured = ensure_table (memory false) schemas repo 7 "granules" seeded

ensure_table-there_example :
    (id : String) × (found : Dict String) × (read_pointers (memory false) id ensured.1 ≡ ok found)
    × (Dict.contains "granules" found ≡ true)
    × ((((memory false).lookup_branch "main" seeded ≡ ok id) × (ensured.1 ≡ seeded))
        ⊎ ((tx : Transaction.Transaction (memory false)) × (tx.branch ≡ "main")
            × ((commit (memory false) (tx, seeded)).0 ≡ ok id)
            × (ensured.1 ≡ (commit (memory false) (tx, seeded)).1.1)))
unfolding ensured holds_already declaration table_exists new_metadata Catalog.create_table
ensure_table-there_example =
    ensure_table-there (memory false) schemas (memory-Records false) repo 7 "granules" seeded refl
      refl
