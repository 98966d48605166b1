-- ===== src/Tests/CatalogTests.antt =====
-- The catalog on the platform in memory.
use icechest.Base.{◌⊎◌, ℕ, String, ◌≡◌, refl, true, false, none, [], ◌∷◌}
use icechest.Base.Dict
use icechest.Base.Dict.{Dict}
use icechest.Base.Exec.{Result, ok}
use icechest.Catalog.{
  IcechunkCatalog, Table, create, create_table, new_metadata, write_and_stage, location_text,
  commit_table, read_in, base_metadata, validate_requirements, load_table, current_pointers, serve,
  rebase, Request,
}
use icechest.Catalog.ReadOnly.{serve-read_only}
use icechest.Catalog.Staging.{load_table-create_table, load_table-commit_table}
use icechest.Errors.{Error}
use icechest.Formats.{text_map}
use icechest.Tests.Memory.{memory, Meta, Disk, add}
use icechest.Tests.MemoryLaws.{memory-ReadsBack}

abbrev pub seed : Meta
seed = record { rows = 1 ∷ 2 ∷ []; history = (1, 1 ∷ 2 ∷ []) ∷ []; log = 1 }

abbrev pub seeded : Disk
seeded = record {
  files = ("w/g/metadata/0.json", seed) ∷ [];
  tokens = 0;
  snapshots =
      ("root", (("iceberg:table_versions", text_map (("g", "w/g/metadata/0.json") ∷ [])) ∷ [], ""))
      ∷ [];
  tip = "root";
  pending = [];
  commits = 0;
}

abbrev catalog : IcechunkCatalog
catalog = record {
  warehouse = "w";
  pointers = ("g", "w/g/metadata/0.json") ∷ [];
  staged = [];
  properties = [];
  read_only = false;
}

abbrev Run : Type 0 → Type 0
Run A = Result (Error ℕ) A × (IcechunkCatalog × Disk)

creation : Run (Table Meta)
unfolding create_table new_metadata write_and_stage location_text current_pointers Dict.update
    Dict.insert
creation = create_table (memory false) "t" tt none tt tt [] (catalog, seeded)

abbrev created : Table Meta
created = record {
  name = "t";
  metadata = record { rows = []; history = []; log = 0 };
  metadata_location = "w/t/metadata/00000-0.metadata.json";
}

load_table-create_table_example :
    load_table (memory false) "t" creation.1.0 creation.1.1 ≡ ok created
unfolding creation
load_table-create_table_example =
    load_table-create_table (memory false) (memory-ReadsBack false) "t" tt none tt tt [] catalog
      creation.1.0 seeded creation.1.1 refl

abbrev loaded : Table Meta
loaded = record { name = "g"; metadata = seed; metadata_location = "w/g/metadata/0.json" }

growth : Run (Meta × String)
unfolding commit_table read_in base_metadata validate_requirements write_and_stage location_text
    current_pointers Dict.update Dict.insert
growth = commit_table (memory false) loaded (1 ∷ []) (add (3 ∷ []) ∷ []) (catalog, seeded)

abbrev grown : Meta
grown = record { rows = 1 ∷ 2 ∷ 3 ∷ []; history = (2, 3 ∷ []) ∷ (1, 1 ∷ 2 ∷ []) ∷ []; log = 2 }

abbrev grown_location : String
grown_location = "w/g/metadata/00002-0.metadata.json"

load_table-commit_table_example :
    let pointer = Dict.get "g" (current_pointers catalog) in
    (base : Meta) × (base_metadata (memory false) loaded pointer catalog seeded ≡ ok base)
    × (validate_requirements (memory false) (1 ∷ []) base ≡ ok tt)
    × ((memory false).update_table_metadata base (add (3 ∷ []) ∷ []) pointer ≡ ok grown)
    × (load_table (memory false) "g" growth.1.0 growth.1.1
        ≡ ok (record { name = "g"; metadata = grown; metadata_location = grown_location }))
unfolding growth
load_table-commit_table_example =
    load_table-commit_table (memory false) (memory-ReadsBack false) "g" loaded (1 ∷ [])
      (add (3 ∷ []) ∷ []) catalog growth.1.0 seeded growth.1.1 refl refl

abbrev read_only_catalog : IcechunkCatalog
read_only_catalog = record catalog { read_only = true }

abbrev new_table : Request (memory false)
new_table = create "t" tt none tt tt []

serve-read_only_example :
    let (c, w) = (serve (memory false) new_table (read_only_catalog, seeded)).1 in
    (w ≡ seeded)
    × ((c ≡ read_only_catalog)
        ⊎ ((pointers : Dict String) × (new_table ≡ rebase pointers)
            × (c ≡ record read_only_catalog { pointers = pointers; staged = [] })))
serve-read_only_example = serve-read_only (memory false) new_table read_only_catalog seeded refl
