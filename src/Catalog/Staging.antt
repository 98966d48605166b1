-- ===== src/Catalog/Staging.antt =====
-- What `create_table` and `commit_table` do to the catalog, and what loads afterwards.
use icechest.Base.{ℕ, String, ◌≡◌, Option, some, List, arith, inl, inr, eq_refl}
use icechest.Base.Dict
use icechest.Base.Dict.{Dict}
use icechest.Base.Exec.{Result, ok, err, Result-cases}
use icechest.Platform.{Platform}
use icechest.Platform.Laws.{ReadsBack}
use icechest.Catalog.{
  IcechunkCatalog, Table, current_pointers, stage, create_table, new_metadata, commit_table,
  load_table, read_in, write_and_stage, base_metadata, validate_requirements,
}
use icechest.Catalog.Resolution.{get-current_pointers-stage}

-- How a call that began at catalog `c` may end: it returned and staged one location under `name`,
-- or it raised and staged nothing; either way it changed nothing else of the catalog.
pub data Stages {E A W : Type 0} (name : String) (location_of : A → String) (c : IcechunkCatalog)
    (outcome : Result E A × (IcechunkCatalog × W)) : Type 0 where
  staged_one :
      (a : A)
      → outcome.0 ≡ ok a
      → outcome.1.0 ≡ stage name (location_of a) c
      → Stages name location_of c outcome
  untouched : (e : E) → outcome.0 ≡ err e → outcome.1.0 ≡ c → Stages name location_of c outcome

module _ (P : Platform) where
  open P use {
    World, RawSchema, PartitionSpec, SortOrder, Metadata, Requirement, TableUpdate, table_name_from,
    load_file_io, uuid4, update_table_metadata, metadata_log_length,
  }

  -- `create_table` returns and stages the location of the new table under its name, or raises and
  -- stages nothing; it changes nothing else of the catalog.
  pub create_table-Stages :
      (identifier : String) (schema : RawSchema) (location : Option String) (spec : PartitionSpec)
      (order : SortOrder) (properties : Dict String) (c : IcechunkCatalog) (w : World)
      → Stages
          (table_name_from identifier)
          (λ (t : Table Metadata). t.metadata_location)
          c
          (create_table P identifier schema location spec order properties (c, w))
  unfolding create_table new_metadata write_and_stage
  create_table-Stages identifier schema location spec order properties c w =
      elim (Result-cases
        (create_table P identifier schema location spec order properties (c, w)).0) [
          | inl (a, done) ↦ staged_one a done (ground arith)
          | inr (e, failed) ↦ untouched e failed (ground arith)
        ]

  -- `commit_table` returns and stages the location of the new version under the table's name, or
  -- raises and stages nothing; it changes nothing else of the catalog.
  pub commit_table-Stages :
      (table : Table Metadata) (requirements : List Requirement) (updates : List TableUpdate)
      (c : IcechunkCatalog) (w : World)
      → Stages table.name
          (λ (r : Metadata × String). r.1)
          c
          (commit_table P table requirements updates (c, w))
  unfolding commit_table write_and_stage
  commit_table-Stages table requirements updates c w =
      elim (Result-cases (commit_table P table requirements updates (c, w)).0) [
        | inl (a, done) ↦ staged_one a done (ground arith)
        | inr (e, failed) ↦ untouched e failed (ground arith)
      ]

  -- The checks and the new metadata leave the catalog as it was.
  new_metadata_catalog :
      (name : String) (schema : RawSchema) (location : Option String) (spec : PartitionSpec)
      (order : SortOrder) (properties : Dict String) (c : IcechunkCatalog) (w : World)
      → (new_metadata P name schema location spec order properties (c, w)).1.0 ≡ c
  unfolding new_metadata
  new_metadata_catalog name schema location spec order properties c w = ground arith

  load_table_of_pointer :
      (identifier : String) {location : String} {metadata : Metadata} (c : IcechunkCatalog)
      (w : World)
      → Dict.get (table_name_from identifier) (current_pointers c) ≡ some location
      → read_in P location c w ≡ ok metadata
      → load_table P identifier c w
        ≡ ok (record {
          name = table_name_from identifier;
          metadata = metadata;
          metadata_location = location;
        })
  unfolding load_table
  load_table_of_pointer identifier c w staged read = ground arith

  module _ (laws : ReadsBack P) where
    write_and_stage-reads_back :
        (name : String) (version : ℕ) (metadata : Metadata) {location : String}
        (c c' : IcechunkCatalog) (w w' : World)
        → write_and_stage P name version metadata (c, w) ≡ (ok location, (c', w'))
        → (Dict.get name (current_pointers c') ≡ some location)
          × (read_in P location c' w' ≡ ok metadata)
    unfolding write_and_stage read_in stage
    write_and_stage-reads_back name version metadata {location} c c' w w' h = ground (
      arith,
      get-current_pointers-stage name name location c,
      eq_refl name,
      laws.read_written (load_file_io c.properties) metadata location (uuid4 w).1 w',
    )

    -- Where storage reads back what was written, a table that was created loads as it was created.
    pub load_table-create_table :
        (identifier : String) (schema : RawSchema) (location : Option String) (spec : PartitionSpec)
        (order : SortOrder) (properties : Dict String) {t : Table Metadata} (c c' : IcechunkCatalog)
        (w w' : World)
        → create_table P identifier schema location spec order properties (c, w) ≡ (ok t, (c', w'))
        → load_table P identifier c' w' ≡ ok t
    unfolding create_table
    load_table-create_table identifier schema location spec order properties {t} c c' w w' h =
        let name = table_name_from identifier in
        let planned = new_metadata P name schema location spec order properties (c, w) in
        ground (
          arith,
          new_metadata_catalog name schema location spec order properties c w,
          write_and_stage-reads_back name 0 t.metadata {location = t.metadata_location} c c'
              planned.1.1 w',
          load_table_of_pointer identifier {location = t.metadata_location} {metadata = t.metadata}
              c' w',
        )

    -- Where storage reads back what was written, a commit that returns has found that the requirements
    -- hold of the version that the pointer names, or of the table's own where there is none, has applied
    -- the updates to that version, and returns what the name loads in the state that it leaves.
    pub load_table-commit_table :
        (identifier : String) (table : Table Metadata) (requirements : List Requirement)
        (updates : List TableUpdate) {metadata : Metadata} {location : String}
        (c c' : IcechunkCatalog) (w w' : World)
        → table_name_from identifier ≡ table.name
        → commit_table P table requirements updates (c, w) ≡ (ok (metadata, location), (c', w'))
        → let pointer = Dict.get table.name (current_pointers c) in
          (base : Metadata) × (base_metadata P table pointer c w ≡ ok base)
          × (validate_requirements P requirements base ≡ ok tt)
          × (update_table_metadata base updates pointer ≡ ok metadata)
          × (load_table P identifier c' w'
              ≡ ok
                  (record { name = table.name; metadata = metadata; metadata_location = location }))
    unfolding commit_table
    load_table-commit_table identifier table requirements updates {metadata} {location} c c' w w'
          named h =
        let name = table.name in
        elim (Result-cases (base_metadata P table (Dict.get name (current_pointers c)) c w)) [
          | inl (base, found) ↦ (
            base,
            found,
            ground arith,
            ground arith,
            ground (
              arith,
              write_and_stage-reads_back name (metadata_log_length metadata) metadata
                  {location = location} c c' w w',
              load_table_of_pointer identifier {location = location} {metadata = metadata} c' w',
            ),
          )
          | inr (e, raised) ↦ ground arith
        ]
