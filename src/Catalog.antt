-- ===== src/Catalog.antt =====
-- catalog.py: `IcechunkCatalog`. A method that only looks is a function of the catalog and the
-- world; one that writes is an action on both.
pub mod Resolution
pub mod Staging
pub mod ReadOnly
use icechest.Base.{
  ℕ, String, ◌<>◌, Bool, true, false, Option, none, some, List, [], ◌∷◌, ◌==◌, if◌then◌else◌,
  rstrip_slash, zero_padded, text_or, is_empty_text, sort_texts,
}
use icechest.Base.Dict
use icechest.Base.Dict.{Dict}
use icechest.Base.Exec.{
  Result, ok, err, Exec, pure, raise, raise_if, gets, reads, modify, lift, ◌>>=◌, ◌>>◌, ◌>>=ᵣ◌,
}
use icechest.Errors.{Error, no_such_table, table_already_exists, read_only_catalog, unsupported}
use icechest.Platform.{Platform}

-- `SAFETY_PROPERTIES`
abbrev pub safety_properties : Dict String
safety_properties =
    ("gc.enabled", "false") ∷ ("write.metadata.delete-after-commit.enabled", "false") ∷ []

pub record IcechunkCatalog : Type 0 where
  pub warehouse : String
  -- the map of the session's base snapshot
  pub pointers : Dict String
  -- what this session produced and no commit has published
  pub staged : Dict String
  pub properties : Dict String
  pub read_only : Bool

-- `IcechunkCatalog(warehouse=..., pointers=..., properties=..., read_only=...)`
unfoldable pub new_catalog : String → Dict String → Dict String → Bool → IcechunkCatalog
new_catalog warehouse pointers properties read_only = record {
  warehouse = rstrip_slash warehouse;
  pointers = pointers;
  staged = [];
  properties = properties;
  read_only = read_only;
}

unfoldable pub current_pointers : IcechunkCatalog → Dict String
current_pointers c = Dict.update c.pointers c.staged

unfoldable pub rebase_onto : Dict String → IcechunkCatalog → IcechunkCatalog
rebase_onto pointers c = record c { pointers = pointers; staged = [] }

unfoldable pub stage : String → String → IcechunkCatalog → IcechunkCatalog
stage name location c = record c { staged = Dict.insert name location c.staged }

-- PyIceberg's `Table`, less its handles on the file system and the catalog. Its identifier is the
-- tuple `(name,)`, of which `table_name_from` takes the name.
pub record Table (Metadata : Type 0) : Type 0 where
  pub name : String
  pub metadata : Metadata
  pub metadata_location : String

-- The operations that are refused whatever they are asked.
pub data Refused : Type 0 where
  drop_table purge_table rename_table register_table create_namespace drop_namespace : Refused
  load_namespace_properties update_namespace_properties create_table_transaction drop_view : Refused

abbrev refused_name : Refused → String
refused_name drop_table = "drop_table"
refused_name purge_table = "purge_table"
refused_name rename_table = "rename_table"
refused_name register_table = "register_table"
refused_name create_namespace = "create_namespace"
refused_name drop_namespace = "drop_namespace"
refused_name load_namespace_properties = "load_namespace_properties"
refused_name update_namespace_properties = "update_namespace_properties"
refused_name create_table_transaction = "create_table_transaction"
refused_name drop_view = "drop_view"

-- Where the metadata file of a version goes.
unfoldable pub location_text : String → String → ℕ → String → String
unfolding zero_padded
location_text warehouse table_name version token =
    warehouse
    <> "/"
    <> table_name
    <> "/metadata/"
    <> zero_padded version
    <> "-"
    <> token
    <> ".metadata.json"

module _ (P : Platform) where
  open P use {
    World, RawSchema, PartitionSpec, SortOrder, Metadata, Requirement, TableUpdate, Expression,
    load_file_io, table_name_from, convert_schema, new_table_metadata, uuid4, write_metadata,
    read_metadata, validate_requirement, update_table_metadata, metadata_log_length,
  }

  abbrev pub CatalogExec : Type 0 → Type 0
  CatalogExec = Exec (IcechunkCatalog × World) (Error Expression)

  -- `_metadata_location`
  unfoldable pub metadata_location : String → ℕ → CatalogExec String
  metadata_location table_name version (c, w) =
      let (token, w') = uuid4 w in
      (ok (location_text c.warehouse table_name version token), (c, w'))

  -- `_resolve`
  unfoldable pub resolve : String → IcechunkCatalog → Result (Error Expression) String
  resolve identifier c = elim (Dict.get (table_name_from identifier) (current_pointers c)) [
    | none ↦ err (no_such_table (table_name_from identifier))
    | some location ↦ ok location
  ]

  -- `_assert_writable`
  assert_writable : CatalogExec (Unit {0})
  assert_writable (c, w) = raise_if c.read_only read_only_catalog (c, w)

  -- `ToOutputFile.table_metadata(metadata, self._io.new_output(location))`
  write_out : Metadata → String → CatalogExec (Unit {0})
  write_out metadata location (c, w) =
      let (r, w') = write_metadata (load_file_io c.properties) metadata location w in (r, (c, w'))

  -- `FromInputFile.table_metadata(self._io.new_input(location))`
  unfoldable pub read_in : String → IcechunkCatalog → World → Result (Error Expression) Metadata
  read_in location c w = read_metadata (load_file_io c.properties) location w

  unfoldable pub load_table :
      String → IcechunkCatalog → World → Result (Error Expression) (Table Metadata)
  unfolding resolve read_in
  load_table identifier c w = resolve identifier c >>=ᵣ λ location.
      read_in location c w >>=ᵣ λ metadata. ok (record {
        name = table_name_from identifier;
        metadata = metadata;
        metadata_location = location;
      })

  unfoldable pub table_exists : String → IcechunkCatalog → Bool
  table_exists identifier c = Dict.contains (table_name_from identifier) (current_pointers c)

  -- The tail that `create_table` and `commit_table` share: write a metadata file, stage it.
  unfoldable pub write_and_stage : String → ℕ → Metadata → CatalogExec String
  unfolding metadata_location write_out stage
  write_and_stage name version metadata = do
    location ← metadata_location name version
    write_out metadata location
    modify (λ (c, w). (stage name location c, w))
    pure location

  -- `new_table_metadata` draws the table's UUID.
  fresh_metadata :
      RawSchema → PartitionSpec → SortOrder → String → Dict String → CatalogExec Metadata
  fresh_metadata schema spec order location properties (c, w) = elim (convert_schema schema) [
    | err e ↦ (err e, (c, w))
    | ok converted ↦
        let (metadata, w') =
          new_table_metadata converted spec order (rstrip_slash location)
            (Dict.update safety_properties properties) w in
        (ok metadata, (c, w'))
  ]

  -- `create_table` up to the metadata: the checks, and what is to be written.
  unfoldable pub new_metadata :
      String
      → RawSchema
      → Option String
      → PartitionSpec
      → SortOrder
      → Dict String
      → CatalogExec Metadata
  unfolding assert_writable fresh_metadata
  new_metadata name schema location spec order properties = do
    assert_writable
    (c, w) ← gets (λ s. s)
    raise_if (Dict.contains name (current_pointers c)) (table_already_exists name)
    fresh_metadata schema spec order (text_or location (c.warehouse <> "/" <> name)) properties

  unfoldable pub create_table :
      String
      → RawSchema
      → Option String
      → PartitionSpec
      → SortOrder
      → Dict String
      → CatalogExec (Table Metadata)
  create_table identifier schema location spec order properties = do
    let name = table_name_from identifier
    metadata ← new_metadata name schema location spec order properties
    written ← write_and_stage name 0 metadata
    pure (record { name = name; metadata = metadata; metadata_location = written })

  -- The version that a commit builds on: the one that the pointer names, or the table's own.
  unfoldable pub base_metadata :
      Table Metadata → Option String → IcechunkCatalog → World → Result (Error Expression) Metadata
  base_metadata table none c w = ok table.metadata
  base_metadata table (some location) c w =
      if is_empty_text location then ok table.metadata else read_in location c w

  -- `for requirement in requirements: requirement.validate(base_metadata)`
  unfoldable pub validate_requirements :
      List Requirement → Metadata → Result (Error Expression) (Unit {0})
  validate_requirements [] base = ok tt
  validate_requirements (requirement ∷ rest) base =
      validate_requirement requirement base >>=ᵣ λ _. validate_requirements rest base

  unfoldable pub commit_table :
      Table Metadata → List Requirement → List TableUpdate → CatalogExec (Metadata × String)
  unfolding assert_writable
  commit_table table requirements updates = do
    let name = table.name
    assert_writable
    base_location ← gets (λ (c, w). Dict.get name (current_pointers c))
    base ← reads (λ (c, w). base_metadata table base_location c w)
    lift (validate_requirements requirements base)
    new_metadata ← lift (update_table_metadata base updates base_location)
    location ← write_and_stage name (metadata_log_length new_metadata) new_metadata
    pure (new_metadata, location)

  -- `raise self._unsupported(...)`
  refuse : {A : Type 0} → Refused → CatalogExec A
  refuse operation = raise (unsupported (refused_name operation))

  -- `list_tables`
  list_tables : IcechunkCatalog → List String
  list_tables c = sort_texts (Dict.keys (current_pointers c))

  -- There are no namespaces and no views.
  abbrev list_namespaces : String → List String
  list_namespaces namespace = []

  abbrev namespace_exists : String → Bool
  namespace_exists namespace = false

  abbrev list_views : String → List String
  list_views namespace = []

  abbrev view_exists : String → Bool
  view_exists identifier = false

  -- A call of the catalog that may raise or change it, its answer dropped.
  pub data Request : Type 0 where
    create : String → RawSchema → Option String → PartitionSpec → SortOrder → Dict String → Request
    commit : Table Metadata → List Requirement → List TableUpdate → Request
    load : String → Request
    refused : Refused → Request
    rebase : Dict String → Request

  pub serve : Request → CatalogExec (Unit {0})
  unfolding refuse
  serve (create identifier schema location spec order properties) =
      create_table identifier schema location spec order properties >> pure tt
  serve (commit table requirements updates) = commit_table table requirements updates >> pure tt
  serve (load identifier) = reads (λ (c, w). load_table identifier c w) >> pure tt
  serve (refused operation) = refuse operation
  serve (rebase pointers) = modify (λ (c, w). (rebase_onto pointers c, w))
