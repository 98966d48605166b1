-- ===== src/Demo/Store.antt =====
-- demo/store.py: the store of the demo, opened, and the table of granules in it.
pub mod Creation
pub mod Ensured
use icechest.Base.{
  ℕ, String, ◌<>◌, Bool, true, false, Option, none, some, [], ◌∷◌, ◌++◌, List, ◌==◌, if◌then◌else◌,
  ltb, text_or,
}
use icechest.Base.Dict
use icechest.Base.Dict.{Dict}
use icechest.Base.Exec.{Result, ok, err, Exec, pure, lift, reads, ◌>>=◌, ◌>>=ᵣ◌}
use icechest.Demo.Credentials.{
  Earthdata, CredentialError, external, VirtualChunkContainer, virtual_chunk_container,
  container_credentials, earthdata_token, CredentialExec,
}
use icechest.Demo.Hash.{hash_column, hash_block_column}
use icechest.Errors.{Error}
use icechest.Platform.{Platform}
use icechest.Repo.{read, pointers}
use icechest.Transaction.{
  default_max_retries, HybridRepo, Transaction, TransactionExec, hybrid_repo, begin, create_table,
  leave,
}

abbrev pub array_path_field_id : ℕ
array_path_field_id = 1000

abbrev pub stac_hash_field_id : ℕ
stac_hash_field_id = 1001

abbrev pub stac_hash_block_field_id : ℕ
stac_hash_block_field_id = 1002

abbrev pub partition_field_id : ℕ
partition_field_id = 1100

-- PyIceberg's schemas, specs and sort orders, as far as the demo makes and reads them.
pub record Schemas (P : Platform) : Type 1 where
  pub Source : Type 0
  pub Field : Type 0
  pub FieldType : Type 0
  pub string_type : FieldType
  pub long_type : FieldType
  -- `NestedField(field_id=..., name=..., field_type=..., required=False)`
  pub nested_field : ℕ → String → FieldType → Field
  pub fields : Source → List Field
  pub highest_field_id : Source → ℕ
  -- `Schema(*fields)`
  pub schema : List Field → P.RawSchema
  -- `SortOrder(SortField(source_id=..., transform=IdentityTransform()))`
  pub sort_order : ℕ → P.SortOrder
  -- `PartitionSpec(PartitionField(source_id=..., field_id=..., transform=IdentityTransform(), name=...))`
  pub partition_spec : ℕ → ℕ → String → P.PartitionSpec

pub data StoreError (Expression : Type 0) : Type 0 where
  field_id_collides : ℕ → StoreError Expression
  transaction_failed : Error Expression → StoreError Expression

abbrev pub transaction_result : {X A : Type 0} → Result (Error X) A → Result (StoreError X) A
transaction_result (ok a) = ok a
transaction_result (err e) = err (transaction_failed e)

module _ (P : Platform) (I : Schemas P) where
  open P use {World, RawSchema, PartitionSpec, SortOrder, Expression}
  open I use {
    Source, Field, string_type, long_type, nested_field, fields, highest_field_id, schema,
    sort_order, partition_spec,
  }

  -- The fields that the demo adds.
  unfoldable pub added_fields : List Field
  added_fields =
      nested_field array_path_field_id "array_path" string_type
      ∷ nested_field stac_hash_field_id hash_column long_type
      ∷ nested_field stac_hash_block_field_id hash_block_column long_type
      ∷ []

  -- The fields of `granules_schema`.
  unfoldable pub granules_fields : Source → Result (StoreError Expression) (List Field)
  granules_fields source =
      if ltb (highest_field_id source) array_path_field_id
      then ok (fields source ++ added_fields)
      else err (field_id_collides (highest_field_id source))

  unfoldable pub granules_schema : Source → Result (StoreError Expression) RawSchema
  granules_schema source = granules_fields source >>=ᵣ λ all_fields. ok (schema all_fields)

  unfoldable pub granules_sort_order : SortOrder
  granules_sort_order = sort_order stac_hash_field_id

  unfoldable pub granules_partition_spec : PartitionSpec
  granules_partition_spec =
      partition_spec stac_hash_block_field_id partition_field_id hash_block_column

  -- The block of `ensure_table`'s `with`: the schema first, then the table.
  unfoldable pub create_granules :
      Source → String → Exec (Transaction P × World) (StoreError Expression) (Unit {0})
  create_granules source name s = elim (granules_schema source) [
    | err e ↦ (err e, s)
    | ok made ↦
        let (r, s') =
          create_table P name made none [] granules_partition_spec granules_sort_order s in
        (transaction_result r, s')
  ]

  -- The `with` statement around it.
  unfoldable pub create_within :
      Source → String → Transaction P × World → Result (StoreError Expression) (Unit {0}) × World
  create_within source name s =
      let (r, s₁) = create_granules source name s in
      elim r [
        | err e ↦ (err e, (leave P true s₁).1.1)
        | ok _ ↦ let (left, s₂) = leave P false s₁ in (transaction_result left, s₂.1)
      ]

  unfoldable pub ensure_table :
      HybridRepo → Source → String → World → Result (StoreError Expression) (Unit {0}) × World
  ensure_table repo source name w =
      elim (read P repo (some "main") none none w >>=ᵣ λ tip. pointers P tip w) [
        | err e ↦ (err (transaction_failed e), w)
        | ok found ↦
            if Dict.contains name found
            then (ok tt, w)
            else elim (begin P repo "main" ("create " <> (name <> " table")) default_max_retries
                none w) [
                  | err e ↦ (err (transaction_failed e), w)
                  | ok tx ↦ create_within source name (tx, w)
                ]
      ]

-- Icechunk's repositories on the local file system, and `pathlib`.
pub record LocalStores (E : Earthdata) : Type 1 where
  pub Disk : Type 0
  -- `str(Path(path) / name)`
  pub join_path : String → String → String
  -- `Repository.open_or_create(local_filesystem_storage(path), config=...,
  -- authorize_virtual_chunk_access=...)`, of a configuration with one container
  pub open_or_create :
      String
      → VirtualChunkContainer E
      → Dict (Option E.Credentials)
      → Disk
      → Result String (Unit {0}) × Disk

module _ (E : Earthdata) (L : LocalStores E) where
  open E use {World}
  open L use {Disk, join_path, open_or_create}

  -- `token`, or that of a login, where the access needs one and none is given
  unfoldable pub token_for : String → Option String → CredentialExec E (Option String)
  token_for access none s =
      if access == "https"
      then (let (r, s') = earthdata_token E s in (r >>=ᵣ λ t. ok (some t), s'))
      else (ok none, s)
  token_for access (some token) s = (ok (some token), s)

  -- `Repository.open_or_create(...)`, and the handle on what it opened
  unfoldable pub open_with :
      String
      → Option String
      → VirtualChunkContainer E
      → Dict (Option E.Credentials)
      → Disk
      → Result CredentialError HybridRepo × Disk
  open_with path warehouse container credentials disk =
      let (r, disk') = open_or_create (join_path path "icechunk") container credentials disk in
      elim r [
        | err e ↦ (err (external e), disk')
        | ok _ ↦ (ok (hybrid_repo (text_or warehouse (join_path path "warehouse")) []), disk')
      ]

  -- `open_store`, on the disk and the state of the credentials
  unfoldable pub open_store :
      String
      → Option String
      → String
      → Option String
      → Exec (Disk × (Option String × World)) CredentialError HybridRepo
  open_store path warehouse access token (disk, s) =
      let (r, s') = token_for access token s in
      elim (r >>=ᵣ λ t. virtual_chunk_container E access t) [
        | err e ↦ (err e, (disk, s'))
        | ok container ↦
            let (opened, disk') =
              open_with path warehouse container (container_credentials E access) disk in
            (opened, (disk', s'))
      ]
