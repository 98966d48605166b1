-- ===== src/Intent.antt =====
-- The table intents of transaction.py: what each applies, and what it checks before a replay.
pub mod Removal
use icechest.Base.{
  ℕ, String, Bool, true, false, Option, none, some, List, [], ◌∷◌, if◌then◌else◌, is_empty,
}
use icechest.Base.Dict
use icechest.Base.Dict.{Dict}
use icechest.Base.Exec.{Result, ok, err, pure, reads, lift, ◌>>=◌, ◌>>◌, ◌>>=ᵣ◌}
use icechest.Catalog.{
  IcechunkCatalog, Table, CatalogExec, create_table, commit_table, load_table, table_exists,
}
use icechest.Errors.{Error, Predicate, table_conflict}
use icechest.Platform.{Platform}
use icechest.Validation.{conflicting_adds}

module _ (P : Platform) where
  open P use {
    World, RawSchema, PartitionSpec, SortOrder, Rows, Metadata, Requirement, TableUpdate,
    Expression, load_file_io, current_snapshot_id, append_changes, delete_changes,
    overwrite_changes,
  }

  pub data TableIntent : Type 0 where
    create : String → RawSchema → String → Dict String → PartitionSpec → SortOrder → TableIntent
    append_rows : String → Rows → TableIntent
    delete_rows : String → Predicate Expression → TableIntent
    overwrite_rows : String → Rows → Predicate Expression → TableIntent

  abbrev pub intent_name : TableIntent → String
  intent_name (create name _ _ _ _ _) = name
  intent_name (append_rows name _) = name
  intent_name (delete_rows name _) = name
  intent_name (overwrite_rows name _ _) = name

  abbrev pub Changes : Type 0
  Changes = World → Result (Error Expression) (Option (List Requirement × List TableUpdate)) × World

  -- The call back into `commit_table`, if the operation has something to commit.
  unfoldable pub finish_change :
      Table Metadata
      → Result (Error Expression) (Option (List Requirement × List TableUpdate)) × World
      → IcechunkCatalog
      → Result (Error Expression) (Unit {0}) × (IcechunkCatalog × World)
  finish_change table (err e, w) c = (err e, (c, w))
  finish_change table (ok none, w) c = (ok tt, (c, w))
  finish_change table (ok (some (requirements, updates)), w) c =
      (commit_table P table requirements updates >> pure tt) (c, w)

  -- PyIceberg's side of a table operation.
  unfoldable pub change_table : Table Metadata → Changes → CatalogExec P (Unit {0})
  change_table table changes (c, w) = finish_change table (changes w) c

  unfoldable pub change_loaded :
      Result (Error Expression) (Table Metadata) → (Metadata → Changes) → CatalogExec P (Unit {0})
  change_loaded (err e) changes (c, w) = (err e, (c, w))
  change_loaded (ok table) changes (c, w) = change_table table (changes table.metadata) (c, w)

  -- `catalog.load_table(self.name)`, and the operation on what it gives.
  unfoldable pub load_and_change : String → (Metadata → Changes) → CatalogExec P (Unit {0})
  load_and_change name changes (c, w) = change_loaded (load_table P name c w) changes (c, w)

  unfoldable pub apply : TableIntent → CatalogExec P (Unit {0})
  apply (create name schema location properties spec order) (c, w) =
      if table_exists P name c
      then (ok tt, (c, w))
      else (create_table P name schema (some location) spec order properties >> pure tt) (c, w)
  apply (append_rows name rows) (c, w) =
      load_and_change name (λ metadata. append_changes (load_file_io c.properties) metadata rows)
        (c, w)
  apply (delete_rows name predicate) (c, w) =
      load_and_change name
        (λ metadata. delete_changes (load_file_io c.properties) metadata predicate) (c, w)
  apply (overwrite_rows name rows predicate) (c, w) =
      load_and_change name
        (λ metadata. overwrite_changes (load_file_io c.properties) metadata rows predicate) (c, w)

  -- The end of `_validate_removal`: refuse if there are ids.
  unfoldable pub refuse_if_any :
      String → Predicate Expression → List ℕ → Result (Error Expression) (Unit {0})
  refuse_if_any name predicate ids =
      if is_empty ids then ok tt else err (table_conflict name predicate ids)

  -- `_validate_removal`, on the winner's table.
  unfoldable pub validate_table :
      String
      → Predicate Expression
      → Option ℕ
      → Metadata
      → IcechunkCatalog
      → World
      → Result (Error Expression) (Unit {0})
  unfolding refuse_if_any
  validate_table name predicate base metadata c w = elim (current_snapshot_id metadata) [
    | none ↦ ok tt
    | some tip ↦ elim base [
      | none ↦ err (table_conflict name predicate (tip ∷ []))
      | some base_id ↦
          conflicting_adds P metadata base_id tip predicate c w >>=ᵣ refuse_if_any name predicate
    ]
  ]

  unfoldable pub validate_removal :
      String
      → Predicate Expression
      → Option ℕ
      → IcechunkCatalog
      → World
      → Result (Error Expression) (Unit {0})
  unfolding validate_table
  validate_removal name predicate base c w =
      if table_exists P name c
      then (load_table P name c w >>=ᵣ λ table.
          validate_table name predicate base table.metadata c w)
      else ok tt

  -- `intent.validate(catalog, base_snapshot_id)`
  unfoldable pub validate :
      TableIntent → Option ℕ → IcechunkCatalog → World → Result (Error Expression) (Unit {0})
  validate (create _ _ _ _ _ _) base c w = ok tt
  validate (append_rows _ _) base c w = ok tt
  validate (delete_rows name predicate) base c w = validate_removal name predicate base c w
  validate (overwrite_rows name _ predicate) base c w = validate_removal name predicate base c w
