-- ===== src/Transaction/Quiet.antt =====
-- What the calls of the table layer keep, a round's intents keep as a whole.
use icechest.Base.{ℕ, String, ◌≡◌, Option, List, [], ◌∷◌, arith, inl, inr}
use icechest.Base.Dict.{Dict}
use icechest.Base.Exec.{Result-cases}
use icechest.Catalog.{
  IcechunkCatalog, Table, create_table, new_metadata, commit_table, write_and_stage, location_text,
  load_table,
}
use icechest.Intent.{
  TableIntent, create, append_rows, delete_rows, overwrite_rows, apply, load_and_change,
  change_loaded, change_table, finish_change, Changes,
}
use icechest.Platform.{Platform}
use icechest.Platform.Laws.{IsQuiet}
use icechest.Transaction.Commit.{apply_all}

module _ (P : Platform) {Holds : P.World → Type 0} (quiet : IsQuiet P Holds) where
  open P use {
    World, RawSchema, Schema, PartitionSpec, SortOrder, Metadata, Requirement, TableUpdate,
    Expression, table_name_from, uuid4, write_metadata, convert_schema, new_table_metadata,
    load_file_io,
  }

  write_and_stage-Holds :
      (name : String) (version : ℕ) (metadata : Metadata) (c : IcechunkCatalog) (w : World)
      → Holds w
      → Holds (write_and_stage P name version metadata (c, w)).1.1
  unfolding write_and_stage
  write_and_stage-Holds name version metadata c w h =
      let (token, w₁) = uuid4 w in
      let io = load_file_io c.properties in
      let location = location_text c.warehouse name version token in
      let same : (write_and_stage P name version metadata (c, w)).1.1
          ≡ (write_metadata io metadata location w₁).1 =
        ground arith in
      rw same (quiet.at_write_metadata io metadata location w₁ (quiet.at_uuid4 w h))

  new_metadata-Holds :
      (name : String) (schema : RawSchema) (location : Option String) (spec : PartitionSpec)
      (order : SortOrder) (properties : Dict String) (c : IcechunkCatalog) (w : World)
      → Holds w
      → Holds (new_metadata P name schema location spec order properties (c, w)).1.1
  unfolding new_metadata
  new_metadata-Holds name schema location spec order properties c w h =
      grind (arith, quiet.at_new_table_metadata)

  commit_table-Holds :
      (table : Table Metadata) (requirements : List Requirement) (updates : List TableUpdate)
      (c : IcechunkCatalog) (w : World)
      → Holds w
      → Holds (commit_table P table requirements updates (c, w)).1.1
  unfolding commit_table
  commit_table-Holds table requirements updates c w h = grind (arith, write_and_stage-Holds)

  create_table-Holds :
      (identifier : String) (schema : RawSchema) (location : Option String) (spec : PartitionSpec)
      (order : SortOrder) (properties : Dict String) (c : IcechunkCatalog) (w : World)
      → Holds w
      → Holds (create_table P identifier schema location spec order properties (c, w)).1.1
  unfolding create_table
  create_table-Holds identifier schema location spec order properties c w h =
      let name = table_name_from identifier in
      let (r, s) = new_metadata P name schema location spec order properties (c, w) in
      let h₁ = new_metadata-Holds name schema location spec order properties c w h in
      elim (Result-cases r) [
        | inl (metadata, made) ↦
            ground (arith, h₁, write_and_stage-Holds name 0 metadata s.0 s.1 h₁)
        | inr (e, failed) ↦ ground (arith, h₁)
      ]

  load_and_change-Holds :
      (name : String) (changes : Metadata → Changes P) (c : IcechunkCatalog) (w : World)
      → ((metadata : Metadata) → Holds (changes metadata w).1)
      → Holds w
      → Holds (load_and_change P name changes (c, w)).1.1
  unfolding load_and_change change_loaded change_table finish_change
  load_and_change-Holds name changes c w kept h = elim (Result-cases (load_table P name c w)) [
    | inl (table, loaded) ↦ grind (arith, commit_table-Holds, kept table.metadata)
    | inr (e, failed) ↦ ground arith
  ]

  pub apply-Holds :
      (intent : TableIntent P) (c : IcechunkCatalog) (w : World)
      → Holds w
      → Holds (apply P intent (c, w)).1.1
  unfolding apply
  apply-Holds (create name schema location properties spec order) c w h =
      grind (arith, create_table-Holds)
  apply-Holds (append_rows name rows) c w h =
      load_and_change-Holds name _ c w (λ metadata. quiet.at_append _ metadata rows w h) h
  apply-Holds (delete_rows name predicate) c w h =
      load_and_change-Holds name _ c w (λ metadata. quiet.at_delete _ metadata predicate w h) h
  apply-Holds (overwrite_rows name rows predicate) c w h =
      load_and_change-Holds name _ c w
        (λ metadata. quiet.at_overwrite _ metadata rows predicate w h) h

  -- A round's intents keep what the table layer keeps.
  pub apply_all-Holds :
      (intents : List (TableIntent P)) (c : IcechunkCatalog) (w : World)
      → Holds w
      → Holds (apply_all P intents (c, w)).1.1
  unfolding apply_all
  apply_all-Holds [] c w h = h
  apply_all-Holds (intent ∷ rest) c w h =
      let s = apply P intent (c, w) in
      ground (arith, apply-Holds intent c w h, apply_all-Holds rest s.1.0 s.1.1)
