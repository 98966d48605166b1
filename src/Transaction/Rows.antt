-- ===== src/Transaction/Rows.antt =====
-- The rows of a table along a transaction's intents: what its appends add to the version that its
-- catalog resolves the table to.
pub mod Growing
pub mod Published
use icechest.Base.{
  ℕ, ◌+◌, String, ◌≡◌, refl, Bool, true, false, not, ◌&&◌, Option, none, some, List, [], ◌∷◌, ◌==◌,
  if◌then◌else◌, arith, inl, inr, Bool-cases, eq_iff, contains_text, map,
}
use icechest.Base.Dict
use icechest.Base.Dict.{Dict}
use icechest.Base.Exec.{Result, ok, err, Result-cases}
use icechest.Catalog.{
  IcechunkCatalog, Table, current_pointers, load_table, commit_table, base_metadata, resolve,
  read_in,
}
use icechest.Catalog.Resolution.{get-current_pointers}
use icechest.Catalog.Staging.{load_table-commit_table}
use icechest.Errors.{Error}
use icechest.Intent.{
  TableIntent, create, append_rows, delete_rows, overwrite_rows, apply, load_and_change,
  change_loaded, change_table, finish_change,
}
use icechest.Platform.{Platform}
use icechest.Platform.Laws.{ReadsBack, KeepsFiles, IsCount}
use icechest.Transaction.Commit.{apply_all}
use icechest.Transaction.Frame.{staged_name, Touches, apply-Touches}
use icechest.Transaction.Quiet.{apply-Holds}

module _ (P : Platform) where
  open P use {
    World, FileIO, Metadata, Rows, Requirement, TableUpdate, Expression, table_name_from,
    load_file_io, read_metadata, append_changes,
  }

  -- The table `j` is at the version `metadata`, by a pointer map.
  pub record IsAt (io : FileIO) (j : String) (pointers : Dict String) (metadata : Metadata)
      (w : World) : Type 0 where
    pub location : String
    pub there : Dict.get j pointers ≡ some location
    pub read : read_metadata io location w ≡ ok metadata

  pub IsAt-along :
      {io io' : FileIO} {j : String} {pointers pointers' : Dict String} {metadata : Metadata}
      {w w' : World}
      → io ≡ io'
      → Dict.get j pointers ≡ Dict.get j pointers'
      → w ≡ w'
      → IsAt io j pointers metadata w
      → IsAt io' j pointers' metadata w'
  IsAt-along same_io same_pointer same_world here = record {
    location = here.location;
    there = ground (arith, here.there);
    read = ground (arith, here.read);
  }

  -- No intent but appends is about the table `j`.
  abbrev pub only_appends : String → List (TableIntent P) → Bool
  only_appends j [] = true
  only_appends j (append_rows name rows ∷ rest) = only_appends j rest
  only_appends j (create name schema location properties spec order ∷ rest) =
      not (table_name_from name == j) && only_appends j rest
  only_appends j (delete_rows name predicate ∷ rest) =
      not (table_name_from name == j) && only_appends j rest
  only_appends j (overwrite_rows name rows predicate ∷ rest) =
      not (table_name_from name == j) && only_appends j rest

  -- What the appends to the table `j` count.
  abbrev pub given_to : (Rows → ℕ) → String → List (TableIntent P) → ℕ
  given_to given j [] = 0
  given_to given j (append_rows name rows ∷ rest) =
      if table_name_from name == j
      then given rows + given_to given j rest
      else given_to given j rest
  given_to given j (intent ∷ rest) = given_to given j rest

  -- What a table that loads says of the catalog and of storage, and back.
  loaded_parts :
      (name : String) {table : Table Metadata} (c : IcechunkCatalog) (w : World)
      → load_table P name c w ≡ ok table
      → (table.name ≡ table_name_from name)
        × (Dict.get (table_name_from name) (current_pointers c) ≡ some table.metadata_location)
        × (read_metadata (load_file_io c.properties) table.metadata_location w ≡ ok table.metadata)
  unfolding load_table resolve read_in
  loaded_parts name c w loaded = ground arith

  pub IsAt-of_load :
      (name : String) {table : Table Metadata} (c : IcechunkCatalog) (w : World)
      → load_table P name c w ≡ ok table
      → IsAt
          (load_file_io c.properties)
          (table_name_from name)
          (current_pointers c)
          table.metadata
          w
  IsAt-of_load name {table} c w loaded =
      let (_, there, read) = loaded_parts name c w loaded in
      record { location = table.metadata_location; there = there; read = read }

  pub load-of_IsAt :
      (name : String) {metadata : Metadata} (c : IcechunkCatalog) (w : World)
      → IsAt (load_file_io c.properties) (table_name_from name) (current_pointers c) metadata w
      → (table : Table Metadata) × (load_table P name c w ≡ ok table) × (table.metadata ≡ metadata)
  unfolding load_table resolve read_in
  load-of_IsAt name {metadata} c w here = (
    record { name = table_name_from name; metadata = metadata; metadata_location = here.location },
    ground (arith, here.there, here.read),
    refl,
  )

  -- An intent about another table leaves the entry of `j`.
  pub apply_other :
      (intent : TableIntent P) (j : String) (c : IcechunkCatalog) (w : World)
      → (staged_name P intent == j) ≡ false
      → Dict.get j (current_pointers (apply P intent (c, w)).1.0) ≡ Dict.get j (current_pointers c)
  apply_other intent j c w ne =
      let c' = (apply P intent (c, w)).1.0 in
      let touched = apply-Touches P intent c w in
      ground (
        arith,
        get-current_pointers j c,
        get-current_pointers j c',
        touched.others j ne,
        touched.base.pointers,
      )

  module _ (stored : ReadsBack P) (files : KeepsFiles P) {count : Metadata → ℕ} {given : Rows → ℕ}
      (counts : IsCount P count given) where
    append_keeps_read :
        (name : String) (rows : Rows) {table : Table Metadata} (c : IcechunkCatalog) (w : World)
        → load_table P name c w ≡ ok table
        → let io = load_file_io c.properties in
          let w' = (append_changes io table.metadata rows w).1 in
          read_metadata io table.metadata_location w' ≡ ok table.metadata
    append_keeps_read name rows {table} c w loaded =
        let io = load_file_io c.properties in
        (files.quiet io table.metadata_location table.metadata).at_append io table.metadata rows w
          (loaded_parts name c w loaded).2

    -- The version that `commit_table` builds on is the one that was loaded.
    appended_base :
        (name : String) (rows : Rows) {table : Table Metadata} (c : IcechunkCatalog) (w : World)
        → load_table P name c w ≡ ok table
        → let w' = (append_changes (load_file_io c.properties) table.metadata rows w).1 in
          base_metadata P table (Dict.get table.name (current_pointers c)) c w' ≡ ok table.metadata
    unfolding load_table resolve read_in base_metadata
    appended_base name rows {table} c w loaded =
        ground (arith, append_keeps_read name rows {table = table} c w loaded)

    finish-appends :
        (name : String) (rows : Rows) {table : Table Metadata} (c : IcechunkCatalog) (w w' : World)
        (changes : Result (Error Expression) (Option (List Requirement × List TableUpdate)))
        → append_changes (load_file_io c.properties) table.metadata rows w ≡ (changes, w')
        → load_table P name c w ≡ ok table
        → (finish_change P table (changes, w') c).0 ≡ ok tt
        → let s = (finish_change P table (changes, w') c).1 in
          (after : Table Metadata) × (load_table P name s.0 s.1 ≡ ok after)
          × (count after.metadata ≡ count table.metadata + given rows)
    unfolding finish_change load_table resolve read_in
    finish-appends name rows {table} c w w' (ok none) called loaded done = (
      table,
      ground (
        arith,
        loaded_parts name c w loaded,
        append_keeps_read name rows {table = table} c w loaded,
      ),
      omega (arith, counts.nothing _ table.metadata rows w w' called),
    )
    finish-appends name rows {table} c w w' (ok (some (requirements, updates))) called loaded done =
        elim (Result-cases (commit_table P table requirements updates (c, w')).0) [
          | inl ((metadata, location), committed) ↦
              let s = (commit_table P table requirements updates (c, w')).1 in
              let (base, found, _, updated, loads) =
                load_table-commit_table P stored name table requirements updates
                  {metadata = metadata} {location = location} c s.0 w' s.1
                  (unfold load_table in ground arith) (cc) in
              let same : base ≡ table.metadata =
                ground (arith, appended_base name rows {table = table} c w loaded) in
              (
                record { name = table.name; metadata = metadata; metadata_location = location },
                ground (arith, loads),
                counts.appended _ table.metadata metadata rows w w' requirements updates
                    (Dict.get table.name (current_pointers c)) called (rw (← same) updated),
              )
          | inr (e, failed) ↦ ground arith
        ]
    finish-appends name rows c w w' (err e) called loaded done = cc

    -- An append that goes through adds its rows to the version that it finds.
    pub apply-appends :
        (name : String) (rows : Rows) (c : IcechunkCatalog) (w : World)
        → (apply P (append_rows name rows) (c, w)).0 ≡ ok tt
        → let s = (apply P (append_rows name rows) (c, w)).1 in
          (before : Table Metadata) × (after : Table Metadata) × (load_table P name c w ≡ ok before)
          × (load_table P name s.0 s.1 ≡ ok after)
          × (count after.metadata ≡ count before.metadata + given rows)
    unfolding apply load_and_change change_loaded change_table
    apply-appends name rows c w done = elim (Result-cases (load_table P name c w)) [
      | inl (before, loaded) ↦
          let (changes, w') = append_changes (load_file_io c.properties) before.metadata rows w in
          let (after, loads, counted) =
            finish-appends name rows {table = before} c w w' changes refl loaded
              (ground (arith, loaded)) in
          (before, after, loaded, ground (arith, loaded, loads), counted)
      | inr (e, failed) ↦ ground (arith, failed)
    ]
