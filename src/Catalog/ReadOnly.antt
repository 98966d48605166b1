-- ===== src/Catalog/ReadOnly.antt =====
-- The parts of a catalog that its calls leave alone.
use icechest.Base.Dict.{Dict}
use icechest.Base.{String, Option, List, ◌≡◌, refl, true, arith, [], inl, inr, ◌⊎◌}
use icechest.Platform.{Platform}
use icechest.Catalog.{
  IcechunkCatalog, Table, Request, create, commit, load, refused, rebase, serve, rebase_onto,
  create_table, new_metadata, commit_table, write_and_stage,
}

-- `c'` differs from `c` in its staged locations at most.
pub record SameBase (c c' : IcechunkCatalog) : Type 0 where
  pub warehouse : c'.warehouse ≡ c.warehouse
  pub pointers : c'.pointers ≡ c.pointers
  pub properties : c'.properties ≡ c.properties
  pub read_only : c'.read_only ≡ c.read_only

module _ (P : Platform) where
  open P use {World, RawSchema, PartitionSpec, SortOrder, Metadata, Requirement, TableUpdate}

  -- A read-only catalog changes by `rebase_onto` alone, which does not ask: that adopts the pointers
  -- that it is given, drops what is staged, and leaves the rest of the catalog and the world as they
  -- were; every other call leaves the catalog and the world as they were, whether it returns or raises.
  pub serve-read_only :
      (request : Request P) (c : IcechunkCatalog) (w : World)
      → c.read_only ≡ true
      → let (c', w') = (serve P request (c, w)).1 in
        (w' ≡ w)
        × ((c' ≡ c)
            ⊎ ((pointers : Dict String) × (request ≡ rebase pointers)
                × (c' ≡ record c { pointers = pointers; staged = [] })))
  unfolding serve create_table new_metadata commit_table rebase_onto
  serve-read_only (create identifier schema location spec order properties) c w h =
      (ground arith, inl (ground arith))
  serve-read_only (commit table requirements updates) c w h = (ground arith, inl (ground arith))
  serve-read_only (load identifier) c w h = (ground arith, inl (ground arith))
  serve-read_only (refused operation) c w h = (refl, inl refl)
  serve-read_only (rebase pointers) c w h = (refl, inr (pointers, refl, refl))

  pub create_table-SameBase :
      (identifier : String) (schema : RawSchema) (location : Option String) (spec : PartitionSpec)
      (order : SortOrder) (properties : Dict String) (c : IcechunkCatalog) (w : World)
      → SameBase c (create_table P identifier schema location spec order properties (c, w)).1.0
  unfolding create_table new_metadata write_and_stage
  create_table-SameBase identifier schema location spec order properties c w = ground arith

  pub commit_table-SameBase :
      (table : Table Metadata) (requirements : List Requirement) (updates : List TableUpdate)
      (c : IcechunkCatalog) (w : World)
      → SameBase c (commit_table P table requirements updates (c, w)).1.0
  unfolding commit_table write_and_stage
  commit_table-SameBase table requirements updates c w = ground arith
