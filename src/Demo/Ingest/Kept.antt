-- ===== src/Demo/Ingest/Kept.antt =====
-- What the writer of a granule and its clean-up keep of the store, the loop of `ingest_batch` keeps.
use icechest.Base.{String, List, [], ◌∷◌, arith}
use icechest.Demo.Ingest.{
  GranuleStore, Batch, granule_exists, skip, clean_up, write_one, stage_granule, stage_rows,
}

module _ (G : GranuleStore) where
  open G use {Row, Store, row_id, writer, delete_dir}

  module _ {Holds : Store → Type 0}
      (at_write : (row : Row) (s : Store) → Holds s → Holds (writer row s).1)
      (at_delete : (id : String) (s : Store) → Holds s → Holds (delete_dir id s).1) where
    stage_granule-keeps :
        (row : Row) (b : Batch G) → Holds b.store → Holds (stage_granule G row b).store
    unfolding stage_granule write_one clean_up skip granule_exists
    stage_granule-keeps row b h =
        let written = at_write row b.store h in
        ground (arith, written, at_delete (row_id row) (writer row b.store).1 written)

    pub stage_rows-keeps :
        (rows : List Row) (b : Batch G) → Holds b.store → Holds (stage_rows G rows b).store
    unfolding stage_rows
    stage_rows-keeps [] b h = h
    stage_rows-keeps (row ∷ rows) b h =
        stage_rows-keeps rows (stage_granule G row b) (stage_granule-keeps row b h)
