-- ===== src/Demo/Ingest/Accounts.antt =====
-- What becomes of each row of a batch.
use icechest.Base.{
  String, ◌≡◌, refl, Bool, true, ◌||◌, List, [], ◌∷◌, arith, map, contains_text, distinct,
  distinct-append_one, map-append_one, ◌==◌, eq_refl, all, any-append, inl, inr,
}
use icechest.Base.Dict
use icechest.Base.Dict.{Dict, get-insert}
use icechest.Base.Exec.{Result-cases}
use icechest.Demo.Ingest.{
  GranuleStore, record_skip, joined, staged_already, in_store_already, Batch, skip, clean_up,
  write_one, stage_granule, stage_rows, empty_batch,
}

module _ (G : GranuleStore) where
  open G use {Row, Store, row_id, writer}

  -- The rows to append are those of the committed granules, one for each.
  record OneRowEach (b : Batch G) : Type 0 where
    rows : map (λ (row, _). row_id row) b.keep ≡ b.committed
    once : distinct b.committed ≡ true

  stage_granule-OneRowEach :
      (row : Row) (b : Batch G) → OneRowEach b → OneRowEach (stage_granule G row b)
  unfolding stage_granule write_one skip
  stage_granule-OneRowEach row b h = elim (Result-cases (writer row b.store).0) [
    | inl (path, done) ↦ record {
      rows = ground (arith, h.rows, map-append_one (λ (r, _). row_id r) b.keep (row, path));
      once = ground (arith, h.once, distinct-append_one b.committed (row_id row));
    }
    | inr (e, failed) ↦ record { rows = ground (arith, h.rows); once = ground (arith, h.once) }
  ]

  -- `id` is accounted for: it is committed, or a reason for skipping it is on record.
  abbrev pub is_accounted : Batch G → String → Bool
  is_accounted b id = contains_text b.committed id || Dict.contains id b.skipped

  stage_granule-accounts :
      (row : Row) (id : String) (b : Batch G)
      → ((row_id row == id) || is_accounted b id) ≡ true
      → is_accounted (stage_granule G row b) id ≡ true
  unfolding stage_granule write_one skip record_skip
  stage_granule-accounts row id b h = elim (Result-cases (writer row b.store).0) [
    | inl (path, done) ↦ ground (
      arith,
      any-append (λ n. n == id) b.committed (row_id row ∷ []),
      get-insert id (row_id row) (joined (Dict.get (row_id row) b.skipped) staged_already)
          b.skipped,
      get-insert id (row_id row)
          (joined (Dict.get (row_id row) b.skipped) (in_store_already (row_id row))) b.skipped,
    )
    | inr (e, failed) ↦
        let reason = (clean_up G (row_id row) e (writer row b.store).1).0 in
        ground (
          arith,
          get-insert id (row_id row) (joined (Dict.get (row_id row) b.skipped) staged_already)
              b.skipped,
          get-insert id (row_id row)
              (joined (Dict.get (row_id row) b.skipped) (in_store_already (row_id row))) b.skipped,
          get-insert id (row_id row) (joined (Dict.get (row_id row) b.skipped) reason) b.skipped,
        )
  ]

  stage_rows-OneRowEach :
      (rows : List Row) (b : Batch G) → OneRowEach b → OneRowEach (stage_rows G rows b)
  unfolding stage_rows
  stage_rows-OneRowEach [] b h = h
  stage_rows-OneRowEach (row ∷ rows) b h =
      stage_rows-OneRowEach rows (stage_granule G row b) (stage_granule-OneRowEach row b h)

  stage_rows-keeps_account :
      (rows : List Row) (id : String) (b : Batch G)
      → is_accounted b id ≡ true
      → is_accounted (stage_rows G rows b) id ≡ true
  unfolding stage_rows
  stage_rows-keeps_account [] id b h = h
  stage_rows-keeps_account (row ∷ rows) id b h =
      stage_rows-keeps_account rows id (stage_granule G row b)
        (stage_granule-accounts row id b (ground arith))

  stage_rows-accounts_all :
      (rows : List Row) (b : Batch G)
      → all (λ row. is_accounted (stage_rows G rows b) (row_id row)) rows ≡ true
  unfolding stage_rows
  stage_rows-accounts_all [] b = refl
  stage_rows-accounts_all (row ∷ rows) b =
      let b' = stage_granule G row b in
      let head =
        stage_rows-keeps_account rows (row_id row) b'
          (stage_granule-accounts row (row_id row) b (ground (arith, eq_refl (row_id row)))) in
      rw (head, stage_rows-accounts_all rows b') refl

  -- After the loop each row of the batch is accounted for, as committed or with a reason for which
  -- it was skipped; and the rows to append are those of the committed granules, in the order in
  -- which they were staged, one row for each.
  pub stage_rows-accounts :
      (rows : List Row) (store : Store)
      → let b = stage_rows G rows (empty_batch G store) in
        (all (λ row. is_accounted b (row_id row)) rows ≡ true)
        × (map (λ (row, _). row_id row) b.keep ≡ b.committed)
        × (distinct b.committed ≡ true)
  unfolding distinct
  stage_rows-accounts rows store =
      let h =
        stage_rows-OneRowEach rows (empty_batch G store) (record { rows = refl; once = refl }) in
      (stage_rows-accounts_all rows (empty_batch G store), h.rows, h.once)
