-- ===== src/Demo/Ingest.antt =====
-- demo/ingest.py: the loop of `ingest_batch` over the rows of a batch, which stages the arrays of
-- each granule in the transaction's session or says why it did not.
pub mod Kept
pub mod Staged
pub mod Accounts
pub mod Publishing
use icechest.Base.{
  String, ◌<>◌, Bool, Option, none, some, List, [], ◌∷◌, ◌++◌, if◌then◌else◌, is_some,
  is_empty_text, contains_text,
}
use icechest.Base.Dict
use icechest.Base.Dict.{Dict}
use icechest.Base.Exec.{Result, ok, err}

-- What the loop calls: the rows of PyArrow, the session's store, and the writer of a granule's
-- arrays. Exceptions are their texts.
pub record GranuleStore : Type 1 where
  pub Row : Type 0
  pub Store : Type 0
  pub Node : Type 0
  -- `row["id"]`
  pub row_id : Row → String
  -- the node that `zarr.open(store=store, path=..., mode="r")` finds, if there is one
  pub node : String → Store → Option Node
  -- `writer(tx, row, ...)`, which gives the path of the arrays
  pub writer : Row → Store → Result String String × Store
  -- `sync(store.delete_dir(...))`
  pub delete_dir : String → Store → Result String (Unit {0}) × Store

-- The reason on record, and a later one.
joined : Option String → String → String
joined none reason = reason
joined (some previous) reason =
    if is_empty_text previous then reason else previous <> "; " <> reason

-- `_record_skip`
unfoldable pub record_skip : Dict String → String → String → Dict String
unfolding joined
record_skip skipped granule_id reason =
    Dict.insert granule_id (joined (Dict.get granule_id skipped) reason) skipped

-- The texts of the loop's own reasons.
abbrev pub staged_already : String
staged_already =
    "already staged earlier in this batch; the first occurrence's arrays are the ones published"

abbrev pub in_store_already : String → String
in_store_already granule_id =
    "/" <> granule_id
    <> " is already in the store; this demo appends only, so an existing granule is left exactly as it was published"

module _ (G : GranuleStore) where
  open G use {Row, Store, row_id, node, writer, delete_dir}

  -- The variables of the loop.
  pub record Batch : Type 0 where
    pub store : Store
    pub committed : List String
    pub skipped : Dict String
    -- the rows to append, each with its `array_path`
    pub keep : List (Row × String)

  -- `_granule_exists`
  unfoldable pub granule_exists : Store → String → Bool
  granule_exists store granule_id = is_some (node granule_id store)

  skip : String → String → Batch → Batch
  skip granule_id reason b = record b { skipped = record_skip b.skipped granule_id reason }

  -- What follows a failed write: the reason to record, and the store after the clean-up.
  unfoldable pub clean_up : String → String → Store → String × Store
  unfolding granule_exists
  clean_up granule_id reason store =
      if granule_exists store granule_id
      then (let (r, store') = delete_dir granule_id store in
          elim r [
            | ok _ ↦ (reason, store')
            | err e ↦ (reason <> " (cleanup also failed: " <> e <> ")", store')
          ])
      else (reason, store)

  -- The `try` around the writer, and what follows it.
  unfoldable pub write_one : Row → Batch → Batch
  unfolding skip clean_up
  write_one row b =
      let (r, store) = writer row b.store in
      elim r [
        | ok array_path ↦ record b {
          store = store;
          committed = b.committed ++ row_id row ∷ [];
          keep = b.keep ++ (row, array_path) ∷ [];
        }
        | err e ↦
            let (reason, store') = clean_up (row_id row) e store in
            skip (row_id row) reason (record b { store = store' })
      ]

  -- One turn of the loop.
  unfoldable pub stage_granule : Row → Batch → Batch
  unfolding skip granule_exists
  stage_granule row b =
      if contains_text b.committed (row_id row)
      then skip (row_id row) staged_already b
      else if granule_exists b.store (row_id row)
      then skip (row_id row) (in_store_already (row_id row)) b
      else write_one row b

  unfoldable pub stage_rows : List Row → Batch → Batch
  stage_rows [] b = b
  stage_rows (row ∷ rows) b = stage_rows rows (stage_granule row b)

  -- The batch before the loop.
  abbrev pub empty_batch : Store → Batch
  empty_batch store = record { store = store; committed = []; skipped = []; keep = [] }
