-- ===== src/Demo/Ingest/Publishing.antt =====
-- demo/ingest.py: `ingest_batch` as a whole, from the hash to the commit.
pub mod Outcome
pub mod Together
pub mod Growth
pub mod Steps
pub mod Tip
use icechest.Base.{
  ℕ, String, ◌<>◌, Bool, Option, none, some, List, [], ◌∷◌, if◌then◌else◌, is_empty, length,
  decimal, text_or,
}
use icechest.Base.Dict.{Dict}
use icechest.Base.Exec.{Result, ok, err, Exec, ◌>>=◌, ◌>>◌, ◌>>=ᵣ◌}
use icechest.Demo.Hash.{Hashing, HashedRow, HashError, with_stac_hash, partition_bits}
use icechest.Demo.Ingest.{GranuleStore, Batch, stage_rows, empty_batch}
use icechest.Errors.{Error}
use icechest.Platform.{Platform}
use icechest.Repo.{read, table}
use icechest.Transaction.{
  default_max_retries, HybridRepo, Transaction, HybridTransaction, TransactionExec, begin,
  with_session, append, commit,
}

-- The rest of what a batch is made of: the session's nodes and the writer of a granule's arrays, and
-- PyArrow's conversions.
pub record BatchTools (P : Platform) (H : Hashing) : Type 1 where
  pub Node : Type 0
  pub ArrowSchema : Type 0
  pub row_id : HashedRow H → String
  pub node : String → P.Session → Option Node
  pub writer : HashedRow H → P.Session → Result String String × P.Session
  pub delete_dir : String → P.Session → Result String (Unit {0}) × P.Session
  -- `table.schema().as_arrow()`
  pub as_arrow : P.Metadata → ArrowSchema
  -- `pa.Table.from_pylist(keep, schema=schema).sort_by([("stac_hash", "ascending")])`
  pub sorted_table : List (HashedRow H × String) → ArrowSchema → Result String P.Rows

pub data IngestError (Expression : Type 0) : Type 0 where
  hash_failed : HashError → IngestError Expression
  -- `BatchFailed`, with the reasons
  batch_failed : Dict String → IngestError Expression
  transaction_failed : Error Expression → IngestError Expression
  arrow_failed : String → IngestError Expression

-- `BatchResult`
pub record BatchResult : Type 0 where
  pub snapshot_id : String
  pub committed : List String
  pub skipped : Dict String

module _ (P : Platform) {H : Hashing} (T : BatchTools P H) where
  open P use {World, Session, Metadata, Rows, Expression, discard_changes}
  open T use {as_arrow, sorted_table}

  -- The session of a transaction as the granule store of the loop.
  abbrev pub granules : GranuleStore
  granules = record {
    Row = HashedRow H;
    Store = Session;
    Node = T.Node;
    row_id = T.row_id;
    node = T.node;
    writer = T.writer;
    delete_dir = T.delete_dir;
  }

  abbrev pub transaction_result :
      {A : Type 0} → Result (Error Expression) A → Result (IngestError Expression) A
  transaction_result (ok a) = ok a
  transaction_result (err e) = err (transaction_failed e)

  abbrev pub hash_result : {A : Type 0} → Result HashError A → Result (IngestError Expression) A
  hash_result (ok a) = ok a
  hash_result (err e) = err (hash_failed e)

  abbrev pub arrow_result : {A : Type 0} → Result String A → Result (IngestError Expression) A
  arrow_result (ok a) = ok a
  arrow_result (err e) = err (arrow_failed e)

  -- The rows to append, by the schema that the table has at the tip of `main`.
  unfoldable pub batch_rows :
      HybridRepo
      → String
      → List (HashedRow H × String)
      → World
      → Result (IngestError Expression) Rows
  batch_rows repo name keep w =
      transaction_result (read P repo (some "main") none none w >>=ᵣ λ tip. table P name tip w)
      >>=ᵣ λ found. arrow_result (sorted_table keep (as_arrow found.metadata))

  abbrev pub discard : Transaction P → Transaction P
  discard tx = with_session P tx (discard_changes tx.session)

  -- `tx.append(...)`, which raises nothing, and the `try` around `tx.commit()`
  unfoldable pub append_and_commit :
      String
      → Rows
      → Batch granules
      → Exec (Transaction P × World) (IngestError Expression) BatchResult
  append_and_commit name batch b s =
      let (_, s₀) = append P name batch s in
      let (r, s') = commit P s₀ in
      elim r [
        | ok id ↦
            (ok (record { snapshot_id = id; committed = b.committed; skipped = b.skipped }), s')
        | err e ↦ (err (transaction_failed e), (discard s'.0, s'.1))
      ]

  -- What follows the loop.
  unfoldable pub publish_batch :
      String → Batch granules → Exec (Transaction P × World) (IngestError Expression) BatchResult
  publish_batch name b (tx, w) =
      if is_empty b.keep
      then (err (batch_failed b.skipped), (discard tx, w))
      else elim (batch_rows tx.repo name b.keep w) [
        | err e ↦ (err e, (tx, w))
        | ok batch ↦ append_and_commit name batch b (tx, w)
      ]

  -- `ingest_batch` on its transaction: the loop, on the session's store, and what follows it
  unfoldable pub ingest_into :
      String
      → List (HashedRow H)
      → Exec (Transaction P × World) (IngestError Expression) BatchResult
  ingest_into name rows (tx, w) =
      let b = stage_rows granules rows (empty_batch granules tx.session) in
      publish_batch name b (with_session P tx b.store, w)

  -- `ingest_batch`
  unfoldable pub ingest_batch :
      HybridRepo
      → List H.Row
      → Option String
      → String
      → World
      → Result (IngestError Expression) BatchResult × World
  ingest_batch repo rows message name w =
      elim (hash_result (with_stac_hash H partition_bits rows)) [
        | err e ↦ (err e, w)
        | ok hashed ↦
            let title = text_or message ("ingest " <> (decimal (length hashed) <> " granules")) in
            elim (transaction_result (begin P repo "main" title default_max_retries none w)) [
              | err e ↦ (err e, w)
              | ok tx ↦ let (r, s) = ingest_into name hashed (tx, w) in (r, s.1)
            ]
      ]
