-- ===== src/Demo/Ingest/Publishing/Outcome.antt =====
-- The ways a batch ends: what is left in the session when it raises, and what has been published
-- when it returns.
use icechest.Base.{
  String, ◌≡◌, true, ◌||◌, some, List, [], ◌∷◌, ◌++◌, arith, map, all, distinct, contains_text, inl,
  inr,
}
use icechest.Base.Dict
use icechest.Base.Exec.{ok, Result-cases}
use icechest.Catalog.{current_pointers}
use icechest.Demo.Hash.{Hashing, HashedRow}
use icechest.Demo.Ingest.{Batch, stage_rows, empty_batch}
use icechest.Demo.Ingest.Publishing.{
  BatchTools, BatchResult, granules, batch_rows, append_and_commit, publish_batch, ingest_into,
}
use icechest.Demo.Ingest.Accounts.{stage_rows-accounts}
use icechest.Intent.{append_rows}
use icechest.Platform.{Platform}
use icechest.Platform.Laws.{Records}
use icechest.Pointer.{read_pointers}
use icechest.Transaction.{Transaction, with_session, append, commit}
use icechest.Transaction.Atomic.{commit-publishes}

module _ (P : Platform) {H : Hashing} (T : BatchTools P H) where
  open P use {World, Session, Rows, Expression, has_uncommitted_changes, discard_changes}
  open T use {row_id}

  -- The batch after the loop.
  abbrev pub staged : List (HashedRow H) → Session → Batch (granules P T)
  staged rows session = stage_rows (granules P T) rows (empty_batch (granules P T) session)

  -- The transaction with a session, and with an append as its last intent.
  abbrev pub planned : String → Rows → Session → Transaction P → Transaction P
  planned name batch session tx = record tx {
    session = session;
    intents = tx.intents ++ append_rows name batch ∷ [];
  }

  -- Where a commit of the repository keeps its metadata, a batch that returns has made rows of all
  -- that the loop kept, which are those of the committed granules, one for each; it is the outcome of
  -- one commit, of the transaction with the session as the loop left it and with the append of those
  -- rows as its last intent; and the snapshot that the result names holds the pointers of the
  -- transaction's catalog after that. Each row of the batch is among the committed or the skipped
  -- ones of the result.
  pub ingest_into-publishes :
      Records P
      → (name : String) (rows : List (HashedRow H)) (tx : Transaction P) (w : World)
        (result : BatchResult)
      → (ingest_into P T name rows (tx, w)).0 ≡ ok result
      → let b = staged rows tx.session in
        let (tx', w') = (ingest_into P T name rows (tx, w)).1 in
        ((batch : Rows) × (batch_rows P T tx.repo name b.keep w ≡ ok batch)
          × (commit P (planned name batch b.store tx, w) ≡ (ok result.snapshot_id, (tx', w'))))
        × (map (λ (row, _). row_id row) b.keep ≡ result.committed)
        × (distinct result.committed ≡ true)
        × (all
              (λ row.
                contains_text result.committed (row_id row)
                || Dict.contains (row_id row) result.skipped)
              rows
            ≡ true)
        × (read_pointers P result.snapshot_id w' ≡ ok (current_pointers tx'.catalog))
        × (tx'.snapshot_id ≡ some result.snapshot_id)
  unfolding ingest_into publish_batch append_and_commit append
  ingest_into-publishes laws name rows tx w result done =
      let b = staged rows tx.session in
      let tx₀ = with_session P tx b.store in
      elim (Result-cases (batch_rows P T tx.repo name b.keep w)) [
        | inl (batch, made) ↦
            let tx₁ = (append P name batch (tx₀, w)).1.0 in
            elim (Result-cases (commit P (tx₁, w)).0) [
              | inl (id, committed) ↦ (
                (batch, made, ground arith),
                ground (arith, (stage_rows-accounts (granules P T) rows tx.session).1),
                ground (arith, (stage_rows-accounts (granules P T) rows tx.session).2),
                ground (arith, (stage_rows-accounts (granules P T) rows tx.session).0),
                ground (arith, (commit-publishes P laws tx₁ w id committed).0),
                ground (arith, (commit-publishes P laws tx₁ w id committed).1),
              )
              | inr (e, raised) ↦ absurd (ground arith)
            ]
        | inr (e, raised) ↦ absurd (ground arith)
      ]
