-- ===== src/Demo/Ingest/Publishing/Together.antt =====
-- That the rows and the arrays of a granule are published together.
use icechest.Base.{
  String, ◌≡◌, ◌∙◌, ap, sym, true, none, List, map, all, is_some, is_segment, contains_text,
}
use icechest.Base.Exec.{ok}
use icechest.Demo.Hash.{Hashing, HashedRow}
use icechest.Demo.Ingest.Accounts.{stage_rows-accounts}
use icechest.Demo.Ingest.Staged.{OwnNode, stage_rows-arrays}
use icechest.Demo.Ingest.Publishing.{BatchTools, BatchResult, granules, batch_rows, ingest_into}
use icechest.Demo.Ingest.Publishing.Outcome.{staged, planned, ingest_into-publishes}
use icechest.Platform.{Platform}
use icechest.Platform.Laws.{Records}
use icechest.Transaction.{Transaction, commit}

module _ (P : Platform) {H : Hashing} (T : BatchTools P H) where
  open P use {World, Session, Rows}
  open T use {row_id, node, delete_dir}

  -- Where a commit of the repository keeps its metadata, writes and deletions concern the granule's
  -- own node alone, a write that returns leaves one, every clean-up goes through and leaves none, and
  -- ids are single segments of a path: a batch that returns has committed a session together with the
  -- append of rows in which a granule that was not in the store before has arrays exactly if a row of
  -- its is among those appended, and both exactly if the result has it as committed.
  pub ingest_into-together :
      Records P
      → OwnNode (granules P T)
      → ((id : String) (session : Session) → (delete_dir id session).0 ≡ ok tt)
      → (name id : String) (rows : List (HashedRow H)) (tx : Transaction P) (w : World)
        (result : BatchResult)
      → all (λ row. is_segment (row_id row)) rows ≡ true
      → is_segment id ≡ true
      → node id tx.session ≡ none
      → (ingest_into P T name rows (tx, w)).0 ≡ ok result
      → let b = staged P T rows tx.session in
        let s = (ingest_into P T name rows (tx, w)).1 in
        ((batch : Rows) × (batch_rows P T tx.repo name b.keep w ≡ ok batch)
          × (commit P (planned P T name batch b.store tx, w) ≡ (ok result.snapshot_id, s)))
        × (is_some (node id b.store) ≡ contains_text result.committed id)
        × (contains_text (map (λ (row, _). row_id row) b.keep) id
            ≡ contains_text result.committed id)
  ingest_into-together laws own cleans name id rows tx w result segments segment absent done =
      let made = ingest_into-publishes P T laws name rows tx w result done in
      let appended = made.1 in
      (
        made.0,
        stage_rows-arrays (granules P T) own cleans rows id tx.session segments segment absent
            ∙ ap (λ ids. contains_text ids id)
                (sym (stage_rows-accounts (granules P T) rows tx.session).1 ∙ appended),
        ap (λ ids. contains_text ids id) appended,
      )
