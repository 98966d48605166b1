-- ===== src/Demo/Ingest/Publishing/Growth.antt =====
-- What a batch does to its table, from the rows that it is given to the snapshot that it returns.
use icechest.Base.{
  ℕ, String, ◌≡◌, refl, sym, ap, ◌∙◌, true, ◌||◌, ◌<>◌, Option, none, List, [], ◌∷◌, arith, map,
  all, distinct, contains_text, length, decimal, text_or, eq_refl, inl, inr,
}
use icechest.Base.Dict
use icechest.Base.Exec.{ok, Result-cases}
use icechest.Demo.Hash.{Hashing, HashedRow, with_stac_hash, partition_bits}
use icechest.Demo.Ingest.Kept.{stage_rows-keeps}
use icechest.Demo.Ingest.{empty_batch}
use icechest.Demo.Ingest.Publishing.{
  BatchTools, BatchResult, granules, batch_rows, ingest_into, ingest_batch,
}
use icechest.Demo.Ingest.Publishing.Outcome.{staged, planned, ingest_into-publishes}
use icechest.Intent.{append_rows}
use icechest.Platform.{Platform}
use icechest.Platform.Laws.{Records, ReadsBack, KeepsFiles, IsCount, IsHistory, IsUndisturbed}
use icechest.Transaction.{HybridRepo, Transaction, default_max_retries, catalog_for, begin, commit}
use icechest.Transaction.InStep.{IsInStep}
use icechest.Transaction.Rows.{given_to}
use icechest.Transaction.Rows.Published.{Grows, commit-Grows}
use icechest.Transaction.Serial.{IsClean}

module _ (P : Platform) {H : Hashing} (T : BatchTools P H) where
  open P use {
    World, Session, Metadata, Rows, load_file_io, table_name_from, session_branch,
    session_snapshot_id, writable_session,
  }
  open T use {row_id, writer, delete_dir}

  -- Zarr: writing the arrays of a granule and deleting them leave the session on its branch and on
  -- its snapshot.
  pub record StagesInPlace : Type 0 where
    pub at_write :
        (row : HashedRow H) (session : Session)
        → (session_branch (writer row session).1 ≡ session_branch session)
          × (session_snapshot_id (writer row session).1 ≡ session_snapshot_id session)
    pub at_delete :
        (id : String) (session : Session)
        → (session_branch (delete_dir id session).1 ≡ session_branch session)
          × (session_snapshot_id (delete_dir id session).1 ≡ session_snapshot_id session)

  pub staged-place :
      (in_place : StagesInPlace) (rows : List (HashedRow H)) (session : Session)
      → (session_branch (staged P T rows session).store ≡ session_branch session)
        × (session_snapshot_id (staged P T rows session).store ≡ session_snapshot_id session)
  staged-place in_place rows session =
      stage_rows-keeps (granules P T)
        {Holds = λ s.
          (session_branch s ≡ session_branch session)
          × (session_snapshot_id s ≡ session_snapshot_id session)}
        (λ row s (branch, at).
          ((in_place.at_write row s).0 ∙ branch, (in_place.at_write row s).1 ∙ at))
        (λ id s (branch, at).
          ((in_place.at_delete id s).0 ∙ branch, (in_place.at_delete id s).1 ∙ at))
        rows (empty_batch (granules P T) session) (refl, refl)

  -- A transaction as `begin` leaves it.
  record IsBegun (repo : HybridRepo) (tx : Transaction P) (w : World) : Type 0 where
    opened : writable_session "main" w ≡ ok tx.session
    repository : tx.repo ≡ repo
    branch : tx.branch ≡ "main"
    planned : tx.intents ≡ []
    in_step : IsInStep P tx w
    clean : IsClean P repo tx.catalog

  begin-IsBegun :
      (repo : HybridRepo) (message : String) (w : World) {tx : Transaction P}
      → begin P repo "main" message default_max_retries none w ≡ ok tx
      → IsBegun repo tx w
  unfolding begin IsInStep catalog_for
  begin-IsBegun repo message w {tx} begun = record {
    opened = ground arith;
    repository = ground arith;
    branch = ground arith;
    planned = ground arith;
    in_step = ground arith;
    clean = ground arith;
  }

  module _ {parent : String → World → Option String} (history : IsHistory P parent)
      (stored : ReadsBack P) (files : KeepsFiles P) {count : Metadata → ℕ} {given : Rows → ℕ}
      (counts : IsCount P count given) (calm : IsUndisturbed P "main") where
    -- The batch `rows` went into the table, and `result` says how.
    pub record IsIngested (repo : HybridRepo) (rows : List H.Row) (name : String) (w : World)
        (result : BatchResult) (w' : World) : Type 0 where
      pub hashed : List (HashedRow H)
      pub session : Session
      pub batch : Rows
      pub has_hashes : with_stac_hash H partition_bits rows ≡ ok hashed
      pub opened : writable_session "main" w ≡ ok session
      pub made : batch_rows P T repo name (staged P T hashed session).keep w ≡ ok batch
      pub kept : map (λ (row, _). row_id row) (staged P T hashed session).keep ≡ result.committed
      pub once : distinct result.committed ≡ true
      pub accounted :
          all
            (λ row.
              contains_text result.committed (row_id row)
              || Dict.contains (row_id row) result.skipped)
            hashed
          ≡ true
      pub grows :
          Grows P stored files counts parent
            (load_file_io repo.io_properties)
            result.snapshot_id
            (table_name_from name)
            (given batch)
            w'

    planned-Grows :
        (in_place : StagesInPlace) (repo : HybridRepo) (name : String) (hashed : List (HashedRow H))
        (tx : Transaction P) (w w' : World) (tx' : Transaction P) (batch : Rows) (id : String)
        → IsBegun repo tx w
        → session_branch tx.session ≡ "main"
        → commit P (planned P T name batch (staged P T hashed tx.session).store tx, w)
          ≡ (ok id, (tx', w'))
        → Grows P stored files counts parent
            (load_file_io repo.io_properties)
            id
            (table_name_from name)
            (given batch)
            w'
    unfolding IsInStep
    planned-Grows in_place repo name hashed tx w w' tx' batch id begun on committed =
        let b = staged P T hashed tx.session in
        let tx₁ = planned P T name batch b.store tx in
        let (same_branch, same_place) = staged-place in_place hashed tx.session in
        let intents : tx₁.intents ≡ append_rows name batch ∷ [] = rw (begun.planned) refl in
        let total : given_to P given (table_name_from name) tx₁.intents ≡ given batch =
          rw (intents) (ground (arith, eq_refl (table_name_from name))) in
        let grown =
          commit-Grows P stored files counts history tx₁ w id (table_name_from name)
            (rw (begun.branch) calm) (same_branch ∙ on ∙ sym begun.branch)
            (rw (same_place) (begun.in_step)) (rw (begun.repository) begun.clean)
            (rw (intents) refl) (rw (intents) (ground (arith, eq_refl (table_name_from name))))
            (ap (λ r. r.0) committed) in
        rw (← begun.repository, ← total, ← ap (λ r. r.1.1) committed) grown

    ingest_into-IsIngested :
        ((w : World) (session : Session)
          → writable_session "main" w ≡ ok session
          → session_branch session ≡ "main")
        → (in_place : StagesInPlace) (repo : HybridRepo) (rows : List H.Row)
          (hashed : List (HashedRow H)) (name : String) (tx : Transaction P) (w : World)
          (result : BatchResult)
        → with_stac_hash H partition_bits rows ≡ ok hashed
        → IsBegun repo tx w
        → (ingest_into P T name hashed (tx, w)).0 ≡ ok result
        → IsIngested repo rows name w result (ingest_into P T name hashed (tx, w)).1.1
    ingest_into-IsIngested on_main in_place repo rows hashed name tx w result has_hashes begun
          done =
        let laws : Records P = record {
          committed = λ message metadata empty session session' id w w' sent.
              (history.committed message metadata empty session session' id w w' sent).0;
        } in
        let ((batch, made, committed), kept, once, accounted, read, noted) =
          ingest_into-publishes P T laws name hashed tx w result done in
        record {
          hashed = hashed;
          session = tx.session;
          batch = batch;
          has_hashes = has_hashes;
          opened = begun.opened;
          made = rw (← begun.repository) made;
          kept = kept;
          once = once;
          accounted = accounted;
          grows =
              planned-Grows in_place repo name hashed tx w _ _ batch result.snapshot_id begun
                (on_main w tx.session begun.opened) committed;
        }

    -- Where snapshots and files read back and keep what they hold, a new session is on the branch
    -- that it was asked for, nobody lands during a rebase, and writing and deleting arrays leave a
    -- session in its place: a batch that returns has hashed its rows and begun on a new session of
    -- `main`; each row is among the committed or the skipped granules, and no granule is committed
    -- twice; and the snapshot that the result names has taken the table from its version in the
    -- snapshot's parent, whatever others did to it, to one that counts in addition, exactly once, the
    -- rows made of those that the loop kept, which are one for each committed granule, after however
    -- many conflicts and by any count that an append raises by its rows.
    pub ingest_batch-IsIngested :
        ((w : World) (session : Session)
          → writable_session "main" w ≡ ok session
          → session_branch session ≡ "main")
        → (in_place : StagesInPlace) (repo : HybridRepo) (rows : List H.Row)
          (message : Option String) (name : String) (w : World) (result : BatchResult)
        → (ingest_batch P T repo rows message name w).0 ≡ ok result
        → IsIngested repo rows name w result (ingest_batch P T repo rows message name w).1
    unfolding ingest_batch
    ingest_batch-IsIngested on_main in_place repo rows message name w result done =
        elim (Result-cases (with_stac_hash H partition_bits rows)) [
          | inr (e, failed) ↦ absurd (ground arith)
          | inl (hashed, has_hashes) ↦
              let title = text_or message ("ingest " <> (decimal (length hashed) <> " granules")) in
              elim (Result-cases (begin P repo "main" title default_max_retries none w)) [
                | inr (e, failed) ↦ absurd (ground arith)
                | inl (tx, begun) ↦
                    rw
                      (let same : (ingest_batch P T repo rows message name w).1
                            ≡ (ingest_into P T name hashed (tx, w)).1.1 =
                          ground arith in
                        same)
                      (ingest_into-IsIngested on_main in_place repo rows hashed name tx w result
                        has_hashes (begin-IsBegun repo title w begun) (ground arith))
              ]
        ]
