-- ===== src/Demo/Ingest/Publishing/Steps.antt =====
-- A batch, however it ends, as steps of the writers of its repository.
use icechest.Base.{
  String, ◌≡◌, refl, sym, subst, Bool, true, ◌<>◌, Option, none, some, List, [], ◌∷◌, ◌++◌,
  append-nil, arith, inl, inr, length, decimal, text_or, is_empty, Bool-cases,
}
use icechest.Base.Dict
use icechest.Base.Exec.{Result, ok, err, Result-cases}
use icechest.Demo.Hash.{Hashing, HashedRow, with_stac_hash, partition_bits}
use icechest.Demo.Ingest.Publishing.{
  BatchTools, BatchResult, IngestError, hash_failed, batch_failed, transaction_failed, batch_rows,
  ingest_batch, ingest_into, publish_batch, append_and_commit,
}
use icechest.Demo.Ingest.Publishing.Outcome.{staged}
use icechest.Demo.Ingest.Publishing.Growth.{StagesInPlace, staged-place}
use icechest.Intent.{TableIntent, append_rows}
use icechest.Platform.{Platform}
use icechest.Transaction.{
  HybridRepo, Transaction, default_max_retries, catalog_for, begin, append, commit, with_session,
}
use icechest.Transaction.Window.{Operation, appending, perform}
use icechest.Transaction.Writers.{
  working, Writer, Writers, begins, stages, writes, Reach, Reach-trans, here, next,
}
use icechest.Transaction.Writers.Runs.{RanTo, commit-RanTo}

module _ (P : Platform) {H : Hashing} (T : BatchTools P H) (in_place : StagesInPlace P T)
    (allowed : Operation P → Bool) (repo : HybridRepo) (name : String)
    (appends : (batch : P.Rows) → allowed (appending name batch) ≡ true) (pool : List (Writer P))
    (landed : List (TableIntent P)) where
  open P use {World, Rows, Expression, session_branch, session_snapshot_id}

  abbrev State : List (Writer P) → World → List (TableIntent P) → Writers P
  State writers w intents = record { pool = writers; world = w; landed = intents }

  abbrev ready : Transaction P → Writer P
  ready tx = record { stage = working true; tx = tx }

  -- The intents that the batch `rows` published: the append of the rows made of what its loop kept,
  -- or none.
  pub data Published (rows : List H.Row) (w : World)
      : Result (IngestError Expression) BatchResult → List (TableIntent P) → Type 0 where
    nothing : (e : IngestError Expression) → Published rows w (err e) []
    its_rows :
        (result : BatchResult) (hashed : List (HashedRow H)) (session : P.Session) (batch : Rows)
        → with_stac_hash H partition_bits rows ≡ ok hashed
        → P.writable_session "main" w ≡ ok session
        → result.committed ≡ (staged P T hashed session).committed
        → batch_rows P T repo name (staged P T hashed session).keep w ≡ ok batch
        → Published rows w (ok result) (append_rows name batch ∷ [])

  -- The writers that there were, and one before them if another has begun.
  abbrev with_own : Option (Writer P) → List (Writer P)
  with_own none = pool
  with_own (some writer) = writer ∷ pool

  -- Some steps lead from `w` to `w'`, publish what the outcome says, and leave every writer that there
  -- was as it was.
  pub record RanAs (rows : List H.Row) (w : World) (r : Result (IngestError Expression) BatchResult)
      (w' : World) : Type 0 where
    pub own : Option (Writer P)
    pub intents : List (TableIntent P)
    pub is_published : Published rows w r intents
    pub reached :
        Reach P allowed repo "main"
          (State pool w landed)
          (State (with_own own) w' (landed ++ intents))

  no_steps : (rows : List H.Row) (w : World) (e : IngestError Expression) → RanAs rows w (err e) w
  no_steps rows w e = record {
    own = none;
    intents = [];
    is_published = nothing e;
    reached = rw (append-nil landed) here;
  }

  -- Up to the commit: a transaction begins, its session stages the arrays, and it appends the rows.
  planned-Reach :
      (title : String) (w : World) (hashed : List (HashedRow H)) (batch : Rows) {tx : Transaction P}
      → begin P repo "main" title default_max_retries none w ≡ ok tx
      → let tx' = with_session P tx (staged P T hashed tx.session).store in
        Reach P allowed repo "main"
          (State pool w landed)
          (State (ready (append P name batch (tx', w)).1.0 ∷ pool) w landed)
  unfolding perform append
  planned-Reach title w hashed batch {tx} begun =
      let session = (staged P T hashed tx.session).store in
      let (same_branch, same_base) = staged-place P T in_place hashed tx.session in
      next
        (next (next here (begins pool w landed title default_max_retries tx begun))
          (writes [] pool tx session w landed same_branch same_base))
        (stages [] pool (with_session P tx session) w landed (appending name batch) (appends batch))

  begin-managed :
      (title : String) (w : World) {tx : Transaction P}
      → begin P repo "main" title default_max_retries none w ≡ ok tx
      → (tx.repo ≡ repo)
        × (tx.intents ≡ [])
        × (tx.unmanaged_staged ≡ Dict.keys tx.catalog.staged)
        × (P.writable_session "main" w ≡ ok tx.session)
  unfolding begin catalog_for Dict.keys
  begin-managed title w begun = ground arith

  committed-RanAs :
      (rows : List H.Row) (title : String) (w : World) (hashed : List (HashedRow H)) (batch : Rows)
      {tx : Transaction P}
      → with_stac_hash H partition_bits rows ≡ ok hashed
      → begin P repo "main" title default_max_retries none w ≡ ok tx
      → batch_rows P T tx.repo name (staged P T hashed tx.session).keep w ≡ ok batch
      → let b = staged P T hashed tx.session in
        let x = append_and_commit P T name batch b (with_session P tx b.store, w) in
        RanAs rows w x.0 x.1.1
  unfolding append_and_commit append RanTo
  committed-RanAs rows title w hashed batch {tx} has_hashes begun made =
      let b = staged P T hashed tx.session in
      let tx₁ = (append P name batch (with_session P tx b.store, w)).1.0 in
      let (same_repo, none_yet, managed, opened) = begin-managed title w begun in
      let intents : tx₁.intents ≡ append_rows name batch ∷ [] = rw (none_yet) refl in
      let before = planned-Reach title w hashed batch begun in
      let (stage, tx', runs) = commit-RanTo P allowed repo "main" [] pool landed tx₁ w managed in
      let after = record { stage = stage; tx = tx' } ∷ pool in
      elim (Result-cases (commit P (tx₁, w)).0) [
        | inl (id, done) ↦
            let returned : BatchResult = record {
              snapshot_id = id;
              committed = b.committed;
              skipped = b.skipped;
            } in
            rw (done, append_and_commit)
              (record {
                own = some (record { stage = stage; tx = tx' });
                intents = append_rows name batch ∷ [];
                is_published =
                    its_rows returned hashed tx.session batch has_hashes opened refl
                      (rw (← same_repo) made);
                reached = Reach-trans P before (
                    subst
                      (λ xs.
                        Reach P allowed repo "main" (State (ready tx₁ ∷ pool) w landed)
                          (State after (commit P (tx₁, w)).1.1 (landed ++ xs)))
                      intents (rw done at runs));
              })
        | inr (e, failed) ↦
            rw (failed, append_and_commit)
              (record {
                own = some (record { stage = stage; tx = tx' });
                intents = [];
                is_published = nothing (transaction_failed e);
                reached = Reach-trans P before (rw failed at runs);
              })
      ]

  -- A batch whose transaction has begun, however it ends.
  ingest_into-RanAs :
      (rows : List H.Row) (title : String) (w : World) (hashed : List (HashedRow H))
      {tx : Transaction P}
      → with_stac_hash H partition_bits rows ≡ ok hashed
      → begin P repo "main" title default_max_retries none w ≡ ok tx
      → let x = ingest_into P T name hashed (tx, w) in RanAs rows w x.0 x.1.1
  unfolding ingest_into publish_batch
  ingest_into-RanAs rows title w hashed {tx} has_hashes begun =
      let b = staged P T hashed tx.session in
      elim (Bool-cases (is_empty b.keep)) [
        | inl empty ↦ rw empty (no_steps rows w (batch_failed b.skipped))
        | inr some_rows ↦ elim (Result-cases (batch_rows P T tx.repo name b.keep w)) [
          | inr (e, failed) ↦ rw (some_rows, failed) (no_steps rows w e)
          | inl (batch, made) ↦
              rw (some_rows, made) (committed-RanAs rows title w hashed batch has_hashes begun made)
        ]
      ]

  -- What a batch does, steps of the writers can do: however it ends, and among whatever writers, some
  -- steps lead to the world that the batch leaves, leave each of those writers as it was and have at
  -- most one more beside them, and publish, after what has been published, nothing if the batch
  -- raises; if it returns, one append, of the rows made of those that the loop kept of the hashed
  -- batch on a new session of `main`, and the granules that the loop committed are those of the
  -- result. The conditions are that appends are among the allowed calls, and that writing and
  -- deleting arrays leave a session in its place.
  pub ingest_batch-RanAs :
      (rows : List H.Row) (message : Option String) (w : World)
      → let x = ingest_batch P T repo rows message name w in RanAs rows w x.0 x.1
  unfolding ingest_batch
  ingest_batch-RanAs rows message w = elim (Result-cases (with_stac_hash H partition_bits rows)) [
    | inr (e, failed) ↦
        let ends : ingest_batch P T repo rows message name w ≡ (err (hash_failed e), w) =
          ground arith in
        subst Ran (sym ends) (no_steps rows w (hash_failed e))
    | inl (hashed, has_hashes) ↦
        let title = text_or message ("ingest " <> (decimal (length hashed) <> " granules")) in
        elim (Result-cases (begin P repo "main" title default_max_retries none w)) [
          | inr (e, failed) ↦
              let ends : ingest_batch P T repo rows message name w
                  ≡ (err (transaction_failed e), w) =
                ground arith in
              subst Ran (sym ends) (no_steps rows w (transaction_failed e))
          | inl (tx, begun) ↦
              let x = ingest_into P T name hashed (tx, w) in
              let ends : ingest_batch P T repo rows message name w ≡ (x.0, x.1.1) = ground arith in
              subst Ran (sym ends) (ingest_into-RanAs rows title w hashed has_hashes begun)
        ]
  ]
    where
      Ran : Result (IngestError Expression) BatchResult × World → Type 0
      Ran x = RanAs rows w x.0 x.1
