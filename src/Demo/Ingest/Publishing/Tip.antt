-- ===== src/Demo/Ingest/Publishing/Tip.antt =====
-- What a batch does to the tip of `main`, where nobody else writes to it.
use icechest.Base.{ℕ, ◌+◌, String, ◌≡◌, refl, Option, List, [], ◌∷◌, arith, eq_refl}
use icechest.Base.Exec.{Result, ok, err}
use icechest.Demo.Hash.{Hashing, HashedRow, with_stac_hash, partition_bits}
use icechest.Demo.Ingest.Publishing.{BatchTools, BatchResult, IngestError, batch_rows, ingest_batch}
use icechest.Demo.Ingest.Publishing.Growth.{StagesInPlace}
use icechest.Demo.Ingest.Publishing.Outcome.{staged}
use icechest.Demo.Ingest.Publishing.Steps.{Published, nothing, its_rows, ingest_batch-RanAs}
use icechest.Intent.{TableIntent, append_rows}
use icechest.Platform.{Platform}
use icechest.Platform.Laws.{
  KeepsPlace, IsHistory, IsUndisturbed, IsClosed, ReadsBack, KeepsFiles, IsCount,
}
use icechest.Transaction.{HybridRepo}
use icechest.Transaction.Rows.{given_to}
use icechest.Transaction.Writers.Conserved.{Reach-TipCounts}
use icechest.Transaction.Writers.Noted.{harmless}
use icechest.Transaction.Writers.Tip.{TipCounts, add_zero}

module _ (P : Platform) {H : Hashing} (T : BatchTools P H) where
  open P use {World, Metadata, Rows, Session, table_name_from}

  module _ (in_place : StagesInPlace P T) {parent : String → World → Option String}
      (history : IsHistory P parent) (place : KeepsPlace P) (stored : ReadsBack P)
      (files : KeepsFiles P) {count : Metadata → ℕ} {given : Rows → ℕ}
      (counts : IsCount P count given) (calm : IsUndisturbed P "main") (closed : IsClosed P "main")
      (repo : HybridRepo) (name : String) where
    abbrev Counts : ℕ → World → Type 0
    Counts total w = TipCounts P repo "main" (table_name_from name) count total w

    -- What the batch `rows` that began at `w` has done to a table that counted `total`.
    pub data IsOutcome (rows : List H.Row) (total : ℕ) (w w' : World)
        : Result (IngestError P.Expression) BatchResult → Type 0 where
      raised : (e : IngestError P.Expression) → Counts total w' → IsOutcome rows total w w' (err e)
      returned :
          (result : BatchResult) (hashed : List (HashedRow H)) (session : Session) (batch : Rows)
          → with_stac_hash H partition_bits rows ≡ ok hashed
          → P.writable_session "main" w ≡ ok session
          → result.committed ≡ (staged P T hashed session).committed
          → batch_rows P T repo name (staged P T hashed session).keep w ≡ ok batch
          → Counts (total + given batch) w'
          → IsOutcome rows total w w' (ok result)

    outcome :
        (rows : List H.Row) (total : ℕ) (w w' : World)
        {r : Result (IngestError P.Expression) BatchResult} {intents : List (TableIntent P)}
        → Published P T in_place
            (harmless P (table_name_from name))
            repo
            name
            (λ batch. refl)
            []
            []
            rows
            w
            r
            intents
        → Counts (total + given_to P given (table_name_from name) intents) w'
        → IsOutcome rows total w w' r
    outcome rows total w w' (nothing e) now = raised e (rw (add_zero total) at now)
    outcome rows total w w' (its_rows result hashed session batch has_hashes opened same made) now =
        let given_here : given_to P given (table_name_from name) (append_rows name batch ∷ [])
            ≡ given batch =
          ground (arith, eq_refl (table_name_from name)) in
        returned result hashed session batch has_hashes opened same made (rw given_here at now)

    -- Where nobody else writes to `main`, snapshots and files read back and keep what they hold, a
    -- rebase takes a session to the tip, and Zarr and the writing and deleting of arrays leave a
    -- session in its place: a batch that raises, at whatever point, leaves the table at the tip
    -- counting what it counted, and one that returns leaves it counting that and, once, the rows made
    -- of those that the loop kept, by any count that an append raises by its rows.
    pub ingest_batch-IsOutcome :
        (rows : List H.Row) (message : Option String) (total : ℕ) (w : World)
        → Counts total w
        → let x = ingest_batch P T repo rows message name w in IsOutcome rows total w x.1 x.0
    ingest_batch-IsOutcome rows message total w now =
        let j = table_name_from name in
        let ran =
          ingest_batch-RanAs P T in_place (harmless P j) repo name (λ batch. refl) [] [] rows
            message w in
        outcome rows total w _ ran.is_published (
          Reach-TipCounts P repo "main" j history place stored files counts calm closed total w _
            now ran.reached)
