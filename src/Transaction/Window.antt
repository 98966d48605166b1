-- ===== src/Transaction/Window.antt =====
-- The left edge of a table's validation window, through calls and a commit.
use icechest.Base.{
  ℕ, String, ◌≡◌, Bool, true, Option, none, some, List, [], ◌∷◌, arith, inl, inr, ◌⊎◌, eq_iff,
  eq_refl, Option-cases,
}
use icechest.Base.Dict
use icechest.Base.Dict.{Dict, get-insert}
use icechest.Base.Exec.{ok, Result-cases}
use icechest.Catalog.{Table, load_table, resolve, read_in}
use icechest.Catalog.Resolution.{get-current_pointers}
use icechest.Errors.{Predicate}
use icechest.Platform.{Platform}
use icechest.Transaction.State.{Transaction, TransactionExec}
use icechest.Transaction.Staging.{create_table, append, delete, overwrite, capture_base_snapshot}
use icechest.Transaction.Commit.{round, recover, rebase_session, commit, note_unmanaged}
use icechest.Transaction.Frame.{round_state}
use icechest.Transaction.Rounds.{LoopRule, commit_rounds_rule}

module _ (P : Platform) where
  open P use {
    World, RawSchema, PartitionSpec, SortOrder, Rows, Metadata, Expression, current_snapshot_id,
    table_name_from, read_metadata, load_file_io,
  }

  -- A staging call of the transaction.
  pub data Operation : Type 0 where
    creating :
        String → RawSchema → Option String → Dict String → PartitionSpec → SortOrder → Operation
    appending : String → Rows → Operation
    deleting : String → Predicate Expression → Operation
    overwriting : String → Rows → Predicate Expression → Operation

  unfoldable pub perform : Operation → TransactionExec P (Unit {0})
  perform (creating name schema location properties spec order) =
      create_table P name schema location properties spec order
  perform (appending name rows) = append P name rows
  perform (deleting name predicate) = delete P name predicate
  perform (overwriting name rows predicate) = overwrite P name rows predicate

  -- The state after some staging calls, of which some may have raised.
  unfoldable pub after_all : List Operation → Transaction P × World → Transaction P × World
  after_all [] s = s
  after_all (operation ∷ rest) s = after_all rest (perform operation s).1

  module _ (j : String) (base : Option ℕ) where
    -- The edge of `j` is captured as `base`.
    abbrev IsPinned : Transaction P → Type 0
    IsPinned tx = Dict.get j tx.base_snapshots ≡ some base

    capture-IsPinned :
        (name : String) (tx : Transaction P) (w : World)
        → IsPinned tx
        → IsPinned (capture_base_snapshot P name (tx, w)).1.0
    unfolding capture_base_snapshot
    capture-IsPinned name tx w h = elim (Result-cases (load_table P name tx.catalog w)) [
      | inl (table, loaded) ↦ ground (
        arith,
        eq_iff name j,
        get-insert j name none tx.base_snapshots,
        get-insert j name (current_snapshot_id table.metadata) tx.base_snapshots,
      )
      | inr (e, failed) ↦ ground (arith, eq_iff name j, get-insert j name none tx.base_snapshots)
    ]

    perform-IsPinned :
        (operation : Operation) (tx : Transaction P) (w : World)
        → IsPinned tx
        → IsPinned (perform operation (tx, w)).1.0
    unfolding perform create_table append delete overwrite
    perform-IsPinned (creating name schema location properties spec order) tx w h = ground arith
    perform-IsPinned (appending name rows) tx w h = h
    perform-IsPinned (deleting name predicate) tx w h = ground (arith, capture-IsPinned name tx w h)
    perform-IsPinned (overwriting name rows predicate) tx w h =
        ground (arith, capture-IsPinned name tx w h)

    after_all-IsPinned :
        (operations : List Operation) (tx : Transaction P) (w : World)
        → IsPinned tx
        → IsPinned (after_all operations (tx, w)).0
    unfolding after_all
    after_all-IsPinned [] tx w h = h
    after_all-IsPinned (operation ∷ rest) tx w h =
        let s = (perform operation (tx, w)).1 in
        after_all-IsPinned rest s.0 s.1 (perform-IsPinned operation tx w h)

    recover-IsPinned :
        (tx : Transaction P) (w : World) → IsPinned tx → IsPinned (recover P (tx, w)).1.0
    unfolding recover rebase_session
    recover-IsPinned tx w h = ground arith

    round-IsPinned :
        (first : Bool) (tx : Transaction P) (w : World)
        → IsPinned tx
        → IsPinned (round P first (tx, w)).1.0
    round-IsPinned first tx w h = ground (arith, round_state P first tx w)

    IsPinned-rule : LoopRule P (λ _ tx _. IsPinned tx) (λ _ tx _. IsPinned tx)
    IsPinned-rule = record {
      raised = λ first tx w h e failed. round-IsPinned first tx w h;
      published = λ first tx w h id done. round-IsPinned first tx w h;
      refused = λ first tx w h e failed. round-IsPinned first tx w h;
      not_recovered =
          λ first tx w h conflicted e failed. recover-IsPinned _ _ (round-IsPinned first tx w h);
      recovered =
          λ first tx w h conflicted done. recover-IsPinned _ _ (round-IsPinned first tx w h);
    }

    commit-IsPinned :
        (tx : Transaction P) (w : World) → IsPinned tx → IsPinned (commit P (tx, w)).1.0
    unfolding commit note_unmanaged
    commit-IsPinned tx w h =
        commit_rounds_rule P IsPinned-rule tx.max_retries true (note_unmanaged P tx) w h

  delete_captures :
      (name : String) (predicate : Predicate Expression) (tx : Transaction P) (w : World)
      {table : Table Metadata}
      → Dict.get name tx.base_snapshots ≡ none
      → Dict.contains name tx.catalog.pointers ≡ true
      → load_table P name tx.catalog w ≡ ok table
      → Dict.get name (delete P name predicate (tx, w)).1.0.base_snapshots
        ≡ some (current_snapshot_id table.metadata)
  unfolding delete capture_base_snapshot
  delete_captures name predicate tx w {table} fresh there loaded = ground (
    arith,
    eq_refl name,
    get-insert name name (current_snapshot_id table.metadata) tx.base_snapshots,
  )

  -- The table loads at the version that is staged for it, if there is one, and else at that of the
  -- pointers that the catalog is based on.
  abbrev IsFromStagedOrBase : String → Transaction P → World → Table Metadata → Type 0
  IsFromStagedOrBase name tx w table =
      let j = table_name_from name in
      ((Dict.get j tx.catalog.staged ≡ some table.metadata_location)
        ⊎ ((Dict.get j tx.catalog.staged ≡ none)
            × (Dict.get j tx.catalog.pointers ≡ some table.metadata_location)))
      × (read_metadata (load_file_io tx.catalog.properties) table.metadata_location w
          ≡ ok table.metadata)

  load-IsFromStagedOrBase :
      (name : String) (tx : Transaction P) (w : World) {table : Table Metadata}
      → load_table P name tx.catalog w ≡ ok table
      → IsFromStagedOrBase name tx w table
  unfolding load_table resolve read_in
  load-IsFromStagedOrBase name tx w {table} loaded =
      let j = table_name_from name in
      elim (Option-cases (Dict.get j tx.catalog.staged)) [
        | inl unstaged ↦
            (inr (unstaged, ground (arith, get-current_pointers j tx.catalog)), ground arith)
        | inr (location, there) ↦
            (inl (ground (arith, get-current_pointers j tx.catalog)), ground arith)
      ]

  -- The first delete from a table of the snapshot that the transaction is based on, which loads, pins
  -- the version that the table has at that call: the one that is staged for it on the catalog, where
  -- there is one, and else the one of that snapshot. Neither later calls, failed ones included, nor a
  -- commit with all its retries move it.
  pub delete-pins_window :
      (name : String) (predicate : Predicate Expression) (tx : Transaction P) (w : World)
      {table : Table Metadata} (later : List Operation)
      → Dict.get name tx.base_snapshots ≡ none
      → Dict.contains name tx.catalog.pointers ≡ true
      → load_table P name tx.catalog w ≡ ok table
      → let s = after_all later (delete P name predicate (tx, w)).1 in
        IsFromStagedOrBase name tx w table
        × (Dict.get name s.0.base_snapshots ≡ some (current_snapshot_id table.metadata))
        × (Dict.get name (commit P s).1.0.base_snapshots
            ≡ some (current_snapshot_id table.metadata))
  delete-pins_window name predicate tx w {table} later fresh there loaded =
      let base = current_snapshot_id table.metadata in
      let s₀ = (delete P name predicate (tx, w)).1 in
      let s = after_all later s₀ in
      let h =
        after_all-IsPinned name base later s₀.0 s₀.1
          (delete_captures name predicate tx w fresh there loaded) in
      (load-IsFromStagedOrBase name tx w loaded, h, commit-IsPinned name base s.0 s.1 h)
