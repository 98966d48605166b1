-- ===== src/Transaction/Staging.antt =====
-- The operations that stage work: table intents, and declarations on the Zarr group.
use icechest.Base.{
  ℕ, String, ◌<>◌, not, Option, none, some, [], ◌∷◌, ◌++◌, if◌then◌else◌, rstrip_slash, text_or,
}
use icechest.Base.Dict
use icechest.Base.Dict.{Dict}
use icechest.Base.Exec.{Result, ok, err, gets, reads, lift, ◌>>=◌, ◌>>◌}
use icechest.Catalog.{load_table}
use icechest.Convention.{declare}
use icechest.Errors.{Error, Predicate}
use icechest.Formats.{Attributes}
use icechest.Intent.{TableIntent, create, append_rows, delete_rows, overwrite_rows}
use icechest.Platform.{Platform}
use icechest.Transaction.State.{Transaction, TransactionExec, on_transaction, with_session}

module _ (P : Platform) where
  open P use {
    World, RawSchema, PartitionSpec, SortOrder, Rows, Expression, Session, current_snapshot_id,
    writable_session, session_branch, session_snapshot_id, has_uncommitted_changes, discard_changes,
    session_commit, session_rebase, open_group, group_attributes, update_attributes,
  }

  record_intent : TableIntent P → TransactionExec P (Unit {0})
  record_intent intent = on_transaction P (λ tx. record tx { intents = tx.intents ++ intent ∷ [] })

  -- What `group.attrs.update` does with the outcome of `declare`.
  write_declared : Option Attributes → Session → Result (Error Expression) Session
  write_declared none session = ok session
  write_declared (some updated) session = update_attributes updated session

  -- `declare(self.group, {name: TableBinding(location=location)})`
  declare_binding : String → String → TransactionExec P (Unit {0})
  unfolding write_declared
  declare_binding name location = do
    opened ← reads (λ (tx, w). open_group tx.session)
    on_transaction P (λ tx. with_session P tx opened)
    attrs ← lift (group_attributes opened)
    updated ← lift (declare ((name, record { location = location }) ∷ []) attrs)
    written ← lift (write_declared updated opened)
    on_transaction P (λ tx. with_session P tx written)

  abbrev default_location : Option String → String → Transaction P → String
  default_location location name tx =
      rstrip_slash (text_or location (tx.repo.warehouse <> "/" <> name))

  unfoldable pub create_table :
      String
      → RawSchema
      → Option String
      → Dict String
      → PartitionSpec
      → SortOrder
      → TransactionExec P (Unit {0})
  unfolding declare_binding record_intent
  create_table name schema location properties spec order = do
    at ← gets (λ (tx, w). default_location location name tx)
    declare_binding name at
    record_intent (create name schema at properties spec order)

  unfoldable pub append : String → Rows → TransactionExec P (Unit {0})
  unfolding record_intent
  append name rows = record_intent (append_rows name rows)

  set_base : String → Option ℕ → Transaction P → Transaction P
  set_base name base tx = record tx { base_snapshots = Dict.insert name base tx.base_snapshots }

  -- `_capture_base_snapshot`
  unfoldable pub capture_base_snapshot : String → TransactionExec P (Unit {0})
  unfolding set_base
  capture_base_snapshot name (tx, w) =
      if Dict.contains name tx.base_snapshots
      then (ok tt, (tx, w))
      else if not (Dict.contains name tx.catalog.pointers)
      then (ok tt, (set_base name none tx, w))
      else elim (load_table P name tx.catalog w) [
        | err e ↦ (err e, (tx, w))
        | ok table ↦ (ok tt, (set_base name (current_snapshot_id table.metadata) tx, w))
      ]

  unfoldable pub delete : String → Predicate Expression → TransactionExec P (Unit {0})
  unfolding record_intent
  delete name predicate = do capture_base_snapshot name; record_intent (delete_rows name predicate)

  unfoldable pub overwrite : String → Rows → Predicate Expression → TransactionExec P (Unit {0})
  unfolding record_intent
  overwrite name rows predicate = do
    capture_base_snapshot name
    record_intent (overwrite_rows name rows predicate)
