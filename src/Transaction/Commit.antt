-- ===== src/Transaction/Commit.antt =====
-- `commit` with its retry loop, `_recover`, and `__exit__`.
use icechest.Base.{
  ℕ, zero, suc, String, Bool, true, false, not, ◌&&◌, ◌||◌, Option, none, some, List, [], ◌∷◌, ◌++◌,
  if◌then◌else◌, is_empty, contains_text, sort_texts, map,
}
use icechest.Base.Dict
use icechest.Base.Dict.{Dict}
use icechest.Base.Exec.{
  Result, ok, err, pure, raise, raise_if, gets, reads, attempt, ◌>>=◌, ◌>>◌, ◌>>=ᵣ◌,
}
use icechest.Catalog.{IcechunkCatalog, CatalogExec, current_pointers, rebase_onto}
use icechest.Errors.{Error, conflict, made_no_changes, unreplayable_change}
use icechest.Intent.{TableIntent, intent_name, apply, validate}
use icechest.Platform.{Platform}
use icechest.Pointer.{commit_metadata, read_pointers_at_branch}
use icechest.Transaction.State.{
  Transaction, TransactionExec, on_transaction, with_session, on_catalog, catalog_for,
}

-- `allow_empty`, from whether anything is staged and whether arrays changed.
unfoldable pub allows_empty : Bool → Bool → Bool
allows_empty staged array_changes =
    (staged && not array_changes) || (not staged && not array_changes)

-- `_assert_staged_is_covered`: the staged names that no replay would produce.
unfoldable pub uncovered : List String → List String → List String
uncovered covered [] = []
uncovered covered (name ∷ names) =
    if contains_text covered name then uncovered covered names else name ∷ uncovered covered names

-- `self._base_snapshots.get(intent.name)`
unfoldable pub base_of : String → Dict (Option ℕ) → Option ℕ
base_of name bases = elim (Dict.get name bases) [ none ↦ none | some base ↦ base ]

module _ (P : Platform) where
  open P use {
    World, RawSchema, PartitionSpec, SortOrder, Rows, Expression, Session, current_snapshot_id,
    writable_session, session_branch, session_snapshot_id, has_uncommitted_changes, discard_changes,
    session_commit, session_rebase, open_group, group_attributes, update_attributes,
  }

  -- `for intent in self._intents: intent.apply(self.catalog)`
  unfoldable pub apply_all : List (TableIntent P) → CatalogExec P (Unit {0})
  apply_all [] = pure tt
  apply_all (intent ∷ rest) = apply P intent >> apply_all rest

  -- One round up to the commit: the intents, and the refusal of a first round without changes.
  -- It gives the pointer map to publish, and `allow_empty`.
  unfoldable pub prepare : Bool → TransactionExec P (Dict String × Bool)
  unfolding allows_empty
  prepare first = do
    intents ← gets (λ (tx, w). tx.intents)
    on_catalog P (apply_all intents)
    (tx, w) ← gets (λ s. s)
    let staged = not (is_empty tx.catalog.staged)
    let array_changes = has_uncommitted_changes tx.session
    raise_if ((not staged && not array_changes) && first) (made_no_changes tx.message)
    pure (current_pointers tx.catalog, allows_empty staged array_changes)

  -- `self.session.commit(self._message, metadata=commit_metadata(pointers), allow_empty=...)`
  unfoldable pub publish : Dict String → Bool → TransactionExec P String
  publish pointers allow_empty (tx, w) =
      let (r, session, w') =
        session_commit tx.message (commit_metadata pointers) allow_empty tx.session w in
      (r, (with_session P tx session, w'))

  -- `sorted(self._unmanaged_staged | (set(self.catalog.staged) - covered))`
  unfoldable pub orphaned : Transaction P → List String
  orphaned tx = sort_texts (
      tx.unmanaged_staged
      ++ uncovered tx.unmanaged_staged
          (uncovered (map (intent_name P) tx.intents) (Dict.keys tx.catalog.staged)))

  unfoldable pub assert_staged_is_covered : Transaction P → Result (Error Expression) (Unit {0})
  assert_staged_is_covered tx =
      let names = orphaned tx in if is_empty names then ok tt else err (unreplayable_change names)

  unfoldable pub validate_all :
      List (TableIntent P)
      → Dict (Option ℕ)
      → IcechunkCatalog
      → World
      → Result (Error Expression) (Unit {0})
  validate_all [] bases c w = ok tt
  validate_all (intent ∷ rest) bases c w =
      validate P intent (base_of (intent_name P intent) bases) c w >>=ᵣ λ _.
      validate_all rest bases c w

  -- `_validate_replayable`
  unfoldable pub validate_replayable :
      Dict String → Transaction P → World → Result (Error Expression) (Unit {0})
  validate_replayable tip_pointers tx w =
      validate_all tx.intents tx.base_snapshots (catalog_for tx.repo tip_pointers false) w

  -- `self.session.rebase(icechunk.BasicConflictSolver())`
  unfoldable pub rebase_session : TransactionExec P (Unit {0})
  rebase_session (tx, w) =
      let (r, session, w') = session_rebase tx.session w in (r, (with_session P tx session, w'))

  -- `_recover`
  unfoldable pub recover : TransactionExec P (Unit {0})
  recover = do
    tip_pointers ← reads (λ (tx, w). read_pointers_at_branch P tx.branch w)
    reads (λ (tx, w). assert_staged_is_covered tx)
    reads (λ (tx, w). validate_replayable tip_pointers tx w)
    on_transaction P (λ tx. record tx { catalog = rebase_onto tip_pointers tx.catalog })
    rebase_session

  abbrev pub is_conflict : Error Expression → Bool
  is_conflict conflict = true
  is_conflict _ = false

  -- One round: apply the intents, and try to publish.
  unfoldable pub round : Bool → TransactionExec P (Result (Error Expression) String)
  round first = do (pointers, allow_empty) ← prepare first; attempt (publish pointers allow_empty)

  -- The `except icechunk.ConflictError` around the commit, and what follows it.
  unfoldable pub conclude :
      TransactionExec P String → Result (Error Expression) String → TransactionExec P String
  conclude again (ok id) (tx, w) = (ok id, (record tx { snapshot_id = some id }, w))
  conclude again (err e) (tx, w) = elim (is_conflict e) [
    | true ↦ again (tx, w)
    | false ↦ (err e, (tx, w))
  ]

  -- The rounds of `commit`, by the retries that are left.
  unfoldable pub commit_rounds : ℕ → Bool → TransactionExec P String
  commit_rounds zero first = round first >>= conclude (raise conflict)
  commit_rounds (suc retries) first =
      round first >>= conclude (recover >> commit_rounds retries false)

  unfoldable pub note_unmanaged : Transaction P → Transaction P
  note_unmanaged tx = record tx { unmanaged_staged = Dict.keys tx.catalog.staged }

  unfoldable pub commit : TransactionExec P String
  commit (tx, w) = commit_rounds tx.max_retries true (note_unmanaged tx, w)

  -- `__exit__`, by whether the block raised; the exception goes on either way.
  unfoldable pub leave : Bool → TransactionExec P (Unit {0})
  leave true (tx, w) = (ok tt, (with_session P tx (discard_changes tx.session), w))
  leave false (tx, w) =
      let (r, s) = commit (tx, w) in
      elim r [
        | ok _ ↦ (ok tt, s)
        | err e ↦ (err e, (with_session P s.0 (discard_changes s.0.session), s.1))
      ]

  -- `with repo.transaction(...) as tx:`, by the body of the block.
  unfoldable pub within : TransactionExec P (Unit {0}) → TransactionExec P (Unit {0})
  within body s =
      let (r, s') = body s in
      elim r [ ok _ ↦ leave false s' | err e ↦ let (_, s₂) = leave true s' in (err e, s₂) ]
