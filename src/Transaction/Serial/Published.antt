-- ===== src/Transaction/Serial/Published.antt =====
-- The snapshot that a commit publishes, against the same intents applied once, in order, to a new
-- catalog of the snapshot that it was committed onto.
use icechest.Base.{String, ◌≡◌, arith, Bool, false, Option, some, not, inl, inr}
use icechest.Base.Dict.{Dict}
use icechest.Base.Exec.{ok, Result-cases}
use icechest.Catalog.{current_pointers}
use icechest.Platform.{Platform}
use icechest.Platform.Laws.{IsHistory, IsUndisturbed}
use icechest.Pointer.{commit_metadata, read_pointers}
use icechest.Transaction.State.{Transaction, catalog_for}
use icechest.Transaction.Commit.{apply_all, prepare, round, commit}
use icechest.Transaction.Atomic.{read_pointers_of_held}
use icechest.Transaction.Frame.{prepare_ok, round_sent}
use icechest.Transaction.InStep.{IsInStep, round-keeps_pointers}
use icechest.Transaction.Serial.{IsClean, IsFresh, commit_published}

module _ (P : Platform) where
  open P use {World, session_branch, session_snapshot_id, session_commit, has_uncommitted_changes}

  -- A round that gets as far as the commit has applied every intent.
  pub round_applied :
      (first : Bool) (id : String) (tx : Transaction P) (w : World)
      → (round P first (tx, w)).0 ≡ ok (ok id)
      → (apply_all P tx.intents (tx.catalog, w)).0 ≡ ok tt
  unfolding round
  round_applied first id tx w done = elim (Result-cases (prepare P first (tx, w)).0) [
    | inl ((pointers, allow_empty), ready) ↦ (prepare_ok P first tx w ready).2
    | inr (e, raised) ↦ ground arith
  ]

  module _ {parent : String → World → Option String} (history : IsHistory P parent) where
    -- The snapshot `id` is the outcome of the intents of `tx`, on a catalog of its parent's
    -- pointers as a new transaction has it, in a world `at` that held the parent already.
    pub record IsSerial (tx : Transaction P) (id : String) (w : World) : Type 0 where
      pub at : World
      pub parent_id : String
      pub base : Dict String
      pub is_parent : parent id w ≡ some parent_id
      pub base_there : read_pointers P parent_id at ≡ ok base
      pub base_read : read_pointers P parent_id w ≡ ok base
      pub applied : (apply_all P tx.intents (catalog_for tx.repo base false, at)).0 ≡ ok tt
      pub pointers_read :
          read_pointers P id w
          ≡ ok (current_pointers (apply_all P tx.intents (catalog_for tx.repo base false, at)).1.0)

    round-IsSerial :
        (tx₀ : Transaction P) (first : Bool) (tx : Transaction P) (w : World) (id : String)
        → IsFresh P tx₀ tx w
        → (round P first (tx, w)).0 ≡ ok (ok id)
        → IsSerial tx₀ id (round P first (tx, w)).1.1
    unfolding IsInStep
    round-IsSerial tx₀ first tx w id ready done =
        let s = (apply_all P tx.intents (tx.catalog, w)).1 in
        let metadata = commit_metadata (current_pointers s.0) in
        let empty = not (has_uncommitted_changes tx.session) in
        let sent = session_commit tx.message metadata empty tx.session s.1 in
        let facts = round_sent P first (ok id) tx w done in
        let held =
          history.committed tx.message metadata empty tx.session sent.1 id s.1 sent.2
            (ground (arith, facts)) in
        let same : apply_all P tx.intents (tx.catalog, w)
            ≡ apply_all P tx₀.intents (catalog_for tx₀.repo tx.catalog.pointers false, w) =
          cc (ready.intents, ready.clean) in
        record {
          at = w;
          parent_id = session_snapshot_id tx.session;
          base = tx.catalog.pointers;
          is_parent = ground (arith, facts, held);
          base_there = ready.in_step;
          base_read =
              round-keeps_pointers P history first (ok id) tx w (session_snapshot_id tx.session)
                done ready.in_step;
          applied = rw (← same) (round_applied first id tx w done);
          pointers_read = rw (← same) (
              ground
                (arith, facts, read_pointers_of_held P id sent.2 (current_pointers s.0) held.0));
        }

    -- A commit that returns is a serial one, where snapshots keep what they hold and nobody lands
    -- during a rebase: from a transaction that is in step, whose session is on its branch and whose
    -- catalog is as it began, the snapshot that it returns holds the pointers that its intents make
    -- of those of its parent, applied once and in order, without an error, after however many
    -- conflicts.
    pub commit-IsSerial :
        (tx : Transaction P) (w : World) (id : String)
        → IsUndisturbed P tx.branch
        → session_branch tx.session ≡ tx.branch
        → IsInStep P tx w
        → IsClean P tx.repo tx.catalog
        → (commit P (tx, w)).0 ≡ ok id
        → IsSerial tx id (commit P (tx, w)).1.1
    commit-IsSerial tx w id calm on in_step clean done =
        commit_published P history tx calm (IsSerial tx) w id (round-IsSerial tx) on in_step clean
          done
