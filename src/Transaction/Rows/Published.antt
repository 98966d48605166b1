-- ===== src/Transaction/Rows/Published.antt =====
-- What a commit adds to a table, from its parent to the snapshot that it publishes.
use icechest.Base.{
  ℕ, ◌+◌, String, ◌≡◌, Bool, true, false, Option, some, not, List, [], ◌∷◌, ◌==◌, arith, inl, inr,
  refl, ap, sym, ◌∙◌, Bool-cases, eq_iff, contains_text, map,
}
use icechest.Base.Dict
use icechest.Base.Dict.{Dict, get-nil}
use icechest.Base.Exec.{ok}
use icechest.Catalog.{IcechunkCatalog, current_pointers, new_catalog}
use icechest.Catalog.Resolution.{get-current_pointers}
use icechest.Formats.{CommitMetadata}
use icechest.Intent.{TableIntent, create, append_rows, delete_rows, overwrite_rows, apply}
use icechest.Platform.{Platform}
use icechest.Platform.Laws.{ReadsBack, KeepsFiles, IsCount, IsHistory, IsUndisturbed}
use icechest.Pointer.{commit_metadata, read_pointers}
use icechest.Transaction.State.{HybridRepo, Transaction, catalog_for}
use icechest.Transaction.Commit.{apply_all, round, commit}
use icechest.Transaction.Atomic.{read_pointers_of_held}
use icechest.Transaction.Frame.{staged_name, round_sent, apply-Touches, apply_all-KeepsOthers}
use icechest.Transaction.InStep.{IsInStep, round-keeps_pointers}
use icechest.Transaction.Quiet.{apply_all-Holds}
use icechest.Transaction.Rows.{
  IsAt, IsAt-along, only_appends, given_to, apply_other, apply-appends, IsAt-of_load,
}
use icechest.Transaction.Rows.Growing.{Grown, apply_all-Grown, apply_all-runs, only_appends_cons}
use icechest.Transaction.Serial.{IsClean, IsFresh, commit_published}
use icechest.Transaction.Serial.Published.{round_applied}

module _ (P : Platform) where
  open P use {
    World, Session, Metadata, Rows, FileIO, load_file_io, session_branch, session_snapshot_id,
    session_commit, table_name_from, has_uncommitted_changes, read_metadata,
  }

  pub clean_pointers :
      (repo : HybridRepo) (j : String) (c : IcechunkCatalog)
      → IsClean P repo c
      → (Dict.get j (current_pointers c) ≡ Dict.get j c.pointers)
        × (c.properties ≡ repo.io_properties)
  unfolding catalog_for new_catalog
  clean_pointers repo j c clean = ground (arith, get-current_pointers j c, get-nil {V = String} j)

  IsAt-kept :
      (files : KeepsFiles P) (intents : List (TableIntent P)) {io : FileIO} {j : String}
      {pointers : Dict String} {metadata : Metadata} (c : IcechunkCatalog) (w : World)
      → IsAt P io j pointers metadata w
      → IsAt P io j pointers metadata (apply_all P intents (c, w)).1.1
  IsAt-kept files intents {io} {j} {pointers} {metadata} c w here = record {
    location = here.location;
    there = here.there;
    read = apply_all-Holds P (files.quiet io here.location metadata) intents c w (here.read);
  }

  pub IsAt-published :
      (files : KeepsFiles P) (message : String) (commit : CommitMetadata) (allow_empty : Bool)
      (session : Session) {io : FileIO} {j : String} {pointers : Dict String} {metadata : Metadata}
      {w : World}
      → IsAt P io j pointers metadata w
      → IsAt P io j pointers metadata (session_commit message commit allow_empty session w).2
  IsAt-published files message commit allow_empty session {io} {j} {pointers} {metadata} {w} here =
      record {
        location = here.location;
        there = here.there;
        read =
            files.kept_by_commit io here.location metadata message commit allow_empty session w
              here.read;
      }

  module _ (stored : ReadsBack P) (files : KeepsFiles P) {count : Metadata → ℕ} {given : Rows → ℕ}
      (counts : IsCount P count given) where
    apply-finds :
        (intent : TableIntent P) (j : String) (c : IcechunkCatalog) (w : World)
        → only_appends P j (intent ∷ []) ≡ true
        → (staged_name P intent == j) ≡ true
        → (apply P intent (c, w)).0 ≡ ok tt
        → (before : Metadata) × IsAt P (load_file_io c.properties) j (current_pointers c) before w
    apply-finds (append_rows name rows) j c w only about done =
        let (before, after, loaded, loads, counted) =
          apply-appends P stored files counts name rows c w done in
        let same : table_name_from name ≡ j = ground (arith, eq_iff (table_name_from name) j) in
        (before.metadata, rw (← same) (IsAt-of_load P name c w loaded))
    apply-finds (create name schema location properties spec order) j c w only about done =
        ground arith
    apply-finds (delete_rows name predicate) j c w only about done = ground arith
    apply-finds (overwrite_rows name rows predicate) j c w only about done = ground arith

    given_to_other :
        (intent : TableIntent P) (j : String) (rest : List (TableIntent P))
        → (staged_name P intent == j) ≡ false
        → given_to P given j (intent ∷ rest) ≡ given_to P given j rest
    given_to_other (append_rows name rows) j rest ne = ground arith
    given_to_other (create name schema location properties spec order) j rest ne = refl
    given_to_other (delete_rows name predicate) j rest ne = refl
    given_to_other (overwrite_rows name rows predicate) j rest ne = refl

    -- Intents that go through have found the table that they append to, and it has grown.
    apply_all-finds :
        (intents : List (TableIntent P)) (j : String) (c : IcechunkCatalog) (w : World)
        → only_appends P j intents ≡ true
        → contains_text (map (staged_name P) intents) j ≡ true
        → (apply_all P intents (c, w)).0 ≡ ok tt
        → let s = (apply_all P intents (c, w)).1 in
          (before : Metadata) × IsAt P (load_file_io c.properties) j (current_pointers c) before s.1
          × Grown P stored files counts j (given_to P given j intents) before s.0 s.1
    apply_all-finds [] j c w only about done = ground arith
    apply_all-finds (intent ∷ rest) j c w only about done =
        let s = (apply P intent (c, w)).1 in
        let io = load_file_io c.properties in
        let (first, others, same) = apply_all-runs P stored files counts intent rest c w done in
        let (only_cons, given_cons) = only_appends_cons P stored files counts intent j rest in
        elim (Bool-cases (staged_name P intent == j)) [
          | inl named ↦
              let (before, here) =
                apply-finds intent j c w (ground (arith, only_cons)) named first in
              (
                before,
                IsAt-kept files (intent ∷ rest) c w here,
                apply_all-Grown P stored files counts (intent ∷ rest) j c w only here done,
              )
          | inr ne ↦
              let (before, here, grown) =
                apply_all-finds rest j s.0 s.1 (ground (arith, only_cons)) (ground arith) others in
              (
                before,
                IsAt-along P (ap load_file_io (apply-Touches P intent c w).base.properties)
                    (apply_other P intent j c w ne) (ap (λ x. x.1.1) (sym same)) here,
                rw (same, given_to_other intent j rest ne) grown,
              )
        ]

    -- The table `j` went from `before`, in the parent of the snapshot `id`, to `after` in `id`.
    pub record Grows (parent : String → World → Option String) (io : FileIO) (id j : String)
        (more : ℕ) (w : World) : Type 0 where
      pub parent_id : String
      pub base : Dict String
      pub pointers : Dict String
      pub before : Metadata
      pub after : Metadata
      pub is_parent : parent id w ≡ some parent_id
      pub base_read : read_pointers P parent_id w ≡ ok base
      pub pointers_read : read_pointers P id w ≡ ok pointers
      pub before_at : IsAt P io j base before w
      pub after_at : IsAt P io j pointers after w
      pub grown : count after ≡ count before + more

    module _ {parent : String → World → Option String} (history : IsHistory P parent) where
      round-Grows :
          (tx₀ : Transaction P) (j : String)
          → only_appends P j tx₀.intents ≡ true
          → contains_text (map (staged_name P) tx₀.intents) j ≡ true
          → (first : Bool) (tx : Transaction P) (w : World) (id : String) → IsFresh P tx₀ tx w
          → (round P first (tx, w)).0 ≡ ok (ok id)
          → Grows parent
              (load_file_io tx₀.repo.io_properties)
              id
              j
              (given_to P given j tx₀.intents)
              (round P first (tx, w)).1.1
      unfolding IsInStep Grown
      round-Grows tx₀ j only about first tx w id ready done =
          let s = (apply_all P tx.intents (tx.catalog, w)).1 in
          let metadata = commit_metadata (current_pointers s.0) in
          let empty = not (has_uncommitted_changes tx.session) in
          let sent = session_commit tx.message metadata empty tx.session s.1 in
          let facts = round_sent P first (ok id) tx w done in
          let held =
            history.committed tx.message metadata empty tx.session sent.1 id s.1 sent.2
              (ground (arith, facts)) in
          let (before, found, (after, grown_at, grown)) =
            apply_all-finds tx.intents j tx.catalog w (rw (ready.intents) only)
              (rw (ready.intents) about) (round_applied P first id tx w done) in
          let (same_pointer, properties) = clean_pointers tx₀.repo j tx.catalog ready.clean in
          let kept = apply_all-KeepsOthers P tx.intents tx.catalog w in
          let same_world : sent.2 ≡ (round P first (tx, w)).1.1 = ground (arith, facts) in
          record {
            parent_id = session_snapshot_id tx.session;
            base = tx.catalog.pointers;
            pointers = current_pointers s.0;
            before = before;
            after = after;
            is_parent = ground (arith, facts, held);
            base_read =
                round-keeps_pointers P history first (ok id) tx w (session_snapshot_id tx.session)
                  done ready.in_step;
            pointers_read =
                ground
                  (arith, facts, read_pointers_of_held P id sent.2 (current_pointers s.0) held.0);
            before_at =
                IsAt-along P (ap load_file_io properties) same_pointer same_world
                  (IsAt-published files tx.message metadata empty tx.session found);
            after_at =
                IsAt-along P (ap load_file_io (kept.base.properties ∙ properties)) refl same_world
                  (IsAt-published files tx.message metadata empty tx.session grown_at);
            grown = rw (← ready.intents) grown;
          }

      -- Where snapshots and files read back and keep what they hold and nobody lands during a
      -- rebase: a transaction that appends to a table, does nothing else to it, is in step, has its
      -- session on its branch and its catalog as it began, and whose commit returns, has taken the
      -- table from its version in the parent of the snapshot that it published, whatever others did
      -- to it, to one that counts the appended rows in addition, exactly once, after however many
      -- conflicts, by any count that an append raises by its rows.
      pub commit-Grows :
          (tx : Transaction P) (w : World) (id j : String)
          → IsUndisturbed P tx.branch
          → session_branch tx.session ≡ tx.branch
          → IsInStep P tx w
          → IsClean P tx.repo tx.catalog
          → only_appends P j tx.intents ≡ true
          → contains_text (map (staged_name P) tx.intents) j ≡ true
          → (commit P (tx, w)).0 ≡ ok id
          → Grows parent
              (load_file_io tx.repo.io_properties)
              id
              j
              (given_to P given j tx.intents)
              (commit P (tx, w)).1.1
      commit-Grows tx w id j calm on in_step clean only about done =
          commit_published P history tx calm
            (λ id w.
              Grows parent (load_file_io tx.repo.io_properties) id j (given_to P given j tx.intents)
                w)
            w id (round-Grows tx j only about) on in_step clean done
