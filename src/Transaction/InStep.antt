-- ===== src/Transaction/InStep.antt =====
-- When the pointers of a transaction's catalog are those of the snapshot that its session builds on,
-- and what that says of the snapshots that it publishes.
use icechest.Base.{
  ℕ, String, ◌≡◌, refl, Bool, true, false, Option, none, some, [], map, arith, inl, inr, not,
  contains_text,
}
use icechest.Base.Dict
use icechest.Base.Dict.{Dict, get-nil}
use icechest.Base.Exec.{Result, ok, err, Result-cases}
use icechest.Catalog.{current_pointers, rebase_onto}
use icechest.Catalog.Resolution.{get-current_pointers}
use icechest.Errors.{Error, conflict}
use icechest.Formats.{CommitMetadata}
use icechest.Platform.{Platform}
use icechest.Platform.Laws.{IsHistory, IsUndisturbed}
use icechest.Pointer.{commit_metadata, read_pointers, read_pointers_at_branch}
use icechest.Transaction.State.{HybridRepo, Transaction, begin, catalog_for}
use icechest.Transaction.Commit.{apply_all, round, recover, rebase_session, commit, note_unmanaged}
use icechest.Transaction.Atomic.{read_pointers_of_held}
use icechest.Transaction.Quiet.{apply_all-Holds}
use icechest.Transaction.Rounds.{LoopRule, commit_rounds_rule}
use icechest.Transaction.Frame.{staged_name, apply_all-KeepsOthers, round_sent}

module _ (P : Platform) where
  open P use {
    World, Session, Expression, session_snapshot_id, session_branch, session_commit, session_rebase,
    lookup_snapshot, lookup_branch, has_uncommitted_changes,
  }

  unfoldable pub IsInStep : Transaction P → World → Type 0
  IsInStep tx w = read_pointers P (session_snapshot_id tx.session) w ≡ ok tx.catalog.pointers

  -- A transaction begins in step, with nothing staged, on the branch that it was asked for if the
  -- caller's session is on it.
  begin-IsInStep :
      (repo : HybridRepo) (branch message : String) (max_retries : ℕ) (given : Option Session)
      (w : World) {tx : Transaction P}
      → begin P repo branch message max_retries given w ≡ ok tx
      → IsInStep tx w
        × (tx.catalog.staged ≡ [])
        × (tx.branch ≡ branch)
        × (tx.max_retries ≡ max_retries)
  unfolding begin IsInStep catalog_for
  begin-IsInStep repo branch message max_retries given w h = ground arith

  -- The pointers of a table that no intent is about and that was not staged are, in a round's
  -- map, those that the catalog was based on.
  pub round_others :
      (tx : Transaction P) (w : World) (j : String)
      → Dict.get j tx.catalog.staged ≡ none
      → contains_text (map (staged_name P) tx.intents) j ≡ false
      → Dict.get j (current_pointers (apply_all P tx.intents (tx.catalog, w)).1.0)
        ≡ Dict.get j tx.catalog.pointers
  round_others tx w j unstaged other =
      let c' = (apply_all P tx.intents (tx.catalog, w)).1.0 in
      let kept = apply_all-KeepsOthers P tx.intents tx.catalog w in
      ground (arith, get-current_pointers j c', kept.others j other, kept.base)

  -- A snapshot's pointers read alike from two worlds that hold it alike.
  pub read_pointers-kept :
      (id : String) (w w' : World) {pointers : Dict String}
      → ((held : Option CommitMetadata)
          → lookup_snapshot id w ≡ ok held
          → lookup_snapshot id w' ≡ ok held)
      → read_pointers P id w ≡ ok pointers
      → read_pointers P id w' ≡ ok pointers
  unfolding read_pointers
  read_pointers-kept id w w' kept h = elim (Result-cases (lookup_snapshot id w)) [
    | inl (held, there) ↦ ground (arith, kept held there)
    | inr (e, raised) ↦ ground arith
  ]

  module _ {parent : String → World → Option String} (history : IsHistory P parent) where
    pub round-keeps_pointers :
        (first : Bool) (outcome : Result (Error Expression) String) (tx : Transaction P) (w : World)
        (id : String) {pointers : Dict String}
        → (round P first (tx, w)).0 ≡ ok outcome
        → read_pointers P id w ≡ ok pointers
        → read_pointers P id (round P first (tx, w)).1.1 ≡ ok pointers
    round-keeps_pointers first outcome tx w id sent h =
        read_pointers-kept id w (round P first (tx, w)).1.1
          (λ held there.
            let s = (apply_all P tx.intents (tx.catalog, w)).1 in
            let there₁ = apply_all-Holds P (history.quiet id held) tx.intents tx.catalog w there in
            ground (
              arith,
              round_sent P first outcome tx w,
              history.kept_by_commit tx.message (commit_metadata (current_pointers s.0))
                  (not (has_uncommitted_changes tx.session)) tx.session s.1 id held there₁,
            ))
          h

    pub recover-IsInStep :
        (tx : Transaction P) (w : World)
        → IsUndisturbed P tx.branch
        → session_branch tx.session ≡ tx.branch
        → (recover P (tx, w)).0 ≡ ok tt
        → IsInStep (recover P (tx, w)).1.0 (recover P (tx, w)).1.1
    unfolding recover rebase_session rebase_onto IsInStep read_pointers_at_branch
    recover-IsInStep tx w calm on done =
        let w' = (session_rebase tx.session w).2 in
        elim (Result-cases (lookup_branch tx.branch w)) [
          | inl (tip, found) ↦ elim (Result-cases (read_pointers P tip w)) [
            | inl (tips, read) ↦
                let read' =
                  read_pointers-kept tip w w' (λ held. history.kept_by_rebase tx.session w tip held)
                    read in
                ground (arith, calm.rebased tx.session w tip on, read')
            | inr (e, failed) ↦ ground arith
          ]
          | inr (e, failed) ↦ ground arith
        ]

    -- What a round may rely on: the transaction is in step, and nothing is staged at `j`.
    record Start (tx₀ : Transaction P) (j : String) (tx : Transaction P) (w : World) : Type 0 where
      in_step : IsInStep tx w
      branch : tx.branch ≡ tx₀.branch
      on_branch : session_branch tx.session ≡ tx₀.branch
      intents : tx.intents ≡ tx₀.intents
      unstaged : Dict.get j tx.catalog.staged ≡ none

    -- The snapshot `id` has the pointer at `j` that its parent has.
    pub record ExtendsParent (id j : String) (w : World) : Type 0 where
      pub parent_id : String
      pub base : Dict String
      pub pointers : Dict String
      pub is_parent : parent id w ≡ some parent_id
      pub base_read : read_pointers P parent_id w ≡ ok base
      pub pointers_read : read_pointers P id w ≡ ok pointers
      pub same : Dict.get j pointers ≡ Dict.get j base

    round-ExtendsParent :
        (first : Bool) (tx : Transaction P) (w : World) (j id : String)
        → IsInStep tx w
        → Dict.get j tx.catalog.staged ≡ none
        → contains_text (map (staged_name P) tx.intents) j ≡ false
        → (round P first (tx, w)).0 ≡ ok (ok id)
        → ExtendsParent id j (round P first (tx, w)).1.1
    unfolding IsInStep
    round-ExtendsParent first tx w j id in_step unstaged other done =
        let s = (apply_all P tx.intents (tx.catalog, w)).1 in
        let metadata = commit_metadata (current_pointers s.0) in
        let empty = not (has_uncommitted_changes tx.session) in
        let sent = session_commit tx.message metadata empty tx.session s.1 in
        let facts = round_sent P first (ok id) tx w done in
        let held =
          history.committed tx.message metadata empty tx.session sent.1 id s.1 sent.2
            (ground (arith, facts)) in
        record {
          parent_id = session_snapshot_id tx.session;
          base = tx.catalog.pointers;
          pointers = current_pointers s.0;
          is_parent = ground (arith, facts, held);
          base_read =
              round-keeps_pointers first (ok id) tx w (session_snapshot_id tx.session) done in_step;
          pointers_read =
              ground
                (arith, facts, read_pointers_of_held P id sent.2 (current_pointers s.0) held.0);
          same = round_others tx w j unstaged other;
        }

    round-Start :
        (tx₀ : Transaction P) (j : String) (first : Bool) (e : Error Expression)
        (tx : Transaction P) (w : World)
        → Start tx₀ j tx w
        → (round P first (tx, w)).0 ≡ ok (err e)
        → ((round P first (tx, w)).1.0.branch ≡ tx₀.branch)
          × (session_branch (round P first (tx, w)).1.0.session ≡ tx₀.branch)
          × ((round P first (tx, w)).1.0.intents ≡ tx₀.intents)
    round-Start tx₀ j first e tx w start failed =
        let s = (apply_all P tx.intents (tx.catalog, w)).1 in
        ground (
          arith,
          round_sent P first (err e) tx w,
          history.refused tx.message (commit_metadata (current_pointers s.0))
              (not (has_uncommitted_changes tx.session)) tx.session s.1 e,
        )

    recover-Start :
        (tx₀ : Transaction P) (j : String) (tx : Transaction P) (w : World)
        → IsUndisturbed P tx₀.branch
        → tx.branch ≡ tx₀.branch
        → session_branch tx.session ≡ tx₀.branch
        → tx.intents ≡ tx₀.intents
        → (recover P (tx, w)).0 ≡ ok tt
        → Start tx₀ j (recover P (tx, w)).1.0 (recover P (tx, w)).1.1
    recover-Start tx₀ j tx w calm branch on intents done = record {
      in_step = recover-IsInStep tx w (rw branch calm) (rw branch on) done;
      on_branch =
          unfold recover rebase_session in ground (arith, history.rebase_branch tx.session w);
      branch = unfold recover rebase_session in ground arith;
      intents = unfold recover rebase_session in ground arith;
      unstaged =
          unfold recover rebase_session rebase_onto in ground (arith, get-nil {V = String} j);
    }

    module _ (tx₀ : Transaction P) (j : String) (calm : IsUndisturbed P tx₀.branch)
        (other : contains_text (map (staged_name P) tx₀.intents) j ≡ false) where
      extends_rule :
          LoopRule P
            (λ _ tx w. Start tx₀ j tx w)
            (λ r _ w. (id : String) → r ≡ ok id → ExtendsParent id j w)
      extends_rule = record {
        raised = λ first tx w h e failed id same. cc;
        published = λ first tx w h id done id' same.
            round-ExtendsParent first tx w j id' h.in_step h.unstaged (rw (h.intents) other) (cc);
        refused = λ first tx w h e failed id same. cc;
        not_recovered = λ first tx w h conflicted e failed id same. cc;
        recovered = λ first tx w h conflicted done.
            let s = (round P first (tx, w)).1 in
            let kept = round-Start tx₀ j first conflict tx w h conflicted in
            recover-Start tx₀ j s.0 s.1 calm kept.0 kept.1 kept.2 done;
      }

    -- No lost update, where snapshots keep what they hold and nobody lands during a rebase: from a
    -- transaction that is in step and whose session is on its branch, a commit that returns has
    -- published, for every table that nothing was staged for and that no intent is about, the
    -- pointer of the snapshot that it was committed onto, after however many conflicts.
    pub commit-ExtendsParent :
        (tx : Transaction P) (w : World) (id j : String)
        → IsUndisturbed P tx.branch
        → session_branch tx.session ≡ tx.branch
        → IsInStep tx w
        → Dict.get j tx.catalog.staged ≡ none
        → contains_text (map (staged_name P) tx.intents) j ≡ false
        → (commit P (tx, w)).0 ≡ ok id
        → ExtendsParent id j (commit P (tx, w)).1.1
    unfolding commit note_unmanaged IsInStep
    commit-ExtendsParent tx w id j calm on in_step unstaged other done =
        commit_rounds_rule P (extends_rule (note_unmanaged P tx) j calm other) tx.max_retries true
          (note_unmanaged P tx) w
          (record {
            in_step = in_step;
            branch = refl;
            on_branch = on;
            intents = refl;
            unstaged = unstaged;
          })
          id done
