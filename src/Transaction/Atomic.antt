-- ===== src/Transaction/Atomic.antt =====
-- What a commit publishes, where it returns and where it raises.
use icechest.Base.{String, ◌≡◌, ◌≢◌, refl, Bool, true, some, arith, inl, inr, not}
use icechest.Base.Dict.{Dict}
use icechest.Base.Exec.{ok, err, Result-cases}
use icechest.Catalog.{current_pointers}
use icechest.Errors.{Error}
use icechest.Formats.{CommitMetadata}
use icechest.Platform.{Platform}
use icechest.Platform.Laws.{Records, IsQuiet}
use icechest.Pointer.{commit_metadata, read_pointers}
use icechest.Transaction.State.{Transaction}
use icechest.Transaction.Commit.{
  apply_all, prepare, publish, round, recover, rebase_session, commit, note_unmanaged,
}
use icechest.Transaction.Rounds.{LoopRule, commit_rounds_rule}
use icechest.Transaction.Quiet.{apply_all-Holds}
use icechest.Transaction.Frame.{prepare_state, round_sent}

module _ (P : Platform) where
  open P use {
    World, Session, Expression, lookup_snapshot, session_commit, session_rebase,
    has_uncommitted_changes,
  }

  pub read_pointers_of_held :
      (id : String) (w : World) (pointers : Dict String)
      → lookup_snapshot id w ≡ ok (some (commit_metadata pointers))
      → read_pointers P id w ≡ ok pointers
  unfolding read_pointers commit_metadata
  read_pointers_of_held id w pointers held = rw held

  module _ (laws : Records P) where
    publishes_rule :
        LoopRule P
          (λ _ _ _. Unit {0})
          (λ r tx w.
            (id : String)
            → r ≡ ok id
            → (read_pointers P id w ≡ ok (current_pointers tx.catalog))
              × (tx.snapshot_id ≡ some id))
    publishes_rule = record {
      raised = λ first tx w h e failed id same. cc;
      published = λ first tx w h id done id' same.
          let s = (apply_all P tx.intents (tx.catalog, w)).1 in
          let sent =
            session_commit tx.message (commit_metadata (current_pointers s.0))
              (not (has_uncommitted_changes tx.session)) tx.session s.1 in
          let held =
            laws.committed tx.message (commit_metadata (current_pointers s.0))
              (not (has_uncommitted_changes tx.session)) tx.session sent.1 id s.1 sent.2 in
          ground (
            arith,
            round_sent P first (ok id) tx w,
            held,
            read_pointers_of_held id sent.2 (current_pointers s.0),
          );
      refused = λ first tx w h e failed id same. cc;
      not_recovered = λ first tx w h conflicted e failed id same. cc;
      recovered = λ first tx w h conflicted done. tt;
    }

    -- Where a commit of the repository keeps its metadata, a commit that returns a snapshot's id
    -- has published, in the metadata of that very snapshot, the pointers of the transaction's
    -- catalog as they stand after the last replay, and has noted the id on the transaction.
    pub commit-publishes :
        (tx : Transaction P) (w : World) (id : String)
        → (commit P (tx, w)).0 ≡ ok id
        → let s = (commit P (tx, w)).1 in
          (read_pointers P id s.1 ≡ ok (current_pointers s.0.catalog)) × (s.0.snapshot_id ≡ some id)
    unfolding commit
    commit-publishes tx w id done =
        commit_rounds_rule P publishes_rule tx.max_retries true (note_unmanaged P tx) w tt id done

  -- A world property that only an accepted commit can end: the table layer keeps it, and so do a
  -- rebase and a commit that raises.
  pub record IsUnpublished (Holds : World → Type 0) : Type 0 where
    pub quiet : IsQuiet P Holds
    pub at_rebase : (session : Session) (w : World) → Holds w → Holds (session_rebase session w).2
    pub at_refusal :
        (message : String) (metadata : CommitMetadata) (allow_empty : Bool) (session : Session)
        (w : World) (e : Error Expression)
        → (session_commit message metadata allow_empty session w).0 ≡ err e
        → Holds w
        → Holds (session_commit message metadata allow_empty session w).2

  module _ {Holds : World → Type 0} (kept : IsUnpublished Holds) where
    round-Holds :
        (first : Bool) (tx : Transaction P) (w : World)
        → Holds w
        → ((id : String) → (round P first (tx, w)).0 ≢ ok (ok id))
        → Holds (round P first (tx, w)).1.1
    unfolding round publish
    round-Holds first tx w h refused = elim (Result-cases (prepare P first (tx, w)).0) [
      | inl ((pointers, allow_empty), ready) ↦
          let (c', w₁) = (apply_all P tx.intents (tx.catalog, w)).1 in
          let h₁ = apply_all-Holds P kept.quiet tx.intents tx.catalog w h in
          let metadata = commit_metadata pointers in
          elim (Result-cases (session_commit tx.message metadata allow_empty tx.session w₁).0) [
            | inl (id, accepted) ↦ ground (arith, prepare_state P first tx w, refused id)
            | inr (e, rejected) ↦ ground (
              arith,
              prepare_state P first tx w,
              kept.at_refusal tx.message metadata allow_empty tx.session w₁ e rejected h₁,
            )
          ]
      | inr (e, raised) ↦ ground (
        arith,
        prepare_state P first tx w,
        apply_all-Holds P kept.quiet tx.intents tx.catalog w h,
      )
    ]

    recover-Holds : (tx : Transaction P) (w : World) → Holds w → Holds (recover P (tx, w)).1.1
    unfolding recover rebase_session
    recover-Holds tx w h = ground (arith, kept.at_rebase tx.session w h)

    unpublished_rule :
        LoopRule P (λ _ _ w. Holds w) (λ r _ w. ((id : String) → r ≢ ok id) → Holds w)
    unpublished_rule = record {
      raised = λ first tx w h e failed not_ok. round-Holds first tx w h (λ id. cc);
      published = λ first tx w h id done not_ok. absurd (not_ok id refl);
      refused = λ first tx w h e failed not_ok. round-Holds first tx w h (λ id. cc);
      not_recovered = λ first tx w h conflicted e failed not_ok.
          recover-Holds _ _ (round-Holds first tx w h (λ id. cc));
      recovered =
          λ first tx w h conflicted done. recover-Holds _ _ (round-Holds first tx w h (λ id. cc));
    }

    -- A commit that raises has published nothing: what only an accepted commit can end, among the
    -- calls that it makes, still holds, whatever it raised and after however many rounds.
    pub commit-unpublished :
        (tx : Transaction P) (w : World) (e : Error Expression)
        → Holds w
        → (commit P (tx, w)).0 ≡ err e
        → Holds (commit P (tx, w)).1.1
    unfolding commit
    commit-unpublished tx w e h failed =
        commit_rounds_rule P unpublished_rule tx.max_retries true (note_unmanaged P tx) w h
          (λ id. cc)
