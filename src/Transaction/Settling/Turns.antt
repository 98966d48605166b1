-- ===== src/Transaction/Settling/Turns.antt =====
-- That `commit` gets its turn: it returns once the other writers leave it one of its rounds.
use icechest.Base.{
  ℕ, zero, suc, ◌≤◌, String, ◌≡◌, ◌∙◌, ap, Bool, true, false, List, arith, inl, inr,
}
use icechest.Base.Dict
use icechest.Base.Dict.{Dict, get-nil}
use icechest.Base.Exec.{ok, raise, ◌>>◌}
use icechest.Errors.{conflict}
use icechest.Intent.{TableIntent}
use icechest.Platform.{Platform}
use icechest.Transaction.State.{HybridRepo, Transaction, catalog_for}
use icechest.Transaction.Commit.{round, recover, commit_rounds, commit, note_unmanaged}
use icechest.Transaction.Frame.{round_state}
use icechest.Transaction.Serial.{IsClean}
use icechest.Transaction.Settling.{
  Settles, IsAdditive, IsReady, conclude-ok, conclude-conflict, ran,
}
use icechest.Transaction.Settling.Steps.{round-settles, round-covered, recover-settles}

module _ (P : Platform) where
  open P use {World, Session, Expression, has_uncommitted_changes, session_commit, session_rebase}

  module _ {branch : String} {repo : HybridRepo} {intents : List (TableIntent P)}
      {Takes : Dict String → World → Type 0} (plan : IsAdditive P repo intents Takes)
      {Ahead Behind : ℕ → Session → World → Type 0}
      (settles : Settles P branch Takes Ahead Behind) where
    commit_rounds-settles :
        (retries n : ℕ) (first : Bool) (tx : Transaction P) (w : World)
        → n ≤ retries
        → IsReady P branch repo intents Takes first tx w
        → Ahead n tx.session w
        → (id : String) × ((commit_rounds P retries first (tx, w)).0 ≡ ok id)
    unfolding commit_rounds
    commit_rounds-settles zero n first tx w few ready ahead =
        elim (round-settles P plan settles n first tx w ready ahead) [
          | inl (id, sent) ↦ (id, conclude-ok P (raise conflict) (round P first (tx, w)) id sent)
          | inr (m, less, refused, behind) ↦ absurd (omega (arith, few, less))
        ]
    commit_rounds-settles (suc k) n first tx w few ready ahead =
        let again = recover P >> commit_rounds P k false in
        elim (round-settles P plan settles n first tx w ready ahead) [
          | inl (id, sent) ↦ (id, conclude-ok P again (round P first (tx, w)) id sent)
          | inr (m, less, refused, behind) ↦
              let s = (round P first (tx, w)).1 in
              let same = round_state P first tx w in
              let (covered, rebases) = round-covered P plan settles first tx w ready in
              let (recovered, ready', ahead') =
                recover-settles P plan settles m s.0 s.1 (same.branch ∙ ready.on_branch)
                  (same.intents ∙ ready.planned) rebases (same.unmanaged_staged ∙ ready.managed)
                  covered behind in
              let (id, done) =
                commit_rounds-settles k m false (recover P s).1.0 (recover P s).1.1
                  (omega (arith, few, less)) ready' ahead' in
              (
                id,
                ap (λ r. r.0) (conclude-conflict P again (round P first (tx, w)) refused)
                    ∙ ap (λ r. r.0) (ran P (commit_rounds P k false) (recover P s) recovered)
                    ∙ done,
              )
        ]

    -- A transaction that only adds, under plain names, on a catalog as it began, with array changes,
    -- returns from its commit where other writers stand in its way at most as often as it may retry:
    -- where each of its commits is accepted or conflicts with one of theirs, the branch can be read and
    -- the rebase goes through, and the pointers that it began with, and those that it finds after a
    -- conflict, are such that its intents apply to a new catalog of them.
    pub commit-settles :
        (n : ℕ) (tx : Transaction P) (w : World)
        → n ≤ tx.max_retries
        → tx.branch ≡ branch
        → tx.intents ≡ intents
        → IsClean P repo tx.catalog
        → Takes tx.catalog.pointers w
        → has_uncommitted_changes tx.session ≡ true
        → Ahead n tx.session w
        → (id : String) × ((commit P (tx, w)).0 ≡ ok id)
    unfolding commit note_unmanaged Dict.keys catalog_for
    commit-settles n tx w few on_branch planned clean takes changed ahead =
        commit_rounds-settles tx.max_retries n true (note_unmanaged P tx) w few
          (record {
            on_branch = on_branch;
            planned = planned;
            clean = clean;
            takes = takes;
            managed = ap (λ c. Dict.keys c.staged) clean;
            changed = λ _. changed;
          })
          ahead
