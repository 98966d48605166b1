-- ===== src/Transaction/Bounds.antt =====
-- How often `commit` tries.
use icechest.Base.{ℕ, zero, suc, ◌+◌, ◌≤◌, String, Bool, true, false, arith, inl, inr}
use icechest.Base.Exec.{Result-cases, raise, ◌>>◌}
use icechest.Errors.{conflict}
use icechest.Formats.{CommitMetadata}
use icechest.Platform.{Platform}
use icechest.Platform.Laws.{IsQuiet}
use icechest.Pointer.{commit_metadata}
use icechest.Transaction.State.{Transaction}
use icechest.Transaction.Commit.{
  apply_all, prepare, publish, round, recover, rebase_session, commit_rounds, commit,
  note_unmanaged,
}
use icechest.Transaction.Frame.{prepare_state}
use icechest.Transaction.Quiet.{apply_all-Holds}
use icechest.Transaction.Rounds.{after_round, after_recover}

module _ (P : Platform) where
  open P use {World, Session, session_commit, session_rebase}

  -- A number that a call of `session.commit` raises by one at most, and no other call raises.
  pub record CountsCommits (count : World → ℕ) : Type 0 where
    pub quiet : (k : ℕ) → IsQuiet P (λ w. count w ≤ k)
    pub at_rebase : (session : Session) (w : World) → count (session_rebase session w).2 ≤ count w
    pub at_commit :
        (message : String) (metadata : CommitMetadata) (allow_empty : Bool) (session : Session)
        (w : World)
        → count (session_commit message metadata allow_empty session w).2 ≤ count w + 1

  module _ {count : World → ℕ} (counts : CountsCommits count) where
    round-count :
        (k : ℕ) (first : Bool) (tx : Transaction P) (w : World)
        → count w ≤ k
        → count (round P first (tx, w)).1.1 ≤ k + 1
    unfolding round publish
    round-count k first tx w h =
        let (c', w₁) = (apply_all P tx.intents (tx.catalog, w)).1 in
        let h₁ = apply_all-Holds P (counts.quiet k) tx.intents tx.catalog w h in
        elim (Result-cases (prepare P first (tx, w)).0) [
          | inl ((pointers, allow_empty), ready) ↦ ground (
            arith,
            h₁,
            prepare_state P first tx w,
            counts.at_commit tx.message (commit_metadata pointers) allow_empty tx.session w₁,
          )
          | inr (e, raised) ↦ ground (arith, h₁, prepare_state P first tx w)
        ]

    recover-count :
        (k : ℕ) (tx : Transaction P) (w : World) → count w ≤ k → count (recover P (tx, w)).1.1 ≤ k
    unfolding recover rebase_session
    recover-count k tx w h = ground (arith, counts.at_rebase tx.session w)

    commit_rounds-count :
        (retries k : ℕ) (first : Bool) (tx : Transaction P) (w : World)
        → count w ≤ k
        → count (commit_rounds P retries first (tx, w)).1.1 ≤ k + retries + 1
    unfolding commit_rounds
    commit_rounds-count zero k first tx w h =
        let bound = round-count k first tx w h in
        after_round P (λ _ _ w'. count w' ≤ k + 0 + 1) (raise conflict) (round P first (tx, w))
          (λ e failed. omega (arith, bound)) (λ id done. omega (arith, bound))
          (λ e failed. omega (arith, bound)) (λ conflicted. omega (arith, bound))
    commit_rounds-count (suc n) k first tx w h =
        let bound = round-count k first tx w h in
        let s = (round P first (tx, w)).1 in
        let bound' = recover-count (k + 1) s.0 s.1 bound in
        after_round P (λ _ _ w'. count w' ≤ k + suc n + 1) (recover P >> commit_rounds P n false)
          (round P first (tx, w)) (λ e failed. omega (arith, bound))
          (λ id done. omega (arith, bound)) (λ e failed. omega (arith, bound))
          (λ conflicted.
            after_recover P (λ _ _ w'. count w' ≤ k + suc n + 1) (commit_rounds P n false)
              (recover P s) (λ e failed. omega (arith, bound'))
              (λ done. omega (
                arith,
                commit_rounds-count n (k + 1) false (recover P s).1.0 (recover P s).1.1 bound',
              )))

    -- `commit` calls `session.commit` at most once more than it may retry, however it ends.
    pub commit_attempts :
        (tx : Transaction P) (w : World)
        → count (commit P (tx, w)).1.1 ≤ count w + tx.max_retries + 1
    unfolding commit note_unmanaged
    commit_attempts tx w =
        commit_rounds-count tx.max_retries (count w) true (note_unmanaged P tx) w (omega arith)
