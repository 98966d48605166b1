-- ===== src/Transaction/Writers/Runs.antt =====
-- `commit`, which one writer runs without a pause, as turns of that writer.
use icechest.Base.{
  String, ◌≡◌, refl, ◌∙◌, subst, Bool, true, false, List, [], ◌∷◌, ◌++◌, append-nil, arith,
}
use icechest.Base.Dict
use icechest.Base.Exec.{Result, ok, err}
use icechest.Errors.{Error, conflict}
use icechest.Intent.{TableIntent}
use icechest.Platform.{Platform}
use icechest.Transaction.State.{HybridRepo, Transaction}
use icechest.Transaction.Commit.{round, recover, rebase_session, commit, note_unmanaged}
use icechest.Transaction.Frame.{round_state}
use icechest.Transaction.Rounds.{LoopRule, commit_rounds_rule}
use icechest.Transaction.Window.{Operation}
use icechest.Transaction.Writers.{
  Stage, working, conflicted, over, Writer, Writers, turn, after_round, after_recovery, published,
  turns, Reach, here, next,
}

module _ (P : Platform) where
  open P use {World, Expression}

  -- The intents that a commit published.
  abbrev pub committed :
      List (TableIntent P) → Result (Error Expression) String → List (TableIntent P)
  committed intents (ok id) = intents
  committed intents (err e) = []

  round-turn :
      (first : Bool) (tx : Transaction P) (w : World)
      (r : Result (Error Expression) (Result (Error Expression) String))
      → (round P first (tx, w)).0 ≡ r
      → let s = (round P first (tx, w)).1 in
        turn P (record { stage = working first; tx = tx }) w
        ≡ (record { stage = after_round P r; tx = s.0 }, s.1, published P tx.intents r)
  unfolding turn
  round-turn first tx w r outcome = rw outcome refl

  recover-turn :
      (tx : Transaction P) (w : World) (r : Result (Error Expression) (Unit {0}))
      → (recover P (tx, w)).0 ≡ r
      → let s = (recover P (tx, w)).1 in
        turn P (record { stage = conflicted; tx = tx }) w
        ≡ (record { stage = after_recovery P r; tx = s.0 }, s.1, [])
  unfolding turn
  recover-turn tx w r outcome = rw outcome refl

  module _ (allowed : Operation P → Bool) (repo : HybridRepo) (branch : String)
      (before after : List (Writer P)) (landed : List (TableIntent P)) (tx₀ : Transaction P)
      (w₀ : World) where
    -- The writers, where one of them stands at `stage` and `intents` have landed.
    abbrev pub with_writer : Stage → Transaction P → World → List (TableIntent P) → Writers P
    with_writer stage tx w intents = record {
      pool = before ++ record { stage = stage; tx = tx } ∷ after;
      world = w;
      landed = intents;
    }

    abbrev pub Runs : Stage → Transaction P → World → List (TableIntent P) → Type 0
    Runs stage tx w intents =
        Reach P allowed repo branch (with_writer (working true) tx₀ w₀ landed)
          (with_writer stage tx w intents)

    unfoldable pub RanTo : Result (Error Expression) String → Transaction P → World → Type 0
    RanTo r tx w =
        (stage : Stage) × (tx' : Transaction P) × Runs stage tx' w
          (landed ++ committed tx₀.intents r)

    run-round :
        (first : Bool) (tx : Transaction P) (w : World)
        (r : Result (Error Expression) (Result (Error Expression) String))
        → Runs (working first) tx w landed
        → (round P first (tx, w)).0 ≡ r
        → let s = (round P first (tx, w)).1 in
          Runs (after_round P r) s.0 s.1 (landed ++ published P tx.intents r)
    run-round first tx w r runs outcome =
        next runs (turns before after _ _ w _ landed _ (round-turn first tx w r outcome))

    run-recover :
        (tx : Transaction P) (w : World)
        → Runs conflicted tx w landed
        → (r : Result (Error Expression) (Unit {0})) → (recover P (tx, w)).0 ≡ r
        → let s = (recover P (tx, w)).1 in Runs (after_recovery P r) s.0 s.1 (landed ++ [])
    run-recover tx w runs r outcome =
        next runs (turns before after _ _ w _ landed [] (recover-turn tx w r outcome))

    lost :
        (first : Bool) (tx : Transaction P) (w : World)
        → Runs (working first) tx w landed
        → (round P first (tx, w)).0 ≡ ok (err conflict)
        → let s = (round P first (tx, w)).1 in Runs conflicted s.0 s.1 landed
    lost first tx w runs collided =
        let ran = run-round first tx w (ok (err conflict)) runs collided in
        rw (append-nil landed) at ran

    recovered :
        (tx : Transaction P) (w : World)
        → Runs conflicted tx w landed
        → (recover P (tx, w)).0 ≡ ok tt
        → let s = (recover P (tx, w)).1 in
          Runs (working false) s.0 s.1 landed × (s.0.intents ≡ tx.intents)
    recovered tx w runs done =
        let ran = run-recover tx w runs (ok tt) done in
        (rw (append-nil landed) at ran, unfold recover rebase_session in ground arith)

    runs_rule :
        LoopRule P
          (λ first tx w. Runs (working first) tx w landed × (tx.intents ≡ tx₀.intents))
          RanTo
    unfolding RanTo
    runs_rule = record {
      raised = λ first tx w h e failed.
          (over, (round P first (tx, w)).1.0, run-round first tx w (err e) h.0 failed);
      published = λ first tx w h id done.
          let ran = run-round first tx w (ok (ok id)) h.0 done in
          (
            over,
            _,
            subst
                (λ xs.
                  Runs over (round P first (tx, w)).1.0 (round P first (tx, w)).1.1 (landed ++ xs))
                h.1 ran,
          );
      refused = λ first tx w h e failed. (
        after_round P (ok (err e)),
        (round P first (tx, w)).1.0,
        run-round first tx w (ok (err e)) h.0 failed,
      );
      not_recovered = λ first tx w h collided e failed.
          let s = (round P first (tx, w)).1 in
          (
            over,
            (recover P s).1.0,
            run-recover s.0 s.1 (lost first tx w h.0 collided) (err e) failed,
          );
      recovered = λ first tx w h collided done.
          let s = (round P first (tx, w)).1 in
          let (runs, kept) = recovered s.0 s.1 (lost first tx w h.0 collided) done in
          (runs, kept ∙ (round_state P first tx w).intents ∙ h.1);
    }

    -- A commit is some turns of its writer, one after the other: they take the world to where the
    -- commit leaves it, and publish the transaction's intents if the commit returns an id and none
    -- if it raises, however it ends and after however many conflicts. The condition is that what is
    -- staged is what the transaction knows as unmanaged, as when it begins.
    pub commit-RanTo :
        tx₀.unmanaged_staged ≡ Dict.keys tx₀.catalog.staged
        → let (r, s) = commit P (tx₀, w₀) in RanTo r s.0 s.1
    unfolding commit note_unmanaged
    commit-RanTo managed =
        let noted : note_unmanaged P tx₀ ≡ tx₀ = ground arith in
        rw noted (commit_rounds_rule P runs_rule tx₀.max_retries true tx₀ w₀ (here, refl))
