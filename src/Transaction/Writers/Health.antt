-- ===== src/Transaction/Writers/Health.antt =====
-- What a writer relies on between its turns, and has at the next.
use icechest.Base.{
  ℕ, String, ◌≡◌, refl, sym, ◌∙◌, Bool, true, false, Option, none, List, [], arith, inl, inr,
  Bool-cases,
}
use icechest.Base.Dict.{Dict}
use icechest.Base.Exec.{Result, ok, err, Result-cases}
use icechest.Catalog.{rebase_onto}
use icechest.Errors.{Error, conflict}
use icechest.Intent.{TableIntent}
use icechest.Platform.{Platform}
use icechest.Platform.Laws.{KeepsPlace, IsHistory, IsUndisturbed, IsClosed}
use icechest.Pointer.{read_pointers_at_branch}
use icechest.Transaction.State.{HybridRepo, Transaction, begin, catalog_for}
use icechest.Transaction.Commit.{round, recover, rebase_session, is_conflict}
use icechest.Transaction.Frame.{round_state}
use icechest.Transaction.InStep.{IsInStep, recover-IsInStep}
use icechest.Transaction.Rounds.{is_conflict_lem}
use icechest.Transaction.Serial.{IsClean, round-catalog, refused_session}
use icechest.Transaction.Writers.{
  Stage, working, conflicted, over, Writer, turn, after_round, after_recovery,
}
use icechest.Transaction.Window.{Operation, perform}
use icechest.Transaction.Writers.Noted.{perform-IsNoted}
use icechest.Transaction.Writers.Turns.{turn-keeps_pointers}

module _ (P : Platform) where
  open P use {
    World, Session, Rows, Expression, session_branch, lookup_snapshot, session_snapshot_id,
  }

  module _ (repo : HybridRepo) (branch : String) (Fits : List (TableIntent P) → Type 0) where
    -- A transaction on the branch whose intents fit.
    pub record IsActive (tx : Transaction P) : Type 0 where
      pub writes_to : tx.branch ≡ branch
      pub on_branch : session_branch tx.session ≡ branch
      pub repository : tx.repo ≡ repo
      pub fits : Fits tx.intents

    unfoldable pub OnStage : Stage → Transaction P → World → Type 0
    OnStage (working first) tx w = IsActive tx × IsInStep P tx w × IsClean P repo tx.catalog
    OnStage conflicted tx w =
        IsActive tx
        × ((pointers : Dict String)
            → rebase_onto pointers tx.catalog ≡ catalog_for repo pointers false)
    OnStage over tx w = Unit {0}

    abbrev pub IsHealthy : World → Writer P → Type 0
    IsHealthy w writer = OnStage writer.stage writer.tx w

    -- A writer whose intents still fit after a staging call stays healthy.
    pub stage-IsHealthy :
        (in_place : KeepsPlace P) (operation : Operation P) (tx : Transaction P) (w : World)
        → (Fits tx.intents → Fits (perform P operation (tx, w)).1.0.intents)
        → OnStage (working true) tx w
        → OnStage (working true) (perform P operation (tx, w)).1.0 w
    unfolding OnStage IsInStep
    stage-IsHealthy in_place operation tx w still (active, in_step, clean) =
        let noted = perform-IsNoted P in_place operation tx w in
        (
          record {
            writes_to = noted.branch ∙ active.writes_to;
            on_branch = noted.on_branch ∙ active.on_branch;
            repository = noted.repo ∙ active.repository;
            fits = still active.fits;
          },
          rw (noted.base, noted.catalog) in_step,
          rw (noted.catalog) clean,
        )

    -- A writer that writes arrays through its session stays healthy.
    pub write-IsHealthy :
        (tx : Transaction P) (session : Session) (w : World)
        → session_branch session ≡ session_branch tx.session
        → session_snapshot_id session ≡ session_snapshot_id tx.session
        → OnStage (working true) tx w
        → OnStage (working true) (record tx { session = session }) w
    unfolding OnStage IsInStep
    write-IsHealthy tx session w same_branch same_base (active, in_step, clean) = (
      record {
        writes_to = active.writes_to;
        on_branch = same_branch ∙ active.on_branch;
        repository = active.repository;
        fits = active.fits;
      },
      rw same_base in_step,
      clean,
    )

    -- A writer that begins is healthy.
    pub begin-IsHealthy :
        (closed : IsClosed P branch) (none_fits : Fits []) (message : String) (max_retries : ℕ)
        (w : World) {tx : Transaction P}
        → begin P repo branch message max_retries none w ≡ ok tx
        → OnStage (working true) tx w
    unfolding begin OnStage IsInStep catalog_for
    begin-IsHealthy closed none_fits message max_retries w {tx} begun = (
      record {
        writes_to = ground arith;
        on_branch = closed.opened w (ground arith);
        repository = ground arith;
        fits = let planned : tx.intents ≡ [] = ground arith in rw (planned) none_fits;
      },
      ground arith,
      ground arith,
    )

    module _ {parent : String → World → Option String} (history : IsHistory P parent)
        (calm : IsUndisturbed P branch) where
      conflict-OnStage :
          (first : Bool) (tx : Transaction P) (w : World)
          → (round P first (tx, w)).0 ≡ ok (err conflict)
          → OnStage (working first) tx w
          → let s = (round P first (tx, w)).1 in OnStage conflicted s.0 s.1
      unfolding OnStage
      conflict-OnStage first tx w lost (active, in_step, clean) =
          let plan = round_state P first tx w in
          let calm_here : IsUndisturbed P tx.branch = rw (active.writes_to) calm in
          let on =
            refused_session P history tx calm_here first tx w conflict
              (active.on_branch ∙ sym active.writes_to) lost in
          (
            record {
              writes_to = plan.branch ∙ active.writes_to;
              on_branch = on ∙ active.writes_to;
              repository = plan.repo ∙ active.repository;
              fits = rw (plan.intents) (active.fits);
            },
            λ pointers. round-catalog P repo first tx w pointers clean,
          )

      round-OnStage :
          (first : Bool) (tx : Transaction P) (w : World)
          (r : Result (Error Expression) (Result (Error Expression) String))
          → (round P first (tx, w)).0 ≡ r
          → OnStage (working first) tx w
          → let s = (round P first (tx, w)).1 in OnStage (after_round P r) s.0 s.1
      unfolding OnStage
      round-OnStage first tx w (ok (ok id)) outcome healthy = tt
      round-OnStage first tx w (ok (err e)) outcome healthy = elim (Bool-cases (is_conflict P e)) [
        | inl lost ↦
            let same = is_conflict_lem P e lost in
            rw lost (conflict-OnStage first tx w (rw (← same) outcome) healthy)
        | inr other ↦ rw other tt
      ]
      round-OnStage first tx w (err e) outcome healthy = tt

      recover-IsClean :
          (tx : Transaction P) (w : World)
          → ((pointers : Dict String)
              → rebase_onto pointers tx.catalog ≡ catalog_for repo pointers false)
          → (recover P (tx, w)).0 ≡ ok tt
          → IsClean P repo (recover P (tx, w)).1.0.catalog
      unfolding recover rebase_session rebase_onto
      recover-IsClean tx w rebases done =
          elim (Result-cases (read_pointers_at_branch P tx.branch w)) [
            | inl (tips, read) ↦ ground (arith, rebases tips)
            | inr (e, failed) ↦ ground arith
          ]

      recover-OnStage :
          (tx : Transaction P) (w : World) (r : Result (Error Expression) (Unit {0}))
          → (recover P (tx, w)).0 ≡ r
          → OnStage conflicted tx w
          → let s = (recover P (tx, w)).1 in OnStage (after_recovery P r) s.0 s.1
      unfolding OnStage
      recover-OnStage tx w (ok done) outcome (active, rebases) =
          let kept : (recover P (tx, w)).1.0.intents ≡ tx.intents =
            unfold recover rebase_session in ground arith in
          (
            record {
              writes_to = unfold recover rebase_session in ground (arith, active.writes_to);
              on_branch =
                  unfold recover rebase_session in
                  ground (arith, history.rebase_branch tx.session w, active.on_branch);
              repository = unfold recover rebase_session in ground (arith, active.repository);
              fits = rw (kept) (active.fits);
            },
            recover-IsInStep P history tx w (rw (active.writes_to) calm)
                (active.on_branch ∙ sym active.writes_to) outcome,
            recover-IsClean tx w rebases outcome,
          )
      recover-OnStage tx w (err e) outcome healthy = tt

      -- A writer that takes its turn is healthy afterwards, and so are the others.
      pub turn-IsHealthy :
          (writer : Writer P) (w : World)
          → IsHealthy w writer
          → IsHealthy (turn P writer w).1 (turn P writer w).0
      unfolding turn OnStage
      turn-IsHealthy writer w healthy = go writer.stage healthy
        where
          go :
              (stage : Stage)
              → OnStage stage writer.tx w
              → let x = turn P (record { stage = stage; tx = writer.tx }) w in IsHealthy x.1 x.0
          go (working first) h = round-OnStage first writer.tx w _ refl h
          go conflicted h = recover-OnStage writer.tx w _ refl h
          go over h = h

      pub turn-IsHealthy_other :
          (writer other : Writer P) (w : World)
          → IsHealthy w other
          → IsHealthy (turn P writer w).1 other
      unfolding IsInStep OnStage
      turn-IsHealthy_other writer other w healthy = go other.stage healthy
        where
          go :
              (stage : Stage)
              → OnStage stage other.tx w
              → OnStage stage other.tx (turn P writer w).1
          go (working first) (active, in_step, clean) =
              (active, turn-keeps_pointers P history _ writer w in_step, clean)
          go conflicted h = h
          go over h = h
