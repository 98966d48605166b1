-- ===== src/Transaction/Writers/Turns.antt =====
-- What the calls of a turn keep, the turn keeps.
use icechest.Base.{String, ◌≡◌, Bool, Option, arith, inl, inr}
use icechest.Base.Dict.{Dict}
use icechest.Base.Exec.{ok, Result-cases}
use icechest.Formats.{CommitMetadata}
use icechest.Platform.{Platform}
use icechest.Platform.Laws.{KeepsFiles, IsHistory, IsQuiet}
use icechest.Pointer.{commit_metadata, read_pointers}
use icechest.Transaction.State.{Transaction}
use icechest.Transaction.Commit.{apply_all, prepare, round, publish, recover, rebase_session}
use icechest.Transaction.Frame.{prepare_state}
use icechest.Transaction.InStep.{read_pointers-kept}
use icechest.Transaction.Quiet.{apply_all-Holds}
use icechest.Transaction.Writers.{Stage, working, conflicted, over, Writer, turn}

module _ (P : Platform) where
  open P use {
    FileIO, Metadata, read_metadata, World, Session, Expression, session_branch, session_commit,
    session_rebase, has_uncommitted_changes,
  }

  -- What the library's calls that change the world keep, a turn keeps.
  pub record IsKept (Holds : World → Type 0) : Type 0 where
    pub quiet : IsQuiet P Holds
    pub at_commit :
        (message : String) (commit : CommitMetadata) (allow_empty : Bool) (session : Session)
        (w : World)
        → Holds w
        → Holds (session_commit message commit allow_empty session w).2
    pub at_rebase : (session : Session) (w : World) → Holds w → Holds (session_rebase session w).2

  module _ {Holds : World → Type 0} (kept : IsKept Holds) where
    round-keeps :
        (first : Bool) (tx : Transaction P) (w : World)
        → Holds w
        → Holds (round P first (tx, w)).1.1
    unfolding round publish
    round-keeps first tx w h =
        let s = (apply_all P tx.intents (tx.catalog, w)).1 in
        let h' = apply_all-Holds P kept.quiet tx.intents tx.catalog w h in
        elim (Result-cases (prepare P first (tx, w)).0) [
          | inl ((pointers, allow_empty), ready) ↦ ground (
            arith,
            prepare_state P first tx w,
            kept.at_commit tx.message (commit_metadata pointers) allow_empty tx.session s.1 h',
          )
          | inr (e, raised) ↦ ground (arith, prepare_state P first tx w, h')
        ]

    recover-keeps : (tx : Transaction P) (w : World) → Holds w → Holds (recover P (tx, w)).1.1
    unfolding recover rebase_session
    recover-keeps tx w h = ground (arith, kept.at_rebase tx.session w h)

    pub turn-keeps : (writer : Writer P) (w : World) → Holds w → Holds (turn P writer w).1
    unfolding turn
    turn-keeps writer w h = go writer.stage
      where
        go : (stage : Stage) → Holds (turn P (record { stage = stage; tx = writer.tx }) w).1
        go (working first) = round-keeps first writer.tx w h
        go conflicted = recover-keeps writer.tx w h
        go over = h

  -- A snapshot's pointers, once they read, read so.
  pub turn-keeps_pointers :
      {parent : String → World → Option String} (history : IsHistory P parent) (id : String)
      {pointers : Dict String} (writer : Writer P) (w : World)
      → read_pointers P id w ≡ ok pointers
      → read_pointers P id (turn P writer w).1 ≡ ok pointers
  turn-keeps_pointers history id writer w h =
      read_pointers-kept P id w (turn P writer w).1
        (λ held.
          turn-keeps
            (record {
              quiet = history.quiet id held;
              at_commit = λ message commit allow_empty session w.
                  history.kept_by_commit message commit allow_empty session w id held;
              at_rebase = λ session w. history.kept_by_rebase session w id held;
            })
            writer w)
        h

  -- A metadata file, once it reads, reads so.
  pub turn-keeps_file :
      (files : KeepsFiles P) (io : FileIO) (location : String) (metadata : Metadata)
      (writer : Writer P) (w : World)
      → read_metadata io location w ≡ ok metadata
      → read_metadata io location (turn P writer w).1 ≡ ok metadata
  turn-keeps_file files io location metadata = turn-keeps (record {
    quiet = files.quiet io location metadata;
    at_commit = files.kept_by_commit io location metadata;
    at_rebase = files.kept_by_rebase io location metadata;
  })
