-- ===== src/Transaction/Writers/Landing.antt =====
-- What a turn does to the tip of the branch: a round that lands moves it, every other turn leaves it.
use icechest.Base.{String, ◌≡◌, refl, Bool, Option, some, not, List, [], arith, inl, inr}
use icechest.Base.Dict.{Dict}
use icechest.Base.Exec.{Result, ok, err, Result-cases}
use icechest.Catalog.{current_pointers}
use icechest.Errors.{Error}
use icechest.Intent.{TableIntent}
use icechest.Platform.{Platform}
use icechest.Platform.Laws.{IsHistory, IsClosed}
use icechest.Pointer.{commit_metadata, read_pointers}
use icechest.Transaction.State.{HybridRepo, Transaction}
use icechest.Transaction.Commit.{apply_all, prepare, round, recover, rebase_session}
use icechest.Transaction.Atomic.{read_pointers_of_held}
use icechest.Transaction.Frame.{prepare_state, round_sent}
use icechest.Transaction.InStep.{IsInStep}
use icechest.Transaction.Quiet.{apply_all-Holds}
use icechest.Transaction.Serial.{IsClean}
use icechest.Transaction.Serial.Published.{round_applied}
use icechest.Transaction.Writers.{Stage, working, conflicted, over, Writer, turn, published}
use icechest.Transaction.Writers.Health.{OnStage, IsHealthy}

module _ (P : Platform) where
  open P use {
    World, Expression, session_branch, session_snapshot_id, session_commit, lookup_branch,
    has_uncommitted_changes,
  }

  round_raised :
      (first : Bool) (tx : Transaction P) (w : World) (e : Error Expression)
      → (round P first (tx, w)).0 ≡ err e
      → (round P first (tx, w)).1.1 ≡ (apply_all P tx.intents (tx.catalog, w)).1.1
  unfolding round
  round_raised first tx w e failed = elim (Result-cases (prepare P first (tx, w)).0) [
    | inl ((pointers, allow_empty), ready) ↦ ground arith
    | inr (e', raised) ↦ ground (arith, prepare_state P first tx w)
  ]

  module _ (parent : String → World → Option String) (repo : HybridRepo) (branch tip : String)
      (base : Dict String) where
    -- The round of `tx` landed: on the tip, whose pointers its catalog has, with every intent
    -- applied, and moved the tip to a child that holds the outcome.
    pub record Landing (first : Bool) (tx : Transaction P) (w : World) : Type 0 where
      pub id : String
      pub same_base : base ≡ tx.catalog.pointers
      pub clean : IsClean P repo tx.catalog
      pub applied : (apply_all P tx.intents (tx.catalog, w)).0 ≡ ok tt
      pub found : lookup_branch branch (round P first (tx, w)).1.1 ≡ ok id
      pub read :
          read_pointers P id (round P first (tx, w)).1.1
          ≡ ok (current_pointers (apply_all P tx.intents (tx.catalog, w)).1.0)
      pub is_parent : parent id (round P first (tx, w)).1.1 ≡ some tip
      pub world :
          let s = (apply_all P tx.intents (tx.catalog, w)).1 in
          (round P first (tx, w)).1.1
          ≡ (session_commit tx.message
              (commit_metadata (current_pointers s.0))
              (not (has_uncommitted_changes tx.session))
              tx.session
              s.1).2

  module _ {parent : String → World → Option String} (history : IsHistory P parent)
      (repo : HybridRepo) (branch : String) (closed : IsClosed P branch) (tip : String)
      (base : Dict String) where
    raised-found :
        (first : Bool) (tx : Transaction P) (w : World) (e : Error Expression)
        → (round P first (tx, w)).0 ≡ err e
        → lookup_branch branch w ≡ ok tip
        → lookup_branch branch (round P first (tx, w)).1.1 ≡ ok tip
    raised-found first tx w e failed found =
        rw (round_raised first tx w e failed)
          (apply_all-Holds P (closed.quiet tip) tx.intents tx.catalog w found)

    refused-found :
        (first : Bool) (tx : Transaction P) (w : World) (e : Error Expression)
        → (round P first (tx, w)).0 ≡ ok (err e)
        → lookup_branch branch w ≡ ok tip
        → lookup_branch branch (round P first (tx, w)).1.1 ≡ ok tip
    refused-found first tx w e failed found =
        let s = (apply_all P tx.intents (tx.catalog, w)).1 in
        ground (
          arith,
          round_sent P first (err e) tx w,
          closed.refused tx.message (commit_metadata (current_pointers s.0))
              (not (has_uncommitted_changes tx.session)) tx.session s.1 e tip,
          apply_all-Holds P (closed.quiet tip) tx.intents tx.catalog w found,
        )

    recovered-found :
        (tx : Transaction P) (w : World)
        → lookup_branch branch w ≡ ok tip
        → lookup_branch branch (recover P (tx, w)).1.1 ≡ ok tip
    unfolding recover rebase_session
    recovered-found tx w found = ground (arith, closed.kept_by_rebase tx.session w tip found)

    module _ (Fits : List (TableIntent P) → Type 0) (w : World)
        (found : lookup_branch branch w ≡ ok tip) (read : read_pointers P tip w ≡ ok base) where
      round-Landing :
          (first : Bool) (tx : Transaction P) (id : String)
          → (round P first (tx, w)).0 ≡ ok (ok id)
          → OnStage P repo branch Fits (working first) tx w
          → Landing parent repo branch tip base first tx w
      unfolding OnStage IsInStep
      round-Landing first tx id done (active, in_step, clean) =
          let s = (apply_all P tx.intents (tx.catalog, w)).1 in
          let metadata = commit_metadata (current_pointers s.0) in
          let empty = not (has_uncommitted_changes tx.session) in
          let sent = session_commit tx.message metadata empty tx.session s.1 in
          let facts = round_sent P first (ok id) tx w done in
          let accepted : sent ≡ (ok id, sent.1, sent.2) = ground (arith, facts) in
          let held =
            history.committed tx.message metadata empty tx.session sent.1 id s.1 sent.2 accepted in
          let moved =
            closed.committed tx.message metadata empty tx.session sent.1 id s.1 sent.2
              active.on_branch accepted in
          let still = apply_all-Holds P (closed.quiet tip) tx.intents tx.catalog w found in
          record {
            id = id;
            same_base = ground (arith, moved.0, still, read, in_step);
            clean = clean;
            applied = round_applied P first id tx w done;
            found = ground (arith, facts, moved.1);
            read =
                ground
                  (arith, facts, read_pointers_of_held P id sent.2 (current_pointers s.0) held.0);
            is_parent = ground (arith, facts, held.1, moved.0, still);
            world = ground (arith, facts);
          }

      -- What holds of a turn that leaves the tip, and of a round that lands, holds of every turn.
      pub turn_rule :
          (Goal : List (TableIntent P) → World → Type 0) (writer : Writer P)
          → IsHealthy P repo branch Fits w writer
          → (lookup_branch branch (turn P writer w).1 ≡ ok tip → Goal [] (turn P writer w).1)
          → ((first : Bool)
              → OnStage P repo branch Fits (working first) writer.tx w
              → Landing parent repo branch tip base first writer.tx w
              → Goal writer.tx.intents (round P first (writer.tx, w)).1.1)
          → Goal (turn P writer w).2 (turn P writer w).1
      unfolding turn
      turn_rule Goal writer healthy stays lands = go writer.stage healthy stays
        where
          after : Stage → Writer P × World × List (TableIntent P)
          after stage = turn P (record { stage = stage; tx = writer.tx }) w

          rounds :
              (first : Bool) (r : Result (Error Expression) (Result (Error Expression) String))
              → (round P first (writer.tx, w)).0 ≡ r
              → OnStage P repo branch Fits (working first) writer.tx w
              → let w' = (round P first (writer.tx, w)).1.1 in
                (lookup_branch branch w' ≡ ok tip → Goal [] w')
                → Goal (published P writer.tx.intents r) w'
          rounds first (ok (ok id)) outcome h stays =
              lands first h (round-Landing first writer.tx id outcome h)
          rounds first (ok (err e)) outcome h stays =
              stays (refused-found first writer.tx w e outcome found)
          rounds first (err e) outcome h stays =
              stays (raised-found first writer.tx w e outcome found)

          go :
              (stage : Stage)
              → OnStage P repo branch Fits stage writer.tx w
              → (lookup_branch branch (after stage).1 ≡ ok tip → Goal [] (after stage).1)
              → Goal (after stage).2 (after stage).1
          go (working first) h stays = rounds first _ refl h stays
          go conflicted h stays = stays (recovered-found writer.tx w found)
          go over h stays = stays found
