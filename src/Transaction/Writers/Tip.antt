-- ===== src/Transaction/Writers/Tip.antt =====
-- The version that a table has at the tip of the branch, along the turns of the writers.
use icechest.Base.{ℕ, ◌+◌, String, ◌≡◌, refl, ap, sym, ◌∙◌, Bool, Option, not, arith}
use icechest.Base.Dict
use icechest.Base.Dict.{Dict}
use icechest.Base.Exec.{ok}
use icechest.Catalog.{current_pointers}
use icechest.Platform.{Platform}
use icechest.Platform.Laws.{IsHistory, IsClosed, ReadsBack, KeepsFiles, IsCount}
use icechest.Pointer.{commit_metadata, read_pointers}
use icechest.Transaction.State.{HybridRepo, Transaction}
use icechest.Transaction.Commit.{apply_all, round}
use icechest.Transaction.Frame.{apply_all-KeepsOthers}
use icechest.Transaction.Rows.{IsAt, IsAt-along, given_to}
use icechest.Transaction.Rows.Growing.{Grown, apply_all-Grown}
use icechest.Transaction.Rows.Published.{IsAt-published, clean_pointers}
use icechest.Transaction.Writers.{working, Writer, turn}
use icechest.Transaction.Writers.Health.{OnStage, IsHealthy}
use icechest.Transaction.Writers.Landing.{Landing, turn_rule}
use icechest.Transaction.Writers.Noted.{AppendsOnly}
use icechest.Transaction.Writers.Turns.{turn-keeps_pointers, turn-keeps_file}

pub add_zero : (n : ℕ) → n + 0 ≡ n
add_zero n = omega arith

module _ (P : Platform) where
  open P use {
    World, Metadata, Rows, Expression, FileIO, load_file_io, session_branch, session_commit,
    lookup_branch, has_uncommitted_changes, read_metadata,
  }

  -- The table `j` counts `total` at the tip of the branch.
  pub record TipCounts (repo : HybridRepo) (branch j : String) (count : Metadata → ℕ) (total : ℕ)
      (w : World) : Type 0 where
    pub tip : String
    pub base : Dict String
    pub metadata : Metadata
    pub found : lookup_branch branch w ≡ ok tip
    pub read : read_pointers P tip w ≡ ok base
    pub at : IsAt P (load_file_io repo.io_properties) j base metadata w
    pub counted : count metadata ≡ total

  module _ {parent : String → World → Option String} (history : IsHistory P parent)
      (stored : ReadsBack P) (files : KeepsFiles P) {count : Metadata → ℕ} {given : Rows → ℕ}
      (counts : IsCount P count given) (repo : HybridRepo) (branch j : String)
      (closed : IsClosed P branch) where
    stays :
        {total : ℕ} (writer : Writer P) (w : World) (now : TipCounts repo branch j count total w)
        → lookup_branch branch (turn P writer w).1 ≡ ok now.tip
        → TipCounts repo branch j count total (turn P writer w).1
    stays writer w now found = record {
      tip = now.tip;
      base = now.base;
      metadata = now.metadata;
      found = found;
      read = turn-keeps_pointers P history now.tip writer w now.read;
      at = record {
        location = now.at.location;
        there = now.at.there;
        read =
            turn-keeps_file P files (load_file_io repo.io_properties) now.at.location now.metadata
              writer w now.at.read;
      };
      counted = now.counted;
    }

    lands :
        (first : Bool) {total : ℕ} (tx : Transaction P) (w : World)
        (now : TipCounts repo branch j count total w)
        → OnStage P repo branch (AppendsOnly P j) (working first) tx w
        → Landing P parent repo branch now.tip now.base first tx w
        → TipCounts repo branch j count
            (total + given_to P given j tx.intents)
            (round P first (tx, w)).1.1
    unfolding OnStage Grown
    lands first {total} tx w now (active, in_step, clean) landing =
        let s = (apply_all P tx.intents (tx.catalog, w)).1 in
        let metadata = commit_metadata (current_pointers s.0) in
        let empty = not (has_uncommitted_changes tx.session) in
        let (same_pointer, properties) = clean_pointers P repo j tx.catalog clean in
        let (after, there, grown) =
          apply_all-Grown P stored files counts tx.intents j tx.catalog w (active.fits)
            (IsAt-along P (ap load_file_io (sym properties))
              (ap (Dict.get j) landing.same_base ∙ sym same_pointer) refl now.at)
            landing.applied in
        let kept = apply_all-KeepsOthers P tx.intents tx.catalog w in
        record {
          tip = landing.id;
          base = current_pointers s.0;
          metadata = after;
          found = landing.found;
          read = landing.read;
          at =
              IsAt-along P (ap load_file_io (kept.base.properties ∙ properties)) refl
                (sym landing.world)
                (IsAt-published P files tx.message metadata empty tx.session there);
          counted = grown ∙ ap (λ n. n + given_to P given j tx.intents) now.counted;
        }

    -- A turn adds to the table at the tip what it publishes.
    pub turn-TipCounts :
        {total : ℕ} (writer : Writer P) (w : World)
        → IsHealthy P repo branch (AppendsOnly P j) w writer
        → TipCounts repo branch j count total w
        → TipCounts repo branch j count
            (total + given_to P given j (turn P writer w).2)
            (turn P writer w).1
    turn-TipCounts {total} writer w healthy now =
        turn_rule P history repo branch closed now.tip now.base (AppendsOnly P j) w now.found
          now.read (λ more. TipCounts repo branch j count (total + given_to P given j more)) writer
          healthy (λ found. rw (add_zero total) (stays writer w now found))
          (λ first on_stage landing. lands first writer.tx w now on_stage landing)
