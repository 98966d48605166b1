-- ===== src/Transaction/Handles.antt =====
-- What a commit leaves of a transaction as it was, however it ends.
use icechest.Base.{◌≡◌, refl, Bool, true, arith}
use icechest.Catalog.{rebase_onto}
use icechest.Platform.{Platform}
use icechest.Transaction.State.{Transaction}
use icechest.Transaction.Commit.{round, publish, recover, rebase_session, commit, note_unmanaged}
use icechest.Transaction.Frame.{prepare_state, apply_all-KeepsOthers}
use icechest.Transaction.Rounds.{LoopRule, commit_rounds_rule}

module _ (P : Platform) where
  open P use {World}

  -- What rounds and recoveries keep: the warehouse handle, the catalog's properties, the intents.
  pub record SameHandles (tx₀ tx : Transaction P) : Type 0 where
    pub repo : tx.repo ≡ tx₀.repo
    pub properties : tx.catalog.properties ≡ tx₀.catalog.properties
    pub intents : tx.intents ≡ tx₀.intents

  round-SameHandles :
      (tx₀ : Transaction P) (first : Bool) (tx : Transaction P) (w : World)
      → SameHandles tx₀ tx
      → SameHandles tx₀ (round P first (tx, w)).1.0
  unfolding round publish
  round-SameHandles tx₀ first tx w h = ground (
    arith,
    prepare_state P first tx w,
    (apply_all-KeepsOthers P tx.intents tx.catalog w).base,
    h.repo,
    h.properties,
    h.intents,
  )

  recover-SameHandles :
      (tx₀ tx : Transaction P) (w : World)
      → SameHandles tx₀ tx
      → SameHandles tx₀ (recover P (tx, w)).1.0
  unfolding recover rebase_session rebase_onto
  recover-SameHandles tx₀ tx w h = ground (arith, h.repo, h.properties, h.intents)

  handles_rule :
      (tx₀ : Transaction P)
      → LoopRule P (λ _ tx _. SameHandles tx₀ tx) (λ _ tx _. SameHandles tx₀ tx)
  handles_rule tx₀ = record {
    raised = λ first tx w h e failed. round-SameHandles tx₀ first tx w h;
    published = λ first tx w h id done.
        let k = round-SameHandles tx₀ first tx w h in
        record { repo = k.repo; properties = k.properties; intents = k.intents };
    refused = λ first tx w h e failed. round-SameHandles tx₀ first tx w h;
    not_recovered = λ first tx w h conflicted e failed.
        recover-SameHandles tx₀ _ _ (round-SameHandles tx₀ first tx w h);
    recovered = λ first tx w h conflicted done.
        recover-SameHandles tx₀ _ _ (round-SameHandles tx₀ first tx w h);
  }

  pub commit-SameHandles : (tx : Transaction P) (w : World) → SameHandles tx (commit P (tx, w)).1.0
  unfolding commit note_unmanaged
  commit-SameHandles tx w =
      let h =
        commit_rounds_rule P (handles_rule (note_unmanaged P tx)) tx.max_retries true
          (note_unmanaged P tx) w (record { repo = refl; properties = refl; intents = refl }) in
      record { repo = h.repo; properties = h.properties; intents = h.intents }
