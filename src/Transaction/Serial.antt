-- ===== src/Transaction/Serial.antt =====
-- Each commit as a serial one: its intents, applied to the pointers of the snapshot that it was
-- committed onto.
pub mod Published
use icechest.Base.{String, ◌≡◌, refl, Bool, true, false, Option, not, arith, inl, inr}
use icechest.Base.Dict.{Dict}
use icechest.Base.Exec.{ok, err, Result-cases}
use icechest.Catalog.{IcechunkCatalog, current_pointers, new_catalog, rebase_onto}
use icechest.Catalog.ReadOnly.{SameBase}
use icechest.Errors.{Error, conflict}
use icechest.Platform.{Platform}
use icechest.Platform.Laws.{IsHistory, IsUndisturbed}
use icechest.Pointer.{commit_metadata, read_pointers_at_branch}
use icechest.Transaction.State.{HybridRepo, Transaction, catalog_for}
use icechest.Transaction.Commit.{
  apply_all, round, publish, recover, rebase_session, commit, note_unmanaged,
}
use icechest.Transaction.Frame.{prepare_state, round_sent, round_state, apply_all-KeepsOthers}
use icechest.Transaction.InStep.{IsInStep, recover-IsInStep}
use icechest.Transaction.Rounds.{LoopRule, commit_rounds_rule}

module _ (P : Platform) where
  open P use {World, Session, Expression, session_branch, has_uncommitted_changes}

  -- The catalog of a repository, with nothing staged: as a transaction begins with it.
  abbrev pub IsClean : HybridRepo → IcechunkCatalog → Type 0
  IsClean repo c = c ≡ catalog_for repo c.pointers false

  -- A transaction before a round: in step, on its branch, and with nothing staged.
  pub record IsFresh (tx₀ tx : Transaction P) (w : World) : Type 0 where
    pub in_step : IsInStep P tx w
    pub branch : tx.branch ≡ tx₀.branch
    pub on_branch : session_branch tx.session ≡ tx₀.branch
    pub repo : tx.repo ≡ tx₀.repo
    pub intents : tx.intents ≡ tx₀.intents
    pub clean : IsClean tx₀.repo tx.catalog

  pub round-catalog :
      (repo : HybridRepo) (first : Bool) (tx : Transaction P) (w : World) (pointers : Dict String)
      → IsClean repo tx.catalog
      → rebase_onto pointers (round P first (tx, w)).1.0.catalog ≡ catalog_for repo pointers false
  unfolding round publish rebase_onto catalog_for new_catalog
  round-catalog repo first tx w pointers clean =
      let kept = (apply_all-KeepsOthers P tx.intents tx.catalog w).base in
      ground (arith, prepare_state P first tx w, kept)

  module _ {parent : String → World → Option String} (history : IsHistory P parent)
      (tx₀ : Transaction P) (calm : IsUndisturbed P tx₀.branch) where
    pub refused_session :
        (first : Bool) (tx : Transaction P) (w : World) (e : Error Expression)
        → session_branch tx.session ≡ tx₀.branch
        → (round P first (tx, w)).0 ≡ ok (err e)
        → session_branch (round P first (tx, w)).1.0.session ≡ tx₀.branch
    refused_session first tx w e on failed =
        let s = (apply_all P tx.intents (tx.catalog, w)).1 in
        ground (
          arith,
          round_sent P first (err e) tx w,
          history.refused tx.message (commit_metadata (current_pointers s.0))
              (not (has_uncommitted_changes tx.session)) tx.session s.1 e,
        )

    recover-IsClean :
        (first : Bool) (tx : Transaction P) (w : World)
        → IsClean tx₀.repo tx.catalog
        → (recover P (round P first (tx, w)).1).0 ≡ ok tt
        → IsClean tx₀.repo (recover P (round P first (tx, w)).1).1.0.catalog
    unfolding recover rebase_session rebase_onto
    recover-IsClean first tx w clean done =
        let s = (round P first (tx, w)).1 in
        elim (Result-cases (read_pointers_at_branch P s.0.branch s.1)) [
          | inl (tips, read) ↦ ground (arith, round-catalog tx₀.repo first tx w tips clean)
          | inr (e, failed) ↦ ground arith
        ]

    recover-IsFresh :
        (first : Bool) (tx : Transaction P) (w : World)
        → IsFresh tx₀ tx w
        → (round P first (tx, w)).0 ≡ ok (err conflict)
        → (recover P (round P first (tx, w)).1).0 ≡ ok tt
        → let s = (recover P (round P first (tx, w)).1).1 in IsFresh tx₀ s.0 s.1
    recover-IsFresh first tx w ready conflicted done =
        let s = (round P first (tx, w)).1 in
        let plan = round_state P first tx w in
        let kept = refused_session first tx w conflict ready.on_branch conflicted in
        let branch : s.0.branch ≡ tx₀.branch = rw (plan.branch) (ready.branch) in
        record {
          in_step = recover-IsInStep P history s.0 s.1 (rw branch calm) (rw (branch) kept) done;
          branch = unfold recover rebase_session in ground (arith, branch);
          on_branch =
              unfold recover rebase_session in
              ground (arith, history.rebase_branch s.0.session s.1);
          repo = unfold recover rebase_session in ground (arith, plan, ready.repo);
          intents = unfold recover rebase_session in ground (arith, plan, ready.intents);
          clean = recover-IsClean first tx w (ready.clean) done;
        }

    -- What holds of the snapshot that a round publishes from a transaction that is ready holds of
    -- the snapshot that the loop publishes.
    pub published_rule :
        {Goal : String → World → Type 0}
        → ((first : Bool) (tx : Transaction P) (w : World) (id : String)
            → IsFresh tx₀ tx w
            → (round P first (tx, w)).0 ≡ ok (ok id)
            → Goal id (round P first (tx, w)).1.1)
        → LoopRule P (λ _ tx w. IsFresh tx₀ tx w) (λ r _ w. (id : String) → r ≡ ok id → Goal id w)
    published_rule reached = record {
      raised = λ first tx w h e failed id same. cc;
      published = λ first tx w h id done id' same. reached first tx w id' h (cc);
      refused = λ first tx w h e failed id same. cc;
      not_recovered = λ first tx w h conflicted e failed id same. cc;
      recovered = recover-IsFresh;
    }

    pub commit_published :
        (Goal : String → World → Type 0) (w : World) (id : String)
        → ((first : Bool) (tx : Transaction P) (w : World) (id : String)
            → IsFresh tx₀ tx w
            → (round P first (tx, w)).0 ≡ ok (ok id)
            → Goal id (round P first (tx, w)).1.1)
        → session_branch tx₀.session ≡ tx₀.branch
        → IsInStep P tx₀ w
        → IsClean tx₀.repo tx₀.catalog
        → (commit P (tx₀, w)).0 ≡ ok id
        → Goal id (commit P (tx₀, w)).1.1
    unfolding commit note_unmanaged IsInStep
    commit_published Goal w id reached on in_step clean done =
        commit_rounds_rule P (published_rule {Goal = Goal} reached) tx₀.max_retries true
          (note_unmanaged P tx₀) w
          (record {
            in_step = in_step;
            branch = refl;
            on_branch = on;
            repo = refl;
            intents = refl;
            clean = clean;
          })
          id done
