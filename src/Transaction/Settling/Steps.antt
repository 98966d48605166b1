-- ===== src/Transaction/Settling/Steps.antt =====
-- A round of such a transaction, and the recovery that follows a conflict.
use icechest.Base.{
  ℕ, suc, String, ◌≡◌, Bool, true, false, not, List, [], ◌++◌, map, ap, arith, inl, inr, ◌⊎◌, all,
  contains_text,
}
use icechest.Base.Dict
use icechest.Base.Dict.{Dict, get-nil}
use icechest.Base.Exec.{ok, err}
use icechest.Catalog.{current_pointers, rebase_onto}
use icechest.Errors.{conflict}
use icechest.Intent.{TableIntent, intent_name}
use icechest.Platform.{Platform}
use icechest.Pointer.{commit_metadata}
use icechest.Transaction.State.{HybridRepo, Transaction, catalog_for, on_catalog}
use icechest.Transaction.Commit.{
  apply_all, prepare, publish, round, recover, rebase_session, orphaned, uncovered,
  assert_staged_is_covered, validate_replayable, allows_empty,
}
use icechest.Transaction.Coverage.{
  is_empty-sort_texts, is_empty-append, is_empty-uncovered, uncovered_by_nothing,
}
use icechest.Transaction.Frame.{prepare_state, apply_all-KeepsOthers}
use icechest.Transaction.Quiet.{apply_all-Holds}
use icechest.Transaction.Serial.{IsClean, round-catalog}
use icechest.Transaction.Settling.{all-keys, Settles, IsAdditive, IsReady, validate_all-adds}

module _ (P : Platform) where
  open P use {World, Session, Expression, has_uncommitted_changes, session_commit, session_rebase}

  module _ {branch : String} {repo : HybridRepo} {intents : List (TableIntent P)}
      {Takes : Dict String → World → Type 0} (plan : IsAdditive P repo intents Takes)
      {Ahead Behind : ℕ → Session → World → Type 0}
      (settles : Settles P branch Takes Ahead Behind) where
    applied :
        (first : Bool) (tx : Transaction P) (w : World)
        → IsReady P branch repo intents Takes first tx w
        → (apply_all P tx.intents (tx.catalog, w)).0 ≡ ok tt
    applied first tx w ready =
        let same : apply_all P tx.intents (tx.catalog, w)
            ≡ apply_all P intents (catalog_for repo tx.catalog.pointers false, w) =
          cc (ready.planned, ready.clean) in
        rw same (plan.applies tx.catalog.pointers w ready.takes)

    unstaged :
        (tx : Transaction P)
        → IsClean P repo tx.catalog
        → (tx.catalog.staged ≡ []) × (tx.catalog.read_only ≡ false)
    unfolding catalog_for
    unstaged tx clean = (ap (λ c. c.staged) clean, ap (λ c. c.read_only) clean)

    prepare-runs :
        (first : Bool) (tx : Transaction P) (w : World)
        → IsReady P branch repo intents Takes first tx w
        → let c' = (apply_all P tx.intents (tx.catalog, w)).1.0 in
          (prepare P first (tx, w)).0
          ≡ ok (current_pointers c', not (has_uncommitted_changes tx.session))
    unfolding prepare on_catalog allows_empty
    prepare-runs first tx w ready = ground (arith, applied first tx w ready, ready.changed)

    pub round-settles :
        (n : ℕ) (first : Bool) (tx : Transaction P) (w : World)
        → IsReady P branch repo intents Takes first tx w
        → Ahead n tx.session w
        → let (r, s) = round P first (tx, w) in
          ((id : String) × (r ≡ ok (ok id)))
          ⊎ ((m : ℕ) × (n ≡ suc m) × (r ≡ ok (err conflict)) × Behind m s.0.session s.1)
    unfolding round publish
    round-settles n first tx w ready ahead =
        let (c', w₁) = (apply_all P tx.intents (tx.catalog, w)).1 in
        let ahead₁ = apply_all-Holds P (settles.quiet n tx.session) tx.intents tx.catalog w ahead in
        elim (settles.at_commit n tx.message (commit_metadata (current_pointers c')) tx.session w₁
          ahead₁) [
            | inl (id, accepted) ↦ inl (
              id,
              ground (arith, prepare-runs first tx w ready, prepare_state P first tx w, accepted),
            )
            | inr (m, less, refused, behind) ↦ inr (
              m,
              less,
              ground (arith, prepare-runs first tx w ready, prepare_state P first tx w, refused),
              ground (arith, prepare-runs first tx w ready, prepare_state P first tx w, behind),
            )
          ]

    -- What the intents staged is theirs.
    pub round-covered :
        (first : Bool) (tx : Transaction P) (w : World)
        → IsReady P branch repo intents Takes first tx w
        → let c' = (round P first (tx, w)).1.0.catalog in
          (all (contains_text (map (intent_name P) intents)) (Dict.keys c'.staged) ≡ true)
          × ((pointers : Dict String) → rebase_onto pointers c' ≡ catalog_for repo pointers false)
    unfolding round publish
    round-covered first tx w ready =
        let c' = (apply_all P tx.intents (tx.catalog, w)).1.0 in
        let kept = apply_all-KeepsOthers P tx.intents tx.catalog w in
        let covered = all-keys (contains_text (map (intent_name P) intents)) c'.staged (λ j absent.
          ground (
            arith,
            kept.others j,
            ready.planned,
            plan.plain,
            (unstaged tx ready.clean).0,
            get-nil {V = String} j,
          )) in
        (
          ground (arith, prepare_state P first tx w, covered),
          λ pointers. round-catalog P repo first tx w pointers ready.clean,
        )

    assert-covered :
        (tx : Transaction P)
        → tx.unmanaged_staged ≡ []
        → all (contains_text (map (intent_name P) tx.intents)) (Dict.keys tx.catalog.staged) ≡ true
        → assert_staged_is_covered P tx ≡ ok tt
    unfolding assert_staged_is_covered orphaned
    assert-covered tx managed covered =
        let names = uncovered (map (intent_name P) tx.intents) (Dict.keys tx.catalog.staged) in
        ground (
          arith,
          managed,
          is_empty-sort_texts (tx.unmanaged_staged ++ uncovered tx.unmanaged_staged names),
          is_empty-append tx.unmanaged_staged (uncovered tx.unmanaged_staged names),
          uncovered_by_nothing names,
          is_empty-uncovered (map (intent_name P) tx.intents) (Dict.keys tx.catalog.staged),
        )

    pub recover-settles :
        (m : ℕ) (tx : Transaction P) (w : World)
        → tx.branch ≡ branch
        → tx.intents ≡ intents
        → ((pointers : Dict String)
            → rebase_onto pointers tx.catalog ≡ catalog_for repo pointers false)
        → tx.unmanaged_staged ≡ []
        → all (contains_text (map (intent_name P) intents)) (Dict.keys tx.catalog.staged) ≡ true
        → Behind m tx.session w
        → let (r, s) = recover P (tx, w) in
          (r ≡ ok tt) × IsReady P branch repo intents Takes false s.0 s.1 × Ahead m s.0.session s.1
    unfolding recover rebase_session rebase_onto validate_replayable
    recover-settles m tx w on_branch planned rebases managed covered behind =
        let (rebased, ahead, (tip, read, takes)) = settles.at_rebase m tx.session w behind in
        let asserted = assert-covered tx managed (ground (arith, planned, covered)) in
        let validated =
          validate_all-adds P tx.intents tx.base_snapshots (catalog_for tx.repo tip false) w
            (ground (arith, planned, plan.only_adds)) in
        (
          ground (arith, on_branch, read, asserted, validated, rebased),
          record {
            on_branch = ground (arith, on_branch, read, asserted, validated, rebased);
            planned = ground (arith, on_branch, read, asserted, validated, rebased, planned);
            clean = ground (arith, on_branch, read, asserted, validated, rebased, rebases tip);
            takes = ground (arith, on_branch, read, asserted, validated, rebased, takes);
            managed = ground (arith, on_branch, read, asserted, validated, rebased, managed);
            changed = λ never. cc;
          },
          ground (arith, on_branch, read, asserted, validated, rebased, ahead),
        )
