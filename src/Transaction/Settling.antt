-- ===== src/Transaction/Settling.antt =====
-- How other writers stand in the way of a transaction that only adds.
pub mod Steps
pub mod Turns
use icechest.Base.{
  ℕ, zero, suc, ◌≤◌, String, ◌≡◌, ◌∙◌, refl, ap, Bool, true, false, not, Option, none, List, [],
  ◌∷◌, ◌++◌, map, arith, inl, inr, ◌⊎◌, all, contains_text, eq_refl,
}
use icechest.Base.Dict
use icechest.Base.Dict.{Dict, get-nil}
use icechest.Base.Exec.{Result, ok, err, raise, ◌>>◌, ◌>>=◌}
use icechest.Catalog.{IcechunkCatalog, current_pointers, rebase_onto}
use icechest.Errors.{Error, conflict}
use icechest.Formats.{CommitMetadata}
use icechest.Intent.{
  TableIntent, create, append_rows, delete_rows, overwrite_rows, intent_name, validate,
}
use icechest.Platform.{Platform}
use icechest.Platform.Laws.{IsQuiet}
use icechest.Pointer.{commit_metadata, read_pointers_at_branch}
use icechest.Transaction.Serial.{IsClean}
use icechest.Transaction.State.{HybridRepo, Transaction, TransactionExec, catalog_for, on_catalog}
use icechest.Transaction.Commit.{
  apply_all, prepare, publish, round, conclude, recover, rebase_session, commit_rounds, commit,
  note_unmanaged, orphaned, uncovered, assert_staged_is_covered, validate_all, validate_replayable,
  allows_empty,
}
use icechest.Transaction.Coverage.{
  is_empty-sort_texts, is_empty-append, is_empty-uncovered, uncovered_by_nothing,
}
use icechest.Transaction.Frame.{prepare_state, round_state, apply_all-KeepsOthers, staged_name}
use icechest.Transaction.Quiet.{apply_all-Holds}
use icechest.Transaction.Rounds.{Outcome}

pub all-keys :
    (p : String → Bool) (d : Dict String)
    → ((j : String) → p j ≡ false → Dict.get j d ≡ none)
    → all p (Dict.keys d) ≡ true
unfolding Dict.keys Dict.get
all-keys p [] h = refl
all-keys p ((k, v) ∷ d) h =
    ground (arith, h k, eq_refl k, all-keys p d (λ j absent. ground (arith, h j absent)))

module _ (P : Platform) where
  open P use {World, Session, Expression, has_uncommitted_changes, session_commit, session_rebase}

  -- Other writers stand in the way of a session on `branch`: at most `n` times before a commit of
  -- it (`Ahead n`), and as many more times after one that they have made conflict (`Behind n`). A
  -- commit is accepted, or conflicts with one of those; a rebase then goes through, and the branch
  -- can be read, at pointers of which `Takes` holds after the rebase.
  pub record Settles (branch : String) (Takes : Dict String → World → Type 0)
      (Ahead Behind : ℕ → Session → World → Type 0) : Type 0 where
    pub quiet : (n : ℕ) (session : Session) → IsQuiet P (Ahead n session)
    pub at_commit :
        (n : ℕ) (message : String) (metadata : CommitMetadata) (session : Session) (w : World)
        → Ahead n session w
        → let sent =
            session_commit message metadata (not (has_uncommitted_changes session)) session w in
          ((id : String) × (sent.0 ≡ ok id))
          ⊎ ((m : ℕ) × (n ≡ suc m) × (sent.0 ≡ err conflict) × Behind m sent.1 sent.2)
    pub at_rebase :
        (n : ℕ) (session : Session) (w : World)
        → Behind n session w
        → ((session_rebase session w).0 ≡ ok tt)
          × Ahead n (session_rebase session w).1 (session_rebase session w).2
          × ((pointers : Dict String) × (read_pointers_at_branch P branch w ≡ ok pointers)
              × Takes pointers (session_rebase session w).2)

  pub conclude-ok :
      (again : TransactionExec P String) (x : Outcome P) (id : String)
      → x.0 ≡ ok (ok id)
      → (((λ _. x) >>= conclude P again) x.1).0 ≡ ok id
  unfolding conclude
  conclude-ok again (ok (ok found), s) id sent = ground arith
  conclude-ok again (ok (err e), s) id sent = cc
  conclude-ok again (err e, s) id sent = cc

  pub conclude-conflict :
      (again : TransactionExec P String) (x : Outcome P)
      → x.0 ≡ ok (err conflict)
      → ((λ _. x) >>= conclude P again) x.1 ≡ again x.1
  unfolding conclude
  conclude-conflict again (ok (ok found), s) refused = cc
  conclude-conflict again (ok (err e), s) refused = let same : e ≡ conflict = cc in rw same refl
  conclude-conflict again (err e, s) refused = cc

  pub ran :
      (rest : TransactionExec P String)
      (x : Result (Error Expression) (Unit {0}) × (Transaction P × World))
      → x.0 ≡ ok tt
      → ((λ _. x) >> rest) x.1 ≡ rest x.1
  ran rest (ok _, s) done = refl
  ran rest (err e, s) done = cc

  -- An intent that takes no rows away.
  unfoldable pub adds : TableIntent P → Bool
  adds (create _ _ _ _ _ _) = true
  adds (append_rows _ _) = true
  adds (delete_rows _ _) = false
  adds (overwrite_rows _ _ _) = false

  pub validate_all-adds :
      (intents : List (TableIntent P)) (bases : Dict (Option ℕ)) (c : IcechunkCatalog) (w : World)
      → all adds intents ≡ true
      → validate_all P intents bases c w ≡ ok tt
  unfolding validate_all validate adds
  validate_all-adds [] bases c w h = refl
  validate_all-adds (create _ _ _ _ _ _ ∷ rest) bases c w h = validate_all-adds rest bases c w h
  validate_all-adds (append_rows _ _ ∷ rest) bases c w h = validate_all-adds rest bases c w h
  validate_all-adds (delete_rows _ _ ∷ rest) bases c w h = cc
  validate_all-adds (overwrite_rows _ _ _ ∷ rest) bases c w h = cc

  -- What is planned, and that it can be applied to a new catalog of any pointers, in any world, of
  -- which `Takes` holds: that they have the tables that rows are appended to, for instance.
  pub record IsAdditive (repo : HybridRepo) (intents : List (TableIntent P))
      (Takes : Dict String → World → Type 0) : Type 0 where
    pub only_adds : all adds intents ≡ true
    pub plain : map (staged_name P) intents ≡ map (intent_name P) intents
    pub applies :
        (pointers : Dict String) (w : World)
        → Takes pointers w
        → (apply_all P intents (catalog_for repo pointers false, w)).0 ≡ ok tt

  -- A transaction before a round.
  pub record IsReady (branch : String) (repo : HybridRepo) (intents : List (TableIntent P))
      (Takes : Dict String → World → Type 0) (first : Bool) (tx : Transaction P) (w : World)
      : Type 0 where
    pub on_branch : tx.branch ≡ branch
    pub planned : tx.intents ≡ intents
    pub clean : IsClean P repo tx.catalog
    pub takes : Takes tx.catalog.pointers w
    pub managed : tx.unmanaged_staged ≡ []
    pub changed : first ≡ true → has_uncommitted_changes tx.session ≡ true
