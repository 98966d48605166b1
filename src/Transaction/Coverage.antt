-- ===== src/Transaction/Coverage.antt =====
-- Work that was staged outside the intents, and what a rebase may do to it.
use icechest.Base.{
  ℕ, zero, suc, String, ◌≡◌, ◌≢◌, refl, true, false, not, ◌&&◌, List, [], ◌∷◌, ◌++◌, map, arith,
  is_empty, any, all, contains_text, sort_texts, any-sort_texts,
}
use icechest.Base.Dict
use icechest.Base.Dict.{Dict}
use icechest.Base.Exec.{ok, raise, ◌>>◌}
use icechest.Errors.{conflict}
use icechest.Intent.{intent_name}
use icechest.Platform.{Platform}
use icechest.Transaction.State.{Transaction}
use icechest.Transaction.Commit.{
  uncovered, orphaned, assert_staged_is_covered, round, recover, commit_rounds, commit,
  note_unmanaged,
}
use icechest.Transaction.Frame.{round_state}
use icechest.Transaction.Rounds.{after_round, after_recover}

-- A list is empty if nothing at all is in it.
is_empty-any : (xs : List String) → is_empty xs ≡ not (any (λ _. true) xs)
is_empty-any [] = refl
is_empty-any (x ∷ xs) = refl

pub is_empty-sort_texts : (xs : List String) → is_empty (sort_texts xs) ≡ is_empty xs
is_empty-sort_texts xs =
    ground (arith, is_empty-any xs, is_empty-any (sort_texts xs), any-sort_texts (λ _. true) xs)

pub is_empty-uncovered :
    (covered names : List String)
    → is_empty (uncovered covered names) ≡ all (contains_text covered) names
unfolding uncovered
is_empty-uncovered covered [] = refl
is_empty-uncovered covered (name ∷ names) = ground (arith, is_empty-uncovered covered names)

pub is_empty-append : (xs ys : List String) → is_empty (xs ++ ys) ≡ (is_empty xs && is_empty ys)
is_empty-append [] ys = refl
is_empty-append (x ∷ xs) ys = refl

is_empty_lem : (xs : List String) → is_empty xs ≡ true → xs ≡ []
is_empty_lem [] h = refl
is_empty_lem (x ∷ xs) h = cc

pub uncovered_by_nothing : (names : List String) → uncovered [] names ≡ names
unfolding uncovered
uncovered_by_nothing [] = refl
uncovered_by_nothing (name ∷ names) = ground (arith, uncovered_by_nothing names)

is_empty-keys : (d : Dict String) → is_empty (Dict.keys d) ≡ is_empty d
unfolding Dict.keys
is_empty-keys [] = refl
is_empty-keys (item ∷ d) = refl

module _ (P : Platform) where
  open P use {World, Expression}

  orphaned-nil :
      (tx : Transaction P)
      → is_empty (orphaned P tx) ≡ true
      → (tx.unmanaged_staged ≡ [])
        × (all (contains_text (map (intent_name P) tx.intents)) (Dict.keys tx.catalog.staged)
            ≡ true)
  unfolding orphaned
  orphaned-nil tx h =
      let covered = map (intent_name P) tx.intents in
      let names = uncovered covered (Dict.keys tx.catalog.staged) in
      ground (
        arith,
        is_empty-sort_texts (tx.unmanaged_staged ++ uncovered tx.unmanaged_staged names),
        is_empty-append tx.unmanaged_staged (uncovered tx.unmanaged_staged names),
        is_empty_lem tx.unmanaged_staged,
        uncovered_by_nothing names,
        is_empty-uncovered covered (Dict.keys tx.catalog.staged),
      )

  -- `_assert_staged_is_covered` passes only if nothing was staged before the loop, and each staged
  -- name is that of an intent.
  assert_staged_is_covered-ok :
      (tx : Transaction P)
      → assert_staged_is_covered P tx ≡ ok tt
      → (tx.unmanaged_staged ≡ [])
        × (all (contains_text (map (intent_name P) tx.intents)) (Dict.keys tx.catalog.staged)
            ≡ true)
  unfolding assert_staged_is_covered
  assert_staged_is_covered-ok tx h = ground (arith, orphaned-nil tx)

  recover-covered :
      (tx : Transaction P) (w : World)
      → (recover P (tx, w)).0 ≡ ok tt
      → assert_staged_is_covered P tx ≡ ok tt
  unfolding recover
  recover-covered tx w h = ground arith

  module _ (tx : Transaction P) (w : World) (staged : is_empty tx.catalog.staged ≡ false) where
    noted : Transaction P
    noted = note_unmanaged P tx

    not_recovered : (recover P (round P true (noted, w)).1).0 ≢ ok tt
    unfolding noted note_unmanaged
    not_recovered recovered =
        let s = (round P true (noted, w)).1 in
        ground (
          arith,
          is_empty-keys tx.catalog.staged,
          round_state P true noted w,
          assert_staged_is_covered-ok s.0 (recover-covered s.0 s.1 recovered),
        )

    first_round :
        (retries : ℕ) (id : String)
        → (commit_rounds P retries true (noted, w)).0 ≡ ok id
        → (round P true (noted, w)).0 ≡ ok (ok id)
    unfolding commit_rounds
    first_round zero id =
        after_round P (λ r _ _. r ≡ ok id → (round P true (noted, w)).0 ≡ ok (ok id))
          (raise conflict) (round P true (noted, w)) (λ e failed same. cc) (λ id' done same. cc)
          (λ e failed same. cc) (λ conflicted same. cc)
    first_round (suc n) id =
        let s = (round P true (noted, w)).1 in
        after_round P (λ r _ _. r ≡ ok id → (round P true (noted, w)).0 ≡ ok (ok id))
          (recover P >> commit_rounds P n false) (round P true (noted, w)) (λ e failed same. cc)
          (λ id' done same. cc) (λ e failed same. cc)
          (λ conflicted.
            after_recover P (λ r _ _. r ≡ ok id → (round P true (noted, w)).0 ≡ ok (ok id))
              (commit_rounds P n false) (recover P s) (λ e failed same. cc)
              (λ recovered. absurd (not_recovered recovered)))

  -- A commit that began with work staged outside the intents returns an id only if its first round
  -- published it: none of its ids comes of a round after a rebase.
  pub commit-never_drops :
      (tx : Transaction P) (w : World) (id : String)
      → is_empty tx.catalog.staged ≡ false
      → (commit P (tx, w)).0 ≡ ok id
      → (round P true (note_unmanaged P tx, w)).0 ≡ ok (ok id)
  unfolding commit noted
  commit-never_drops tx w id staged done = first_round tx w staged tx.max_retries id done
