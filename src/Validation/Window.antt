-- ===== src/Validation/Window.antt =====
-- The snapshots that `conflicting_adds` answers with, for the window after the base and up to the tip.
use icechest.Base.{
  ℕ, ◌≡◌, ◌∙◌, refl, Bool, true, false, not, ◌&&◌, inl, inr, Option, none, some, List, [], ◌∷◌,
  arith, nat_eq, any, all, IsAscending, sorted_set, sorted_set-IsAscending, any-sorted_set,
  Bool-cases, Option-cases,
}
use icechest.Base.Exec.{Result, ok, err}
use icechest.Catalog.{IcechunkCatalog}
use icechest.Errors.{Error, Predicate, validation_exception}
use icechest.Platform.{Platform}
use icechest.Validation.{foreign_ids, ids_of_walk, walk, conflicting_adds}

-- The entry belongs to the snapshot `id`.
abbrev pub is_of : ℕ → Option ℕ → Bool
is_of id none = false
is_of id (some x) = nat_eq x id

any-foreign_ids :
    (id base : ℕ) (entries : List (Option ℕ))
    → any (λ x. nat_eq x id) (foreign_ids base entries)
      ≡ (any (is_of id) entries && not (nat_eq id base))
unfolding foreign_ids
any-foreign_ids id base [] = refl
any-foreign_ids id base (none ∷ entries) = any-foreign_ids id base entries
any-foreign_ids id base (some x ∷ entries) = ground (arith, any-foreign_ids id base entries)

-- An entry is harmless if it is the base snapshot's, or has no snapshot.
abbrev pub is_harmless : ℕ → Option ℕ → Bool
is_harmless base none = true
is_harmless base (some x) = nat_eq x base

foreign_ids-eq-nil :
    (base : ℕ) (entries : List (Option ℕ))
    → foreign_ids base entries ≡ []
    → all (is_harmless base) entries ≡ true
unfolding foreign_ids
foreign_ids-eq-nil base [] h = refl
foreign_ids-eq-nil base (none ∷ entries) h = foreign_ids-eq-nil base entries h
foreign_ids-eq-nil base (some x ∷ entries) h = ground (arith, foreign_ids-eq-nil base entries)

sorted_set-eq-nil : (xs : List ℕ) → sorted_set xs ≡ [] → xs ≡ []
sorted_set-eq-nil [] h = refl
sorted_set-eq-nil (x ∷ xs) h = ground (arith, any-sorted_set (λ y. true) (x ∷ xs))

module _ (P : Platform) where
  open P use {World, Metadata, Snapshot, Expression, snapshot_by_id}

  module _ (metadata : Metadata) (base tip : ℕ) (predicate : Predicate Expression)
      (c : IcechunkCatalog) (w : World) where
    -- Why a window counts as free of conflicts.
    pub data IsFree : Type 0 where
      same_version : base ≡ tip → IsFree
      only_harmless :
          (base_snapshot tip_snapshot : Snapshot) (entries : List (Option ℕ))
          → snapshot_by_id metadata base ≡ some base_snapshot
          → snapshot_by_id metadata tip ≡ some tip_snapshot
          → walk P metadata predicate c w tip_snapshot base_snapshot ≡ ok entries
          → all (is_harmless base) entries ≡ true
          → IsFree

    ids_of_walk-eq-nil :
        (r : Result (Error Expression) (List (Option ℕ)))
        → ids_of_walk P base tip r ≡ ok []
        → (entries : List (Option ℕ)) × (r ≡ ok entries) × (all (is_harmless base) entries ≡ true)
    unfolding ids_of_walk
    ids_of_walk-eq-nil (ok entries) h = (
      entries,
      refl,
      foreign_ids-eq-nil base entries (sorted_set-eq-nil (foreign_ids base entries) (cc)),
    )
    ids_of_walk-eq-nil (err validation_exception) h = cc
    ids_of_walk-eq-nil (err _) h = cc

    -- No conflict is reported only where the two versions are one, or where the history holds
    -- both, the walk between them ended, and each file that it found is the base snapshot's own.
    pub conflicting_adds-IsFree :
        conflicting_adds P metadata base tip predicate c w ≡ ok [] → IsFree
    unfolding conflicting_adds
    conflicting_adds-IsFree h = elim (Bool-cases (nat_eq base tip)) [
      | inl same ↦ same_version (ground arith)
      | inr differ ↦ elim (Option-cases (snapshot_by_id metadata base)) [
        | inl unknown ↦ ground arith
        | inr (b, base_known) ↦ elim (Option-cases (snapshot_by_id metadata tip)) [
          | inl unknown ↦ ground arith
          | inr (t, tip_known) ↦
              let (entries, walked, harmless) =
                ids_of_walk-eq-nil (walk P metadata predicate c w t b) (ground arith) in
              only_harmless b t entries base_known tip_known walked harmless
        ]
      ]
    ]

    -- Where the walk between two versions ends, the ids are those of the files that it found,
    -- without repetition, in ascending order, the base snapshot's left out.
    pub conflicting_adds-exact :
        (base_snapshot tip_snapshot : Snapshot) (entries : List (Option ℕ))
        → nat_eq base tip ≡ false
        → snapshot_by_id metadata base ≡ some base_snapshot
        → snapshot_by_id metadata tip ≡ some tip_snapshot
        → walk P metadata predicate c w tip_snapshot base_snapshot ≡ ok entries
        → (ids : List ℕ) × (conflicting_adds P metadata base tip predicate c w ≡ ok ids)
          × IsAscending ids
          × ((id : ℕ)
              → any (λ x. nat_eq x id) ids ≡ (any (is_of id) entries && not (nat_eq id base)))
    unfolding conflicting_adds ids_of_walk
    conflicting_adds-exact b t entries differ base_known tip_known walked = (
      sorted_set (foreign_ids base entries),
      ground arith,
      sorted_set-IsAscending (foreign_ids base entries),
      λ id. any-sorted_set _ (foreign_ids base entries) ∙ any-foreign_ids id base entries,
    )
