-- ===== src/Validation.antt =====
-- validation.py: which snapshots between the planned version and the winning one added rows that
-- a predicate may match.
pub mod Window
use icechest.Base.{
  ℕ, Bool, true, false, Option, none, some, List, [], ◌∷◌, if◌then◌else◌, nat_eq, sorted_set,
}
use icechest.Base.Exec.{Result, ok, err, ◌>>=ᵣ◌}
use icechest.Catalog.{IcechunkCatalog}
use icechest.Errors.{Error, Predicate, text, expression, validation_exception}
use icechest.Platform.{Platform}

-- The ids of the entries that have one and do not belong to the base snapshot.
unfoldable pub foreign_ids : ℕ → List (Option ℕ) → List ℕ
foreign_ids base [] = []
foreign_ids base (none ∷ entries) = foreign_ids base entries
foreign_ids base (some id ∷ entries) =
    if nat_eq id base then foreign_ids base entries else id ∷ foreign_ids base entries

module _ (P : Platform) where
  open P use {
    World, Metadata, Snapshot, Expression, load_file_io, snapshot_by_id, parse, added_data_files,
  }

  unfoldable pub as_predicate : Predicate Expression → Result (Error Expression) Expression
  as_predicate (text s) = parse s
  as_predicate (expression e) = ok e

  -- The `try` around the walk: a `ValidationException` becomes a conflict at the tip.
  unfoldable pub ids_of_walk :
      ℕ → ℕ → Result (Error Expression) (List (Option ℕ)) → Result (Error Expression) (List ℕ)
  ids_of_walk base tip (ok entries) = ok (sorted_set (foreign_ids base entries))
  ids_of_walk base tip (err validation_exception) = ok (tip ∷ [])
  ids_of_walk base tip (err e) = err e

  -- The walk from the tip back to the base, where the history holds both.
  unfoldable pub walk :
      Metadata
      → Predicate Expression
      → IcechunkCatalog
      → World
      → Snapshot
      → Snapshot
      → Result (Error Expression) (List (Option ℕ))
  walk metadata predicate c w tip base = as_predicate predicate >>=ᵣ λ filter.
      added_data_files (load_file_io c.properties) metadata tip filter base w

  unfoldable pub conflicting_adds :
      Metadata
      → ℕ
      → ℕ
      → Predicate Expression
      → IcechunkCatalog
      → World
      → Result (Error Expression) (List ℕ)
  conflicting_adds metadata base_snapshot_id tip_snapshot_id predicate c w =
      if nat_eq base_snapshot_id tip_snapshot_id
      then ok []
      else elim (snapshot_by_id metadata base_snapshot_id) [
        | none ↦ ok (tip_snapshot_id ∷ [])
        | some base ↦ elim (snapshot_by_id metadata tip_snapshot_id) [
          | none ↦ ok (tip_snapshot_id ∷ [])
          | some tip ↦
              ids_of_walk base_snapshot_id tip_snapshot_id (walk metadata predicate c w tip base)
        ]
      ]
