-- ===== src/Intent/Removal.antt =====
-- When a row-removing intent may be replayed.
use icechest.Base.{
  ℕ, String, ◌≡◌, refl, false, Option, none, some, List, [], ◌∷◌, arith, ◌⊎◌, inl, inr, Bool-cases,
  Option-cases,
}
use icechest.Base.Exec.{ok, Result-cases}
use icechest.Catalog.{IcechunkCatalog, Table, table_exists, load_table}
use icechest.Errors.{Predicate}
use icechest.Intent.{
  TableIntent, delete_rows, overwrite_rows, validate, validate_removal, validate_table,
  refuse_if_any,
}
use icechest.Platform.{Platform}
use icechest.Validation.{conflicting_adds}
use icechest.Validation.Window.{IsFree, conflicting_adds-IsFree}

module _ (P : Platform) where
  open P use {World, Metadata, Rows, Expression, current_snapshot_id}

  module _ (name : String) (predicate : Predicate Expression) (base : Option ℕ)
      (c : IcechunkCatalog) (w : World) where
    -- Why a removal planned on `base` may be replayed on the winner's version.
    pub data IsReplayable : Type 0 where
      no_table : table_exists P name c ≡ false → IsReplayable
      no_rows :
          (table : Table Metadata)
          → load_table P name c w ≡ ok table
          → current_snapshot_id table.metadata ≡ none
          → IsReplayable
      free_window :
          (table : Table Metadata) (base_id tip : ℕ)
          → load_table P name c w ≡ ok table
          → current_snapshot_id table.metadata ≡ some tip
          → base ≡ some base_id
          → IsFree P table.metadata base_id tip predicate c w
          → IsReplayable

    refuse_if_any-ok : (ids : List ℕ) → refuse_if_any P name predicate ids ≡ ok tt → ids ≡ []
    unfolding refuse_if_any
    refuse_if_any-ok [] h = refl
    refuse_if_any-ok (id ∷ ids) h = cc

    validate_table-ok :
        (table : Table Metadata)
        → load_table P name c w ≡ ok table
        → validate_table P name predicate base table.metadata c w ≡ ok tt
        → IsReplayable
    unfolding validate_table
    validate_table-ok table loaded h = elim (Option-cases (current_snapshot_id table.metadata)) [
      | inl empty ↦ no_rows table loaded empty
      | inr (tip, current) ↦ elim (Option-cases base) [
        | inl unanchored ↦ ground arith
        | inr (base_id, anchored) ↦
            elim (Result-cases (conflicting_adds P table.metadata base_id tip predicate c w)) [
              | inl (ids, found) ↦
                  let none_found : ids ≡ [] = refuse_if_any-ok ids (ground arith) in
                  free_window table base_id tip loaded current anchored
                    (conflicting_adds-IsFree P table.metadata base_id tip predicate c w (cc))
              | inr (e, failed) ↦ ground arith
            ]
      ]
    ]

    validate_removal-ok : validate_removal P name predicate base c w ≡ ok tt → IsReplayable
    unfolding validate_removal
    validate_removal-ok h = elim (Bool-cases (table_exists P name c)) [
      | inl there ↦ elim (Result-cases (load_table P name c w)) [
        | inl (table, loaded) ↦ validate_table-ok table loaded (ground arith)
        | inr (e, failed) ↦ ground arith
      ]
      | inr absent ↦ no_table absent
    ]

  -- A delete passes its check against the winner's catalog only where the table is not there, or
  -- holds no rows, or where the version that it was planned on is known and the window from it to
  -- the winner's version is free of foreign files; and so does an overwrite.
  pub validate-IsReplayable :
      (name : String) (rows : Rows) (predicate : Predicate Expression) (base : Option ℕ)
      (c : IcechunkCatalog) (w : World) (intent : TableIntent P)
      → (intent ≡ delete_rows name predicate) ⊎ (intent ≡ overwrite_rows name rows predicate)
      → validate P intent base c w ≡ ok tt
      → IsReplayable name predicate base c w
  unfolding validate
  validate-IsReplayable name rows predicate base c w intent (inl e) h =
      validate_removal-ok name predicate base c w (ground arith)
  validate-IsReplayable name rows predicate base c w intent (inr e) h =
      validate_removal-ok name predicate base c w (ground arith)
