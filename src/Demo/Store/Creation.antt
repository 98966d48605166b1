-- ===== src/Demo/Store/Creation.antt =====
-- What a transaction that creates one table leaves.
use icechest.Base.{String, ◌≡◌, ◌∙◌, Bool, true, some, [], ◌∷◌, arith, inl, inr, eq_refl}
use icechest.Base.Dict
use icechest.Base.Dict.{Dict}
use icechest.Base.Exec.{Result, ok, Result-cases}
use icechest.Catalog.{
  IcechunkCatalog, current_pointers, create_table, table_exists, rebase_onto, Table,
}
use icechest.Catalog.Resolution.{get-current_pointers-stage}
use icechest.Catalog.Staging.{Stages, staged_one, untouched, create_table-Stages}
use icechest.Errors.{Error}
use icechest.Intent.{TableIntent, create, apply}
use icechest.Platform.{Platform}
use icechest.Transaction.{
  Transaction, apply_all, prepare, round, publish, recover, rebase_session, commit, note_unmanaged,
}
use icechest.Transaction.Frame.{prepare_state, prepare_ok, round_state}
use icechest.Transaction.Rounds.{LoopRule, commit_rounds_rule}

module _ (P : Platform) where
  open P use {World, RawSchema, PartitionSpec, SortOrder, Expression, table_name_from}

  -- The catalog has the table under the name.
  abbrev pub has_table : String → IcechunkCatalog → Bool
  has_table name c = Dict.contains (table_name_from name) (current_pointers c)

  Stages-has_table :
      (name : String) (c : IcechunkCatalog)
      (outcome : Result (Error Expression) (Table P.Metadata) × (IcechunkCatalog × World))
      → Stages (table_name_from name) (λ (t : Table P.Metadata). t.metadata_location) c outcome
      → {t : Table P.Metadata} → outcome.0 ≡ ok t
      → has_table name outcome.1.0 ≡ true
  Stages-has_table name c outcome (staged_one t done staged) h =
      let at = table_name_from name in
      ground (arith, staged, get-current_pointers-stage at at t.metadata_location c, eq_refl at)
  Stages-has_table name c outcome (untouched e failed same) h = absurd (ground arith)

  module _ (name : String) (schema : RawSchema) (location : String) (properties : Dict String)
      (spec : PartitionSpec) (order : SortOrder) where
    abbrev creation : TableIntent P
    creation = create name schema location properties spec order

    apply-has_table :
        (c : IcechunkCatalog) (w : World)
        → (apply P creation (c, w)).0 ≡ ok tt
        → has_table name (apply P creation (c, w)).1.0 ≡ true
    unfolding apply table_exists
    apply-has_table c w done =
        let made = create_table P name schema (some location) spec order properties (c, w) in
        elim (Result-cases made.0) [
          | inl (t, created) ↦ ground (
            arith,
            Stages-has_table name c made
                (create_table-Stages P name schema (some location) spec order properties c w)
                {t = t},
          )
          | inr (e, failed) ↦ ground arith
        ]

    round-has_table :
        (first : Bool) (tx : Transaction P) (w : World) {id : String}
        → tx.intents ≡ creation ∷ []
        → (round P first (tx, w)).0 ≡ ok (ok id)
        → has_table name (round P first (tx, w)).1.0.catalog ≡ true
    unfolding round publish apply_all
    round-has_table first tx w {id} planned sent = elim (Result-cases (prepare P first (tx, w)).0) [
      | inl ((found, allow_empty), ready) ↦ ground (
        arith,
        planned,
        prepare_state P first tx w,
        prepare_ok P first {pointers = found} {allow_empty = allow_empty} tx w,
        apply-has_table tx.catalog w,
      )
      | inr (e, raised) ↦ ground arith
    ]

    recover-intents :
        (tx : Transaction P) (w : World) → (recover P (tx, w)).1.0.intents ≡ tx.intents
    unfolding recover rebase_session rebase_onto
    recover-intents tx w = ground arith

    has_table_rule :
        LoopRule P
          (λ _ tx _. tx.intents ≡ creation ∷ [])
          (λ r tx _. (id : String) → r ≡ ok id → has_table name tx.catalog ≡ true)
    has_table_rule = record {
      raised = λ first tx w h e failed id same. cc;
      published = λ first tx w h id done id' same. round-has_table first tx w {id = id} h done;
      refused = λ first tx w h e failed id same. cc;
      not_recovered = λ first tx w h conflicted e failed id same. cc;
      recovered = λ first tx w h conflicted done.
          let s = (round P first (tx, w)).1 in
          recover-intents s.0 s.1 ∙ (round_state P first tx w).intents ∙ h;
    }

    -- A commit that returns has the table that it was to create in its catalog.
    pub commit-has_table :
        (tx : Transaction P) (w : World) (id : String)
        → tx.intents ≡ creation ∷ []
        → (commit P (tx, w)).0 ≡ ok id
        → has_table name (commit P (tx, w)).1.0.catalog ≡ true
    unfolding commit note_unmanaged
    commit-has_table tx w id planned done =
        commit_rounds_rule P has_table_rule tx.max_retries true (note_unmanaged P tx) w planned id
          done
