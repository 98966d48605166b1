-- ===== src/Demo/Store/Ensured.antt =====
-- What `ensure_table` leaves on `main`.
use icechest.Base.{
  String, ◌<>◌, ◌≡◌, true, none, some, [], ◌∷◌, ◌++◌, arith, inl, inr, ◌⊎◌, Bool-cases,
  rstrip_slash,
}
use icechest.Base.Dict
use icechest.Base.Dict.{Dict}
use icechest.Base.Exec.{ok, Result-cases, ◌>>=ᵣ◌}
use icechest.Catalog.{current_pointers}
use icechest.Demo.Store.{
  Schemas, granules_schema, granules_partition_spec, granules_sort_order, create_granules,
  create_within, ensure_table,
}
use icechest.Intent.{create}
use icechest.Platform.{Platform}
use icechest.Platform.Laws.{Records}
use icechest.Pointer.{read_pointers}
use icechest.Repo.{read, pointers, snapshot_for, given}
use icechest.Transaction
use icechest.Transaction.{
  default_max_retries, HybridRepo, Transaction, begin, leave, apply_all, prepare, round, publish,
  recover, rebase_session, commit, note_unmanaged,
}
use icechest.Transaction.Atomic.{commit-publishes}
use icechest.Demo.Store.Creation.{commit-has_table}

module _ (P : Platform) (I : Schemas P) where
  open P use {World, RawSchema, Expression, table_name_from, lookup_branch}
  open I use {Source}

  create_granules-intents :
      (source : Source) (name : String) (tx : Transaction P) (w : World)
      → (create_granules P I source name (tx, w)).0 ≡ ok tt
      → ((schema : RawSchema) × (location : String) × ((create_granules P I source name
              (tx, w)).1.0.intents
            ≡ tx.intents
              ++ create name schema location []
                  (granules_partition_spec P I)
                  (granules_sort_order P I)
                ∷ []))
        × ((create_granules P I source name (tx, w)).1.0.branch ≡ tx.branch)
        × ((create_granules P I source name (tx, w)).1.1 ≡ w)
  unfolding create_granules Transaction.create_table
  create_granules-intents source name tx w done = elim (Result-cases (granules_schema P I source)) [
    | inl (schema, made) ↦ (
      (schema, rstrip_slash (tx.repo.warehouse <> "/" <> name), ground arith),
      ground arith,
      ground arith,
    )
    | inr (e, failed) ↦ absurd (ground arith)
  ]

  begin-fresh :
      (repo : HybridRepo) (title : String) (w : World) {tx : Transaction P}
      → begin P repo "main" title default_max_retries none w ≡ ok tx
      → (tx.branch ≡ "main") × (tx.intents ≡ [])
  unfolding begin
  begin-fresh repo title w h = ground arith

  tip_pointers :
      (repo : HybridRepo) (w : World) {found : Dict String}
      → (read P repo (some "main") none none w >>=ᵣ λ tip. pointers P tip w) ≡ ok found
      → (id : String) × (lookup_branch "main" w ≡ ok id) × (read_pointers P id w ≡ ok found)
  unfolding read snapshot_for given pointers
  tip_pointers repo w h = elim (Result-cases (lookup_branch "main" w)) [
    | inl (id, tip) ↦ (id, tip, ground arith)
    | inr (e, failed) ↦ absurd (ground arith)
  ]

  -- The end of `ensure_table` where it begins a transaction.
  abbrev Published : String → Transaction P → World → World → Type 0
  Published name tx w w' =
      (id : String) × (found : Dict String) × (read_pointers P id w' ≡ ok found)
      × (Dict.contains name found ≡ true)
      × (tx.branch ≡ "main")
      × ((commit P (tx, w)).0 ≡ ok id)
      × (w' ≡ (commit P (tx, w)).1.1)

  create_within-Published :
      Records P
      → (source : Source) (name : String) (tx : Transaction P) (w : World)
      → table_name_from name ≡ name
      → tx.branch ≡ "main"
      → tx.intents ≡ []
      → (create_within P I source name (tx, w)).0 ≡ ok tt
      → Published name
          (create_granules P I source name (tx, w)).1.0
          w
          (create_within P I source name (tx, w)).1
  unfolding create_within leave
  create_within-Published laws source name tx w plain on_main fresh done =
      elim (Result-cases (create_granules P I source name (tx, w)).0) [
        | inl (_, created) ↦
            let tx₁ = (create_granules P I source name (tx, w)).1.0 in
            let ((schema, location, planned), branch, same) =
              create_granules-intents source name tx w created in
            elim (Result-cases (commit P (tx₁, w)).0) [
              | inl (id, accepted) ↦
                  let there =
                    commit-has_table P name schema location [] (granules_partition_spec P I)
                      (granules_sort_order P I) tx₁ w id (ground (arith, planned, fresh))
                      accepted in
                  (
                    id,
                    current_pointers (commit P (tx₁, w)).1.0.catalog,
                    ground (arith, same, (commit-publishes P laws tx₁ w id accepted).0),
                    ground (arith, there, plain),
                    ground (arith, branch),
                    accepted,
                    ground (arith, same),
                  )
              | inr (e, failed) ↦ absurd (ground (arith, same))
            ]
        | inr (e, failed) ↦ absurd (ground arith)
      ]

  -- Where a commit of the repository keeps its metadata, an `ensure_table` that returns, for a plain
  -- name, has either found the table in the tip of `main`, and changed nothing, or has committed a
  -- transaction on `main` whose snapshot has it.
  pub ensure_table-there :
      Records P
      → (repo : HybridRepo) (source : Source) (name : String) (w : World)
      → table_name_from name ≡ name
      → (ensure_table P I repo source name w).0 ≡ ok tt
      → let w' = (ensure_table P I repo source name w).1 in
        (id : String) × (found : Dict String) × (read_pointers P id w' ≡ ok found)
        × (Dict.contains name found ≡ true)
        × (((lookup_branch "main" w ≡ ok id) × (w' ≡ w))
            ⊎ ((tx : Transaction P) × (tx.branch ≡ "main")
                × ((commit P (tx, w)).0 ≡ ok id)
                × (w' ≡ (commit P (tx, w)).1.1)))
  unfolding ensure_table create_within
  ensure_table-there laws repo source name w plain done =
      elim (Result-cases (read P repo (some "main") none none w >>=ᵣ λ tip. pointers P tip w)) [
        | inr (e, failed) ↦ absurd (ground arith)
        | inl (found, looked) ↦ elim (Bool-cases (Dict.contains name found)) [
          | inl there ↦
              let (id, tip, held) = tip_pointers repo w looked in
              (id, found, ground (arith, held), there, inl (tip, ground arith))
          | inr absent ↦
              let title = "create " <> (name <> " table") in
              elim (Result-cases (begin P repo "main" title default_max_retries none w)) [
                | inr (e, failed) ↦ absurd (ground arith)
                | inl (tx, began) ↦
                    let (id, held, at, there, branch, accepted, ends) =
                      create_within-Published laws source name tx w plain
                        (begin-fresh repo title w began).0 (begin-fresh repo title w began).1
                        (ground arith) in
                    (
                      id,
                      held,
                      ground (arith, at),
                      there,
                      inr (
                        (create_granules P I source name (tx, w)).1.0,
                        branch,
                        accepted,
                        ground (arith, ends),
                      ),
                    )
              ]
        ]
      ]
