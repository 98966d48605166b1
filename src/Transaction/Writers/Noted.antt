-- ===== src/Transaction/Writers/Noted.antt =====
-- What a staging call leaves of a transaction: all but its intents, the captured edges, and what its
-- session has staged.
use icechest.Base.{
  String, ◌≡◌, refl, Bool, true, not, List, [], ◌∷◌, ◌++◌, ◌&&◌, ◌==◌, arith, none, some, inl, inr,
  rstrip_slash, text_or, ◌<>◌,
}
use icechest.Base.Exec.{Result-cases}
use icechest.Convention.{declare}
use icechest.Intent.{TableIntent, create, append_rows, delete_rows, overwrite_rows}
use icechest.Platform.{Platform}
use icechest.Platform.Laws.{KeepsPlace}
use icechest.Transaction.State.{Transaction}
use icechest.Transaction.Staging.{create_table, append, delete, overwrite, capture_base_snapshot}
use icechest.Transaction.Rows.{only_appends}
use icechest.Transaction.Window.{Operation, creating, appending, deleting, overwriting, perform}

module _ (P : Platform) where
  open P use {
    World, Expression, open_group, group_attributes, update_attributes, session_branch,
    session_snapshot_id, table_name_from,
  }

  -- The call is an append, or about another table than `j`.
  abbrev pub harmless : String → Operation P → Bool
  harmless j (appending name rows) = true
  harmless j (creating name schema location properties spec order) = not (table_name_from name == j)
  harmless j (deleting name predicate) = not (table_name_from name == j)
  harmless j (overwriting name rows predicate) = not (table_name_from name == j)

  pub record IsNoted (tx tx' : Transaction P) : Type 0 where
    pub branch : tx'.branch ≡ tx.branch
    pub repo : tx'.repo ≡ tx.repo
    pub catalog : tx'.catalog ≡ tx.catalog
    pub on_branch : session_branch tx'.session ≡ session_branch tx.session
    pub base : session_snapshot_id tx'.session ≡ session_snapshot_id tx.session

  pub perform-world :
      (operation : Operation P) (tx : Transaction P) (w : World)
      → (perform P operation (tx, w)).1.1 ≡ w
  unfolding perform create_table append delete overwrite capture_base_snapshot
  perform-world (creating name schema location properties spec order) tx w = ground arith
  perform-world (appending name rows) tx w = refl
  perform-world (deleting name predicate) tx w = ground arith
  perform-world (overwriting name rows predicate) tx w = ground arith

  pub perform-IsNoted :
      (in_place : KeepsPlace P) (operation : Operation P) (tx : Transaction P) (w : World)
      → IsNoted tx (perform P operation (tx, w)).1.0
  unfolding perform create_table append delete overwrite capture_base_snapshot
  perform-IsNoted in_place (creating name schema location properties spec order) tx w =
      elim (Result-cases (open_group tx.session)) [
        | inl (opened, at_o) ↦
            let at = rstrip_slash (text_or location (tx.repo.warehouse <> "/" <> name)) in
            let open_kept = in_place.at_open tx.session at_o in
            elim (Result-cases (group_attributes opened)) [
              | inl (attributes, read) ↦
                  elim (Result-cases
                    (declare {E = Expression} ((name, record { location = at }) ∷ []) attributes)) [
                      | inl (none, same) ↦ ground (arith, open_kept)
                      | inl (some updated, differs) ↦
                          elim (Result-cases (update_attributes updated opened)) [
                            | inl (written, at_u) ↦
                                ground (arith, open_kept, in_place.at_update updated opened at_u)
                            | inr (e, failed) ↦ ground (arith, open_kept)
                          ]
                      | inr (e, failed) ↦ ground (arith, open_kept)
                    ]
              | inr (e, failed) ↦ ground (arith, open_kept)
            ]
        | inr (e, failed) ↦ ground arith
      ]
  perform-IsNoted in_place (appending name rows) tx w = ground arith
  perform-IsNoted in_place (deleting name predicate) tx w = ground arith
  perform-IsNoted in_place (overwriting name rows predicate) tx w = ground arith

  only_appends-snoc :
      (j : String) (intents : List (TableIntent P)) (intent : TableIntent P)
      → only_appends P j (intents ++ intent ∷ [])
        ≡ (only_appends P j intents && only_appends P j (intent ∷ []))
  only_appends-snoc j [] intent = refl
  only_appends-snoc j (append_rows other more ∷ rest) intent = only_appends-snoc j rest intent
  only_appends-snoc j (create other schema location properties spec order ∷ rest) intent =
      ground (arith, only_appends-snoc j rest intent)
  only_appends-snoc j (delete_rows other predicate ∷ rest) intent =
      ground (arith, only_appends-snoc j rest intent)
  only_appends-snoc j (overwrite_rows other more predicate ∷ rest) intent =
      ground (arith, only_appends-snoc j rest intent)

  -- Intents that do nothing to the table `j` but append to it.
  abbrev pub AppendsOnly : String → List (TableIntent P) → Type 0
  AppendsOnly j intents = only_appends P j intents ≡ true

  -- After a harmless call, no intent but appends is about `j`, if that was so before.
  pub perform-only_appends :
      (j : String) (operation : Operation P) (tx : Transaction P) (w : World)
      → harmless j operation ≡ true
      → AppendsOnly j tx.intents
      → AppendsOnly j (perform P operation (tx, w)).1.0.intents
  unfolding perform create_table append delete overwrite capture_base_snapshot
  perform-only_appends j (creating name schema location properties spec order) tx w allowed only =
      let at = rstrip_slash (text_or location (tx.repo.warehouse <> "/" <> name)) in
      ground (arith, only_appends-snoc j tx.intents (create name schema at properties spec order))
  perform-only_appends j (appending name rows) tx w allowed only =
      ground (arith, only_appends-snoc j tx.intents (append_rows name rows))
  perform-only_appends j (deleting name predicate) tx w allowed only =
      ground (arith, only_appends-snoc j tx.intents (delete_rows name predicate))
  perform-only_appends j (overwriting name rows predicate) tx w allowed only =
      ground (arith, only_appends-snoc j tx.intents (overwrite_rows name rows predicate))
