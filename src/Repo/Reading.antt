-- ===== src/Repo/Reading.antt =====
-- Which snapshot `read` opens, which version of a table it shows, and what it says of a table that
-- it cannot show.
use icechest.Base.{
  String, ◌≡◌, ◌∙◌, refl, true, Option, none, some, [], ◌∷◌, arith, if◌then◌else◌, length,
  sort_texts, eq_refl, ◌⊎◌, inl, inr, leb,
}
use icechest.Base.Dict
use icechest.Base.Dict.{Dict, get-nil}
use icechest.Base.Exec.{Result, ok, err, ◌>>=ᵣ◌}
use icechest.Catalog.{load_table, current_pointers, new_catalog}
use icechest.Convention.{TableBinding}
use icechest.Errors.{Error, not_exactly_one_reference, pointer_missing, not_declared}
use icechest.Platform.{Platform}
use icechest.Platform.Laws.{Records}
use icechest.Pointer.{read_pointers}
use icechest.Repo.{
  HybridSnapshot, given, snapshot_for, read, table, pointers, bindings, unresolvable,
}
use icechest.Transaction.{HybridRepo, Transaction, catalog_for, commit}
use icechest.Transaction.Atomic.{commit-publishes}
use icechest.Transaction.Handles.{commit-SameHandles}

module _ (P : Platform) where
  open P use {
    World, Metadata, Expression, load_file_io, read_metadata, table_name_from, lookup_branch,
    lookup_tag,
  }

  -- What a reader asks for.
  data Reference : Type 0 where
    at_branch at_tag at_snapshot : String → Reference

  unfoldable resolved : Reference → World → Result (Error Expression) String
  resolved (at_branch b) w = lookup_branch b w
  resolved (at_tag t) w = lookup_tag t w
  resolved (at_snapshot id) w = ok id

  -- The arguments of `read` that ask for one reference, or for none.
  data Asks : Option String → Option String → Option String → Reference → Type 0 where
    for_nothing : Asks none none none (at_branch "main")
    for_branch : (b : String) → Asks (some b) none none (at_branch b)
    for_tag : (t : String) → Asks none (some t) none (at_tag t)
    for_snapshot : (id : String) → Asks none none (some id) (at_snapshot id)

  -- `read` given one reference opens the snapshot that it names, given none the tip of `main`; and
  -- given more than one it raises without a look at the repository.
  read-resolves :
      (repo : HybridRepo) (branch tag snapshot_id : Option String) (w : World)
      → ((reference : Reference) × Asks branch tag snapshot_id reference
          × (read P repo branch tag snapshot_id w
              ≡ (resolved reference w >>=ᵣ λ id. ok (record { repo = repo; snapshot_id = id }))))
        ⊎ ((leb 2 (length (given (branch ∷ tag ∷ snapshot_id ∷ []))) ≡ true)
            × (read P repo branch tag snapshot_id w ≡ err not_exactly_one_reference))
  unfolding read snapshot_for given resolved
  read-resolves repo none none none w = inl (at_branch "main", for_nothing, refl)
  read-resolves repo (some b) none none w = inl (at_branch b, for_branch b, refl)
  read-resolves repo none (some t) none w = inl (at_tag t, for_tag t, refl)
  read-resolves repo none none (some id) w = inl (at_snapshot id, for_snapshot id, refl)
  read-resolves repo (some b) (some t) none w = inr (refl, refl)
  read-resolves repo (some b) none (some id) w = inr (refl, refl)
  read-resolves repo none (some t) (some id) w = inr (refl, refl)
  read-resolves repo (some b) (some t) (some id) w = inr (refl, refl)

  -- Where a table's pointer is in the map of the snapshot, `table`, asked by a plain name, reads
  -- the file that it names, with the properties of the repository.
  table-resolves :
      (name location : String) {found : Dict String} (s : HybridSnapshot) (w : World)
      → table_name_from name ≡ name
      → read_pointers P s.snapshot_id w ≡ ok found
      → Dict.get name found ≡ some location
      → table P name s w ≡ (
          read_metadata (load_file_io s.repo.io_properties) location w >>=ᵣ λ metadata.
          ok (record { name = name; metadata = metadata; metadata_location = location }))
  unfolding table pointers load_table catalog_for current_pointers new_catalog Dict.get Dict.update
  table-resolves name location s w plain read found = ground (arith, eq_refl name)

  -- Where the pointer is not in the map, and the bindings can be read, `table` raises: one error
  -- if the table is declared, another, with the sorted names of the declared tables, if not.
  table-missing :
      (name : String) {found : Dict String} {declared : Dict TableBinding} (s : HybridSnapshot)
      (w : World)
      → read_pointers P s.snapshot_id w ≡ ok found
      → Dict.get name found ≡ none
      → bindings P s w ≡ ok declared
      → table P name s w
        ≡ err (
            if Dict.contains name declared
            then pointer_missing name s.snapshot_id
            else not_declared name (sort_texts (Dict.keys declared)))
  unfolding table pointers unresolvable
  table-missing name s w read missing declares = ground arith

  -- Where a commit of the repository keeps its metadata and the catalog has the properties of its
  -- repository, a reader of the snapshot that a commit returned sees each table of the
  -- transaction's catalog, under a plain name, as the transaction itself would load it, whether
  -- the commit wrote the table or found it.
  pub table-commit :
      (name id location : String) (tx : Transaction P) (w : World)
      → Records P
      → table_name_from name ≡ name
      → tx.catalog.properties ≡ tx.repo.io_properties
      → (commit P (tx, w)).0 ≡ ok id
      → Dict.get name (current_pointers (commit P (tx, w)).1.0.catalog) ≡ some location
      → let (tx', w') = (commit P (tx, w)).1 in
        table P name (record { repo = tx.repo; snapshot_id = id }) w'
        ≡ load_table P name tx'.catalog w'
  unfolding load_table
  table-commit name id location tx w laws plain same done there =
      let (tx', w') = (commit P (tx, w)).1 in
      let kept = commit-SameHandles P tx w in
      table-resolves name location (record { repo = tx.repo; snapshot_id = id }) w' plain
        (commit-publishes P laws tx w id done).0 there
      ∙ ground (arith, kept.properties)
