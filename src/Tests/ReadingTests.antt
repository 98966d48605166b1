-- ===== src/Tests/ReadingTests.antt =====
-- Pointers, bindings and tables as a reader sees them, on the platform in memory.
use icechest.Base.{
  ℕ, String, ◌≡◌, refl, false, Option, none, some, List, [], ◌∷◌, inl, or_else, nat_eq, any, ◌&&◌,
  not, IsAscending,
}
use icechest.Base.Dict
use icechest.Base.Dict.{Dict}
use icechest.Base.Exec.{Result, ok}
use icechest.Catalog.{IcechunkCatalog, load_table, current_pointers, table_exists}
use icechest.Convention.{
  convention_metadata_object, all_to_attrs, declared_conventions, all_from_attrs, same_attribute,
  same_dict, is_ours, same_list, to_attrs, from_attrs, TableBinding, declare, after_declare,
  declaration, holds_already, read_bindings, register, declared_tables,
}
use icechest.Convention.Bindings.{declare-read_bindings}
use icechest.Intent.{delete_rows, validate, validate_removal, validate_table, refuse_if_any}
use icechest.Intent.Removal.{IsReplayable, validate-IsReplayable}
use icechest.Validation.{as_predicate, walk, conflicting_adds}
use icechest.Validation.Window.{is_of, conflicting_adds-exact}
use icechest.Errors.{Error, expression}
use icechest.Formats.{Attributes}
use icechest.Repo.{HybridSnapshot, table}
use icechest.Repo.Reading.{table-commit}
use icechest.Tests.CatalogTests.{seeded}
use icechest.Tests.Memory.{memory, Meta}
use icechest.Tests.MemoryLaws.{memory-Records}
use icechest.Tests.TransactionTests.{start, contested, machine}
use icechest.Transaction.{HybridRepo, commit}

abbrev repo : HybridRepo
repo = record { warehouse = "w"; io_properties = [] }

abbrev root : HybridSnapshot
root = record { repo = repo; snapshot_id = "root" }

-- One declared table, and attributes of others.
abbrev one : Dict TableBinding
one = ("g", record { location = "w/g" }) ∷ []

abbrev two : Dict TableBinding
two = ("h", record { location = "w/h" }) ∷ []

abbrev start_pointers : Dict String
start_pointers = ("g", "w/g/metadata/0.json") ∷ []

abbrev declared_one : Attributes
declared_one = declaration (convention_metadata_object ∷ []) (("g", ("location", "w/g") ∷ []) ∷ [])

abbrev declared_both : Attributes
declared_both =
    declaration (convention_metadata_object ∷ [])
      (("g", ("location", "w/g") ∷ []) ∷ ("h", ("location", "w/h") ∷ []) ∷ [])

first_declaration : Result (Error ℕ) (Option Attributes)
unfolding declare declaration holds_already register Dict.get Dict.update all_to_attrs same_list
    is_ours declared_conventions declared_tables same_attribute same_dict to_attrs all_from_attrs
    from_attrs
first_declaration = declare one []

-- A second table beside the first.
declare-read_bindings_example :
    (after : Dict TableBinding) × (read_bindings {E = ℕ}
        (after_declare declared_one (some declared_both))
      ≡ ok after)
    × ((name : String) → Dict.get name after ≡ or_else (Dict.get name two) (Dict.get name one))
unfolding first_declaration read_bindings declared_tables
declare-read_bindings_example =
    declare-read_bindings {E = ℕ} two declared_one {written = some declared_both} {before = one}
      refl refl

-- To declare the first table again writes nothing.
declared_again : declare {E = ℕ} one declared_one ≡ ok none
unfolding first_declaration
declared_again = refl

-- The commit of `TransactionTests`, read back at its snapshot.
table-commit_example :
    let (tx, w) = (commit (memory false) (start false, contested)).1 in
    table (memory false) "g" (record { repo = repo; snapshot_id = "snapshot-2" }) w
    ≡ load_table (memory false) "g" tx.catalog w
unfolding machine
table-commit_example =
    table-commit (memory false) "g" "snapshot-2" "w/g/metadata/00002-1.metadata.json" (start false)
      contested (memory-Records false) refl refl refl refl

abbrev catalog : IcechunkCatalog
catalog = (start false).catalog

validate-IsReplayable_example :
    IsReplayable (memory false) "g" (expression 9) (some 1) catalog seeded
unfolding validate validate_removal validate_table table_exists load_table refuse_if_any
    conflicting_adds Dict.get current_pointers Dict.update
validate-IsReplayable_example =
    validate-IsReplayable (memory false) "g" [] (expression 9) (some 1) catalog seeded
      (delete_rows "g" (expression 9)) (inl refl) refl

-- The version after an append of the row 3, by the snapshot 2.
abbrev grown : Meta
grown = record { rows = 1 ∷ 2 ∷ 3 ∷ []; history = (2, 3 ∷ []) ∷ (1, 1 ∷ 2 ∷ []) ∷ []; log = 2 }

conflicting_adds-exact_example :
    (ids : List ℕ) × (conflicting_adds (memory false) grown 1 2 (expression 3) catalog seeded
      ≡ ok ids)
    × IsAscending ids
    × ((id : ℕ) → any (λ x. nat_eq x id) ids ≡ (any (is_of id) (some 2 ∷ []) && not (nat_eq id 1)))
unfolding walk as_predicate
conflicting_adds-exact_example =
    conflicting_adds-exact (memory false) grown 1 2 (expression 3) catalog seeded 1 2 (some 2 ∷ [])
      refl refl refl refl
