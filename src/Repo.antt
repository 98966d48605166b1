-- ===== src/Repo.antt =====
-- The reading side of transaction.py: `HybridRepo.read`, and `HybridSnapshot`, the arrays and the
-- tables at one snapshot.
pub mod Reading
use icechest.Base.{
  ℕ, String, Bool, true, false, not, ◌&&◌, Option, none, some, List, [], ◌∷◌, if◌then◌else◌, nat_eq,
  length, is_some, sort_texts,
}
use icechest.Base.Dict
use icechest.Base.Dict.{Dict}
use icechest.Base.Exec.{Result, ok, err, ◌>>=ᵣ◌}
use icechest.Catalog.{Table, load_table}
use icechest.Convention.{TableBinding, read_bindings}
use icechest.Errors.{Error, not_exactly_one_reference, pointer_missing, not_declared}
use icechest.Platform.{Platform}
use icechest.Pointer.{read_pointers}
use icechest.Transaction.{HybridRepo, catalog_for}

-- `HybridSnapshot(repo, snapshot_id)`
pub record HybridSnapshot : Type 0 where
  pub repo : HybridRepo
  pub snapshot_id : String

-- `[x for x in references if x is not None]`
unfoldable pub given : List (Option String) → List String
given [] = []
given (none ∷ references) = given references
given (some x ∷ references) = x ∷ given references

module _ (P : Platform) where
  open P use {
    World, Metadata, Expression, Session, lookup_branch, lookup_tag, readonly_session, open_group,
    group_attributes,
  }

  -- The tail of `_snapshot_for`. With exactly one reference given its last clause is not reached.
  looked_up :
      Option String → Option String → Option String → World → Result (Error Expression) String
  looked_up branch tag (some snapshot_id) w = ok snapshot_id
  looked_up branch (some tag) none w = lookup_tag tag w
  looked_up (some branch) none none w = lookup_branch branch w
  looked_up none none none w = err not_exactly_one_reference

  -- `_snapshot_for`
  unfoldable pub snapshot_for :
      Option String → Option String → Option String → World → Result (Error Expression) String
  unfolding given looked_up
  snapshot_for branch tag snapshot_id w =
      if not (nat_eq (length (given (branch ∷ tag ∷ snapshot_id ∷ []))) 1)
      then err not_exactly_one_reference
      else looked_up branch tag snapshot_id w

  -- `read`
  unfoldable pub read :
      HybridRepo
      → Option String
      → Option String
      → Option String
      → World
      → Result (Error Expression) HybridSnapshot
  unfolding snapshot_for
  read repo branch tag snapshot_id w =
      let unset = not (is_some branch) && (not (is_some tag) && not (is_some snapshot_id)) in
      snapshot_for (if unset then some "main" else branch) tag snapshot_id w >>=ᵣ λ id.
      ok (record { repo = repo; snapshot_id = id })

  -- `group`, by way of `store`
  unfoldable pub group : HybridSnapshot → World → Result (Error Expression) Session
  group s w = readonly_session s.snapshot_id w >>=ᵣ open_group

  -- `pointers`
  unfoldable pub pointers : HybridSnapshot → World → Result (Error Expression) (Dict String)
  pointers s w = read_pointers P s.snapshot_id w

  -- `bindings`
  unfoldable pub bindings : HybridSnapshot → World → Result (Error Expression) (Dict TableBinding)
  unfolding group
  bindings s w = group s w >>=ᵣ λ root. group_attributes root >>=ᵣ read_bindings

  -- `_unresolvable`: the exception that `table` raises, or one that comes of reading the group.
  unfoldable pub unresolvable : String → HybridSnapshot → World → Error Expression
  unresolvable name s w = elim (bindings s w) [
    | err e ↦ e
    | ok declared ↦
        if Dict.contains name declared
        then pointer_missing name s.snapshot_id
        else not_declared name (sort_texts (Dict.keys declared))
  ]

  -- `table`
  unfoldable pub table :
      String → HybridSnapshot → World → Result (Error Expression) (Table Metadata)
  unfolding pointers
  table name s w = pointers s w >>=ᵣ λ found. elim (Dict.get name found) [
    | none ↦ err (unresolvable name s w)
    | some location ↦ load_table P name (catalog_for s.repo ((name, location) ∷ []) true) w
  ]
