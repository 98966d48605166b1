-- ===== src/Errors.antt =====
-- errors.py, and the other exceptions that the package raises or lets through.
use icechest.Base.{ℕ, String, List}

-- A row filter as the caller gives it: its text, or an expression of PyIceberg.
pub data Predicate (Expression : Type 0) : Type 0 where
  text : String → Predicate Expression
  expression : Expression → Predicate Expression

pub data Error (Expression : Type 0) : Type 0 where
  -- `TableConflictError(table, predicate, snapshot_ids)`
  table_conflict : String → Predicate Expression → List ℕ → Error Expression
  -- `UnreplayableChangeError(tables)`
  unreplayable_change : List String → Error Expression
  -- `icechunk.ConflictError`
  conflict : Error Expression
  -- PyIceberg's `TableAlreadyExistsError`, `NoSuchTableError` and `ValidationException`
  table_already_exists : String → Error Expression
  no_such_table : String → Error Expression
  validation_exception : Error Expression
  -- `NotImplementedError`: of a read-only catalog, and of an operation without a meaning here
  read_only_catalog : Error Expression
  unsupported : String → Error Expression
  -- `ValueError`, one constructor for each place
  session_on_other_branch : String → String → Error Expression
  made_no_changes : String → Error Expression
  not_exactly_one_reference : Error Expression
  pointer_missing : String → String → Error Expression
  -- `KeyError` for a table that the group does not declare
  not_declared : String → List String → Error Expression
  -- attributes that have not the shape which the convention gives them
  malformed_attributes : Error Expression
  -- any other exception of a library
  external : String → Error Expression
