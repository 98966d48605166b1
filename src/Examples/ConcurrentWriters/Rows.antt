-- ===== src/Examples/ConcurrentWriters/Rows.antt =====
-- What examples/concurrent_writers.py takes from libraries, its rows, and what it prints.
use icechest.Base.{ℕ, String, Bool, false, List, [], ◌∷◌}
use icechest.Base.Dict.{Dict}
use icechest.Base.Exec.{Result}
use icechest.Convention.{TableBinding}
use icechest.Errors.{Error}
use icechest.Platform.{Platform}

-- What the script takes from Zarr, PyArrow and the standard library.
pub record Script (P : Platform) : Type 1 where
  -- `tx.group.create_array("reflectance", shape=(400,), dtype="f4", chunks=(10,))`
  pub create_array : P.Session → Result (Error P.Expression) P.Session
  -- `group["reflectance"][from:to] = np.full(to - from, value, "f4")`
  pub fill : ℕ → ℕ → ℕ → P.Session → Result (Error P.Expression) P.Session
  -- PyArrow: `pa.schema` of fields, each a name, a type and whether it is nullable, and `pa.table`
  -- of columns with one value each, under a schema
  pub pa_schema : List (String × String × Bool) → P.RawSchema
  pub Cell : Type 0
  pub text_cell : String → Cell
  -- `pa.array([np.datetime64(day, "ms")], pa.timestamp("ms"))`
  pub timestamp_cell : String → Cell
  pub pa_table : P.RawSchema → List (String × Cell) → P.Rows
  pub unpartitioned : P.PartitionSpec
  pub unsorted : P.SortOrder
  -- PyIceberg's `table.scan().to_arrow()`, the `granule_id` column, and the number of rows
  pub scan : P.FileIO → P.Metadata → P.World → Result (Error P.Expression) P.Rows
  pub granule_ids : P.Rows → List String
  pub num_rows : P.Rows → ℕ
  -- `group["reflectance"][n]`
  pub element : ℕ → P.Session → Result (Error P.Expression) ℕ
  -- `repo.repo.create_tag`
  pub create_tag : String → String → P.World → Result (Error P.Expression) (Unit {0}) × P.World

module _ {P : Platform} (script : Script P) where
  open script use {pa_schema, text_cell, timestamp_cell, pa_table}

  -- `GRANULES`
  abbrev pub granules : P.RawSchema
  granules = pa_schema (
      ("granule_id", "string", false)
      ∷ ("datetime", "timestamp[ms]", false)
      ∷ ("array_slice", "string", false)
      ∷ [])

  -- `row`
  unfoldable pub row : String → String → String → P.Rows
  row granule_id day array_slice = pa_table granules (
      ("granule_id", text_cell granule_id)
      ∷ ("datetime", timestamp_cell day)
      ∷ ("array_slice", text_cell array_slice)
      ∷ [])

-- What the script prints: the bindings, the two snapshots, the sorted granules and two values of the
-- array after both, where the table's pointer leads, the granules after the delete, and the number of
-- rows and a value at the tag and at the tip.
pub record Report : Type 0 where
  pub bound : Dict TableBinding
  pub snapshots : String × String
  pub both : List String × ℕ × ℕ × String
  pub remaining : List String
  pub pinned : ℕ × ℕ
  pub latest : ℕ × ℕ
