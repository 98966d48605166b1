-- ===== src/Demo/Source.antt =====
-- demo/source.py: the selection of granule records from the archive's table.
pub mod Halves
use icechest.Base.{
  ℕ, String, ◌<>◌, Bool, true, false, Option, none, some, List, [], ◌∷◌, ◌++◌, if◌then◌else◌,
}
use icechest.Base.Dict.{Dict}
use icechest.Base.Exec.{Result, ok, err, ◌>>=ᵣ◌}

abbrev pub archive_root : String
archive_root = "s3://nasa-maap-data-store/file-staging/nasa-map/hls-stac-geoparquet-archive"

abbrev pub datetime_floor : String
datetime_floor = "2026-01-01T00:00:00+00:00"

-- PyIceberg: the expressions by which a filter is built, static tables, and scans of them; and
-- PyArrow's test of a row's column.
pub record Archive : Type 1 where
  pub Expression : Type 0
  pub Float : Type 0
  pub Table : Type 0
  pub Row : Type 0
  pub at_least_text : String → String → Expression
  pub less_than_text : String → String → Expression
  pub at_least : String → Float → Expression
  pub at_most : String → Float → Expression
  pub not_null : String → Expression
  pub starts_with : String → String → Expression
  -- `And`
  pub both : Expression → Expression → Expression
  -- `StaticTable.from_metadata(url, properties=...)`
  pub from_metadata : String → Dict String → Result String Table
  -- `table.scan(row_filter=..., limit=...).to_arrow()`
  pub scan : Table → Expression → ℕ → Result String (List Row)
  -- `pc.is_valid(rows[column])`, of one row
  pub is_valid : String → Row → Bool

-- The archive's metadata file for a collection in a version.
unfoldable pub archive_metadata_url : String → String → String
archive_metadata_url collection version =
    archive_root
    <> ("/" <> (version <> ("/" <> (collection <> "/iceberg/metadata/latest.metadata.json"))))

module _ (A : Archive) where
  open A use {
    Expression, Float, Table, Row, at_least_text, less_than_text, at_least, at_most, not_null,
    starts_with, both, from_metadata, scan, is_valid,
  }

  unfoldable pub open_archive : String → String → String → Result String Table
  open_archive collection version region =
      from_metadata (archive_metadata_url collection version) (("s3.region", region) ∷ [])

  -- What a caller may select by: `bbox` as west, south, east and north, `tile`, `datetime`.
  pub record Selection : Type 0 where
    pub bbox : Option (Float × Float × Float × Float)
    pub tile : Option String
    pub datetime : Option (String × String)

  -- The terms of a range of times, of a box, and of a tile.
  datetime_terms : Option (String × String) → List Expression
  datetime_terms none = []
  datetime_terms (some (start, end)) =
      at_least_text "datetime" start ∷ less_than_text "datetime" end ∷ []

  bbox_terms : Option (Float × Float × Float × Float) → List Expression
  bbox_terms none = []
  bbox_terms (some (west, south, east, north)) =
      at_least "bbox.xmax" west
      ∷ at_most "bbox.xmin" east
      ∷ at_least "bbox.ymax" south
      ∷ at_most "bbox.ymin" north
      ∷ []

  tile_terms : Option String → List Expression
  tile_terms none = []
  tile_terms (some tile) = starts_with "id" ("HLS.L30." <> (tile <> ".")) ∷ []

  -- `functools.reduce(And, terms)`, of a first term and the others
  unfoldable pub conjunction : Expression → List Expression → Expression
  conjunction first [] = first
  conjunction first (term ∷ terms) = conjunction (both first term) terms

  -- The terms that follow the floor and the test of `proj:transform`.
  unfoldable pub selection_terms : Selection → List Expression
  unfolding datetime_terms bbox_terms tile_terms
  selection_terms s = datetime_terms s.datetime ++ (bbox_terms s.bbox ++ tile_terms s.tile)

  unfoldable pub granule_filter : Selection → Bool → String → Expression
  granule_filter s require_proj_transform floor =
      conjunction (at_least_text "datetime" floor) (
        (if require_proj_transform then not_null "proj:transform" ∷ [] else [])
        ++ selection_terms s)

  -- `_drop_null_proj_transform`
  unfoldable pub drop_null_proj_transform : List Row → List Row
  drop_null_proj_transform [] = []
  drop_null_proj_transform (row ∷ rows) =
      let rest = drop_null_proj_transform rows in
      if is_valid "proj:transform" row then row ∷ rest else rest

  unfoldable pub select_granules : Table → Selection → ℕ → String → Result String (List Row)
  select_granules table s limit floor = scan table (granule_filter s false floor) limit >>=ᵣ λ rows.
      ok (drop_null_proj_transform rows)
