-- ===== src/Demo/Conventions.antt =====
-- demo/conventions.py: the convention attributes of a band group.
pub mod Layout
use icechest.Base.{
  ℕ, zero, suc, ◌+◌, ◌-◌, String, ◌<>◌, Option, none, some, List, [], ◌∷◌, decimal, get_elem?, take,
}
use icechest.Base.Dict.{Dict}
use icechest.Base.Exec.{Result, ok, err, ◌>>=ᵣ◌}

abbrev pub multiscales_convention : Dict String
multiscales_convention =
    (
      "schema_url",
      "https://raw.githubusercontent.com/zarr-conventions/multiscales/refs/tags/v0.1/schema.json",
    )
    ∷ ("spec_url", "https://github.com/zarr-conventions/multiscales/blob/v0.1/README.md")
    ∷ ("uuid", "d35379db-88df-4056-af3a-620245f8e347")
    ∷ ("name", "multiscales")
    ∷ ("description", "Multiscale layout of zarr datasets")
    ∷ []

abbrev pub proj_convention : Dict String
proj_convention =
    (
      "schema_url",
      "https://raw.githubusercontent.com/zarr-conventions/proj/refs/tags/v0.1/schema.json",
    )
    ∷ ("spec_url", "https://github.com/zarr-conventions/proj/blob/v0.1/README.md")
    ∷ ("uuid", "f17cb550-5864-4468-aeb7-f3180cfb622f")
    ∷ ("name", "proj")
    ∷ ("description", "Coordinate reference system information for geospatial data")
    ∷ []

abbrev pub spatial_convention : Dict String
spatial_convention =
    (
      "schema_url",
      "https://raw.githubusercontent.com/zarr-conventions/spatial/refs/tags/v0.1/schema.json",
    )
    ∷ ("spec_url", "https://github.com/zarr-conventions/spatial/blob/v0.1/README.md")
    ∷ ("uuid", "689b58e2-cf7b-45e0-9fff-9cfc0883d6b4")
    ∷ ("name", "spatial")
    ∷ ("description", "Spatial coordinate information")
    ∷ []

abbrev pub multiscales_group : String
multiscales_group = "multiscales"

abbrev pub level_asset_prefix : String
level_asset_prefix = "multiscales/"

-- An entry of the layout: its `asset`, and for an overview `derived_from` and `scale`.
pub data LayoutEntry : Type 0 where
  base_level : String → LayoutEntry
  overview : String → String → List ℕ → LayoutEntry

-- `f"{prefix}{level}/{array_name}"`
unfoldable pub level_path : String → String → ℕ → String
level_path prefix array_name level = prefix <> (decimal level <> ("/" <> array_name))

-- The loop over `range(level, level + count)`, from level 1 on.
unfoldable pub overviews : String → String → ℕ → ℕ → List LayoutEntry
overviews prefix array_name level zero = []
overviews prefix array_name level (suc count) =
    overview (level_path prefix array_name level) (level_path prefix array_name (level - 1))
      (2 ∷ 2 ∷ [])
    ∷ overviews prefix array_name (level + 1) count

unfoldable pub multiscale_layout : ℕ → String → String → List LayoutEntry
unfolding overviews
multiscale_layout levels array_name prefix =
    base_level (level_path prefix array_name 0) ∷ overviews prefix array_name 1 (levels - 1)

-- Python's floats, as far as the code goes: sums, products, and integers among them.
pub record Floats : Type 1 where
  pub Float : Type 0
  pub add : Float → Float → Float
  pub mul : Float → Float → Float
  pub of_int : ℕ → Float

-- `IndexError`
pub data TooShort : Type 0 where
  too_short : TooShort

unfoldable pub item : {A : Type 0} → List A → ℕ → Result TooShort A
item xs i = elim (get_elem? xs i) [ none ↦ err too_short | some x ↦ ok x ]

module _ (F : Floats) where
  open F use {Float, add, mul, of_int}

  -- The attributes of a band group, a field for each key; those whose value is fixed are the three
  -- conventions and the names of the dimensions.
  pub record GranuleAttrs : Type 0 where
    pub zarr_conventions : List (Dict String)
    pub proj_code : String
    pub spatial_shape : List ℕ
    pub spatial_dimensions : List String
    pub spatial_transform : List Float
    pub spatial_bbox : List Float
    pub multiscales_layout : List LayoutEntry

  -- `granule_attrs`
  unfoldable pub granule_attrs :
      ℕ → List ℕ → List Float → ℕ → String → String → Result TooShort GranuleAttrs
  unfolding item multiscale_layout
  granule_attrs epsg shape transform levels array_name prefix =
      let affine = take 6 transform in
      item shape 0 >>=ᵣ λ rows. item shape 1 >>=ᵣ λ cols. item affine 2 >>=ᵣ λ xmin.
      item affine 5 >>=ᵣ λ ymax. item affine 0 >>=ᵣ λ width. item affine 4 >>=ᵣ λ height.
      ok (record {
        zarr_conventions = multiscales_convention ∷ proj_convention ∷ spatial_convention ∷ [];
        proj_code = "EPSG:" <> decimal epsg;
        spatial_shape = rows ∷ cols ∷ [];
        spatial_dimensions = "y" ∷ "x" ∷ [];
        spatial_transform = affine;
        spatial_bbox =
            xmin
            ∷ add ymax (mul (of_int rows) height)
            ∷ add xmin (mul (of_int cols) width)
            ∷ ymax
            ∷ [];
        multiscales_layout = multiscale_layout levels array_name prefix;
      })
